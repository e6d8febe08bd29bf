-- ===== src/AnnasArchive/FastDownload/Mirrors.antt =====
-- What the mirrors of a fast download are: safe links of distinct origins.

use pullbox_direct_providers.Prelude.{
  ℕ, ◌≤◌, ◌≡◌, sym, inl, inr, true, false, Option, some, List, [], ◌∷◌, arith, length, contains,
  ℕ_eq, String_eq, Pair_eq, String, Bool-cases, Option-cases, eq_iff,
}
use pullbox_direct_providers.Prelude.Json.{Json, null, bool, int, float, str, arr, obj, Fields, get}
use pullbox_direct_providers.Prelude.Optional.{>>=-eq-some, given-eq-some}
use pullbox_direct_providers.Prelude.Text.{rstrip, is_char, is_empty}
use pullbox_direct_providers.Contract.Net.{Net, Url}
use pullbox_direct_providers.Contract.Models.{Mirror}
use pullbox_direct_providers.AnnasArchive.Search.{no_text}
use pullbox_direct_providers.AnnasArchive.FastDownload.{
  DownloadLink, safe_download_origin, origin_of_url, payload_link, mirrors_from, port_or_https,
}

module _ (net : Net) where
  -- An https URL with a host and without credentials, whose origin is `origin`.
  unfoldable pub IsSafeLink : String × ℕ → String → Type 0
  unfolding rstrip port_or_https
  IsSafeLink origin url =
      (parsed : Url) × (host : String) × (port : Option ℕ) × (net.urlsplit url ≡ some parsed)
      × (parsed.scheme ≡ "https")
      × (parsed.hostname ≡ some host)
      × (is_empty host ≡ false)
      × (no_text parsed.username ≡ true)
      × (no_text parsed.password ≡ true)
      × (parsed.port ≡ some port)
      × (origin ≡ (rstrip (is_char b'.') (net.casefold host), port_or_https port))

  safe_download_origin-IsSafeLink :
      (url : String) (origin : String × ℕ)
      → safe_download_origin net url ≡ some origin
      → IsSafeLink origin url
  unfolding safe_download_origin IsSafeLink origin_of_url
  safe_download_origin-IsSafeLink url origin h =
      let (parsed, split, rest) = >>=-eq-some (net.urlsplit url) (origin_of_url net) h in
      let (port, reads, behind) = >>=-eq-some parsed.port _ rest in
      let (host, named, tested) = >>=-eq-some parsed.hostname _ behind in
      let (passes, same) = given-eq-some _ _ tested in
      (
        parsed,
        host,
        port,
        split,
        ground (arith, eq_iff parsed.scheme "https"),
        named,
        ground arith,
        ground arith,
        ground arith,
        reads,
        sym same,
      )

  -- The mirrors have these origins, one by one, and are safe links to them.
  abbrev pub AreSafe : List (String × ℕ) → List Mirror → Type 0
  AreSafe [] [] = Unit
  AreSafe (origin ∷ origins) (mirror ∷ mirrors) =
      IsSafeLink origin mirror.final_url × AreSafe origins mirrors
  AreSafe _ _ = ⊥

  -- Origins that are distinct and none of those seen.
  abbrev pub AreNew : List (String × ℕ) → List (String × ℕ) → Type 0
  AreNew seen [] = Unit
  AreNew seen (origin ∷ origins) = (contains origin seen ≡ false) × AreNew (origin ∷ seen) origins

  payload_link-IsSafeLink :
      (value : Json) (link : DownloadLink)
      → payload_link net value ≡ some link
      → IsSafeLink link.origin link.url
  unfolding payload_link
  payload_link-IsSafeLink (str raw_url) link h =
      let (origin, safe, same) = >>=-eq-some (safe_download_origin net raw_url) _ h in
      let known : link ≡ record { url = raw_url; origin = origin } = cc in
      rw known (safe_download_origin-IsSafeLink raw_url origin safe)
  payload_link-IsSafeLink null link h = cc
  payload_link-IsSafeLink (bool b) link h = cc
  payload_link-IsSafeLink (int n) link h = cc
  payload_link-IsSafeLink (float m k) link h = cc
  payload_link-IsSafeLink (arr vs) link h = cc
  payload_link-IsSafeLink (obj fs) link h = cc

  abbrev pub NewMirrors : List (String × ℕ) → List Mirror → Type 0
  NewMirrors seen mirrors =
      (origins : List (String × ℕ)) × AreSafe origins mirrors × AreNew seen origins

  pub mirrors_from-NewMirrors :
      (md5 : String) (entries : List (ℕ × Fields)) (seen : List (String × ℕ))
      → NewMirrors seen (mirrors_from net md5 entries seen)
  unfolding mirrors_from
  mirrors_from-NewMirrors md5 [] seen = ([], tt, tt)
  mirrors_from-NewMirrors md5 ((index, payload) ∷ rest) seen =
      elim (Option-cases (payload_link net (get "download_url" payload))) [
        | inl none_there ↦ rw none_there (mirrors_from-NewMirrors md5 rest seen)
        | inr (link, there) ↦ elim (Bool-cases (contains link.origin seen)) [
          | inl old ↦ rw (there, old) (mirrors_from-NewMirrors md5 rest seen)
          | inr new ↦
              let (origins, safe, fresh) = mirrors_from-NewMirrors md5 rest (link.origin ∷ seen) in
              rw (there, new)
                (link.origin ∷ origins, (payload_link-IsSafeLink _ link there, safe), (new, fresh))
        ]
      ]

  pub length-mirrors_from-le :
      (md5 : String) (entries : List (ℕ × Fields)) (seen : List (String × ℕ))
      → length (mirrors_from net md5 entries seen) ≤ length entries
  unfolding mirrors_from
  length-mirrors_from-le md5 [] seen = omega arith
  length-mirrors_from-le md5 ((index, payload) ∷ rest) seen =
      let ih = length-mirrors_from-le md5 rest in
      elim (Option-cases (payload_link net (get "download_url" payload))) [
        | inl none_there ↦ rw none_there (let few = ih seen in omega arith)
        | inr (link, there) ↦ elim (Bool-cases (contains link.origin seen)) [
          | inl old ↦ rw (there, old) (let few = ih seen in omega arith)
          | inr new ↦ rw (there, new) (let few = ih (link.origin ∷ seen) in omega arith)
        ]
      ]
