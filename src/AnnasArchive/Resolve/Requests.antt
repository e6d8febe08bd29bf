-- ===== src/AnnasArchive/Resolve/Requests.antt =====
-- Which requests a resolution of Anna's Archive makes, and what it returns.
use Prim.Native.String
use pullbox_direct_providers.Prelude.{
  ℕ, suc, ◌≤◌, ◌≡◌, refl, sym, ap, subst, ◌∙◌, ◌⊎◌, false, not, Option, List, [], ◌∷◌, arith,
  length, take, ℕ_eq, String_eq, String,
}
use pullbox_direct_providers.Prelude.Int.{ℤ}
use pullbox_direct_providers.Prelude.Json.{Fields}
use pullbox_direct_providers.Prelude.Result.{
  Result, ok, raised, >>=-eq-ok, require-eq-ok, ok-injective,
}
use pullbox_direct_providers.Prelude.Text.{is_empty}
use pullbox_direct_providers.Contract.Net.{Net}
use pullbox_direct_providers.Contract.Models.{Mirror, QuotaStatus}
use pullbox_direct_providers.Contract.Failures.{Failure}
use pullbox_direct_providers.AnnasArchive.Search.{
  validate_official_domain, default_official_url, or_text,
}
use pullbox_direct_providers.AnnasArchive.FastDownload.{
  is_quota_error, is_candidate_unavailable, raise_primary_fast_download_error,
  secure_fast_download_mirrors, quota_status, mirrors_from,
}
use pullbox_direct_providers.AnnasArchive.FastDownload.Mirrors.{
  NewMirrors, mirrors_from-NewMirrors, length-mirrors_from-le,
}
use pullbox_direct_providers.AnnasArchive.Resolve.{
  ResolveResult, FastDownloadFetcher, Round, alternate_payloads, result_of, collected, after_first,
  after_check, requests_of, checked_target, resolve_target, resolve, anna_md5,
}
use pullbox_direct_providers.AnnasArchive.Resolve.Rounds.{
  domain_indices, alternate_payloads-InOrder,
}

module _ (net : Net) where
  -- An answer that passes the checks on the primary one.
  unfoldable pub IsGood : ℕ → Fields → Type 0
  IsGood status payload =
      ((status ≡ 200) ⊎ (status ≡ 204))
      × (is_quota_error net payload ≡ false)
      × (is_candidate_unavailable net payload ≡ false)

  raise_primary-IsGood :
      (status : ℕ) (payload : Fields)
      → raise_primary_fast_download_error net status payload ≡ ok tt
      → IsGood status payload
  unfolding IsGood raise_primary_fast_download_error
  raise_primary-IsGood status payload h = ground arith

  -- At least one mirror and at most one for each index, safe and of distinct origins.
  unfoldable pub AreMirrors : List Mirror → Type 0
  AreMirrors mirrors = (1 ≤ length mirrors) × (length mirrors ≤ 4) × NewMirrors net [] mirrors

  module _ (int_of_text : String → Option ℤ) where
    -- What a resolution that returns has found, for the candidate of an MD5.
    unfoldable pub IsFastDownload : String → Result Failure (ℕ × Fields) → ResolveResult → Type 0
    unfolding AreMirrors IsGood
    IsFastDownload md5 first r =
        (status : ℕ) × (payload : Fields) × (mirrors : List Mirror) × (first ≡ ok (status, payload))
        × IsGood status payload
        × (r.artifacts
            ≡ record {
              artifact_id = String.◌++◌ "anna-fast:" md5;
              issue_ids = md5 ∷ [];
              mirrors = mirrors;
            }
              ∷ [])
        × AreMirrors mirrors
        × (r.quota ≡ quota_status int_of_text payload)

    result_of-Mirrors :
        (md5 : String) (mirrors : List Mirror) (quota : Option QuotaStatus) (r : ResolveResult)
        → result_of net md5 mirrors quota ≡ ok r
        → (1 ≤ length mirrors)
          × (r.artifacts
              ≡ record {
                artifact_id = String.◌++◌ "anna-fast:" md5;
                issue_ids = md5 ∷ [];
                mirrors = mirrors;
              }
                ∷ [])
          × (r.quota ≡ quota)
    result_of-Mirrors md5 [] quota r h = cc
    result_of-Mirrors md5 (m ∷ ms) quota r h =
        let known = ok-injective h in
        (omega arith, ap (λ r. r.artifacts) (sym known), ap (λ r. r.quota) (sym known))

    collected-Mirrors :
        (md5 : String) (payload : Fields) (others : Result Failure (List (ℕ × Fields)))
        (r : ResolveResult)
        → ((ps : List (ℕ × Fields)) → others ≡ ok ps → length ps ≤ 3)
        → collected net int_of_text md5 payload others ≡ ok r
        → (mirrors : List Mirror) × (r.artifacts
            ≡ record {
              artifact_id = String.◌++◌ "anna-fast:" md5;
              issue_ids = md5 ∷ [];
              mirrors = mirrors;
            }
              ∷ [])
          × AreMirrors mirrors
          × (r.quota ≡ quota_status int_of_text payload)
    unfolding collected AreMirrors secure_fast_download_mirrors
    collected-Mirrors md5 payload (raised e) r few h = cc
    collected-Mirrors md5 payload (ok others) r few h =
        let all_payloads = (0, payload) ∷ others in
        let mirrors = mirrors_from net md5 all_payloads [] in
        let (some_there, artifacts, quota) =
          result_of-Mirrors md5 mirrors (quota_status int_of_text payload) r h in
        let fewer = few others refl in
        let bound = length-mirrors_from-le net md5 all_payloads [] in
        (
          mirrors,
          artifacts,
          (some_there, omega arith, mirrors_from-NewMirrors net md5 all_payloads []),
          quota,
        )

    checked-ok :
        (md5 : String) (status : ℕ) (payload : Fields) (check : Result Failure (Unit {0}))
        (round : Round) (r : ResolveResult)
        → raise_primary_fast_download_error net status payload ≡ check
        → ((ps : List (ℕ × Fields)) → round.0 ≡ ok ps → length ps ≤ 3)
        → (after_check net int_of_text md5 payload check round).0 ≡ ok r
        → IsFastDownload md5 (ok (status, payload)) r
    unfolding IsFastDownload
    checked-ok md5 status payload (raised e) round r eq few h = cc
    checked-ok md5 status payload (ok tt) round r eq few h =
        let (mirrors, artifacts, are, quota) = collected-Mirrors md5 payload round.0 r few h in
        (
          status,
          payload,
          mirrors,
          refl,
          raise_primary-IsGood status payload eq,
          artifacts,
          are,
          quota,
        )

    check-InOrder :
        (md5 : String) (payload : Fields) (check : Result Failure (Unit {0})) (round : Round)
        (n : ℕ) (indices : List ℕ)
        → round.1 ≡ take n indices
        → (m : ℕ) × ((after_check net int_of_text md5 payload check round).1 ≡ take m (0 ∷ indices))
    check-InOrder md5 payload (raised e) round n indices h = (1, refl)
    check-InOrder md5 payload (ok u) round n indices h = (suc n, ap (◌∷◌ 0) h)

    after_first-ok :
        (md5 : String) (first : Result Failure (ℕ × Fields)) (round : Round) (r : ResolveResult)
        → ((ps : List (ℕ × Fields)) → round.0 ≡ ok ps → length ps ≤ 3)
        → (after_first net int_of_text md5 first round).0 ≡ ok r
        → IsFastDownload md5 first r
    unfolding after_first IsFastDownload
    after_first-ok md5 (raised e) round r few h = cc
    after_first-ok md5 (ok (status, payload)) round r few h =
        checked-ok md5 status payload (raise_primary_fast_download_error net status payload) round r
          refl few h

    after_first-InOrder :
        (md5 : String) (first : Result Failure (ℕ × Fields)) (round : Round) (n : ℕ)
        (indices : List ℕ)
        → round.1 ≡ take n indices
        → (m : ℕ) × ((after_first net int_of_text md5 first round).1 ≡ take m (0 ∷ indices))
    unfolding after_first
    after_first-InOrder md5 (raised e) round n indices h = (1, refl)
    after_first-InOrder md5 (ok (status, payload)) round n indices h =
        check-InOrder md5 payload (raise_primary_fast_download_error net status payload) round n
          indices h

    resolve_target-ok :
        (fetcher : FastDownloadFetcher) (target : Result Failure (String × String × String))
        (r : ResolveResult)
        → (resolve_target net int_of_text fetcher target).0 ≡ ok r
        → (domain md5 key : String) × (target ≡ ok (domain, md5, key))
          × IsFastDownload md5 (fetcher domain md5 key 0) r
    unfolding requests_of
    resolve_target-ok fetcher (raised e) r h = cc
    resolve_target-ok fetcher (ok (domain, md5, key)) r h =
        let fetch = fetcher domain md5 key in
        let (_, _, few) = alternate_payloads-InOrder net fetch (2 ∷ 4 ∷ 6 ∷ []) in
        (
          domain,
          md5,
          key,
          refl,
          after_first-ok md5 (fetch 0) (alternate_payloads net fetch (2 ∷ 4 ∷ 6 ∷ [])) r few h,
        )

    resolve_target-InOrder :
        (fetcher : FastDownloadFetcher) (target : Result Failure (String × String × String))
        → (n : ℕ) × ((resolve_target net int_of_text fetcher target).1 ≡ take n domain_indices)
    unfolding requests_of
    resolve_target-InOrder fetcher (raised e) = (0, refl)
    resolve_target-InOrder fetcher (ok (domain, md5, key)) =
        let fetch = fetcher domain md5 key in
        let round = alternate_payloads net fetch (2 ∷ 4 ∷ 6 ∷ []) in
        let (n, made, _) = alternate_payloads-InOrder net fetch (2 ∷ 4 ∷ 6 ∷ []) in
        after_first-InOrder md5 (fetch 0) round n (2 ∷ 4 ∷ 6 ∷ []) made

checked_target-ok :
    (net : Net) (configured : Option String) (candidate_id : String) (member_key : Option String)
    (domain md5 key : String)
    → checked_target net configured candidate_id member_key ≡ ok (domain, md5, key)
    → (validate_official_domain net (or_text default_official_url configured) ≡ ok domain)
      × (anna_md5 net candidate_id ≡ ok md5)
      × (key ≡ or_text "" member_key)
      × (is_empty key ≡ false)
unfolding checked_target
checked_target-ok net configured candidate_id member_key domain md5 key h =
    let raw = or_text default_official_url configured in
    let (d, valid, behind) = >>=-eq-ok (validate_official_domain net raw) _ h in
    let (m, named, rest) = >>=-eq-ok (anna_md5 net candidate_id) _ behind in
    let (given, last) = require-eq-ok (not (is_empty (or_text "" member_key))) _ _ rest in
    let known = ok-injective last in
    let same_domain = ap (λ t. t.0) known in
    let same_md5 = ap (λ t. t.1) known in
    let same_key = ap (λ t. t.2) known in
    (
      valid ∙ ap ok same_domain,
      named ∙ ap ok same_md5,
      sym same_key,
      subst (λ k. is_empty k ≡ false) same_key (ground arith),
    )

-- A resolution of Anna's Archive that returns had a valid domain, an MD5 in its candidate's id and
-- a member key. Its one artifact is for this MD5, the primary answer was a success without an error
-- text, and its mirrors are one to four safe https links of distinct origins.
pub resolve-IsFastDownload :
    (net : Net) (int_of_text : String → Option ℤ) (fetcher : FastDownloadFetcher)
    (configured : Option String) (candidate_id : String) (member_key : Option String)
    (r : ResolveResult)
    → (resolve net int_of_text fetcher configured candidate_id member_key).0 ≡ ok r
    → (domain : String) × (md5 : String) × (key : String) × (validate_official_domain net
          (or_text default_official_url configured)
        ≡ ok domain)
      × (anna_md5 net candidate_id ≡ ok md5)
      × (key ≡ or_text "" member_key)
      × (is_empty key ≡ false)
      × IsFastDownload net int_of_text md5 (fetcher domain md5 key 0) r
unfolding resolve
resolve-IsFastDownload net int_of_text fetcher configured candidate_id member_key r h =
    let target = checked_target net configured candidate_id member_key in
    let (domain, md5, key, checked, found) = resolve_target-ok net int_of_text fetcher target r h in
    let (valid, named, same, given) =
      checked_target-ok net configured candidate_id member_key domain md5 key checked in
    (domain, md5, key, valid, named, same, given, found)

-- The requests of a resolution ask for the domain indices 0, 2, 4 and 6 in this order, and stop at
-- some point: there is no repetition and no other request, however the answers look.
pub resolve-InOrder :
    (net : Net) (int_of_text : String → Option ℤ) (fetcher : FastDownloadFetcher)
    (configured : Option String) (candidate_id : String) (member_key : Option String)
    → (n : ℕ) × ((resolve net int_of_text fetcher configured candidate_id member_key).1
        ≡ take n domain_indices)
unfolding resolve
resolve-InOrder net int_of_text fetcher configured candidate_id member_key =
    resolve_target-InOrder net int_of_text fetcher
      (checked_target net configured candidate_id member_key)
