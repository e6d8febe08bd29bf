-- ===== src/GetComics/Resolve/RoundTrip.antt =====
-- The ids that parser.py gives GetComics candidates lead `resolve` back to their pages.
use Prim.Native.Char.{code}
use Prim.Native.String
use text.Mathlib.TextLemmas.{nil-append, cons-append}
use pullbox_direct_providers.Prelude.{
  ℕ, zero, suc, ◌+◌, ◌%◌, ◌≡◌, ◌<◌, refl, sym, ap, ◌∙◌, inl, inr, true, some, arith, nat_beq,
  if◌then◌else◌, String, String_eq, Bool-cases, ltb, ◌||◌,
}
use pullbox_direct_providers.Prelude.Result.{ok, raised, ok-injective}
use pullbox_direct_providers.Prelude.Text.{
  text_len, strip_prefix, rstrip, rstrip_cons, is_char, is_empty,
}
use pullbox_direct_providers.Contract.Failures.{Failure}
use pullbox_direct_providers.GetComics.Search.{base_url}
use pullbox_direct_providers.GetComics.Resolve.{
  Base64, decoded, padding, missing, padded, url_at, url_of_rest, is_candidate_path, candidate_url,
  candidate_identity,
}

strip_prefix-append :
    (front rest : String) → strip_prefix front (String.◌++◌ front rest) ≡ some rest
unfolding strip_prefix
strip_prefix-append String.[] rest = rw (nil-append rest) refl
strip_prefix-append (String.◌∷◌ c front) rest =
    let same : nat_beq (code c) (code c) ≡ true = ground arith in
    rw (cons-append c front rest, same) (strip_prefix-append front rest)

rstrip-padding : (k : ℕ) → rstrip (is_char b'=') (padding k) ≡ ""
unfolding padding rstrip rstrip_cons
rstrip-padding zero = refl
rstrip-padding (suc k) = rw (rstrip-padding k) refl

rstrip-padded :
    (body : String) (k : ℕ)
    → rstrip (is_char b'=') (String.◌++◌ body (padding k)) ≡ rstrip (is_char b'=') body
unfolding rstrip
rstrip-padded String.[] k = rw (nil-append (padding k)) (rstrip-padding k)
rstrip-padded (String.◌∷◌ c body) k =
    rw (cons-append c body (padding k)) (ap (rstrip_cons (is_char b'=') c) (rstrip-padded body k))

missing_lem : (n k : ℕ) → k < 4 → (n + k) % 4 ≡ 0 → missing n ≡ k
missing_lem n k h m = omega arith

tested_id :
    (body id : String) (e : Failure)
    → (if is_empty body || ltb 480 (text_len body)
        then raised e
        else ok (String.◌++◌ "getcomics:" body))
      ≡ ok id
    → id ≡ String.◌++◌ "getcomics:" body
tested_id body id e h = elim (Bool-cases (is_empty body || ltb 480 (text_len body))) [
  | inl long ↦ let never = rw long at h in cc
  | inr fits ↦ sym (ok-injective (rw fits at h))
]

accepted_path :
    (path : String)
    → is_candidate_path path ≡ true
    → url_at (decoded path) ≡ ok (String.◌++◌ base_url path)
unfolding url_at
accepted_path path valid = rw valid refl

identity_body :
    (base64 : Base64) (path body : String) (k : ℕ) (id : String)
    → base64.urlsafe_b64encode path ≡ String.◌++◌ body (padding k)
    → rstrip (is_char b'=') body ≡ body
    → candidate_identity base64 path ≡ ok id
    → id ≡ String.◌++◌ "getcomics:" body
unfolding candidate_identity
identity_body base64 path body k id encodes bare h =
    let stripped : rstrip (is_char b'=') (base64.urlsafe_b64encode path) ≡ body =
      ap (rstrip (is_char b'=')) encodes ∙ rstrip-padded body k ∙ bare in
    tested_id body id _ (rw stripped at h)

-- An id that parser.py gives the path of a release page is turned back into the URL of the page,
-- for an encoding that is a text without "=" at its end, padded to a multiple of four, and that
-- decoding inverts, and a path that `_candidate_url` accepts.
pub candidate_url-candidate_identity :
    (base64 : Base64) (path body : String) (k : ℕ) (id : String)
    → base64.urlsafe_b64encode path ≡ String.◌++◌ body (padding k)
    → rstrip (is_char b'=') body ≡ body
    → k < 4
    → (text_len body + k) % 4 ≡ 0
    → base64.urlsafe_b64decode (String.◌++◌ body (padding k)) ≡ decoded path
    → is_candidate_path path ≡ true
    → candidate_identity base64 path ≡ ok id
    → candidate_url base64 id ≡ ok (String.◌++◌ base_url path)
unfolding candidate_url
candidate_url-candidate_identity base64 path body k id encodes bare few whole decodes valid h =
    let named = identity_body base64 path body k id encodes bare h in
    let found : strip_prefix "getcomics:" id ≡ some body =
      ap (strip_prefix "getcomics:") named ∙ strip_prefix-append "getcomics:" body in
    let pads : padded base64 body ≡ String.◌++◌ body (padding k) =
      ap (λ n. String.◌++◌ body (padding n)) (missing_lem (text_len body) k few whole) in
    ap (url_of_rest base64) found
    ∙ ap (λ s. url_at (base64.urlsafe_b64decode s)) pads
    ∙ ap url_at decodes
    ∙ accepted_path path valid
