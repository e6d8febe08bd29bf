-- ===== src/AnnasArchive/FastDownload.antt =====
-- The member fast download of
-- providers/annas_archive/src/pullbox_provider_annas_archive/service.py: `_safe_download_origin`,
-- `_raise_primary_fast_download_error`, `_secure_fast_download_mirrors`, `_quota_status` and
-- `_bounded_nonnegative_int`.
pub mod Mirrors
use Prim.Native.String
use pullbox_direct_providers.Prelude.{
  ℕ, zero, suc, ◌+◌, ◌/◌, ◌^◌, Bool, true, false, not, ◌&&◌, ◌||◌, Option, none, some, List, [],
  ◌∷◌, nat_beq, leb, if◌then◌else◌, contains, any, ◌==◌, ℕ_eq, String_eq, Pair_eq, String,
}
use pullbox_direct_providers.Prelude.Int.{ℤ, pos, negsuc}
use pullbox_direct_providers.Prelude.Json.{Json, null, bool, int, float, str, arr, obj, Fields, get}
use pullbox_direct_providers.Prelude.Optional.{◌>>=◌, given}
use pullbox_direct_providers.Prelude.Result.{Result, ok, raised}
use pullbox_direct_providers.Prelude.Text.{rstrip, is_char, is_empty, has_infix}
use pullbox_direct_providers.Contract.Net.{Net, Url}
use pullbox_direct_providers.Contract.Models.{Mirror, QuotaStatus, ProtocolError}
use pullbox_direct_providers.Contract.Failures.{Failure, protocol_error}
use pullbox_direct_providers.AnnasArchive.Search.{no_text}

abbrev pub window_seconds : ℕ
window_seconds = 64800

-- A download URL with its origin.
pub record DownloadLink : Type 0 where
  pub url : String
  pub origin : String × ℕ

-- port or 443
unfoldable pub port_or_https : Option ℕ → ℕ
port_or_https none = 443
port_or_https (some zero) = 443
port_or_https (some (suc n)) = suc n

module _ (net : Net) where
  -- `_safe_download_origin` of a URL that was parsed
  unfoldable pub origin_of_url : Url → Option (String × ℕ)
  unfolding rstrip port_or_https
  origin_of_url parsed = do
    port ← parsed.port
    host ← parsed.hostname
    given
        (parsed.scheme == "https"
          && not (is_empty host)
          && no_text parsed.username
          && no_text parsed.password)
        (rstrip (is_char b'.') (net.casefold host), port_or_https port)

  -- `_safe_download_origin`
  unfoldable pub safe_download_origin : String → Option (String × ℕ)
  unfolding origin_of_url
  safe_download_origin raw_url = do parsed ← net.urlsplit raw_url; origin_of_url parsed

  -- `isinstance(error, str) and any(marker in error.casefold() for marker in markers)`
  unfoldable pub error_has : List String → Json → Bool
  unfolding has_infix
  error_has markers (str error) = any (λ marker. has_infix marker (net.casefold error)) markers
  error_has markers _ = false

  -- `_is_quota_error`
  unfoldable pub is_quota_error : Fields → Bool
  unfolding error_has get
  is_quota_error payload =
      error_has ("quota" ∷ "downloads remaining" ∷ "limit" ∷ []) (get "error" payload)

  -- `_is_candidate_unavailable`
  unfoldable pub is_candidate_unavailable : Fields → Bool
  unfolding error_has get
  is_candidate_unavailable payload =
      error_has ("invalid domain_index or path_index" ∷ "record not found" ∷ [])
        (get "error" payload)

  abbrev pub refusal : ℕ → String → Option ℕ → Failure
  refusal status code wait =
      protocol_error (record { status_code = status; code = code; retry_after_seconds = wait })

  -- `_raise_primary_fast_download_error`
  unfoldable pub raise_primary_fast_download_error : ℕ → Fields → Result Failure (Unit {0})
  unfolding is_quota_error is_candidate_unavailable
  raise_primary_fast_download_error status payload =
      if nat_beq status 401 || nat_beq status 403
      then raised (refusal 401 "source_authentication_required" none)
      else if nat_beq status 429 || is_quota_error payload
      then raised (refusal 429 "source_quota_limited" (some window_seconds))
      else if is_candidate_unavailable payload
      then raised (refusal 404 "candidate_not_found" none)
      else if nat_beq status 200 || nat_beq status 204
      then ok tt
      else raised (refusal 503 "source_unavailable" none)

  -- The URL of a payload, with its origin, if both are there.
  unfoldable pub payload_link : Json → Option DownloadLink
  unfolding safe_download_origin
  payload_link (str raw_url) = do
    origin ← safe_download_origin raw_url
    some (record { url = raw_url; origin = origin })
  payload_link _ = none

  abbrev suffix_of : ℕ → String
  suffix_of domain_index =
      if nat_beq domain_index 0 then "0" else String.◌++◌ "domain-" (net.show domain_index)

  abbrev pub mirror_of : String → ℕ → String → Mirror
  mirror_of md5 domain_index raw_url = record {
    mirror_id =
        String.◌++◌ "anna-fast:" (String.◌++◌ md5 (String.◌++◌ ":" (suffix_of domain_index)));
    host_kind = "generic_https";
    final_url = raw_url;
    checksum = String.◌++◌ "md5:" md5;
  }

  abbrev is_new : Option DownloadLink → List (String × ℕ) → Bool
  is_new none seen = false
  is_new (some link) seen = not (contains link.origin seen)

  abbrev seen_after : Option DownloadLink → List (String × ℕ) → List (String × ℕ)
  seen_after none seen = seen
  seen_after (some link) seen = link.origin ∷ seen

  abbrev pub with_mirror : String → ℕ → Option DownloadLink → List Mirror → List Mirror
  with_mirror md5 domain_index none later = later
  with_mirror md5 domain_index (some link) later = mirror_of md5 domain_index link.url ∷ later

  -- The loop of `_secure_fast_download_mirrors`, with the origins seen so far. An origin that is
  -- seen again changes nothing.
  unfoldable pub mirrors_from : String → List (ℕ × Fields) → List (String × ℕ) → List Mirror
  unfolding payload_link get
  mirrors_from md5 [] seen = []
  mirrors_from md5 ((domain_index, payload) ∷ rest) seen =
      let link = payload_link (get "download_url" payload) in
      let later = mirrors_from md5 rest (if is_new link seen then seen_after link seen else seen) in
      if is_new link seen then with_mirror md5 domain_index link later else later

  -- `_secure_fast_download_mirrors`
  unfoldable pub secure_fast_download_mirrors : String → List (ℕ × Fields) → List Mirror
  unfolding mirrors_from
  secure_fast_download_mirrors md5 indexed_payloads = mirrors_from md5 indexed_payloads []

-- `int` of a float m / 2 ^ k, which drops the fraction
abbrev truncated : ℤ → ℕ → ℤ
truncated (pos m) k = pos (m / 2 ^ k)
truncated (negsuc m) k = elim ((m + 1) / 2 ^ k) [ zero ↦ pos 0 | suc n ↦ negsuc n ]

-- parsed if 0 <= parsed <= 1_000_000 else None
unfoldable pub in_quota_bounds : ℤ → Option ℕ
in_quota_bounds (negsuc n) = none
in_quota_bounds (pos n) = if leb n 1000000 then some n else none

abbrev bounded_option : Option ℤ → Option ℕ
unfolding in_quota_bounds
bounded_option none = none
bounded_option (some n) = in_quota_bounds n

-- `int` of a text depends on the digits of all scripts; `none` is a ValueError.
module _ (int_of_text : String → Option ℤ) where
  -- `_bounded_nonnegative_int`
  unfoldable pub bounded_nonnegative_int : Json → Option ℕ
  unfolding in_quota_bounds
  bounded_nonnegative_int (int n) = in_quota_bounds n
  bounded_nonnegative_int (float m k) = in_quota_bounds (truncated m k)
  bounded_nonnegative_int (str s) = bounded_option (int_of_text s)
  bounded_nonnegative_int _ = none

  abbrev first_of : Option ℕ → Option ℕ → Option ℕ
  first_of none other = other
  first_of (some n) other = some n

  unfoldable pub first_limit : List String → Fields → Option ℕ
  unfolding bounded_nonnegative_int get
  first_limit [] info = none
  first_limit (key ∷ keys) info =
      first_of (bounded_nonnegative_int (get key info)) (first_limit keys info)

  abbrev pub quota_with : Option ℕ → Option ℕ → Option QuotaStatus
  quota_with none none = none
  quota_with remaining limit =
      some (record { remaining = remaining; limit = limit; window_seconds = window_seconds })

  unfoldable pub quota_of : Json → Option QuotaStatus
  unfolding bounded_nonnegative_int get first_limit
  quota_of (obj info) =
      quota_with (bounded_nonnegative_int (get "downloads_left" info))
        (first_limit ("downloads_per_day" ∷ "download_limit" ∷ "daily_limit" ∷ []) info)
  quota_of _ = none

  -- `_quota_status`
  unfoldable pub quota_status : Fields → Option QuotaStatus
  unfolding quota_of get
  quota_status payload = quota_of (get "account_fast_download_info" payload)
