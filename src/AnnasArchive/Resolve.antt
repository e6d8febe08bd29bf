-- ===== src/AnnasArchive/Resolve.antt =====
-- `resolve` and `_candidate_md5` of
-- providers/annas_archive/src/pullbox_provider_annas_archive/service.py, with the domain indices of
-- the fast-download requests that a resolution makes.
pub mod Rounds
pub mod Requests
use Prim.Native.String
use pullbox_direct_providers.Prelude.{
  ℕ, Bool, true, false, not, ◌&&◌, ◌||◌, Option, none, some, List, [], ◌∷◌, nat_beq, if◌then◌else◌,
  String, length, ltb,
}
use pullbox_direct_providers.Prelude.Int.{ℤ}
use pullbox_direct_providers.Prelude.Json.{Fields}
use pullbox_direct_providers.Prelude.Result.{Result, ok, raised, ◌>>=◌, require, ◌>>◌}
use pullbox_direct_providers.Prelude.Text.{is_empty}
use pullbox_direct_providers.Contract.Net.{Net}
use pullbox_direct_providers.Contract.Models.{Mirror, QuotaStatus}
use pullbox_direct_providers.AnnasArchive.Catalog.{is_md5, behind_prefix}
use pullbox_direct_providers.Contract.Failures.{Failure, protocol_error}
use pullbox_direct_providers.AnnasArchive.Search.{
  validate_official_domain, default_official_url, or_text,
}
use pullbox_direct_providers.AnnasArchive.FastDownload.{
  refusal, is_quota_error, raise_primary_fast_download_error, secure_fast_download_mirrors,
  quota_status,
}
use pullbox_direct_providers.AnnasArchive.Fetch.{unavailable}

-- The one artifact of a resolution: route, limitations and the like are constants.
pub record FastArtifact : Type 0 where
  pub artifact_id : String
  pub issue_ids : List String
  pub mirrors : List Mirror

pub record ResolveResult : Type 0 where
  pub artifacts : List FastArtifact
  pub quota : Option QuotaStatus

-- `_candidate_md5`
unfoldable pub anna_md5 : Net → String → Result Failure String
unfolding behind_prefix is_md5
anna_md5 net candidate_id =
    let value = behind_prefix "anna:" candidate_id in
    if is_md5 value then ok value else raised (refusal net 404 "candidate_not_found" none)

-- The answer to a request by its domain, MD5, member key and domain index.
abbrev pub FastDownloadFetcher : Type 0
FastDownloadFetcher = String → String → String → ℕ → Result Failure (ℕ × Fields)

-- The payloads that the requests for the other indices give, and the requests made.
abbrev pub Round : Type 0
Round = Result Failure (List (ℕ × Fields)) × List ℕ

abbrev pub with_payload :
    ℕ × Fields → Result Failure (List (ℕ × Fields)) → Result Failure (List (ℕ × Fields))
with_payload entry (ok later) = ok (entry ∷ later)
with_payload entry (raised e) = raised e

module _ (net : Net) where
  -- One answer, and what the rest of the loop gives if it goes on.
  unfoldable pub after_alternate : ℕ → Result Failure (ℕ × Fields) → Round → Round
  unfolding is_quota_error
  after_alternate index (raised (protocol_error e)) later = (later.0, index ∷ later.1)
  after_alternate index (raised e) later = (raised e, index ∷ [])
  after_alternate index (ok (status, payload)) later =
      if nat_beq status 429 || is_quota_error net payload
      then (ok [], index ∷ [])
      else if nat_beq status 200 || nat_beq status 204
      then (with_payload (index, payload) later.0, index ∷ later.1)
      else (later.0, index ∷ later.1)

  -- The loop over the other domain indices.
  unfoldable pub alternate_payloads : (ℕ → Result Failure (ℕ × Fields)) → List ℕ → Round
  unfolding after_alternate
  alternate_payloads fetch [] = (ok [], [])
  alternate_payloads fetch (index ∷ indices) =
      after_alternate index (fetch index) (alternate_payloads fetch indices)

  abbrev pub result_of : String → List Mirror → Option QuotaStatus → Result Failure ResolveResult
  result_of md5 [] quota = raised (unavailable "source_malformed_response")
  result_of md5 (mirror ∷ mirrors) quota = ok (record {
    artifacts =
        record {
          artifact_id = String.◌++◌ "anna-fast:" md5;
          issue_ids = md5 ∷ [];
          mirrors = mirror ∷ mirrors;
        }
        ∷ [];
    quota = quota;
  })

  -- The checks before the first request: the domain, the MD5 and the member key.
  unfoldable pub checked_target :
      Option String → String → Option String → Result Failure (String × String × String)
  unfolding validate_official_domain anna_md5
  checked_target configured candidate_id member_key = do
    domain ← validate_official_domain net (or_text default_official_url configured)
    md5 ← anna_md5 net candidate_id
    require (not (is_empty (or_text "" member_key)))
        (refusal net 401 "source_authentication_required" none)
    ok (domain, md5, or_text "" member_key)

  module _ (int_of_text : String → Option ℤ) where
    -- The result that the payloads of all requests give.
    unfoldable pub collected :
        String → Fields → Result Failure (List (ℕ × Fields)) → Result Failure ResolveResult
    unfolding secure_fast_download_mirrors quota_status
    collected md5 payload (raised e) = raised e
    collected md5 payload (ok others) =
        result_of md5 (secure_fast_download_mirrors net md5 ((0, payload) ∷ others))
          (quota_status int_of_text payload)

    abbrev pub after_check :
        String → Fields → Result Failure (Unit {0}) → Round → Result Failure ResolveResult × List ℕ
    after_check md5 payload (raised e) round = (raised e, 0 ∷ [])
    after_check md5 payload (ok u) round = (collected md5 payload round.0, 0 ∷ round.1)

    -- What the primary answer leads to.
    unfoldable pub after_first :
        String → Result Failure (ℕ × Fields) → Round → Result Failure ResolveResult × List ℕ
    unfolding raise_primary_fast_download_error collected
    after_first md5 (raised e) round = (raised e, 0 ∷ [])
    after_first md5 (ok (status, payload)) round =
        after_check md5 payload (raise_primary_fast_download_error net status payload) round

    -- The requests of a resolution.
    unfoldable pub requests_of :
        String → (ℕ → Result Failure (ℕ × Fields)) → Result Failure ResolveResult × List ℕ
    unfolding after_first alternate_payloads
    requests_of md5 fetch = after_first md5 (fetch 0) (alternate_payloads fetch (2 ∷ 4 ∷ 6 ∷ []))

    abbrev pub resolve_target :
        FastDownloadFetcher
        → Result Failure (String × String × String)
        → Result Failure ResolveResult × List ℕ
    unfolding requests_of
    resolve_target fetcher (raised e) = (raised e, [])
    resolve_target fetcher (ok (domain, md5, member_key)) =
        requests_of md5 (fetcher domain md5 member_key)

    -- `resolve`, with the requests that it made
    unfoldable pub resolve :
        FastDownloadFetcher
        → Option String
        → String
        → Option String
        → Result Failure ResolveResult × List ℕ
    unfolding checked_target requests_of
    resolve fetcher configured candidate_id member_key =
        resolve_target fetcher (checked_target configured candidate_id member_key)
