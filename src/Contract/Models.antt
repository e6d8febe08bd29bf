-- ===== src/Contract/Models.antt =====
-- packages/provider_contract/src/pullbox_provider_contract/models.py: the DTOs that the other
-- modules read, and `ProtocolError` of errors.py. A field that no modelled code reads or sets is
-- left out; the validation of a DTO by pydantic is not part of the model.
use pullbox_direct_providers.Prelude.{ℕ, Option, List, String}
use pullbox_direct_providers.Prelude.Json.{Json}

-- The two values that `ResolverProfile.mode` may take.
pub data ResolverMode : Type 0 where
  flaresolverr_v1 trawl_scrape : ResolverMode

-- `timeout_seconds` is held in milliseconds.
pub record ResolverProfile : Type 0 where
  pub endpoint : String
  pub mode : ResolverMode
  pub timeout_ms : ℕ
  pub max_concurrency : ℕ
  pub declared_domains : List String
  pub authentication_headers : List (String × String)

pub record SearchIntent : Type 0 where
  pub series_title : String
  pub normalized_title : String
  pub alternate_titles : List String
  pub issue_number : Option String
  pub issue_type : Option String
  pub volume : Option String
  pub issue_title : Option String
  pub series_year : Option ℕ
  pub release_year : Option ℕ
  pub year : Option ℕ

pub record ParsedCandidate : Type 0 where
  pub series_title : String
  pub issue_numbers : List String
  pub volume : Option String
  pub year : Option ℕ
  pub publisher : Option String
  pub language : Option String
  pub format : Option String

-- `provider_confidence` is held in hundredths: all confidences of the modelled code are such.
pub record Candidate : Type 0 where
  pub provider_candidate_id : String
  pub source_reference : String
  pub display_title : String
  pub raw_title : String
  pub parsed : ParsedCandidate
  pub provider_confidence : ℕ
  pub content_fingerprint : Option String
  pub provenance : List (String × Json)

-- A mirror by its final URL; the other fields keep their defaults.
pub record Mirror : Type 0 where
  pub mirror_id : String
  pub host_kind : String
  pub final_url : String
  pub checksum : String

pub record QuotaStatus : Type 0 where
  pub remaining : Option ℕ
  pub limit : Option ℕ
  pub window_seconds : ℕ

-- An expected failure, without its message.
pub record ProtocolError : Type 0 where
  pub status_code : ℕ
  pub code : String
  pub retry_after_seconds : Option ℕ
