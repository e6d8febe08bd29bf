-- ===== src/LibGen/Service/Resolve.antt =====
-- `_resolve`, `_resolve_origin`, `_resolved_coverage`, `_candidate_md5` and `_failure_class` of
-- service.py. The session, the parsers of metadata.py and `parse_comic_title` are arguments.
use Prim.Native.String
use Prim.Native.Char.{code}
use pullbox_direct_providers.Prelude.{
  ℕ, ◌*◌, ◌&&◌, Option, none, some, List, [], ◌∷◌, ◌++◌, nat_beq, if◌then◌else◌, ℕ_eq, String_eq,
  String,
}
use pullbox_direct_providers.Prelude.Result.{Result, ok, raised, ◌>>=◌}
use pullbox_direct_providers.Prelude.Text.{is_empty, strip_prefix, text_len, all_chars}
use pullbox_direct_providers.Contract.Net.{Net, AddressResolver}
use pullbox_direct_providers.Contract.Hostname.{is_hex_digit}
use pullbox_direct_providers.Contract.ComicParser.{ComicTitleEvidence}
use pullbox_direct_providers.LibGen.Metadata.Records.{FileMetadata, EditionMetadata}
use pullbox_direct_providers.LibGen.Service.Origins.{
  ServiceError, origin_error, layout_error, metadata_error, challenge_required, value_error,
  source_error, resolver_error, cancelled, other_error, operation_origins,
}
use pullbox_direct_providers.LibGen.Service.Search.{
  SessionEvent, session_opened, session_closed, resolve_moves_on, failover,
}

pub record ArtifactCoverage : Type 0 where
  pub issue_numbers : List String
  pub volume : Option String
  pub description : Option String

-- The artifact, with its one mirror: route, host kind and the like are constants.
pub record Artifact : Type 0 where
  pub artifact_id : String
  pub coverage : ArtifactCoverage
  pub format : Option String
  pub edition : Option String
  pub size_bytes : Option ℕ
  pub mirror_id : String
  pub final_url : String
  pub checksum : String

abbrev pub max_metadata_bytes : ℕ
max_metadata_bytes = 512 * 1024

-- What a resolution meets outside: a session of an origin by the number of its request, the
-- parsers of metadata.py, and the URLs that it builds.
pub record Metadata : Type 0 where
  pub fetch_text : String → ℕ → String → ℕ → Result ServiceError String
  pub resolve_redirect : String → String → Result ServiceError String
  pub parse_file_metadata_by_md5 : String → String → Result ServiceError FileMetadata
  pub parse_edition_metadata : String → ℕ → ℕ → Result ServiceError EditionMetadata
  pub file_metadata_url : String → String → String
  pub edition_metadata_url : String → ℕ → String
  pub parse_comic_title : String → ComicTitleEvidence

-- `_candidate_md5`
unfoldable pub md5_of_rest : Option String → Result ServiceError String
unfolding text_len all_chars is_hex_digit
md5_of_rest none = raised value_error
md5_of_rest (some md5) =
    if nat_beq (text_len md5) 32 && all_chars is_hex_digit md5 then ok md5 else raised value_error

unfoldable pub candidate_md5 : String → Result ServiceError String
unfolding strip_prefix md5_of_rest
candidate_md5 provider_candidate_id = md5_of_rest (strip_prefix "libgen:" provider_candidate_id)

-- value if it is there and not empty
abbrev pub set_text : Option String → Option String
set_text none = none
set_text (some s) = if is_empty s then none else some s

abbrev pub or_else : {A : Type 0} → Option A → Option A → Option A
or_else none other = other
or_else (some a) other = some a

abbrev pub listed_text : Option String → List String → List String
listed_text none others = others
listed_text (some s) others = s ∷ []

abbrev pub evidence_of : (String → ComicTitleEvidence) → Option String → Option ComicTitleEvidence
evidence_of parse none = none
evidence_of parse (some locator) = some (parse locator)

abbrev evidence_issues : Option ComicTitleEvidence → List String
evidence_issues none = []
evidence_issues (some evidence) = evidence.issue_numbers

abbrev evidence_volume : Option ComicTitleEvidence → Option String
evidence_volume none = none
evidence_volume (some evidence) = evidence.volume

abbrev evidence_title : Option ComicTitleEvidence → Option String
evidence_title none = none
evidence_title (some evidence) = some evidence.series_title

-- `_resolved_coverage`, from the edition if there is one, and from the evidence of the locator
unfoldable pub coverage_of : Option EditionMetadata → Option ComicTitleEvidence → ArtifactCoverage
coverage_of none evidence = record {
  issue_numbers = evidence_issues evidence;
  volume = evidence_volume evidence;
  description = evidence_title evidence;
}
coverage_of (some edition) evidence = record {
  issue_numbers = listed_text (set_text edition.issue_number) (evidence_issues evidence);
  volume = or_else (set_text edition.issue_volume) (evidence_volume evidence);
  description = or_else (set_text edition.series_name) edition.title;
}

abbrev pub edition_type_of : Option EditionMetadata → Option String
edition_type_of none = none
edition_type_of (some edition) = edition.edition_type

module _ (metadata : Metadata) where
  unfoldable pub resolved_coverage : FileMetadata → Option EditionMetadata → ArtifactCoverage
  unfolding coverage_of
  resolved_coverage file edition =
      coverage_of edition (evidence_of metadata.parse_comic_title (set_text file.locator_filename))

  -- The edition of a file that names one.
  unfoldable pub edition_of :
      String → FileMetadata → Option ℕ → Result ServiceError (Option EditionMetadata)
  edition_of origin file none = ok none
  edition_of origin file (some edition_id) = do
    payload ←
        metadata.fetch_text origin 1 (metadata.edition_metadata_url origin edition_id)
          max_metadata_bytes
    edition ← metadata.parse_edition_metadata payload edition_id file.file_id
    ok (some edition)

  -- `_resolve_origin`
  unfoldable pub resolve_origin : String → String → Result ServiceError Artifact
  unfolding edition_of resolved_coverage
  resolve_origin md5 origin = do
    payload ←
        metadata.fetch_text origin 0 (metadata.file_metadata_url origin md5) max_metadata_bytes
    file ← metadata.parse_file_metadata_by_md5 payload md5
    edition ← edition_of origin file file.edition_id
    destination ←
        metadata.resolve_redirect origin (String.◌++◌ origin (String.◌++◌ "/get.php?md5=" md5))
    ok (record {
      artifact_id = String.◌++◌ "libgen-direct:" md5;
      coverage = resolved_coverage file edition;
      format = file.extension;
      edition = edition_type_of edition;
      size_bytes = file.size_bytes;
      mirror_id = String.◌++◌ "libgen:" (String.◌++◌ md5 ":direct");
      final_url = destination;
      checksum = String.◌++◌ "md5:" md5;
    })

  abbrev pub one_artifact : Result ServiceError Artifact → Result ServiceError (List Artifact)
  one_artifact (ok artifact) = ok (artifact ∷ [])
  one_artifact (raised e) = raised e

  -- The round of `_resolve` for one origin, with the events of the sessions.
  unfoldable pub resolve_attempt :
      String → List SessionEvent → String → Result ServiceError (List Artifact) × List SessionEvent
  unfolding resolve_origin
  resolve_attempt md5 events origin =
      (one_artifact (resolve_origin md5 origin), events ++ session_opened ∷ session_closed ∷ [])

  abbrev pub resolve_over :
      String
      → Result ServiceError (List String)
      → Result ServiceError (List Artifact) × List SessionEvent
  resolve_over md5 (raised e) = (raised e, [])
  resolve_over md5 (ok origins) = failover resolve_moves_on (resolve_attempt md5) [] none origins

  abbrev pub resolve_md5 :
      Result ServiceError String
      → Result ServiceError (List String)
      → Result ServiceError (List Artifact) × List SessionEvent
  resolve_md5 (raised e) origins = (raised e, [])
  resolve_md5 (ok md5) origins = resolve_over md5 origins

  -- `_resolve`, and the events of its sessions
  unfoldable pub resolve :
      Net
      → AddressResolver
      → String
      → Option String
      → Result ServiceError (List Artifact) × List SessionEvent
  unfolding candidate_md5 resolve_attempt
  resolve net target_resolver provider_candidate_id source_url =
      resolve_md5 (candidate_md5 provider_candidate_id)
        (operation_origins net target_resolver source_url)

-- `_failure_class`
unfoldable pub failure_class : ServiceError → String
failure_class origin_error = "provider_configuration_invalid"
failure_class layout_error = "source_contract_changed"
failure_class metadata_error = "candidate_invalid"
failure_class (source_error code retryable) = code
failure_class challenge_required = "browser_challenge_required"
failure_class (resolver_error e) = e.code
failure_class value_error = "candidate_invalid"
failure_class cancelled = "cancelled"
failure_class other_error = "internal_error"
