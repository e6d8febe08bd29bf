-- ===== src/LibGen/Metadata/Keys.antt =====
-- The origins, URLs and cache keys of metadata.py, and what its enricher meets outside: the k-th use
-- of the cache reads the clock at `clock k`, and the fetcher answers the k-th request.
use Prim.Native.String
use pullbox_direct_providers.Prelude.{
  ℕ, zero, suc, not, ◌&&◌, Option, none, some, List, [], ◌∷◌, leb, ltb, all, if◌then◌else◌, length,
  ◌==◌, ℕ_eq, String_eq, String,
}
use pullbox_direct_providers.Prelude.Result.{Result, ok, raised, ◌>>=◌, ◌>>◌, require, of_option}
use pullbox_direct_providers.Prelude.Sorting.{unique_by}
use pullbox_direct_providers.Prelude.Text.{is_empty}
use pullbox_direct_providers.Contract.Net.{Net}
use pullbox_direct_providers.Contract.ComicParser.{ComicTitleEvidence}
use pullbox_direct_providers.Contract.Configuration.{is_https_port}
use pullbox_direct_providers.Contract.SearchTerms.{Unicode}
use pullbox_direct_providers.LibGen.Service.Origins.{ServiceError, metadata_error, value_error}
use pullbox_direct_providers.LibGen.Metadata.Records.{DiscoveredRecord, FileMetadata, Python}

abbrev pub file_fields : String
file_fields = "f_id,md5,pages,filesize,extension,locator,broken,visible,comics_id"

abbrev pub edition_fields : String
edition_fields =
    "e_id,title,series_name,title_add,publisher,year,cover_url,issue_number,issue_volume,type,visible"

-- What the enricher meets outside.
pub record Surroundings : Type 0 where
  pub net : Net
  pub unicode : Unicode
  pub python : Python
  pub parse_comic_title : String → ComicTitleEvidence
  pub urlencode : List (String × String) → String
  pub fetcher : ℕ → String → Result ServiceError String
  pub clock : ℕ → ℕ

-- `_bounded_identifiers`
unfoldable pub bounded_identifiers : List ℕ → Result ServiceError (List ℕ)
unfolding unique_by
bounded_identifiers identifiers =
    let unique = unique_by (λ n. n) identifiers in
    if ltb 0 (length unique) && leb (length unique) 100 && all (λ n. ltb 0 n) unique
    then ok unique
    else raised metadata_error

module _ (around : Surroundings) where
  abbrev show : ℕ → String
  show = around.net.show

  -- str(value or "")
  abbrev pub shown : Option ℕ → String
  shown none = ""
  shown (some zero) = ""
  shown (some (suc n)) = show (suc n)

  abbrev text_or_nothing : Option String → String
  text_or_nothing none = ""
  text_or_nothing (some s) = s

  -- ":".join(parts)
  abbrev pub colon : String → String → String
  colon a b = String.◌++◌ a (String.◌++◌ ":" b)

  -- `_source_origin`; `urlsplit` and `.port` may raise ValueError.
  unfoldable pub source_origin : String → Result ServiceError String
  source_origin source_reference = do
    parsed ← of_option value_error (around.net.urlsplit source_reference)
    hostname ← of_option metadata_error parsed.hostname
    require (parsed.scheme == "https" && not (is_empty hostname)) metadata_error
    port ← of_option value_error parsed.port
    require (is_https_port port) metadata_error
    ok (around.net.urlunsplit "https" (around.net.casefold hostname) "" "" "")

  abbrev pub json_url : String → List (String × String) → String
  json_url origin params = String.◌++◌ origin (String.◌++◌ "/json.php?" (around.urlencode params))

  -- `_file_metadata_url`
  unfoldable pub file_metadata_url : String → String → String
  file_metadata_url origin md5 =
      json_url origin
        (("object", "f") ∷ ("md5", md5) ∷ ("topic", "c") ∷ ("fields", file_fields) ∷ [])

  -- `_edition_metadata_url`
  unfoldable pub edition_metadata_url : String → ℕ → String
  edition_metadata_url origin edition_id = json_url origin (
      ("object", "e") ∷ ("ids", show edition_id) ∷ ("topic", "c") ∷ ("fields", edition_fields) ∷ [])

  -- ",".join of the identifiers
  unfoldable pub comma_joined : List ℕ → String
  comma_joined [] = ""
  comma_joined (n ∷ []) = show n
  comma_joined (n ∷ m ∷ ns) = String.◌++◌ (show n) (String.◌++◌ "," (comma_joined (m ∷ ns)))

  -- `_file_metadata_ids_url`
  unfoldable pub file_metadata_ids_url : String → List ℕ → Result ServiceError String
  unfolding bounded_identifiers comma_joined
  file_metadata_ids_url origin file_ids = do
    identifiers ← bounded_identifiers file_ids
    ok (
        json_url origin (
          ("object", "f")
          ∷ ("ids", comma_joined identifiers)
          ∷ ("topic", "c")
          ∷ ("fields", file_fields)
          ∷ []))

  -- `_edition_metadata_ids_url`
  unfoldable pub edition_metadata_ids_url : String → List ℕ → Result ServiceError String
  unfolding bounded_identifiers comma_joined
  edition_metadata_ids_url origin edition_ids = do
    identifiers ← bounded_identifiers edition_ids
    ok (
        json_url origin (
          ("object", "e")
          ∷ ("ids", comma_joined identifiers)
          ∷ ("topic", "c")
          ∷ ("fields", edition_fields)
          ∷ []))

  -- `_file_cache_key`
  unfoldable pub file_cache_key : String → DiscoveredRecord → String
  file_cache_key origin discovered = colon "file" (
      colon origin (
        colon discovered.md5 (
          colon (shown discovered.file_id) (
            colon (shown discovered.edition_id) (
              colon (shown discovered.size_bytes) (
                colon (shown discovered.size_tolerance_bytes)
                  (text_or_nothing discovered.extension)))))))

  -- str(value), of an optional number
  abbrev printed : Option ℕ → String
  printed none = "None"
  printed (some n) = show n

  -- `_edition_cache_key`
  unfoldable pub edition_cache_key : String → FileMetadata → String
  edition_cache_key origin file =
      colon "edition" (colon origin (colon (printed file.edition_id) (show file.file_id)))
