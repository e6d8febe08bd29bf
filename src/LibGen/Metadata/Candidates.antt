-- ===== src/LibGen/Metadata/Candidates.antt =====
-- `build_candidate`, `build_discovered_candidate` and `_candidate_display_title` of metadata.py.
-- `parse_comic_title` is an argument.
use Prim.Native.String
use pullbox_direct_providers.Prelude.{
  ℕ, Option, none, some, [], ◌∷◌, if◌then◌else◌, contains, String_eq, String,
}
use pullbox_direct_providers.Prelude.Int.{pos}
use pullbox_direct_providers.Prelude.Json.{Json, null, int, str}
use pullbox_direct_providers.Prelude.Text.{has_infix}
use pullbox_direct_providers.Contract.Net.{Net}
use pullbox_direct_providers.Contract.ComicParser.{ComicTitleEvidence}
use pullbox_direct_providers.Contract.Models.{Candidate}
use pullbox_direct_providers.LibGen.Service.Queries.{text_or, year_or}
use pullbox_direct_providers.LibGen.Service.Resolve.{set_text, or_else, listed_text}
use pullbox_direct_providers.LibGen.Metadata.Records.{
  DiscoveredRecord, FileMetadata, EditionMetadata,
}
use pullbox_direct_providers.LibGen.Metadata.Fields.{language_code}

abbrev optional_number : Option ℕ → Json
optional_number none = null
optional_number (some n) = int (pos n)

-- value or fallback, of an optional text and a text
abbrev text_or_text : Option String → String → String
text_or_text value fallback = elim (set_text value) [ none ↦ fallback | some s ↦ s ]

-- What an edition gives, if there is one.
abbrev edition_text : (EditionMetadata → Option String) → Option EditionMetadata → Option String
edition_text read none = none
edition_text read (some edition) = set_text (read edition)

abbrev edition_year : Option EditionMetadata → Option ℕ
edition_year none = none
edition_year (some edition) = edition.year

abbrev edition_identity : Option EditionMetadata → Option ℕ
edition_identity none = none
edition_identity (some edition) = some edition.edition_id

abbrev confidence_of : Option EditionMetadata → ℕ
confidence_of none = 75
confidence_of (some edition) = 95

module _ (net : Net) (parse_comic_title : String → ComicTitleEvidence) where
  -- ": " and the addition, unless the title contains it
  abbrev pub with_addition : Option String → String → String
  unfolding has_infix
  with_addition none title = title
  with_addition (some addition) title =
      if has_infix (net.casefold addition) (net.casefold title)
      then title
      else String.◌++◌ title (String.◌++◌ ": " addition)

  -- " #" and the issue, unless the title names it
  abbrev pub with_issue : Option String → String → String
  with_issue none title = title
  with_issue (some issue) title =
      if contains issue (parse_comic_title title).issue_numbers
      then title
      else String.◌++◌ title (String.◌++◌ " #" issue)

  -- `_candidate_display_title`
  unfoldable pub candidate_display_title : DiscoveredRecord → Option EditionMetadata → String
  unfolding text_or has_infix
  candidate_display_title discovered none = discovered.display_title
  candidate_display_title discovered (some edition) = with_issue (set_text edition.issue_number) (
      with_addition (set_text edition.title_add)
        (text_or_text (text_or edition.title edition.series_name) discovered.display_title))

  -- `build_candidate`
  unfoldable pub build_candidate :
      DiscoveredRecord → FileMetadata → Option EditionMetadata → Candidate
  unfolding candidate_display_title language_code text_or year_or
  build_candidate discovered file edition =
      let display_title = candidate_display_title discovered edition in
      let evidence = parse_comic_title display_title in
      record {
        provider_candidate_id = String.◌++◌ "libgen:" file.md5;
        source_reference = discovered.source_reference;
        display_title = display_title;
        raw_title = text_or_text file.locator_filename discovered.raw_title;
        parsed = record {
          series_title =
              text_or_text (edition_text (λ e. e.series_name) edition) evidence.series_title;
          issue_numbers =
              listed_text (edition_text (λ e. e.issue_number) edition) evidence.issue_numbers;
          volume = or_else (edition_text (λ e. e.issue_volume) edition) evidence.volume;
          year = or_else (edition_year edition) (year_or discovered.year evidence.year);
          publisher = or_else (edition_text (λ e. e.publisher) edition) discovered.publisher;
          language = language_code net discovered.language;
          format = text_or file.extension discovered.extension;
        };
        provider_confidence = confidence_of edition;
        content_fingerprint = some (String.◌++◌ "md5:" file.md5);
        provenance =
            ("layout", str "libgen-search-v1")
            ∷ ("source_kind", str "keyed_metadata")
            ∷ ("file_id", int (pos file.file_id))
            ∷ ("edition_id", optional_number (edition_identity edition))
            ∷ ("comics_id", optional_number file.comics_id)
            ∷ [];
      }

  -- `build_discovered_candidate`
  unfoldable pub build_discovered_candidate : DiscoveredRecord → Candidate
  unfolding language_code year_or
  build_discovered_candidate discovered =
      let evidence = parse_comic_title discovered.display_title in
      record {
        provider_candidate_id = String.◌++◌ "libgen:" discovered.md5;
        source_reference = discovered.source_reference;
        display_title = discovered.display_title;
        raw_title = discovered.raw_title;
        parsed = record {
          series_title = evidence.series_title;
          issue_numbers = evidence.issue_numbers;
          volume = evidence.volume;
          year = year_or discovered.year evidence.year;
          publisher = discovered.publisher;
          language = language_code net discovered.language;
          format = discovered.extension;
        };
        provider_confidence = 65;
        content_fingerprint = some (String.◌++◌ "md5:" discovered.md5);
        provenance =
            ("layout", str "libgen-search-v1")
            ∷ ("source_kind", str "catalog_discovery")
            ∷ ("file_id", optional_number discovered.file_id)
            ∷ ("edition_id", optional_number discovered.edition_id)
            ∷ ("comics_id", optional_number discovered.source_series_id)
            ∷ [];
      }
