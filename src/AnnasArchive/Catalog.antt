-- ===== src/AnnasArchive/Catalog.antt =====
-- `_anna_candidates_from_catalog` and `_catalog_candidate_rank` of
-- providers/annas_archive/src/pullbox_provider_annas_archive/service.py.
pub mod Pipeline
use Prim.Native.String
use pullbox_direct_providers.Prelude.{
  ℕ, ◌-◌, ◌*◌, Bool, not, ◌&&◌, Option, none, some, List, [], ◌∷◌, ◌++◌, nat_beq, if◌then◌else◌,
  length, ◌==◌, String_eq, String, contains,
}
use pullbox_direct_providers.Prelude.Json.{Json, str}
use pullbox_direct_providers.Prelude.Sorting.{rank_of, sorted_by}
use pullbox_direct_providers.Prelude.Text.{strip_prefix, text_len, all_chars, has_infix}
use pullbox_direct_providers.Contract.Net.{Net}
use pullbox_direct_providers.Contract.Hostname.{is_hex_digit}
use pullbox_direct_providers.Contract.Models.{Candidate}

-- `_MD5.fullmatch`
unfoldable pub is_md5 : String → Bool
unfolding text_len all_chars is_hex_digit
is_md5 s = nat_beq (text_len s) 32 && all_chars is_hex_digit s

-- value.removeprefix(prefix) if value.startswith(prefix) else ""
unfoldable pub behind_prefix : String → String → String
unfolding strip_prefix
behind_prefix front s = elim (strip_prefix front s) [ none ↦ "" | some rest ↦ rest ]

abbrev fingerprint_text : Option String → String
fingerprint_text none = ""
fingerprint_text (some s) = s

unfoldable pub fingerprint_md5 : Candidate → String
unfolding behind_prefix
fingerprint_md5 candidate = behind_prefix "md5:" (fingerprint_text candidate.content_fingerprint)

-- The checks on a catalog entry by itself.
unfoldable pub is_catalog_entry : Candidate → Bool
unfolding is_md5 fingerprint_md5
is_catalog_entry candidate =
    is_md5 (fingerprint_md5 candidate)
    && candidate.provider_candidate_id == String.◌++◌ "libgen:" (fingerprint_md5 candidate)

module _ (net : Net) where
  -- `_catalog_candidate_rank(candidate) == 1`
  unfoldable pub is_mobile : Candidate → Bool
  unfolding has_infix
  is_mobile candidate = has_infix "digital-mobile" (net.casefold candidate.display_title)

  -- `_catalog_candidate_rank`
  unfoldable pub catalog_candidate_rank : Candidate → ℕ
  unfolding is_mobile rank_of
  catalog_candidate_rank = rank_of is_mobile

  module _ (domain : String) where
    -- The copy of a catalog candidate under the id of this provider. Subtraction stops at 0.
    unfoldable pub anna_candidate : Candidate → Candidate
    unfolding fingerprint_md5 catalog_candidate_rank
    anna_candidate candidate =
        let md5 = fingerprint_md5 candidate in
        record candidate {
          provider_candidate_id = String.◌++◌ "anna:" md5;
          source_reference = String.◌++◌ domain (String.◌++◌ "/md5/" md5);
          content_fingerprint = none;
          provider_confidence =
              candidate.provider_confidence - 5 * catalog_candidate_rank candidate;
          provenance =
              ("layout", str "libgen-catalog-fallback-v1")
              ∷ ("source_kind", str "metadata")
              ∷ ("catalog_source", str "libgen")
              ∷ [];
        }

    -- The loop over the sorted candidates, which stops when the list has reached the limit.
    unfoldable pub catalog_loop : ℕ → List Candidate → List Candidate → List String → List Candidate
    unfolding is_catalog_entry fingerprint_md5 anna_candidate
    catalog_loop limit [] candidates seen = candidates
    catalog_loop limit (candidate ∷ rest) candidates seen =
        let md5 = fingerprint_md5 candidate in
        let kept = is_catalog_entry candidate && not (contains md5 seen) in
        let added = if kept then candidates ++ anna_candidate candidate ∷ [] else candidates in
        let later = catalog_loop limit rest added (if kept then md5 ∷ seen else seen) in
        if kept && nat_beq (length added) limit then added else later

    -- `_anna_candidates_from_catalog`
    unfoldable pub anna_candidates_from_catalog : ℕ → List Candidate → List Candidate
    unfolding catalog_candidate_rank sorted_by catalog_loop
    anna_candidates_from_catalog limit catalog_candidates =
        catalog_loop limit (sorted_by catalog_candidate_rank catalog_candidates) [] []
