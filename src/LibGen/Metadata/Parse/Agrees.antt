-- ===== src/LibGen/Metadata/Parse/Agrees.antt =====
-- Metadata that parses agrees with what its caller expects.

use pullbox_direct_providers.Prelude.{
  ℕ, ◌≤◌, ◌≡◌, subst, inl, inr, Bool, true, ◌||◌, Option, none, some, List, arith, leb,
  if◌then◌else◌, contains, ◌==◌, ℕ_eq, String_eq, String, eq_iff, Bool-cases,
}
use pullbox_direct_providers.Prelude.Json.{Json, str, obj, Fields, end, get}
use pullbox_direct_providers.Prelude.Result.{
  Result, ok, raised, ◌>>=◌, require, >>=-eq-ok, require-eq-ok, ok-injective,
}
use pullbox_direct_providers.Prelude.Text.{is_empty, lstrip, is_char}
use pullbox_direct_providers.Contract.Net.{Net}
use pullbox_direct_providers.LibGen.Service.Origins.{ServiceError, metadata_error}
use pullbox_direct_providers.LibGen.Metadata.Records.{DiscoveredRecord, FileMetadata, Python}
use pullbox_direct_providers.LibGen.Metadata.Fields.{
  or_empty, is_md5_text, identifier_of, is_integer, int_of_digits, required_md5,
  positive_identifier, optional_extension, supported_extensions, optional_integer, relation_ids,
  locator_filename, optional_identifier,
}
use pullbox_direct_providers.LibGen.Metadata.Parse.{
  Expected, expectation, or_zero, distance, size_fits, extension_fits, id_fits, edition_choice,
  file_of, file_identity, file_available, file_shape, file_edition, file_rest, parse_expected,
  parse_file_metadata, decode_keyed_object, file_record, get_or,
}

-- The predicate holds of the value, if there is one.
abbrev pub Given : {A : Type 0} → Option A → (A → Type 0) → Type 0
Given none P = Unit
Given (some a) P = P a

unfoldable pub Agrees : Expected → FileMetadata → Type 0
unfolding is_md5_text
Agrees expected file =
    (file.md5 ≡ expected.md5)
    × (is_md5_text file.md5 ≡ true)
    × (1 ≤ file.file_id)
    × Given expected.file_id (λ n. file.file_id ≡ n)
    × Given expected.size_bytes (λ n.
      Given file.size_bytes (λ size. distance size n ≤ or_zero expected.size_tolerance_bytes))
    × Given file.extension (λ e. contains e supported_extensions ≡ true)
    × Given expected.extension (λ e. Given file.extension (λ found. found ≡ e))
    × Given expected.edition_id (λ n. file.edition_id ≡ some n)

abbrev IdentityAgrees : Expected → ℕ × String → Type 0
IdentityAgrees expected (file_id, md5) =
    (md5 ≡ expected.md5)
    × (is_md5_text md5 ≡ true)
    × (1 ≤ file_id)
    × Given expected.file_id (λ n. file_id ≡ n)

abbrev ShapeAgrees : Expected → Option ℕ × Option String → Type 0
ShapeAgrees expected (size_bytes, extension) =
    Given expected.size_bytes
      (λ n. Given size_bytes (λ size. distance size n ≤ or_zero expected.size_tolerance_bytes))
    × Given extension (λ e. contains e supported_extensions ≡ true)
    × Given expected.extension (λ e. Given extension (λ found. found ≡ e))

id_fits-Given : (o : Option ℕ) (n : ℕ) → id_fits o n ≡ true → Given o (λ m. n ≡ m)
id_fits-Given none n h = tt
id_fits-Given (some m) n h = ground arith

size_fits-Given :
    (expected tolerance size : Option ℕ)
    → size_fits expected tolerance size ≡ true
    → Given expected (λ n. Given size (λ s. distance s n ≤ or_zero tolerance))
size_fits-Given none tolerance size h = tt
size_fits-Given (some n) tolerance none h = tt
size_fits-Given (some n) tolerance (some s) h = ground arith

extension_fits-Given :
    (expected extension : Option String)
    → extension_fits expected extension ≡ true
    → Given expected (λ e. Given extension (λ found. found ≡ e))
extension_fits-Given none extension h = tt
extension_fits-Given (some e) none h = tt
extension_fits-Given (some e) (some found) h = (eq_iff found e).0 h

edition_choice-Given :
    (expected : Option ℕ) (ids : List ℕ) (choice : Option ℕ)
    → edition_choice expected ids ≡ ok choice
    → Given expected (λ n. choice ≡ some n)
unfolding edition_choice
edition_choice-Given none ids choice h = tt
edition_choice-Given (some n) ids choice h = ground arith

tested-ok :
    {A : Type 0} (test : A → Bool) (a b : A) (e : ServiceError)
    → (if test a then ok a else raised e) ≡ ok b
    → test b ≡ true
tested-ok test a b e h = elim (Bool-cases (test a)) [
  | inl passes ↦ subst (λ x. test x ≡ true) (ok-injective (rw passes at h)) passes
  | inr fails ↦ let never = rw fails at h in cc
]

some_tested-ok :
    (test : String → Bool) (a : String) (o : Option String) (skip : Bool)
    → (if skip then ok none else if test a then ok (some a) else raised metadata_error) ≡ ok o
    → Given o (λ b. test b ≡ true)
some_tested-ok test a none skip h = tt
some_tested-ok test a (some b) skip h = ground arith

module _ (net : Net) (python : Python) where
  identifier_of-positive : (s : String) (n : ℕ) → identifier_of s ≡ ok n → 1 ≤ n
  unfolding identifier_of
  identifier_of-positive s n h =
      let next : ℕ → Result ServiceError ℕ = λ m. require (leb 1 m) metadata_error >>= λ _. ok m in
      let (_, rest) = require-eq-ok (is_integer s) metadata_error (int_of_digits s >>= next) h in
      let (m, _, behind) = >>=-eq-ok (int_of_digits s) next rest in
      let (positive, last) = require-eq-ok (leb 1 m) metadata_error (ok m) behind in
      subst (λ k. 1 ≤ k) (ok-injective last) (ground arith)

  required_md5-IsMd5 :
      (value : Json) (md5 : String)
      → required_md5 net python value ≡ ok md5
      → is_md5_text md5 ≡ true
  unfolding required_md5
  required_md5-IsMd5 value md5 h =
      tested-ok is_md5_text (net.casefold (or_empty net python value)) md5 metadata_error h

  optional_extension-Given :
      (value : Json) (extension : Option String)
      → optional_extension net python value ≡ ok extension
      → Given extension (λ e. contains e supported_extensions ≡ true)
  unfolding optional_extension
  optional_extension-Given value extension h =
      let normalized = lstrip (is_char b'.') (net.casefold (or_empty net python value)) in
      some_tested-ok (λ e. contains e supported_extensions) normalized extension
        (is_empty normalized || normalized == "unknown") h

  file_identity-Agrees :
      (expected : Expected) (key : String) (fields : Fields) (identity : ℕ × String)
      → file_identity net python expected key fields ≡ ok identity
      → IdentityAgrees expected identity
  unfolding file_identity positive_identifier
  file_identity-Agrees expected key fields identity h =
      let (n, id_read, r1) = >>=-eq-ok (identifier_of (or_empty net python (str key))) _ h in
      let (fits, r2) = require-eq-ok (id_fits expected.file_id n) metadata_error _ r1 in
      let (m, md5_read, r3) = >>=-eq-ok (required_md5 net python (get "md5" fields)) _ r2 in
      let (same, last) = require-eq-ok (m == expected.md5) metadata_error (ok (n, m)) r3 in
      subst (IdentityAgrees expected) (ok-injective last) (
        (eq_iff m expected.md5).0 same,
        required_md5-IsMd5 (get "md5" fields) m md5_read,
        identifier_of-positive (or_empty net python (str key)) n id_read,
        id_fits-Given expected.file_id n fits,
      )

  file_shape-Agrees :
      (expected : Expected) (fields : Fields) (shape : Option ℕ × Option String)
      → file_shape net python expected fields ≡ ok shape
      → ShapeAgrees expected shape
  unfolding file_shape
  file_shape-Agrees expected fields shape h =
      let (size, _, r1) = >>=-eq-ok (optional_integer net python (get "filesize" fields)) _ h in
      let (size_ok, r2) =
        require-eq-ok (size_fits expected.size_bytes expected.size_tolerance_bytes size)
          metadata_error _ r1 in
      let (extension, read, r3) =
        >>=-eq-ok (optional_extension net python (get "extension" fields)) _ r2 in
      let (ext_ok, last) =
        require-eq-ok (extension_fits expected.extension extension) metadata_error
          (ok (size, extension)) r3 in
      subst (ShapeAgrees expected) (ok-injective last) (
        size_fits-Given expected.size_bytes expected.size_tolerance_bytes size size_ok,
        optional_extension-Given (get "extension" fields) extension read,
        extension_fits-Given expected.extension extension ext_ok,
      )

  file_edition-Given :
      (expected : Option ℕ) (fields : Fields) (edition_id : Option ℕ)
      → file_edition net python expected fields ≡ ok edition_id
      → Given expected (λ n. edition_id ≡ some n)
  unfolding file_edition
  file_edition-Given expected fields edition_id h =
      let (ids, _, chosen) =
        >>=-eq-ok (relation_ids net python "e_id" (get_or (obj end) "editions" fields))
          (edition_choice expected) h in
      edition_choice-Given expected ids edition_id chosen

  file_rest-Agrees :
      (expected : Expected) (fields : Fields) (identity : ℕ × String)
      (shape : Option ℕ × Option String) (edition_id : Option ℕ) (file : FileMetadata)
      → IdentityAgrees expected identity
      → ShapeAgrees expected shape
      → Given expected.edition_id (λ n. edition_id ≡ some n)
      → file_rest net python fields identity shape edition_id ≡ ok file
      → Agrees expected file
  unfolding file_rest Agrees
  file_rest-Agrees expected fields identity shape edition_id file (a, b, c, d) (x, y, z) chosen h =
      let (pages, _, r1) = >>=-eq-ok (optional_integer net python (get "pages" fields)) _ h in
      let (filename, _, r2) = >>=-eq-ok (locator_filename net python (get "locator" fields)) _ r1 in
      let (comics, _, r3) =
        >>=-eq-ok (optional_identifier net python (get "comics_id" fields)) _ r2 in
      subst (Agrees expected) (ok-injective r3) (a, b, c, d, x, y, z, chosen)

  file_of-Agrees :
      (expected : Expected) (key : String) (fields : Fields) (file : FileMetadata)
      → file_of net python expected key fields ≡ ok file
      → Agrees expected file
  unfolding file_of
  file_of-Agrees expected key fields file h =
      let (identity, same, r1) = >>=-eq-ok (file_identity net python expected key fields) _ h in
      let (_, _, r2) = >>=-eq-ok (file_available net python fields) _ r1 in
      let (shape, fits, r3) = >>=-eq-ok (file_shape net python expected fields) _ r2 in
      let (edition_id, chosen, last) =
        >>=-eq-ok (file_edition net python expected.edition_id fields) _ r3 in
      file_rest-Agrees expected fields identity shape edition_id file
        (file_identity-Agrees expected key fields identity same)
        (file_shape-Agrees expected fields shape fits)
        (file_edition-Given expected.edition_id fields edition_id chosen) last

  pub parse_expected-Agrees :
      (payload : String) (expected : Expected) (file : FileMetadata)
      → parse_expected net python payload expected ≡ ok file
      → Agrees expected file
  unfolding parse_expected
  parse_expected-Agrees payload expected file h =
      let (records, _, r1) = >>=-eq-ok (decode_keyed_object net python payload) _ h in
      let (entry, _, last) =
        >>=-eq-ok (file_record net python expected.file_id expected.md5 records) _ r1 in
      file_of-Agrees expected entry.0 entry.1 file last

-- Metadata that parses for a discovered record has its MD5, which is 32 hexadecimal digits, and a
-- positive file identity. The file and edition identities are those of the record where it has them;
-- where both have an extension, it is the same; the size is within its tolerance, and an extension
-- is supported.
pub parse_file_metadata-Agrees :
    (net : Net) (python : Python) (payload : String) (discovered : DiscoveredRecord)
    (file : FileMetadata)
    → parse_file_metadata net python payload discovered ≡ ok file
    → Agrees (expectation discovered) file
unfolding parse_file_metadata
parse_file_metadata-Agrees net python payload discovered file =
    parse_expected-Agrees net python payload (expectation discovered) file
