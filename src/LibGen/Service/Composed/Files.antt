-- ===== src/LibGen/Service/Composed/Files.antt =====
-- What an answer of the source holds that `parse_file_metadata_by_md5` of metadata.py accepts.
use pullbox_direct_providers.Prelude.{
  ℕ, ◌≤◌, ◌≡◌, refl, ap, sym, ◌∙◌, subst, inl, inr, Bool, true, false, Option, none, List, [], ◌∷◌,
  if◌then◌else◌, ◌==◌, ℕ_eq, String_eq, String, contains, Exists,
}
use pullbox_direct_providers.Prelude.Json.{str, obj, end, field, props, get, Fields}
use pullbox_direct_providers.Prelude.Result.{ok, >>=-eq-ok, ok-injective, require-eq-ok}
use pullbox_direct_providers.LibGen.Service.Origins.{metadata_error}
use pullbox_direct_providers.LibGen.Metadata.Records.{FileMetadata}
use pullbox_direct_providers.LibGen.Metadata.Keys.{Surroundings}
use pullbox_direct_providers.LibGen.Metadata.Fields.{
  is_md5_text, required_md5, positive_identifier, supported_extensions, optional_integer,
  optional_extension, locator_filename, optional_identifier,
}
use pullbox_direct_providers.LibGen.Metadata.Parse.{
  parse_file_metadata_by_md5, parse_expected, file_record, file_of, file_identity, file_available,
  file_shape, file_edition, file_rest, size_fits, extension_fits, decode_keyed_object,
  md5_expectation, matches_of, one_match, id_fits,
}
use pullbox_direct_providers.LibGen.Metadata.Parse.Agrees.{Given, Agrees, parse_expected-Agrees}

-- A dict has this entry, whose value is a record.
abbrev pub Listed : Fields → String × Fields → Type 0
Listed records entry = Exists (λ e. e ≡ (entry.0, obj entry.1)) (props records)

-- The file of the MD5 that an answer of the source has: its MD5 is that one in its normal form, 32
-- hexadecimal digits, and its identity and its other fields are those of the one entry of the answer
-- that is a record of this MD5.
pub record IsFileOf (around : Surroundings) (payload md5 : String) (file : FileMetadata)
    : Type 0 where
  pub records : Fields
  pub entry : String × Fields
  pub same_md5 : required_md5 around.net around.python (str md5) ≡ ok file.md5
  pub is_md5 : is_md5_text file.md5 ≡ true
  pub identified : 1 ≤ file.file_id
  pub supported : Given file.extension (λ e. contains e supported_extensions ≡ true)
  pub decoded : decode_keyed_object around.net around.python payload ≡ ok records
  pub listed : Listed records entry
  pub only : matches_of around.net around.python file.md5 records ≡ entry ∷ []
  pub identity : positive_identifier around.net around.python (str entry.0) ≡ ok file.file_id
  pub record_md5 : required_md5 around.net around.python (get "md5" entry.1) ≡ ok file.md5
  pub size : optional_integer around.net around.python (get "filesize" entry.1) ≡ ok file.size_bytes
  pub extension :
      optional_extension around.net around.python (get "extension" entry.1) ≡ ok file.extension
  pub locator :
      locator_filename around.net around.python (get "locator" entry.1) ≡ ok file.locator_filename
  pub edition : file_edition around.net around.python none entry.1 ≡ ok file.edition_id

-- The entry of a record with the fields of a file that an artifact is made of.
abbrev Reads : Surroundings → String → Fields → FileMetadata → Type 0
Reads around key fields file =
    (positive_identifier around.net around.python (str key) ≡ ok file.file_id)
    × (required_md5 around.net around.python (get "md5" fields) ≡ ok file.md5)
    × (optional_integer around.net around.python (get "filesize" fields) ≡ ok file.size_bytes)
    × (optional_extension around.net around.python (get "extension" fields) ≡ ok file.extension)
    × (locator_filename around.net around.python (get "locator" fields) ≡ ok file.locator_filename)
    × (file_edition around.net around.python none fields ≡ ok file.edition_id)

file_shape-parts :
    (around : Surroundings) (normal : String) (fields : Fields) (shape : Option ℕ × Option String)
    → file_shape around.net around.python (md5_expectation normal) fields ≡ ok shape
    → (optional_integer around.net around.python (get "filesize" fields) ≡ ok shape.0)
      × (optional_extension around.net around.python (get "extension" fields) ≡ ok shape.1)
unfolding file_shape
file_shape-parts around normal fields shape h =
    let (size, sized, r₁) =
      >>=-eq-ok (optional_integer around.net around.python (get "filesize" fields)) _ h in
    let (_, r₂) = require-eq-ok (size_fits none none size) metadata_error _ r₁ in
    let (extension, extended, r₃) =
      >>=-eq-ok (optional_extension around.net around.python (get "extension" fields)) _ r₂ in
    let (_, last) =
      require-eq-ok (extension_fits none extension) metadata_error (ok (size, extension)) r₃ in
    let same = ok-injective last in
    (sized ∙ ap (λ s. ok s.0) same, extended ∙ ap (λ s. ok s.1) same)

file_identity-parts :
    (around : Surroundings) (normal key : String) (fields : Fields) (identity : ℕ × String)
    → file_identity around.net around.python (md5_expectation normal) key fields ≡ ok identity
    → (positive_identifier around.net around.python (str key) ≡ ok identity.0)
      × (required_md5 around.net around.python (get "md5" fields) ≡ ok identity.1)
unfolding file_identity
file_identity-parts around normal key fields identity h =
    let (file_id, identified, r₁) =
      >>=-eq-ok (positive_identifier around.net around.python (str key)) _ h in
    let (_, r₂) = require-eq-ok (id_fits none file_id) metadata_error _ r₁ in
    let (md5, read, r₃) =
      >>=-eq-ok (required_md5 around.net around.python (get "md5" fields)) _ r₂ in
    let (_, last) = require-eq-ok (md5 == normal) metadata_error (ok (file_id, md5)) r₃ in
    let same = ok-injective last in
    (identified ∙ ap (λ i. ok i.0) same, read ∙ ap (λ i. ok i.1) same)

file_rest-parts :
    (around : Surroundings) (fields : Fields) (identity : ℕ × String)
    (shape : Option ℕ × Option String) (edition_id : Option ℕ) (file : FileMetadata)
    → file_rest around.net around.python fields identity shape edition_id ≡ ok file
    → (locator_filename around.net around.python (get "locator" fields) ≡ ok file.locator_filename)
      × (file.file_id ≡ identity.0)
      × (file.md5 ≡ identity.1)
      × (file.size_bytes ≡ shape.0)
      × (file.extension ≡ shape.1)
      × (file.edition_id ≡ edition_id)
unfolding file_rest
file_rest-parts around fields identity shape edition_id file h =
    let (pages, _, r₁) =
      >>=-eq-ok (optional_integer around.net around.python (get "pages" fields)) _ h in
    let (filename, located, r₂) =
      >>=-eq-ok (locator_filename around.net around.python (get "locator" fields)) _ r₁ in
    let (comics, _, r₃) =
      >>=-eq-ok (optional_identifier around.net around.python (get "comics_id" fields)) _ r₂ in
    let same = ok-injective r₃ in
    (
      located ∙ ap (λ f. ok f.locator_filename) same,
      ap (λ f. f.file_id) (sym same),
      ap (λ f. f.md5) (sym same),
      ap (λ f. f.size_bytes) (sym same),
      ap (λ f. f.extension) (sym same),
      ap (λ f. f.edition_id) (sym same),
    )

file_of-Reads :
    (around : Surroundings) (normal key : String) (fields : Fields) (file : FileMetadata)
    → file_of around.net around.python (md5_expectation normal) key fields ≡ ok file
    → Reads around key fields file
unfolding file_of
file_of-Reads around normal key fields file h =
    let (identity, named, r₁) =
      >>=-eq-ok (file_identity around.net around.python (md5_expectation normal) key fields) _ h in
    let (_, _, r₂) = >>=-eq-ok (file_available around.net around.python fields) _ r₁ in
    let (shape, shaped, r₃) =
      >>=-eq-ok (file_shape around.net around.python (md5_expectation normal) fields) _ r₂ in
    let (edition_id, chosen, last) =
      >>=-eq-ok (file_edition around.net around.python none fields) _ r₃ in
    let (sized, extended) = file_shape-parts around normal fields shape shaped in
    let (identified, same_md5) = file_identity-parts around normal key fields identity named in
    let (located, file_id, md5, size, extension, edition) =
      file_rest-parts around fields identity shape edition_id file last in
    (
      identified ∙ ap ok (sym file_id),
      same_md5 ∙ ap ok (sym md5),
      sized ∙ ap ok (sym size),
      extended ∙ ap ok (sym extension),
      located,
      chosen ∙ ap ok (sym edition),
    )

-- What `matches_of` keeps of an entry is that entry.
if-Listed :
    (key : String) (fields rest : Fields) (later : List (String × Fields)) (e : String × Fields)
    (same : Bool)
    → (Exists (λ m. m ≡ e) later → Listed rest e)
    → Exists (λ m. m ≡ e) (if same then (key, fields) ∷ later else later)
    → Listed (field key (obj fields) rest) e
if-Listed key fields rest later e true h (inl here) = inl (ap (λ m. (m.0, obj m.1)) here)
if-Listed key fields rest later e true h (inr more) = inr (h more)
if-Listed key fields rest later e false h more = inr (h more)

matches_of-Listed :
    (around : Surroundings) (md5 : String) (records : Fields) (e : String × Fields)
    → Exists (λ m. m ≡ e) (matches_of around.net around.python md5 records)
    → Listed records e
unfolding matches_of
matches_of-Listed around md5 end e h = h
matches_of-Listed around md5 (field key (obj fields) rest) e h =
    if-Listed key fields rest (matches_of around.net around.python md5 rest) e _
      (matches_of-Listed around md5 rest e) h
matches_of-Listed around md5 (field key _ rest) e h = inr (matches_of-Listed around md5 rest e h)

one_match-eq-ok :
    (found : List (String × Fields)) (entry : String × Fields)
    → one_match found ≡ ok entry
    → found ≡ entry ∷ []
one_match-eq-ok [] entry h = cc
one_match-eq-ok (e ∷ []) entry h = ap (λ e. e ∷ []) (ok-injective h)
one_match-eq-ok (e ∷ f ∷ found) entry h = cc

file_record-only :
    (around : Surroundings) (md5 : String) (records : Fields) (entry : String × Fields)
    → file_record around.net around.python none md5 records ≡ ok entry
    → matches_of around.net around.python md5 records ≡ entry ∷ []
unfolding file_record
file_record-only around md5 records entry h =
    one_match-eq-ok (matches_of around.net around.python md5 records) entry h

pub parse_file_metadata_by_md5-IsFileOf :
    (around : Surroundings) (payload md5 : String) (file : FileMetadata)
    → parse_file_metadata_by_md5 around.net around.python payload md5 ≡ ok file
    → IsFileOf around payload md5 file
unfolding parse_file_metadata_by_md5 parse_expected Agrees
parse_file_metadata_by_md5-IsFileOf around payload md5 file h =
    let (normal, read, parsed) = >>=-eq-ok (required_md5 around.net around.python (str md5)) _ h in
    let (same, digits, positive, _, _, supported, _, _) =
      parse_expected-Agrees around.net around.python payload (md5_expectation normal) file parsed in
    let (records, decoded, r₁) =
      >>=-eq-ok (decode_keyed_object around.net around.python payload) _ parsed in
    let (entry, found, last) =
      >>=-eq-ok (file_record around.net around.python none normal records) _ r₁ in
    let only = file_record-only around normal records entry found in
    let (identity, record_md5, size, extension, locator, edition) =
      file_of-Reads around normal entry.0 entry.1 file last in
    record {
      records = records;
      entry = entry;
      same_md5 = read ∙ ap ok (sym same);
      is_md5 = digits;
      identified = positive;
      supported = supported;
      decoded = decoded;
      listed =
          matches_of-Listed around normal records entry
            (subst (Exists (λ m. m ≡ entry)) (sym only) (inl refl));
      only =
          subst (λ m. matches_of around.net around.python m records ≡ entry ∷ []) (sym same) only;
      identity = identity;
      record_md5 = record_md5;
      size = size;
      extension = extension;
      locator = locator;
      edition = edition;
    }
