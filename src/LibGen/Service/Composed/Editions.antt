-- ===== src/LibGen/Service/Composed/Editions.antt =====
-- What an answer of the source holds that `parse_edition_metadata` of metadata.py accepts.
use pullbox_direct_providers.Prelude.{
  ℕ, ◌≡◌, refl, ap, subst, true, Option, ℕ_eq, String_eq, String,
}
use pullbox_direct_providers.Prelude.Json.{Json, obj, end, get, Fields}
use pullbox_direct_providers.Prelude.Result.{Result, ok, >>=-eq-ok, ok-injective, require-eq-ok}
use pullbox_direct_providers.Contract.Net.{Net}
use pullbox_direct_providers.LibGen.Service.Origins.{ServiceError, metadata_error}
use pullbox_direct_providers.LibGen.Metadata.Records.{EditionMetadata, Python}
use pullbox_direct_providers.LibGen.Metadata.Keys.{Surroundings}
use pullbox_direct_providers.LibGen.Metadata.Fields.{
  source_flag, relation_ids, optional_text, optional_year,
}
use pullbox_direct_providers.LibGen.Metadata.Parse.{decode_keyed_object, as_object, get_or}
use pullbox_direct_providers.LibGen.Metadata.Editions.{
  parse_edition_metadata, edition_of_fields, checked_issue,
}

-- The edition whose record an answer of the source has under its id, and the fields of the record
-- that a coverage is made of.
pub record IsEditionOf (around : Surroundings) (payload : String) (edition_id : ℕ)
    (edition : EditionMetadata) : Type 0 where
  pub records : Fields
  pub fields : Fields
  pub raw_issue : Option String
  pub decoded : decode_keyed_object around.net around.python payload ≡ ok records
  pub keyed : get (around.net.show edition_id) records ≡ obj fields
  pub same_id : edition.edition_id ≡ edition_id
  pub issue_read :
      optional_text around.net around.python 50 (get "issue_number" fields) ≡ ok raw_issue
  pub issue :
      checked_issue around.net around.unicode around.python raw_issue ≡ ok edition.issue_number
  pub title : optional_text around.net around.python 1000 (get "title" fields) ≡ ok edition.title
  pub series :
      optional_text around.net around.python 1000 (get "series_name" fields)
      ≡ ok edition.series_name
  pub volume :
      optional_text around.net around.python 100 (get "issue_volume" fields)
      ≡ ok edition.issue_volume
  pub kind :
      optional_text around.net around.python 100 (get "type" fields) ≡ ok edition.edition_type

as_object-eq-ok : (v : Json) (fields : Fields) → as_object v ≡ ok fields → v ≡ obj fields
as_object-eq-ok (obj fs) fields h = ap obj (ok-injective h)
as_object-eq-ok _ fields h = cc

pub parse_edition_metadata-IsEditionOf :
    (around : Surroundings) (payload : String) (edition_id file_id : ℕ) (edition : EditionMetadata)
    → parse_edition_metadata around.net around.unicode around.python payload edition_id file_id
      ≡ ok edition
    → IsEditionOf around payload edition_id edition
unfolding parse_edition_metadata edition_of_fields
parse_edition_metadata-IsEditionOf around payload edition_id file_id edition h =
    let net : Net = around.net in
    let python : Python = around.python in
    let read : ℕ → Json → Result ServiceError (Option String) = optional_text net python in
    let (records, decoded, r₁) = >>=-eq-ok (decode_keyed_object net python payload) _ h in
    let (fields, keyed, r₂) = >>=-eq-ok (as_object (get (net.show edition_id) records)) _ r₁ in
    let (_, _, r₃) = >>=-eq-ok (source_flag net python true (get "visible" fields)) _ r₂ in
    let (_, r₄) = require-eq-ok _ metadata_error _ r₃ in
    let (_, _, r₅) =
      >>=-eq-ok (relation_ids net python "f_id" (get_or (obj end) "files" fields)) _ r₄ in
    let (_, r₆) = require-eq-ok _ metadata_error _ r₅ in
    let (raw_issue, issue_read, r₇) = >>=-eq-ok (read 50 (get "issue_number" fields)) _ r₆ in
    let (issue_number, issue, r₈) =
      >>=-eq-ok (checked_issue net around.unicode python raw_issue) _ r₇ in
    let (title, title_read, r₉) = >>=-eq-ok (read 1000 (get "title" fields)) _ r₈ in
    let (series, series_read, s₁) = >>=-eq-ok (read 1000 (get "series_name" fields)) _ r₉ in
    let (_, _, s₂) = >>=-eq-ok (read 1000 (get "title_add" fields)) _ s₁ in
    let (_, _, s₃) = >>=-eq-ok (read 500 (get "publisher" fields)) _ s₂ in
    let (_, _, s₄) = >>=-eq-ok (optional_year net python (get "year" fields)) _ s₃ in
    let (_, _, s₅) = >>=-eq-ok (read 2000 (get "cover_url" fields)) _ s₄ in
    let (volume, volume_read, s₆) = >>=-eq-ok (read 100 (get "issue_volume" fields)) _ s₅ in
    let (kind, kind_read, s₇) = >>=-eq-ok (read 100 (get "type" fields)) _ s₆ in
    subst (IsEditionOf around payload edition_id) (ok-injective s₇) (record {
      records = records;
      fields = fields;
      raw_issue = raw_issue;
      decoded = decoded;
      keyed = as_object-eq-ok (get (net.show edition_id) records) fields keyed;
      same_id = refl;
      issue_read = issue_read;
      issue = issue;
      title = title_read;
      series = series_read;
      volume = volume_read;
      kind = kind_read;
    })
