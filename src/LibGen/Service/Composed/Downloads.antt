-- ===== src/LibGen/Service/Composed/Downloads.antt =====
-- What a resolution of service.py returns over the parsers of metadata.py and the session of
-- transport.py.
use Prim.Native.String
use pullbox_direct_providers.Prelude.{
  ℕ, ◌≡◌, refl, subst, Option, none, some, List, [], ◌∷◌, ℕ_eq, String_eq, String,
}
use pullbox_direct_providers.Prelude.Result.{ok, >>=-eq-ok, ok-injective}
use pullbox_direct_providers.Contract.Net.{AddressResolver}
use pullbox_direct_providers.LibGen.Service.Resolve.{
  Artifact, candidate_md5, resolved_coverage, edition_of, edition_type_of, resolve_origin, resolve,
  max_metadata_bytes,
}
use pullbox_direct_providers.LibGen.Service.Artifacts.{UsedOrigin, resolve-IsResolved}
use pullbox_direct_providers.LibGen.Metadata.Records.{FileMetadata, EditionMetadata}
use pullbox_direct_providers.LibGen.Metadata.Keys.{
  Surroundings, file_metadata_url, edition_metadata_url,
}
use pullbox_direct_providers.LibGen.Metadata.Editions.{parse_edition_metadata}
use pullbox_direct_providers.LibGen.Transport.Destination.{IsPublic, resolve_redirect-IsPublic}
use pullbox_direct_providers.LibGen.Transport.Fetch.{fetch_text, resolve_redirect}
use pullbox_direct_providers.LibGen.Service.Composed.{Sessions, composed}
use pullbox_direct_providers.LibGen.Service.Composed.Editions.{
  IsEditionOf, parse_edition_metadata-IsEditionOf,
}
use pullbox_direct_providers.LibGen.Service.Composed.Files.{
  IsFileOf, parse_file_metadata_by_md5-IsFileOf,
}

-- The edition that a file names is the one that the origin's answer to the second request has.
abbrev pub EditionFrom :
    Surroundings → Sessions → String → Option ℕ → Option EditionMetadata → Type 0
EditionFrom around sessions origin none none = Unit
EditionFrom around sessions origin (some edition_id) (some edition) =
    (payload : String) × ((fetch_text around.net (sessions.outside origin 1)
        (sessions.session origin 1) (edition_metadata_url around origin edition_id)
        max_metadata_bytes).0
      ≡ ok payload)
    × IsEditionOf around payload edition_id edition
EditionFrom around sessions origin _ _ = ⊥

-- An artifact as the answers of its origin describe it: the file of the MD5 in the first, the edition
-- that the file names, if any, in the second, and the public URL that the third redirects to.
pub record IsDownload (around : Surroundings) (sessions : Sessions) (md5 origin : String)
    (artifact : Artifact) : Type 0 where
  pub payload : String
  pub file : FileMetadata
  pub edition : Option EditionMetadata
  pub fetched :
      (fetch_text around.net
        (sessions.outside origin 0)
        (sessions.session origin 0)
        (file_metadata_url around origin md5)
        max_metadata_bytes).0
      ≡ ok payload
  pub of_md5 : IsFileOf around payload md5 file
  pub of_edition : EditionFrom around sessions origin file.edition_id edition
  pub identity : artifact.artifact_id ≡ String.◌++◌ "libgen-direct:" md5
  pub same_coverage : artifact.coverage ≡ resolved_coverage (composed around sessions) file edition
  pub format : artifact.format ≡ file.extension
  pub size : artifact.size_bytes ≡ file.size_bytes
  pub kind : artifact.edition ≡ edition_type_of edition
  pub checked : artifact.checksum ≡ String.◌++◌ "md5:" md5
  pub redirected :
      (resolve_redirect around.net
        (sessions.outside origin 2)
        (sessions.session origin 2)
        (String.◌++◌ origin (String.◌++◌ "/get.php?md5=" md5))).0
      ≡ ok artifact.final_url
  pub public : IsPublic around.net (sessions.outside origin 2).target_resolver artifact.final_url

edition_of-EditionFrom :
    (around : Surroundings) (sessions : Sessions) (origin : String) (file : FileMetadata)
    (edition_id : Option ℕ) (edition : Option EditionMetadata)
    → edition_of (composed around sessions) origin file edition_id ≡ ok edition
    → EditionFrom around sessions origin edition_id edition
unfolding edition_of
edition_of-EditionFrom around sessions origin file none edition h =
    subst (EditionFrom around sessions origin none) (ok-injective h) tt
edition_of-EditionFrom around sessions origin file (some edition_id) edition h =
    let (payload, fetched, r₁) =
      >>=-eq-ok
        ((composed around sessions).fetch_text origin 1
          (edition_metadata_url around origin edition_id) max_metadata_bytes)
        _ h in
    let (found, parsed, r₂) =
      >>=-eq-ok
        (parse_edition_metadata around.net around.unicode around.python payload edition_id
          file.file_id)
        _ r₁ in
    subst (EditionFrom around sessions origin (some edition_id)) (ok-injective r₂) (
      payload,
      fetched,
      parse_edition_metadata-IsEditionOf around payload edition_id file.file_id found parsed,
    )

resolve_origin-IsDownload :
    (around : Surroundings) (sessions : Sessions) (md5 origin : String) (artifact : Artifact)
    → resolve_origin (composed around sessions) md5 origin ≡ ok artifact
    → IsDownload around sessions md5 origin artifact
unfolding resolve_origin
resolve_origin-IsDownload around sessions md5 origin artifact h =
    let parts = composed around sessions in
    let (payload, fetched, r₁) =
      >>=-eq-ok (parts.fetch_text origin 0 (file_metadata_url around origin md5) max_metadata_bytes)
        _ h in
    let (file, parsed, r₂) = >>=-eq-ok (parts.parse_file_metadata_by_md5 payload md5) _ r₁ in
    let (edition, found, r₃) = >>=-eq-ok (edition_of parts origin file file.edition_id) _ r₂ in
    let (destination, gone, r₄) =
      >>=-eq-ok
        (parts.resolve_redirect origin (String.◌++◌ origin (String.◌++◌ "/get.php?md5=" md5))) _
        r₃ in
    subst (IsDownload around sessions md5 origin) (ok-injective r₄) (record {
      payload = payload;
      file = file;
      edition = edition;
      fetched = fetched;
      of_md5 = parse_file_metadata_by_md5-IsFileOf around payload md5 file parsed;
      of_edition = edition_of-EditionFrom around sessions origin file file.edition_id edition found;
      identity = refl;
      same_coverage = refl;
      format = refl;
      size = refl;
      kind = refl;
      checked = refl;
      redirected = gone;
      public =
          resolve_redirect-IsPublic around.net (sessions.outside origin 2)
            (sessions.session origin 2) (String.◌++◌ origin (String.◌++◌ "/get.php?md5=" md5))
            destination gone;
    })

-- What a resolution over the repository's own parsers and session returns.
pub record AreDownloads (around : Surroundings) (sessions : Sessions) (resolver : AddressResolver)
    (id : String) (source_url : Option String) (artifacts : List Artifact) : Type 0 where
  pub md5 : String
  pub origin : String
  pub artifact : Artifact
  pub of_candidate : candidate_md5 id ≡ ok md5
  pub used : UsedOrigin (composed around sessions) around.net resolver source_url origin
  pub described : IsDownload around sessions md5 origin artifact
  pub only : artifacts ≡ artifact ∷ []

-- A resolution that succeeds, over the parsers of metadata.py and the session of transport.py,
-- returns one artifact, from the origin of the configured URL or of a known one. Its format and size
-- are those of the one record that the origin's answer has for the MD5 that the candidate's id
-- names; its edition is of the type that the origin's second answer gives for the edition that this
-- record names; its coverage is made of both; and its URL, to which the origin redirects, is public
-- https.
pub resolve-AreDownloads :
    (around : Surroundings) (sessions : Sessions) (resolver : AddressResolver) (id : String)
    (source_url : Option String) (artifacts : List Artifact)
    → (resolve (composed around sessions) around.net resolver id source_url).0 ≡ ok artifacts
    → AreDownloads around sessions resolver id source_url artifacts
resolve-AreDownloads around sessions resolver id source_url artifacts h =
    let r =
      resolve-IsResolved (composed around sessions) around.net resolver id source_url artifacts h in
    record {
      md5 = r.md5;
      origin = r.origin;
      artifact = r.artifact;
      of_candidate = r.of_candidate;
      used = r.is_public;
      described = resolve_origin-IsDownload around sessions r.md5 r.origin r.artifact r.given;
      only = r.only;
    }
