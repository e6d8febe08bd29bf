-- ===== src/LibGen/Service/Composed.antt =====
-- `_resolve` of service.py over the code it calls: the parsers and URLs of metadata.py, and the
-- session of transport.py, whose state at each operation of a resolution is an argument.
pub mod Editions
pub mod Files
pub mod Downloads
mod Tests
use pullbox_direct_providers.Prelude.{ℕ, String}
use pullbox_direct_providers.LibGen.Service.Resolve.{Metadata}
use pullbox_direct_providers.LibGen.Metadata.Keys.{
  Surroundings, file_metadata_url, edition_metadata_url,
}
use pullbox_direct_providers.LibGen.Metadata.Parse.{parse_file_metadata_by_md5}
use pullbox_direct_providers.LibGen.Metadata.Editions.{parse_edition_metadata}
use pullbox_direct_providers.LibGen.Transport.{Session}
use pullbox_direct_providers.LibGen.Transport.Fetch.{Outside, fetch_text, resolve_redirect}

-- The session of an origin before its k-th operation, and what that operation meets outside. The
-- redirect of a resolution is operation 2.
pub record Sessions : Type 0 where
  pub session : String → ℕ → Session
  pub outside : String → ℕ → Outside

-- What a resolution calls, for the session and the parsers of the repository.
abbrev pub composed : Surroundings → Sessions → Metadata
composed around sessions = record {
  fetch_text = λ origin k url max_bytes.
      (fetch_text around.net (sessions.outside origin k) (sessions.session origin k) url
        max_bytes).0;
  resolve_redirect = λ origin url.
      (resolve_redirect around.net (sessions.outside origin 2) (sessions.session origin 2) url).0;
  parse_file_metadata_by_md5 = parse_file_metadata_by_md5 around.net around.python;
  parse_edition_metadata = parse_edition_metadata around.net around.unicode around.python;
  file_metadata_url = file_metadata_url around;
  edition_metadata_url = edition_metadata_url around;
  parse_comic_title = around.parse_comic_title;
}
