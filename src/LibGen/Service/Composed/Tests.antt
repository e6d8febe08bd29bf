-- ===== src/LibGen/Service/Composed/Tests.antt =====
-- A resolution over the parsers and the session, from a source with one file and its edition.
use Prim.Native.String
use pullbox_direct_providers.Prelude.{
  ℕ, ◌≡◌, refl, true, none, some, [], ◌∷◌, if◌then◌else◌, ◌==◌, ℕ_eq, String_eq, List_eq, String,
}
use pullbox_direct_providers.Prelude.Dict.{lookup, put}
use pullbox_direct_providers.Prelude.Int.{pos}
use pullbox_direct_providers.Prelude.Json.{Json, str, obj, end, field}
use pullbox_direct_providers.Prelude.Result.{ok, traverse}
use pullbox_direct_providers.Prelude.Text.{is_digit}
use pullbox_direct_providers.Contract.Net.{Url, Net, AddressResolver}
use pullbox_direct_providers.Contract.Resolver.Challenge.{
  detect_browser_challenge, normalized_headers,
}
use pullbox_direct_providers.Contract.Resolver.Target.{
  validate_source_url, declared_url, all_global, normalize_domain, within_domain, rebuilt_url,
}
use pullbox_direct_providers.Contract.SourceHttp.{Response, answered, complete}
use pullbox_direct_providers.LibGen.Metadata.Keys.{
  Surroundings, file_metadata_url, edition_metadata_url,
}
use pullbox_direct_providers.LibGen.Metadata.Parse.{parse_file_metadata_by_md5}
use pullbox_direct_providers.LibGen.Metadata.Editions.{parse_edition_metadata}
use pullbox_direct_providers.LibGen.Transport.{default_user_agent}
use pullbox_direct_providers.LibGen.Transport.Fetch.{fetch_text, resolve_redirect}
use pullbox_direct_providers.LibGen.Service.Origins.{operation_origins}
use pullbox_direct_providers.LibGen.Service.Search.{failover, resolve_moves_on}
use pullbox_direct_providers.LibGen.Service.Resolve.{Artifact, resolve}
use pullbox_direct_providers.LibGen.Service.Composed.{Sessions, composed}
use pullbox_direct_providers.LibGen.Service.Composed.Downloads.{AreDownloads, resolve-AreDownloads}

abbrev url_of : String → String → Url
url_of hostname path = record {
  scheme = "https";
  netloc = hostname;
  hostname = some hostname;
  username = none;
  password = none;
  port = some none;
  path = path;
  query = "";
  fragment = "";
}

abbrev net : Net
net = record {
  urlsplit = λ s.
      if s == "https://libgen.gl"
      then some (url_of "libgen.gl" "")
      else if s == "https://cdn.example/a"
      then some (url_of "cdn.example" "/a")
      else some (url_of "libgen.gl" "/page");
  urlunsplit = λ scheme netloc path query fragment.
      if path == "" then String.◌++◌ "https://" netloc else "https://libgen.gl/page";
  urljoin = λ base url. none;
  ip_address = λ s. if s == "93.184.216.34" then some true else none;
  casefold = λ s. s;
  show = λ n. if n == 7 then "7" else if n == 3 then "3" else "0";
  decode = λ bytes. "";
  encoded_length = λ s. 0;
}

abbrev md5 : String
md5 = "0123456789abcdef0123456789abcdef"

abbrev files : Json
files = obj (
    field "7"
      (obj (
        field "md5" (str md5) (
          field "filesize" (str "100") (
            field "extension" (str ".cbz")
              (field "editions" (obj (field "x" (obj (field "e_id" (str "3") end)) end)) end)))))
      end)

abbrev editions : Json
editions = obj (
    field "3"
      (obj (
        field "title" (str "Saga") (
          field "issue_number" (str "007")
            (field "files" (obj (field "y" (obj (field "f_id" (str "7") end)) end)) end))))
      end)

abbrev around : Surroundings
around = record {
  net = net;
  unicode = record { is_decimal = λ c. is_digit c; title = λ s. s };
  python = record {
    repr = λ value. "";
    int_of_text = λ s. some (pos 7);
    json_loads = λ s. if s == "editions" then ok editions else ok files;
  };
  parse_comic_title =
      λ title. record { series_title = ""; issue_numbers = []; volume = none; year = none };
  urlencode = λ parameters. "";
  fetcher = λ k url. ok "";
  clock = λ k. 0;
}

abbrev answer : ℕ → Response
answer k = record {
  status_code = if k == 2 then 302 else 200;
  headers = [];
  location = some "https://cdn.example/a";
  encoding = none;
  chunks = [];
  stream_end = complete;
}

abbrev sessions : Sessions
sessions = record {
  session = λ origin k. record {
    source_host = "libgen.gl";
    resolver_profile = none;
    user_agent = default_user_agent;
    cookies = [];
  };
  outside = λ origin k. record {
    target_resolver = λ host port. some ("93.184.216.34" ∷ []);
    send = λ n url headers. answered (answer k);
    browser_resolver = λ ordinary url profile challenge. ok none;
    decode = λ bytes encoding. if k == 1 then "editions" else "files";
  };
}

abbrev resolver : AddressResolver
resolver host port = some ("93.184.216.34" ∷ [])

abbrev artifact : Artifact
artifact = record {
  artifact_id = "libgen-direct:0123456789abcdef0123456789abcdef";
  coverage = record { issue_numbers = "7" ∷ []; volume = none; description = some "Saga" };
  format = some "cbz";
  edition = none;
  size_bytes = some 100;
  mirror_id = "libgen:0123456789abcdef0123456789abcdef:direct";
  final_url = "https://cdn.example/a";
  checksum = "md5:0123456789abcdef0123456789abcdef";
}

resolved :
    (resolve
      (composed around sessions)
      net
      resolver
      "libgen:0123456789abcdef0123456789abcdef"
      none).0
    ≡ ok (artifact ∷ [])
unfolding resolve traverse operation_origins failover resolve_moves_on fetch_text resolve_redirect
    validate_source_url declared_url all_global normalize_domain within_domain rebuilt_url
    detect_browser_challenge normalized_headers put lookup file_metadata_url edition_metadata_url
    parse_file_metadata_by_md5 parse_edition_metadata
resolved = refl

resolve-AreDownloads_example :
    AreDownloads around sessions resolver "libgen:0123456789abcdef0123456789abcdef" none
      (artifact ∷ [])
resolve-AreDownloads_example =
    resolve-AreDownloads around sessions resolver "libgen:0123456789abcdef0123456789abcdef" none
      (artifact ∷ []) resolved
