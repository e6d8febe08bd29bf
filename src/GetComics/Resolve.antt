-- ===== src/GetComics/Resolve.antt =====
-- `resolve`, `_resolve_link` and `_candidate_url` of
-- providers/getcomics/src/pullbox_provider_getcomics/service.py, and `_candidate_identity` of
-- parser.py beside it, whose ids they read. Base64 of UTF-8 text is an argument.
pub mod RoundTrip
use Prim.Native.String
use pullbox_direct_providers.Prelude.{
  ℕ, zero, suc, ◌-◌, ◌%◌, Bool, true, false, not, ◌&&◌, ◌||◌, Option, none, some, List, [], ◌∷◌,
  ltb, if◌then◌else◌, String_eq, String,
}
use pullbox_direct_providers.Prelude.Dict.{put}
use pullbox_direct_providers.Prelude.Result.{Result, ok, raised, ◌>>=◌}
use pullbox_direct_providers.Prelude.Text.{
  text_len, starts, strip_prefix, has_infix, any_char, is_char, rstrip, is_empty,
}
use pullbox_direct_providers.Contract.Failures.{
  Failure, protocol_error, runtime_error, value_error, cancelled, other_error,
}
use pullbox_direct_providers.GetComics.Search.{base_url}

-- What decoding gives: a text, an error that is caught (binascii.Error, UnicodeDecodeError), or the
-- ValueError of an argument that is not ASCII.
pub data Decoded : Type 0 where
  decoded : String → Decoded
  malformed not_ascii : Decoded

-- `base64.urlsafe_b64encode(path.encode()).decode()`, and the way back.
pub record Base64 : Type 0 where
  pub urlsafe_b64encode : String → String
  pub urlsafe_b64decode : String → Decoded

-- "=" * n
unfoldable pub padding : ℕ → String
padding zero = ""
padding (suc n) = String.◌∷◌ "=" (padding n)

-- -n % 4
abbrev pub missing : ℕ → ℕ
missing n = (4 - n % 4) % 4

-- `_candidate_not_found`
abbrev pub candidate_not_found : Failure
candidate_not_found =
    protocol_error
      (record { status_code = 404; code = "candidate_not_found"; retry_after_seconds = none })

-- A path that a candidate may name.
unfoldable pub is_candidate_path : String → Bool
unfolding starts has_infix any_char
is_candidate_path path =
    starts "/" path
    && not (has_infix "//" path)
    && not (any_char (is_char b'?') path)
    && not (any_char (is_char b'#') path)

abbrev pub url_at : Decoded → Result Failure String
unfolding is_candidate_path
url_at (decoded path) =
    if is_candidate_path path then ok (String.◌++◌ base_url path) else raised candidate_not_found
url_at malformed = raised candidate_not_found
url_at not_ascii = raised value_error

module _ (base64 : Base64) where
  abbrev pub padded : String → String
  unfolding padding text_len
  padded encoded = String.◌++◌ encoded (padding (missing (text_len encoded)))

  abbrev pub url_of_rest : Option String → Result Failure String
  unfolding padding text_len is_candidate_path
  url_of_rest none = raised candidate_not_found
  url_of_rest (some encoded) = url_at (base64.urlsafe_b64decode (padded encoded))

  -- `_candidate_url`
  unfoldable pub candidate_url : String → Result Failure String
  unfolding strip_prefix padding text_len is_candidate_path
  candidate_url candidate_id = url_of_rest (strip_prefix "getcomics:" candidate_id)

  -- `_candidate_identity` of parser.py, for the path of the URL; GetComicsLayoutError is a
  -- RuntimeError.
  unfoldable pub candidate_identity : String → Result Failure String
  unfolding rstrip text_len
  candidate_identity path =
      let encoded = rstrip (is_char b'=') (base64.urlsafe_b64encode path) in
      if is_empty encoded || ltb 480 (text_len encoded)
      then raised (runtime_error "GetComics candidate path exceeds the supported limit.")
      else ok (String.◌++◌ "getcomics:" encoded)

-- `_resolve_link`: a RuntimeError leaves the link unresolved.
unfoldable pub link_of : Result Failure String → Result Failure (Option String)
link_of (ok url) = ok (some url)
link_of (raised (runtime_error e)) = ok none
link_of (raised e) = raised e

-- `dict(await asyncio.gather(...))`, where the first exception ends the gathering.
unfoldable pub resolved_links :
    (String → Result Failure String)
    → List String
    → List (String × Option String)
    → Result Failure (List (String × Option String))
unfolding link_of put
resolved_links resolver [] links = ok links
resolved_links resolver (url ∷ urls) links =
    link_of (resolver url) >>= λ link. resolved_links resolver urls (put url link links)

-- What a resolution meets outside; `R` is what the parser of a release page returns.
pub record ReleaseSource (R : Type 0) : Type 0 where
  pub base64 : Base64
  pub page_fetcher : String → Result Failure String
  pub redirect_resolver : String → Result Failure String
  pub extract_source_redirect_links : String → Result Failure (List String)
  pub parse_release_html : String → String → List (String × Option String) → Result Failure R

module _ {R : Type 0} (source : ReleaseSource R) where
  -- `resolve`
  unfoldable pub resolve : String → Result Failure R
  unfolding candidate_url resolved_links
  resolve provider_candidate_id = do
    source_url ← candidate_url source.base64 provider_candidate_id
    html ← source.page_fetcher source_url
    redirect_urls ← source.extract_source_redirect_links html
    links ← resolved_links source.redirect_resolver redirect_urls []
    source.parse_release_html html source_url links
