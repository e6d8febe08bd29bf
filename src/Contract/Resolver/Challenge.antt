-- ===== src/Contract/Resolver/Challenge.antt =====
-- `detect_browser_challenge` of resolver.py.
use pullbox_direct_providers.Prelude.{
  ℕ, ◌*◌, Bool, true, false, ◌&&◌, ◌||◌, Option, none, some, List, [], ◌∷◌, if◌then◌else◌, ℕ_eq,
  String_eq, String, any, take, contains, List_eq,
}
use pullbox_direct_providers.Prelude.Dict.{lookup, put}
use pullbox_direct_providers.Prelude.Text.{has_infix, text_take}
use pullbox_direct_providers.Contract.Net.{Net}

pub data BrowserChallengeKind : Type 0 where
  cloudflare ddos_guard browser_challenge : BrowserChallengeKind

-- A response body, a text or its bytes.
pub data Body : Type 0 where
  decoded : String → Body
  raw : List ℕ → Body

abbrev pub challenge_body_limit : ℕ
challenge_body_limit = 64 * 1024

-- any(marker in sample for marker in markers)
unfoldable pub any_marker : List String → String → Bool
unfolding has_infix
any_marker markers sample = any (λ m. has_infix m sample) markers

-- headers.get("server", "")
abbrev pub or_empty : Option String → String
or_empty none = ""
or_empty (some s) = s

abbrev pub is_some : Option String → Bool
is_some none = false
is_some (some s) = true

abbrev pub cloudflare_markers : List String
cloudflare_markers =
    "just a moment" ∷ "cf-chl-" ∷ "/cdn-cgi/challenge-platform/" ∷ "cloudflare ray id" ∷ []

module _ (net : Net) where
  -- The dict of casefolded names and values; a later header replaces an earlier one.
  unfoldable pub normalized_headers :
      List (String × String) → List (String × String) → List (String × String)
  normalized_headers [] d = d
  normalized_headers ((k, v) ∷ headers) d =
      normalized_headers headers (put (net.casefold k) (net.casefold v) d)

  unfoldable pub sample_of : Body → String
  unfolding text_take
  sample_of (raw bytes) = net.casefold (net.decode (take challenge_body_limit bytes))
  sample_of (decoded s) = net.casefold (text_take challenge_body_limit s)

  -- The three signatures, over the normalized headers and the sample.
  unfoldable pub challenge_of : List (String × String) → String → Option BrowserChallengeKind
  unfolding any_marker
  challenge_of headers sample =
      if any_marker cloudflare_markers sample
        && (is_some (lookup "cf-ray" headers)
            || has_infix "cloudflare" (or_empty (lookup "server" headers)))
      then some cloudflare
      else if has_infix "ddos-guard" (or_empty (lookup "server" headers))
          && any_marker ("checking your browser" ∷ "ddos-guard" ∷ []) sample
      then some ddos_guard
      else if has_infix "challenge-form" sample
          && any_marker ("enable javascript" ∷ "enable cookies" ∷ "checking" ∷ []) sample
      then some browser_challenge
      else none

  unfoldable pub detect_browser_challenge :
      ℕ → List (String × String) → Body → Option BrowserChallengeKind
  unfolding normalized_headers sample_of challenge_of
  detect_browser_challenge status_code headers body =
      if contains status_code (403 ∷ 429 ∷ 503 ∷ [])
      then challenge_of (normalized_headers headers []) (sample_of body)
      else none
