-- ===== src/Contract/Compatibility.antt =====
-- compatibility.py of packages/provider_contract/src/pullbox_provider_contract. A set of versions is
-- a list of them here: nothing that the code does depends on repeats or on the order.
mod Tests
pub mod Highest
use Prim.Native.String
use Prim.Native.Char.{Char, code}
use pullbox_direct_providers.Prelude.{
  ℕ, ◌+◌, ◌-◌, ◌*◌, Bool, true, false, not, ◌&&◌, ◌||◌, Option, none, some, List, [], ◌∷◌, leb, ltb,
  if◌then◌else◌, ◌==◌, ℕ_eq, String_eq, String, contains,
}
use pullbox_direct_providers.Prelude.Result.{Result, ok, raised, ◌>>=◌}
use pullbox_direct_providers.Prelude.Text.{strip_prefix, all_chars, is_digit}

-- `IncompatibleProtocolError`, by its two messages.
pub data IncompatibleProtocol : Type 0 where
  malformed no_compatible_version : IncompatibleProtocol

abbrev pub version_prefix : String
version_prefix = "direct-download-provider/v"

-- [1-9][0-9]*
unfoldable pub is_major : Option String → Bool
unfolding all_chars
is_major none = false
is_major (some String.[]) = false
is_major (some (String.◌∷◌ c s)) = leb b'1' (code c) && is_digit c && all_chars is_digit s

-- `_PROTOCOL_VERSION.fullmatch`
unfoldable pub is_protocol_version : String → Bool
unfolding strip_prefix is_major
is_protocol_version version = is_major (strip_prefix version_prefix version)

-- int of ASCII digits
unfoldable pub digits_value : ℕ → String → ℕ
digits_value value String.[] = value
digits_value value (String.◌∷◌ c s) = digits_value (10 * value + (code c - b'0')) s

abbrev major_of : Option String → ℕ
major_of none = 0
major_of (some s) = digits_value 0 s

-- `_major_version`, of a version that matches: what is behind its last "v" are its digits
unfoldable pub major_version : String → ℕ
unfolding strip_prefix digits_value
major_version version = major_of (strip_prefix version_prefix version)

-- {version for version in versions if fullmatch(version)}
unfoldable pub matching : List String → List String
unfolding is_protocol_version
matching [] = []
matching (version ∷ versions) =
    let rest = matching versions in if is_protocol_version version then version ∷ rest else rest

-- The error if none of the versions matches, and there are any.
abbrev pub unless_malformed : List String → List String → Result IncompatibleProtocol (List String)
unless_malformed [] [] = ok []
unless_malformed (version ∷ versions) [] = raised malformed
unless_malformed versions (version ∷ matched) = ok (version ∷ matched)

-- `_validated_versions`
unfoldable pub validated_versions : List String → Result IncompatibleProtocol (List String)
unfolding matching
validated_versions versions = unless_malformed versions (matching versions)

-- pullbox.intersection(provider)
unfoldable pub intersection : List String → List String → List String
intersection [] provider = []
intersection (version ∷ pullbox) provider =
    let rest = intersection pullbox provider in
    if contains version provider then version ∷ rest else rest

-- max of a first version and further ones, by their major version
unfoldable pub highest : String → List String → String
unfolding major_version
highest best [] = best
highest best (version ∷ versions) =
    let kept = highest best versions in
    let replaced = highest version versions in
    if ltb (major_version best) (major_version version) then replaced else kept

abbrev pub highest_of : List String → Result IncompatibleProtocol String
highest_of [] = raised no_compatible_version
highest_of (version ∷ versions) = ok (highest version versions)

-- `negotiate_protocol_version`
unfoldable pub negotiate_protocol_version :
    List String → List String → Result IncompatibleProtocol String
unfolding validated_versions intersection highest
negotiate_protocol_version pullbox_versions provider_versions = do
  pullbox ← validated_versions pullbox_versions
  provider ← validated_versions provider_versions
  highest_of (intersection pullbox provider)
