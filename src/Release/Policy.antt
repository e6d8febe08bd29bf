-- ===== src/Release/Policy.antt =====
-- .github/scripts/container_vulnerability_policy.py. Exceptions carry no message. Tuples and sets of
-- texts are lists, a set one without regard to order or repetition.
pub mod Reviews
pub mod Reports
use Prim.Native.Char.{Char, code}
use Prim.Native.String
use Prim.Native.String.{compare}
use Prim.Native.Nat.{Ordering}
use pullbox_direct_providers.Prelude.{
  ℕ, zero, suc, ◌+◌, ◌-◌, ◌*◌, ◌^◌, ◌≤◌, ◌<◌, ◌≡◌, ◌≢◌, refl, ap, sym, ◌∙◌, ◌⊎◌, inl, inr, ◌↔◌,
  Bool, true, false, not, ◌&&◌, ◌||◌, Option, none, some, List, [], ◌∷◌, ◌++◌, map, arith, ltb, leb,
  nat_beq, if◌then◌else◌, length, Eq, ◌==◌, ℕ_eq, String_eq, All, Bool-cases, Option-cases,
  length-append, String, eq_iff, eq_refl, any, all, contains, List_eq,
}
use pullbox_direct_providers.Prelude.Dict.{lookup}
use pullbox_direct_providers.Prelude.Int.{ℤ, pos}
use pullbox_direct_providers.Prelude.Json.{
  Json, null, bool, int, float, str, arr, obj, Items, Fields, elems, props, or_null, get,
}
use pullbox_direct_providers.Prelude.Result.{
  Result, ok, raised, ◌>>=◌, ◌>>◌, require, of_option, traverse,
}
use pullbox_direct_providers.Prelude.Text.{
  is_space, is_blank, all_chars, strip_prefix, text_len, is_digit,
}

pub data PolicyError : Type 0 where
  value_error : PolicyError

-- The parts of Python's library whose behaviour the policy only passes on: `date.fromisoformat` as
-- a day number, whether `urlsplit` of a text succeeds with scheme https and a network location, the
-- values of `arch` in the query of a package URL, and the decoding of the base64 image config.
pub record Toolkit : Type 0 where
  pub from_iso_format : String → Option ℕ
  pub is_https_url : String → Option Bool
  pub arches : String → Option (List String)
  pub decode_config : String → Option Json

abbrev pub blocking_severities : List String
blocking_severities = "High" ∷ "Critical" ∷ []

abbrev pub known_severities : List String
known_severities = "Unknown" ∷ "Negligible" ∷ "Low" ∷ "Medium" ∷ blocking_severities

abbrev pub supported_platforms : List String
supported_platforms = "linux/amd64" ∷ "linux/arm64" ∷ []

abbrev pub no_fix_states : List String
no_fix_states = "not-fixed" ∷ "wont-fix" ∷ []

unfoldable pub object_value : Json → Result PolicyError Fields
object_value (obj fs) = ok fs
object_value _ = raised value_error

unfoldable pub text : Json → Result PolicyError String
unfolding is_blank
text (str s) = if is_blank s then raised value_error else ok s
text _ = raised value_error

-- `isinstance(value, list)`
unfoldable pub list_value : Json → Result PolicyError (List Json)
list_value (arr vs) = ok (elems vs)
list_value _ = raised value_error

unfoldable pub is_hex : Char → Bool
is_hex c = is_digit c || (leb b'a' (code c) && leb (code c) b'f')

-- The part of a text behind its first "@", with the length of the part before it, if that part has
-- no white space.
unfoldable pub after_at : ℕ → String → Option (ℕ × String)
after_at n String.[] = none
after_at n (String.◌∷◌ c s) =
    let rest = after_at (n + 1) s in
    if nat_beq (code c) b'@' then some (n, s) else if is_space c then none else rest

-- `[^\s@]+@sha256:[0-9a-f]{64}` and the split at the first "@"
unfoldable pub digest_of : String → Option String
unfolding after_at strip_prefix text_len all_chars is_hex
digest_of pin = elim (after_at 0 pin) [
  | none ↦ none
  | some (n, rest) ↦ elim (strip_prefix "sha256:" rest) [
    | none ↦ none
    | some hex ↦
        if ltb 0 n && nat_beq (text_len hex) 64 && all_chars is_hex hex then some rest else none
  ]
]

unfoldable pub base_digest : Json → Result PolicyError String
base_digest value = do pin ← text value; of_option value_error (digest_of pin)

-- a > b for texts, by code points
abbrev pub text_gt : String → String → Bool
text_gt a b = elim (compare a b) [ Ordering.gt ↦ true | _ ↦ false ]

pub record Finding : Type 0 where
  pub identifier : String
  pub package_name : String
  pub severity : String
  pub version : String
  pub package_type : String
  pub namespace : String
  pub platform : String
  pub package_arch : Option String
  pub fix_state : String
  pub fix_versions : List String

unfoldable pub rule_id : Finding → String
rule_id f = String.◌++◌ f.identifier (String.◌++◌ "-" f.package_name)

-- The tuple that a review must list.
abbrev pub Identity : Type 0
Identity = List String

unfoldable pub identity : Finding → Identity
identity f =
    f.identifier ∷ f.package_name ∷ f.severity ∷ f.version ∷ f.package_type ∷ f.namespace
    ∷ f.platform ∷ f.fix_state ∷ []

-- What the loop over the entries has read of one when it comes to its platforms.
pub record EntryReview : Type 0 where
  pub id : String
  pub package_name : String
  pub severity : String
  pub version : String
  pub package_type : String
  pub namespace : String
  pub fix_state : String
  pub platforms : List Json

abbrev pub identity_at : EntryReview → String → Identity
identity_at r platform =
    r.id ∷ r.package_name ∷ r.severity ∷ r.version ∷ r.package_type ∷ r.namespace ∷ platform
    ∷ r.fix_state ∷ []

unfoldable pub entry_contents : Fields → Result PolicyError EntryReview
entry_contents entry = do
  id ← text (get "id" entry)
  package_name ← text (get "package" entry)
  severity ← text (get "severity" entry)
  version ← text (get "version" entry)
  package_type ← text (get "type" entry)
  namespace ← text (get "namespace" entry)
  require (contains severity blocking_severities) value_error
  fix_state ← text (get "fix_state" entry)
  require (contains fix_state no_fix_states) value_error
  platforms ← list_value (get "platforms" entry)
  require (ltb 0 (length platforms)) value_error
  ok (record {
    id = id;
    package_name = package_name;
    severity = severity;
    version = version;
    package_type = package_type;
    namespace = namespace;
    fix_state = fix_state;
    platforms = platforms;
  })

-- One platform of an entry, with the rest of the identity.
unfoldable pub platform_identity : (String → Identity) → Json → Result PolicyError Identity
platform_identity identity_at (str platform) =
    if contains platform supported_platforms then ok (identity_at platform) else raised value_error
platform_identity identity_at _ = raised value_error

-- value == 2
is_two : Json → Bool
is_two (int (pos n)) = nat_beq n 2
is_two (float (pos m) k) = nat_beq m (2 * 2 ^ k)
is_two _ = false

module _ (tools : Toolkit) (today : ℕ) where
  unfoldable pub iso_date : Json → Result PolicyError ℕ
  iso_date value = do s ← text value; of_option value_error (tools.from_iso_format s)

  unfoldable pub review_dates : Fields → Result PolicyError (Unit {0})
  review_dates value = do
    reviewed ← iso_date (get "reviewed_on" value)
    expires ← iso_date (get "expires_on" value)
    require (leb today expires) value_error
    require (leb reviewed today && leb reviewed expires) value_error
    ok tt

  -- The body of the loop over the entries, up to the check of its evidence.
  unfoldable pub checked_entry : String → Json → Result PolicyError Fields
  checked_entry baseline_expires value = do
    entry ← object_value value
    review_dates entry
    expires ← text (get "expires_on" entry)
    require (not (text_gt expires baseline_expires)) value_error
    rationale ← text (get "rationale" entry)
    owner ← text (get "owner" entry)
    evidence ← text (get "evidence" entry)
    secure ← of_option value_error (tools.is_https_url evidence)
    require secure value_error
    ok entry

  -- The whole body, up to its loop over the platforms.
  unfoldable pub entry_review : String → Json → Result PolicyError EntryReview
  entry_review baseline_expires value = do
    entry ← checked_entry baseline_expires value
    entry_contents entry

  unfoldable pub entry_identities : String → Json → Result PolicyError (List Identity)
  entry_identities baseline_expires value = do
    r ← entry_review baseline_expires value
    traverse (platform_identity (identity_at r)) r.platforms

  unfoldable pub all_entry_identities : String → List Json → Result PolicyError (List Identity)
  all_entry_identities baseline_expires [] = ok []
  all_entry_identities baseline_expires (value ∷ values) = do
    here ← entry_identities baseline_expires value
    rest ← all_entry_identities baseline_expires values
    ok (here ++ rest)

  -- The checks of `reviewed_identities` before its loop: the entries of the image's profile, and
  -- the expiry of the baseline.
  unfoldable pub review_entries : Fields → String → Result PolicyError (List Json × String)
  unfolding is_two
  review_entries baseline image = do
    require (is_two (get "schema_version" baseline)) value_error
    digest ← base_digest (get "base_image" baseline)
    review_dates baseline
    images ← object_value (get "images" baseline)
    profiles ← object_value (get "profiles" baseline)
    profile ← text (get image images)
    entries ← list_value (get profile profiles)
    expires ← text (get "expires_on" baseline)
    ok (entries, expires)

  unfoldable pub reviewed_identities : Fields → String → Result PolicyError (List Identity)
  reviewed_identities baseline image = do
    found ← review_entries baseline image
    all_entry_identities found.1 found.0
