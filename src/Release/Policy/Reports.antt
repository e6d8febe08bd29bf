-- ===== src/Release/Policy/Reports.antt =====
-- `report_findings`, `accepted` and `evaluate` of container_vulnerability_policy.py.
use pullbox_direct_providers.Prelude.{
  ℕ, Bool, false, ◌&&◌, ◌||◌, Option, none, some, List, [], ◌∷◌, nat_beq, if◌then◌else◌, length,
  ◌==◌, ℕ_eq, String_eq, String, contains, List_eq,
}
use Prim.Native.String
use pullbox_direct_providers.Prelude.Json.{Json, str, Fields, get}
use pullbox_direct_providers.Prelude.Result.{
  Result, ok, raised, ◌>>=◌, ◌>>◌, require, of_option, traverse,
}
use pullbox_direct_providers.Prelude.Split.{split, second}
use pullbox_direct_providers.Release.Policy.{
  PolicyError, value_error, Toolkit, known_severities, supported_platforms, no_fix_states,
  object_value, text, list_value, base_digest, Finding, Identity, identity, reviewed_identities,
}

-- `f"{os}/{architecture}"` if it is a supported platform; a value that is no text renders as no
-- part of one.
unfoldable pub platform_of : Fields → Option String
platform_of fs = elim (get "os" fs) [
  | str os ↦ elim (get "architecture" fs) [
    | str architecture ↦
        let platform : String = String.◌++◌ os (String.◌++◌ "/" architecture) in
        if contains platform supported_platforms then some platform else none
    | _ ↦ none
  ]
  | _ ↦ none
]

-- A non-empty text of a list of fix versions.
unfoldable pub fix_version : Json → Result PolicyError String
fix_version (str s) = if s == "" then raised value_error else ok s
fix_version _ = raised value_error

unfoldable pub string_value : Json → Result PolicyError String
string_value (str s) = ok s
string_value _ = raised value_error

-- `arches[0] if len(arches) == 1 else None`
unfoldable pub only_arch : List String → Option String
only_arch (a ∷ []) = some a
only_arch _ = none

-- config.get("os")/config.get("architecture") == platform
unfoldable pub is_platform : Option String → String → Bool
is_platform none platform = false
is_platform (some p) platform = p == platform

module _ (tools : Toolkit) where
  -- The body of the loop over the matches.
  unfoldable pub match_finding : String → Json → Result PolicyError Finding
  match_finding platform value = do
    match ← object_value value
    vulnerability ← object_value (get "vulnerability" match)
    artifact ← object_value (get "artifact" match)
    severity ← text (get "severity" vulnerability)
    require (contains severity known_severities) value_error
    fix ← object_value (get "fix" vulnerability)
    versions ← list_value (get "versions" fix)
    fix_versions ← traverse fix_version versions
    state ← string_value (get "state" fix)
    purl ← text (get "purl" artifact)
    arches ← of_option value_error (tools.arches purl)
    identifier ← text (get "id" vulnerability)
    package_name ← text (get "name" artifact)
    version ← text (get "version" artifact)
    package_type ← text (get "type" artifact)
    namespace ← text (get "namespace" vulnerability)
    ok (record {
      identifier = identifier;
      package_name = package_name;
      severity = severity;
      version = version;
      package_type = package_type;
      namespace = namespace;
      platform = platform;
      package_arch = only_arch arches;
      fix_state = state;
      fix_versions = fix_versions;
    })

  -- The checks of `report_findings` before its loop: the platform and the matches.
  unfoldable pub report_matches : Fields → Fields → Result PolicyError (String × List Json)
  report_matches report baseline = do
    source ← object_value (get "source" report)
    kind ← string_value (get "type" source)
    require (kind == "image") value_error
    target ← object_value (get "target" source)
    platform ← of_option value_error (platform_of target)
    encoded ← text (get "config" target)
    decoded ← of_option value_error (tools.decode_config encoded)
    config ← object_value decoded
    require (is_platform (platform_of config) platform) value_error
    inner ← object_value (get "config" config)
    labels ← object_value (get "Labels" inner)
    image_base ← base_digest (get "org.opencontainers.image.base.name" labels)
    reviewed_base ← base_digest (get "base_image" baseline)
    require (image_base == reviewed_base) value_error
    matches ← list_value (get "matches" report)
    ok (platform, matches)

  unfoldable pub report_findings : Fields → Fields → Result PolicyError (List Finding)
  report_findings report baseline = do
    found ← report_matches report baseline
    traverse (match_finding found.0) found.1

  unfoldable pub evaluate :
      ℕ → Fields → Fields → String → Result PolicyError (List Finding × List Identity)
  evaluate today report baseline image = do
    reviewed ← reviewed_identities tools today baseline image
    findings ← report_findings report baseline
    ok (findings, reviewed)

-- finding.platform.split("/")[1]; the platform of a finding has passed `platform_of`
unfoldable pub platform_arch : String → String
unfolding split second
platform_arch platform = second (split b'/' platform)

unfoldable pub arch_fits : Option String → String → Bool
unfolding platform_arch
arch_fits none platform = false
arch_fits (some arch) platform = arch == "all" || arch == platform_arch platform

unfoldable pub accepted : Finding → List Identity → Bool
unfolding arch_fits identity
accepted f reviewed =
    contains (identity f) reviewed
    && contains f.fix_state no_fix_states
    && nat_beq (length f.fix_versions) 0
    && f.package_type == "deb"
    && arch_fits f.package_arch f.platform
