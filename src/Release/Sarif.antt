-- ===== src/Release/Sarif.antt =====
-- .github/scripts/filter-reviewed-container-sarif.py
pub mod Evidence
pub mod Filter
use Prim.Native.String
use pullbox_direct_providers.Prelude.{
  ℕ, zero, suc, ◌+◌, ◌-◌, ◌≤◌, ◌<◌, ◌≡◌, ◌≢◌, refl, ap, sym, ◌∙◌, subst, ◌⊎◌, inl, inr, ◌↔◌, Bool,
  true, false, not, ◌&&◌, ◌||◌, Option, none, some, List, [], ◌∷◌, ◌++◌, map, arith, ltb, leb,
  nat_beq, if◌then◌else◌, length, Eq, ◌==◌, ℕ_eq, String_eq, All, Exists, Bool-cases, Option-cases,
  length-append, String, eq_iff, eq_refl, any, all, contains, contains_iff, contains-append,
  List_eq,
}
use pullbox_direct_providers.Prelude.Dict.{lookup, put}
use pullbox_direct_providers.Prelude.Int.{ℤ, pos, negsuc}
use pullbox_direct_providers.Prelude.Json.{
  Json, null, bool, int, float, str, arr, obj, Items, Fields, end, elems, of_elems, props, or_null,
  get, set_field,
}
use pullbox_direct_providers.Prelude.Result.{
  Result, ok, raised, ◌>>=◌, ◌>>◌, require, of_option, traverse,
}
use pullbox_direct_providers.Prelude.Text.{has_infix, text_len}
use pullbox_direct_providers.Release.Policy.{
  Finding, rule_id, Identity, blocking_severities, known_severities,
}
use pullbox_direct_providers.Release.Policy.Reports.{accepted}

pub data SarifError : Type 0 where
  value_error type_error attribute_error key_error : SarifError

unfoldable pub is_blocking : Finding → Bool
is_blocking f = contains f.severity blocking_severities

-- `unreviewed_ids` of `_omission_evidence`
unfoldable pub unreviewed_ids : List Identity → List Finding → List String
unfolding is_blocking
unreviewed_ids reviewed [] = []
unreviewed_ids reviewed (f ∷ fs) =
    let rest = unreviewed_ids reviewed fs in
    if is_blocking f && not (accepted f reviewed) then rule_id f ∷ rest else rest

-- `nonblocking_ids`
unfoldable pub nonblocking_ids : List String → List Finding → List String
unfolding is_blocking
nonblocking_ids unreviewed [] = []
nonblocking_ids unreviewed (f ∷ fs) =
    let rest = nonblocking_ids unreviewed fs in
    if not (is_blocking f) && not (contains (rule_id f) unreviewed) then rule_id f ∷ rest else rest

abbrev or_empty : Option (List String) → List String
or_empty none = []
or_empty (some s) = s

-- d.setdefault(k, set()).add(v)
unfoldable pub add_severity :
    String → String → List (String × List String) → List (String × List String)
add_severity k v d = put k (v ∷ or_empty (lookup k d)) d

-- `reviewed_severities`, from the dict that the loop has built so far
unfoldable pub reviewed_severities :
    List Identity
    → List String
    → List Finding
    → List (String × List String)
    → List (String × List String)
unfolding add_severity
reviewed_severities reviewed unreviewed [] d = d
reviewed_severities reviewed unreviewed (f ∷ fs) d = reviewed_severities reviewed unreviewed fs (
    if accepted f reviewed && not (contains (rule_id f) unreviewed)
    then add_severity (rule_id f) f.severity d
    else d)

-- `_omission_evidence`, behind its call of `evaluate`
unfoldable pub omission_evidence :
    List Finding → List Identity → List String × List (String × List String)
omission_evidence actual reviewed =
    let unreviewed = unreviewed_ids reviewed actual in
    (nonblocking_ids unreviewed actual, reviewed_severities reviewed unreviewed actual [])

-- [s for s in KNOWN_SEVERITIES if …], and `matches[0] if len(matches) == 1 else None`
unfoldable pub matching_severities : (String → String) → String → List String → List String
unfolding has_infix
matching_severities casefold normalized [] = []
matching_severities casefold normalized (s ∷ ss) =
    let rest = matching_severities casefold normalized ss in
    if has_infix (String.◌++◌ " " (String.◌++◌ (casefold s) " vulnerability ")) normalized
    then s ∷ rest
    else rest

abbrev only_one : List String → Option String
only_one (s ∷ []) = some s
only_one _ = none

abbrev object_or_end : Json → Fields
object_or_end (obj fs) = fs
object_or_end _ = end

module _ (casefold : String → String) where
  unfoldable pub severity_of_text : Json → Option String
  unfolding matching_severities
  severity_of_text (str text) = only_one (
      matching_severities casefold (String.◌++◌ " " (String.◌++◌ (casefold text) " "))
        known_severities)
  severity_of_text _ = none

  -- `_severity_from_grype_rule`
  unfoldable pub severity_from_grype_rule : Fields → Option String
  severity_from_grype_rule rule =
      severity_of_text (get "text" (object_or_end (get "shortDescription" rule)))

  -- The loop of `_sarif_rule_severities`.
  unfoldable pub rule_severities :
      List Json → List (String × Option String) → Result SarifError (List (String × Option String))
  rule_severities [] d = ok d
  rule_severities (obj rule ∷ rules) d = elim (get "id" rule) [
    | str id ↦ if id == "" then raised value_error else elim (lookup id d) [
      | some seen ↦ rule_severities rules (put id none d)
      | none ↦ rule_severities rules (put id (severity_from_grype_rule rule) d)
    ]
    | _ ↦ raised value_error
  ]
  rule_severities (_ ∷ rules) d = raised value_error

  unfoldable pub severities_of_rules : Json → Result SarifError (List (String × Option String))
  severities_of_rules (arr rules) = rule_severities (elems rules) []
  severities_of_rules _ = ok []

  -- `_sarif_rule_severities`
  unfoldable pub sarif_rule_severities : Fields → Result SarifError (List (String × Option String))
  unfolding severities_of_rules
  sarif_rule_severities run =
      severities_of_rules
        (get "rules" (object_or_end (get "driver" (object_or_end (get "tool" run)))))
