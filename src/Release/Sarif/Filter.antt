-- ===== src/Release/Sarif/Filter.antt =====
-- `filter_sarif` of filter-reviewed-container-sarif.py.
use pullbox_direct_providers.Prelude.{
  ℕ, zero, suc, ◌+◌, Bool, true, false, not, ◌&&◌, ◌||◌, Option, none, some, List, [], ◌∷◌, leb,
  if◌then◌else◌, length, ◌==◌, ℕ_eq, String_eq, String, contains, List_eq,
}
use pullbox_direct_providers.Prelude.Dict.{lookup}
use pullbox_direct_providers.Prelude.Int.{pos}
use pullbox_direct_providers.Prelude.Json.{
  Json, null, int, str, arr, obj, nil, Fields, end, elems, of_elems, props, get, set_field,
}
use pullbox_direct_providers.Prelude.Result.{Result, ok, raised, ◌>>=◌}
use pullbox_direct_providers.Prelude.Text.{text_len}
use pullbox_direct_providers.Release.Policy.{blocking_severities}
use pullbox_direct_providers.Release.Sarif.{
  SarifError, value_error, type_error, attribute_error, key_error, sarif_rule_severities,
}

-- xs[n]
abbrev pub nth {ℓ} : {A : Type ℓ} → ℕ → List A → Option A
nth n [] = none
nth zero (x ∷ xs) = some x
nth (suc n) (x ∷ xs) = nth n xs

-- `value.get(key, default)`, where only a dict has the method
unfoldable pub get_or : Json → String → Json → Result SarifError Json
get_or (obj fs) k default = elim (lookup k (props fs)) [ none ↦ ok default | some v ↦ ok v ]
get_or _ k default = raised attribute_error

-- `rules[index].get("id") != rule_id`
unfoldable pub rule_differs : String → Option Json → Result SarifError Bool
rule_differs rule_id none = ok true
rule_differs rule_id (some (obj rule)) = elim (get "id" rule) [
  | str id ↦ ok (not (id == rule_id))
  | _ ↦ ok true
]
rule_differs rule_id (some _) = raised attribute_error

-- `index >= len(rules) or rules[index].get("id") != rule_id`, for an index that is not negative:
-- a list is indexed, a text has characters without `get`, an object has no integer keys.
unfoldable pub index_differs : String → Json → ℕ → Result SarifError Bool
unfolding rule_differs
index_differs rule_id (arr rules) n = rule_differs rule_id (nth n (elems rules))
index_differs rule_id (str s) n = if leb (text_len s) n then ok true else raised attribute_error
index_differs rule_id (obj fs) n = if leb (length (props fs)) n then ok true else raised key_error
index_differs rule_id _ n = raised type_error

-- The test of the `ruleIndex`, which sets the severity to None if it passes.
unfoldable pub contradicts : String → Json → Json → Result SarifError Bool
unfolding index_differs
contradicts rule_id rules null = ok false
contradicts rule_id rules (int (pos n)) = index_differs rule_id rules n
contradicts rule_id rules _ = ok true

abbrev unless_true : Bool → Option (Option String) → Option String
unless_true true found = none
unless_true false none = none
unless_true false (some severity) = severity

abbrev or_empty : Option (List String) → List String
or_empty none = []
or_empty (some s) = s

-- `isinstance(rule_id, str) and rule_id`
unfoldable pub rule_id_of : Json → Result SarifError String
rule_id_of (str id) = if id == "" then raised value_error else ok id
rule_id_of _ = raised value_error

unfoldable pub object_fields : Json → Result SarifError Fields
object_fields (obj fs) = ok fs
object_fields _ = raised value_error

unfoldable pub list_items : Json → Result SarifError (List Json)
list_items (arr vs) = ok (elems vs)
list_items _ = raised value_error

-- `run.get("results", [])`
unfoldable pub run_results : Fields → Result SarifError (List Json)
unfolding list_items
run_results run = elim (lookup "results" (props run)) [ none ↦ ok [] | some v ↦ list_items v ]

module _ (nonblocking : List String) (reviewed : List (String × List String)) where
  -- `omit_nonblocking or omit_reviewed`
  unfoldable pub is_omitted : String → Option String → Bool
  is_omitted rule_id none = false
  is_omitted rule_id (some severity) =
      (not (contains severity blocking_severities) && contains rule_id nonblocking)
      || contains severity (or_empty (lookup rule_id reviewed))

  -- The body of the loop over the results of a run: whether the result is removed.
  unfoldable pub omits : Fields → List (String × Option String) → Fields → Result SarifError Bool
  omits run severities result = do
    rule_id ← rule_id_of (get "ruleId" result)
    tool ← get_or (obj run) "tool" (obj end)
    driver ← get_or tool "driver" (obj end)
    rules ← get_or driver "rules" (arr nil)
    contradicted ← contradicts rule_id rules (get "ruleIndex" result)
    ok (is_omitted rule_id (unless_true contradicted (lookup rule_id severities)))

  -- The loop over the results: those that stay, and the number of those removed.
  unfoldable pub filter_results :
      Fields → List (String × Option String) → List Json → Result SarifError (List Json × ℕ)
  filter_results run severities [] = ok ([], 0)
  filter_results run severities (value ∷ values) = do
    result ← object_fields value
    omit ← omits run severities result
    rest ← filter_results run severities values
    ok (if omit then (rest.0, rest.1 + 1) else (value ∷ rest.0, rest.1))

  module _ (casefold : String → String) where
    -- The body of the loop over the runs: the run as it is left, and what was removed and remains.
    unfoldable pub filter_run : Json → Result SarifError (Json × ℕ × ℕ)
    unfolding set_field
    filter_run value = do
      run ← object_fields value
      results ← run_results run
      severities ← sarif_rule_severities casefold run
      kept ← filter_results run severities results
      ok (obj (set_field "results" (arr (of_elems kept.0)) run), kept.1, length kept.0)

    unfoldable pub filter_runs : List Json → Result SarifError (List Json × ℕ × ℕ)
    filter_runs [] = ok ([], 0, 0)
    filter_runs (value ∷ values) = do
      here ← filter_run value
      rest ← filter_runs values
      ok (here.0 ∷ rest.0, here.1 + rest.1, here.2 + rest.2)

    -- `filter_sarif`: the document as it is left, the number of removed results, and that of the
    -- remaining.
    unfoldable pub filter_sarif : Fields → Result SarifError (Fields × ℕ × ℕ)
    unfolding set_field
    filter_sarif sarif = do
      runs ← list_items (get "runs" sarif)
      done ← filter_runs runs
      ok (set_field "runs" (arr (of_elems done.0)) sarif, done.1, done.2)
