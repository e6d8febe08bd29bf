-- ===== src/Contract/Configuration/Native.antt =====
-- What configuration.py guarantees of a schema that it returns.

use mathlib.Core.List.{append-nil, append_assoc}
use pullbox_direct_providers.Prelude.{
  ◌≤◌, ◌≡◌, refl, ap, sym, ◌∙◌, subst, ◌⊎◌, inl, inr, Bool, true, false, not, ◌&&◌, ◌||◌, Option,
  none, some, List, [], ◌∷◌, ◌++◌, arith, length, ◌==◌, ℕ_eq, String_eq, String, eq_iff, All,
  All-append,
}
use pullbox_direct_providers.Prelude.Json.{Json, null, bool, int, float, str, arr, obj, elems}
use pullbox_direct_providers.Prelude.Result.{
  ok, ◌>>=◌, require, >>=-eq-ok, require-eq-ok, ok-injective,
}
use pullbox_direct_providers.Contract.Net.{Net}
use pullbox_direct_providers.Contract.Configuration.{
  schema_error, is_typed, validate_typed_value, is_choice, is_safe_https_origin,
}
use pullbox_direct_providers.Contract.Configuration.Field.{
  add_choices, choices_of, safe_origin, add_suggestions, listed_suggestions, suggestions_of,
  is_safe_default, checked_default, is_nonempty,
}

module _ (value_type : String) where
  -- Choices: each of the type, none the same as an earlier one.
  abbrev pub IsChoices : List Json → List Json → Type 0
  IsChoices earlier [] = Unit
  IsChoices earlier (value ∷ values) =
      (is_typed value value_type ≡ true)
      × (is_choice value earlier ≡ false)
      × IsChoices (earlier ++ value ∷ []) values

add_choices-IsChoices :
    (value_type : String) (choices values result : List Json)
    → add_choices value_type choices values ≡ ok result
    → (result ≡ choices ++ values) × IsChoices value_type choices values
unfolding add_choices validate_typed_value
add_choices-IsChoices value_type choices [] result h =
    (sym (ok-injective h) ∙ sym (append-nil choices), tt)
add_choices-IsChoices value_type choices (value ∷ values) result h =
    let (typed, h₁) = require-eq-ok _ schema_error _ h in
    let (fresh, h₂) = require-eq-ok _ schema_error _ h₁ in
    let (same, later) = add_choices-IsChoices value_type (choices ++ value ∷ []) values result h₂ in
    (same ∙ append_assoc choices (value ∷ []) values, (typed, ground arith, later))

pub choices_of-IsChoices :
    (raw : Json) (value_type : String) (result : List Json)
    → choices_of raw value_type ≡ ok result
    → (length result ≤ 100) × IsChoices value_type [] result
unfolding choices_of
choices_of-IsChoices null value_type result h =
    subst (λ r. (length r ≤ 100) × IsChoices value_type [] r) (ok-injective h) (omega arith, tt)
choices_of-IsChoices (arr items) value_type result h =
    let (bounded, h₁) = require-eq-ok _ schema_error _ h in
    let (same, choices) = add_choices-IsChoices value_type [] (elems items) result h₁ in
    subst (λ r. (length r ≤ 100) × IsChoices value_type [] r) (sym same) (ground arith, choices)
choices_of-IsChoices (bool b) value_type result h = cc
choices_of-IsChoices (int n) value_type result h = cc
choices_of-IsChoices (float m k) value_type result h = cc
choices_of-IsChoices (str s) value_type result h = cc
choices_of-IsChoices (obj fields) value_type result h = cc

module _ (net : Net) where
  abbrev AllSafe : List String → Type 0
  AllSafe = All (λ s. is_safe_https_origin net s ≡ true)

  pub safe_origin-eq-ok :
      (value : Json) (s : String) → safe_origin net value ≡ ok s → is_safe_https_origin net s ≡ true
  safe_origin-eq-ok (str t) s h =
      let (safe, same) = require-eq-ok _ schema_error _ h in
      subst (λ u. is_safe_https_origin net u ≡ true) (ok-injective same) safe
  safe_origin-eq-ok null s h = cc
  safe_origin-eq-ok (bool b) s h = cc
  safe_origin-eq-ok (int n) s h = cc
  safe_origin-eq-ok (float m k) s h = cc
  safe_origin-eq-ok (arr items) s h = cc
  safe_origin-eq-ok (obj fields) s h = cc

  add_suggestions-AllSafe :
      (suggestions : List String) (values : List Json) (result : List String)
      → add_suggestions net suggestions values ≡ ok result
      → AllSafe suggestions
      → AllSafe result
  unfolding add_suggestions
  add_suggestions-AllSafe suggestions [] result h safe = subst AllSafe (ok-injective h) safe
  add_suggestions-AllSafe suggestions (value ∷ values) result h safe =
      let (s, checked, h₁) = >>=-eq-ok (safe_origin net value) _ h in
      let (fresh, h₂) = require-eq-ok _ schema_error _ h₁ in
      add_suggestions-AllSafe (suggestions ++ s ∷ []) values result h₂ (
        All-append (λ u. is_safe_https_origin net u ≡ true) suggestions (s ∷ []) safe
          (safe_origin-eq-ok value s checked, tt))

  listed_suggestions-AllSafe :
      (raw : Json) (result : List String) → listed_suggestions net raw ≡ ok result → AllSafe result
  unfolding listed_suggestions
  listed_suggestions-AllSafe (arr items) result h =
      let (bounded, h₁) = require-eq-ok _ schema_error _ h in
      add_suggestions-AllSafe [] (elems items) result h₁ tt
  listed_suggestions-AllSafe null result h = cc
  listed_suggestions-AllSafe (bool b) result h = cc
  listed_suggestions-AllSafe (int n) result h = cc
  listed_suggestions-AllSafe (float m k) result h = cc
  listed_suggestions-AllSafe (str s) result h = cc
  listed_suggestions-AllSafe (obj fields) result h = cc

  -- Suggestions stand only on a URI control, and each is a safe origin.
  abbrev pub SuggestionsFit : String × Bool × Bool → List String → Type 0
  SuggestionsFit (value_type, secret, is_uri) [] = Unit
  SuggestionsFit (value_type, secret, is_uri) (s ∷ ss) =
      (value_type ≡ "string") × (secret ≡ false) × (is_uri ≡ true) × AllSafe (s ∷ ss)

  pub suggested-Fit :
      (raw : Json) (value_type : String) (secret is_uri : Bool) (result : List String)
      → (require (value_type == "string" && is_uri && not secret) schema_error >>= λ u.
          listed_suggestions net raw)
        ≡ ok result
      → SuggestionsFit (value_type, secret, is_uri) result
  suggested-Fit raw value_type secret is_uri [] h = tt
  suggested-Fit raw value_type secret is_uri (s ∷ ss) h =
      let (fits, h₁) = require-eq-ok _ schema_error _ h in
      (
        (eq_iff value_type "string").0 (ground arith),
        ground arith,
        ground arith,
        listed_suggestions-AllSafe raw (s ∷ ss) h₁,
      )

  pub suggestions_of-Fit :
      (raw : Json) (control : String × Bool × Bool) (result : List String)
      → suggestions_of net raw control ≡ ok result
      → SuggestionsFit control result
  unfolding suggestions_of
  suggestions_of-Fit null control result h = subst (SuggestionsFit control) (ok-injective h) tt
  suggestions_of-Fit (bool b) (t, secret, is_uri) result h =
      suggested-Fit (bool b) t secret is_uri result h
  suggestions_of-Fit (int n) (t, secret, is_uri) result h =
      suggested-Fit (int n) t secret is_uri result h
  suggestions_of-Fit (float m k) (t, secret, is_uri) result h =
      suggested-Fit (float m k) t secret is_uri result h
  suggestions_of-Fit (str s) (t, secret, is_uri) result h =
      suggested-Fit (str s) t secret is_uri result h
  suggestions_of-Fit (arr items) (t, secret, is_uri) result h =
      suggested-Fit (arr items) t secret is_uri result h
  suggestions_of-Fit (obj fields) (t, secret, is_uri) result h =
      suggested-Fit (obj fields) t secret is_uri result h

  -- A default is of the field's type and among its choices; as a source origin it is a safe one.
  pub record DefaultFits (value_type : String) (choices : List Json) (as_origin : Bool)
      (default : Json) : Type 0 where
    pub typed : is_typed default value_type ≡ true
    pub chosen : (is_nonempty choices ≡ false) ⊎ (is_choice default choices ≡ true)
    pub safe : (as_origin ≡ false) ⊎ (is_safe_default net default ≡ true)

  pub checked_default-Fits :
      (default : Option Json) (value_type : String) (choices : List Json) (as_origin : Bool)
      (result : Json)
      → checked_default net default value_type choices as_origin ≡ ok result
      → (default ≡ none)
        ⊎ ((default ≡ some result) × DefaultFits value_type choices as_origin result)
  unfolding checked_default validate_typed_value
  checked_default-Fits none value_type choices as_origin result h = inl refl
  checked_default-Fits (some v) value_type choices as_origin result h =
      let (typed, h₁) = require-eq-ok (is_typed v value_type) schema_error _ h in
      let (chosen, h₂) =
        require-eq-ok (not (is_nonempty choices) || is_choice v choices) schema_error _ h₁ in
      let (safe, h₃) =
        require-eq-ok (not as_origin || is_safe_default net v) schema_error (ok v) h₂ in
      let fits : DefaultFits value_type choices as_origin v = record {
        typed = typed;
        chosen = ground arith;
        safe = ground arith;
      } in
      inr (
        ap some (ok-injective h₃),
        subst (DefaultFits value_type choices as_origin) (ok-injective h₃) fits,
      )
