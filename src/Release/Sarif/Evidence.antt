-- ===== src/Release/Sarif/Evidence.antt =====
-- What filter-reviewed-container-sarif.py may remove.
use pullbox_direct_providers.Prelude.{
  ℕ, ◌+◌, ◌≡◌, refl, subst, inl, inr, Bool, true, false, Option, none, some, List, [], ◌∷◌, arith,
  if◌then◌else◌, length, ℕ_eq, String_eq, Exists, String, eq_iff, contains, List_eq,
}
use pullbox_direct_providers.Prelude.Dict.{lookup, lookup-put}
use pullbox_direct_providers.Prelude.Json.{Json, arr, obj, Items, Fields, elems, get}
use pullbox_direct_providers.Prelude.Result.{Result, ok, raised, ◌>>=◌, >>=-eq-ok}
use pullbox_direct_providers.Release.Policy.{Finding, rule_id, Identity}
use pullbox_direct_providers.Release.Policy.Reports.{accepted}
use pullbox_direct_providers.Release.Sarif.{
  SarifError, is_blocking, unreviewed_ids, nonblocking_ids, or_empty, reviewed_severities,
  omission_evidence, sarif_rule_severities,
}
use pullbox_direct_providers.Release.Sarif.Filter.{
  is_omitted, omits, filter_results, filter_run, filter_runs, filter_sarif, rule_id_of, run_results,
  object_fields, list_items,
}

module _ (reviewed : List Identity) where
  -- The finding blocks, and no review accepts it.
  abbrev pub IsUnreviewed : String → Finding → Type 0
  IsUnreviewed id f = (is_blocking f ≡ true) × (accepted f reviewed ≡ false) × (rule_id f ≡ id)

  unreviewed_ids-contains :
      (id : String) (fs : List Finding)
      → Exists (IsUnreviewed id) fs
      → contains id (unreviewed_ids reviewed fs) ≡ true
  unfolding unreviewed_ids
  unreviewed_ids-contains id [] h = absurd h
  unreviewed_ids-contains id (f ∷ fs) (inl (b, a, same)) = ground (arith, eq_iff id (rule_id f))
  unreviewed_ids-contains id (f ∷ fs) (inr h) = ground (arith, unreviewed_ids-contains id fs h)

  nonblocking_ids-lacks :
      (id : String) (unreviewed : List String) (fs : List Finding)
      → contains id unreviewed ≡ true
      → contains id (nonblocking_ids unreviewed fs) ≡ false
  unfolding nonblocking_ids
  nonblocking_ids-lacks id unreviewed [] h = refl
  nonblocking_ids-lacks id unreviewed (f ∷ fs) h =
      ground (arith, nonblocking_ids-lacks id unreviewed fs h, eq_iff id (rule_id f))

  reviewed_severities-lacks :
      (id : String) (unreviewed : List String) (fs : List Finding) (d : List (String × List String))
      → contains id unreviewed ≡ true
      → lookup id d ≡ none
      → lookup id (reviewed_severities reviewed unreviewed fs d) ≡ none
  unfolding reviewed_severities
  reviewed_severities-lacks id unreviewed [] d h n = n
  reviewed_severities-lacks id unreviewed (f ∷ fs) d h n =
      reviewed_severities-lacks id unreviewed fs _ h (
        ground (
          arith,
          lookup-put (rule_id f) id (f.severity ∷ or_empty (lookup (rule_id f) d)) d,
          eq_iff (rule_id f) id,
          eq_iff id (rule_id f),
        ))

  -- No result of a rule is removed while a blocking finding of that rule is unreviewed, whatever
  -- severity the SARIF document gives the rule.
  pub is_omitted-unreviewed :
      (actual : List Finding) (id : String) (severity : Option String)
      → Exists (IsUnreviewed id) actual
      → (let evidence = omission_evidence actual reviewed in
          is_omitted evidence.0 evidence.1 id severity ≡ false)
  unfolding omission_evidence is_omitted lookup
  is_omitted-unreviewed actual id none h = refl
  is_omitted-unreviewed actual id (some severity) h = ground (
    arith,
    nonblocking_ids-lacks id (unreviewed_ids reviewed actual) actual
        (unreviewed_ids-contains id actual h),
    reviewed_severities-lacks id (unreviewed_ids reviewed actual) actual []
        (unreviewed_ids-contains id actual h) refl,
  )

-- The results that the runs hold; a value that is no run holds none.
abbrev pub count_of : Result SarifError (List Json) → ℕ
count_of (ok results) = length results
count_of (raised e) = 0

abbrev pub count_results : List Json → ℕ
count_results [] = 0
count_results (v ∷ vs) = count_of (do run ← object_fields v; run_results run) + count_results vs

module _ (nonblocking : List String) (reviewed : List (String × List String)) where
  length-filter_results :
      (run : Fields) (severities : List (String × Option String)) (values kept : List Json) (n : ℕ)
      → filter_results nonblocking reviewed run severities values ≡ ok (kept, n)
      → length kept + n ≡ length values
  unfolding filter_results
  length-filter_results run severities [] kept n h = ground arith
  length-filter_results run severities (v ∷ values) kept n h =
      let (result, shaped, h₁) = >>=-eq-ok (object_fields v) _ h in
      let (omit, decided, h₂) = >>=-eq-ok (omits nonblocking reviewed run severities result) _ h₁ in
      let ((more, m), later, h₃) =
        >>=-eq-ok (filter_results nonblocking reviewed run severities values) _ h₂ in
      ground (arith, length-filter_results run severities values more m later)

  count-filter_run :
      (casefold : String → String) (value left : Json) (n m : ℕ)
      → filter_run nonblocking reviewed casefold value ≡ ok (left, n, m)
      → n + m ≡ count_of (do run ← object_fields value; run_results run)
  unfolding filter_run
  count-filter_run casefold value left n m h =
      let (run, shaped, h₁) = >>=-eq-ok (object_fields value) _ h in
      let (found, listed, h₂) = >>=-eq-ok (run_results run) _ h₁ in
      let (severities, read, h₃) = >>=-eq-ok (sarif_rule_severities casefold run) _ h₂ in
      let ((kept, gone), filtered, h₄) =
        >>=-eq-ok (filter_results nonblocking reviewed run severities found) _ h₃ in
      ground (arith, length-filter_results run severities found kept gone filtered)

  count-filter_runs :
      (casefold : String → String) (values left : List Json) (n m : ℕ)
      → filter_runs nonblocking reviewed casefold values ≡ ok (left, n, m)
      → n + m ≡ count_results values
  unfolding filter_runs
  count-filter_runs casefold [] left n m h = ground arith
  count-filter_runs casefold (v ∷ values) left n m h =
      let ((run', a, b), here, h₁) = >>=-eq-ok (filter_run nonblocking reviewed casefold v) _ h in
      let ((rest, c, d), later, h₂) =
        >>=-eq-ok (filter_runs nonblocking reviewed casefold values) _ h₁ in
      ground (
        arith,
        count-filter_runs casefold values rest c d later,
        count-filter_run casefold v run' a b here,
      )

  -- Every result of the document is either removed or remains, and is counted once.
  pub filter_sarif-count :
      (casefold : String → String) (sarif left : Fields) (runs : Items) (removed remaining : ℕ)
      → get "runs" sarif ≡ arr runs
      → filter_sarif nonblocking reviewed casefold sarif ≡ ok (left, removed, remaining)
      → removed + remaining ≡ count_results (elems runs)
  unfolding filter_sarif list_items
  filter_sarif-count casefold sarif left runs removed remaining listed h =
      let ((after, a, b), filtered, h₁) =
        >>=-eq-ok (filter_runs nonblocking reviewed casefold (elems runs)) _ (rw listed at h) in
      ground (arith, count-filter_runs casefold (elems runs) after a b filtered)

kept_if_spared :
    (v : Json) (more kept : List Json) (omit : Bool) (m n : ℕ)
    → Path
        (Result SarifError (List Json × ℕ))
        (ok (if omit then (more, m + 1) else (v ∷ more, m)))
        (ok (kept, n))
    → omit ≡ false
    → v ∷ more ≡ kept
kept_if_spared v more kept omit m n h e = ground arith

kept_if_more :
    (v : Json) (more kept : List Json) (omit : Bool) (m n : ℕ) (result : Fields)
    → Path
        (Result SarifError (List Json × ℕ))
        (ok (if omit then (more, m + 1) else (v ∷ more, m)))
        (ok (kept, n))
    → Exists (λ w. w ≡ obj result) more
    → Exists (λ w. w ≡ obj result) kept
kept_if_more v more kept true m n result h at =
    subst (Exists (λ w. w ≡ obj result)) (let p : more ≡ kept = cc in p) at
kept_if_more v more kept false m n result h at =
    subst (Exists (λ w. w ≡ obj result)) (let p : v ∷ more ≡ kept = cc in p) (inr at)

module _ (reviewed : List Identity) (actual : List Finding) where
  abbrev evidence : List String × List (String × List String)
  evidence = omission_evidence actual reviewed

  omits-unreviewed :
      (run : Fields) (severities : List (String × Option String)) (result : Fields) (id : String)
      (omit : Bool)
      → rule_id_of (get "ruleId" result) ≡ ok id
      → Exists (IsUnreviewed reviewed id) actual
      → omits evidence.0 evidence.1 run severities result ≡ ok omit
      → omit ≡ false
  unfolding omits
  omits-unreviewed run severities result id omit named h decided =
      grind (arith, is_omitted-unreviewed reviewed actual id _ h)

  -- A result of a rule with an unreviewed blocking finding stays in its run.
  pub filter_results-keeps :
      (run : Fields) (severities : List (String × Option String)) (values kept : List Json) (n : ℕ)
      (result : Fields) (id : String)
      → filter_results evidence.0 evidence.1 run severities values ≡ ok (kept, n)
      → rule_id_of (get "ruleId" result) ≡ ok id
      → Exists (IsUnreviewed reviewed id) actual
      → Exists (λ v. v ≡ obj result) values
      → Exists (λ v. v ≡ obj result) kept
  unfolding filter_results
  filter_results-keeps run severities [] kept n result id h named u at = absurd at
  filter_results-keeps run severities (v ∷ values) kept n result id h named u at =
      let (res, shaped, h₁) = >>=-eq-ok (object_fields v) _ h in
      let (omit, decided, h₂) = >>=-eq-ok (omits evidence.0 evidence.1 run severities res) _ h₁ in
      let ((more, m), later, h₃) =
        >>=-eq-ok (filter_results evidence.0 evidence.1 run severities values) _ h₂ in
      elim at [
        | inl here ↦
            let same : res ≡ result = unfold object_fields in ground arith in
            let spared : omit ≡ false =
              omits-unreviewed run severities res id omit (rw same named) u decided in
            subst (Exists (λ w. w ≡ obj result)) (kept_if_spared v more kept omit m n h₃ spared)
              (inl here)
        | inr there ↦
            kept_if_more v more kept omit m n result h₃
              (filter_results-keeps run severities values more m result id later named u there)
      ]
