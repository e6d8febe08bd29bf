-- ===== src/Prelude/Dict.antt =====
-- Python's insertion-ordered dict, and the operations of `collections.OrderedDict` that the
-- program uses, as an association list with its oldest entry at the head.
use pullbox_direct_providers.Prelude.Tests.{Eq, ◌==◌, if◌then◌else◌, Option-cases}
use pullbox_direct_providers.Prelude.Lists.{length, length-append}
use Prim.Native.Nat.{◌+◌, ◌≤◌}
use mathlib.Core.Path.{◌≡◌, refl}
use mathlib.Core.Logic.{inl, inr}
use mathlib.Core.Option.{Option, none, some}
use mathlib.Core.List.{List, [], ◌∷◌, ◌++◌}
use native.Mathlib.Omega.{arith}

module _ {ℓ κ} {K : Type ℓ} {V : Type κ} ⦃e : Eq K⦄ where
  -- d.get(k)
  unfoldable pub lookup : K → List (K × V) → Option V
  lookup k [] = none
  lookup k ((j, v) ∷ d) = if j == k then some v else lookup k d

  -- del d[k]
  unfoldable pub remove : K → List (K × V) → List (K × V)
  remove k [] = []
  remove k ((j, v) ∷ d) = if j == k then d else (j, v) ∷ remove k d

  -- d[k] = v: in place if the key is there, behind all others if not
  unfoldable pub put : K → V → List (K × V) → List (K × V)
  put k v [] = (k, v) ∷ []
  put k v ((j, w) ∷ d) = if j == k then (j, v) ∷ d else (j, w) ∷ put k v d

  -- d.move_to_end(k), which leaves a missing key out
  unfoldable pub move_to_end : K → List (K × V) → List (K × V)
  move_to_end k d = elim (lookup k d) [ none ↦ d | some v ↦ remove k d ++ (k, v) ∷ [] ]

  -- the keys are distinct
  abbrev pub Distinct : List (K × V) → Type κ
  Distinct [] = Unit
  Distinct ((j, w) ∷ d) = (lookup j d ≡ none) × Distinct d

  pub lookup-put :
      (k j : K) (v : V) (d : List (K × V))
      → lookup j (put k v d) ≡ (if k == j then some v else lookup j d)
  unfolding lookup put
  lookup-put k j v [] = refl
  lookup-put k j v ((i, w) ∷ d) =
      ground (arith, e.same_iff k j, e.same_iff i k, e.same_iff i j, lookup-put k j v d)

  pub lookup-append :
      (k : K) (d : List (K × V)) (v : V)
      → lookup k d ≡ none
      → (j : K) → lookup j (d ++ (k, v) ∷ []) ≡ (if k == j then some v else lookup j d)
  unfolding lookup
  lookup-append k [] v h j = refl
  lookup-append k ((i, w) ∷ d) v h j =
      ground (
        arith,
        e.same_iff k j,
        e.same_iff i k,
        e.same_iff i j,
        lookup-append k d v (ground arith) j,
      )

  pub lookup-remove :
      (k j : K) (d : List (K × V))
      → Distinct d
      → lookup j (remove k d) ≡ (if k == j then none else lookup j d)
  unfolding lookup remove
  lookup-remove k j [] h = ground arith
  lookup-remove k j ((i, w) ∷ d) (fresh, h) =
      ground (arith, e.same_iff k j, e.same_iff i k, e.same_iff i j, lookup-remove k j d h)

  pub remove-Distinct : (k : K) (d : List (K × V)) → Distinct d → Distinct (remove k d)
  unfolding remove
  remove-Distinct k [] h = tt
  remove-Distinct k ((i, w) ∷ d) (fresh, h) =
      ground (arith, remove-Distinct k d h, lookup-remove k i d h)

  pub append-Distinct :
      (k : K) (v : V) (d : List (K × V))
      → lookup k d ≡ none
      → Distinct d
      → Distinct (d ++ (k, v) ∷ [])
  unfolding lookup
  append-Distinct k v [] n h = (refl, tt)
  append-Distinct k v ((i, w) ∷ d) n (fresh, h) = (
    rw (lookup-append k d v (ground arith) i) (ground (arith, e.same_iff i k, e.same_iff k i)),
    append-Distinct k v d (ground arith) h,
  )

  pub put-Distinct : (k : K) (v : V) (d : List (K × V)) → Distinct d → Distinct (put k v d)
  unfolding put
  put-Distinct k v [] h = (unfold lookup in refl, tt)
  put-Distinct k v ((i, w) ∷ d) (fresh, h) =
      ground (arith, put-Distinct k v d h, lookup-put k i v d, e.same_iff i k, e.same_iff k i)

  pub remove_of_none : (k : K) (d : List (K × V)) → lookup k d ≡ none → remove k d ≡ d
  unfolding lookup remove
  remove_of_none k [] h = refl
  remove_of_none k ((i, w) ∷ d) h = ground (arith, remove_of_none k d (ground arith))

  pub put_of_none :
      (k : K) (v : V) (d : List (K × V)) → lookup k d ≡ none → put k v d ≡ d ++ (k, v) ∷ []
  unfolding lookup put
  put_of_none k v [] h = refl
  put_of_none k v ((i, w) ∷ d) h = ground (arith, put_of_none k v d (ground arith))

  pub length-remove :
      (k : K) (d : List (K × V)) (v : V) → lookup k d ≡ some v → length (remove k d) + 1 ≡ length d
  unfolding lookup remove
  length-remove k [] v h = cc
  length-remove k ((i, w) ∷ d) v h = ground (arith, length-remove k d v)

  pub length-remove-le : (k : K) (d : List (K × V)) → length (remove k d) ≤ length d
  unfolding remove
  length-remove-le k [] = omega arith
  length-remove-le k ((i, w) ∷ d) = ground (arith, length-remove-le k d)

  remove-put : (k : K) (v : V) (d : List (K × V)) → remove k (put k v d) ≡ remove k d
  unfolding remove put
  remove-put k v [] = ground (arith, e.same_iff k k)
  remove-put k v ((i, w) ∷ d) = ground (arith, remove-put k v d, e.same_iff i k)

  -- d[k] = v; d.move_to_end(k)
  pub move_to_end-put :
      (k : K) (v : V) (d : List (K × V)) → move_to_end k (put k v d) ≡ remove k d ++ (k, v) ∷ []
  unfolding move_to_end
  move_to_end-put k v d =
      let found : lookup k (put k v d) ≡ some v =
        rw (lookup-put k k v d) (ground (arith, e.same_iff k k)) in
      rw (found, move_to_end) (rw (remove-put k v d))

  pub lookup-remove_self : (k : K) (d : List (K × V)) → Distinct d → lookup k (remove k d) ≡ none
  lookup-remove_self k d h = rw (lookup-remove k k d h) (ground (arith, e.same_iff k k))

  pub move_to_end-Distinct : (k : K) (d : List (K × V)) → Distinct d → Distinct (move_to_end k d)
  unfolding move_to_end
  move_to_end-Distinct k d h = elim (Option-cases (lookup k d)) [
    | inl p ↦ rw (p, move_to_end) h
    | inr (v, p) ↦
        rw (p, move_to_end)
          (append-Distinct k v (remove k d) (lookup-remove_self k d h) (remove-Distinct k d h))
  ]

  pub length-move_to_end : (k : K) (d : List (K × V)) → length (move_to_end k d) ≡ length d
  unfolding move_to_end
  length-move_to_end k d = elim (Option-cases (lookup k d)) [
    | inl p ↦ rw (p, move_to_end) refl
    | inr (v, p) ↦
        rw (p, move_to_end)
          (omega (arith, length-append (remove k d) ((k, v) ∷ []), length-remove k d v p))
  ]

  pub lookup-move_to_end :
      (k j : K) (d : List (K × V)) → Distinct d → lookup j (move_to_end k d) ≡ lookup j d
  unfolding move_to_end
  lookup-move_to_end k j d h = elim (Option-cases (lookup k d)) [
    | inl p ↦ rw (p, move_to_end) refl
    | inr (v, p) ↦
        rw (p, move_to_end)
          (rw (lookup-append k (remove k d) v (lookup-remove_self k d h) j)
            (ground (arith, lookup-remove k j d h, e.same_iff k j, p)))
  ]

  pub lookup-put_self : (k : K) (v : V) (d : List (K × V)) → lookup k (put k v d) ≡ some v
  lookup-put_self k v d = rw (lookup-put k k v d) (ground (arith, e.same_iff k k))

  -- d.update(entries)
  unfoldable pub put_all : List (K × V) → List (K × V) → List (K × V)
  put_all [] d = d
  put_all ((k, v) ∷ entries) d = put_all entries (put k v d)
