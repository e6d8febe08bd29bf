-- ===== src/Prelude/Sorting.antt =====
-- What Python's `sorted`, `list(dict.fromkeys(xs))` and comprehensions with a test make of a list.
use Prim.Native.Nat.{ℕ, ◌≤◌}
use mathlib.Core.Path.{◌≡◌, refl, subst}
use mathlib.Core.Logic.{inl, inr}
use mathlib.Core.Bool.{Bool, true, false, not, ◌&&◌}
use mathlib.Core.List.{List, [], ◌∷◌, ◌++◌}
use native.Mathlib.Omega.{arith}
use pullbox_direct_providers.Prelude.Tests.{leb, if◌then◌else◌, Eq, ◌==◌, Bool-cases}
use pullbox_direct_providers.Prelude.Lists.{All, contains, length}

module _ {ℓ} {A : Type ℓ} where
  -- [x for x in xs if p(x)]
  unfoldable pub filter : (A → Bool) → List A → List A
  filter p [] = []
  filter p (x ∷ xs) = let rest = filter p xs in if p x then x ∷ rest else rest

  unfoldable pub insert_by : (A → ℕ) → A → List A → List A
  insert_by key x [] = x ∷ []
  insert_by key x (y ∷ ys) =
      let rest = insert_by key x ys in if leb (key x) (key y) then x ∷ y ∷ ys else y ∷ rest

  -- sorted(xs, key=key), which is stable
  unfoldable pub sorted_by : (A → ℕ) → List A → List A
  unfolding insert_by
  sorted_by key [] = []
  sorted_by key (x ∷ xs) = insert_by key x (sorted_by key xs)

  pub filter-append :
      (p : A → Bool) (xs ys : List A) → filter p (xs ++ ys) ≡ filter p xs ++ filter p ys
  unfolding filter
  filter-append p [] ys = refl
  filter-append p (x ∷ xs) ys = ground (arith, filter-append p xs ys)

  pub filter-filter :
      (p q : A → Bool) (xs : List A) → filter p (filter q xs) ≡ filter (λ x. q x && p x) xs
  unfolding filter
  filter-filter p q [] = refl
  filter-filter p q (x ∷ xs) = ground (arith, filter-filter p q xs)

  pub length-filter-le : (p : A → Bool) (xs : List A) → length (filter p xs) ≤ length xs
  unfolding filter
  length-filter-le p [] = omega arith
  length-filter-le p (x ∷ xs) = ground (arith, length-filter-le p xs)

  -- An element with the lowest key goes to the front, and one with the highest behind the lower.
  insert_first : (key : A → ℕ) (x : A) (xs : List A) → key x ≡ 0 → insert_by key x xs ≡ x ∷ xs
  unfolding insert_by
  insert_first key x [] h = refl
  insert_first key x (y ∷ ys) h = ground arith

-- With keys 0 and 1, sorting puts the elements with key 0 before the others, each in their order.
module _ {ℓ} {A : Type ℓ} (high : A → Bool) where
  unfoldable pub rank_of : A → ℕ
  rank_of x = if high x then 1 else 0

  insert_behind :
      (x : A) (low rest : List A)
      → high x ≡ true
      → All (λ y. high y ≡ false) low
      → All (λ y. high y ≡ true) rest
      → insert_by rank_of x (low ++ rest) ≡ low ++ x ∷ rest
  unfolding insert_by rank_of
  insert_behind x [] [] h ls rs = refl
  insert_behind x [] (y ∷ ys) h ls (r, rs) = rw (h, r)
  insert_behind x (y ∷ low) rest h (l, ls) rs = rw (h, l, insert_behind x low rest h ls rs)

  rank_low : (x : A) → high x ≡ false → rank_of x ≡ 0
  unfolding rank_of
  rank_low x h = rw h

  filter-All : (p : A → Bool) (xs : List A) → All (λ y. p y ≡ true) (filter p xs)
  unfolding filter
  filter-All p [] = tt
  filter-All p (x ∷ xs) = elim (Bool-cases (p x)) [
    | inl h ↦ rw h (h, filter-All p xs)
    | inr h ↦ rw h (filter-All p xs)
  ]

  pub filter-not-All : (xs : List A) → All (λ y. high y ≡ false) (filter (λ y. not (high y)) xs)
  unfolding filter
  filter-not-All [] = tt
  filter-not-All (x ∷ xs) = elim (Bool-cases (high x)) [
    | inl h ↦ rw h (filter-not-All xs)
    | inr h ↦ rw h (h, filter-not-All xs)
  ]

  pub sorted_by-partition :
      (xs : List A) → sorted_by rank_of xs ≡ filter (λ y. not (high y)) xs ++ filter high xs
  unfolding sorted_by filter
  sorted_by-partition [] = refl
  sorted_by-partition (x ∷ xs) = elim (Bool-cases (high x)) [
    | inl h ↦
        rw (h, sorted_by-partition xs)
          (insert_behind x (filter (λ y. not (high y)) xs) (filter high xs) h (filter-not-All xs)
            (filter-All high xs))
    | inr h ↦
        rw (h, sorted_by-partition xs)
          (insert_first rank_of x (filter (λ y. not (high y)) xs ++ filter high xs) (rank_low x h))
  ]

-- no element stands twice
abbrev pub AllDistinct {ℓ} : {A : Type ℓ} ⦃e : Eq A⦄ → List A → Type 0
AllDistinct [] = Unit
AllDistinct (x ∷ xs) = (contains x xs ≡ false) × AllDistinct xs

module _ {ℓ κ} {A : Type ℓ} {K : Type κ} ⦃e : Eq K⦄ (key : A → K) where
  abbrev pub other_key : K → A → Bool
  other_key k x = not (k == key x)

  abbrev pub unseen : List K → A → Bool
  unseen seen x = not (contains (key x) seen)

  -- The elements whose key no earlier one has.
  unfoldable pub unique_by : List A → List A
  unfolding filter
  unique_by [] = []
  unique_by (x ∷ xs) = x ∷ filter (other_key (key x)) (unique_by xs)

  -- What a loop that skips the keys seen so far is left with behind an element.
  pub filter-unseen :
      (k : K) (seen : List K) (xs : List A)
      → filter (unseen (k ∷ seen)) xs ≡ filter (unseen seen) (filter (other_key k) xs)
  unfolding filter
  filter-unseen k seen [] = refl
  filter-unseen k seen (x ∷ xs) =
      ground (arith, filter-unseen k seen xs, e.same_iff k (key x), e.same_iff (key x) k)

  -- A key that was seen leaves nothing to skip.
  pub filter-other_seen :
      (k : K) (seen : List K) (xs : List A)
      → contains k seen ≡ true
      → filter (unseen seen) (filter (other_key k) xs) ≡ filter (unseen seen) xs
  unfolding filter
  filter-other_seen k seen [] h = refl
  filter-other_seen k seen (x ∷ xs) h =
      let ih = filter-other_seen k seen xs h in
      elim (Bool-cases (k == key x)) [
        | inl same ↦
            let seen_x : contains (key x) seen ≡ true =
              subst (λ j. contains j seen ≡ true) ((e.same_iff k (key x)).0 same) h in
            rw (same, seen_x, ih)
        | inr other ↦ ground (arith, ih, other)
      ]

-- What holds of all elements holds of those that are kept.
module _ {ℓ κ} {A : Type ℓ} (P : A → Type κ) where
  pub All-filter : (p : A → Bool) (xs : List A) → All P xs → All P (filter p xs)
  unfolding filter
  All-filter p [] h = tt
  All-filter p (x ∷ xs) (h, hs) = elim (Bool-cases (p x)) [
    | inl kept ↦ rw kept (h, All-filter p xs hs)
    | inr dropped ↦ rw dropped (All-filter p xs hs)
  ]

  pub All-unique_by {ι} :
      {K : Type ι} ⦃e : Eq K⦄ (key : A → K) (xs : List A) → All P xs → All P (unique_by key xs)
  unfolding unique_by
  All-unique_by key [] h = tt
  All-unique_by key (x ∷ xs) (h, hs) =
      (h, All-filter (other_key key (key x)) (unique_by key xs) (All-unique_by key xs hs))
