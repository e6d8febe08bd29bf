-- ===== src/Prelude/Distinct.antt =====
-- Lists whose elements have distinct keys, and what keeps them so.
use Prim.Native.Nat.{ℕ, zero, suc}
use mathlib.Core.Path.{◌≡◌, refl, sym, subst, ◌∙◌}
use mathlib.Core.Logic.{inl, inr}
use mathlib.Core.Bool.{Bool, true, false, not, ◌||◌}
use mathlib.Core.List.{List, [], ◌∷◌, ◌++◌}
use native.Mathlib.Omega.{arith}
use pullbox_direct_providers.Prelude.Tests.{Eq, ◌==◌, Bool-cases}
use pullbox_direct_providers.Prelude.Lists.{take}
use pullbox_direct_providers.Prelude.Sorting.{filter}

module _ {ℓ κ} {A : Type ℓ} {K : Type κ} ⦃e : Eq K⦄ (key : A → K) where
  -- some element has this key
  abbrev pub has_key : K → List A → Bool
  has_key k [] = false
  has_key k (x ∷ xs) = k == key x || has_key k xs

  -- no two elements have one key
  abbrev pub DistinctBy : List A → Type 0
  DistinctBy [] = Unit
  DistinctBy (x ∷ xs) = (has_key (key x) xs ≡ false) × DistinctBy xs

  -- no element of the one list has a key of the other
  abbrev pub Disjoint : List A → List A → Type κ
  Disjoint xs ys = (k : K) → has_key k xs ≡ true → has_key k ys ≡ false

  pub has_key-append :
      (k : K) (xs ys : List A) → has_key k (xs ++ ys) ≡ (has_key k xs || has_key k ys)
  has_key-append k [] ys = refl
  has_key-append k (x ∷ xs) ys = ground (arith, has_key-append k xs ys)

  pub has_key-filter :
      (p : A → Bool) (k : K) (xs : List A) → has_key k (filter p xs) ≡ true → has_key k xs ≡ true
  unfolding filter
  has_key-filter p k [] h = h
  has_key-filter p k (x ∷ xs) h =
      let ih = has_key-filter p k xs in
      elim (Bool-cases (p x)) [
        | inl yes_kept ↦ let kept = rw yes_kept at h in ground (arith, ih)
        | inr dropped ↦ let rest = ih (rw dropped at h) in ground (arith, rest)
      ]

  pub has_key-take :
      (n : ℕ) (k : K) (xs : List A) → has_key k (take n xs) ≡ true → has_key k xs ≡ true
  has_key-take zero k xs h = cc
  has_key-take (suc n) k [] h = h
  has_key-take (suc n) k (x ∷ xs) h = ground (arith, has_key-take n k xs)

  has_key_behind :
      (k : K) (x : A) (xs : List A)
      → k == key x ≡ false
      → has_key k (x ∷ xs) ≡ true
      → has_key k xs ≡ true
  has_key_behind k x xs other there = ground arith

  skips :
      (k : K) (x : A) (xs : List A)
      → k == key x ≡ false
      → has_key k xs ≡ false
      → has_key k (x ∷ xs) ≡ false
  skips k x xs other none_there = ground arith

  -- What has no key in a list has none in a part of it.
  absent :
      (k : K) (ys zs : List A)
      → (has_key k ys ≡ true → has_key k zs ≡ true)
      → has_key k zs ≡ false
      → has_key k ys ≡ false
  absent k ys zs part none_there = elim (Bool-cases (has_key k ys)) [
    | inl there ↦ let found = part there in cc
    | inr h ↦ h
  ]

  pub take-DistinctBy : (n : ℕ) (xs : List A) → DistinctBy xs → DistinctBy (take n xs)
  take-DistinctBy zero xs h = tt
  take-DistinctBy (suc n) [] h = tt
  take-DistinctBy (suc n) (x ∷ xs) (h, hs) =
      (absent (key x) (take n xs) xs (has_key-take n (key x) xs) h, take-DistinctBy n xs hs)

  pub filter-DistinctBy : (p : A → Bool) (xs : List A) → DistinctBy xs → DistinctBy (filter p xs)
  unfolding filter
  filter-DistinctBy p [] h = tt
  filter-DistinctBy p (x ∷ xs) (h, hs) = elim (Bool-cases (p x)) [
    | inl kept ↦
        rw kept (
          absent (key x) (filter p xs) xs (has_key-filter p (key x) xs) h,
          filter-DistinctBy p xs hs,
        )
    | inr dropped ↦ rw dropped (filter-DistinctBy p xs hs)
  ]

  pub append-DistinctBy :
      (xs ys : List A) → DistinctBy xs → DistinctBy ys → Disjoint xs ys → DistinctBy (xs ++ ys)
  append-DistinctBy [] ys h k d = k
  append-DistinctBy (x ∷ xs) ys (h, hs) k d =
      let apart = d (key x) (ground (arith, e.same_iff (key x) (key x))) in
      (
        has_key-append (key x) xs ys ∙ ground arith,
        append-DistinctBy xs ys hs k (λ j there. d j (ground arith)),
      )

  -- The two parts of a list by a test have no key in common.
  pub filter-Disjoint :
      (p : A → Bool) (xs : List A)
      → DistinctBy xs
      → Disjoint (filter p xs) (filter (λ x. not (p x)) xs)
  unfolding filter
  filter-Disjoint p [] h k there = refl
  filter-Disjoint p (x ∷ xs) (h, hs) k there = elim (Bool-cases (p x)) [
    | inl kept ↦ elim (Bool-cases (k == key x)) [
      | inl same ↦
          let equal : key x ≡ k = sym ((e.same_iff k (key x)).0 same) in
          rw kept (
            absent k (filter (λ x. not (p x)) xs) xs (has_key-filter (λ x. not (p x)) k xs)
              (subst (λ j. has_key j xs ≡ false) equal h))
      | inr other ↦
          rw kept
            (filter-Disjoint p xs hs k (has_key_behind k x (filter p xs) other (rw kept at there)))
    ]
    | inr dropped ↦
        let later = rw dropped at there in
        elim (Bool-cases (k == key x)) [
          | inl same ↦
              let equal : k ≡ key x = (e.same_iff k (key x)).0 same in
              let found = has_key-filter p k xs later in
              let known = subst (λ j. has_key j xs ≡ true) equal found in cc
          | inr other ↦
              rw dropped
                (skips k x (filter (λ x. not (p x)) xs) other (filter-Disjoint p xs hs k later))
        ]
  ]
