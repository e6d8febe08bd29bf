-- ===== src/LibGen/Cache/Bounds.antt =====
-- The invariant of the cache of LibGen/Cache and what keeps it.
use pullbox_direct_providers.Prelude.{
  ℕ, ◌≤◌, ◌≡◌, refl, Option, some, List, [], ◌∷◌, arith, ltb, if◌then◌else◌, length, Eq,
}
use pullbox_direct_providers.Prelude.Dict.{
  Distinct, remove-Distinct, length-remove-le, move_to_end-Distinct, length-move_to_end,
  put-Distinct,
}
use pullbox_direct_providers.LibGen.Cache.{BoundedTtlCache, new, evict, get, set}

module _ {A : Type 0} where
  pub evict_of_length-le : (n : ℕ) (xs : List A) → length xs ≤ n → evict n xs ≡ xs
  unfolding evict
  evict_of_length-le n [] h = refl
  evict_of_length-le n (x ∷ xs) h = ground arith

  -- One entry over the bound costs the oldest entry.
  pub evict_one_over :
      (n : ℕ) (x : A) (xs : List A)
      → length xs ≤ n
      → evict n (x ∷ xs) ≡ (if ltb n (length (x ∷ xs)) then xs else x ∷ xs)
  unfolding evict
  evict_one_over n x xs h = ground (arith, evict_of_length-le n xs h)

  pub length-evict-le : (n : ℕ) (xs : List A) → length (evict n xs) ≤ n
  unfolding evict
  length-evict-le n [] = omega arith
  length-evict-le n (x ∷ xs) = ground (arith, length-evict-le n xs)

module _ {K V : Type 0} ⦃e : Eq K⦄ where
  pub evict-Distinct : (n : ℕ) (d : List (K × V)) → Distinct d → Distinct (evict n d)
  unfolding evict
  evict-Distinct n [] h = tt
  evict-Distinct n ((k, v) ∷ d) (fresh, h) = ground (arith, evict-Distinct n d h)

module _ {K V : Type 0} ⦃e : Eq K⦄ where
  -- Distinct keys, no more entries than allowed, and bounds that the constructor accepts.
  pub record IsValid (c : BoundedTtlCache K V) : Type 0 where
    pub room : 1 ≤ c.max_entries
    pub lives : 1 ≤ c.ttl_seconds
    pub negative_lives : 1 ≤ c.negative_ttl_seconds
    pub distinct : Distinct c.entries
    pub bounded : length c.entries ≤ c.max_entries

  pub new-IsValid : (m t n : ℕ) (c : BoundedTtlCache K V) → new m t n ≡ some c → IsValid c
  unfolding new
  new-IsValid m t n c h = record {
    room = ground arith;
    lives = ground arith;
    negative_lives = ground arith;
    distinct = ground arith;
    bounded = ground arith;
  }

  pub get-IsValid :
      (c : BoundedTtlCache K V) (now : ℕ) (k : K) → IsValid c → IsValid (get c now k).0
  unfolding get
  get-IsValid c now k h = record {
    room = ground arith;
    lives = ground arith;
    negative_lives = ground arith;
    distinct = ground (
      arith,
      remove-Distinct k c.entries h.distinct,
      move_to_end-Distinct k c.entries h.distinct,
    );
    bounded = ground (arith, length-remove-le k c.entries, length-move_to_end k c.entries);
  }

  pub set-IsValid :
      (c : BoundedTtlCache K V) (now : ℕ) (k : K) (v : Option V)
      → IsValid c
      → IsValid (set c now k v)
  unfolding set
  set-IsValid c now k v h = record {
    room = h.room;
    lives = h.lives;
    negative_lives = h.negative_lives;
    distinct =
        evict-Distinct c.max_entries _
          (move_to_end-Distinct k _ (put-Distinct k _ c.entries h.distinct));
    bounded = length-evict-le c.max_entries _;
  }
