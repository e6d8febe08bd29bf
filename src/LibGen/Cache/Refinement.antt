-- ===== src/LibGen/Cache/Refinement.antt =====
-- The cache of LibGen/Cache against a plain dictionary that forgets nothing.
use pullbox_direct_providers.Prelude.{
  ℕ, suc, ◌+◌, ◌≤◌, ◌≡◌, refl, ap, sym, ◌∙◌, true, Option, none, some, List, [], ◌∷◌, ◌++◌, arith,
  leb, if◌then◌else◌, length, length-append, Eq,
}
use pullbox_direct_providers.Prelude.Dict.{
  lookup, remove, put, lookup-remove, lookup-put, lookup-append, lookup-remove_self,
  length-remove-le, length-move_to_end, lookup-move_to_end,
}
use pullbox_direct_providers.LibGen.Cache.{
  CacheEntry, CacheLookup, BoundedTtlCache, new, get, set, lifetime, miss,
}
use pullbox_direct_providers.LibGen.Cache.Bounds.{
  IsValid, new-IsValid, get-IsValid, set-IsValid, evict_of_length-le,
}
use pullbox_direct_providers.LibGen.Cache.Freshness.{
  Call, get_call, set_call, set_entries, max_entries-get,
}

-- What a lookup at a time makes of the entry of its key.
unfoldable pub answer : {V : Type 0} → Option (CacheEntry V) → ℕ → CacheLookup V
answer none now = miss
answer (some entry) now =
    if leb entry.expires_at now then miss else record { hit = true; value = entry.value }

module _ {K V : Type 0} where
  -- The clock of the calls never goes back behind `now`.
  abbrev pub IsInOrder : ℕ → List (Call K V) → Type 0
  IsInOrder now [] = Unit
  IsInOrder now (get_call then_ k ∷ calls) = (now ≤ then_) × IsInOrder then_ calls
  IsInOrder now (set_call then_ k v ∷ calls) = (now ≤ then_) × IsInOrder then_ calls

  unfoldable pub sets : List (Call K V) → ℕ
  sets [] = 0
  sets (get_call now k ∷ calls) = sets calls
  sets (set_call now k v ∷ calls) = suc (sets calls)

module _ {K V : Type 0} ⦃e : Eq K⦄ where
  -- what the `get` calls return, in order
  unfoldable pub answers : BoundedTtlCache K V → List (Call K V) → List (CacheLookup V)
  answers c [] = []
  answers c (get_call now k ∷ calls) = (get c now k).1 ∷ answers (get c now k).0 calls
  answers c (set_call now k v ∷ calls) = answers (set c now k v) calls

  -- the same for a dictionary from which nothing is ever removed
  unfoldable pub dict_answers :
      (Option V → ℕ) → List (K × CacheEntry V) → List (Call K V) → List (CacheLookup V)
  dict_answers life d [] = []
  dict_answers life d (get_call now k ∷ calls) = answer (lookup k d) now ∷ dict_answers life d calls
  dict_answers life d (set_call now k v ∷ calls) =
      dict_answers life (put k (record { value = v; expires_at = now + life v }) d) calls

  -- From `now` on, the cache answers as the dictionary does.
  abbrev Simulates : ℕ → BoundedTtlCache K V → List (K × CacheEntry V) → Type 0
  Simulates now c d =
      (k : K) (t : ℕ) → now ≤ t → answer (lookup k c.entries) t ≡ answer (lookup k d) t

  get-answer :
      (c : BoundedTtlCache K V) (now : ℕ) (k : K)
      → (get c now k).1 ≡ answer (lookup k c.entries) now
  unfolding get answer
  get-answer c now k = ground arith

  answer-get :
      (c : BoundedTtlCache K V) (now t : ℕ) (j k : K)
      → IsValid c
      → now ≤ t
      → answer (lookup j (get c now k).0.entries) t ≡ answer (lookup j c.entries) t
  unfolding get answer
  answer-get c now t j k h le = ground (
    arith,
    lookup-remove k j c.entries h.distinct,
    lookup-move_to_end k j c.entries h.distinct,
    e.same_iff k j,
  )

  length-get-le :
      (c : BoundedTtlCache K V) (now : ℕ) (k : K)
      → length (get c now k).0.entries ≤ length c.entries
  unfolding get
  length-get-le c now k =
      ground (arith, length-remove-le k c.entries, length-move_to_end k c.entries)

  lifetime-get :
      (c : BoundedTtlCache K V) (now : ℕ) (k : K) (v : Option V)
      → lifetime (get c now k).0 v ≡ lifetime c v
  unfolding get lifetime
  lifetime-get c now k none = ground arith
  lifetime-get c now k (some v) = ground arith

  lifetime-set :
      (c : BoundedTtlCache K V) (now : ℕ) (k : K) (w v : Option V)
      → lifetime (set c now k w) v ≡ lifetime c v
  unfolding set lifetime
  lifetime-set c now k w none = refl
  lifetime-set c now k w (some v) = refl

  max_entries-set :
      (c : BoundedTtlCache K V) (now : ℕ) (k : K) (v : Option V)
      → (set c now k v).max_entries ≡ c.max_entries
  unfolding set
  max_entries-set c now k v = refl

  -- A cache with room left evicts nothing.
  set_with_room :
      (c : BoundedTtlCache K V) (now : ℕ) (k : K) (v : Option V)
      → suc (length c.entries) ≤ c.max_entries
      → (set c now k v).entries
        ≡ remove k c.entries ++ (k, record { value = v; expires_at = now + lifetime c v }) ∷ []
  set_with_room c now k v room =
      set_entries c now k v
      ∙ evict_of_length-le c.max_entries _ (
          omega (
            arith,
            length-append (remove k c.entries)
                ((k, record { value = v; expires_at = now + lifetime c v }) ∷ []),
            length-remove-le k c.entries,
          ))

module _ {K V : Type 0} ⦃e : Eq K⦄ where
  get-Simulates :
      (c : BoundedTtlCache K V) (d : List (K × CacheEntry V)) (now then_ : ℕ) (k : K)
      → IsValid c
      → now ≤ then_
      → Simulates now c d
      → Simulates then_ (get c then_ k).0 d
  get-Simulates c d now then_ k h le same j t later =
      answer-get c then_ t j k h later ∙ same j t (omega arith)

  set-Simulates :
      (c : BoundedTtlCache K V) (d : List (K × CacheEntry V)) (now then_ : ℕ) (k : K) (v : Option V)
      → IsValid c
      → suc (length c.entries) ≤ c.max_entries
      → now ≤ then_
      → Simulates now c d
      → Simulates then_
          (set c then_ k v)
          (put k (record { value = v; expires_at = then_ + lifetime c v }) d)
  set-Simulates c d now then_ k v h room le same j t later = rw (set_with_room c then_ k v room) (
      rw
        (lookup-append k (remove k c.entries)
          (record { value = v; expires_at = then_ + lifetime c v })
          (lookup-remove_self k c.entries h.distinct) j)
        (rw (lookup-put k j (record { value = v; expires_at = then_ + lifetime c v }) d)
          (ground (arith, lookup-remove k j c.entries h.distinct, same j t (omega arith)))))

  length-set-le :
      (c : BoundedTtlCache K V) (now : ℕ) (k : K) (v : Option V)
      → suc (length c.entries) ≤ c.max_entries
      → length (set c now k v).entries ≤ suc (length c.entries)
  length-set-le c now k v room = rw (set_with_room c now k v room) (
      omega (
        arith,
        length-append (remove k c.entries)
            ((k, record { value = v; expires_at = now + lifetime c v }) ∷ []),
        length-remove-le k c.entries,
      ))

  run_answers :
      (life : Option V → ℕ) (c : BoundedTtlCache K V) (d : List (K × CacheEntry V)) (now : ℕ)
      (calls : List (Call K V))
      → IsValid c
      → ((v : Option V) → lifetime c v ≡ life v)
      → length c.entries + sets calls ≤ c.max_entries
      → IsInOrder now calls
      → Simulates now c d
      → answers c calls ≡ dict_answers life d calls
  unfolding answers dict_answers sets
  run_answers life c d now [] h lives room ordered same = refl
  run_answers life c d now (get_call then_ k ∷ calls) h lives room (le, ordered) same =
      rw (get-answer c then_ k) (
        rw (same k then_ le) (
          ap (λ rest. answer (lookup k d) then_ ∷ rest)
            (run_answers life (get c then_ k).0 d then_ calls (get-IsValid c then_ k h)
              (λ v. lifetime-get c then_ k v ∙ lives v)
              (rw (max_entries-get c then_ k) (omega (arith, length-get-le c then_ k))) ordered
              (get-Simulates c d now then_ k h le same))))
  run_answers life c d now (set_call then_ k v ∷ calls) h lives room (le, ordered) same =
      let free : suc (length c.entries) ≤ c.max_entries = omega arith in
      rw (sym (lives v)) (
        run_answers life (set c then_ k v) _ then_ calls (set-IsValid c then_ k v h)
          (λ w. lifetime-set c then_ k v w ∙ lives w)
          (rw (max_entries-set c then_ k v) (omega (arith, length-set-le c then_ k v free))) ordered
          (set-Simulates c d now then_ k v h free le same))

  new_lem :
      (m t n : ℕ) (c : BoundedTtlCache K V)
      → new m t n ≡ some c
      → (c.entries ≡ []) × (c.max_entries ≡ m)
  unfolding new
  new_lem m t n c h = (ground arith, ground arith)

  -- While no more values are set than it has room for, and its clock never goes back, a new cache
  -- returns to every get what a dictionary does from which nothing is removed: the value that was
  -- last set for the key, until the lifetime of that value is over.
  pub answers-dict_answers :
      (m t n : ℕ) (c : BoundedTtlCache K V) (calls : List (Call K V))
      → new m t n ≡ some c
      → IsInOrder 0 calls
      → sets calls ≤ m
      → answers c calls ≡ dict_answers (lifetime c) [] calls
  answers-dict_answers m t n c calls made ordered room =
      let (empty, allowed) = new_lem m t n c made in
      run_answers (lifetime c) c [] 0 calls (new-IsValid m t n c made) (λ v. refl)
        (ground (arith, empty, allowed, ap length empty)) ordered
        (λ k now le. ap (λ d. answer (lookup k d) now) empty)
