-- ===== src/LibGen/Cache/Freshness.antt =====
-- What a later `get` of LibGen/Cache sees of an earlier `set`, and which entry a `set` evicts.
use pullbox_direct_providers.Prelude.{
  ℕ, ◌+◌, ◌≤◌, ◌≡◌, ◌≢◌, ap, sym, ◌∙◌, inl, inr, true, Option, none, some, List, [], ◌∷◌, ◌++◌,
  arith, Eq, Option-cases,
}
use pullbox_direct_providers.Prelude.Dict.{
  lookup, remove, move_to_end, lookup-remove, lookup-remove_self, remove-Distinct, move_to_end-put,
}
use pullbox_direct_providers.LibGen.Cache.{
  CacheEntry, BoundedTtlCache, new, evict, get, set, lifetime,
}
use pullbox_direct_providers.LibGen.Cache.Bounds.{IsValid, new-IsValid, get-IsValid, set-IsValid}

module _ {K V : Type 0} ⦃e : Eq K⦄ where
  remove-concat_ne :
      (k j : K) (w : V) (d : List (K × V))
      → k ≢ j
      → remove k (d ++ (j, w) ∷ []) ≡ remove k d ++ (j, w) ∷ []
  unfolding remove
  remove-concat_ne k j w [] h = ground (arith, e.same_iff j k, h)
  remove-concat_ne k j w ((i, x) ∷ d) h = ground (arith, remove-concat_ne k j w d h)

  lookup_second :
      (j k : K) (w x : V) (d : List (K × V))
      → lookup j d ≡ none
      → lookup j ((d ++ (j, w) ∷ []) ++ (k, x) ∷ []) ≡ some w
  unfolding lookup
  lookup_second j k w x [] fresh = ground (arith, e.same_iff j j)
  lookup_second j k w x ((i, y) ∷ d) fresh = ground (arith, lookup_second j k w x d)

  lookup-evict_second :
      (n : ℕ) (j k : K) (w x : V) (d : List (K × V))
      → 2 ≤ n
      → lookup j d ≡ none
      → lookup j (evict n ((d ++ (j, w) ∷ []) ++ (k, x) ∷ [])) ≡ some w
  unfolding lookup evict
  lookup-evict_second n j k w x [] h fresh = ground (arith, e.same_iff j j)
  lookup-evict_second n j k w x ((i, y) ∷ d) h fresh =
      ground (arith, lookup-evict_second n j k w x d h, lookup_second j k w x d)

module _ {K V : Type 0} ⦃e : Eq K⦄ where
  pub max_entries-get :
      (c : BoundedTtlCache K V) (now : ℕ) (k : K) → (get c now k).0.max_entries ≡ c.max_entries
  unfolding get
  max_entries-get c now k = ground arith

  get_hit_entries :
      (c : BoundedTtlCache K V) (now : ℕ) (j : K)
      → (get c now j).1.hit ≡ true
      → (w : CacheEntry V) × (lookup j c.entries ≡ some w)
        × ((get c now j).0.entries ≡ remove j c.entries ++ (j, w) ∷ [])
  unfolding get move_to_end
  get_hit_entries c now j h = elim (Option-cases (lookup j c.entries)) [
    | inl p ↦ absurd (ground arith)
    | inr (w, p) ↦ (w, p, ground arith)
  ]

  pub set_entries :
      (c : BoundedTtlCache K V) (now : ℕ) (k : K) (v : Option V)
      → (set c now k v).entries
        ≡ evict c.max_entries
            (remove k c.entries ++ (k, record { value = v; expires_at = now + lifetime c v }) ∷ [])
  unfolding set
  set_entries c now k v = ap (evict c.max_entries) (move_to_end-put k _ c.entries)

  -- What `get` found is not what the next `set` evicts, if two entries or more are allowed.
  get_hit_survives-set :
      (c : BoundedTtlCache K V) (now then_ : ℕ) (j k : K) (v : Option V)
      → IsValid c
      → 2 ≤ c.max_entries
      → (get c now j).1.hit ≡ true
      → k ≢ j
      → lookup j (set (get c now j).0 then_ k v).entries ≡ lookup j c.entries
  get_hit_survives-set c now then_ j k v h two hit ne =
      let (w, found, moved) = get_hit_entries c now j hit in
      rw (set_entries (get c now j).0 then_ k v) (
        rw moved (
          rw (remove-concat_ne k j w (remove j c.entries) ne) (
            lookup-evict_second (get c now j).0.max_entries j k w _ (remove k (remove j c.entries))
              (rw (max_entries-get c now j) two)
              (rw (lookup-remove k j (remove j c.entries) (remove-Distinct j c.entries h.distinct))
                (ground (arith, lookup-remove_self j c.entries h.distinct)))
            ∙ sym found)))

pub data Call (K V : Type 0) : Type 0 where
  get_call : ℕ → K → Call K V
  set_call : ℕ → K → Option V → Call K V

module _ {K V : Type 0} ⦃e : Eq K⦄ where
  pub run : BoundedTtlCache K V → List (Call K V) → BoundedTtlCache K V
  run c [] = c
  run c (get_call now k ∷ calls) = run (get c now k).0 calls
  run c (set_call now k v ∷ calls) = run (set c now k v) calls

  run_keeps :
      (c : BoundedTtlCache K V) (calls : List (Call K V)) → IsValid c → IsValid (run c calls)
  unfolding run
  run_keeps c [] h = h
  run_keeps c (get_call now k ∷ calls) h = run_keeps (get c now k).0 calls (get-IsValid c now k h)
  run_keeps c (set_call now k v ∷ calls) h =
      run_keeps (set c now k v) calls (set-IsValid c now k v h)

  -- Whatever calls follow the construction of a cache, its keys stay distinct and its entries are
  -- at most as many as were allowed.
  pub run-IsValid :
      (m t n : ℕ) (c : BoundedTtlCache K V) (calls : List (Call K V))
      → new m t n ≡ some c
      → IsValid (run c calls)
  run-IsValid m t n c calls h = run_keeps c calls (new-IsValid m t n c h)
