-- ===== src/LibGen/Cache.antt =====
-- providers/libgen/src/pullbox_provider_libgen/cache.py: `CacheLookup`, `_CacheEntry` and
-- `BoundedTTLCache`. Times are whole ticks of the injected clock, whose reading is an argument of
-- each method (a method reads it at most once).
pub mod Bounds
pub mod Freshness
pub mod Refinement
mod Tests
use pullbox_direct_providers.Prelude.{
  ℕ, zero, suc, ◌+◌, ◌-◌, ◌≤◌, ◌<◌, ◌≡◌, refl, Bool, true, false, not, ◌&&◌, ◌||◌, Option, none,
  some, List, [], ◌∷◌, ◌++◌, map, arith, ltb, leb, if◌then◌else◌, length, Eq, ◌==◌,
}
use pullbox_direct_providers.Prelude.Dict.{lookup, remove, put, move_to_end}

pub record CacheLookup (V : Type 0) : Type 0 where
  pub hit : Bool
  pub value : Option V

pub record CacheEntry (V : Type 0) : Type 0 where
  pub value : Option V
  pub expires_at : ℕ

pub record BoundedTtlCache (K V : Type 0) : Type 0 where
  pub max_entries : ℕ
  pub ttl_seconds : ℕ
  pub negative_ttl_seconds : ℕ
  pub entries : List (K × CacheEntry V)

-- `none` stands for the ValueError of the constructor.
unfoldable pub new : {K V : Type 0} → ℕ → ℕ → ℕ → Option (BoundedTtlCache K V)
new max_entries ttl_seconds negative_ttl_seconds =
    if ltb max_entries 1 || leb ttl_seconds 0 || leb negative_ttl_seconds 0
    then none
    else some (record {
      max_entries = max_entries;
      ttl_seconds = ttl_seconds;
      negative_ttl_seconds = negative_ttl_seconds;
      entries = [];
    })

-- `while len(self._entries) > self._max_entries: self._entries.popitem(last=False)`
unfoldable pub evict : {A : Type 0} → ℕ → List A → List A
evict max_entries [] = []
evict max_entries (x ∷ xs) =
    let rest = evict max_entries xs in if ltb max_entries (length (x ∷ xs)) then rest else x ∷ xs

abbrev pub miss : {V : Type 0} → CacheLookup V
miss = record { hit = false; value = none }

module _ {K V : Type 0} ⦃e : Eq K⦄ where
  -- `get` when the key has an entry
  get_entry : BoundedTtlCache K V → ℕ → K → CacheEntry V → BoundedTtlCache K V × CacheLookup V
  get_entry c now key entry =
      if leb entry.expires_at now then (record c { entries = remove key c.entries }, miss) else (
        record c { entries = move_to_end key c.entries },
        record { hit = true; value = entry.value },
      )

  unfoldable pub get : BoundedTtlCache K V → ℕ → K → BoundedTtlCache K V × CacheLookup V
  unfolding get_entry
  get c now key = elim (lookup key c.entries) [
    | none ↦ (c, miss)
    | some entry ↦ get_entry c now key entry
  ]

  unfoldable pub lifetime : BoundedTtlCache K V → Option V → ℕ
  lifetime c none = c.negative_ttl_seconds
  lifetime c (some v) = c.ttl_seconds

  unfoldable pub set : BoundedTtlCache K V → ℕ → K → Option V → BoundedTtlCache K V
  unfolding lifetime
  set c now key value =
      let entry : CacheEntry V = record { value = value; expires_at = now + lifetime c value } in
      record c { entries = evict c.max_entries (move_to_end key (put key entry c.entries)) }
