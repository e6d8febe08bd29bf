-- ===== src/Contract/Resolver/Runtime.antt =====
-- `ProviderResolverRuntime` of resolver.py: the concurrency gate and circuit breaker, and the
-- registry of runtimes. Each method runs under the lock, so it is one step. The monotonic clock is
-- read in whole ticks, and its reading is an argument.
pub mod Admission
pub mod Breaker
pub mod Interleaving
pub mod Recovery
pub mod Registry
mod Tests
use pullbox_direct_providers.Prelude.{
  ℕ, zero, suc, ◌+◌, ◌-◌, ◌≤◌, ◌<◌, ◌≡◌, ◌≢◌, refl, ap, sym, ◌∙◌, ◌⊎◌, inl, inr, ◌↔◌, Bool, true,
  false, not, ◌&&◌, ◌||◌, Option, none, some, List, [], ◌∷◌, ◌++◌, map, arith, ltb, leb,
  if◌then◌else◌, length, Eq, ◌==◌, All, Bool-cases, Option-cases, length-append, String, eq_iff,
  eq_refl, any, all, contains,
}
use pullbox_direct_providers.Prelude.Dict.{lookup, put}
use pullbox_direct_providers.Contract.Models.{
  ResolverMode, flaresolverr_v1, trawl_scrape, ResolverProfile,
}

pub data CircuitState : Type 0 where
  closed open_ half_open : CircuitState

pub record Runtime : Type 0 where
  pub max_concurrency : ℕ
  pub failure_threshold : ℕ
  pub cooldown_seconds : ℕ
  pub active : ℕ
  pub failures : ℕ
  pub state : CircuitState
  pub opened_at : Option ℕ

-- `none` stands for the ValueError of the constructor.
unfoldable pub new : ℕ → ℕ → ℕ → Option Runtime
new max_concurrency failure_threshold cooldown_seconds =
    if ltb max_concurrency 1 || ltb 4 max_concurrency
    then none
    else if ltb failure_threshold 1 || leb cooldown_seconds 0
    then none
    else some (record {
      max_concurrency = max_concurrency;
      failure_threshold = failure_threshold;
      cooldown_seconds = cooldown_seconds;
      active = 0;
      failures = 0;
      state = closed;
      opened_at = none;
    })

-- How the entry into `slot` ends.
pub data Entry : Type 0 where
  admitted resolver_circuit_open resolver_busy : Entry

abbrev pub is_half_open : CircuitState → Bool
is_half_open half_open = true
is_half_open _ = false

-- The second test of the entry, which also runs after an open circuit has become half open.
unfoldable pub take_slot : Runtime → Runtime × Entry
take_slot r =
    if leb r.max_concurrency r.active || (is_half_open r.state && ltb 0 r.active)
    then (r, resolver_busy)
    else (record r { active = r.active + 1 }, admitted)

-- opened_at is None or clock() - opened_at < cooldown
unfoldable pub is_cooling : Runtime → ℕ → Bool
is_cooling r now = elim r.opened_at [ none ↦ true | some t ↦ ltb (now - t) r.cooldown_seconds ]

-- The part of `slot` before its `yield`. A refused entry keeps the state that it has written.
unfoldable pub enter_open : Runtime → ℕ → Runtime × Entry
unfolding is_cooling take_slot
enter_open r now =
    if is_cooling r now
    then (r, resolver_circuit_open)
    else take_slot (record r { state = half_open })

unfoldable pub enter : Runtime → ℕ → Runtime × Entry
unfolding enter_open take_slot
enter r now = elim r.state [ open_ ↦ enter_open r now | _ ↦ take_slot r ]

-- The part of `slot` behind its `yield`.
unfoldable pub leave : Runtime → Runtime
leave r = record r { active = r.active - 1 }

unfoldable pub record_success : Runtime → Runtime
record_success r = record r { failures = 0; opened_at = none; state = closed }

unfoldable pub record_failure : Runtime → ℕ → Runtime
record_failure r now =
    let counted = record r { failures = r.failures + 1 } in
    if leb r.failure_threshold (r.failures + 1)
    then record counted { opened_at = some now; state = open_ }
    else counted
