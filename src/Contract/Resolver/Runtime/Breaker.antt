-- ===== src/Contract/Resolver/Runtime/Breaker.antt =====
-- The circuit breaker of resolver.py over runs of failures.
use pullbox_direct_providers.Prelude.{
  ℕ, ◌+◌, ◌≤◌, ◌<◌, ◌≡◌, refl, ◌⊎◌, inl, List, [], ◌∷◌, ◌++◌, arith, leb, if◌then◌else◌, length,
  ℕ_eq, String_eq,
}
use pullbox_direct_providers.Contract.Resolver.Runtime.{
  closed, open_, Runtime, resolver_circuit_open, enter, record_success, record_failure,
}

-- One failure after another, at the times given.
unfoldable pub fail_all : Runtime → List ℕ → Runtime
fail_all r [] = r
fail_all r (now ∷ times) = fail_all (record_failure r now) times

-- Below the threshold and closed, or at it and open.
abbrev Counted : Runtime → Type 0
Counted r =
    ((r.state ≡ closed) × (r.failures < r.failure_threshold))
    ⊎ ((r.state ≡ open_) × (r.failure_threshold ≤ r.failures))

record_failure-Counted : (r : Runtime) (now : ℕ) → Counted r → Counted (record_failure r now)
unfolding record_failure
record_failure-Counted r now h = ground arith

fail_all-Counted : (r : Runtime) (times : List ℕ) → Counted r → Counted (fail_all r times)
unfolding fail_all
fail_all-Counted r [] h = h
fail_all-Counted r (now ∷ times) h =
    fail_all-Counted (record_failure r now) times (record_failure-Counted r now h)

failures-fail_all :
    (r : Runtime) (times : List ℕ)
    → ((fail_all r times).failures ≡ r.failures + length times)
      × ((fail_all r times).failure_threshold ≡ r.failure_threshold)
      × ((fail_all r times).cooldown_seconds ≡ r.cooldown_seconds)
unfolding fail_all record_failure
failures-fail_all r [] = (omega arith, refl, refl)
failures-fail_all r (now ∷ times) = ground (arith, failures-fail_all (record_failure r now) times)

-- In a run of failures after a success, with nothing between them, the circuit opens with exactly the
-- failure that reaches the threshold, and is open after each further failure of the run.
pub fail_all-record_success :
    (r : Runtime) (times : List ℕ)
    → 1 ≤ r.failure_threshold
    → (fail_all (record_success r) times).state
      ≡ (if leb r.failure_threshold (length times) then open_ else closed)
unfolding record_success
fail_all-record_success r times h = ground (
  arith,
  fail_all-Counted (record_success r) times (inl (refl, h)),
  failures-fail_all (record_success r) times,
)

fail_all-append :
    (r : Runtime) (times : List ℕ) (t : ℕ)
    → fail_all r (times ++ t ∷ []) ≡ record_failure (fail_all r times) t
unfolding fail_all
fail_all-append r [] t = refl
fail_all-append r (now ∷ times) t = fail_all-append (record_failure r now) times t

-- When the failures since the last success reach the threshold, every entry is refused as
-- `resolver_circuit_open`, and changes nothing, until the cooldown since the last failure is over.
enter-fail_all :
    (r : Runtime) (times : List ℕ) (t now : ℕ)
    → r.failure_threshold ≤ length times + 1
    → now < t + r.cooldown_seconds
    → 0 < r.cooldown_seconds
    → enter (fail_all (record_success r) (times ++ t ∷ [])) now
      ≡ (fail_all (record_success r) (times ++ t ∷ []), resolver_circuit_open)
unfolding enter record_failure record_success
enter-fail_all r times t now h early pos =
    rw (fail_all-append (record_success r) times t)
      (ground (arith, failures-fail_all (record_success r) times))
