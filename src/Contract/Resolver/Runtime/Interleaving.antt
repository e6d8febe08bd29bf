-- ===== src/Contract/Resolver/Runtime/Interleaving.antt =====
-- The runtime of resolver.py under any interleaving of the callers of `resolve_after_challenge`:
-- a caller enters or is refused, works inside the slot, and then records its success and leaves,
-- or leaves by an exception and afterwards records a failure or, for the codes that are not
-- counted, nothing.
use pullbox_direct_providers.Prelude.{
  ℕ, ◌+◌, ◌-◌, ◌≤◌, ◌<◌, ◌≡◌, ◌≢◌, Option, none, some, arith, ℕ_eq, String_eq,
}
use pullbox_direct_providers.Contract.Resolver.Runtime.{
  CircuitState, closed, open_, half_open, Runtime, new, admitted, enter, leave, record_success,
  record_failure,
}

pub record System : Type 0 where
  pub runtime : Runtime
  -- callers inside that have recorded nothing, and those that have recorded their success
  pub working : ℕ
  pub leaving : ℕ
  -- callers that an exception has taken out of the slot
  pub failing : ℕ

pub data Step : System → System → Type 0 where
  admit :
      (s : System) (now : ℕ)
      → (enter s.runtime now).1 ≡ admitted
      → Step s (record s { runtime = (enter s.runtime now).0; working = s.working + 1 })
  refuse :
      (s : System) (now : ℕ)
      → (enter s.runtime now).1 ≢ admitted
      → Step s (record s { runtime = (enter s.runtime now).0 })
  succeed :
      (s : System)
      → 0 < s.working
      → Step s (record s {
        runtime = record_success s.runtime;
        working = s.working - 1;
        leaving = s.leaving + 1;
      })
  exit :
      (s : System)
      → 0 < s.leaving
      → Step s (record s { runtime = leave s.runtime; leaving = s.leaving - 1 })
  fail :
      (s : System)
      → 0 < s.working
      → Step s
          (record s { runtime = leave s.runtime; working = s.working - 1; failing = s.failing + 1 })
  count :
      (s : System) (now : ℕ)
      → 0 < s.failing
      → Step s (record s { runtime = record_failure s.runtime now; failing = s.failing - 1 })
  ignore : (s : System) → 0 < s.failing → Step s (record s { failing = s.failing - 1 })

pub data Reach (s : System) : System → Type 0 where
  here : Reach s s
  next : {t u : System} → Reach s t → Step t u → Reach s u

-- A closed circuit has no opening time and fewer failures than the threshold; one that is open or
-- half open has an opening time and at least that many, so that one more failure opens it again.
abbrev pub Consistent : CircuitState → Option ℕ → ℕ → ℕ → Type 0
Consistent closed none failures threshold = failures < threshold
Consistent open_ (some t) failures threshold = threshold ≤ failures
Consistent half_open (some t) failures threshold = threshold ≤ failures
Consistent _ _ failures threshold = ⊥

pub record IsSafe (m : ℕ) (s : System) : Type 0 where
  pub limit : s.runtime.max_concurrency ≡ m
  pub counted : s.runtime.active ≡ s.working + s.leaving
  pub threshold : 1 ≤ s.runtime.failure_threshold
  pub bounded : s.runtime.active ≤ m
  pub consistent :
      Consistent s.runtime.state s.runtime.opened_at s.runtime.failures s.runtime.failure_threshold

Step-IsSafe : {m : ℕ} {s t : System} → Step s t → IsSafe m s → IsSafe m t
unfolding enter leave record_success record_failure
Step-IsSafe (admit s now h) v = ground arith
Step-IsSafe (refuse s now h) v = ground arith
Step-IsSafe (succeed s h) v = ground arith
Step-IsSafe (exit s h) v = ground arith
Step-IsSafe (fail s h) v = ground arith
Step-IsSafe (count s now h) v = ground arith
Step-IsSafe (ignore s h) v = ground arith

Reach-IsSafe : {m : ℕ} {s t : System} → IsSafe m s → Reach s t → IsSafe m t
Reach-IsSafe h here = h
Reach-IsSafe h (next r st) = Step-IsSafe st (Reach-IsSafe h r)

abbrev pub start : Runtime → System
start r = record { runtime = r; working = 0; leaving = 0; failing = 0 }

new-IsSafe : (m f c : ℕ) (r : Runtime) → new m f c ≡ some r → IsSafe m (start r)
unfolding new
new-IsSafe m f c r h = ground arith

-- However the callers interleave after the construction, the runtime counts exactly the callers
-- inside, never more than `max_concurrency` of them, and its circuit state, opening time and
-- failure count agree.
pub runtime-IsSafe :
    (m f c : ℕ) (r : Runtime) (s : System) → new m f c ≡ some r → Reach (start r) s → IsSafe m s
runtime-IsSafe m f c r s h path = Reach-IsSafe (new-IsSafe m f c r h) path
