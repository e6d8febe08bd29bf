-- ===== src/Contract/Resolver/Runtime/Recovery.antt =====
-- The recovery of the runtime of resolver.py: no interleaving of its callers leaves it stuck.
use pullbox_direct_providers.Prelude.{
  ℕ, zero, suc, ◌+◌, ◌-◌, ◌*◌, ◌≤◌, ◌<◌, ◌≡◌, refl, ◌∙◌, ◌⊎◌, inl, inr, some, arith, ℕ_eq,
  String_eq,
}
use pullbox_direct_providers.Contract.Resolver.Runtime.{
  CircuitState, closed, open_, half_open, Runtime, new, admitted, enter, leave, record_success,
  record_failure,
}
use pullbox_direct_providers.Contract.Resolver.Runtime.Admission.{
  Cooled, Alone, Admits, enter-Admits_iff,
}
use pullbox_direct_providers.Contract.Resolver.Runtime.Interleaving.{
  System, Step, admit, refuse, succeed, exit, fail, count, ignore, Reach, here, next, IsSafe, start,
  runtime-IsSafe,
}

zero-cases : (n : ℕ) → (n ≡ 0) ⊎ (0 < n)
zero-cases zero = inl refl
zero-cases (suc n) = inr (omega arith)

Reach-append : {s t u : System} → Reach s t → Reach t u → Reach s u
Reach-append p here = p
Reach-append p (next q st) = next (Reach-append p q) st

-- No caller is inside, and none has a failure to record.
pub record IsIdle (s : System) : Type 0 where
  pub none_working : s.working ≡ 0
  pub none_leaving : s.leaving ≡ 0
  pub none_failing : s.failing ≡ 0

-- Callers leave, and nobody enters: one that works leaves by an exception that is not counted, one
-- that has succeeded leaves, and one whose failure is outstanding does not record it.
pub data Departs : System → System → Type 0 where
  gone : (s : System) → Departs s s
  working_leaves :
      (s t : System)
      → 0 < s.working
      → Departs
          (record s { runtime = leave s.runtime; working = s.working - 1; failing = s.failing + 1 })
          t
      → Departs s t
  successful_leaves :
      (s t : System)
      → 0 < s.leaving
      → Departs (record s { runtime = leave s.runtime; leaving = s.leaving - 1 }) t
      → Departs s t
  failure_ignored :
      (s t : System)
      → 0 < s.failing
      → Departs (record s { failing = s.failing - 1 }) t
      → Departs s t

Departs-Reach : {s t : System} → Departs s t → Reach s t
Departs-Reach (gone s) = here
Departs-Reach (working_leaves s t busy d) = Reach-append (next here (fail s busy)) (Departs-Reach d)
Departs-Reach (successful_leaves s t busy d) =
    Reach-append (next here (exit s busy)) (Departs-Reach d)
Departs-Reach (failure_ignored s t busy d) =
    Reach-append (next here (ignore s busy)) (Departs-Reach d)

-- Departures leave the circuit as it is.
Departs-Cooled :
    {s t : System} (now : ℕ)
    → Departs s t
    → Cooled s.runtime.state s.runtime.opened_at now s.runtime.cooldown_seconds
    → Cooled t.runtime.state t.runtime.opened_at now t.runtime.cooldown_seconds
unfolding leave
Departs-Cooled now (gone s) h = h
Departs-Cooled now (working_leaves s t busy d) h = Departs-Cooled now d h
Departs-Cooled now (successful_leaves s t busy d) h = Departs-Cooled now d h
Departs-Cooled now (failure_ignored s t busy d) h = Departs-Cooled now d h

drain :
    (n : ℕ) (s : System)
    → 2 * s.working + s.leaving + s.failing ≤ n
    → (t : System) × Departs s t × IsIdle t
unfolding leave
drain zero s h = (
  s,
  gone s,
  record { none_working = omega arith; none_leaving = omega arith; none_failing = omega arith },
)
drain (suc n) s h = elim (zero-cases s.working) [
  | inr busy ↦ let (t, d, idle) = drain n _ (omega arith) in (t, working_leaves s t busy d, idle)
  | inl none_working ↦ elim (zero-cases s.leaving) [
    | inr busy ↦
        let (t, d, idle) = drain n _ (omega arith) in (t, successful_leaves s t busy d, idle)
    | inl none_leaving ↦ elim (zero-cases s.failing) [
      | inr busy ↦
          let (t, d, idle) = drain n _ (omega arith) in (t, failure_ignored s t busy d, idle)
      | inl none_failing ↦ drain n s (omega arith)
    ]
  ]
]

-- The runtime once a caller has entered, recorded its success and left.
abbrev pub served : Runtime → ℕ → Runtime
served r now = leave (record_success (enter r now).0)

abbrev succeeded : System → ℕ → System
succeeded s now = record s {
  runtime = served s.runtime now;
  working = s.working + 1 - 1;
  leaving = s.leaving + 1 - 1;
}

Reach-succeeded :
    (s : System) (now : ℕ) → (enter s.runtime now).1 ≡ admitted → Reach s (succeeded s now)
Reach-succeeded s now h =
    next (next (next here (admit s now h)) (succeed _ (omega arith))) (exit _ (omega arith))

-- How the runtime comes back: the callers inside leave while nobody enters, a caller at the time
-- `now` is let in, and once it has succeeded and left the circuit is closed and every slot is free.
pub record Recovers (s : System) (now : ℕ) : Type 0 where
  pub drained : System
  pub left : Departs s drained
  pub idle : IsIdle drained
  pub let_in : (enter drained.runtime now).1 ≡ admitted
  pub closes : (served drained.runtime now).state ≡ closed
  pub free : (served drained.runtime now).active ≡ 0
  pub forgets : (served drained.runtime now).failures ≡ 0

Step-cooldown : {s t : System} → Step s t → t.runtime.cooldown_seconds ≡ s.runtime.cooldown_seconds
unfolding enter leave record_success record_failure
Step-cooldown (admit s now h) = ground arith
Step-cooldown (refuse s now h) = ground arith
Step-cooldown (succeed s h) = refl
Step-cooldown (exit s h) = refl
Step-cooldown (fail s h) = refl
Step-cooldown (count s now h) = ground arith
Step-cooldown (ignore s h) = refl

Reach-cooldown :
    {s t : System} → Reach s t → t.runtime.cooldown_seconds ≡ s.runtime.cooldown_seconds
Reach-cooldown here = refl
Reach-cooldown (next p st) = Step-cooldown st ∙ Reach-cooldown p

new_lem : (m f c : ℕ) (r : Runtime) → new m f c ≡ some r → (1 ≤ m) × (0 < r.cooldown_seconds)
unfolding new
new_lem m f c r h = (ground arith, ground arith)

idle-Admits :
    (m now : ℕ) (s : System)
    → IsSafe m s
    → 1 ≤ m
    → IsIdle s
    → Cooled s.runtime.state s.runtime.opened_at now s.runtime.cooldown_seconds
    → Admits s.runtime now
idle-Admits m now s safe room idle cooled =
    let empty : s.runtime.active ≡ 0 =
      omega (arith, safe.counted, idle.none_working, idle.none_leaving) in
    (cooled, omega (arith, empty, safe.limit, room), alone s.runtime.state empty)
  where
    alone : (c : CircuitState) → s.runtime.active ≡ 0 → Alone c s.runtime.active
    alone closed h = tt
    alone open_ h = h
    alone half_open h = h

-- Whatever the callers have done since the construction of a runtime: from the very end of the
-- cooldown of an open circuit on, the callers inside can leave while nobody enters, and then a
-- caller is let in; once it has succeeded and left, the circuit is closed, no failure is counted and
-- every slot is free.
pub runtime-Recovers :
    (m f c : ℕ) (r : Runtime) (s : System) (now : ℕ)
    → new m f c ≡ some r
    → Reach (start r) s
    → Cooled s.runtime.state s.runtime.opened_at now s.runtime.cooldown_seconds
    → Recovers s now
unfolding leave record_success
runtime-Recovers m f c r s now made path cooled =
    let (room, lasting) = new_lem m f c r made in
    let (t, left, idle) = drain (2 * s.working + s.leaving + s.failing) s (omega arith) in
    let way : Reach (start r) t = Reach-append path (Departs-Reach left) in
    let safe = runtime-IsSafe m f c r t made way in
    let admits = idle-Admits m now t safe room idle (Departs-Cooled now left cooled) in
    let let_in = (enter-Admits_iff t.runtime now (rw (Reach-cooldown way) lasting)).1 admits in
    let end_safe =
      runtime-IsSafe m f c r (succeeded t now) made
        (Reach-append way (Reach-succeeded t now let_in)) in
    record {
      drained = t;
      left = left;
      idle = idle;
      let_in = let_in;
      closes = refl;
      free = omega (arith, end_safe.counted, idle.none_working, idle.none_leaving);
      forgets = refl;
    }
