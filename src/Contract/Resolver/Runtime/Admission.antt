-- ===== src/Contract/Resolver/Runtime/Admission.antt =====
-- When `slot` of resolver.py lets a caller in.
use pullbox_direct_providers.Prelude.{ℕ, ◌+◌, ◌≤◌, ◌<◌, ◌≡◌, ◌↔◌, Option, none, some, arith}
use pullbox_direct_providers.Contract.Resolver.Runtime.{
  CircuitState, closed, open_, Runtime, admitted, enter,
}

-- What admission asks for, stated apart from the code: an open circuit has cooled down, a slot is
-- free, and nobody is inside unless the circuit is closed.
abbrev pub Cooled : CircuitState → Option ℕ → ℕ → ℕ → Type 0
Cooled open_ none now cooldown = ⊥
Cooled open_ (some t) now cooldown = t + cooldown ≤ now
Cooled _ opened now cooldown = Unit

abbrev pub Alone : CircuitState → ℕ → Type 0
Alone closed active = Unit
Alone _ active = active ≡ 0

abbrev pub Admits : Runtime → ℕ → Type 0
Admits r now =
    Cooled r.state r.opened_at now r.cooldown_seconds
    × (r.active < r.max_concurrency)
    × Alone r.state r.active

Admits-of_enter :
    (r : Runtime) (now : ℕ) → 0 < r.cooldown_seconds → (enter r now).1 ≡ admitted → Admits r now
unfolding enter
Admits-of_enter r now h a = ground arith

enter_of_Admits :
    (r : Runtime) (now : ℕ) → 0 < r.cooldown_seconds → Admits r now → (enter r now).1 ≡ admitted
unfolding enter
enter_of_Admits r now h a = ground arith

-- A caller is let in exactly if an open circuit has cooled down, fewer callers than allowed are
-- inside, and none at all unless the circuit is closed.
pub enter-Admits_iff :
    (r : Runtime) (now : ℕ) → 0 < r.cooldown_seconds → ((enter r now).1 ≡ admitted) ↔ Admits r now
enter-Admits_iff r now h = (Admits-of_enter r now h, enter_of_Admits r now h)
