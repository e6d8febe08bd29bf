-- ===== src/Prelude/Optional.antt =====
-- Code that gives up at the first None: options in order.
use mathlib.Core.Path.{◌≡◌, refl}
use mathlib.Core.Bool.{Bool, true, false}
use mathlib.Core.Option.{Option, none, some}

infixl 5 ◌>>=◌
abbrev pub ◌>>=◌ {ℓ κ} : {A : Type ℓ} {B : Type κ} → Option A → (A → Option B) → Option B
none >>= next = none
some a >>= next = next a

abbrev pub given {ℓ} : {A : Type ℓ} → Bool → A → Option A
given true a = some a
given false a = none

pub >>=-eq-some {ℓ κ} :
    {A : Type ℓ} {B : Type κ} (first : Option A) (next : A → Option B) {b : B}
    → (first >>= next) ≡ some b
    → (a : A) × (first ≡ some a) × (next a ≡ some b)
>>=-eq-some none next h = cc
>>=-eq-some (some a) next h = (a, refl, h)

pub given-eq-some {ℓ} :
    {A : Type ℓ} (test : Bool) (a : A) {b : A} → given test a ≡ some b → (test ≡ true) × (a ≡ b)
given-eq-some true a h = (refl, cc)
given-eq-some false a h = cc
