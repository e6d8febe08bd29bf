-- ===== src/Prelude/Result.antt =====
-- Results of Python code that may raise: `raised e` for the exception `e` of the type that a module
-- chooses.
use mathlib.Core.Path.{◌≡◌, refl}
use mathlib.Core.Bool.{Bool, true, false}
use mathlib.Core.Logic.{◌⊎◌, inl, inr}
use mathlib.Core.List.{List, [], ◌∷◌}
use mathlib.Core.Option.{Option, none, some}

pub data Result {ℓ κ} (E : Type ℓ) (A : Type κ) : Type (ℓ ⊔ κ) where
  ok : A → Result E A
  raised : E → Result E A

-- if not test: raise e
abbrev pub require {ℓ} : {E : Type ℓ} → Bool → E → Result E (Unit {0})
require true e = ok tt
require false e = raised e

-- Statements in order: what follows runs unless an exception is raised.
infixl 5 ◌>>=◌
abbrev pub ◌>>=◌ {ℓ κ ι} :
    {E : Type ℓ} {A : Type κ} {B : Type ι} → Result E A → (A → Result E B) → Result E B
ok a >>= next = next a
raised e >>= next = raised e

infixl 5 ◌>>◌
abbrev pub ◌>>◌ {ℓ ι} : {E : Type ℓ} {B : Type ι} → Result E (Unit {0}) → Result E B → Result E B
first >> next = first >>= λ _. next

abbrev pub of_option {ℓ κ} : {E : Type ℓ} {A : Type κ} → E → Option A → Result E A
of_option e none = raised e
of_option e (some a) = ok a

-- [f(x) for x in xs], left to right
unfoldable pub traverse {ℓ κ ι} :
    {E : Type ℓ} {A : Type κ} {B : Type ι} → (A → Result E B) → List A → Result E (List B)
traverse f [] = ok []
traverse f (x ∷ xs) = do y ← f x; ys ← traverse f xs; ok (y ∷ ys)

-- Statements that end without an exception: what the first returned, and that the rest went well.
pub >>=-eq-ok {ℓ κ ι} :
    {E : Type ℓ} {A : Type κ} {B : Type ι} (first : Result E A) (next : A → Result E B) {result : B}
    → (first >>= next) ≡ ok result
    → (value : A) × (first ≡ ok value) × (next value ≡ ok result)
>>=-eq-ok (ok value) next h = (value, refl, h)
>>=-eq-ok (raised e) next h = cc

pub require-eq-ok {ℓ ι} :
    {E : Type ℓ} {B : Type ι} (test : Bool) (e : E) (k : Result E B) {b : B}
    → (require test e >> k) ≡ ok b
    → (test ≡ true) × (k ≡ ok b)
require-eq-ok true e k h = (refl, h)
require-eq-ok false e k h = cc

pub ok-injective {ℓ κ} :
    {E : Type ℓ} {A : Type κ} {a b : A} → Path (Result E A) (ok a) (ok b) → a ≡ b
ok-injective p = cc

pub of_option-eq-ok {ℓ κ} :
    {E : Type ℓ} {A : Type κ} (e : E) (o : Option A) {a : A} → of_option e o ≡ ok a → o ≡ some a
of_option-eq-ok e none h = cc
of_option-eq-ok e (some b) h = cc

-- Statements that end with an exception: one of the first, or one of what follows.
pub >>=-eq-raised {ℓ κ ι} :
    {E : Type ℓ} {A : Type κ} {B : Type ι} (first : Result E A) (next : A → Result E B) {e : E}
    → (first >>= next) ≡ raised e
    → (first ≡ raised e) ⊎ ((value : A) × (first ≡ ok value) × (next value ≡ raised e))
>>=-eq-raised (ok value) next h = inr (value, refl, h)
>>=-eq-raised (raised e) next h = inl cc

pub Result-cases {ℓ κ} :
    {E : Type ℓ} {A : Type κ} (r : Result E A) → ((a : A) × (r ≡ ok a)) ⊎ ((e : E) × (r ≡ raised e))
Result-cases (ok a) = inl (a, refl)
Result-cases (raised e) = inr (e, refl)
