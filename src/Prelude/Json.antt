-- ===== src/Prelude/Json.antt =====
-- The values that `json.loads` returns. A float is finite and stands for the exact fraction
-- m / 2 ^ k that a double is. Arrays and objects are read through `elems` and `props`.
use Prim.Native.Nat.{ℕ}
use Prim.Native.String.{String}
use mathlib.Core.Bool.{Bool}
use mathlib.Core.Option.{Option, none, some}
use mathlib.Core.List.{List, [], ◌∷◌}
use mathlib.Core.Path.{◌≡◌, refl, ap}
use pullbox_direct_providers.Prelude.Int.{ℤ}
use pullbox_direct_providers.Prelude.Tests.{◌==◌, String_eq, if◌then◌else◌}
use pullbox_direct_providers.Prelude.Dict.{lookup}

mutual
  pub data Json : Type 0 where
    null : Json
    bool : Bool → Json
    int : ℤ → Json
    float : ℤ → ℕ → Json
    str : String → Json
    arr : Items → Json
    obj : Fields → Json

  pub data Items : Type 0 where
    nil : Items
    cons : Json → Items → Items

  pub data Fields : Type 0 where
    end : Fields
    field : String → Json → Fields → Fields

abbrev pub elems : Items → List Json
elems nil = []
elems (cons v vs) = v ∷ elems vs

abbrev pub props : Fields → List (String × Json)
props end = []
props (field k v fs) = (k, v) ∷ props fs

abbrev pub of_elems : List Json → Items
of_elems [] = nil
of_elems (v ∷ vs) = cons v (of_elems vs)

pub elems-of_elems : (vs : List Json) → elems (of_elems vs) ≡ vs
elems-of_elems [] = refl
elems-of_elems (v ∷ vs) = ap (◌∷◌ v) (elems-of_elems vs)

-- d.get(k), where a missing key is None
abbrev pub or_null : Option Json → Json
or_null none = null
or_null (some v) = v

unfoldable pub get : String → Fields → Json
unfolding lookup
get k fs = or_null (lookup k (props fs))

-- d[k] = v
unfoldable pub set_field : String → Json → Fields → Fields
set_field k v end = field k v end
set_field k v (field j w fs) = if j == k then field j v fs else field j w (set_field k v fs)
