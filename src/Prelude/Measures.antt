-- ===== src/Prelude/Measures.antt =====
-- Lengths of texts, and what stripping and slicing leave.
use Prim.Native.Nat.{ℕ, zero, suc, ◌+◌, ◌≤◌}
use Prim.Native.String
use Prim.Native.String.{String}
use mathlib.Core.Path.{◌≡◌}
use text.Mathlib.TextLemmas.{nil-append, cons-append}
use native.Mathlib.Omega.{arith}
use pullbox_direct_providers.Prelude.Text.{text_len, text_take}

pub text_len-text_take-le : (n : ℕ) (s : String) → text_len (text_take n s) ≤ n
unfolding text_len text_take
text_len-text_take-le zero s = omega arith
text_len-text_take-le (suc n) String.[] = omega arith
text_len-text_take-le (suc n) (String.◌∷◌ c s) = omega (arith, text_len-text_take-le n s)

pub text_len-append : (s t : String) → text_len (String.◌++◌ s t) ≡ text_len s + text_len t
unfolding text_len
text_len-append String.[] t = rw (nil-append t) (omega arith)
text_len-append (String.◌∷◌ c s) t = rw (cons-append c s t) (omega (arith, text_len-append s t))
