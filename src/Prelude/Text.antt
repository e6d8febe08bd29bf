-- ===== src/Prelude/Text.antt =====
-- Python's `str` as the native texts, which are sequences of code points too, and the operations
-- of its standard library whose meaning needs no Unicode table.
use Prim.Native.Nat.{ℕ, zero, suc}
use Prim.Native.Char.{Char, code}
use Prim.Native.String.{String, [], ◌∷◌, ◌++◌}
use mathlib.Core.Bool.{Bool, true, false, ◌&&◌, ◌||◌}
use mathlib.Core.Option.{Option, none, some}
use pullbox_direct_providers.Prelude.Tests.{leb, nat_beq, if◌then◌else◌, ◌==◌, String_eq}

-- len(s)
unfoldable pub text_len : String → ℕ
text_len [] = 0
text_len (c ∷ s) = suc (text_len s)

-- str.isspace of one character, which is also `\s` of a regular expression over str
unfoldable pub is_space : Char → Bool
is_space ch =
    let c = code ch in
    (leb 9 c && leb c 13)
    || (leb 28 c && leb c 32)
    || nat_beq c 0x85
    || nat_beq c 0xa0
    || nat_beq c 0x1680
    || (leb 0x2000 c && leb c 0x200a)
    || nat_beq c 0x2028
    || nat_beq c 0x2029
    || nat_beq c 0x202f
    || nat_beq c 0x205f
    || nat_beq c 0x3000

-- not s.strip()
unfoldable pub is_blank : String → Bool
unfolding is_space
is_blank [] = true
is_blank (c ∷ s) = is_space c && is_blank s

-- whether every character passes the test
unfoldable pub all_chars : (Char → Bool) → String → Bool
all_chars p [] = true
all_chars p (c ∷ s) = p c && all_chars p s

-- any(p(c) for c in s)
unfoldable pub any_char : (Char → Bool) → String → Bool
any_char p [] = false
any_char p (c ∷ s) = p c || any_char p s

-- The rest behind a prefix, if `s` starts with it.
unfoldable pub strip_prefix : String → String → Option String
strip_prefix [] s = some s
strip_prefix (p ∷ ps) [] = none
strip_prefix (p ∷ ps) (c ∷ s) =
    let rest = strip_prefix ps s in if nat_beq (code p) (code c) then rest else none

-- s.lstrip() and s.rstrip() for a set of characters, and both
unfoldable pub lstrip : (Char → Bool) → String → String
lstrip p [] = []
lstrip p (c ∷ s) = let rest = lstrip p s in if p c then rest else c ∷ s

unfoldable pub rstrip_cons : (Char → Bool) → Char → String → String
rstrip_cons p c [] = if p c then [] else c ∷ []
rstrip_cons p c (d ∷ s) = c ∷ d ∷ s

unfoldable pub rstrip : (Char → Bool) → String → String
unfolding rstrip_cons
rstrip p [] = []
rstrip p (c ∷ s) = rstrip_cons p c (rstrip p s)

unfoldable pub strip : String → String
unfolding lstrip rstrip is_space
strip s = rstrip is_space (lstrip is_space s)

abbrev pub is_digit : Char → Bool
is_digit c = leb b'0' (code c) && leb (code c) b'9'

-- part in s
unfoldable pub has_infix : String → String → Bool
unfolding strip_prefix
has_infix part [] = elim (strip_prefix part []) [ none ↦ false | some rest ↦ true ]
has_infix part (c ∷ s) = elim (strip_prefix part (c ∷ s)) [
  | some rest ↦ true
  | none ↦ has_infix part s
]

-- s[:n]
unfoldable pub text_take : ℕ → String → String
text_take zero s = []
text_take (suc n) [] = []
text_take (suc n) (c ∷ s) = c ∷ text_take n s

-- s == suffix, or the same of what follows its first character: s.endswith(suffix)
unfoldable pub ends_with : String → String → Bool
ends_with suffix [] = [] == suffix
ends_with suffix (c ∷ s) = (c ∷ s) == suffix || ends_with suffix s

abbrev pub is_char : ℕ → Char → Bool
is_char n c = nat_beq (code c) n

-- s.startswith(prefix)
unfoldable pub starts : String → String → Bool
unfolding strip_prefix
starts prefix s = elim (strip_prefix prefix s) [ none ↦ false | some rest ↦ true ]

-- not s
abbrev pub is_empty : String → Bool
is_empty [] = true
is_empty (c ∷ s) = false

-- s[n:]
unfoldable pub text_drop : ℕ → String → String
text_drop zero s = s
text_drop (suc n) [] = []
text_drop (suc n) (c ∷ s) = text_drop n s

-- The words of a text behind one, with one space between two; `gap` says whether a space is due.
unfoldable pub rest_of_words : Bool → String → String
rest_of_words gap [] = []
rest_of_words gap (c ∷ s) =
    let spaced = rest_of_words true s in
    let joined = c ∷ rest_of_words false s in
    if is_space c then spaced else if gap then ◌++◌ " " joined else joined

-- " ".join(s.split()), which is also re.sub(r"\s+", " ", s).strip()
unfoldable pub collapse : String → String
unfolding lstrip is_space rest_of_words
collapse s = rest_of_words false (lstrip is_space s)
