-- ===== src/Contract/Hostname/Public.antt =====
-- What the hosts have in common that `_is_public_source_hostname_syntax` of configuration.py accepts.
use Prim.Native.String
use Prim.Native.Char.{code}
use text.Mathlib.TextLemmas.{nil-append, cons-append}
use pullbox_direct_providers.Prelude.{
  ◌≤◌, ◌≡◌, refl, sym, subst, ◌⊎◌, inl, inr, Bool, true, false, ◌&&◌, ◌||◌, Option, none, some,
  List, [], ◌∷◌, arith, leb, length, ℕ_eq, String_eq, String, Bool-cases, All, Exists, any, all,
  eq_iff,
}
use pullbox_direct_providers.Prelude.Text.{strip_prefix, is_empty, is_digit, all_chars, ends_with}
use pullbox_direct_providers.Prelude.Split.{split}
use pullbox_direct_providers.Contract.Net.{Net}
use pullbox_direct_providers.Contract.Hostname.{
  special_use_source_suffixes, is_hex_digit, is_ascii_number, hex_digits, is_legacy_label,
  looks_like_legacy_ipv4_literal, is_public_source_hostname_syntax,
}
use pullbox_direct_providers.Contract.Resolver.Target.{dotted, within_domain, is_literal}
use pullbox_direct_providers.Contract.Resolver.Target.Declared.{InDomain}

-- A label that is no decimal number and no hexadecimal one with "0x" in front, in ASCII digits.
abbrev pub NoNumber : String → Type 0
NoNumber label =
    (is_empty label ≡ true)
    ⊎ ((strip_prefix "0x" label ≡ none) × (all_chars is_digit label ≡ false))
    ⊎ ((digits : String) × (strip_prefix "0x" label ≡ some digits)
        × ((is_empty digits ≡ true)
            ⊎ (all_chars (λ c. is_digit c || (leb b'a' (code c) && leb (code c) b'f')) digits
                ≡ false)))

-- More than four labels, or one that is no number.
abbrev pub NoIpv4 : String → Type 0
NoIpv4 host = (5 ≤ length (split b'.' host)) ⊎ Exists NoNumber (split b'.' host)

ends_with_append : (front suffix : String) → ends_with suffix (String.◌++◌ front suffix) ≡ true
unfolding ends_with
ends_with_append String.[] String.[] = (eq_iff "" "").1 refl
ends_with_append String.[] (String.◌∷◌ c s) =
    rw (nil-append (String.◌∷◌ c s))
      (ground (arith, (eq_iff (String.◌∷◌ c s) (String.◌∷◌ c s)).1 refl))
ends_with_append (String.◌∷◌ c front) suffix =
    rw (cons-append c front suffix) (ground (arith, ends_with_append front suffix))

InDomain-within_domain :
    (host domain : String) → InDomain host domain → within_domain host domain ≡ true
unfolding within_domain
InDomain-within_domain host domain (inl same) = ground (arith, (eq_iff host domain).1 same)
InDomain-within_domain host domain (inr (front, same)) =
    let ends : ends_with (dotted domain) host ≡ true =
      subst (λ s. ends_with (dotted domain) s ≡ true) (sym same)
        (ends_with_append front (dotted domain)) in
    ground arith

outside_all :
    (host : String) (suffixes : List String)
    → any (within_domain host) suffixes ≡ false
    → All (λ suffix. ¬ InDomain host suffix) suffixes
outside_all host [] h = tt
outside_all host (suffix ∷ suffixes) h = (
  λ inside. let found = InDomain-within_domain host suffix inside in absurd (ground arith),
  outside_all host suffixes (ground arith),
)

legacy_label-NoNumber :
    (label : String) (digits : Option String)
    → strip_prefix "0x" label ≡ digits
    → is_legacy_label label ≡ false
    → NoNumber label
unfolding is_legacy_label is_ascii_number hex_digits is_hex_digit
legacy_label-NoNumber label none found h = elim (Bool-cases (is_empty label)) [
  | inl empty ↦ inl empty
  | inr filled ↦ inr (inl (found, ground arith))
]
legacy_label-NoNumber label (some digits) found h = elim (Bool-cases (is_empty label)) [
  | inl empty ↦ inl empty
  | inr filled ↦ elim (Bool-cases (is_empty digits)) [
    | inl empty ↦ inr (inr (digits, found, inl empty))
    | inr more ↦ inr (inr (digits, found, inr (ground arith)))
  ]
]

labels-NoNumber :
    (labels : List String) → all is_legacy_label labels ≡ false → Exists NoNumber labels
labels-NoNumber [] h = cc
labels-NoNumber (label ∷ labels) h = elim (Bool-cases (is_legacy_label label)) [
  | inl legacy ↦ inr (labels-NoNumber labels (ground arith))
  | inr other ↦ inl (legacy_label-NoNumber label (strip_prefix "0x" label) refl other)
]

legacy_literal-NoIpv4 : (host : String) → looks_like_legacy_ipv4_literal host ≡ false → NoIpv4 host
unfolding looks_like_legacy_ipv4_literal
legacy_literal-NoIpv4 host h = elim (Bool-cases (leb (length (split b'.' host)) 4)) [
  | inl few ↦ inr (labels-NoNumber (split b'.' host) (ground arith))
  | inr many ↦ inl (ground arith)
]

module _ (net : Net) where
  -- A host that is none of the special names nor below one, and no address, in the notations that
  -- `ip_address` reads and in those of an IPv4 address in ASCII digits.
  pub record IsPublicHost (host : String) : Type 0 where
    pub unreserved :
        All
          (λ suffix. ¬ InDomain host suffix)
          ("localhost" ∷ "local" ∷ "onion" ∷ "internal" ∷ "home.arpa" ∷ [])
    pub no_literal : net.ip_address host ≡ none
    pub no_ipv4 : NoIpv4 host

  is_literal-none : (o : Option Bool) → is_literal o ≡ false → o ≡ none
  is_literal-none none h = refl
  is_literal-none (some g) h = cc

  pub hostname_syntax-IsPublicHost :
      (host : String) → is_public_source_hostname_syntax net host ≡ true → IsPublicHost host
  unfolding is_public_source_hostname_syntax
  hostname_syntax-IsPublicHost host h = record {
    unreserved = outside_all host special_use_source_suffixes (ground arith);
    no_literal = is_literal-none (net.ip_address host) (ground arith);
    no_ipv4 = legacy_literal-NoIpv4 host (ground arith);
  }
