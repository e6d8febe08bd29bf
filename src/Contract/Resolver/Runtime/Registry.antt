-- ===== src/Contract/Resolver/Runtime/Registry.antt =====
-- `_RUNTIMES` and `_runtime_for_profile` of resolver.py.
use pullbox_direct_providers.Prelude.{
  ℕ, ◌≡◌, inl, inr, ◌↔◌, Bool, true, false, ◌&&◌, Option, none, some, List, arith, Eq, ◌==◌, ℕ_eq,
  String_eq, Option-cases, String, eq_iff,
}
use pullbox_direct_providers.Prelude.Dict.{lookup, put, lookup-put_self}
use pullbox_direct_providers.Contract.Models.{
  ResolverMode, flaresolverr_v1, trawl_scrape, ResolverProfile,
}
use pullbox_direct_providers.Contract.Resolver.Runtime.{Runtime, new}

-- `_RUNTIMES`, with the constructor's defaults of three failures and a cooldown of 60 seconds (in
-- milliseconds here).
mode_beq : ResolverMode → ResolverMode → Bool
mode_beq flaresolverr_v1 flaresolverr_v1 = true
mode_beq trawl_scrape trawl_scrape = true
mode_beq _ _ = false

abbrev pub RuntimeKey : Type 0
RuntimeKey = String × ℕ × ResolverMode

key_beq : RuntimeKey → RuntimeKey → Bool
unfolding mode_beq
key_beq (a, m, x) (b, n, y) = a == b && m == n && mode_beq x y

mode_beq_iff : (x y : ResolverMode) → (mode_beq x y ≡ true) ↔ (x ≡ y)
unfolding mode_beq
mode_beq_iff x y = (λ h. ground arith, λ h. ground arith)

key_beq_iff : (k l : RuntimeKey) → (key_beq k l ≡ true) ↔ (k ≡ l)
unfolding key_beq
key_beq_iff (a, m, x) (b, n, y) = (
  λ h. ground (arith, eq_iff a b, mode_beq_iff x y),
  λ h. ground (arith, eq_iff a b, mode_beq_iff x y),
)

instance pub RuntimeKey_eq : Eq RuntimeKey
RuntimeKey_eq = record { same = key_beq; same_iff = key_beq_iff }

abbrev pub profile_key : ResolverProfile → RuntimeKey
profile_key p = (p.endpoint, p.max_concurrency, p.mode)

unfoldable pub runtime_for_profile :
    List (RuntimeKey × Runtime) → ResolverProfile → Option (List (RuntimeKey × Runtime) × Runtime)
runtime_for_profile runtimes p = elim (lookup (profile_key p) runtimes) [
  | some runtime ↦ some (runtimes, runtime)
  | none ↦ elim (new p.max_concurrency 3 60000) [
    | none ↦ none
    | some runtime ↦ some (put (profile_key p) runtime runtimes, runtime)
  ]
]

is_registered :
    (runtimes after : List (RuntimeKey × Runtime)) (p : ResolverProfile) (r : Runtime)
    → runtime_for_profile runtimes p ≡ some (after, r)
    → lookup (profile_key p) after ≡ some r
unfolding runtime_for_profile
is_registered runtimes after p r h = elim (Option-cases (lookup (profile_key p) runtimes)) [
  | inl fresh ↦ elim (Option-cases (new p.max_concurrency 3 60000)) [
    | inl refused ↦ absurd (ground arith)
    | inr (made, built) ↦ ground (arith, lookup-put_self (profile_key p) made runtimes)
  ]
  | inr (old, found) ↦ ground arith
]

handed_out_again :
    (runtimes : List (RuntimeKey × Runtime)) (q : ResolverProfile) (r : Runtime)
    → lookup (profile_key q) runtimes ≡ some r
    → runtime_for_profile runtimes q ≡ some (runtimes, r)
unfolding runtime_for_profile
handed_out_again runtimes q r found = rw (found, runtime_for_profile)

-- A runtime that was handed out for a profile is handed out again, and the registry left as it is,
-- for every profile with the same endpoint, concurrency and mode.
runtime_for_profile_again :
    (runtimes after : List (RuntimeKey × Runtime)) (p q : ResolverProfile) (r : Runtime)
    → runtime_for_profile runtimes p ≡ some (after, r)
    → profile_key q ≡ profile_key p
    → runtime_for_profile after q ≡ some (after, r)
runtime_for_profile_again runtimes after p q r h same =
    handed_out_again after q r (rw same (is_registered runtimes after p r h))
