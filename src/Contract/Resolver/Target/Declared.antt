-- ===== src/Contract/Resolver/Target/Declared.antt =====
-- What the source URLs that resolver.py accepts have in common.
use Prim.Native.String
use text.Mathlib.TextLemmas.{nil-append, cons-append}
use pullbox_direct_providers.Prelude.{
  ℕ, ◌≡◌, ap, sym, subst, ◌⊎◌, inl, inr, Bool, true, false, ◌&&◌, ◌||◌, Option, none, some, List,
  [], ◌∷◌, arith, ltb, length, ◌==◌, ℕ_eq, String_eq, All, Exists, Bool-cases, String, eq_iff, any,
  all, List_eq,
}
use pullbox_direct_providers.Prelude.Result.{
  ok, of_option, traverse, >>=-eq-ok, require-eq-ok, ok-injective, of_option-eq-ok,
}
use pullbox_direct_providers.Prelude.Text.{strip, ends_with, is_empty}
use pullbox_direct_providers.Contract.Net.{Url, Net, AddressResolver}
use pullbox_direct_providers.Contract.Resolver.Target.{
  rejected, is_set, dotted, within_domain, normalize_domain, folded_host, all_global, plain_target,
  declared_url, rebuilt_url, validate_source_url,
}

ends_with_sound :
    (suffix s : String)
    → ends_with suffix s ≡ true
    → (front : String) × (s ≡ String.◌++◌ front suffix)
unfolding ends_with
ends_with_sound suffix String.[] h =
    (String.[], rw (nil-append suffix) ((eq_iff String.[] suffix).0 h))
ends_with_sound suffix (String.◌∷◌ c s) h = elim (Bool-cases (String.◌∷◌ c s == suffix)) [
  | inl e ↦ (String.[], rw (nil-append suffix) ((eq_iff (String.◌∷◌ c s) suffix).0 e))
  | inr e ↦
      let (front, same) = ends_with_sound suffix s (ground arith) in
      (String.◌∷◌ c front, rw (cons-append c front suffix) (ap (String.◌∷◌ c) same))
]

-- The host is the domain, or ends in a dot and the domain.
abbrev pub InDomain : String → String → Type 0
InDomain host domain =
    (host ≡ domain) ⊎ ((front : String) × (host ≡ String.◌++◌ front (dotted domain)))

within_domain-InDomain :
    (host domain : String) → within_domain host domain ≡ true → InDomain host domain
unfolding within_domain
within_domain-InDomain host domain h = elim (Bool-cases (host == domain)) [
  | inl e ↦ inl ((eq_iff host domain).0 e)
  | inr e ↦ inr (ends_with_sound (dotted domain) host (ground arith))
]

pub either-eq : (s a b : String) → (s == a || s == b) ≡ true → (s ≡ a) ⊎ (s ≡ b)
either-eq s a b h = ground (arith, eq_iff s a, eq_iff s b)

module _ (net : Net) where
  -- Some declared domain, normalised, holds the host.
  abbrev pub IsDeclared : String → String → Type 0
  IsDeclared host raw_domain =
      (domain : String) × (normalize_domain net raw_domain ≡ ok domain) × InDomain host domain

  traverse-IsDeclared :
      (host : String) (raw domains : List String)
      → traverse (normalize_domain net) raw ≡ ok domains
      → any (within_domain host) domains ≡ true
      → Exists (IsDeclared host) raw
  unfolding traverse
  traverse-IsDeclared host [] domains h found = absurd (ground arith)
  traverse-IsDeclared host (r ∷ raw) domains h found =
      let (d, first, h') = >>=-eq-ok (normalize_domain net r) _ h in
      let (ds, later, same) = >>=-eq-ok (traverse (normalize_domain net) raw) _ h' in
      let either : (within_domain host d || any (within_domain host) ds) ≡ true =
        subst (λ l. any (within_domain host) l ≡ true) (ok-injective (sym same)) found in
      elim (Bool-cases (within_domain host d)) [
        | inl e ↦ inl (d, first, within_domain-InDomain host d e)
        | inr e ↦ inr (traverse-IsDeclared host raw ds later (ground arith))
      ]

  abbrev pub NamedBy : Option String → String → Type 0
  NamedBy none host = ⊥
  NamedBy (some hostname) host = host ≡ folded_host net hostname

  -- A plain http or https URL with no credentials and no fragment, whose host is no address
  -- literal.
  pub record IsPlain (raw_url : String) (t : Url × String × ℕ) : Type 0 where
    pub parsed : net.urlsplit (strip raw_url) ≡ some t.0
    pub scheme : (t.0.scheme ≡ "http") ⊎ (t.0.scheme ≡ "https")
    pub no_username : is_set t.0.username ≡ false
    pub no_password : is_set t.0.password ≡ false
    pub no_fragment : is_empty t.0.fragment ≡ true
    pub named : NamedBy t.0.hostname t.1
    pub no_literal : net.ip_address t.1 ≡ none

  plain_target-IsPlain :
      (raw_url : String) (t : Url × String × ℕ)
      → plain_target net raw_url ≡ ok t
      → IsPlain raw_url t
  unfolding plain_target
  plain_target-IsPlain raw_url t h = record {
    parsed = ground arith;
    scheme = either-eq t.0.scheme "http" "https" (ground arith);
    no_username = ground arith;
    no_password = ground arith;
    no_fragment = ground arith;
    named = ground arith;
    no_literal = ground arith;
  }

  -- What a caller may rely on when `_validate_source_url` has returned: the URL was plain, its host
  -- is in a declared domain and resolved to at least one address, all of them global, and the
  -- result is rebuilt from its scheme, host, port, path and query alone.
  pub record IsValidated (resolve : AddressResolver) (raw_url : String) (domains : List String)
      (result : String) : Type 0 where
    pub target : Url × String × ℕ
    pub addresses : List String
    pub plain : IsPlain raw_url target
    pub declared : Exists (IsDeclared target.1) domains
    pub resolved : resolve target.1 target.2 ≡ some addresses
    pub reachable : ltb 0 (length addresses) ≡ true
    pub global : All (λ a. net.ip_address a ≡ some true) addresses
    pub rebuilt : result ≡ rebuilt_url net target

  traverse-global :
      (addresses : List String) (globals : List Bool)
      → traverse (λ a. of_option rejected (net.ip_address a)) addresses ≡ ok globals
      → all (λ g. g) globals ≡ true
      → All (λ a. net.ip_address a ≡ some true) addresses
  unfolding traverse
  traverse-global [] globals h all_true = tt
  traverse-global (a ∷ addresses) globals h all_true =
      let (g, first, h') = >>=-eq-ok (of_option rejected (net.ip_address a)) _ h in
      let (gs, later, same) =
        >>=-eq-ok (traverse (λ a. of_option rejected (net.ip_address a)) addresses) _ h' in
      let both : (g && all (λ g. g) gs) ≡ true =
        subst (λ l. all (λ g. g) l ≡ true) (ok-injective (sym same)) all_true in
      (ground arith, traverse-global addresses gs later (ground arith))

  pub all_global-global :
      (addresses : List String)
      → all_global net addresses ≡ ok tt
      → All (λ a. net.ip_address a ≡ some true) addresses
  unfolding all_global
  all_global-global addresses h =
      let (globals, parsed, h') =
        >>=-eq-ok (traverse (λ a. of_option rejected (net.ip_address a)) addresses) _ h in
      traverse-global addresses globals parsed (ground arith)

  declared_url_sound :
      (raw_url : String) (domains : List String) (t : Url × String × ℕ)
      → declared_url net raw_url domains ≡ ok t
      → IsPlain raw_url t × Exists (IsDeclared t.1) domains
  unfolding declared_url
  declared_url_sound raw_url domains t h =
      let (p, plain, h₁) = >>=-eq-ok (plain_target net raw_url) _ h in
      let (ds, normal, h₂) = >>=-eq-ok (traverse (normalize_domain net) domains) _ h₁ in
      let (within, h₃) = require-eq-ok _ rejected (ok p) h₂ in
      let same : p ≡ t = ok-injective h₃ in
      subst (λ q. IsPlain raw_url q × Exists (IsDeclared q.1) domains) same
        (plain_target-IsPlain raw_url p plain, traverse-IsDeclared p.1 domains ds normal within)

  -- Every URL that `_validate_source_url` returns is validated in the sense of `IsValidated`.
  pub validate_source_url-IsValidated :
      (resolve : AddressResolver) (raw_url : String) (domains : List String) (result : String)
      → validate_source_url net resolve raw_url domains ≡ ok result
      → IsValidated resolve raw_url domains result
  unfolding validate_source_url
  validate_source_url-IsValidated resolve raw_url domains result h =
      let (target, checked, h₁) = >>=-eq-ok (declared_url net raw_url domains) _ h in
      let (addresses, resolved, h₂) =
        >>=-eq-ok (of_option rejected (resolve target.1 target.2)) _ h₁ in
      let (reachable, h₃) = require-eq-ok _ rejected _ h₂ in
      let (u, global, h₄) = >>=-eq-ok (all_global net addresses) _ h₃ in
      let (plain, declared) = declared_url_sound raw_url domains target checked in
      record {
        target = target;
        addresses = addresses;
        plain = plain;
        declared = declared;
        resolved = of_option-eq-ok rejected _ resolved;
        reachable = reachable;
        global = all_global-global addresses global;
        rebuilt = ok-injective (sym h₄);
      }
