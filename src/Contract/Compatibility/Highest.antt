-- ===== src/Contract/Compatibility/Highest.antt =====
-- The version that compatibility.py negotiates.
use pullbox_direct_providers.Prelude.{
  ℕ, ◌≤◌, ◌≡◌, refl, ap, sym, ◌∙◌, subst, inl, inr, true, ◌&&◌, List, [], ◌∷◌, arith, ltb, ◌==◌,
  String_eq, String, contains, contains_iff, eq_iff, Bool-cases,
}
use pullbox_direct_providers.Prelude.Result.{ok, >>=-eq-ok, ok-injective}
use pullbox_direct_providers.Contract.Compatibility.{
  is_protocol_version, major_version, matching, unless_malformed, validated_versions, intersection,
  highest, highest_of, negotiate_protocol_version,
}

-- A version of both sides that has the protocol's form.
abbrev pub IsShared : List String → List String → String → Type 0
IsShared pullbox provider version =
    (contains version pullbox ≡ true)
    × (contains version provider ≡ true)
    × (is_protocol_version version ≡ true)

contains-matching :
    (version : String) (versions : List String)
    → contains version (matching versions)
      ≡ (contains version versions && is_protocol_version version)
unfolding matching
contains-matching version [] = refl
contains-matching version (v ∷ versions) = elim (Bool-cases (version == v)) [
  | inl same ↦
      subst
        (λ u.
          contains version (matching (u ∷ versions))
          ≡ (contains version (u ∷ versions) && is_protocol_version version))
        ((eq_iff version v).0 same)
        (ground (arith, contains-matching version versions, eq_iff version version))
  | inr other ↦ ground (arith, contains-matching version versions)
]

contains-intersection :
    (version : String) (pullbox provider : List String)
    → contains version (intersection pullbox provider)
      ≡ (contains version pullbox && contains version provider)
unfolding intersection
contains-intersection version [] provider = refl
contains-intersection version (v ∷ pullbox) provider = elim (Bool-cases (version == v)) [
  | inl same ↦
      subst
        (λ u.
          contains version (intersection (u ∷ pullbox) provider)
          ≡ (contains version (u ∷ pullbox) && contains version provider))
        ((eq_iff version v).0 same)
        (ground (arith, contains-intersection version pullbox provider, eq_iff version version))
  | inr other ↦ ground (arith, contains-intersection version pullbox provider)
]

unless-eq-ok :
    (versions matching_ matched : List String)
    → unless_malformed versions matching_ ≡ ok matched
    → matched ≡ matching_
unless-eq-ok [] [] matched h = ok-injective (sym h)
unless-eq-ok (v ∷ versions) [] matched h = cc
unless-eq-ok versions (m ∷ ms) matched h = ok-injective (sym h)

validated_versions-eq-ok :
    (versions matched : List String)
    → validated_versions versions ≡ ok matched
    → matched ≡ matching versions
unfolding validated_versions
validated_versions-eq-ok versions matched h = unless-eq-ok versions (matching versions) matched h

-- Of the first version and the others: none has a higher major version.
record IsHighest (first : String) (versions : List String) (best : String) : Type 0 where
  one_of : contains best (first ∷ versions) ≡ true
  above : (u : String) → contains u (first ∷ versions) ≡ true → major_version u ≤ major_version best

-- A bound on one version and on all others bounds each of them.
bounds-all :
    (first : String) (versions : List String) (n : ℕ)
    → major_version first ≤ n
    → ((u : String) → contains u versions ≡ true → major_version u ≤ n)
    → (u : String) → contains u (first ∷ versions) ≡ true
    → major_version u ≤ n
bounds-all first versions n low rest u h = elim ((contains_iff u first versions).0 h) [
  | inl same ↦ subst (λ w. major_version w ≤ n) (sym same) low
  | inr later ↦ rest u later
]

contains_first :
    (first : String) (versions : List String) → contains first (first ∷ versions) ≡ true
contains_first first versions = (contains_iff first first versions).1 (inl refl)

contains_later :
    (u first : String) (versions : List String)
    → contains u versions ≡ true
    → contains u (first ∷ versions) ≡ true
contains_later u first versions h = (contains_iff u first versions).1 (inr h)

-- One of `first` and the versions behind it that stays one when another stands before them.
widened :
    (u first v : String) (versions : List String)
    → contains u (first ∷ versions) ≡ true
    → contains u (first ∷ v ∷ versions) ≡ true
widened u first v versions h = elim ((contains_iff u first versions).0 h) [
  | inl same ↦ (contains_iff u first (v ∷ versions)).1 (inl same)
  | inr later ↦ contains_later u first (v ∷ versions) (contains_later u v versions later)
]

highest-IsHighest :
    (first : String) (versions : List String) → IsHighest first versions (highest first versions)
unfolding highest
highest-IsHighest first [] = record {
  one_of = contains_first first [];
  above = bounds-all first [] (major_version first) (omega arith) (λ u h. cc);
}
highest-IsHighest first (v ∷ versions) =
    elim (Bool-cases (ltb (major_version first) (major_version v))) [
      | inl higher ↦
          let best = highest-IsHighest v versions in
          let over = best.above v (contains_first v versions) in
          rw (higher, highest)
            (record {
              one_of = contains_later (highest v versions) first (v ∷ versions) best.one_of;
              above =
                  bounds-all first (v ∷ versions) (major_version (highest v versions))
                    (ground arith) best.above;
            })
      | inr lower ↦
          let best = highest-IsHighest first versions in
          let over = best.above first (contains_first first versions) in
          rw (lower, highest)
            (record {
              one_of = widened (highest first versions) first v versions best.one_of;
              above =
                  bounds-all first (v ∷ versions) (major_version (highest first versions)) over (
                    bounds-all v versions (major_version (highest first versions)) (ground arith)
                      (λ u h. best.above u (contains_later u first versions h)));
            })
    ]

-- The highest shared version.
pub record IsNegotiated (pullbox provider : List String) (version : String) : Type 0 where
  pub shared : IsShared pullbox provider version
  pub top : (u : String) → IsShared pullbox provider u → major_version u ≤ major_version version

shared_iff :
    (pullbox provider : List String) (version : String)
    → contains version (intersection (matching pullbox) (matching provider)) ≡ (
        (contains version pullbox && is_protocol_version version)
        && (contains version provider && is_protocol_version version))
shared_iff pullbox provider version =
    rw (contains-intersection version (matching pullbox) (matching provider))
      (rw (contains-matching version pullbox) (rw (contains-matching version provider) refl))

highest_of-IsNegotiated :
    (pullbox provider : List String) (version : String) (both : List String)
    → intersection (matching pullbox) (matching provider) ≡ both
    → highest_of both ≡ ok version
    → IsNegotiated pullbox provider version
highest_of-IsNegotiated pullbox provider version [] same h = cc
highest_of-IsNegotiated pullbox provider version (first ∷ rest) same h =
    let best = subst (IsHighest first rest) (ok-injective h) (highest-IsHighest first rest) in
    let in_both : contains version (intersection (matching pullbox) (matching provider)) ≡ true =
      ap (contains version) same ∙ best.one_of in
    let all_true = sym (shared_iff pullbox provider version) ∙ in_both in
    record {
      shared = (ground arith, ground arith, ground arith);
      top = λ u (a, b, c).
          best.above u
            (sym (ap (contains u) same) ∙ (shared_iff pullbox provider u ∙ ground arith));
    }

-- A version that is negotiated is claimed by both sides, has the protocol's form, and no other such
-- version has a higher major version.
pub negotiate_protocol_version-IsNegotiated :
    (pullbox provider : List String) (version : String)
    → negotiate_protocol_version pullbox provider ≡ ok version
    → IsNegotiated pullbox provider version
unfolding negotiate_protocol_version
negotiate_protocol_version-IsNegotiated pullbox provider version h =
    let (ours, a, h₁) = >>=-eq-ok (validated_versions pullbox) _ h in
    let (theirs, b, h₂) = >>=-eq-ok (validated_versions provider) _ h₁ in
    let same_ours = validated_versions-eq-ok pullbox ours a in
    let same_theirs = validated_versions-eq-ok provider theirs b in
    highest_of-IsNegotiated pullbox provider version (intersection ours theirs)
      (ap (λ l. intersection l (matching provider)) (sym same_ours)
        ∙ ap (intersection ours) (sym same_theirs))
      h₂
