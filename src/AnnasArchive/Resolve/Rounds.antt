-- ===== src/AnnasArchive/Resolve/Rounds.antt =====
-- The order of the fast-download requests of a resolution of Anna's Archive.

use pullbox_direct_providers.Prelude.{
  ℕ, suc, ◌≤◌, ◌≡◌, refl, ap, inl, inr, List, [], ◌∷◌, arith, nat_beq, ◌||◌, length, take, ℕ_eq,
  String_eq, Bool-cases,
}
use pullbox_direct_providers.Prelude.Json.{Fields}
use pullbox_direct_providers.Prelude.Result.{Result, ok, raised, ok-injective}
use pullbox_direct_providers.Contract.Net.{Net}
use pullbox_direct_providers.Contract.Failures.{
  Failure, protocol_error, runtime_error, value_error, cancelled, other_error,
}
use pullbox_direct_providers.AnnasArchive.FastDownload.{is_quota_error}
use pullbox_direct_providers.AnnasArchive.Resolve.{
  Round, with_payload, after_alternate, alternate_payloads,
}

abbrev pub domain_indices : List ℕ
domain_indices = 0 ∷ 2 ∷ 4 ∷ 6 ∷ []

-- The requests of a round are the first of the indices, and it has at most a payload for each.
abbrev pub InOrder : List ℕ → Round → Type 0
InOrder indices round =
    (n : ℕ) × (round.1 ≡ take n indices)
    × ((payloads : List (ℕ × Fields)) → round.0 ≡ ok payloads → length payloads ≤ length indices)

with_payload-length :
    (entry : ℕ × Fields) (later : Result Failure (List (ℕ × Fields))) {n : ℕ}
    → ((payloads : List (ℕ × Fields)) → later ≡ ok payloads → length payloads ≤ n)
    → (payloads : List (ℕ × Fields)) → with_payload entry later ≡ ok payloads
    → length payloads ≤ suc n
with_payload-length entry (ok rest) few payloads eq =
    let fewer = few rest refl in let known = ok-injective eq in ground arith
with_payload-length entry (raised e) few payloads eq = cc

module _ (net : Net) where
  after_alternate-InOrder :
      (index : ℕ) (indices : List ℕ) (answer : Result Failure (ℕ × Fields)) (later : Round)
      → InOrder indices later
      → InOrder (index ∷ indices) (after_alternate net index answer later)
  unfolding after_alternate
  after_alternate-InOrder index indices (raised (protocol_error e)) later (n, h, few) =
      (suc n, ap (◌∷◌ index) h, λ ps eq. let fewer = few ps eq in omega arith)
  after_alternate-InOrder index indices (raised (runtime_error m)) later (n, h, few) =
      (1, refl, λ ps eq. cc)
  after_alternate-InOrder index indices (raised value_error) later (n, h, few) =
      (1, refl, λ ps eq. cc)
  after_alternate-InOrder index indices (raised cancelled) later (n, h, few) =
      (1, refl, λ ps eq. cc)
  after_alternate-InOrder index indices (raised other_error) later (n, h, few) =
      (1, refl, λ ps eq. cc)
  after_alternate-InOrder index indices (ok (status, payload)) (round, made) (n, h, few) =
      elim (Bool-cases (nat_beq status 429 || is_quota_error net payload)) [
        | inl stops ↦ rw stops (1, refl, λ ps eq. ground arith)
        | inr goes_on ↦ elim (Bool-cases (nat_beq status 200 || nat_beq status 204)) [
          | inl good ↦
              rw (goes_on, good)
                (suc n, ap (◌∷◌ index) h, with_payload-length (index, payload) round few)
          | inr bad ↦
              rw (goes_on, bad)
                (suc n, ap (◌∷◌ index) h, λ ps eq. let fewer = few ps eq in omega arith)
        ]
      ]

  pub alternate_payloads-InOrder :
      (fetch : ℕ → Result Failure (ℕ × Fields)) (indices : List ℕ)
      → InOrder indices (alternate_payloads net fetch indices)
  unfolding alternate_payloads
  alternate_payloads-InOrder fetch [] = (0, refl, λ ps eq. ground arith)
  alternate_payloads-InOrder fetch (index ∷ indices) =
      after_alternate-InOrder index indices (fetch index) (alternate_payloads net fetch indices)
        (alternate_payloads-InOrder fetch indices)
