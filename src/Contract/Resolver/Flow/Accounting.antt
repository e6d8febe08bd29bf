-- ===== src/Contract/Resolver/Flow/Accounting.antt =====
-- What `resolve_after_challenge` of resolver.py leaves in the runtime.
use pullbox_direct_providers.Prelude.{
  ℕ, ◌+◌, ◌-◌, ◌≡◌, refl, ap, sym, ◌∙◌, inl, inr, Option, List, [], ◌∷◌, arith, if◌then◌else◌, ℕ_eq,
  String_eq, Option-cases, String, contains, List_eq,
}
use pullbox_direct_providers.Prelude.Result.{Result, ok, raised}
use pullbox_direct_providers.Contract.Net.{Net}
use pullbox_direct_providers.Contract.Models.{ResolverProfile}
use pullbox_direct_providers.Contract.Resolver.Challenge.{BrowserChallengeKind}
use pullbox_direct_providers.Contract.Resolver.Runtime.{
  Runtime, Entry, admitted, enter, leave, record_success, record_failure,
}
use pullbox_direct_providers.Contract.Resolver.Target.{ResolverError}
use pullbox_direct_providers.Contract.Resolver.Replies.{
  OrdinaryHttpResponse, ResolverOutcome, Post, Raised, resolver_error, cancellation, SolutionModels,
}
use pullbox_direct_providers.Contract.Resolver.Flow.{
  perform_resolution, uncounted, Surroundings, settle, prepared_post, ask_slot, resolve_prepared,
  resolve_after_challenge, some_outcome, recognized_or,
}

active-record_failure : (r : Runtime) (now : ℕ) → (record_failure r now).active ≡ r.active
unfolding record_failure
active-record_failure r now = ground arith

active-settle :
    (now : ℕ) (r : Runtime) (result : Result Raised ResolverOutcome)
    → (settle now r result).active ≡ r.active - 1
unfolding settle leave record_success
active-settle now r (ok outcome) = refl
active-settle now r (raised cancellation) = refl
active-settle now r (raised (resolver_error e)) =
    ground (arith, active-record_failure (leave r) now)

active-enter :
    (r : Runtime) (now : ℕ)
    → (enter r now).0.active ≡ elim (enter r now).1 [ admitted ↦ r.active + 1 | _ ↦ r.active ]
unfolding enter
active-enter r now = ground arith

-- The failures to expect after a call that found `n`: none is counted where no request went out,
-- a success resets them, and an error counts unless its code is one of `uncounted`.
abbrev pub expected_failures : {A : Type 0} → Result Raised A → List Post → ℕ → ℕ
expected_failures result [] n = n
expected_failures (ok a) (p ∷ posts) n = 0
expected_failures (raised cancellation) (p ∷ posts) n = n
expected_failures (raised (resolver_error e)) (p ∷ posts) n =
    if contains e.code uncounted then n else n + 1

failures-settle :
    (now : ℕ) (r : Runtime) (result : Result Raised ResolverOutcome) (post : Post)
    → (settle now r result).failures ≡ expected_failures result (post ∷ []) r.failures
unfolding settle leave record_success record_failure
failures-settle now r (ok outcome) post = refl
failures-settle now r (raised cancellation) post = refl
failures-settle now r (raised (resolver_error e)) post = ground arith

failures-enter : (r : Runtime) (now : ℕ) → (enter r now).0.failures ≡ r.failures
unfolding enter
failures-enter r now = ground arith

module _ (net : Net) (models : SolutionModels) (env : Surroundings)
    (profile : ResolverProfile) where
  active-ask_slot :
      (kind : BrowserChallengeKind) (post : Post) (entered : Runtime × Entry) (n : ℕ)
      → entered.0.active ≡ elim entered.1 [ admitted ↦ n + 1 | _ ↦ n ]
      → (ask_slot net models env profile kind post entered).1.runtime.active ≡ n
  unfolding ask_slot
  active-ask_slot kind post (r, admitted) n h =
      active-settle env.failed_at r
        (perform_resolution net models env.second_lookup (env.answer post) profile kind)
      ∙ ground arith
  active-ask_slot kind post (r, _) n h = h

  failures-ask_slot :
      (kind : BrowserChallengeKind) (post : Post) (entered : Runtime × Entry) (n : ℕ)
      → entered.0.failures ≡ n
      → (let done = ask_slot net models env profile kind post entered in
          done.1.runtime.failures ≡ expected_failures done.0 done.1.posts n)
  unfolding ask_slot
  failures-ask_slot kind post (r, admitted) n h =
      let result = perform_resolution net models env.second_lookup (env.answer post) profile kind in
      failures-settle env.failed_at r result post ∙ ap (expected_failures result (post ∷ [])) h
  failures-ask_slot kind post (r, _) n h = h

  active-resolve_prepared :
      (kind : BrowserChallengeKind) (r : Runtime) (prepared : Result ResolverError Post)
      → (resolve_prepared net models env profile kind r prepared).1.runtime.active ≡ r.active
  unfolding resolve_prepared
  active-resolve_prepared kind r (raised e) = refl
  active-resolve_prepared kind r (ok post) =
      active-ask_slot kind post (enter r env.entered_at) r.active (active-enter r env.entered_at)

  failures-resolve_prepared :
      (kind : BrowserChallengeKind) (r : Runtime) (prepared : Result ResolverError Post)
      → (let done = resolve_prepared net models env profile kind r prepared in
          done.1.runtime.failures ≡ expected_failures done.0 done.1.posts r.failures)
  unfolding resolve_prepared
  failures-resolve_prepared kind r (raised e) = refl
  failures-resolve_prepared kind r (ok post) =
      failures-ask_slot kind post (enter r env.entered_at) r.failures
        (failures-enter r env.entered_at)

  -- However the call ends, the slot that it took is free again.
  pub active-resolve_after_challenge :
      (ordinary : OrdinaryHttpResponse) (source_url : String)
      (recognized : Option BrowserChallengeKind) (r : Runtime)
      → (resolve_after_challenge net models env ordinary source_url profile recognized
          r).1.runtime.active
        ≡ r.active
  unfolding resolve_after_challenge
  active-resolve_after_challenge ordinary source_url recognized r =
      elim (Option-cases (recognized_or net models recognized ordinary)) [
        | inl quiet ↦ rw (quiet, resolve_after_challenge) refl
        | inr (kind, seen) ↦ rw (seen, resolve_after_challenge) (active-resolve_prepared kind r _)
      ]

  expected-some_outcome :
      (result : Result Raised ResolverOutcome) (posts : List Post) (n : ℕ)
      → expected_failures (some_outcome net models result) posts n
        ≡ expected_failures result posts n
  expected-some_outcome (ok a) [] n = refl
  expected-some_outcome (ok a) (p ∷ posts) n = refl
  expected-some_outcome (raised e) [] n = refl
  expected-some_outcome (raised cancellation) (p ∷ posts) n = refl
  expected-some_outcome (raised (resolver_error e)) (p ∷ posts) n = refl

  -- The failure count after the call is the expected one: unchanged if no request went out, 0 after
  -- a solution, and one more after an error of the request whose code counts.
  pub failures-resolve_after_challenge :
      (ordinary : OrdinaryHttpResponse) (source_url : String)
      (recognized : Option BrowserChallengeKind) (r : Runtime)
      → (let done =
            resolve_after_challenge net models env ordinary source_url profile recognized r in
          done.1.runtime.failures ≡ expected_failures done.0 done.1.posts r.failures)
  unfolding resolve_after_challenge
  failures-resolve_after_challenge ordinary source_url recognized r =
      elim (Option-cases (recognized_or net models recognized ordinary)) [
        | inl quiet ↦ rw (quiet, resolve_after_challenge) refl
        | inr (kind, seen) ↦
            let prepared = prepared_post net models env.first_lookup source_url profile in
            let done = resolve_prepared net models env profile kind r prepared in
            rw (seen, resolve_after_challenge)
              (failures-resolve_prepared kind r prepared
                ∙ sym (expected-some_outcome done.0 done.1.posts r.failures))
      ]
