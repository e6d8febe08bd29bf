-- ===== src/Contract/Resolver/Flow.antt =====
-- `resolve_after_challenge` and `_perform_resolution` of resolver.py. What the call meets outside is
-- an argument: the clock when it enters the slot and when it records a failure, the DNS answers to
-- its two lookups, and the reply of the resolver service.
pub mod Accounting
pub mod Solutions
mod Tests
use pullbox_direct_providers.Prelude.{
  ℕ, Option, none, some, List, [], ◌∷◌, ◌++◌, ◌==◌, if◌then◌else◌, Eq, ℕ_eq, String_eq, String,
  contains, List_eq,
}
use pullbox_direct_providers.Prelude.Dict.{put_all}
use pullbox_direct_providers.Prelude.Result.{◌>>=◌, ◌>>◌, Result, ok, raised}
use pullbox_direct_providers.Contract.Net.{Net, AddressResolver}
use pullbox_direct_providers.Contract.Models.{ResolverProfile}
use pullbox_direct_providers.Contract.Resolver.Challenge.{
  BrowserChallengeKind, detect_browser_challenge,
}
use pullbox_direct_providers.Contract.Resolver.Runtime.{
  Runtime, Entry, admitted, resolver_circuit_open, resolver_busy, enter, leave, record_success,
  record_failure,
}
use pullbox_direct_providers.Contract.Resolver.Target.{
  ResolverError, fails_retryable, validate_source_url, resolver_operation_url,
  validated_auth_headers,
}
use pullbox_direct_providers.Contract.Resolver.Replies.{
  decode_solution, OrdinaryHttpResponse, Post, Raised, Reply, ResolverOutcome, SolutionModels,
  cancellation, raise_status, receive, redirected, resolver_error, status_error,
}

-- The codes after which no failure is recorded.
abbrev pub uncounted : List String
uncounted =
    "resolver_busy" ∷ "resolver_circuit_open" ∷ "resolver_redirect_rejected"
    ∷ "resolver_target_rejected" ∷ []

-- What the call meets outside.
pub record Surroundings : Type 0 where
  pub entered_at : ℕ
  pub failed_at : ℕ
  pub first_lookup : AddressResolver
  pub second_lookup : AddressResolver
  pub answer : Post → Reply

-- The runtime after the call, and the requests that have gone out.
pub record Effects : Type 0 where
  pub runtime : Runtime
  pub posts : List Post

-- The end of the slot's block: on success the success is recorded inside the slot; on an exception
-- the slot is left first, and then a counted code is recorded.
unfoldable pub settle : ℕ → Runtime → Result Raised ResolverOutcome → Runtime
settle now r (ok outcome) = leave (record_success r)
settle now r (raised cancellation) = leave r
settle now r (raised (resolver_error e)) =
    if contains e.code uncounted then leave r else record_failure (leave r) now

abbrev raise_resolver {κ} : {A : Type κ} → Result ResolverError A → Result Raised A
raise_resolver (ok a) = ok a
raise_resolver (raised e) = raised (resolver_error e)

module _ (net : Net) (models : SolutionModels) where
  -- `_perform_resolution`
  unfoldable pub perform_resolution :
      AddressResolver
      → Reply
      → ResolverProfile
      → BrowserChallengeKind
      → Result Raised ResolverOutcome
  perform_resolution resolve reply profile challenge = do
    result ← receive reply
    raise_status (status_error result.0)
    solution ← decode_solution models profile.mode result.1
    final_url ←
        redirected (validate_source_url net resolve solution.final_url profile.declared_domains)
    ok (record { challenge = challenge; solution = record solution { final_url = final_url } })

  -- The headers that the validated ones are merged over.
  abbrev base_headers : List (String × String)
  base_headers = ("Accept", "application/json") ∷ ("Content-Type", "application/json") ∷ []

  -- The request for a target URL, or the error that comes before the slot is asked for.
  unfoldable pub prepared_post :
      AddressResolver → String → ResolverProfile → Result ResolverError Post
  prepared_post resolve source_url profile = do
    target_url ← validate_source_url net resolve source_url profile.declared_domains
    endpoint ← resolver_operation_url net profile
    headers ← validated_auth_headers net profile.authentication_headers
    ok (record {
      endpoint = endpoint;
      headers = put_all headers base_headers;
      target_url = target_url;
      max_timeout = profile.timeout_ms;
      mode = profile.mode;
    })

  -- The block that runs in the slot, and its end.
  unfoldable pub within_slot :
      Surroundings
      → ResolverProfile
      → BrowserChallengeKind
      → Runtime
      → Post
      → Result Raised ResolverOutcome × Effects
  unfolding settle
  within_slot env profile challenge runtime post =
      let result = perform_resolution env.second_lookup (env.answer post) profile challenge in
      (result, record { runtime = settle env.failed_at runtime result; posts = post ∷ [] })

  unfoldable pub ask_slot :
      Surroundings
      → ResolverProfile
      → BrowserChallengeKind
      → Post
      → Runtime × Entry
      → Result Raised ResolverOutcome × Effects
  unfolding within_slot
  ask_slot env profile challenge post (runtime, admitted) =
      within_slot env profile challenge runtime post
  ask_slot env profile challenge post (runtime, resolver_busy) = (
    raised (resolver_error (fails_retryable "resolver_busy")),
    record { runtime = runtime; posts = [] },
  )
  ask_slot env profile challenge post (runtime, resolver_circuit_open) = (
    raised (resolver_error (fails_retryable "resolver_circuit_open")),
    record { runtime = runtime; posts = [] },
  )

  unfoldable pub resolve_prepared :
      Surroundings
      → ResolverProfile
      → BrowserChallengeKind
      → Runtime
      → Result ResolverError Post
      → Result Raised ResolverOutcome × Effects
  unfolding ask_slot
  resolve_prepared env profile challenge runtime (raised e) =
      (raised (resolver_error e), record { runtime = runtime; posts = [] })
  resolve_prepared env profile challenge runtime (ok post) =
      ask_slot env profile challenge post (enter runtime env.entered_at)

  abbrev recognized_or :
      Option BrowserChallengeKind → OrdinaryHttpResponse → Option BrowserChallengeKind
  recognized_or (some kind) ordinary = some kind
  recognized_or none ordinary =
      detect_browser_challenge net ordinary.status_code ordinary.headers ordinary.body

  abbrev some_outcome : Result Raised ResolverOutcome → Result Raised (Option ResolverOutcome)
  some_outcome (ok outcome) = ok (some outcome)
  some_outcome (raised e) = raised e

  -- `resolve_after_challenge`
  unfoldable pub resolve_after_challenge :
      Surroundings
      → OrdinaryHttpResponse
      → String
      → ResolverProfile
      → Option BrowserChallengeKind
      → Runtime
      → Result Raised (Option ResolverOutcome) × Effects
  unfolding resolve_prepared
  resolve_after_challenge env ordinary source_url profile recognized runtime =
      elim (recognized_or recognized ordinary) [
        | none ↦ (ok none, record { runtime = runtime; posts = [] })
        | some challenge ↦
            let (result, effects) =
              resolve_prepared env profile challenge runtime
                (prepared_post env.first_lookup source_url profile) in
            (some_outcome result, effects)
      ]
