-- ===== src/Contract/Resolver/Flow/Solutions.antt =====
-- What `resolve_after_challenge` of resolver.py sends and returns.
use mathlib.Core.List.{append-nil, append_assoc}
use pullbox_direct_providers.Prelude.{
  ℕ, ◌+◌, ◌≤◌, ◌≡◌, refl, ap, ◌∙◌, subst, inl, inr, Option, some, List, [], ◌∷◌, ◌++◌, arith, leb,
  if◌then◌else◌, length, ℕ_eq, String_eq, All, Option-cases, String, List_eq,
}
use pullbox_direct_providers.Prelude.Result.{Result, ok, raised, >>=-eq-ok, ok-injective}
use pullbox_direct_providers.Contract.Net.{Net, AddressResolver}
use pullbox_direct_providers.Contract.Models.{ResolverProfile}
use pullbox_direct_providers.Contract.Resolver.Challenge.{BrowserChallengeKind}
use pullbox_direct_providers.Contract.Resolver.Runtime.{Runtime, Entry, admitted, enter}
use pullbox_direct_providers.Contract.Resolver.Target.{
  ResolverError, fails, validate_source_url, resolver_operation_url, validated_auth_headers,
}
use pullbox_direct_providers.Contract.Resolver.Target.Declared.{
  IsValidated, validate_source_url-IsValidated,
}
use pullbox_direct_providers.Contract.Resolver.Replies.{
  decode_solution, OrdinaryHttpResponse, ResolverOutcome, Reply, Post, Raised, max_response_bytes,
  read_chunks, read_bounded_response, SolutionModels, receive, status_error, redirected,
  raise_status,
}
use pullbox_direct_providers.Contract.Resolver.Flow.{
  perform_resolution, Surroundings, prepared_post, ask_slot, resolve_prepared,
  resolve_after_challenge, some_outcome, recognized_or,
}

-- The number of bytes of all chunks.
abbrev pub total : List (List ℕ) → ℕ
total [] = 0
total (chunk ∷ chunks) = length chunk + total chunks

-- b"".join(chunks)
abbrev pub join : List (List ℕ) → List ℕ
join [] = []
join (chunk ∷ chunks) = chunk ++ join chunks

read_chunks_lem :
    (size : ℕ) (content : List ℕ) (chunks : List (List ℕ))
    → size ≤ max_response_bytes
    → read_chunks size content chunks ≡ (
        if leb (size + total chunks) max_response_bytes
        then ok (content ++ join chunks)
        else raised (fails "resolver_response_too_large"))
unfolding read_chunks
read_chunks_lem size content [] h = ground (arith, append-nil content)
read_chunks_lem size content (chunk ∷ chunks) h = ground (
  arith,
  read_chunks_lem (size + length chunk) (content ++ chunk) chunks,
  append_assoc content chunk (join chunks),
)

-- A body of at most 8 MiB in all is read whole and in order, and a larger one is refused.
pub read_bounded_response_lem :
    (chunks : List (List ℕ))
    → read_bounded_response chunks ≡ (
        if leb (total chunks) max_response_bytes
        then ok (join chunks)
        else raised (fails "resolver_response_too_large"))
unfolding read_bounded_response
read_bounded_response_lem chunks = read_chunks_lem 0 [] chunks (omega arith) ∙ ground arith

module _ (net : Net) (models : SolutionModels) where
  redirected-eq-ok :
      (r : Result ResolverError String) {url : String} → redirected r ≡ ok url → r ≡ ok url
  redirected-eq-ok (ok u) h = cc
  redirected-eq-ok (raised e) h = cc

  perform_resolution-IsValidated :
      (resolve : AddressResolver) (reply : Reply) (profile : ResolverProfile)
      (kind : BrowserChallengeKind) (outcome : ResolverOutcome)
      → perform_resolution net models resolve reply profile kind ≡ ok outcome
      → (raw_url : String) × IsValidated net resolve raw_url profile.declared_domains
          outcome.solution.final_url
  unfolding perform_resolution
  perform_resolution-IsValidated resolve reply profile kind outcome h =
      let (result, received, h₁) = >>=-eq-ok (receive reply) _ h in
      let (u, fine, h₂) = >>=-eq-ok (raise_status (status_error result.0)) _ h₁ in
      let (solution, read, h₃) = >>=-eq-ok (decode_solution models profile.mode result.1) _ h₂ in
      let (url, validated, h₄) =
        >>=-eq-ok
          (redirected (validate_source_url net resolve solution.final_url profile.declared_domains))
          _ h₃ in
      let same : url ≡ outcome.solution.final_url =
        ap (λ (o : ResolverOutcome). o.solution.final_url) (ok-injective h₄) in
      (
        solution.final_url,
        subst (IsValidated net resolve solution.final_url profile.declared_domains) same (
            validate_source_url-IsValidated net resolve solution.final_url profile.declared_domains
              url (redirected-eq-ok _ validated)),
      )

  -- The URL of an outcome is validated, against the answers to the second lookup.
  abbrev pub SolutionValid : Surroundings → ResolverProfile → Result Raised ResolverOutcome → Type 0
  SolutionValid env profile (ok outcome) =
      (raw_url : String) × IsValidated net env.second_lookup raw_url profile.declared_domains
        outcome.solution.final_url
  SolutionValid env profile (raised e) = Unit

  -- Each request asks for a validated form of the source URL, against the answers to the first.
  abbrev pub PostsValid : Surroundings → ResolverProfile → String → List Post → Type 0
  PostsValid env profile source_url =
      All
        λ post. IsValidated net env.first_lookup source_url profile.declared_domains post.target_url

  solved-Valid :
      (env : Surroundings) (profile : ResolverProfile) (kind : BrowserChallengeKind)
      (result : Result Raised ResolverOutcome) (reply : Reply)
      → perform_resolution net models env.second_lookup reply profile kind ≡ result
      → SolutionValid env profile result
  solved-Valid env profile kind (ok outcome) reply h =
      perform_resolution-IsValidated env.second_lookup reply profile kind outcome h
  solved-Valid env profile kind (raised e) reply h = tt

  ask_slot-Valid :
      (env : Surroundings) (profile : ResolverProfile) (kind : BrowserChallengeKind)
      (source_url : String) (post : Post) (entered : Runtime × Entry)
      → IsValidated net env.first_lookup source_url profile.declared_domains post.target_url
      → (let done = ask_slot net models env profile kind post entered in
          SolutionValid env profile done.0 × PostsValid env profile source_url done.1.posts)
  unfolding ask_slot
  ask_slot-Valid env profile kind source_url post (r, admitted) v =
      (solved-Valid env profile kind _ (env.answer post) refl, (v, tt))
  ask_slot-Valid env profile kind source_url post (r, _) v = (tt, tt)

  prepared_post-Valid :
      (env : Surroundings) (profile : ResolverProfile) (source_url : String) (post : Post)
      → prepared_post net models env.first_lookup source_url profile ≡ ok post
      → IsValidated net env.first_lookup source_url profile.declared_domains post.target_url
  unfolding prepared_post
  prepared_post-Valid env profile source_url post h =
      let (url, valid, h₁) =
        >>=-eq-ok (validate_source_url net env.first_lookup source_url profile.declared_domains) _
          h in
      let (endpoint, sound, h₂) = >>=-eq-ok (resolver_operation_url net profile) _ h₁ in
      let (headers, safe, h₃) =
        >>=-eq-ok (validated_auth_headers net profile.authentication_headers) _ h₂ in
      let same : url ≡ post.target_url = ap (λ (p : Post). p.target_url) (ok-injective h₃) in
      subst (IsValidated net env.first_lookup source_url profile.declared_domains) same (
        validate_source_url-IsValidated net env.first_lookup source_url profile.declared_domains url
          valid)

  resolve_prepared-Valid :
      (env : Surroundings) (profile : ResolverProfile) (kind : BrowserChallengeKind)
      (source_url : String) (r : Runtime) (prepared : Result ResolverError Post)
      → prepared_post net models env.first_lookup source_url profile ≡ prepared
      → (let done = resolve_prepared net models env profile kind r prepared in
          SolutionValid env profile done.0 × PostsValid env profile source_url done.1.posts)
  unfolding resolve_prepared
  resolve_prepared-Valid env profile kind source_url r (raised e) h = (tt, tt)
  resolve_prepared-Valid env profile kind source_url r (ok post) h =
      ask_slot-Valid env profile kind source_url post (enter r env.entered_at)
        (prepared_post-Valid env profile source_url post h)

  abbrev pub OptionalSolutionValid :
      Surroundings → ResolverProfile → Result Raised (Option ResolverOutcome) → Type 0
  OptionalSolutionValid env profile (ok (some outcome)) = SolutionValid env profile (ok outcome)
  OptionalSolutionValid env profile _ = Unit

  some_outcome-Valid :
      (env : Surroundings) (profile : ResolverProfile) (result : Result Raised ResolverOutcome)
      → SolutionValid env profile result
      → OptionalSolutionValid env profile (some_outcome net models result)
  some_outcome-Valid env profile (ok outcome) v = v
  some_outcome-Valid env profile (raised e) v = tt

  -- Whatever the resolver service answers: each request that goes out asks for a validated form of
  -- the source URL, and the URL of a returned solution is validated against the declared domains.
  pub resolve_after_challenge-Valid :
      (env : Surroundings) (ordinary : OrdinaryHttpResponse) (source_url : String)
      (profile : ResolverProfile) (recognized : Option BrowserChallengeKind) (r : Runtime)
      → (let done =
            resolve_after_challenge net models env ordinary source_url profile recognized r in
          OptionalSolutionValid env profile done.0 × PostsValid env profile source_url done.1.posts)
  unfolding resolve_after_challenge
  resolve_after_challenge-Valid env ordinary source_url profile recognized r =
      elim (Option-cases (recognized_or net models recognized ordinary)) [
        | inl quiet ↦ rw (quiet, resolve_after_challenge) (tt, tt)
        | inr (kind, seen) ↦
            let prepared = prepared_post net models env.first_lookup source_url profile in
            let (solved, posted) =
              resolve_prepared-Valid env profile kind source_url r prepared refl in
            rw (seen, resolve_after_challenge) (some_outcome-Valid env profile _ solved, posted)
      ]
