-- ===== src/Contract/Resolver/Replies.antt =====
-- The data of resolver.py that its calls exchange with the resolver service, and what a reply of the
-- service is turned into: `_read_bounded_response`, the statuses and the models of a solution.
use pullbox_direct_providers.Prelude.{
  ℕ, ◌+◌, ◌*◌, ◌&&◌, ◌||◌, Option, none, some, List, [], ◌∷◌, ◌++◌, ltb, leb, nat_beq,
  if◌then◌else◌, length, ◌==◌, ℕ_eq, String_eq, String, List_eq,
}
use pullbox_direct_providers.Prelude.Result.{Result, ok, raised, ◌>>=◌, ◌>>◌, require, of_option}
use pullbox_direct_providers.Contract.Models.{ResolverMode, flaresolverr_v1, trawl_scrape}
use pullbox_direct_providers.Contract.Resolver.Challenge.{BrowserChallengeKind, Body}
use pullbox_direct_providers.Contract.Resolver.Target.{ResolverError, fails, fails_retryable}

pub record OrdinaryHttpResponse : Type 0 where
  pub status_code : ℕ
  pub headers : List (String × String)
  pub body : Body

pub record ResolverCookie : Type 0 where
  pub name : String
  pub value : String
  pub domain : Option String
  pub path : Option String

pub record ResolverSolution : Type 0 where
  pub final_url : String
  pub status_code : ℕ
  pub html : String
  pub cookies : List ResolverCookie
  pub user_agent : Option String

pub record ResolverOutcome : Type 0 where
  pub challenge : BrowserChallengeKind
  pub solution : ResolverSolution

-- The reply of the resolver service to the POST: no response in time, a failure of httpx, a
-- cancellation of the caller, or a status and the chunks of the body.
pub data Reply : Type 0 where
  timed_out http_error cancelled : Reply
  response : ℕ → List (List ℕ) → Reply

-- What goes out to the service.
pub record Post : Type 0 where
  pub endpoint : String
  pub headers : List (String × String)
  pub target_url : String
  pub max_timeout : ℕ
  pub mode : ResolverMode

-- An exception of the call.
pub data Raised : Type 0 where
  resolver_error : ResolverError → Raised
  cancellation : Raised

abbrev pub max_response_bytes : ℕ
max_response_bytes = 8 * 1024 * 1024

-- The loop of `_read_bounded_response`, with the size and the bytes read so far.
unfoldable pub read_chunks : ℕ → List ℕ → List (List ℕ) → Result ResolverError (List ℕ)
read_chunks size content [] = ok content
read_chunks size content (chunk ∷ chunks) =
    let rest = read_chunks (size + length chunk) (content ++ chunk) chunks in
    if ltb max_response_bytes (size + length chunk)
    then raised (fails "resolver_response_too_large")
    else rest

-- `_read_bounded_response`
unfoldable pub read_bounded_response : List (List ℕ) → Result ResolverError (List ℕ)
unfolding read_chunks
read_bounded_response chunks = read_chunks 0 [] chunks

-- `json.loads` and the pydantic models; `none` is a decoding or a validation error.
pub record SolutionModels : Type 0 where
  pub response_model : List ℕ → Option (String × ResolverSolution)
  pub trawl_model : List ℕ → Option ResolverSolution

abbrev lift_error : Result ResolverError (List ℕ) → Result Raised (List ℕ)
lift_error (ok a) = ok a
lift_error (raised e) = raised (resolver_error e)

-- The request inside the timeout: the status and the content.
unfoldable pub receive : Reply → Result Raised (ℕ × List ℕ)
receive timed_out = raised (resolver_error (fails_retryable "resolver_timed_out"))
receive http_error = raised (resolver_error (fails_retryable "resolver_unavailable"))
receive cancelled = raised cancellation
receive (response status chunks) =
    if leb 300 status && ltb status 400
    then raised (resolver_error (fails "resolver_endpoint_redirect_rejected"))
    else do content ← lift_error (read_bounded_response chunks); ok (status, content)

unfoldable pub status_error : ℕ → Option ResolverError
status_error status =
    if nat_beq status 401 || nat_beq status 403
    then some (fails "resolver_authentication_failed")
    else if nat_beq status 429
    then some (fails_retryable "resolver_rate_limited")
    else if leb 400 status
    then some (record { code = "resolver_unavailable"; retryable = leb 500 status })
    else none

abbrev pub raise_status : Option ResolverError → Result Raised (Unit {0})
raise_status none = ok tt
raise_status (some e) = raised (resolver_error e)

module _ (models : SolutionModels) where
  unfoldable pub decode_solution : ResolverMode → List ℕ → Result Raised ResolverSolution
  decode_solution trawl_scrape content =
      of_option (resolver_error (fails "resolver_malformed_response")) (models.trawl_model content)
  decode_solution flaresolverr_v1 content = do
    found ←
        of_option (resolver_error (fails "resolver_malformed_response"))
          (models.response_model content)
    require (found.0 == "ok") (resolver_error (fails "resolver_challenge_failed"))
    ok found.1

abbrev pub redirected : Result ResolverError String → Result Raised String
redirected (ok url) = ok url
redirected (raised e) = raised (resolver_error (fails "resolver_redirect_rejected"))
