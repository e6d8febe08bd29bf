-- ===== src/LibGen/Service/Health.antt =====
-- `source_health`, `_source_health_probe`, `_close_health_session` and `_cancel_health_close_task` of
-- service.py. How a fetch and the waits for a close end, timeouts included, is an argument.
pub mod Reports
mod Tests
use Prim.Native.String
use pullbox_direct_providers.Prelude.{
  Bool, true, false, ◌&&◌, Option, none, some, List, [], ◌∷◌, if◌then◌else◌, any, ◌==◌, ℕ_eq,
  String_eq, String,
}
use pullbox_direct_providers.Prelude.Dict.{put}
use pullbox_direct_providers.Prelude.Result.{Result, ok, raised, ◌>>=◌, of_option}
use pullbox_direct_providers.Prelude.Text.{is_empty}
use pullbox_direct_providers.Contract.Net.{Net}
use pullbox_direct_providers.LibGen.Service.Origins.{
  ServiceError, value_error, other_error, cancelled, known_source_urls,
}
use pullbox_direct_providers.LibGen.Service.Origins as Origins

pub data ProviderStatus : Type 0 where
  healthy degraded rate_limited challenge_required authentication_required : ProviderStatus
  incompatible unavailable : ProviderStatus

-- How the fetch of a probe ends within its five seconds.
pub data FetchEnd : Type 0 where
  fetched : Result ServiceError String → FetchEnd
  fetch_timed_out : FetchEnd

-- How a wait for the close of a session ends: it is closed, the second is over, closing raises, or
-- the waiting task is cancelled.
pub data WaitEnd : Type 0 where
  finished timed_out interrupted : WaitEnd
  failed : ServiceError → WaitEnd

-- The wait after a cancellation, which is raised again, and whether the close is cancelled.
abbrev pub closed_anyway : WaitEnd → Result ServiceError Bool × Bool
closed_anyway finished = (raised cancelled, false)
closed_anyway timed_out = (raised cancelled, true)
closed_anyway interrupted = (raised cancelled, false)
closed_anyway (failed e) = (raised e, false)

-- `_close_health_session`, of its two waits; and whether the close is cancelled
unfoldable pub close_health_session : WaitEnd → WaitEnd → Result ServiceError Bool × Bool
close_health_session finished second = (ok true, false)
close_health_session timed_out second = (ok false, true)
close_health_session interrupted second = closed_anyway second
close_health_session (failed e) second = (raised e, false)

-- What a probe meets outside, by origin.
pub record Probes : Type 0 where
  pub fetch : String → FetchEnd
  pub first_wait : String → WaitEnd
  pub second_wait : String → WaitEnd

-- The status before the session is closed.
unfoldable pub fetch_status : FetchEnd → Result ServiceError ProviderStatus
fetch_status (fetched (ok page)) = ok healthy
fetch_status (fetched (raised Origins.challenge_required)) = ok challenge_required
fetch_status (fetched (raised (Origins.source_error code retryable))) =
    if code == "source_rate_limited" then ok rate_limited else ok unavailable
fetch_status (fetched (raised (Origins.resolver_error e))) = ok unavailable
fetch_status (fetched (raised e)) = raised e
fetch_status fetch_timed_out = ok unavailable

-- The `finally` block: a close that raises wins, and one that is late spoils the status.
abbrev pub closed_status :
    Result ServiceError Bool
    → Result ServiceError ProviderStatus
    → Result ServiceError ProviderStatus
closed_status (raised e) status = raised e
closed_status (ok true) status = status
closed_status (ok false) (ok status) = ok unavailable
closed_status (ok false) (raised e) = raised e

module _ (net : Net) (probes : Probes) where
  -- `_source_health_probe`
  unfoldable pub source_health_probe : String → Result ServiceError ProviderStatus
  unfolding close_health_session fetch_status
  source_health_probe origin =
      closed_status (close_health_session (probes.first_wait origin) (probes.second_wait origin)).0
        (fetch_status (probes.fetch origin))

  abbrev probe_failed : Result ServiceError ProviderStatus → Bool
  probe_failed (ok status) = false
  probe_failed (raised cancelled) = false
  probe_failed (raised e) = true

  -- urlsplit(origin).hostname or origin
  abbrev or_origin : Option String → String → String
  or_origin none origin = origin
  or_origin (some s) origin = if is_empty s then origin else s

  abbrev pub host_of : String → Result ServiceError String
  host_of origin = do
    parsed ← of_option value_error (net.urlsplit origin)
    ok (or_origin parsed.hostname origin)

  -- The dict of the results, in the order of the origins: `task.result()` raises the cancellation of
  -- a task.
  unfoldable pub results :
      List (String × ProviderStatus)
      → List String
      → Result ServiceError (List (String × ProviderStatus))
  unfolding source_health_probe
  results report [] = ok report
  results report (origin ∷ origins) = do
    host ← host_of origin
    status ← source_health_probe origin
    results (put host status report) origins

  -- `source_health`: the group raises if a probe raised anything but a cancellation.
  unfoldable pub source_health : Result ServiceError (List (String × ProviderStatus))
  unfolding source_health_probe results
  source_health =
      if any (λ origin. probe_failed (source_health_probe origin)) known_source_urls
      then raised other_error
      else results [] known_source_urls
