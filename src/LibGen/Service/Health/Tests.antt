-- ===== src/LibGen/Service/Health/Tests.antt =====
-- A health report of five sources that fare differently, and the theorem at it.
use pullbox_direct_providers.Prelude.{
  ◌≡◌, refl, true, false, none, some, List, [], ◌∷◌, if◌then◌else◌, ◌==◌, ℕ_eq, String_eq, String,
}
use pullbox_direct_providers.Prelude.Dict.{put}
use pullbox_direct_providers.Prelude.Result.{ok, raised}
use pullbox_direct_providers.Contract.Net.{Url, Net}
use pullbox_direct_providers.LibGen.Service.Origins as Origins
use pullbox_direct_providers.LibGen.Service.Health.{
  ProviderStatus, healthy, rate_limited, challenge_required, unavailable, fetched, fetch_timed_out,
  finished, timed_out, interrupted, close_health_session, Probes, source_health,
}
use pullbox_direct_providers.LibGen.Service.Health.Reports.{IsReport, source_health-IsReport}

abbrev at_host : String → Url
at_host hostname = record {
  scheme = "https";
  netloc = hostname;
  hostname = some hostname;
  username = none;
  password = none;
  port = some none;
  path = "";
  query = "";
  fragment = "";
}

abbrev net : Net
net = record {
  urlsplit = λ s.
      if s == "https://libgen.gl"
      then some (at_host "libgen.gl")
      else if s == "https://libgen.li"
      then some (at_host "libgen.li")
      else if s == "https://libgen.vg"
      then some (at_host "libgen.vg")
      else if s == "https://libgen.la"
      then some (at_host "libgen.la")
      else some (at_host "libgen.bz");
  urlunsplit = λ scheme netloc path query fragment. netloc;
  urljoin = λ base url. none;
  ip_address = λ s. none;
  casefold = λ s. s;
  show = λ n. "";
  decode = λ bytes. "";
  encoded_length = λ s. 0;
}

abbrev probes : Probes
probes = record {
  fetch = λ origin.
      if origin == "https://libgen.li"
      then fetched (raised (Origins.source_error "source_rate_limited" true))
      else if origin == "https://libgen.vg"
      then fetched (raised Origins.challenge_required)
      else if origin == "https://libgen.la"
      then fetch_timed_out
      else fetched (ok "page");
  first_wait = λ origin. if origin == "https://libgen.bz" then timed_out else finished;
  second_wait = λ origin. finished;
}

abbrev report : List (String × ProviderStatus)
report =
    ("libgen.gl", healthy)
    ∷ ("libgen.li", rate_limited)
    ∷ ("libgen.vg", challenge_required)
    ∷ ("libgen.la", unavailable)
    ∷ ("libgen.bz", unavailable)
    ∷ []

reported : source_health net probes ≡ ok report
unfolding source_health put
reported = refl

-- A cancelled request still closes its session, or gives the close up after a second.
cancelled_close :
    (close_health_session interrupted timed_out ≡ (raised Origins.cancelled, true))
    × (close_health_session interrupted finished ≡ (raised Origins.cancelled, false))
unfolding close_health_session
cancelled_close = (refl, refl)

source_health-IsReport_example : IsReport net probes report
source_health-IsReport_example = source_health-IsReport net probes report reported
