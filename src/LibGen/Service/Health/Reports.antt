-- ===== src/LibGen/Service/Health/Reports.antt =====
-- What the health report of service.py says of each known source.
use pullbox_direct_providers.Prelude.{
  ◌≡◌, refl, ap, sym, subst, ◌⊎◌, inl, inr, Bool, true, false, some, List, [], ◌∷◌, if◌then◌else◌,
  ◌==◌, ℕ_eq, String_eq, String, All, Bool-cases, contains, eq_iff,
}
use pullbox_direct_providers.Prelude.Dict.{lookup, put, lookup-put, lookup-put_self}
use pullbox_direct_providers.Prelude.Result.{Result, ok, raised, >>=-eq-ok, ok-injective}
use pullbox_direct_providers.Contract.Net.{Net}
use pullbox_direct_providers.LibGen.Service.Origins.{ServiceError, known_source_urls}
use pullbox_direct_providers.LibGen.Service.Origins as Origins
use pullbox_direct_providers.LibGen.Service.Health.{
  ProviderStatus, healthy, rate_limited, challenge_required, unavailable, FetchEnd, fetched,
  fetch_timed_out, WaitEnd, finished, timed_out, interrupted, failed, closed_anyway,
  close_health_session, Probes, fetch_status, closed_status, source_health_probe, host_of, results,
  source_health,
}

-- A fetch that brought no page, for no challenge and no rate limit.
abbrev pub Unserved : FetchEnd → Type 0
Unserved fetch_timed_out = Unit
Unserved (fetched (raised (Origins.resolver_error e))) = Unit
Unserved (fetched (raised (Origins.source_error code retryable))) =
    (code == "source_rate_limited") ≡ false
Unserved _ = ⊥

-- What has to have happened for a status.
abbrev pub SeenAs : ProviderStatus → FetchEnd → WaitEnd → Type 0
SeenAs healthy fetch wait = ((page : String) × (fetch ≡ fetched (ok page))) × (wait ≡ finished)
SeenAs challenge_required fetch wait =
    (fetch ≡ fetched (raised Origins.challenge_required)) × (wait ≡ finished)
SeenAs rate_limited fetch wait =
    ((retryable : Bool) × (fetch
        ≡ fetched (raised (Origins.source_error "source_rate_limited" retryable))))
    × (wait ≡ finished)
SeenAs unavailable fetch wait = ((wait ≡ finished) × Unserved fetch) ⊎ (wait ≡ timed_out)
SeenAs _ fetch wait = ⊥

source_status-SeenAs :
    (code : String) (retryable : Bool) (status : ProviderStatus)
    → Path
        (Result ServiceError ProviderStatus)
        (if code == "source_rate_limited" then ok rate_limited else ok unavailable)
        (ok status)
    → SeenAs status (fetched (raised (Origins.source_error code retryable))) finished
source_status-SeenAs code retryable status h = elim (Bool-cases (code == "source_rate_limited")) [
  | inl limited ↦
      subst (λ s. SeenAs s (fetched (raised (Origins.source_error code retryable))) finished)
        (ok-injective (rw limited at h))
        (
          (
            retryable,
            ap (λ c. fetched (raised (Origins.source_error c retryable)))
                ((eq_iff code "source_rate_limited").0 limited),
          ),
          refl,
        )
  | inr other ↦
      subst (λ s. SeenAs s (fetched (raised (Origins.source_error code retryable))) finished)
        (ok-injective (rw other at h)) (inl (refl, other))
]

fetch_status-SeenAs :
    (fetch : FetchEnd) (status : ProviderStatus)
    → fetch_status fetch ≡ ok status
    → SeenAs status fetch finished
unfolding fetch_status
fetch_status-SeenAs (fetched (ok page)) status h =
    subst (λ s. SeenAs s (fetched (ok page)) finished) (ok-injective h) ((page, refl), refl)
fetch_status-SeenAs (fetched (raised Origins.challenge_required)) status h =
    subst (λ s. SeenAs s (fetched (raised Origins.challenge_required)) finished) (ok-injective h)
      (refl, refl)
fetch_status-SeenAs (fetched (raised (Origins.source_error code retryable))) status h =
    source_status-SeenAs code retryable status h
fetch_status-SeenAs (fetched (raised (Origins.resolver_error e))) status h =
    subst (λ s. SeenAs s (fetched (raised (Origins.resolver_error e))) finished) (ok-injective h)
      (inl (refl, tt))
fetch_status-SeenAs fetch_timed_out status h =
    subst (λ s. SeenAs s fetch_timed_out finished) (ok-injective h) (inl (refl, tt))
fetch_status-SeenAs (fetched (raised Origins.origin_error)) status h = cc
fetch_status-SeenAs (fetched (raised Origins.layout_error)) status h = cc
fetch_status-SeenAs (fetched (raised Origins.metadata_error)) status h = cc
fetch_status-SeenAs (fetched (raised Origins.value_error)) status h = cc
fetch_status-SeenAs (fetched (raised Origins.cancelled)) status h = cc
fetch_status-SeenAs (fetched (raised Origins.other_error)) status h = cc

late-SeenAs :
    (fetch : FetchEnd) (found : Result ServiceError ProviderStatus) (status : ProviderStatus)
    → closed_status (ok false) found ≡ ok status
    → SeenAs status fetch timed_out
late-SeenAs fetch (ok found) status h =
    subst (λ s. SeenAs s fetch timed_out) (ok-injective h) (inr refl)
late-SeenAs fetch (raised e) status h = cc

interrupted-raises :
    (second : WaitEnd) (found : Result ServiceError ProviderStatus) (status : ProviderStatus)
    → closed_status (closed_anyway second).0 found ≡ ok status
    → ⊥
interrupted-raises finished found status h = cc
interrupted-raises timed_out found status h = cc
interrupted-raises interrupted found status h = cc
interrupted-raises (failed e) found status h = cc

probe-SeenAs :
    (fetch : FetchEnd) (first second : WaitEnd) (status : ProviderStatus)
    → closed_status (close_health_session first second).0 (fetch_status fetch) ≡ ok status
    → SeenAs status fetch first
unfolding close_health_session
probe-SeenAs fetch finished second status h = fetch_status-SeenAs fetch status h
probe-SeenAs fetch timed_out second status h = late-SeenAs fetch (fetch_status fetch) status h
probe-SeenAs fetch interrupted second status h =
    absurd (interrupted-raises second (fetch_status fetch) status h)
probe-SeenAs fetch (failed e) second status h = cc

module _ (net : Net) (probes : Probes) where
  -- An entry of the report: the status of a known origin, under its host.
  abbrev pub Reported : String × ProviderStatus → Type 0
  Reported (host, status) =
      (origin : String) × (contains origin known_source_urls ≡ true)
      × (host_of net probes origin ≡ ok host)
      × SeenAs status (probes.fetch origin) (probes.first_wait origin)

  -- The host of an origin has an entry.
  abbrev pub Listed : List (String × ProviderStatus) → String → Type 0
  Listed report origin =
      (host : String) × (status : ProviderStatus) × (host_of net probes origin ≡ ok host)
      × (lookup host report ≡ some status)

  put-Reported :
      (host : String) (status : ProviderStatus) (report : List (String × ProviderStatus))
      → Reported (host, status)
      → All Reported report
      → All Reported (put host status report)
  unfolding put
  put-Reported host status [] h hs = (h, tt)
  put-Reported host status ((k, s) ∷ report) h (this, hs) = elim (Bool-cases (k == host)) [
    | inl same ↦
        rw (same, put) (subst (λ c. Reported (c, status)) (sym ((eq_iff k host).0 same)) h, hs)
    | inr other ↦ rw (other, put) (this, put-Reported host status report h hs)
  ]

  put-Listed :
      (host : String) (status : ProviderStatus) (report : List (String × ProviderStatus))
      (origin : String)
      → Listed report origin
      → Listed (put host status report) origin
  put-Listed host status report origin (k, s, named, found) = elim (Bool-cases (host == k)) [
    | inl same ↦ (k, status, named, rw (lookup-put host k status report) (rw same refl))
    | inr other ↦ (k, s, named, rw (lookup-put host k status report) (rw other found))
  ]

  -- The origins that are still to come are known, and those before them are listed.
  results-Reported :
      (report final : List (String × ProviderStatus)) (origins : List String)
      → All (λ origin. contains origin known_source_urls ≡ true) origins
      → All Reported report
      → results net probes report origins ≡ ok final
      → All Reported final
        × All (Listed final) origins
        × ((origin : String) → Listed report origin → Listed final origin)
  unfolding results source_health_probe
  results-Reported report final [] known reported h =
      subst
        (λ r. All Reported r × Unit × ((origin : String) → Listed report origin → Listed r origin))
        (ok-injective h) (reported, tt, λ origin l. l)
  results-Reported report final (origin ∷ origins) (this, known) reported h =
      let (host, named, r₁) = >>=-eq-ok (host_of net probes origin) _ h in
      let (status, probed, r₂) = >>=-eq-ok (source_health_probe net probes origin) _ r₁ in
      let seen =
        probe-SeenAs (probes.fetch origin) (probes.first_wait origin) (probes.second_wait origin)
          status probed in
      let (entries, listed, kept) =
        results-Reported (put host status report) final origins known
          (put-Reported host status report (origin, this, named, seen) reported) r₂ in
      (
        entries,
        (kept origin (host, status, named, lookup-put_self host status report), listed),
        λ other l. kept other (put-Listed host status report other l),
      )

  pub record IsReport (report : List (String × ProviderStatus)) : Type 0 where
    pub entries : All Reported report
    pub complete : All (Listed report) known_source_urls

  all_known : All (λ origin. contains origin known_source_urls ≡ true) known_source_urls
  all_known = (refl, (refl, (refl, (refl, (refl, tt)))))

  source_health-ok :
      (b : Bool) (r : Result ServiceError (List (String × ProviderStatus)))
      (report : List (String × ProviderStatus))
      → (if b then raised Origins.other_error else r) ≡ ok report
      → r ≡ ok report
  source_health-ok true r report h = cc
  source_health-ok false r report h = h

  -- A health report that is returned has an entry for the host of each of the five known sources,
  -- and no other. It calls a source healthy only if its page was fetched in time, challenged or rate
  -- limited only if the fetch ended so, each with the session closed in time, and unavailable only
  -- if the fetch ended otherwise or the session was not closed in time.
  pub source_health-IsReport :
      (report : List (String × ProviderStatus))
      → source_health net probes ≡ ok report
      → IsReport report
  unfolding source_health
  source_health-IsReport report h =
      let (entries, complete, _) =
        results-Reported [] report known_source_urls all_known tt (source_health-ok _ _ report h) in
      record { entries = entries; complete = complete }
