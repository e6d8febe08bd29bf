-- ===== src/LibGen/Service/Search.antt =====
-- `_search_origin`, `_search` and `_resolve` of service.py. The session is the protocol that the
-- service gets from its factory; the parser of parser.py and the builder of metadata.py are
-- arguments here, and so are the clock's readings.
use Prim.Native.String
use mathlib.Core.Option.{map}
use pullbox_direct_providers.Prelude.{
  ℕ, suc, Bool, true, false, not, ◌&&◌, Option, none, some, List, [], ◌∷◌, ◌++◌, leb, if◌then◌else◌,
  length, ℕ_eq, String_eq, String, contains, take,
}
use pullbox_direct_providers.Prelude.Result.{Result, ok, raised, ◌>>=◌}
use pullbox_direct_providers.Prelude.Text.{is_empty, text_take}
use pullbox_direct_providers.Contract.Net.{Net, AddressResolver}
use pullbox_direct_providers.Contract.SearchTerms.{Unicode}
use pullbox_direct_providers.Contract.Models.{SearchIntent}
use pullbox_direct_providers.LibGen.Cache.{BoundedTtlCache, CacheLookup, new, get, set}
use pullbox_direct_providers.LibGen.Service.Origins.{
  ServiceError, layout_error, metadata_error, challenge_required, source_error, resolver_error,
  operation_origins,
}
use pullbox_direct_providers.LibGen.Service.Queries.{build_queries, title_fallback_query}

-- What a search meets outside, for records `D` of a result page and candidates `C`, by origin and
-- the number of the request in the session.
pub record Source (D C : Type 0) : Type 0 where
  pub fetch_text : String → ℕ → String → Result ServiceError String
  pub parse_search_html : String → String → Result ServiceError (List D)
  pub build_discovered_candidate : D → Result ServiceError C
  pub md5 : D → String
  -- urlencode, and the JSON of an intent
  pub urlencode : List (String × String) → String
  pub model_dump_json : SearchIntent → String
  -- the clock at the `get` and at the `set` of an origin's search
  pub read_at : String → ℕ
  pub written_at : String → ℕ

-- The sessions' events.
pub data SessionEvent : Type 0 where
  session_opened session_closed : SessionEvent
  fetched : String → SessionEvent

abbrev pub search_parameters : String → List (String × String)
search_parameters query =
    ("req", text_take 500 query)
    ∷ ("columns[]", "t")
    ∷ ("columns[]", "s")
    ∷ ("objects[]", "f")
    ∷ ("topics[]", "c")
    ∷ ("res", "25")
    ∷ ("filesuns", "all")
    ∷ []

-- The round of a failover after an error: whether the next origin is tried.
unfoldable pub search_moves_on : ServiceError → Bool
search_moves_on challenge_required = true
search_moves_on layout_error = true
search_moves_on (resolver_error e) = true
search_moves_on (source_error code retryable) = retryable
search_moves_on _ = false

unfoldable pub resolve_moves_on : ServiceError → Bool
resolve_moves_on challenge_required = true
resolve_moves_on metadata_error = true
resolve_moves_on (resolver_error e) = true
resolve_moves_on (source_error code retryable) = retryable
resolve_moves_on _ = false

-- The cache and the events of all sessions.
pub record SearchState (C : Type 0) : Type 0 where
  pub search_cache : BoundedTtlCache String (List C)
  pub events : List SessionEvent

-- The state of a new service; `none` stands for the ValueError of the cache's constructor.
unfoldable pub new_search_state : {C : Type 0} → Option (SearchState C)
unfolding new
new_search_state = map (λ cache. record { search_cache = cache; events = [] }) (new 512 600 120)

module _ {A S : Type 0} (moves_on : ServiceError → Bool)
    (attempt : S → String → Result ServiceError (List A) × S) where
  abbrev pub last_or_empty : Option ServiceError → Result ServiceError (List A)
  last_or_empty none = ok []
  last_or_empty (some e) = raised e

  -- The loop over the origins, with the last error; `then_` is what the rest of the loop does.
  unfoldable pub after_attempt :
      Result ServiceError (List A) × S
      → (S → ServiceError → Result ServiceError (List A) × S)
      → Result ServiceError (List A) × S
  after_attempt (ok found, s) then_ = (ok found, s)
  after_attempt (raised e, s) then_ = if moves_on e then then_ s e else (raised e, s)

  unfoldable pub failover : S → Option ServiceError → List String → Result ServiceError (List A) × S
  unfolding after_attempt
  failover s last_error [] = (last_or_empty last_error, s)
  failover s last_error (origin ∷ origins) =
      after_attempt (attempt s origin) (λ s' e. failover s' (some e) origins)

module _ {D C : Type 0} (net : Net) (unicode : Unicode) (source : Source D C) where
  unfoldable pub search_url : String → String → String
  unfolding text_take
  search_url origin query =
      String.◌++◌ origin (String.◌++◌ "/index.php?" (source.urlencode (search_parameters query)))

  unfoldable pub cache_key : String → ℕ → SearchIntent → String
  cache_key origin limit intent = String.◌++◌ origin (
      String.◌++◌ ":"
        (String.◌++◌ (net.show limit) (String.◌++◌ ":" (source.model_dump_json intent))))

  -- The records whose MD5 was not seen yet, and the MD5s seen by now.
  unfoldable pub unseen : List String → List D → List D × List String
  unseen seen [] = ([], seen)
  unseen seen (d ∷ ds) =
      let skipped = unseen seen ds in
      let (found, after) = unseen (source.md5 d ∷ seen) ds in
      if contains (source.md5 d) seen then skipped else (d ∷ found, after)

  -- Candidates are added until there are `limit`.
  unfoldable pub add_candidates : ℕ → List C → List D → Result ServiceError (List C)
  add_candidates limit candidates [] = ok candidates
  add_candidates limit candidates (d ∷ ds) = do
    c ← source.build_discovered_candidate d
    let added = candidates ++ c ∷ []
    let rest = add_candidates limit added ds
    if leb limit (length added) then ok added else rest

  -- What the session has found: the candidates and the MD5s seen.
  abbrev pub Found : Type 0
  Found = List C × List String

  abbrev with_seen : List String → Result ServiceError (List C) → Result ServiceError Found
  with_seen seen (ok candidates) = ok (candidates, seen)
  with_seen seen (raised e) = raised e

  -- `collect_query`, for the k-th request of the session
  unfoldable pub collect_query : String → ℕ → ℕ → String → Found → Result ServiceError Found
  unfolding unseen add_candidates search_url
  collect_query origin limit k query (candidates, seen) = do
    html ← source.fetch_text origin k (search_url origin query)
    discovered ← source.parse_search_html html origin
    let (discoveries, seen') = unseen seen discovered
    with_seen seen' (add_candidates limit candidates discoveries)

  abbrev is_nonempty : List C → Bool
  is_nonempty [] = false
  is_nonempty (c ∷ cs) = true

  -- A run of queries until one has candidates, with the events of their requests.
  unfoldable pub after_query :
      Result ServiceError Found
      → (Found → Result ServiceError Found × List SessionEvent)
      → SessionEvent
      → Result ServiceError Found × List SessionEvent
  after_query (raised e) then_ event = (raised e, event ∷ [])
  after_query (ok (candidates, seen)) then_ event =
      let (result, events) = then_ (candidates, seen) in
      if is_nonempty candidates
      then (ok (candidates, seen), event ∷ [])
      else (result, event ∷ events)

  unfoldable pub run_queries :
      String → ℕ → ℕ → List String → Found → Result ServiceError Found × List SessionEvent
  unfolding after_query collect_query
  run_queries origin limit k [] found = (ok found, [])
  run_queries origin limit k (query ∷ queries) found =
      after_query (collect_query origin limit k query found)
        (run_queries origin limit (suc k) queries) (fetched (search_url origin query))

  -- The exact queries, and behind them the title alone if it is no exact query.
  unfoldable pub session_queries : SearchIntent → List String
  unfolding build_queries title_fallback_query
  session_queries intent =
      let exact = build_queries net unicode intent in
      let fallback = title_fallback_query net unicode intent in
      if not (is_empty fallback) && not (contains fallback exact)
      then exact ++ fallback ∷ []
      else exact

  -- result or None
  abbrev pub cached_value : List C → Option (List C)
  cached_value [] = none
  cached_value (c ∷ cs) = some (c ∷ cs)

  -- list(cached.value or ())
  abbrev pub listed : Option (List C) → List C
  listed none = []
  listed (some cs) = cs

  unfoldable pub finish_search :
      String
      → ℕ
      → String
      → SearchState C
      → Result ServiceError Found × List SessionEvent
      → Result ServiceError (List C) × SearchState C
  finish_search origin limit key s (raised e, events) = (
    raised e,
    record s { events = s.events ++ (session_opened ∷ (events ++ session_closed ∷ [])) },
  )
  finish_search origin limit key s (ok (candidates, seen), events) =
      let result = take limit candidates in
      (
        ok result,
        record {
          search_cache = set s.search_cache (source.written_at origin) key (cached_value result);
          events = s.events ++ (session_opened ∷ (events ++ session_closed ∷ []));
        },
      )

  -- A search of an origin whose answer is not cached.
  unfoldable pub search_session :
      String → ℕ → SearchIntent → SearchState C → Result ServiceError (List C) × SearchState C
  unfolding finish_search run_queries session_queries cache_key
  search_session origin limit intent s =
      finish_search origin limit (cache_key origin limit intent) s
        (run_queries origin limit 0 (session_queries intent) ([], []))

  abbrev pub cached_or :
      CacheLookup (List C)
      → SearchState C
      → Result ServiceError (List C) × SearchState C
      → Result ServiceError (List C) × SearchState C
  cached_or cached s fresh = if cached.hit then (ok (listed cached.value), s) else fresh

  -- `_search_origin`
  unfoldable pub search_origin :
      ℕ → SearchIntent → SearchState C → String → Result ServiceError (List C) × SearchState C
  unfolding search_session cache_key
  search_origin limit intent s origin =
      let (cache, cached) =
        get s.search_cache (source.read_at origin) (cache_key origin limit intent) in
      let s' = record s { search_cache = cache } in
      cached_or cached s' (search_session origin limit intent s')

  abbrev pub over_origins :
      ℕ
      → SearchIntent
      → SearchState C
      → Result ServiceError (List String)
      → Result ServiceError (List C) × SearchState C
  over_origins limit intent s (raised e) = (raised e, s)
  over_origins limit intent s (ok origins) =
      failover search_moves_on (search_origin limit intent) s none origins

  -- `_search`
  unfoldable pub search :
      AddressResolver
      → ℕ
      → SearchIntent
      → Option String
      → SearchState C
      → Result ServiceError (List C) × SearchState C
  unfolding search_origin
  search resolve limit intent source_url s =
      over_origins limit intent s (operation_origins net resolve source_url)
