-- ===== src/LibGen/Service/Sessions.antt =====
-- The sessions of a LibGen search.
use pullbox_direct_providers.Prelude.{
  ℕ, suc, ◌+◌, ◌≤◌, ◌≡◌, refl, inl, inr, Option, none, some, List, [], ◌∷◌, ◌++◌, arith, length,
  ℕ_eq, String_eq, Bool-cases, String,
}
use pullbox_direct_providers.Prelude.Result.{Result, ok, raised}
use pullbox_direct_providers.Contract.Net.{Net, AddressResolver}
use pullbox_direct_providers.Contract.SearchTerms.{Unicode}
use pullbox_direct_providers.Contract.Models.{SearchIntent}
use pullbox_direct_providers.LibGen.Cache.{CacheLookup, get}
use pullbox_direct_providers.LibGen.Service.Origins.{ServiceError, operation_origins}
use pullbox_direct_providers.LibGen.Service.Origins.Public.{
  AreOrigins, operation_origins-AreOrigins,
}
use pullbox_direct_providers.LibGen.Service.Search.{
  Source, SessionEvent, session_opened, session_closed, fetched, search_moves_on, after_attempt,
  failover, cache_key, search_url, Found, collect_query, after_query, run_queries, session_queries,
  SearchState, finish_search, search_session, cached_or, search_origin, over_origins, search,
}

-- How many sessions were opened, and how many closed.
abbrev pub opened : List SessionEvent → ℕ
opened [] = 0
opened (session_opened ∷ events) = suc (opened events)
opened (_ ∷ events) = opened events

abbrev pub closed : List SessionEvent → ℕ
closed [] = 0
closed (session_closed ∷ events) = suc (closed events)
closed (_ ∷ events) = closed events

opened-append : (a b : List SessionEvent) → opened (a ++ b) ≡ opened a + opened b
opened-append [] b = omega arith
opened-append (session_opened ∷ a) b = omega (arith, opened-append a b)
opened-append (session_closed ∷ a) b = opened-append a b
opened-append (fetched url ∷ a) b = opened-append a b

closed-append : (a b : List SessionEvent) → closed (a ++ b) ≡ closed a + closed b
closed-append [] b = omega arith
closed-append (session_opened ∷ a) b = closed-append a b
closed-append (session_closed ∷ a) b = omega (arith, closed-append a b)
closed-append (fetched url ∷ a) b = closed-append a b

-- From one list of events to a later one: as many sessions closed as opened, so many at most.
pub record Sessions (n : ℕ) (before after : List SessionEvent) : Type 0 where
  pub balanced : opened after + closed before ≡ closed after + opened before
  pub few : opened after ≤ opened before + n

Sessions-trans :
    (m n l : ℕ) (a b c : List SessionEvent)
    → m + n ≤ l
    → Sessions m a b
    → Sessions n b c
    → Sessions l a c
Sessions-trans m n l a b c le h k =
    let balanced_h = h.balanced in
    let balanced_k = k.balanced in
    let few_h = h.few in let few_k = k.few in record { balanced = omega arith; few = omega arith }

Sessions-refl : (n : ℕ) (a : List SessionEvent) → Sessions n a a
Sessions-refl n a = record { balanced = omega arith; few = omega arith }

-- Events of requests alone.
abbrev OnlyFetches : List SessionEvent → Type 0
OnlyFetches events = (opened events ≡ 0) × (closed events ≡ 0)

one_session :
    (before events : List SessionEvent)
    → OnlyFetches events
    → Sessions 1 before (before ++ (session_opened ∷ (events ++ session_closed ∷ [])))
one_session before events (no_opened, no_closed) =
    let all = session_opened ∷ (events ++ session_closed ∷ []) in
    record {
      balanced = omega (
        arith,
        opened-append before all,
        closed-append before all,
        opened-append events (session_closed ∷ []),
        closed-append events (session_closed ∷ []),
      );
      few = omega (arith, opened-append before all, opened-append events (session_closed ∷ []));
    }

length-AreOrigins-le :
    (net : Net) (resolve : AddressResolver) (source_url : Option String) (origins : List String)
    → AreOrigins net resolve source_url origins
    → length origins + 0 ≤ 2
length-AreOrigins-le net resolve source_url [] h = absurd h
length-AreOrigins-le net resolve source_url (a ∷ []) h = omega arith
length-AreOrigins-le net resolve source_url (a ∷ b ∷ []) h = omega arith
length-AreOrigins-le net resolve source_url (a ∷ b ∷ c ∷ rest) (h, k) = absurd k

module _ {D C : Type 0} (net : Net) (unicode : Unicode) (source : Source D C) where
  after_query-OnlyFetches :
      (result : Result ServiceError (Found net unicode source))
      (then_ : Found net unicode source
        → Result ServiceError (Found net unicode source) × List SessionEvent)
      (url : String)
      → ((found : Found net unicode source) → OnlyFetches (then_ found).1)
      → OnlyFetches (after_query net unicode source result then_ (fetched url)).1
  unfolding after_query
  after_query-OnlyFetches (raised e) then_ url h = (refl, refl)
  after_query-OnlyFetches (ok ([], seen)) then_ url h = h ([], seen)
  after_query-OnlyFetches (ok (c ∷ cs, seen)) then_ url h = (refl, refl)

  run_queries-OnlyFetches :
      (origin : String) (limit k : ℕ) (queries : List String) (found : Found net unicode source)
      → OnlyFetches (run_queries net unicode source origin limit k queries found).1
  unfolding run_queries
  run_queries-OnlyFetches origin limit k [] found = (refl, refl)
  run_queries-OnlyFetches origin limit k (query ∷ queries) found =
      after_query-OnlyFetches (collect_query net unicode source origin limit k query found)
        (run_queries net unicode source origin limit (suc k) queries)
        (search_url net unicode source origin query)
        (λ next. run_queries-OnlyFetches origin limit (suc k) queries next)

  finish_search-Sessions :
      (origin : String) (limit : ℕ) (key : String) (s : SearchState C)
      (done : Result ServiceError (Found net unicode source) × List SessionEvent)
      → OnlyFetches done.1
      → Sessions 1 s.events (finish_search net unicode source origin limit key s done).1.events
  unfolding finish_search
  finish_search-Sessions origin limit key s (raised e, events) h = one_session s.events events h
  finish_search-Sessions origin limit key s (ok (candidates, seen), events) h =
      one_session s.events events h

  cached_or-Sessions :
      (cached : CacheLookup (List C)) (s : SearchState C)
      (fresh : Result ServiceError (List C) × SearchState C)
      → Sessions 1 s.events fresh.1.events
      → Sessions 1 s.events (cached_or net unicode source cached s fresh).1.events
  cached_or-Sessions cached s fresh h = elim (Bool-cases cached.hit) [
    | inl hit ↦ rw hit (Sessions-refl 1 s.events)
    | inr missed ↦ rw missed h
  ]

  search_origin-Sessions :
      (limit : ℕ) (intent : SearchIntent) (s : SearchState C) (origin : String)
      → Sessions 1 s.events (search_origin net unicode source limit intent s origin).1.events
  unfolding search_origin search_session
  search_origin-Sessions limit intent s origin =
      let looked =
        get s.search_cache (source.read_at origin)
          (cache_key net unicode source origin limit intent) in
      cached_or-Sessions looked.1 (record s { search_cache = looked.0 }) _
        (finish_search-Sessions origin limit (cache_key net unicode source origin limit intent)
          (record s { search_cache = looked.0 }) _
          (run_queries-OnlyFetches origin limit 0 (session_queries net unicode source intent)
            ([], [])))

  after_attempt-Sessions :
      (limit n : ℕ) (intent : SearchIntent) (before : List SessionEvent)
      (done : Result ServiceError (List C) × SearchState C)
      (then_ : SearchState C → ServiceError → Result ServiceError (List C) × SearchState C)
      → Sessions 1 before done.1.events
      → ((s : SearchState C) (e : ServiceError) → Sessions n s.events (then_ s e).1.events)
      → Sessions
          (suc n)
          before
          (after_attempt search_moves_on
            (search_origin net unicode source limit intent)
            done
            then_).1.events
  unfolding after_attempt
  after_attempt-Sessions limit n intent before (ok cs, s) then_ h k =
      Sessions-trans 1 0 (suc n) before s.events s.events (omega arith) h (Sessions-refl 0 s.events)
  after_attempt-Sessions limit n intent before (raised e, s) then_ h k =
      elim (Bool-cases (search_moves_on e)) [
        | inl on ↦
            rw (on, after_attempt)
              (Sessions-trans 1 n (suc n) before s.events (then_ s e).1.events (omega arith) h
                (k s e))
        | inr stop ↦
            rw (stop, after_attempt)
              (Sessions-trans 1 0 (suc n) before s.events s.events (omega arith) h
                (Sessions-refl 0 s.events))
      ]

  failover-Sessions :
      (limit : ℕ) (intent : SearchIntent) (s : SearchState C) (last_error : Option ServiceError)
      (origins : List String)
      → Sessions
          (length origins)
          s.events
          (failover search_moves_on
            (search_origin net unicode source limit intent)
            s
            last_error
            origins).1.events
  unfolding failover
  failover-Sessions limit intent s last_error [] = Sessions-refl 0 s.events
  failover-Sessions limit intent s last_error (origin ∷ origins) =
      after_attempt-Sessions limit (length origins) intent s.events _ _
        (search_origin-Sessions limit intent s origin)
        (λ s' e. failover-Sessions limit intent s' (some e) origins)

  over_origins-Sessions :
      (resolve : AddressResolver) (limit : ℕ) (intent : SearchIntent) (source_url : Option String)
      (s : SearchState C) (origins : Result ServiceError (List String))
      → operation_origins net resolve source_url ≡ origins
      → Sessions 2 s.events (over_origins net unicode source limit intent s origins).1.events
  over_origins-Sessions resolve limit intent source_url s (raised e) h = Sessions-refl 2 s.events
  over_origins-Sessions resolve limit intent source_url s (ok origins) h =
      Sessions-trans (length origins) 0 2 s.events _ _
        (length-AreOrigins-le net resolve source_url origins
          (operation_origins-AreOrigins net resolve source_url origins h))
        (failover-Sessions limit intent s none origins) (Sessions-refl 0 _)

  -- A search opens at most two sessions and closes each of them, however it ends: of the events
  -- that it adds, at most two open a session, and as many close one.
  pub search-Sessions :
      (resolve : AddressResolver) (limit : ℕ) (intent : SearchIntent) (source_url : Option String)
      (s : SearchState C)
      → Sessions 2 s.events (search net unicode source resolve limit intent source_url s).1.events
  unfolding search
  search-Sessions resolve limit intent source_url s =
      over_origins-Sessions resolve limit intent source_url s _ refl
