-- ===== src/Lib.antt =====
-- The direct-download providers for Pullbox (packages/provider_contract, providers, .github/scripts):
-- a contract package with the protocol's types and the hardened HTTP boundary, providers that
-- search and resolve through it, and the tools that gate and publish the provider images.
--
-- How the files correspond to the code:
-- Prelude/ holds what the parts share: Boolean tests, lists, Python's insertion-ordered dict
--   (Prelude/Dict), results of code that raises (Prelude/Result) or gives up (Prelude/Optional),
--   JSON values (Prelude/Json), sorting, filters and distinct keys (Prelude/Sorting,
--   Prelude/Distinct), and the operations of `str` that need no Unicode table (Prelude/Text,
--   Prelude/Split, Prelude/Measures).
-- Contract/ is packages/provider_contract/src/pullbox_provider_contract. Contract/Net collects
--   what the code takes from `urllib.parse`, `ipaddress` and `str.casefold`; Contract/Models the
--   DTOs; Contract/Resolver is resolver.py: Runtime the concurrency gate, circuit breaker and
--   registry, Target the checks of URLs, domains and headers, Challenge the recognition of a
--   browser challenge, Replies what an answer of the resolver service is turned into, Flow the
--   call of the service. Contract/SourceHttp is source_http.py, whose fetch calls Target and
--   Challenge and hands a challenge to a browser resolver such as Flow. Contract/Configuration is
--   configuration.py (Field, Schema), with the host-name syntax, which libgen's service.py
--   repeats, in Contract/Hostname. Contract/SearchTerms is search_terms.py, Contract/Compatibility
--   is compatibility.py, Contract/ComicParser `normalize_issue` of comic_parser.py, and
--   Contract/Failures the exceptions that two of the providers tell apart.
-- AnnasArchive/ is service.py of providers/annas_archive/src/pullbox_provider_annas_archive: Search
--   its domain, query, search and probes, Catalog the candidates that it takes from the LibGen
--   catalog, Resolve the member fast download over FastDownload (links, errors, quota) and Fetch
--   (the request). GetComics/ is service.py of providers/getcomics/src/pullbox_provider_getcomics:
--   Queries, Coverage (which candidates cover the issue), Search and Resolve.
-- LibGen/ is providers/libgen/src/pullbox_provider_libgen: Cache is cache.py (Cache/Refinement states
--   what it stands for, a dictionary whose values expire); Service is the search and the resolution
--   of service.py (Queries, Origins, Search, Resolve, Health), over Cache and a session, which
--   Composed replaces by those of the repository;
--   Transport is transport.py, the session itself (Cookies, Fetch), over Contract/Resolver; Metadata
--   is metadata.py: Fields the normalisation of JSON fields, Parse and Editions the two parsers,
--   Candidates the builders, Enrich and Batch the enricher over Cache.
-- Release/ is .github/scripts: Policy is container_vulnerability_policy.py, Sarif is
--   filter-reviewed-container-sarif.py.
--
-- Bounds and fuel: every loop of the code is a recursion on a list, a text or the redirects that are
-- left, so no fuel is needed. Times are whole ticks of the clock that the code reads, and the
-- readings are arguments; floats of JSON are exact fractions. Numbers are unbounded, as in Python.
--
-- Not modelled: exception messages (the exception's type and code are), logging, file and
-- command-line handling, FastAPI and pydantic wiring. httpx, pydantic, DNS, URL parsing, address
-- classification, case folding, character tables, ISO dates and base64 are parameters, and each
-- theorem that uses them holds for every choice of them. So are the providers' parsers of pages and
-- the comic title parser, and for libgen's service the session, the parsers of metadata and the
-- builder of candidates, for which LibGen/Service/Composed puts the modelled ones in a resolution.
pub mod AnnasArchive
pub mod Contract
pub mod GetComics
pub mod LibGen
pub mod Prelude
pub mod Release
