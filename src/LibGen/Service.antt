-- ===== src/LibGen/Service.antt =====
-- service.py of providers/libgen/src/pullbox_provider_libgen: the queries of a search, the origins
-- that it may use, the search of one origin, and the failover between origins.
pub mod Queries
pub mod Bounded
pub mod Origins
pub mod Search
pub mod Sessions
pub mod Repeats
mod Tests
pub mod Resolve
pub mod Artifacts
pub mod Composed
pub mod Health
