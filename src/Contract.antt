-- ===== src/Contract.antt =====
-- packages/provider_contract: the protocol package that the providers share.
pub mod Net
pub mod Models
pub mod Failures
pub mod Resolver
pub mod SourceHttp
pub mod Hostname
pub mod Configuration
pub mod SearchTerms
pub mod Compatibility
pub mod ComicParser
