-- ===== src/LibGen/Metadata.antt =====
-- metadata.py of providers/libgen/src/pullbox_provider_libgen: the keyed JSON API of the source.
pub mod Records
pub mod Fields
pub mod Parse
pub mod Editions
pub mod Candidates
pub mod Keys
pub mod Enrich
pub mod Pending
pub mod Batch
mod Tests
