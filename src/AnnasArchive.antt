-- ===== src/AnnasArchive.antt =====
-- providers/annas_archive: the provider for Anna's Archive.
pub mod Catalog
pub mod Search
pub mod FastDownload
pub mod Fetch
pub mod Resolve
mod Tests
