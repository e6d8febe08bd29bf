-- ===== src/GetComics.antt =====
-- providers/getcomics: the provider for GetComics.
pub mod Queries
pub mod Coverage
pub mod Search
pub mod Resolve
mod Tests
