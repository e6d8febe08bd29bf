-- ===== src/LibGen.antt =====
-- providers/libgen: the LibGen provider.
pub mod Cache
pub mod Service
pub mod Metadata
pub mod Transport
