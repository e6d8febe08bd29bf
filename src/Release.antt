-- ===== src/Release.antt =====
-- .github/scripts: the release and container-vulnerability tools.
pub mod Policy
pub mod Sarif
mod Tests
