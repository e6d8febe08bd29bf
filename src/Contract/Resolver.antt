-- ===== src/Contract/Resolver.antt =====
-- packages/provider_contract/src/pullbox_provider_contract/resolver.py
pub mod Runtime
pub mod Target
pub mod Challenge
pub mod Replies
pub mod Flow
