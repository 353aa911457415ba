-- ===== src/Entry.antt =====
-- src/bin/claudepod-entry.rs: what the container's entry point makes of it.
pub mod RuntimeEnv
pub mod Subids
pub mod Config
pub mod Setup
mod Examples
