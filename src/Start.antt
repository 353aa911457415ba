-- ===== src/Start.antt =====
-- src/bin/claudepod-start.rs: what the launcher hands to the container.
pub mod EnvSpecs
pub mod Volumes
pub mod Ports
pub mod Inputs
pub mod Project
pub mod Gpu
pub mod AtomicWrite
pub mod Manifest
pub mod ProxyChild
pub mod Binds
pub mod Podman
pub mod Launch
mod Examples
