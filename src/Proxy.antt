-- ===== src/Proxy.antt =====
-- src/proxy: the nix daemon proxy, one module for each of its files.
pub mod Handshake
pub mod Ops
pub mod Stderr
pub mod RunRoots
pub mod HostClient
pub mod Session
pub mod Serve
pub mod Relay
