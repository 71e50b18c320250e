-- ===== src/Tunnel.antt =====
-- tunnel/: one tunnel, from connecting to the login node until it has cleaned up.
pub mod Heartbeats
pub mod Lock
pub mod Output
pub mod Session
pub mod SshConfig
pub mod Startup
pub mod Unwinding
pub mod Waiting
