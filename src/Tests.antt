-- ===== src/Tests.antt =====
-- Runs of the modelled code, and the properties at concrete inputs.
pub mod Base
pub mod Cli
pub mod Config
pub mod Connect
pub mod Logging
pub mod Provision
pub mod Serving
pub mod Shared
pub mod Scheduler
pub mod Shell
pub mod Server
pub mod Worker
pub mod Tunnel
