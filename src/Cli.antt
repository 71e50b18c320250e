-- ===== src/Cli.antt =====
-- cli/: what the commands decide before they start a tunnel, and how they connect to the login node.
pub mod Connect
pub mod KnownHosts
pub mod Password
pub mod Resolve
pub mod Submission
