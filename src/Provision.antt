-- ===== src/Provision.antt =====
-- provision_host.py and provision_local.py: the keys of a worker on this machine, and what is put on the login node.
pub mod Keys
pub mod Login
pub mod Pin
pub mod Stale
pub mod Worker
