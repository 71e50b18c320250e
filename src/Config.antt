-- ===== src/Config.antt =====
-- config.py: aliases, and profiles that inherit one another.
pub mod Alias
pub mod Chain
pub mod Resolve
