-- ===== src/Scheduler.antt =====
-- scheduler/base.py: jobs, their states, and what the adapters share.
pub mod Defs
pub mod Interactive
pub mod Lsf
pub mod Pbs
