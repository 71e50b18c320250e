-- ===== src/Scheduler/Lsf/Amounts.antt =====
-- The minutes and the memory that LSF is asked for.
use ezhpcy.Prelude.{ℕ, ◌+◌, ◌-◌, ◌/◌, ◌*◌, ◌<◌, ◌≤◌, arith}
use ezhpcy.Scheduler.Lsf.{LsfConfig, memory_mib, reservation_unit}

ceil_bounds : (n u : ℕ) → 0 < u → (n ≤ (n + u - 1) / u * u) × ((n + u - 1) / u * u < n + u)
ceil_bounds n u h = grind arith

-- For a job with at least one core, the memory that LSF reserves in all (the mebibytes, for each
-- core where it reserves per task) covers the request, and exceeds it by less than one mebibyte for
-- each of those units.
pub memory_mib_bounds :
    (lsf : LsfConfig) (cores memory_bytes : ℕ)
    → 0 < cores
    → (memory_bytes ≤ memory_mib lsf cores memory_bytes * reservation_unit lsf cores)
      × (memory_mib lsf cores memory_bytes * reservation_unit lsf cores
          < memory_bytes + reservation_unit lsf cores)
memory_mib_bounds lsf cores memory_bytes h =
    ceil_bounds memory_bytes (reservation_unit lsf cores) (ground arith)

ceil_least : (n u k : ℕ) → 0 < u → n ≤ k * u → (n + u - 1) / u ≤ k
ceil_least n u k h e = grind arith

-- No fewer mebibytes would do.
pub memory_mib-least :
    (lsf : LsfConfig) (cores memory_bytes fewer : ℕ)
    → 0 < cores
    → memory_bytes ≤ fewer * reservation_unit lsf cores
    → memory_mib lsf cores memory_bytes ≤ fewer
memory_mib-least lsf cores memory_bytes fewer h e =
    ceil_least memory_bytes (reservation_unit lsf cores) fewer (ground arith) e
