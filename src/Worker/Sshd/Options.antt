-- ===== src/Worker/Sshd/Options.antt =====
-- The probes of clients that sshd is configured with.
use ezhpcy.Prelude.{ℕ, ◌+◌, ◌-◌, ◌*◌, ◌/◌, ◌<◌, ◌≤◌, ltb, arith, Bool-cases, inl, inr}
use ezhpcy.Worker.Sshd.{max, client_alive}

ceil_covers : (n d : ℕ) → 0 < d → n ≤ (n + (d - 1)) / d * d
ceil_covers n d h = grind arith

mul-div-le : (t i : ℕ) → 0 < i → i * (t / i) ≤ t
mul-div-le t i h = grind arith

max-le : (m n : ℕ) → (m ≤ max m n) × (n ≤ max m n)
max-le m n = ground arith

le_trans : {a b c : ℕ} → a ≤ b → b ≤ c → a ≤ c
le_trans {a} {b} {c} h k = omega arith

mul-le : (a b d : ℕ) → a ≤ b → a * d ≤ b * d
mul-le a b d h = grind arith

-- Either one probe, or as many as fit.
probes : (i t : ℕ) → 0 < i → i * max 1 (t / i) ≤ max i t
probes i t h = elim (Bool-cases (ltb 1 (t / i))) [
  | inl more ↦ rw more (ground (arith, mul-div-le t i h, max-le i t))
  | inr one ↦ rw one (ground (arith, max-le i t))
]

alive_bounds :
    (c d t : ℕ)
    → 0 < d
    → (1 ≤ max 1 c)
      × (1 ≤ max 1 (t / max 1 c))
      × (c * d ≤ max 1 c * d)
      × (max 1 c * max 1 (t / max 1 c) ≤ max (max 1 c) t)
alive_bounds c d t h =
    let i = max 1 c in
    (
      (max-le 1 c).0,
      (max-le 1 (t / i)).0,
      mul-le c (max 1 c) d (max-le 1 c).1,
      probes (max 1 c) t (max-le 1 c).0,
    )

-- Of a heartbeat interval given as a fraction and a heartbeat timeout, both numbers of sshd's probes are positive, a probe comes
-- no sooner than the heartbeat, and all probes are over within the timeout, or with the first of them if that takes longer.
pub client_alive_bounds :
    (numerator denominator timeout : ℕ)
    → 0 < denominator
    → let (interval, count) = client_alive numerator denominator timeout in
      (1 ≤ interval)
      × (1 ≤ count)
      × (numerator ≤ interval * denominator)
      × (interval * count ≤ max interval timeout)
unfolding client_alive
client_alive_bounds numerator denominator timeout h =
    let c = (numerator + (denominator - 1)) / denominator in
    let (one, count, covers, total) = alive_bounds c denominator timeout h in
    (one, count, le_trans (ceil_covers numerator denominator h) covers, total)
