-- ===== src/Tunnel/Waiting/Banner.antt =====
-- How much of the worker's banner is read.
use ezhpcy.Prelude.{
  ℕ, zero, suc, ◌-◌, ◌≤◌, Bool, true, false, ◌&&◌, List, [], ◌∷◌, ◌++◌, arith, length,
  length-append, take, ltb, ◌==◌, if◌then◌else◌,
}
use ezhpcy.Text.{Text}
use ezhpcy.Tunnel.Waiting.{banner_limit, has_newline, read_banner}

take-le : (n : ℕ) (s : Text) → length (take n s) ≤ n
take-le zero s = omega arith
take-le (suc n) [] = omega arith
take-le (suc n) (c ∷ s) = omega (arith, take-le n s)

grown_banner :
    (banner chunk : Text)
    → length banner ≤ banner_limit
    → length (banner ++ take (banner_limit - length banner) chunk) ≤ banner_limit
grown_banner banner chunk h = omega (
  arith,
  h,
  length-append banner (take (banner_limit - length banner) chunk),
  take-le (banner_limit - length banner) chunk,
)

one_of :
    (a b : Bool) (u v : Text)
    → length u ≤ banner_limit
    → length v ≤ banner_limit
    → length (if a then (if b then u else v) else u) ≤ banner_limit
one_of true true u v h k = h
one_of true false u v h k = k
one_of false b u v h k = h

-- The banner that is read never exceeds its limit, however much the worker sends.
pub read_banner_bounds :
    (banner : Text) (chunks : List Text)
    → length banner ≤ banner_limit
    → length (read_banner banner chunks) ≤ banner_limit
unfolding read_banner
read_banner_bounds banner [] h = h
read_banner_bounds banner (chunk ∷ chunks) h =
    one_of (ltb (length banner) banner_limit && (if has_newline banner then false else true))
      (length chunk == 0) banner
      (read_banner (banner ++ take (banner_limit - length banner) chunk) chunks) h
      (read_banner_bounds (banner ++ take (banner_limit - length banner) chunk) chunks
        (grown_banner banner chunk h))
