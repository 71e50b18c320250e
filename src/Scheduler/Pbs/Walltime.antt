-- ===== src/Scheduler/Pbs/Walltime.antt =====
-- The wall time that PBS is asked for.
use ezhpcy.Prelude.{
  ℕ, ◌+◌, ◌*◌, ◌≡◌, ◌≢◌, false, Option, none, some, [], ◌∷◌, arith, All, ◌&&◌, ltb, if◌then◌else◌,
}
use ezhpcy.Text.{Text, show_padded, digits_value, before, after}
use ezhpcy.Text.Number.Decimal.{IsAsciiDigit, show_padded-IsAsciiDigit, padded_value}
use ezhpcy.Text.Split.Laws.{before-append, after-append}
use ezhpcy.Scheduler.Pbs.{walltime, ceil_seconds}

infixl 10 ◌>>=◌
abbrev ◌>>=◌ : Option ℕ → (ℕ → Option ℕ) → Option ℕ
none >>= f = none
some n >>= f = f n

-- A duration as PBS reads `HH:MM:SS`, in seconds; minutes and seconds are below 60.
pub read_walltime : Text → Option ℕ
read_walltime s = do
  hours ← digits_value 0 false (before b':' s)
  minutes ← digits_value 0 false (before b':' (after b':' s))
  seconds ← digits_value 0 false (after b':' (after b':' s))
  if ltb minutes 60 && ltb seconds 60 then some (hours * 3600 + minutes * 60 + seconds) else none

no_colon : (s : Text) → All IsAsciiDigit s → All (λ x. x ≢ b':') s
no_colon [] h = tt
no_colon (c ∷ s) h = (omega arith, no_colon s h.1)

padded_no_colon : (k n : ℕ) → All (λ x. x ≢ b':') (show_padded k n)
padded_no_colon k n = no_colon (show_padded k n) (show_padded-IsAsciiDigit k n)

-- What PBS reads is the time limit rounded up to whole seconds, however many hours it has.
pub read_walltime-walltime : (t : ℕ) → read_walltime (walltime t) ≡ some (ceil_seconds t)
unfolding read_walltime walltime
read_walltime-walltime t =
    simp (before-append, after-append, padded_no_colon, padded_value) (ground arith)
