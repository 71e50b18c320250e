-- ===== src/TimeLimit.antt =====
-- types.py: a time limit as `H:MM`, and the `timedelta` it stands for, in microseconds.
pub mod Roundtrip
use ezhpcy.Prelude.{
  ℕ, zero, suc, ◌+◌, ◌*◌, ◌/◌, ◌%◌, ◌≤◌, Bool, true, false, ◌&&◌, Option, none, some, List, [], ◌∷◌,
  ◌++◌, ltb, leb, ◌==◌, if◌then◌else◌,
}
use ezhpcy.Prelude.Int.{ℤ, pos, negsuc}
use ezhpcy.Prelude.Result.{Result, ok, err}
use ezhpcy.Text.{Text, is_decimal, all_chars, show, show_padded, digits_value, strip, span}

-- The messages of the `ValueError`s, and the `OverflowError` of `timedelta`.
pub data TimeLimitError : Type 0 where
  bad_format bad_minutes overflow not_positive not_whole_minutes : TimeLimitError

-- `timedelta(minutes=1)` and `timedelta(days=1)`
abbrev pub minute : ℕ
minute = 60000000

abbrev pub day : ℕ
day = 86400000000

-- A `timedelta` holds at most 999999999 days.
unfoldable pub timedelta : ℕ → Result TimeLimitError ℕ
timedelta t = if leb (t / day) 999999999 then ok t else err overflow

abbrev one_or_two : Text → Bool
one_or_two (_ ∷ []) = true
one_or_two (_ ∷ _ ∷ []) = true
one_or_two _ = false

abbrev is_separator : ℕ → Bool
is_separator c = c == b':'

abbrev groups : Text → Text → Option (Text × Text)
groups [] rest = none
groups (h ∷ hours) [] = none
groups (h ∷ hours) (c ∷ minutes) =
    if is_separator c && (one_or_two minutes && all_chars is_decimal minutes)
    then some (h ∷ hours, minutes)
    else none

-- `_TIME_LIMIT_PATTERN.fullmatch`: the groups `hours` and `minutes`.
unfoldable pub match_time_limit : Text → Option (Text × Text)
unfolding span is_decimal all_chars
match_time_limit s = let (hours, rest) = span is_decimal s in groups hours rest

unfoldable pub read_hours : Text → ℕ → Result TimeLimitError ℕ
unfolding digits_value timedelta
read_hours hours minutes = elim (digits_value 0 false hours) [
  | none ↦ err bad_format
  | some h ↦ timedelta (h * (60 * minute) + minutes * minute)
]

unfoldable pub read_groups : Text → Text → Result TimeLimitError ℕ
unfolding digits_value read_hours
read_groups hours minutes = elim (digits_value 0 false minutes) [
  | none ↦ err bad_format
  | some m ↦ if leb 60 m then err bad_minutes else read_hours hours m
]

-- `_parse_time_limit` on a string. The groups are decimal digits, which `int` reads.
unfoldable pub parse_time_limit : Text → Result TimeLimitError ℕ
unfolding match_time_limit read_groups strip
parse_time_limit value = elim (match_time_limit (strip value)) [
  | none ↦ err bad_format
  | some (hours, minutes) ↦ read_groups hours minutes
]

-- `_check_time_limit`
unfoldable pub check_time_limit : ℤ → Result TimeLimitError ℕ
check_time_limit (negsuc _) = err not_positive
check_time_limit (pos zero) = err not_positive
check_time_limit (pos (suc n)) = if suc n % minute == 0 then ok (suc n) else err not_whole_minutes

-- `_format_time_limit` of a `timedelta` that is not negative
unfoldable pub format_time_limit : ℕ → Text
unfolding show show_padded
format_time_limit t = show (t / minute / 60) ++ (b':' ∷ show_padded 2 (t / minute % 60))
