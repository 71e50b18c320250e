-- ===== src/TimeLimit/Roundtrip.antt =====
-- What a time limit is written as, it is read back from.
use ezhpcy.Prelude.{
  ℕ, zero, suc, ◌+◌, ◌*◌, ◌/◌, ◌%◌, ◌≤◌, ◌<◌, ◌≡◌, refl, ◌∙◌, ap, false, some, [], ◌∷◌, ◌++◌, arith,
  All, All-append,
}
use ezhpcy.Prelude.Int.{ℤ, pos, negsuc}
use ezhpcy.Prelude.Result.{ok}
use ezhpcy.Text.{Text, is_decimal, is_space, show, show_padded, digits_value, strip, rstrip}
use ezhpcy.Text.Split.Words.{IsUnspaced}
use ezhpcy.Text.Split.Laws.{span-append_stop}
use ezhpcy.Text.Number.Decimal.{
  IsAsciiDigit, show-IsAsciiDigit, show_padded-IsAsciiDigit, show-cons, show_padded-two,
  digit-IsDecimal, digits-IsUnspaced, all_chars-true, padded_value, shown_value,
}
use ezhpcy.TimeLimit.{
  minute, day, timedelta, match_time_limit, read_hours, read_groups, parse_time_limit,
  check_time_limit, format_time_limit,
}

-- A check that passes says what it checked.
check_time_limit_sound :
    (z : ℤ) (t : ℕ) → check_time_limit z ≡ ok t → (z ≡ pos t) × (0 < t) × (t % minute ≡ 0)
unfolding check_time_limit
check_time_limit_sound (negsuc _) t h = cc
check_time_limit_sound (pos zero) t h = cc
check_time_limit_sound (pos (suc n)) t h = ground arith

rstrip_unspaced : (s : Text) → All IsUnspaced s → rstrip is_space s ≡ s
unfolding rstrip
rstrip_unspaced [] h = refl
rstrip_unspaced (c ∷ s) h = rw (h.0, rstrip_unspaced s h.1)

strip_unspaced : (s : Text) → All IsUnspaced s → strip s ≡ s
unfolding strip
strip_unspaced [] h = refl
strip_unspaced (c ∷ s) h = rw (h.0) (rstrip_unspaced (c ∷ s) h)

colon_decimal : is_decimal b':' ≡ false
unfolding is_decimal
colon_decimal = refl

colon-IsUnspaced : IsUnspaced b':'
unfolding is_space
colon-IsUnspaced = refl

groups-format :
    (hours : Text) (m : ℕ)
    → All IsAsciiDigit hours
    → (c : ℕ) × (s : Text) × (hours ≡ c ∷ s)
    → m < 60
    → match_time_limit (hours ++ b':' ∷ show_padded 2 m) ≡ some (hours, show_padded 2 m)
unfolding match_time_limit
groups-format hours m digit (c, s, e) h =
    rw
      (span-append_stop is_decimal hours b':' (show_padded 2 m) (digit-IsDecimal hours digit)
        colon_decimal)
      (rw
        (
          e,
          all_chars-true is_decimal (show_padded 2 m)
              (digit-IsDecimal _ (show_padded-IsAsciiDigit 2 m)),
          show_padded-two m (omega arith),
        )
        refl)

match_time_limit-format :
    (t : ℕ)
    → match_time_limit (strip (format_time_limit t))
      ≡ some (show (t / minute / 60), show_padded 2 (t / minute % 60))
unfolding format_time_limit
match_time_limit-format t =
    let hours = t / minute / 60 in
    let m = t / minute % 60 in
    let spaceless =
      All-append IsUnspaced (show hours) (b':' ∷ show_padded 2 m)
        (digits-IsUnspaced (show hours) (show-IsAsciiDigit hours))
        (colon-IsUnspaced, digits-IsUnspaced (show_padded 2 m) (show_padded-IsAsciiDigit 2 m)) in
    ap match_time_limit (strip_unspaced _ spaceless)
    ∙ groups-format (show hours) m (show-IsAsciiDigit hours) (show-cons hours) (omega arith)

parse_groups :
    (value hours minutes : Text)
    → match_time_limit (strip value) ≡ some (hours, minutes)
    → parse_time_limit value ≡ read_groups hours minutes
unfolding parse_time_limit
parse_groups value hours minutes e = rw (e, parse_time_limit) refl

read_groups_small :
    (hours minutes : Text) (h m : ℕ)
    → digits_value 0 false hours ≡ some h
    → digits_value 0 false minutes ≡ some m
    → m < 60
    → read_groups hours minutes ≡ timedelta (h * (60 * minute) + m * minute)
unfolding read_groups read_hours
read_groups_small hours minutes h m eh em less =
    rw (em, read_groups) (rw (eh, read_hours) (ground (arith, less)))

-- A time limit that passes the check, and that a `timedelta` can hold, is read back from the way it is
-- written. The check lets whole minutes above zero pass.
pub parse_time_limit-format_time_limit :
    (z : ℤ) (t : ℕ)
    → check_time_limit z ≡ ok t
    → t / day ≤ 999999999
    → parse_time_limit (format_time_limit t) ≡ ok t
unfolding timedelta
parse_time_limit-format_time_limit z t checked bound =
    let (_, positive, whole) = check_time_limit_sound z t checked in
    let total : t / minute / 60 * (60 * minute) + t / minute % 60 * minute ≡ t = omega arith in
    parse_groups (format_time_limit t) (show (t / minute / 60)) (show_padded 2 (t / minute % 60))
      (match_time_limit-format t)
    ∙ read_groups_small (show (t / minute / 60)) (show_padded 2 (t / minute % 60)) (t / minute / 60)
        (t / minute % 60) (shown_value (t / minute / 60)) (padded_value 2 (t / minute % 60))
        (omega arith)
    ∙ ap timedelta total
    ∙ ground (arith, bound)
