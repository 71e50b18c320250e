-- ===== src/Text/Number.antt =====
-- `str(n)`, `f"{n:0kd}"` and `int(s)`.
pub mod Decimal
use ezhpcy.Prelude.{
  ℕ, zero, suc, ◌+◌, ◌-◌, ◌*◌, ◌/◌, ◌%◌, Bool, true, false, ◌&&◌, Option, none, some, [], ◌∷◌, ◌++◌,
  ltb, ◌==◌, if◌then◌else◌, length,
}
use ezhpcy.Prelude.Int.{ℤ, pos, negsuc}
use ezhpcy.Text.Chars.{Text, decimal_value}
use ezhpcy.Text.Split.{strip}

digits : ℕ → ℕ → Text
digits zero n = []
digits (suc f) n = elim (ltb n 10) [
  | true ↦ (b'0' + n) ∷ []
  | false ↦ digits f (n / 10) ++ (b'0' + n % 10) ∷ []
]

-- `str(n)`. Each round divides by ten, so that `n + 1` rounds are enough.
unfoldable pub show : ℕ → Text
unfolding digits
show n = digits (n + 1) n

zeros : ℕ → Text
zeros zero = []
zeros (suc k) = b'0' ∷ zeros k

-- `f"{n:0kd}"`
unfoldable pub show_padded : ℕ → ℕ → Text
unfolding zeros show
show_padded k n = zeros (k - length (show n)) ++ show n

unfoldable pub digits_value : ℕ → Bool → Text → Option ℕ
unfolding decimal_value
digits_value acc ready [] = if ready then some acc else none
digits_value acc ready (c ∷ s) = elim (decimal_value c) [
  | some d ↦ digits_value (acc * 10 + d) true s
  | none ↦ elim (ready && c == b'_') [ true ↦ digits_value acc false s | false ↦ none ]
]

abbrev negate : ℕ → ℤ
negate zero = pos 0
negate (suc n) = negsuc n

abbrev signed : Text → Option ℤ
signed [] = none
signed (c ∷ s) =
    if c == b'-'
    then elim (digits_value 0 false s) [ none ↦ none | some n ↦ some (negate n) ]
    else elim (digits_value 0 false (if c == b'+' then s else c ∷ s)) [
      | none ↦ none
      | some n ↦ some (pos n)
    ]

-- `int(s)`: spaces around, a sign, decimal digits, and single underscores between them.
unfoldable pub to_int : Text → Option ℤ
unfolding digits_value strip
to_int s = signed (strip s)
