-- ===== src/Text/Number/Decimal.antt =====
-- Printed numbers: `int(str(n))` is `n`, and `str(n)` holds ASCII digits alone.
use ezhpcy.Prelude.{
  ℕ, zero, suc, ◌+◌, ◌/◌, ◌%◌, ◌<◌, ◌≤◌, ◌≡◌, refl, ◌∙◌, ap, Bool, true, false, Option, some, ◌-◌,
  length, [], ◌∷◌, ◌++◌, arith, All, All-append, append_assoc, append-nil, dec_lt,
}
use ezhpcy.Prelude.Int.{pos}
use ezhpcy.Text.Chars.{
  Text, codes, decimal_value, decimal_value_ascii, is_space, is_decimal, is_digit, all_chars,
}
use ezhpcy.Text.Split.Laws.{Satisfies}
use ezhpcy.Text.Split.Words.{IsUnspaced, IsWord}
use ezhpcy.Text.Split.{rstrip, strip}
use ezhpcy.Text.Number.{digits, zeros, show, show_padded, digits_value, to_int}

show_tests : (show 0 ≡ codes "0") × (show 1340 ≡ codes "1340") × (show_padded 3 7 ≡ codes "007")
unfolding show show_padded
show_tests = (refl, refl, refl)

abbrev pub IsAsciiDigit : ℕ → Type 0
IsAsciiDigit c = (b'0' ≤ c) × (c ≤ b'9')

digits_small : (f n : ℕ) → n < 10 → digits (suc f) n ≡ (b'0' + n) ∷ []
unfolding digits
digits_small f n h = ground arith

digits_large : (f n : ℕ) → 10 ≤ n → digits (suc f) n ≡ digits f (n / 10) ++ (b'0' + n % 10) ∷ []
unfolding digits
digits_large f n h = ground arith

digits-IsAsciiDigit : (f n : ℕ) → All IsAsciiDigit (digits f n)
digits-IsAsciiDigit zero n = unfold digits in tt
digits-IsAsciiDigit (suc f) n = elim (dec_lt n 10) [
  | yes small ↦ rw (digits_small f n small) (omega arith)
  | no large ↦
      rw (digits_large f n (omega arith)) (
        All-append IsAsciiDigit (digits f (n / 10)) _ (digits-IsAsciiDigit f (n / 10))
          (omega arith))
]

-- Printed numbers hold ASCII digits alone.
pub show-IsAsciiDigit : (n : ℕ) → All IsAsciiDigit (show n)
unfolding show
show-IsAsciiDigit n = digits-IsAsciiDigit (n + 1) n

digits_value-digits :
    (f n : ℕ) (b : Bool) (s : Text)
    → n < f
    → digits_value 0 b (digits f n ++ s) ≡ digits_value n true s
unfolding digits_value
digits_value-digits zero n b s h = elim h [ ]
digits_value-digits (suc f) n b s h = elim (dec_lt n 10) [
  | yes small ↦ rw (digits_small f n small) (ground (arith, decimal_value_ascii n small))
  | no large ↦
      rw (digits_large f n (omega arith), append_assoc)
        (digits_value-digits f (n / 10) b ((b'0' + n % 10) ∷ s) (omega arith)
          ∙ ground (arith, decimal_value_ascii (n % 10) (omega arith)))
]

-- Reading back a printed number, whatever follows it.
pub digits_value-show :
    (n : ℕ) (b : Bool) (s : Text) → digits_value 0 b (show n ++ s) ≡ digits_value n true s
unfolding show
digits_value-show n b s = digits_value-digits (n + 1) n b s (omega arith)

digits_value-zeros :
    (k : ℕ) (b : Bool) (s t : Text) (v : Option ℕ)
    → ((b : Bool) → digits_value 0 b (s ++ t) ≡ v)
    → digits_value 0 b ((zeros k ++ s) ++ t) ≡ v
unfolding zeros digits_value
digits_value-zeros zero b s t v h = h b
digits_value-zeros (suc k) b s t v h = digits_value-zeros k true s t v h

-- The same for a number that is padded with zeros.
pub digits_value-show_padded :
    (k n : ℕ) (s : Text) → digits_value 0 false (show_padded k n ++ s) ≡ digits_value n true s
unfolding show_padded
digits_value-show_padded k n s =
    digits_value-zeros (k - length (show n)) false (show n) s (digits_value n true s)
      (λ b. digits_value-show n b s)

zeros-IsAsciiDigit : (k : ℕ) → All IsAsciiDigit (zeros k)
unfolding zeros
zeros-IsAsciiDigit zero = tt
zeros-IsAsciiDigit (suc k) = (omega arith, zeros-IsAsciiDigit k)

pub show_padded-IsAsciiDigit : (k n : ℕ) → All IsAsciiDigit (show_padded k n)
unfolding show_padded
show_padded-IsAsciiDigit k n =
    All-append IsAsciiDigit (zeros (k - length (show n))) (show n) (zeros-IsAsciiDigit _)
      (show-IsAsciiDigit n)

pub is_space_digit : (c : ℕ) → IsAsciiDigit c → is_space c ≡ false
unfolding is_space
is_space_digit c h = ground arith

rstrip_digits : (s : Text) → All IsAsciiDigit s → rstrip is_space s ≡ s
unfolding rstrip
rstrip_digits [] h = refl
rstrip_digits (c ∷ s) h = rw (is_space_digit c h.0, rstrip_digits s h.1)

strip_digits : (s : Text) → All IsAsciiDigit s → strip s ≡ s
unfolding strip
strip_digits [] h = refl
strip_digits (c ∷ s) h = rw (is_space_digit c h.0) (rstrip_digits (c ∷ s) h)

to_int_digits :
    (s : Text) (n : ℕ)
    → All IsAsciiDigit s
    → digits_value 0 false s ≡ some n
    → to_int s ≡ some (pos n)
unfolding to_int
to_int_digits [] n h e = unfold digits_value in cc
to_int_digits (c ∷ s) n h e = rw (strip_digits (c ∷ s) h) (ground arith)

-- `int(str(n)) == n`
pub to_int-show : (n : ℕ) → to_int (show n) ≡ some (pos n)
unfolding digits_value
to_int-show n =
    to_int_digits (show n) n (show-IsAsciiDigit n)
      (rw (← append-nil (show n)) (digits_value-show n false []))

append-cons : (s : Text) (x : ℕ) → (c : ℕ) × (t : Text) × (s ++ x ∷ [] ≡ c ∷ t)
append-cons [] x = (x, [], refl)
append-cons (c ∷ s) x = (c, s ++ x ∷ [], refl)

digits-cons : (f n : ℕ) → (c : ℕ) × (s : Text) × (digits (suc f) n ≡ c ∷ s)
digits-cons f n = elim (dec_lt n 10) [
  | yes small ↦ (b'0' + n, [], digits_small f n small)
  | no large ↦
      let (c, s, e) = append-cons (digits f (n / 10)) (b'0' + n % 10) in
      (c, s, digits_large f n (omega arith) ∙ e)
]

show-digits : (n : ℕ) → show n ≡ digits (suc n) n
unfolding show
show-digits n = ap (λ k. digits k n) {y = suc n} (omega arith)

-- A printed number is not empty, and one below a hundred has at most two digits.
pub show-cons : (n : ℕ) → (c : ℕ) × (s : Text) × (show n ≡ c ∷ s)
show-cons n = let (c, s, e) = digits-cons n n in (c, s, show-digits n ∙ e)

show_tens : (n : ℕ) → 10 ≤ n → n < 100 → show n ≡ (b'0' + n / 10) ∷ (b'0' + n % 10) ∷ []
show_tens zero h less = elim h [ ]
show_tens (suc n) h less =
    show-digits (suc n)
    ∙ digits_large (suc n) (suc n) h
    ∙ ap (λ s. s ++ (b'0' + suc n % 10) ∷ []) (digits_small n (suc n / 10) (omega arith))

show_units : (n : ℕ) → n < 10 → show n ≡ (b'0' + n) ∷ []
show_units n h = show-digits n ∙ digits_small n n h

pub show_padded-two : (n : ℕ) → n < 100 → show_padded 2 n ≡ (b'0' + n / 10) ∷ (b'0' + n % 10) ∷ []
unfolding show_padded zeros
show_padded-two n h = elim (dec_lt n 10) [
  | yes small ↦ rw (show_units n small) (ground arith)
  | no large ↦ rw (show_tens n (omega arith) h) refl
]

pub digit_value : (c : ℕ) → IsAsciiDigit c → decimal_value c ≡ some (c - b'0')
digit_value c (low, high) =
    let (d, e) : (d : ℕ) × (c ≡ b'0' + d) = (c - b'0', omega arith) in
    rw e (decimal_value_ascii d (omega arith) ∙ ap some (omega arith))

pub is_decimal_digit : (c : ℕ) → IsAsciiDigit c → is_decimal c ≡ true
unfolding is_decimal
is_decimal_digit c h = rw (digit_value c h, is_decimal) refl

pub digit-IsDecimal : (s : Text) → All IsAsciiDigit s → All (Satisfies is_decimal) s
digit-IsDecimal [] h = tt
digit-IsDecimal (c ∷ s) h = (is_decimal_digit c h.0, digit-IsDecimal s h.1)

pub all_chars-true : (p : ℕ → Bool) (s : Text) → All (Satisfies p) s → all_chars p s ≡ true
unfolding all_chars
all_chars-true p [] h = refl
all_chars-true p (c ∷ s) h = rw (h.0) (all_chars-true p s h.1)

-- A number alone is read back.
pub padded_value : (k n : ℕ) → digits_value 0 false (show_padded k n) ≡ some n
unfolding digits_value
padded_value k n = rw (← append-nil (show_padded k n)) (digits_value-show_padded k n [])

pub shown_value : (n : ℕ) → digits_value 0 false (show n) ≡ some n
unfolding digits_value
shown_value n = rw (← append-nil (show n)) (digits_value-show n false [])

pub digits-IsUnspaced : (s : Text) → All IsAsciiDigit s → All IsUnspaced s
digits-IsUnspaced [] h = tt
digits-IsUnspaced (c ∷ s) h = (is_space_digit c h.0, digits-IsUnspaced s h.1)

digits-IsWord : (s : Text) (c : ℕ) (t : Text) → s ≡ c ∷ t → All IsAsciiDigit s → IsWord s
digits-IsWord [] c t e h = cc
digits-IsWord (x ∷ s) c t e h = (is_space_digit x h.0, digits-IsUnspaced s h.1)

pub show-IsWord : (n : ℕ) → IsWord (show n)
show-IsWord n = let (c, t, e) = show-cons n in digits-IsWord (show n) c t e (show-IsAsciiDigit n)

pub is_digit_digit : (c : ℕ) → IsAsciiDigit c → is_digit c ≡ true
unfolding is_digit
is_digit_digit c h = rw (is_decimal_digit c h) refl

pub digit-IsDigit : (s : Text) → All IsAsciiDigit s → All (Satisfies is_digit) s
digit-IsDigit [] h = tt
digit-IsDigit (c ∷ s) h = (is_digit_digit c h.0, digit-IsDigit s h.1)
