-- ===== src/Text/Chars.antt =====
-- Code points, their classes in the Unicode database, and comparison of texts.
use Prim.Native.Char.{code}
use ezhpcy.Prelude.{
  ℕ, ◌+◌, ◌-◌, ◌<◌, String, ◌≡◌, refl, ◌↔◌, Bool, true, false, ◌&&◌, ◌||◌, Option, none, some, List,
  [], ◌∷◌, arith, ltb, leb, ◌==◌, if◌then◌else◌,
}

abbrev pub Text : Type 0
Text = List ℕ

-- The code points of a literal. `String` has its own `[]` and `∷`.
abbrev pub codes : String → Text
codes String.[] = []
codes (String.◌∷◌ c s) = code c ∷ codes s

unfoldable pub text_eq : Text → Text → Bool
text_eq [] [] = true
text_eq [] (y ∷ ys) = false
text_eq (x ∷ xs) [] = false
text_eq (x ∷ xs) (y ∷ ys) = x == y && text_eq xs ys

pub text_eq_iff : (s t : Text) → (text_eq s t ≡ true) ↔ (s ≡ t)
unfolding text_eq
text_eq_iff [] [] = ground arith
text_eq_iff [] (y ∷ ys) = ground arith
text_eq_iff (x ∷ xs) [] = ground arith
text_eq_iff (x ∷ xs) (y ∷ ys) = ground (arith, text_eq_iff xs ys)

pub text_eq_refl : (s : Text) → text_eq s s ≡ true
text_eq_refl s = (text_eq_iff s s).1 refl

unfoldable pub member : Text → List Text → Bool
unfolding text_eq
member s [] = false
member s (t ∷ ts) = text_eq s t || member s ts

abbrev pub in_ranges : List (ℕ × ℕ) → ℕ → Bool
in_ranges [] c = false
in_ranges ((lo, hi) ∷ rs) c = (leb lo c && leb c hi) || in_ranges rs c

-- `str.isspace`, and `\s` of a pattern.
abbrev space_ranges : List (ℕ × ℕ)
space_ranges =
    (9, 13)
    ∷ (28, 32)
    ∷ (0x85, 0x85)
    ∷ (0xa0, 0xa0)
    ∷ (0x1680, 0x1680)
    ∷ (0x2000, 0x200a)
    ∷ (0x2028, 0x2029)
    ∷ (0x202f, 0x202f)
    ∷ (0x205f, 0x205f)
    ∷ (0x3000, 0x3000)
    ∷ []

unfoldable pub is_space : ℕ → Bool
is_space c = in_ranges space_ranges c

-- The zeros of the scripts' decimal digits (category Nd, which `\d` of a pattern matches).
abbrev decimal_zeros : List ℕ
decimal_zeros =
    b'0' ∷ 0x660 ∷ 0x6f0 ∷ 0x7c0 ∷ 0x966 ∷ 0x9e6 ∷ 0xa66 ∷ 0xae6 ∷ 0xb66 ∷ 0xbe6 ∷ 0xc66 ∷ 0xce6
    ∷ 0xd66 ∷ 0xde6 ∷ 0xe50 ∷ 0xed0 ∷ 0xf20 ∷ 0x1040 ∷ 0x1090 ∷ 0x17e0 ∷ 0x1810 ∷ 0x1946 ∷ 0x19d0
    ∷ 0x1a80 ∷ 0x1a90 ∷ 0x1b50 ∷ 0x1bb0 ∷ 0x1c40 ∷ 0x1c50 ∷ 0xa620 ∷ 0xa8d0 ∷ 0xa900 ∷ 0xa9d0
    ∷ 0xa9f0 ∷ 0xaa50 ∷ 0xabf0 ∷ 0xff10 ∷ 0x104a0 ∷ 0x10d30 ∷ 0x10d40 ∷ 0x11066 ∷ 0x110f0 ∷ 0x11136
    ∷ 0x111d0 ∷ 0x112f0 ∷ 0x11450 ∷ 0x114d0 ∷ 0x11650 ∷ 0x116c0 ∷ 0x116d0 ∷ 0x116da ∷ 0x11730
    ∷ 0x118e0 ∷ 0x11950 ∷ 0x11bf0 ∷ 0x11c50 ∷ 0x11d50 ∷ 0x11da0 ∷ 0x11de0 ∷ 0x11f50 ∷ 0x16a60
    ∷ 0x16ac0 ∷ 0x16b50 ∷ 0x1ccf0 ∷ 0x1d7ce ∷ 0x1d7d8 ∷ 0x1d7e2 ∷ 0x1d7ec ∷ 0x1d7f6 ∷ 0x1e140
    ∷ 0x1e2f0 ∷ 0x1e4f0 ∷ 0x1e5f1 ∷ 0x1e950 ∷ 0x1fbf0 ∷ []

find_decimal : List ℕ → ℕ → Option ℕ
find_decimal [] c = none
find_decimal (z ∷ zs) c = if leb z c && ltb c (z + 10) then some (c - z) else find_decimal zs c

unfoldable pub decimal_value : ℕ → Option ℕ
unfolding find_decimal
decimal_value c = find_decimal decimal_zeros c

unfoldable pub is_decimal : ℕ → Bool
unfolding decimal_value
is_decimal c = elim (decimal_value c) [ none ↦ false | some d ↦ true ]

pub decimal_value_ascii : (d : ℕ) → d < 10 → decimal_value (b'0' + d) ≡ some d
unfolding decimal_value
decimal_value_ascii d h = ground arith

-- Digits that are no decimal digits, such as superscripts: `str.isdigit` accepts them too.
abbrev digit_ranges : List (ℕ × ℕ)
digit_ranges =
    (0xb2, 0xb3)
    ∷ (0xb9, 0xb9)
    ∷ (0x1369, 0x1371)
    ∷ (0x19da, 0x19da)
    ∷ (0x2070, 0x2070)
    ∷ (0x2074, 0x2079)
    ∷ (0x2080, 0x2089)
    ∷ (0x2460, 0x2468)
    ∷ (0x2474, 0x247c)
    ∷ (0x2488, 0x2490)
    ∷ (0x24ea, 0x24ea)
    ∷ (0x24f5, 0x24fd)
    ∷ (0x24ff, 0x24ff)
    ∷ (0x2776, 0x277e)
    ∷ (0x2780, 0x2788)
    ∷ (0x278a, 0x2792)
    ∷ (0x10a40, 0x10a43)
    ∷ (0x10e60, 0x10e68)
    ∷ (0x11052, 0x1105a)
    ∷ (0x1f100, 0x1f10a)
    ∷ []

unfoldable pub is_digit : ℕ → Bool
unfolding is_decimal
is_digit c = is_decimal c || in_ranges digit_ranges c

-- A class of a pattern that names ASCII letters and digits.
unfoldable pub is_alnum : ℕ → Bool
is_alnum c = in_ranges ((b'0', b'9') ∷ (b'A', b'Z') ∷ (b'a', b'z') ∷ []) c

unfoldable pub all_chars : (ℕ → Bool) → Text → Bool
all_chars p [] = true
all_chars p (c ∷ s) = p c && all_chars p s
