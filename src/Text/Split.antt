-- ===== src/Text/Split.antt =====
-- `strip`, `split`, `partition`, `splitlines` and `join`.
pub mod Laws
pub mod Lines
pub mod Words
use ezhpcy.Prelude.{
  ℕ, zero, suc, ◌≡◌, refl, Bool, true, false, ◌&&◌, ◌||◌, Option, none, some, List, [], ◌∷◌, ◌++◌,
  arith, ◌==◌, if◌then◌else◌,
}
use ezhpcy.Text.Chars.{Text, is_space, in_ranges}

-- `s.lstrip(...)` and `s.rstrip(...)` by a class of characters.
unfoldable pub lstrip : (ℕ → Bool) → Text → Text
lstrip p [] = []
lstrip p (c ∷ s) = if p c then lstrip p s else c ∷ s

abbrev push_unless : Bool → ℕ → Text → Text
push_unless true c [] = []
push_unless _ c s = c ∷ s

unfoldable pub rstrip : (ℕ → Bool) → Text → Text
rstrip p [] = []
rstrip p (c ∷ s) = push_unless (p c) c (rstrip p s)

-- `s.strip()`
unfoldable pub strip : Text → Text
unfolding lstrip rstrip is_space
strip s = rstrip is_space (lstrip is_space s)

abbrev pub push_head : ℕ → List Text → List Text
push_head c [] = (c ∷ []) ∷ []
push_head c (w ∷ ws) = (c ∷ w) ∷ ws

-- `s.split(c)`
unfoldable pub split : ℕ → Text → List Text
split c [] = [] ∷ []
split c (x ∷ xs) = let rest = split c xs in if x == c then [] ∷ rest else push_head x rest

-- `s.split(c, k)`
unfoldable pub split_max : ℕ → ℕ → Text → List Text
split_max zero c xs = xs ∷ []
split_max (suc k) c [] = [] ∷ []
split_max (suc k) c (x ∷ xs) = elim (x == c) [
  | true ↦ [] ∷ split_max k c xs
  | false ↦ push_head x (split_max (suc k) c xs)
]

-- `s.split(c)[0]` and `s.partition(c)[0]`
unfoldable pub before : ℕ → Text → Text
before c [] = []
before c (x ∷ xs) = if x == c then [] else x ∷ before c xs

-- `s.partition(c)[2]`
unfoldable pub after : ℕ → Text → Text
after c [] = []
after c (x ∷ xs) = if x == c then xs else after c xs

abbrev flush : Text → List Text → List Text
flush [] ws = ws
flush (c ∷ s) ws = (c ∷ s) ∷ ws

words_from : Text → Text → List Text
words_from cur [] = flush cur []
words_from cur (x ∷ xs) = elim (is_space x) [
  | true ↦ flush cur (words_from [] xs)
  | false ↦ words_from (cur ++ x ∷ []) xs
]

-- `s.split()`
unfoldable pub words : Text → List Text
unfolding words_from is_space
words s = words_from [] s

abbrev pub is_line_break : ℕ → Bool
is_line_break = in_ranges ((10, 13) ∷ (28, 30) ∷ (0x85, 0x85) ∷ (0x2028, 0x2029) ∷ [])

-- The flag says that the last character was a carriage return.
lines_from : Bool → Text → Text → List Text
lines_from cr cur [] = flush cur []
lines_from cr cur (x ∷ xs) = elim (cr && x == 10) [
  | true ↦ lines_from false cur xs
  | false ↦ elim (is_line_break x) [
    | true ↦ cur ∷ lines_from (x == 13) [] xs
    | false ↦ lines_from false (cur ++ x ∷ []) xs
  ]
]

-- `s.splitlines()`
unfoldable pub splitlines : Text → List Text
unfolding lines_from
splitlines s = lines_from false [] s

abbrev kept : Bool → Text → Text
kept true cur = []
kept false cur = cur

abbrev given_back : Bool → Text → List Text → List Text
given_back true cur ls = cur ∷ ls
given_back false cur ls = ls

-- The flag says that the line so far ends with a carriage return.
keep_from : Bool → Text → Text → List Text
keep_from cr cur [] = flush cur []
keep_from cr cur (x ∷ xs) = elim (cr && x == 10) [
  | true ↦ (cur ++ x ∷ []) ∷ keep_from false [] xs
  | false ↦ elim (is_line_break x) [
    | true ↦ elim (x == 13) [
      | true ↦ given_back cr cur (keep_from true (kept cr cur ++ x ∷ []) xs)
      | false ↦ given_back cr cur ((kept cr cur ++ x ∷ []) ∷ keep_from false [] xs)
    ]
    | false ↦ given_back cr cur (keep_from false (kept cr cur ++ x ∷ []) xs)
  ]
]

-- `s.splitlines(keepends=True)`
unfoldable pub splitlines_keep : Text → List Text
unfolding keep_from
splitlines_keep s = keep_from false [] s

-- `sep.join(ws)`
unfoldable pub join : Text → List Text → Text
join sep [] = []
join sep (w ∷ []) = w
join sep (w ∷ v ∷ ws) = w ++ (sep ++ join sep (v ∷ ws))

-- `s.removeprefix(p)`, or `none` where `s` does not start with `p`.
unfoldable pub strip_prefix : Text → Text → Option Text
strip_prefix [] s = some s
strip_prefix (x ∷ xs) [] = none
strip_prefix (x ∷ xs) (y ∷ ys) = if x == y then strip_prefix xs ys else none

pub strip_prefix-append : (p s : Text) → strip_prefix p (p ++ s) ≡ some s
unfolding strip_prefix
strip_prefix-append [] s = refl
strip_prefix-append (x ∷ xs) s = ground (arith, strip_prefix-append xs s)

-- The longest start of `s` in a class, and what follows it.
unfoldable pub span : (ℕ → Bool) → Text → Text × Text
span p [] = ([], [])
span p (c ∷ s) = let (taken, rest) = span p s in if p c then (c ∷ taken, rest) else ([], c ∷ s)
