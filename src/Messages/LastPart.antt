-- ===== src/Messages/LastPart.antt =====
-- The last part of a path or an endpoint.
use ezhpcy.Prelude.{
  ℕ, zero, suc, ◌≡◌, refl, false, Option, none, some, [], ◌∷◌, leb, ◌==◌, ◌≤◌, drop, All, arith,
  Bool-cases, inl, inr,
}
use ezhpcy.Text.{Text}
use ezhpcy.Messages.{rfind, max_index, last_separator, at_index, split_part}

-- No character of it is `c`.
abbrev pub IsWithout : Text → ℕ → Type 0
IsWithout s c = All (λ d. (d == c) ≡ false) s

abbrev rest_of : Option ℕ → Text → Text
rest_of none s = s
rest_of (some n) s = drop (suc n) s

drop-IsWithout : (c n : ℕ) (s : Text) → IsWithout s c → IsWithout (drop n s) c
drop-IsWithout c zero s h = h
drop-IsWithout c (suc n) [] h = tt
drop-IsWithout c (suc n) (d ∷ s) (h, hs) = drop-IsWithout c n s hs

drop-more : (c m n : ℕ) (s : Text) → m ≤ n → IsWithout (drop m s) c → IsWithout (drop n s) c
drop-more c zero n s le h = drop-IsWithout c n s h
drop-more c (suc m) zero s le h = absurd (omega (arith, le))
drop-more c (suc m) (suc n) [] le h = tt
drop-more c (suc m) (suc n) (d ∷ s) le h = drop-more c m n s (omega (arith, le)) h

-- Where the first character's comparison and the rest's index are known
step_rest :
    (c d : ℕ) (s : Text) (index : Option ℕ)
    → rfind c s ≡ index
    → IsWithout (rest_of index s) c
    → IsWithout (rest_of (rfind c (d ∷ s)) (d ∷ s)) c
unfolding rfind
step_rest c d s (some n) e h = rw e h
step_rest c d s none e h = elim (Bool-cases (d == c)) [
  | inl same ↦ rw (e, same) h
  | inr other ↦ rw (e, other) (other, h)
]

rfind-IsWithout : (c : ℕ) (s : Text) → IsWithout (rest_of (rfind c s) s) c
rfind-IsWithout c [] = unfold rfind in tt
rfind-IsWithout c (d ∷ s) = step_rest c d s (rfind c s) refl (rfind-IsWithout c s)

max_left :
    (c : ℕ) (m n : Option ℕ) (s : Text)
    → IsWithout (rest_of m s) c
    → IsWithout (rest_of (max_index m n) s) c
max_left c none none s h = h
max_left c none (some n) s h = drop-IsWithout c (suc n) s h
max_left c (some m) none s h = h
max_left c (some m) (some n) s h = elim (Bool-cases (leb m n)) [
  | inl le ↦ rw le (drop-more c (suc m) (suc n) s (ground (arith, le)) h)
  | inr gt ↦ rw gt h
]

max_right :
    (c : ℕ) (m n : Option ℕ) (s : Text)
    → IsWithout (rest_of n s) c
    → IsWithout (rest_of (max_index m n) s) c
max_right c none n s h = h
max_right c (some m) none s h = drop-IsWithout c (suc m) s h
max_right c (some m) (some n) s h = elim (Bool-cases (leb m n)) [
  | inl le ↦ rw le h
  | inr gt ↦ rw gt (drop-more c (suc n) (suc m) s (ground (arith, gt)) h)
]

all_right :
    (cs : Text) (m n : Option ℕ) (s : Text)
    → All (IsWithout (rest_of n s)) cs
    → All (IsWithout (rest_of (max_index m n) s)) cs
all_right [] m n s h = tt
all_right (c ∷ cs) m n s (h, hs) = (max_right c m n s h, all_right cs m n s hs)

last_separator-IsWithout :
    (separators part : Text)
    → All (IsWithout (rest_of (last_separator separators part) part)) separators
unfolding last_separator
last_separator-IsWithout [] part = tt
last_separator-IsWithout (c ∷ cs) part = (
  max_left c (rfind c part) (last_separator cs part) part (rfind-IsWithout c part),
  all_right cs (rfind c part) (last_separator cs part) part (last_separator-IsWithout cs part),
)

at_index-rest : (part : Text) (at : Option ℕ) → (at_index part at).2 ≡ rest_of at part
at_index-rest part none = refl
at_index-rest part (some n) = refl

-- No separator of a kind is left in the last part, which has a style of its own: for a path it is the file's name, for an
-- endpoint its port.
pub split_part-IsWithout :
    (separators part : Text) → All (IsWithout (split_part separators part).2) separators
unfolding split_part
split_part-IsWithout separators part =
    rw (at_index-rest part (last_separator separators part))
      (last_separator-IsWithout separators part)
