-- ===== src/Text/Split/Lines.antt =====
-- `splitlines` of texts whose lines end with a newline, and the words of any text.
use ezhpcy.Prelude.{
  ℕ, ◌≡◌, ◌∙◌, refl, sym, ap, false, List, [], ◌∷◌, ◌++◌, arith, All, All-append, append_assoc,
  append-nil, map, ◌==◌, if◌then◌else◌, Bool-cases, inl, inr,
}
use ezhpcy.Text.Chars.{Text, is_space}
use ezhpcy.Text.Split.{is_line_break, keep_from, splitlines_keep, words, words_from}
use ezhpcy.Text.Split.Words.{IsWord, IsUnspaced}

-- It holds no line break.
abbrev pub IsLine : Text → Type 0
IsLine s = All (λ c. is_line_break c ≡ false) s

abbrev pub terminated : Text → Text
terminated l = l ++ b'\n' ∷ []

abbrev pub unlines : List Text → Text
unlines [] = []
unlines (l ∷ ls) = l ++ (b'\n' ∷ unlines ls)

pub unlines-append : (ls ms : List Text) → unlines (ls ++ ms) ≡ unlines ls ++ unlines ms
unlines-append [] ms = refl
unlines-append (l ∷ ls) ms =
    ap (λ r. l ++ (b'\n' ∷ r)) (unlines-append ls ms)
    ∙ sym (append_assoc l (b'\n' ∷ unlines ls) (unlines ms))

keep_from_line :
    (cur l s : Text)
    → IsLine l
    → keep_from false cur (l ++ b'\n' ∷ s) ≡ (cur ++ terminated l) ∷ keep_from false [] s
unfolding keep_from
keep_from_line cur [] s h = refl
keep_from_line cur (c ∷ l) s (free, h) =
    rw (free, keep_from)
      (keep_from_line (cur ++ c ∷ []) l s h
        ∙ ap (λ r. r ∷ keep_from false [] s) (append_assoc cur (c ∷ []) (terminated l)))

pub splitlines_keep-unlines :
    (ls : List Text) → All IsLine ls → splitlines_keep (unlines ls) ≡ map terminated ls
unfolding splitlines_keep
splitlines_keep-unlines [] h = unfold keep_from in refl
splitlines_keep-unlines (l ∷ ls) (line, h) =
    keep_from_line [] l (unlines ls) line
    ∙ ap (λ r. terminated l ∷ r) (splitlines_keep-unlines ls h)

keep_from_last :
    (c : ℕ) (cur l : Text) → IsLine l → keep_from false (c ∷ cur) l ≡ (c ∷ cur ++ l) ∷ []
unfolding keep_from
keep_from_last c cur [] h = ap (λ r. (c ∷ r) ∷ []) (sym (append-nil cur))
keep_from_last c cur (x ∷ l) (free, h) =
    rw (free, keep_from)
      (keep_from_last c (cur ++ x ∷ []) l h ∙ ap (λ r. (c ∷ r) ∷ []) (append_assoc cur (x ∷ []) l))

-- A text of one line that no newline ends
pub splitlines_keep-line :
    (c : ℕ) (l : Text) → IsLine (c ∷ l) → splitlines_keep (c ∷ l) ≡ (c ∷ l) ∷ []
unfolding splitlines_keep
splitlines_keep-line c l (free, h) = rw (free, keep_from) (keep_from_last c [] l h)

IsWord-IsUnspaced :
    (cur : Text) (c : ℕ) → All IsUnspaced cur → is_space c ≡ false → All IsUnspaced (cur ++ c ∷ [])
IsWord-IsUnspaced cur c h free = All-append IsUnspaced cur (c ∷ []) h (free, tt)

words_from-IsWord : (cur s : Text) → All IsUnspaced cur → All IsWord (words_from cur s)
unfolding words_from
words_from-IsWord [] [] h = tt
words_from-IsWord (c ∷ cur) [] h = (h, tt)
words_from-IsWord [] (x ∷ xs) h = elim (Bool-cases (is_space x)) [
  | inl space ↦ rw (space, words_from) (words_from-IsWord [] xs tt)
  | inr free ↦ rw (free, words_from) (words_from-IsWord (x ∷ []) xs (free, tt))
]
words_from-IsWord (c ∷ cur) (x ∷ xs) h = elim (Bool-cases (is_space x)) [
  | inl space ↦ rw (space, words_from) (h, words_from-IsWord [] xs tt)
  | inr free ↦
      rw (free, words_from)
        (words_from-IsWord (c ∷ cur ++ x ∷ []) xs (IsWord-IsUnspaced (c ∷ cur) x h free))
]

pub words-IsWord : (s : Text) → All IsWord (words s)
unfolding words
words-IsWord s = words_from-IsWord [] s tt

unspaced_line : (c : ℕ) → is_space c ≡ false → is_line_break c ≡ false
unfolding is_space
unspaced_line c h = ground arith

pub unspaced-IsLine : (s : Text) → All IsUnspaced s → IsLine s
unspaced-IsLine [] h = tt
unspaced-IsLine (c ∷ s) (free, h) = (unspaced_line c free, unspaced-IsLine s h)

pub word-IsLine : (w : Text) → IsWord w → IsLine w
word-IsLine [] h = elim h [ ]
word-IsLine (c ∷ s) h = unspaced-IsLine (c ∷ s) h

abbrev pub extend_head : ℕ → List Text → List Text
extend_head c [] = (c ∷ []) ∷ []
extend_head c (l ∷ ls) = (c ∷ l) ∷ ls

-- The lines of a file, the last of which may have no newline
unfoldable pub file_lines : Text → List Text
file_lines [] = []
file_lines (c ∷ s) = if c == b'\n' then [] ∷ file_lines s else extend_head c (file_lines s)
