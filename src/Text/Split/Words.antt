-- ===== src/Text/Split/Words.antt =====
-- `s.split()` of words that are put together with single spaces.
use ezhpcy.Prelude.{
  ℕ, ◌≡◌, ◌∙◌, refl, sym, ap, true, false, List, [], ◌∷◌, ◌++◌, All, append_assoc, append-nil,
}
use ezhpcy.Text.Chars.{Text, codes, is_space}
use ezhpcy.Text.Split.{words, words_from, join}

abbrev pub IsUnspaced : ℕ → Type 0
IsUnspaced c = is_space c ≡ false

-- A word is not empty and holds no whitespace.
abbrev pub IsWord : Text → Type 0
IsWord [] = ⊥
IsWord (c ∷ s) = IsUnspaced c × All IsUnspaced s

words_from_unspaced :
    (cur w s : Text) → All IsUnspaced w → words_from cur (w ++ s) ≡ words_from (cur ++ w) s
unfolding words_from
words_from_unspaced cur [] s h = ap (λ c. words_from c s) (sym (append-nil cur))
words_from_unspaced cur (c ∷ w) s (free, h) =
    rw (free, words_from)
      (words_from_unspaced (cur ++ c ∷ []) w s h
        ∙ ap (λ v. words_from v s) (append_assoc cur (c ∷ []) w))

pub words_word :
    (w : Text) (c : ℕ) (s : Text) → IsWord w → is_space c ≡ true → words (w ++ c ∷ s) ≡ w ∷ words s
unfolding words
words_word [] c s h space = elim h [ ]
words_word (x ∷ w) c s h space =
    words_from_unspaced [] (x ∷ w) (c ∷ s) h ∙ unfold words_from in rw (space, words_from) refl

-- The words of a line are those it was put together from.
pub words-join :
    (w : Text) (ws : List Text)
    → All IsWord (w ∷ ws)
    → words (join (codes " ") (w ∷ ws) ++ b'\n' ∷ []) ≡ w ∷ ws
unfolding join is_space
words-join w [] (h, _) =
    words_word w b'\n' [] h refl ∙ ap (λ r. w ∷ r) (unfold words words_from in refl)
words-join w (v ∷ ws) (h, hs) =
    ap words (append_assoc w (b' ' ∷ join (codes " ") (v ∷ ws)) (b'\n' ∷ []))
    ∙ words_word w b' ' _ h refl
    ∙ ap (λ r. w ∷ r) (words-join v ws hs)
