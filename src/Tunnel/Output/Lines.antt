-- ===== src/Tunnel/Output/Lines.antt =====
-- The lines that are logged do not depend on how the output is cut into chunks.
use ezhpcy.Prelude.{
  ℕ, ◌≡◌, ◌≢◌, ◌∙◌, refl, sym, ap, true, false, List, [], ◌∷◌, ◌++◌, ◌==◌, arith, All, All-append,
  append_assoc, Bool-cases, inl, inr, ◌⊎◌, map, subst, ==_iff,
}
use mathlib.Core.List.{map-append}
use ezhpcy.Text.{Text, split, push_head}
use ezhpcy.Text.Split.Lines.{file_lines, extend_head}
use ezhpcy.Tunnel.Output.{all_but_last, last_line, removesuffix, as_displayed, log_lines, logged}

abbrev pub HasNoNewline : Text → Type 0
HasNoNewline s = All (λ c. c ≢ b'\n') s

abbrev pub concat : List Text → Text
concat [] = []
concat (t ∷ ts) = t ++ concat ts

-- What a split leaves: lines, and a text with no newline, that stand for the same lines.
Splits : Text → List Text × Text → Type 0
Splits s (lines, rest) =
    HasNoNewline rest × ((t : Text) → file_lines (s ++ t) ≡ lines ++ file_lines (rest ++ t))

file_lines_newline :
    (c : ℕ) (s : Text) → (c == b'\n') ≡ true → file_lines (c ∷ s) ≡ [] ∷ file_lines s
unfolding file_lines
file_lines_newline c s e = rw e refl

file_lines_other :
    (c : ℕ) (s : Text) → (c == b'\n') ≡ false → file_lines (c ∷ s) ≡ extend_head c (file_lines s)
unfolding file_lines
file_lines_other c s e = rw e refl

push_head-Splits :
    (c : ℕ) (s : Text) (ws : List Text)
    → (c == b'\n') ≡ false
    → Splits s (all_but_last ws)
    → (w : Text) × (vs : List Text) × (ws ≡ w ∷ vs)
    → Splits (c ∷ s) (all_but_last (push_head c ws))
unfolding Splits all_but_last
push_head-Splits c s [] other h (w, vs, e) = cc
push_head-Splits c s (w ∷ []) other (free, same) some_word = (
  (ground arith, free),
  λ t.
      file_lines_other c (s ++ t) other
      ∙ ap (extend_head c) (same t)
      ∙ sym (file_lines_other c (w ++ t) other),
)
push_head-Splits c s (w ∷ v ∷ ws) other (free, same) some_word =
    (free, λ t. file_lines_other c (s ++ t) other ∙ ap (extend_head c) (same t))

split_cons : (s : Text) → (w : Text) × (vs : List Text) × (split b'\n' s ≡ w ∷ vs)
unfolding split
split_cons [] = ([], [], refl)
split_cons (c ∷ s) = elim (Bool-cases (c == b'\n')) [
  | inl e ↦ ([], split b'\n' s, rw e refl)
  | inr e ↦ let (w, vs, h) = pushed (split b'\n' s) in (w, vs, rw e h)
]
  where
    pushed : (ws : List Text) → (w : Text) × (vs : List Text) × (push_head c ws ≡ w ∷ vs)
    pushed [] = (c ∷ [], [], refl)
    pushed (w ∷ ws) = (c ∷ w, ws, refl)

newline-Splits :
    (c : ℕ) (s : Text) (ws : List Text)
    → (c == b'\n') ≡ true
    → Splits s (all_but_last ws)
    → (w : Text) × (vs : List Text) × (ws ≡ w ∷ vs)
    → Splits (c ∷ s) (all_but_last ([] ∷ ws))
unfolding Splits all_but_last
newline-Splits c s [] e h (w, vs, none_of) = cc
newline-Splits c s (w ∷ ws) e (free, same) some_word =
    (free, λ t. file_lines_newline c (s ++ t) e ∙ ap (λ r. [] ∷ r) (same t))

split_newline : (c : ℕ) (s : Text) → (c == b'\n') ≡ true → split b'\n' (c ∷ s) ≡ [] ∷ split b'\n' s
unfolding split
split_newline c s e = rw e refl

split_other :
    (c : ℕ) (s : Text) → (c == b'\n') ≡ false → split b'\n' (c ∷ s) ≡ push_head c (split b'\n' s)
unfolding split
split_other c s e = rw e refl

split-Splits : (s : Text) → Splits s (all_but_last (split b'\n' s))
split-Splits [] = unfold Splits split all_but_last in (tt, λ t. refl)
split-Splits (c ∷ s) = elim (Bool-cases (c == b'\n')) [
  | inl e ↦
      rw (split_newline c s e)
        (newline-Splits c s (split b'\n' s) e (split-Splits s) (split_cons s))
  | inr e ↦
      rw (split_other c s e)
        (push_head-Splits c s (split b'\n' s) e (split-Splits s) (split_cons s))
]

no_newline : (c : ℕ) → c ≢ b'\n' → (c == b'\n') ≡ false
no_newline c h = ground arith

last_line-file_lines : (s : Text) → HasNoNewline s → last_line s ≡ file_lines s
last_line-file_lines [] h = unfold file_lines in refl
last_line-file_lines (c ∷ []) (other, h) =
    sym (file_lines_other c [] (no_newline c other) ∙ unfold file_lines in refl)
last_line-file_lines (c ∷ d ∷ s) (other, h) =
    ap (extend_head c) (last_line-file_lines (d ∷ s) h)
    ∙ sym (file_lines_other c (d ∷ s) (no_newline c other))

regroup :
    (partial text rest final : Text)
    → (partial ++ text) ++ (rest ++ final) ≡ partial ++ ((text ++ rest) ++ final)
regroup partial text rest final = simp append_assoc

module _ (from_ansi : Text → Text) where
  logged_step :
      (partial text : Text) (texts : List Text) (final : Text) (out : List Text × Text)
      → Splits (partial ++ text) out
      → ((rest : Text)
          → HasNoNewline rest
          → logged from_ansi rest texts final
            ≡ map (as_displayed from_ansi) (file_lines (rest ++ (concat texts ++ final))))
      → map (as_displayed from_ansi) out.0 ++ logged from_ansi out.1 texts final
        ≡ map (as_displayed from_ansi) (file_lines (partial ++ ((text ++ concat texts) ++ final)))
  unfolding Splits
  logged_step partial text texts final (lines, rest) (free, same) ih =
      ap (λ r. map (as_displayed from_ansi) lines ++ r) (ih rest free)
      ∙ sym
          (map-append (as_displayed from_ansi) lines (file_lines (rest ++ (concat texts ++ final))))
      ∙ ap (map (as_displayed from_ansi)) (
          sym (same (concat texts ++ final))
          ∙ ap file_lines (regroup partial text (concat texts) final))

  logged_from :
      (partial : Text) (texts : List Text) (final : Text)
      → HasNoNewline partial
      → HasNoNewline final
      → logged from_ansi partial texts final
        ≡ map (as_displayed from_ansi) (file_lines (partial ++ (concat texts ++ final)))
  unfolding logged log_lines
  logged_from partial [] final free none_left =
      ap (map (as_displayed from_ansi))
        (last_line-file_lines (partial ++ final) (All-append _ partial final free none_left))
  logged_from partial (text ∷ texts) final free none_left =
      logged_step partial text texts final (all_but_last (split b'\n' (partial ++ text)))
        (split-Splits (partial ++ text)) (λ rest h. logged_from rest texts final h none_left)

  -- How a line is shown: as what Rich reads of it, without the one carriage return that may end it
  abbrev pub IsShown : Text → Text → Type 0
  IsShown line shown =
      ((front : Text) × (line ≡ front ++ 13 ∷ []) × (shown ≡ from_ansi front))
      ⊎ (((front : Text) → line ≢ front ++ 13 ∷ []) × (shown ≡ from_ansi line))

  -- Each line is shown, in order.
  abbrev pub AreShown : List Text → List Text → Type 0
  AreShown [] [] = Unit
  AreShown [] (shown ∷ rest) = ⊥
  AreShown (line ∷ lines) [] = ⊥
  AreShown (line ∷ lines) (shown ∷ rest) = IsShown line shown × AreShown lines rest

abbrev CutsReturn : Text → Text → Type 0
CutsReturn line cut =
    (line ≡ cut ++ 13 ∷ []) ⊎ (((front : Text) → line ≢ front ++ 13 ∷ []) × (cut ≡ line))

no_front : (c : ℕ) (front : Text) → (c == 13) ≡ false → c ∷ [] ≢ front ++ 13 ∷ []
no_front c [] other e = ground arith
no_front c (d ∷ []) other e = cc
no_front c (d ∷ x ∷ front) other e = cc

later_front :
    (c d : ℕ) (s front : Text)
    → ((rest : Text) → d ∷ s ≢ rest ++ 13 ∷ [])
    → c ∷ d ∷ s ≢ front ++ 13 ∷ []
later_front c d s [] h e = cc
later_front c d s (x ∷ front) h e = h front (cc)

more_cut : (c d : ℕ) (s cut : Text) → CutsReturn (d ∷ s) cut → CutsReturn (c ∷ d ∷ s) (c ∷ cut)
more_cut c d s cut (inl e) = inl (ap (λ r. c ∷ r) e)
more_cut c d s cut (inr (h, e)) = inr (λ front. later_front c d s front h, ap (λ r. c ∷ r) e)

removesuffix-CutsReturn : (line : Text) → CutsReturn line (removesuffix line)
unfolding removesuffix
removesuffix-CutsReturn [] = inr ((λ front. empty front), refl)
  where
    empty : (front : Text) → [] ≢ front ++ 13 ∷ []
    empty [] e = cc
    empty (x ∷ front) e = cc
removesuffix-CutsReturn (c ∷ []) = elim (Bool-cases (c == 13)) [
  | inl e ↦ rw e (inl (ap (λ x. x ∷ []) ((==_iff c 13).0 e)))
  | inr other ↦ rw other (inr ((λ front. no_front c front other), refl))
]
removesuffix-CutsReturn (c ∷ d ∷ s) =
    more_cut c d s (removesuffix (d ∷ s)) (removesuffix-CutsReturn (d ∷ s))

module _ (from_ansi : Text → Text) where
  cut-IsShown : (line cut : Text) → CutsReturn line cut → IsShown from_ansi line (from_ansi cut)
  cut-IsShown line cut (inl e) = inl (cut, e, refl)
  cut-IsShown line cut (inr (h, e)) = inr (h, ap from_ansi e)

  displayed-AreShown :
      (lines : List Text) → AreShown from_ansi lines (map (as_displayed from_ansi) lines)
  unfolding as_displayed
  displayed-AreShown [] = tt
  displayed-AreShown (line ∷ lines) = (
    cut-IsShown line (removesuffix line) (removesuffix-CutsReturn line),
    displayed-AreShown lines,
  )

  -- However a job's output is cut into chunks, the lines of the whole of it are logged, each once and in order, the last also
  -- where no newline ends it. A line is logged as what Rich's `Text.from_ansi` reads of it, without the one carriage return that
  -- may end it. What the decoder gives at the end holds no newline.
  pub logged-file_lines :
      (texts : List Text) (final : Text)
      → HasNoNewline final
      → AreShown from_ansi (file_lines (concat texts ++ final)) (logged from_ansi [] texts final)
  logged-file_lines texts final h =
      subst (AreShown from_ansi (file_lines (concat texts ++ final)))
        (sym (logged_from from_ansi [] texts final tt h))
        (displayed-AreShown (file_lines (concat texts ++ final)))
