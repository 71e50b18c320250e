-- ===== src/Cli/KnownHosts/Appended.antt =====
-- A line that is added to a known hosts file stands there as a line of its own.
use ezhpcy.Prelude.{
  ℕ, ◌≡◌, ◌≢◌, ◌∙◌, refl, sym, ap, true, false, List, [], ◌∷◌, ◌++◌, ◌==◌, arith, All, Bool-cases,
  inl, inr,
}
use ezhpcy.Text.{Text}
use ezhpcy.Text.Split.Lines.{file_lines, extend_head}
use ezhpcy.Cli.KnownHosts.{append_line, ends_line}

file_lines_line :
    (line : Text) → All (λ c. c ≢ b'\n') line → file_lines (line ++ b'\n' ∷ []) ≡ line ∷ []
unfolding file_lines
file_lines_line [] h = refl
file_lines_line (c ∷ line) (other, h) = ground (arith, file_lines_line line h)

file_lines-cons : (c : ℕ) (s : Text) → (l : Text) × (ls : List Text) × (file_lines (c ∷ s) ≡ l ∷ ls)
unfolding file_lines
file_lines-cons c s = elim (Bool-cases (c == b'\n')) [
  | inl e ↦ ([], file_lines s, rw e refl)
  | inr e ↦ let (l, ls, h) = head (file_lines s) in (l, ls, rw e h)
]
  where
    head : (ls : List Text) → (l : Text) × (rest : List Text) × (extend_head c ls ≡ l ∷ rest)
    head [] = (c ∷ [], [], refl)
    head (l ∷ ls) = (c ∷ l, ls, refl)

file_lines-append :
    (content s : Text)
    → ends_line content ≡ true
    → file_lines (content ++ s) ≡ file_lines content ++ file_lines s
unfolding file_lines
file_lines-append [] s h = refl
file_lines-append (c ∷ []) s h = rw h refl
file_lines-append (c ∷ d ∷ t) s h =
    let (l, ls, e) = file_lines-cons d t in
    let same = file_lines-append (d ∷ t) s h in
    elim (Bool-cases (c == b'\n')) [
      | inl n ↦ rw n (ap (λ r. [] ∷ r) same)
      | inr n ↦ rw n (
          ap (extend_head c) (same ∙ ap (λ r. r ++ file_lines s) e)
          ∙ ap (λ r. extend_head c r ++ file_lines s) (sym e))
    ]

file_lines-terminated :
    (content : Text)
    → ends_line content ≡ false
    → file_lines (content ++ b'\n' ∷ []) ≡ file_lines content
unfolding file_lines
file_lines-terminated [] h = cc
file_lines-terminated (c ∷ []) h = rw h refl
file_lines-terminated (c ∷ d ∷ t) h = rw (file_lines-terminated (d ∷ t) h) refl

ends_line-terminated : (content : Text) → ends_line (content ++ b'\n' ∷ []) ≡ true
ends_line-terminated [] = refl
ends_line-terminated (c ∷ []) = refl
ends_line-terminated (c ∷ d ∷ t) = ends_line-terminated (d ∷ t)

-- A line with no newline in it is added after all the lines that the file has, as they are, also where the last of them has
-- no newline.
pub file_lines-append_line :
    (content line : Text)
    → All (λ c. c ≢ b'\n') line
    → file_lines (append_line content line) ≡ file_lines content ++ line ∷ []
unfolding append_line
file_lines-append_line content line h = elim (Bool-cases (ends_line content)) [
  | inl e ↦ rw e (
      file_lines-append content (line ++ b'\n' ∷ []) e
      ∙ ap (λ r. file_lines content ++ r) (file_lines_line line h))
  | inr e ↦ rw e (
      file_lines-append (content ++ b'\n' ∷ []) (line ++ b'\n' ∷ []) (ends_line-terminated content)
      ∙ (rw (file_lines-terminated content e, file_lines_line line h) refl))
]
