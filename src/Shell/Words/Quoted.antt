-- ===== src/Shell/Words/Quoted.antt =====
-- A quoted command line is split into exactly the arguments that it was built from.
use ezhpcy.Prelude.{
  ℕ, ◌≡◌, refl, ◌∙◌, true, false, Option, none, some, List, [], ◌∷◌, ◌++◌, ◌==◌, arith,
  append_assoc, append-nil, Bool-cases, ==_iff, inl, inr,
}
use ezhpcy.Text.{Text, codes, all_chars}
use ezhpcy.Shell.{is_safe, escape_quotes, quote, shlex_join}
use ezhpcy.Shell.Words.{plain, single, kind, ordinary, word, emit, read, shell_words, is_expansion}

shlex_join_run : shlex_join (codes "a" ∷ codes "it's" ∷ [] ∷ []) ≡ codes "a 'it'\"'\"'s' ''"
unfolding shlex_join
shlex_join_run = refl

shell_words_run :
    shell_words (codes "a 'it'\"'\"'s' ''") ≡ some (codes "a" ∷ codes "it's" ∷ [] ∷ [])
unfolding shell_words
shell_words_run = refl

kind-is_safe : (c : ℕ) → is_safe c ≡ true → kind c ≡ ordinary
unfolding is_safe kind
kind-is_safe c h = ground arith

read_ordinary :
    (cur : Option Text) (c : ℕ) (s : Text)
    → kind c ≡ ordinary
    → read plain cur (c ∷ s) ≡ read plain (some (word cur ++ c ∷ [])) s
unfolding read
read_ordinary cur c s h = rw (h, read)

all_chars_cons :
    (c : ℕ) (a : Text)
    → all_chars is_safe (c ∷ a) ≡ true
    → (is_safe c ≡ true) × (all_chars is_safe a ≡ true)
unfolding all_chars
all_chars_cons c a h = ground arith

-- Unquoted safe characters extend the word.
read-safe :
    (w a s : Text)
    → all_chars is_safe a ≡ true
    → read plain (some w) (a ++ s) ≡ read plain (some (w ++ a)) s
read-safe w [] s h = rw append-nil
read-safe w (c ∷ a) s h =
    let (safe, rest) = all_chars_cons c a h in
    read_ordinary (some w) c (a ++ s) (kind-is_safe c safe)
    ∙ read-safe (w ++ c ∷ []) a s rest
    ∙ rw append_assoc

read-apostrophe :
    (cur : Option Text) (s : Text) → read plain cur (b'\'' ∷ s) ≡ read single (some (word cur)) s
unfolding read kind
read-apostrophe cur s = refl

read-single :
    (c : ℕ) (w s : Text)
    → (c == b'\'') ≡ false
    → read single (some w) (c ∷ s) ≡ read single (some (w ++ c ∷ [])) s
unfolding read
read-single c w s h = ground arith

-- Inside single quotes, the five characters `'"'"'` stand for one apostrophe.
read-escape :
    (w s : Text)
    → read single (some w) (codes "'\"'\"'" ++ s) ≡ read single (some (w ++ b'\'' ∷ [])) s
unfolding read kind is_expansion
read-escape w s = refl

escape_quotes_mark :
    (c : ℕ) (a : Text)
    → (c == b'\'') ≡ true
    → escape_quotes (c ∷ a) ≡ codes "'\"'\"'" ++ escape_quotes a
unfolding escape_quotes
escape_quotes_mark c a h = ground arith

escape_quotes_other :
    (c : ℕ) (a : Text) → (c == b'\'') ≡ false → escape_quotes (c ∷ a) ≡ c ∷ escape_quotes a
unfolding escape_quotes
escape_quotes_other c a h = ground arith

read-escape_quotes :
    (w a s : Text)
    → read single (some w) (escape_quotes a ++ b'\'' ∷ s) ≡ read plain (some (w ++ a)) s
read-escape_quotes w [] s = rw append-nil (unfold read escape_quotes in refl)
read-escape_quotes w (c ∷ a) s = elim (Bool-cases (c == b'\'')) [
  | inl mark ↦
      rw (escape_quotes_mark c a mark, append_assoc)
        (read-escape w (escape_quotes a ++ b'\'' ∷ s)
          ∙ read-escape_quotes (w ++ b'\'' ∷ []) a s
          ∙ rw (append_assoc, (==_iff c b'\'').0 mark))
  | inr other ↦ rw (escape_quotes_other c a other) (
      read-single c w (escape_quotes a ++ b'\'' ∷ s) other
      ∙ read-escape_quotes (w ++ c ∷ []) a s
      ∙ rw append_assoc)
]

quote_safe : (c : ℕ) (a : Text) → all_chars is_safe (c ∷ a) ≡ true → quote (c ∷ a) ≡ c ∷ a
unfolding quote
quote_safe c a h = unfold all_chars in ground arith

quote_unsafe :
    (c : ℕ) (a : Text)
    → all_chars is_safe (c ∷ a) ≡ false
    → quote (c ∷ a) ≡ b'\'' ∷ (escape_quotes (c ∷ a) ++ b'\'' ∷ [])
unfolding quote
quote_unsafe c a h = unfold all_chars in ground arith

-- One quoted argument becomes one word.
read-quote : (a s : Text) → read plain none (quote a ++ s) ≡ read plain (some a) s
read-quote [] s = unfold quote read kind in refl
read-quote (c ∷ a) s = elim (Bool-cases (all_chars is_safe (c ∷ a))) [
  | inl safe ↦ rw (quote_safe c a safe) (
      let (first, rest) = all_chars_cons c a safe in
      read_ordinary none c (a ++ s) (kind-is_safe c first) ∙ read-safe (c ∷ []) a s rest)
  | inr unsafe ↦
      rw (quote_unsafe c a unsafe, append_assoc)
        (read-apostrophe none (escape_quotes (c ∷ a) ++ b'\'' ∷ s)
          ∙ read-escape_quotes [] (c ∷ a) s)
]

read-blank : (w s : Text) → read plain (some w) (b' ' ∷ s) ≡ emit (some w) (read plain none s)
unfolding read kind
read-blank w s = refl

shlex_join_one : (a : Text) → shlex_join (a ∷ []) ≡ quote a
unfolding shlex_join
shlex_join_one a = refl

shlex_join_cons :
    (a b : Text) (rest : List Text)
    → shlex_join (a ∷ b ∷ rest) ≡ quote a ++ b' ' ∷ shlex_join (b ∷ rest)
unfolding shlex_join
shlex_join_cons a b rest = refl

read-shlex_join : (args : List Text) → read plain none (shlex_join args) ≡ some args
read-shlex_join [] = unfold read shlex_join in refl
read-shlex_join (a ∷ []) =
    rw (shlex_join_one a, ← append-nil (quote a)) (read-quote a [] ∙ unfold read in refl)
read-shlex_join (a ∷ b ∷ rest) = rw shlex_join_cons (
    read-quote a (b' ' ∷ shlex_join (b ∷ rest))
    ∙ read-blank a (shlex_join (b ∷ rest))
    ∙ rw (read-shlex_join (b ∷ rest)))

-- A shell splits the line that `shlex.join` makes into exactly the arguments it was made from:
-- no argument is split, merged, expanded or dropped, whatever characters it holds.
pub shell_words-shlex_join : (args : List Text) → shell_words (shlex_join args) ≡ some args
unfolding shell_words
shell_words-shlex_join args = read-shlex_join args
