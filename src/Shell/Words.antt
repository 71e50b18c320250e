-- ===== src/Shell/Words.antt =====
-- The words that a POSIX shell reads from a command line. A line with an expansion, a glob, an
-- operator or an escape outside quotes, or with an open quote, is refused.
pub mod Quoted
use ezhpcy.Prelude.{
  ℕ, Bool, true, false, ◌||◌, Option, none, some, List, [], ◌∷◌, ◌++◌, ◌==◌, if◌then◌else◌,
}
use ezhpcy.Text.{Text, codes}

pub data Mode : Type 0 where
  plain single double : Mode

pub data Kind : Type 0 where
  blank apostrophe quotation meta ordinary : Kind

abbrev contains : Text → ℕ → Bool
contains [] c = false
contains (d ∷ ds) c = c == d || contains ds c

kind : ℕ → Kind
kind c =
    if c == b'\''
    then apostrophe
    else if c == b'"'
    then quotation
    else if c == b' ' || c == 9
    then blank
    else if contains (codes "|&;<>()$`\\*?[]#~!{}^\n") c
    then meta
    else ordinary

is_expansion : ℕ → Bool
is_expansion c = contains (codes "$`\\!") c

abbrev word : Option Text → Text
word none = []
word (some w) = w

abbrev emit : Option Text → Option (List Text) → Option (List Text)
emit none ws = ws
emit (some w) none = none
emit (some w) (some ws) = some (w ∷ ws)

read : Mode → Option Text → Text → Option (List Text)
read plain cur [] = emit cur (some [])
read single cur [] = none
read double cur [] = none
read plain cur (c ∷ s) = elim (kind c) [
  | blank ↦ emit cur (read plain none s)
  | apostrophe ↦ read single (some (word cur)) s
  | quotation ↦ read double (some (word cur)) s
  | meta ↦ none
  | ordinary ↦ read plain (some (word cur ++ c ∷ [])) s
]
read single cur (c ∷ s) = elim (c == b'\'') [
  | true ↦ read plain cur s
  | false ↦ read single (some (word cur ++ c ∷ [])) s
]
read double cur (c ∷ s) = elim (c == b'"') [
  | true ↦ read plain cur s
  | false ↦ elim (is_expansion c) [
    | true ↦ none
    | false ↦ read double (some (word cur ++ c ∷ [])) s
  ]
]

unfoldable pub shell_words : Text → Option (List Text)
unfolding read kind is_expansion
shell_words s = read plain none s
