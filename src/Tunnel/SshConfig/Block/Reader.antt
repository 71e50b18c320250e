-- ===== src/Tunnel/SshConfig/Block/Reader.antt =====
-- A reader of the lines and arguments in OpenSSH's configuration.
use ezhpcy.Prelude.{
  ℕ, Bool, true, false, ◌&&◌, ◌||◌, Option, none, some, List, [], ◌∷◌, ◌++◌, ◌==◌, map,
  if◌then◌else◌,
}
use ezhpcy.Text.{Text, split, before, after, lstrip}

unfoldable pub contains : ℕ → Text → Bool
contains c [] = false
contains c (x ∷ s) = if x == c then true else contains c s

abbrev is_blank : ℕ → Bool
is_blank c = c == b' '

-- How OpenSSH splits the rest of a line into arguments (`argv_split`), outside quotes and within either kind of them.
pub data Mode : Type 0 where
  plain single double : Mode

-- What a character does: a backslash takes the special meaning of the next character, a blank ends an argument, `#` between two
-- arguments starts a comment, and a quote opens or closes.
pub data Act : Type 0 where
  escapes ends comments keeps : Act
  turns : Mode → Act

abbrev pub is_plain : Mode → Bool
is_plain plain = true
is_plain single = false
is_plain double = false

abbrev pub is_between : Option Text → Bool
is_between none = true
is_between (some w) = false

abbrev pub unescaped : Mode → Bool → ℕ → Act
unescaped plain between c =
    if c == b' ' || c == 9
    then ends
    else if c == b'#' && between
    then comments
    else if c == b'"'
    then turns double
    else if c == b'\''
    then turns single
    else keeps
unescaped single between c = if c == b'\'' then turns plain else keeps
unescaped double between c = if c == b'"' then turns plain else keeps

-- Of a character and the next one, which is 0 at the end
unfoldable pub act : Mode → Option Text → ℕ → ℕ → Act
act mode cur c d =
    if c == b'\\'
    then if d == b'"' || (d == b'\'' || (d == b'\\' || (d == b' ' && is_plain mode)))
      then escapes
      else keeps
    else unescaped mode (is_between cur) c

abbrev pub word : Option Text → Text
word none = []
word (some w) = w

abbrev pub emit : Option Text → Option (List Text) → Option (List Text)
emit none ws = ws
emit (some w) none = none
emit (some w) (some ws) = some (w ∷ ws)

unfoldable pub read : Mode → Option Text → Text → Option (List Text)
unfolding act
read plain cur [] = emit cur (some [])
read single cur [] = none
read double cur [] = none
read mode cur (c ∷ []) = elim (act mode cur c 0) [
  | escapes ↦ none
  | ends ↦ emit cur (read plain none [])
  | comments ↦ emit cur (some [])
  | keeps ↦ read mode (some (word cur ++ c ∷ [])) []
  | turns other ↦ read other (some (word cur)) []
]
read mode cur (c ∷ d ∷ s) = elim (act mode cur c d) [
  | escapes ↦ read mode (some (word cur ++ d ∷ [])) s
  | ends ↦ emit cur (read plain none (d ∷ s))
  | comments ↦ emit cur (some [])
  | keeps ↦ read mode (some (word cur ++ c ∷ [])) (d ∷ s)
  | turns other ↦ read other (some (word cur)) (d ∷ s)
]

abbrev pub the_only : Option (List Text) → Option Text
the_only none = none
the_only (some []) = none
the_only (some (w ∷ [])) = some w
the_only (some (w ∷ v ∷ ws)) = none

-- The one argument of a keyword.
unfoldable pub argument : Text → Option Text
unfolding read
argument s = the_only (read plain none s)

-- A line's keyword and its argument.
unfoldable pub entry : Text → Text × Option Text
unfolding argument lstrip before after
entry line = let t = lstrip is_blank line in (before b' ' t, argument (after b' ' t))

abbrev pub filled : List Text → List Text
filled [] = []
filled ([] ∷ ls) = filled ls
filled ((c ∷ l) ∷ ls) = (c ∷ l) ∷ filled ls

unfoldable pub read_block : Text → List (Text × Option Text)
unfolding entry split
read_block text = map entry (filled (split b'\n' text))
