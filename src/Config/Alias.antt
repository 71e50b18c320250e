-- ===== src/Config/Alias.antt =====
-- `validate_alias`: profile names and host aliases, which are OpenSSH patterns and file names too.
use ezhpcy.Prelude.{
  ℕ, ◌≡◌, ◌≢◌, refl, Bool, true, false, ◌&&◌, ◌||◌, Option, none, some, [], ◌∷◌, arith, ◌==◌,
  if◌then◌else◌, All,
}
use ezhpcy.Text.{Text, is_alnum, is_space, all_chars}

-- The class `[A-Za-z0-9_.-]`.
unfoldable pub is_alias_char : ℕ → Bool
unfolding is_alnum
is_alias_char c = is_alnum c || c == b'_' || c == b'.' || c == b'-'

-- `_ALIAS_PATTERN.fullmatch(alias)`
unfoldable pub matches_alias : Text → Bool
matches_alias [] = false
matches_alias (c ∷ s) = is_alnum c && all_chars is_alias_char s

-- `validate_alias`; `none` is the `ValueError`.
unfoldable pub validate_alias : Text → Option Text
unfolding matches_alias all_chars is_alias_char
validate_alias alias = if matches_alias alias then some alias else none

-- What would make a name more than one plain `Host` pattern, or leave the directory it is put in:
-- blanks and line breaks, the pattern characters, quotes, a comment sign and the path separators.
abbrev pub IsInert : ℕ → Type 0
IsInert c =
    (is_space c ≡ false)
    × (c ≢ b'*')
    × (c ≢ b'?')
    × (c ≢ b'!')
    × (c ≢ b',')
    × (c ≢ b'"')
    × (c ≢ b'#')
    × (c ≢ b'/')
    × (c ≢ b'\\')
    × (c ≢ b':')
    × (c ≢ b'\'')

is_alias_char-IsInert : (c : ℕ) → is_alias_char c ≡ true → IsInert c
unfolding is_alias_char is_space
is_alias_char-IsInert c h = ground arith

all_chars-IsInert : (s : Text) → all_chars is_alias_char s ≡ true → All IsInert s
unfolding all_chars
all_chars-IsInert [] h = tt
all_chars-IsInert (c ∷ s) h =
    (is_alias_char-IsInert c (ground arith), all_chars-IsInert s (ground arith))

is_alnum-is_alias_char : (c : ℕ) → is_alnum c ≡ true → is_alias_char c ≡ true
unfolding is_alias_char
is_alnum-is_alias_char c h = ground arith

valid_parts :
    (c : ℕ) (s out : Text)
    → validate_alias (c ∷ s) ≡ some out
    → (out ≡ c ∷ s) × (is_alnum c ≡ true) × (all_chars is_alias_char s ≡ true)
unfolding validate_alias
valid_parts c s out h = ground arith

is_alnum-ne : (c : ℕ) → is_alnum c ≡ true → (c ≢ b'.') × (c ≢ b'-')
unfolding is_alnum
is_alnum-ne c h = ground arith

-- A valid alias is returned as it is, is not empty, starts neither with a dot nor with a dash (so
-- it is no option, no hidden file and not `..`), and holds only inert characters.
pub validate_alias_safe :
    (alias out : Text)
    → validate_alias alias ≡ some out
    → (out ≡ alias)
      × (c : ℕ) × (s : Text) × (alias ≡ c ∷ s)
      × (c ≢ b'.')
      × (c ≢ b'-')
      × All IsInert alias
validate_alias_safe [] out h = unfold validate_alias in cc
validate_alias_safe (c ∷ s) out h =
    let (same, first, rest) = valid_parts c s out h in
    (
      same,
      c,
      s,
      refl,
      (is_alnum-ne c first).0,
      (is_alnum-ne c first).1,
      (is_alias_char-IsInert c (is_alnum-is_alias_char c first), all_chars-IsInert s rest),
    )
