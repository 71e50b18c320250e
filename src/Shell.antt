-- ===== src/Shell.antt =====
-- `shlex.quote` and `shlex.join`, and how a POSIX shell splits a command line into words.
-- ssh.py, scheduler/base.py and scheduler/lsf.py build their command lines with them.
pub mod Words
use ezhpcy.Prelude.{ℕ, String, Bool, List, [], ◌∷◌, ◌++◌, ◌||◌, ◌==◌, if◌then◌else◌, map}
use ezhpcy.Text.{Text, codes, is_alnum, all_chars, join}

abbrev any_of : Text → ℕ → Bool
any_of [] c = Bool.false
any_of (d ∷ ds) c = c == d || any_of ds c

-- The characters that need no quotes.
unfoldable pub is_safe : ℕ → Bool
unfolding is_alnum
is_safe c = is_alnum c || any_of (codes "_@%+=:,./-") c

-- Each `'` becomes `'"'"'`.
unfoldable pub escape_quotes : Text → Text
escape_quotes [] = []
escape_quotes (c ∷ s) =
    if c == b'\'' then codes "'\"'\"'" ++ escape_quotes s else c ∷ escape_quotes s

unfoldable pub quote : Text → Text
unfolding escape_quotes is_safe all_chars
quote [] = codes "''"
quote (c ∷ s) =
    if all_chars is_safe (c ∷ s) then c ∷ s else b'\'' ∷ (escape_quotes (c ∷ s) ++ b'\'' ∷ [])

unfoldable pub shlex_join : List Text → Text
unfolding quote join
shlex_join args = join (codes " ") (map quote args)
