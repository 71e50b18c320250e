-- ===== src/Cli/KnownHosts.antt =====
-- cli/utils/ssh.py: the lines of the known hosts files, `_KnownHosts`, and `_append_line`, which adds one to a file. What
-- asyncssh reads from a line, and which hosts it finds in lines, are parameters.
pub mod Appended
use ezhpcy.Prelude.{
  ℕ, Bool, true, false, Option, none, some, List, [], ◌∷◌, ◌++◌, ◌==◌, if◌then◌else◌,
}
use ezhpcy.Text.{Text, codes, text_eq, show, splitlines}

-- `_KnownHosts.lines`, by file
abbrev pub Known : Type 0
Known = List (Text × List Text)

-- `asyncssh.SSHKey`, as `export_public_key` prints it
pub record HostKey : Type 0 where
  pub key_type : Text
  pub key_data : Text

abbrev keep_readable : (Text → Bool) → List Text → List Text
keep_readable readable [] = []
keep_readable readable (l ∷ ls) =
    if readable l then l ∷ keep_readable readable ls else keep_readable readable ls

-- `_KnownHosts.load`: each file with its text, or `none` where it cannot be read. `readable` says of a line that
-- `import_known_hosts` reads it.
unfoldable pub load : (Text → Bool) → List (Text × Option Text) → Known
unfolding splitlines
load readable [] = []
load readable ((file, content) ∷ files) =
    let rest = load readable files in
    elim content [
      | none ↦ rest
      | some text ↦ (file, keep_readable readable (splitlines text)) ∷ rest
    ]

-- `_KnownHosts.add`
unfoldable pub add : Text → Text → Known → Known
unfolding text_eq
add file line [] = (file, line ∷ []) ∷ []
add file line ((f, lines) ∷ rest) =
    if text_eq file f then (f, lines ++ line ∷ []) ∷ rest else (f, lines) ∷ add file line rest

-- The lines that `_KnownHosts.combined` joins.
unfoldable pub combined : Known → List Text
combined [] = []
combined ((f, lines) ∷ rest) = lines ++ combined rest

-- `_KnownHosts.files_knowing`; `knows` is `_knows` for the host and the port.
unfoldable pub files_knowing : (List Text → Bool) → Known → List Text
files_knowing knows [] = []
files_knowing knows ((f, lines) ∷ rest) =
    if knows lines then f ∷ files_knowing knows rest else files_knowing knows rest

abbrev pub default_port : ℕ
default_port = 22

-- The line of `_accept_host_key`
unfoldable pub host_key_line : Text → ℕ → HostKey → Text
unfolding show
host_key_line host port key =
    (if port == default_port then host else b'[' ∷ (host ++ (codes "]:" ++ show port)))
    ++ (b' ' ∷ (key.key_type ++ b' ' ∷ key.key_data))

abbrev ends_line : Text → Bool
ends_line [] = true
ends_line (c ∷ []) = c == b'\n'
ends_line (c ∷ d ∷ s) = ends_line (d ∷ s)

-- `_append_line`: the file's content afterwards
unfoldable pub append_line : Text → Text → Text
append_line content line =
    (if ends_line content then content else content ++ b'\n' ∷ []) ++ (line ++ b'\n' ∷ [])
