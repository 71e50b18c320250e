-- ===== src/Provision/Stale/Apart.antt =====
-- What pruning removes.
use ezhpcy.Prelude.{
  ◌≡◌, ◌≢◌, ◌∙◌, refl, ap, true, false, none, some, List, [], ◌∷◌, ◌++◌, arith, All, ◌⊎◌,
}
use ezhpcy.Prelude.Exec.{Result, ok, err}
use ezhpcy.Text.{Text, text_eq_iff, member}
use ezhpcy.Path.{PosixPath, child, parent, init}
use ezhpcy.Shell.Words.{shell_words}
use ezhpcy.Worker.Control.{SftpError}
use ezhpcy.Provision.Stale.{
  is_kept, is_version_name, last_part, Login, PruneError, not_listed, not_removed, Found, removal,
}

-- A directory of another version beside `current`: the two trees have no path in common.
abbrev pub IsStaleBeside : PosixPath → PosixPath → Type 0
IsStaleBeside current path =
    (name : Text) × (path ≡ child (parent current) name)
    × (is_version_name name ≡ true)
    × ((below beside : List Text) → path.parts ++ below ≢ current.parts ++ beside)

abbrev pub IsStale : List PosixPath → PosixPath → Type 0
IsStale [] path = ⊥
IsStale (d ∷ ds) path = IsStaleBeside d path ⊎ IsStale ds path

-- A directory in a directory
abbrev IsChild : PosixPath → Type 0
IsChild d = d.parts ≡ init d.parts ++ last_part d.parts ∷ []

apart :
    (ps : List Text) (a b : Text) (xs ys : List Text)
    → a ≢ b
    → (ps ++ a ∷ []) ++ xs ≢ (ps ++ b ∷ []) ++ ys
apart [] a b xs ys h e = absurd (h (cc))
apart (p ∷ ps) a b xs ys h e = apart ps a b xs ys h (cc)

other_name : (d : PosixPath) (name : Text) → is_kept d name ≡ false → name ≢ last_part d.parts
unfolding is_kept member
other_name d name h e = ground (arith, text_eq_iff name (last_part d.parts))

module _ (d : PosixPath) (is_child : IsChild d) where
  beside :
      (name : Text)
      → is_kept d name ≡ false
      → is_version_name name ≡ true
      → IsStaleBeside d (child (parent d) name)
  beside name other version = (
    name,
    refl,
    version,
    λ below rest e.
        apart (init d.parts) name (last_part d.parts) below rest (other_name d name other)
          (e ∙ ap (λ p. p ++ rest) is_child),
  )

-- Of what is found, if all directories can be listed
abbrev AllFound : (PosixPath → Type 0) → Result SftpError (List PosixPath) → Type 0
AllFound P (ok paths) = All P paths
AllFound P (err e) = Unit

module _ (login : Login) where
  -- The login node after the parents of the directories were listed, in turn
  abbrev pub after_listing : List PosixPath → login.conn.State → login.conn.State
  after_listing [] s = s
  after_listing (d ∷ ds) s = after_listing ds (login.list_directory (parent d) s).1

  -- The first so many of the directories' parents were listed, and nothing else was done.
  abbrev pub OnlyListed : List PosixPath → login.conn.State → login.conn.State → Type 0
  OnlyListed ds s s' =
      (first rest : List PosixPath) × (ds ≡ first ++ rest) × (s' ≡ after_listing first s)

  -- Where all could be listed, the state is the one after the listings.
  abbrev IsListed : List PosixPath → login.conn.State → Found login → Type 0
  IsListed ds s (ok paths, s') = s' ≡ after_listing ds s
  IsListed ds s (err e, s') = OnlyListed ds s s'

  -- One command was run, to remove these stale paths, of which there are some.
  abbrev pub Ran : List PosixPath → List PosixPath → login.conn.State → login.conn.State → Type 0
  Ran dirs paths listed s =
      (line : Text) × All (IsStale dirs) paths
      × (paths ≢ [])
      × (shell_words line ≡ some (removal paths))
      × (s ≡ (login.conn.create_process line none listed).1)

  -- The paths that are removed: with no command if there are none, else with one, run on the node as the listings left it.
  abbrev pub RemovesOnly :
      List PosixPath
      → login.conn.State
      → Result PruneError (List PosixPath) × login.conn.State
      → Type 0
  RemovesOnly dirs start (err (not_listed e), s) = OnlyListed dirs start s
  RemovesOnly dirs start (err (not_removed e), s) =
      (paths : List PosixPath) × Ran dirs paths (after_listing dirs start) s
  RemovesOnly dirs start (ok paths, s) =
      ((paths ≡ []) × (s ≡ after_listing dirs start)) ⊎ Ran dirs paths (after_listing dirs start) s
