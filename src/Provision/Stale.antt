-- ===== src/Provision/Stale.antt =====
-- provision_host.py: `prune_stale_data` and `prune_all_remote_data`, over a login node that lists directories and runs
-- commands.
pub mod Apart
use ezhpcy.Prelude.{
  ℕ, Bool, true, false, ◌&&◌, ◌||◌, Option, none, some, List, [], ◌∷◌, ◌++◌, ◌==◌, map,
  if◌then◌else◌,
}
use ezhpcy.Prelude.Exec.{Result, ok, err, Exec}
use ezhpcy.Text.{Text, codes, text_eq, is_alnum, all_chars, member}
use ezhpcy.Path.{PosixPath, child, parent, path_str}
use ezhpcy.Remote.{Connection, CommandError, run}
use ezhpcy.Worker.Control.{SftpError, no_such_file, sftp_error, other_error}
use ezhpcy.Worker.Command.{
  RemoteState, package_cache_root, package_cache_dir, package_state_root, package_state_dir,
  pixi_home, pixi_cache_dir,
}

abbrev any_of : Text → ℕ → Bool
any_of [] c = false
any_of (d ∷ ds) c = c == d || any_of ds c

unfoldable pub is_version_char : ℕ → Bool
unfolding is_alnum
is_version_char c = is_alnum c || any_of (codes "._+!-") c

-- `_VERSION_NAME_PATTERN.fullmatch`
unfoldable pub is_version_name : Text → Bool
unfolding is_version_char all_chars
is_version_name [] = false
is_version_name (c ∷ s) = is_alnum c && all_chars is_version_char s

-- `path.name`
abbrev pub last_part : List Text → Text
last_part [] = []
last_part (p ∷ []) = p
last_part (p ∷ q ∷ ps) = last_part (q ∷ ps)

-- `name in {".", "..", current_directory.name}`
unfoldable pub is_kept : PosixPath → Text → Bool
unfolding member text_eq
is_kept current name = member name (codes "." ∷ codes ".." ∷ last_part current.parts ∷ [])

-- The loop of `_stale_siblings` over the names in the directory
unfoldable pub stale_names : PosixPath → List Text → List PosixPath
unfolding is_kept is_version_name
stale_names current [] = []
stale_names current (name ∷ names) =
    if is_kept current name
    then stale_names current names
    else if is_version_name name
    then child (parent current) name ∷ stale_names current names
    else stale_names current names

-- The login node: commands, and `listdir` of an SFTP session
pub record Login : Type 1 where
  pub conn : Connection
  pub list_directory : PosixPath → conn.State → Result SftpError (List Text) × conn.State

pub data PruneError : Type 0 where
  not_listed : SftpError → PruneError
  not_removed : CommandError → PruneError

-- `current_directories`
abbrev pub current_directories : RemoteState → List PosixPath
current_directories r =
    package_cache_dir r ∷ package_state_dir r ∷ pixi_home r ∷ pixi_cache_dir r ∷ []

abbrev pub removal : List PosixPath → List Text
removal paths = codes "rm" ∷ codes "-rf" ∷ codes "--" ∷ map path_str paths

module _ (login : Login) where
  -- `_stale_siblings`, on what `listdir` returned
  abbrev pub siblings : PosixPath → Result SftpError (List Text) → Result SftpError (List PosixPath)
  siblings current (ok names) = ok (stale_names current names)
  siblings current (err no_such_file) = ok []
  siblings current (err (sftp_error e)) = err (sftp_error e)
  siblings current (err (other_error e)) = err (other_error e)

  abbrev pub joined :
      List PosixPath → Result SftpError (List PosixPath) → Result SftpError (List PosixPath)
  joined first (ok rest) = ok (first ++ rest)
  joined first (err e) = err e

  abbrev pub Found : Type 0
  Found = Result SftpError (List PosixPath) × login.conn.State

  abbrev pub with_rest :
      (login.conn.State → Found) → Result SftpError (List PosixPath) → login.conn.State → Found
  with_rest rest (err e) s = (err e, s)
  with_rest rest (ok first) s = let (others, s') = rest s in (joined first others, s')

  -- The comprehension of `prune_stale_data`
  unfoldable pub stale_paths : List PosixPath → login.conn.State → Found
  unfolding stale_names
  stale_paths [] s = (ok [], s)
  stale_paths (current ∷ rest) s =
      let (listed, s') = login.list_directory (parent current) s in
      with_rest (stale_paths rest) (siblings current listed) s'

  abbrev pub after_removal :
      List PosixPath → Result CommandError Text → Result PruneError (List PosixPath)
  after_removal paths (ok out) = ok paths
  after_removal paths (err e) = err (not_removed e)

  abbrev pub remove_paths : List PosixPath → Exec login.conn.State PruneError (List PosixPath)
  remove_paths [] s = (ok [], s)
  remove_paths (path ∷ paths) s =
      let (out, s') = run login.conn (removal (path ∷ paths)) none s in
      (after_removal (path ∷ paths) out, s')

  abbrev pub remove_found :
      Result SftpError (List PosixPath) → Exec login.conn.State PruneError (List PosixPath)
  remove_found (err e) s = (err (not_listed e), s)
  remove_found (ok paths) s = remove_paths paths s

  unfoldable pub prune_stale_data : RemoteState → Exec login.conn.State PruneError (List PosixPath)
  unfolding stale_paths run path_str
  prune_stale_data r s =
      let (found, s') = stale_paths (current_directories r) s in remove_found found s'

  unfoldable pub prune_all_remote_data : RemoteState → Exec login.conn.State CommandError Text
  unfolding run path_str
  prune_all_remote_data r =
      run login.conn (removal (package_cache_root r ∷ package_state_root r ∷ [])) none
