-- ===== src/Tunnel/Lock.antt =====
-- tunnel/lock.py: the alias locks, over a table of the lock files with who holds each. The operating system's locks are the
-- table: a lock is taken at once or not at all, and freed when its holder ends.
pub mod Exclusive
use ezhpcy.Prelude.{ℕ, Bool, true, false, Option, none, some, List, [], ◌∷◌, ◌==◌, if◌then◌else◌}
use ezhpcy.Prelude.Exec.{Result, ok, err, Exec}
use ezhpcy.Text.{Text}
use ezhpcy.Text.Table.{put}
use ezhpcy.Config.Alias.{validate_alias}

-- For each alias, whether its lock file exists, and the process that holds it
pub data LockFile : Type 0 where
  absent free : LockFile
  held : ℕ → LockFile

abbrev pub Locks : Type 0
Locks = Text → LockFile

-- `FileLock.acquire`, which creates the file: whether it was free
abbrev pub acquire_lock : ℕ → Text → LockFile → Locks → Bool × Locks
acquire_lock process alias (held other) locks = (false, locks)
acquire_lock process alias _ locks = (true, put alias (held process) locks)

abbrev pub acquire : ℕ → Text → Locks → Bool × Locks
acquire process alias locks = acquire_lock process alias (locks alias) locks

-- `FileLock.release`, which leaves the file
abbrev pub release : Text → Locks → Locks
release alias locks = put alias free locks

pub data LockError : Type 0 where
  invalid_alias : Text → LockError
  already_running : Text → LockError

abbrev pub entered : Text → Bool × Locks → Result LockError Unit × Locks
entered alias (true, locks) = (ok tt, locks)
entered alias (false, locks) = (err (already_running alias), locks)

-- Entering `alias_lock`; leaving it is `release`.
unfoldable pub enter_alias_lock : ℕ → Text → Exec Locks LockError Unit
unfolding validate_alias put
enter_alias_lock process alias locks = elim (validate_alias alias) [
  | none ↦ (err (invalid_alias alias), locks)
  | some name ↦ entered alias (acquire process name locks)
]

-- `alias_locked` where the file exists: it takes a free lock, and releases it.
abbrev pub asked : Text → Bool × Locks → Bool × Locks
asked alias (true, locks) = (false, release alias locks)
asked alias (false, locks) = (true, locks)

abbrev pub ask : ℕ → Text → LockFile → Locks → Bool × Locks
ask process alias absent locks = (false, locks)
ask process alias free locks = asked alias (acquire process alias locks)
ask process alias (held other) locks = asked alias (acquire process alias locks)

-- `alias_locked`, which raises for an invalid alias
unfoldable pub alias_locked : ℕ → Text → Locks → Result LockError Bool × Locks
unfolding validate_alias put
alias_locked process alias locks = elim (validate_alias alias) [
  | none ↦ (err (invalid_alias alias), locks)
  | some name ↦ let (locked, locks') = ask process name (locks name) locks in (ok locked, locks')
]

-- What other tunnels and commands do with the locks: start a tunnel, ask whether one runs, and end one.
pub data Use : Type 0 where
  starts asks : ℕ → Text → Use
  ends : Text → Use

-- The locks afterwards, and whether a start succeeded
abbrev pub is_ok : {A : Type 0} → Result LockError A → Bool
is_ok (ok a) = true
is_ok (err e) = false

unfoldable pub use_locks : Use → Locks → Bool × Locks
unfolding enter_alias_lock alias_locked
use_locks (starts process alias) locks =
    let (r, locks') = enter_alias_lock process alias locks in (is_ok r, locks')
use_locks (asks process alias) locks =
    let (r, locks') = alias_locked process alias locks in (false, locks')
use_locks (ends alias) locks = (false, release alias locks)

-- The starts that succeed
unfoldable pub started : List Use → Locks → List Use × Locks
unfolding use_locks
started [] locks = ([], locks)
started (u ∷ us) locks =
    let (succeeded, locks') = use_locks u locks in
    let (rest, last) = started us locks' in (if succeeded then u ∷ rest else rest, last)
