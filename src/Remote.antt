-- ===== src/Remote.antt =====
-- ssh.py: commands on the login node. asyncssh, which runs them, is the `Connection`: a machine
-- with a state of its own that answers one command line after another.
pub mod Quoting
use ezhpcy.Prelude.{
  ℕ, zero, suc, Bool, true, false, Option, none, some, List, [], ◌∷◌, ◌++◌, if◌then◌else◌,
}
use ezhpcy.Prelude.Int.{ℤ, pos, negsuc}
use ezhpcy.Prelude.Exec.{Result, ok, err, Exec, pure, raise, ◌>>=◌, ◌>>◌}
use ezhpcy.Text.{Text, codes, show, strip}
use ezhpcy.Shell.{shlex_join}

-- `asyncssh.SSHCompletedProcess`, as far as the source reads it.
pub record Completed : Type 0 where
  pub exit_status : Option ℤ
  pub exit_signal : Option Text
  pub stdout : Text
  pub stderr : Text

-- What raises: a command that could not be run to its end, or one that ended badly.
pub data CommandError : Type 0 where
  connection_error : Text → CommandError
  process_error : Text → Completed → CommandError

pub data Reply : Type 0 where
  completed : Completed → Reply
  broken : Text → Reply

pub record Connection : Type 1 where
  pub State : Type 0
  pub create_process : Text → Option Text → State → Reply × State

abbrev pub show_int : ℤ → Text
show_int (pos n) = show n
show_int (negsuc n) = b'-' ∷ show (suc n)

abbrev failure_status : Completed → Text
failure_status r = elim r.exit_signal [
  | some name ↦ codes "signal " ++ name
  | none ↦ elim r.exit_status [ none ↦ codes "connection lost" | some n ↦ show_int n ]
]

-- `_command_failed`
unfoldable pub command_failed : Completed → CommandError
unfolding strip show
command_failed r =
    process_error
      (codes "Remote command failed (" ++ (failure_status r ++ (codes "): " ++ strip r.stderr))) r

unfoldable pub check_status : Completed → Result CommandError Text
unfolding command_failed
check_status r = elim r.exit_status [
  | none ↦ err (command_failed r)
  | some n ↦ elim n [
    | pos k ↦ elim k [ zero ↦ ok r.stdout | suc _ ↦ err (command_failed r) ]
    | negsuc _ ↦ err (command_failed r)
  ]
]

abbrev pub answer : Reply → Result CommandError Text
answer (completed r) = check_status r
answer (broken e) = err (connection_error e)

module _ (conn : Connection) where
  -- `RemoteHost.run`
  unfoldable pub run : List Text → Option Text → Exec conn.State CommandError Text
  unfolding check_status shlex_join
  run args stdin s =
      let (reply, s') = conn.create_process (shlex_join args) stdin s in (answer reply, s')

  -- `RemoteHost.run_login_shell`
  unfoldable pub run_login_shell : List Text → Option Text → Exec conn.State CommandError Text
  unfolding run
  run_login_shell args stdin = run (codes "bash" ∷ codes "-lc" ∷ shlex_join args ∷ []) stdin
