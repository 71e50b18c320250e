-- ===== src/Scheduler/Defs.antt =====
-- scheduler/base.py: jobs, their states, errors, and the helpers that the adapters share.
use ezhpcy.Prelude.{ℕ, Bool, true, false, Option, none, some, List, [], ◌∷◌, ◌++◌}
use ezhpcy.Prelude.Int.{ℤ}
use ezhpcy.Prelude.Exec.{Exec, raise, catch}
use ezhpcy.Text.{Text, codes}
use ezhpcy.Path.{PosixPath, path_str}
use ezhpcy.Shell.{shlex_join}
use ezhpcy.Remote.{Connection, CommandError, run_login_shell}

pub data JobState : Type 0 where
  pending running suspended succeeded failed ended unknown : JobState

abbrev pub is_terminal : JobState → Bool
is_terminal JobState.succeeded = true
is_terminal JobState.failed = true
is_terminal JobState.ended = true
is_terminal _ = false

-- The time limit is in microseconds, as `timedelta` keeps it.
pub record JobSpec : Type 0 where
  pub command : List Text
  pub name : Text
  pub time_limit : Option ℕ
  pub memory_bytes : Option ℕ
  pub cores : ℕ
  pub gpus : ℕ
  pub exclusive : Bool
  pub queue : Option Text
  pub working_directory : Option PosixPath
  pub stdout_path : Option PosixPath
  pub stderr_path : Option PosixPath

pub record JobInfo : Type 0 where
  pub state : JobState
  pub raw_state : Text
  pub host : Option Text
  pub exit_code : Option ℤ
  pub pending_reason : Option Text

-- What a scheduler command was for.
pub data Operation : Type 0 where
  submit_job : Operation
  inspect_job inspect_historical_job cancel_job : Text → Operation

-- `SchedulerError`, by what raises it, with the values that its message shows.
pub data SchedulerError : Type 0 where
  command_error : Operation → CommandError → SchedulerError
  no_job_id : Text → SchedulerError
  bad_output : Text → Text → SchedulerError
  start_error : Text → SchedulerError
  exited_early : Text → SchedulerError
  no_id_in_time : Text → SchedulerError

-- `Scheduler._run`
unfoldable pub run_command :
    (conn : Connection) → List Text → Operation → Option Text → Exec conn.State SchedulerError Text
unfolding run_login_shell
run_command conn command operation stdin =
    catch (run_login_shell conn command stdin) (λ e. raise (command_error operation e))

-- `Scheduler.cancel`
unfoldable pub cancel : (conn : Connection) → Text → Text → Exec conn.State SchedulerError Text
unfolding run_command
cancel conn cancel_executable job_id =
    run_command conn (cancel_executable ∷ job_id ∷ []) (cancel_job job_id) none

abbrev in_directory : Text → Option PosixPath → Text
in_directory command none = command
in_directory command (some directory) =
    shlex_join (codes "cd" ∷ path_str directory ∷ []) ++ (codes " && " ++ command)

-- `Scheduler._job_shell_command`
unfoldable pub job_shell_command : JobSpec → Text
unfolding shlex_join path_str
job_shell_command spec =
    in_directory (shlex_join (codes "exec" ∷ spec.command)) spec.working_directory
