-- ===== src/Tunnel/Waiting.antt =====
-- tunnel/session.py: the loops that wait for the job and for its sshd, over the answers that they get in turn. A list
-- that ends before a loop does is a deadline that passes.
pub mod Banner
pub mod Endpoint
pub mod Job
pub mod Port
pub mod Scan
use ezhpcy.Prelude.{
  ℕ, zero, suc, ◌+◌, ◌-◌, Bool, true, false, ◌&&◌, ◌||◌, Option, none, some, List, [], ◌∷◌, ◌++◌,
  length, take, ltb, ◌==◌, if◌then◌else◌,
}
use ezhpcy.Prelude.Int.{ℤ}
use ezhpcy.Prelude.Result.{Result, ok, err}
use ezhpcy.Text.{Text, codes}
use ezhpcy.Scheduler.Defs.{JobState, JobInfo, SchedulerError}
use ezhpcy.Worker.Control.{WorkerStatus, worker_ready, worker_failed, worker_stopped, StatusError}
use ezhpcy.Tunnel.Session.{
  TunnelError, unknown_state, job_ended_error, sshd_failed, sshd_exited, ended_of, worker_gone,
}

-- What ends a wait with an error.
pub data WaitError : Type 0 where
  tunnel_error : TunnelError → WaitError
  scheduler_error : SchedulerError → WaitError
  status_error : StatusError → WaitError
  timed_out : WaitError

-- The error with which `_check_job_lives`, and the poll of `_wait_for_running_job`, stop, if any.
unfoldable pub gone_error : Text → JobInfo → Option TunnelError
gone_error job_id info = elim info.state [
  | JobState.unknown ↦ some (unknown_state job_id info.raw_state)
  | JobState.pending ↦ none
  | JobState.running ↦ none
  | JobState.suspended ↦ none
  | _ ↦ some (job_ended_error (ended_of job_id info))
]

-- `info.state is JobState.RUNNING and info.host is not None`
abbrev pub running_host : JobInfo → Option Text
running_host info = elim info.state [ JobState.running ↦ info.host | _ ↦ none ]

abbrev pub poll : Text → Result SchedulerError JobInfo → Option (Result WaitError Text)
poll job_id (err e) = some (err (scheduler_error e))
poll job_id (ok info) = elim (running_host info) [
  | some host ↦ some (ok host)
  | none ↦ elim (gone_error job_id info) [ none ↦ none | some e ↦ some (err (tunnel_error e)) ]
]

-- `_wait_for_running_job`
unfoldable pub wait_for_running_job :
    Text → List (Result SchedulerError JobInfo) → Result WaitError Text
unfolding gone_error
wait_for_running_job job_id [] = err timed_out
wait_for_running_job job_id (answer ∷ answers) =
    let rest = wait_for_running_job job_id answers in
    elim (poll job_id answer) [ some r ↦ r | none ↦ rest ]

-- One round of `_wait_for_ready_port`: the worker's status, and the scheduler's answer where the job is due for a
-- check.
pub record StatusRound : Type 0 where
  pub status : Result StatusError (Option WorkerStatus)
  pub check : Option (Result SchedulerError JobInfo)

abbrev pub check_job : Text → Option (Result SchedulerError JobInfo) → Option WaitError
check_job job_id none = none
check_job job_id (some (err e)) = some (scheduler_error e)
check_job job_id (some (ok info)) = elim (gone_error job_id info) [
  | none ↦ none
  | some e ↦ some (tunnel_error e)
]

abbrev pub ready_of : Option WorkerStatus → Option ℕ
ready_of (some (worker_ready port)) = some port
ready_of _ = none

abbrev pub status_round :
    Text
    → Option WorkerStatus
    → Option (Result SchedulerError JobInfo)
    → Option (Result WaitError ℕ)
status_round job_id status check = elim (ready_of status) [
  | some port ↦ some (ok port)
  | none ↦ elim (worker_gone status) [
    | some e ↦ some (err (tunnel_error e))
    | none ↦ elim (check_job job_id check) [ none ↦ none | some e ↦ some (err e) ]
  ]
]

abbrev pub round : Text → StatusRound → Option (Result WaitError ℕ)
round job_id r = elim r.status [
  | err e ↦ some (err (status_error e))
  | ok status ↦ status_round job_id status r.check
]

-- `_wait_for_ready_port`
unfoldable pub wait_for_ready_port : Text → List StatusRound → Result WaitError ℕ
unfolding gone_error worker_gone
wait_for_ready_port job_id [] = err timed_out
wait_for_ready_port job_id (r ∷ rounds) =
    let rest = wait_for_ready_port job_id rounds in
    elim (round job_id r) [ some answer ↦ answer | none ↦ rest ]

-- `_SSH_BANNER_LIMIT`
abbrev pub banner_limit : ℕ
banner_limit = 255

abbrev pub has_newline : Text → Bool
has_newline [] = false
has_newline (c ∷ s) = if c == b'\n' then true else has_newline s

-- `_read_banner`, over what the reads return: at most what they ask for, and nothing at the end.
unfoldable pub read_banner : Text → List Text → Text
read_banner banner [] = banner
read_banner banner (chunk ∷ chunks) =
    let more = read_banner (banner ++ take (banner_limit - length banner) chunk) chunks in
    if ltb (length banner) banner_limit && (if has_newline banner then false else true)
    then (if length chunk == 0 then banner else more)
    else banner
