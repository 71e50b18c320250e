-- ===== src/Tunnel/Waiting/Endpoint.antt =====
-- `_wait_for_worker_endpoint`: the rounds in which the worker's sshd is asked for its banner.
pub mod Ended
use ezhpcy.Prelude.{
  ◌≡◌, ◌∙◌, refl, sym, ap, subst, Bool, true, false, Option, none, some, List, [], ◌∷◌, ◌++◌, All,
  ◌⊎◌, Option-cases, Bool-cases, inl, inr,
}
use ezhpcy.Prelude.Result.{Result, ok, err}
use ezhpcy.Text.{Text, codes, strip_prefix, strip_prefix-append}
use ezhpcy.Text.Split.Laws.{strip_prefix_sound}
use ezhpcy.Scheduler.Defs.{JobState, JobInfo, SchedulerError}
use ezhpcy.Worker.Control.{WorkerStatus, worker_ready, worker_failed, worker_stopped, StatusError}
use ezhpcy.Tunnel.Session.{
  worker_gone, unknown_state, job_ended_error, sshd_failed, sshd_exited, ended_of,
}
use ezhpcy.Tunnel.Waiting.{
  WaitError, tunnel_error, scheduler_error, status_error, gone_error, check_job,
}

-- One attempt to read the banner: no answer in time, an error of the connection, or what was read.
pub data Attempt : Type 0 where
  no_banner : Attempt
  attempt_failed : Text → Attempt
  banner : Text → Attempt

-- A round: the attempt, and where it fails the worker's status and the scheduler's answer
pub record EndpointRound : Type 0 where
  pub attempt : Attempt
  pub status : Result StatusError (Option WorkerStatus)
  pub check : Result SchedulerError JobInfo

abbrev pub is_there : Option Text → Bool
is_there none = false
is_there (some rest) = true

-- `banner.startswith(b"SSH-")`
abbrev pub is_ssh : Attempt → Bool
is_ssh no_banner = false
is_ssh (attempt_failed error) = false
is_ssh (banner text) = is_there (strip_prefix (codes "SSH-") text)

abbrev pub still_waits :
    Text → Option WorkerStatus → Result SchedulerError JobInfo → Option WaitError
still_waits job_id status check = elim (worker_gone status) [
  | some e ↦ some (tunnel_error e)
  | none ↦ check_job job_id (some check)
]

abbrev pub failed_round :
    Text
    → Result StatusError (Option WorkerStatus)
    → Result SchedulerError JobInfo
    → Option WaitError
failed_round job_id (err e) check = some (status_error e)
failed_round job_id (ok status) check = still_waits job_id status check

-- What the wait ends with: the endpoint answers, an error, or the deadline, with the last failed attempt
pub data Answered : Type 0 where
  endpoint_answers : Answered
  ends_with : WaitError → Answered
  too_late : Option Attempt → Answered

abbrev pub or_ends : Option WaitError → Answered → Answered
or_ends none rest = rest
or_ends (some e) rest = ends_with e

-- `last` is the last failed attempt, and `late` the failed attempt of a round that the deadline cuts off after it. Without one,
-- the deadline passes between two rounds, or in an attempt.
abbrev pub or_late : Option Attempt → Option Attempt → Option Attempt
or_late none last = last
or_late (some attempt) last = some attempt

unfoldable pub wait_for_worker_endpoint :
    Text → Option Attempt → Option Attempt → List EndpointRound → Answered
unfolding strip_prefix worker_gone
wait_for_worker_endpoint job_id late last [] = too_late (or_late late last)
wait_for_worker_endpoint job_id late last (r ∷ rounds) =
    let rest = wait_for_worker_endpoint job_id late (some r.attempt) rounds in
    elim (is_ssh r.attempt) [
      | true ↦ endpoint_answers
      | false ↦ or_ends (failed_round job_id r.status r.check) rest
    ]
