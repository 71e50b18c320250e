-- ===== src/Tunnel/Waiting/Endpoint/Ended.antt =====
-- How the wait for the worker's endpoint ends.
use ezhpcy.Prelude.{
  ◌≡◌, ◌∙◌, refl, sym, ap, subst, true, false, Option, none, some, List, [], ◌∷◌, ◌++◌, All, ◌⊎◌,
  Option-cases, Bool-cases, inl, inr,
}
use ezhpcy.Prelude.Result.{Result, ok, err}
use ezhpcy.Text.{Text, codes, strip_prefix, strip_prefix-append}
use ezhpcy.Text.Split.Laws.{strip_prefix_sound}
use ezhpcy.Scheduler.Defs.{JobState, JobInfo, SchedulerError}
use ezhpcy.Worker.Control.{WorkerStatus, worker_ready, worker_failed, worker_stopped, StatusError}
use ezhpcy.Tunnel.Session.{
  worker_gone, unknown_state, job_ended_error, sshd_failed, sshd_exited, ended_of,
}
use ezhpcy.Tunnel.Waiting.{
  WaitError, tunnel_error, scheduler_error, status_error, gone_error, check_job,
}
use ezhpcy.Tunnel.Waiting.Endpoint.{
  Attempt, no_banner, attempt_failed, banner, EndpointRound, is_there, is_ssh, failed_round,
  Answered, endpoint_answers, ends_with, too_late, or_late, wait_for_worker_endpoint,
}

-- The attempt read a banner of an SSH server.
abbrev pub ReadsSsh : Attempt → Type 0
ReadsSsh attempt = (version : Text) × (attempt ≡ banner (codes "SSH-" ++ version))

-- The worker's status is no reason to stop: none is there yet, or sshd is ready at a port.
abbrev pub StatusGoesOn : Result StatusError (Option WorkerStatus) → Type 0
StatusGoesOn (err e) = ⊥
StatusGoesOn (ok none) = Unit
StatusGoesOn (ok (some (worker_ready port))) = Unit
StatusGoesOn (ok (some (worker_failed reason))) = ⊥
StatusGoesOn (ok (some (worker_stopped exit_status))) = ⊥

-- The error of a status: it cannot be read, sshd did not start, or sshd exited.
abbrev pub StatusSays : Result StatusError (Option WorkerStatus) → WaitError → Type 0
StatusSays (err e) error = error ≡ status_error e
StatusSays (ok none) error = ⊥
StatusSays (ok (some (worker_ready port))) error = ⊥
StatusSays (ok (some (worker_failed reason))) error = error ≡ tunnel_error (sshd_failed reason)
StatusSays (ok (some (worker_stopped exit_status))) error =
    error ≡ tunnel_error (sshd_exited exit_status)

-- The states in which a job lives
abbrev pub Lives : JobState → Type 0
Lives state =
    (state ≡ JobState.pending) ⊎ ((state ≡ JobState.running) ⊎ (state ≡ JobState.suspended))

abbrev pub IsOver : JobState → Type 0
IsOver state = (state ≡ JobState.succeeded) ⊎ ((state ≡ JobState.failed) ⊎ (state ≡ JobState.ended))

abbrev pub JobGoesOn : Result SchedulerError JobInfo → Type 0
JobGoesOn (err e) = ⊥
JobGoesOn (ok info) = Lives info.state

-- The error of the job: the scheduler cannot say, its state is unknown, or it has ended.
abbrev pub JobSays : Text → Result SchedulerError JobInfo → WaitError → Type 0
JobSays job_id (err e) error = error ≡ scheduler_error e
JobSays job_id (ok info) error =
    ((info.state ≡ JobState.unknown) × (error ≡ tunnel_error (unknown_state job_id info.raw_state)))
    ⊎ (IsOver info.state
        × (error
            ≡ tunnel_error (
                job_ended_error record {
                  ended_job = job_id;
                  ended_state = info.raw_state;
                  ended_exit_code = info.exit_code;
                })))

-- A round that lets the wait go on
abbrev pub GoesOn : Text → EndpointRound → Type 0
GoesOn job_id r = (ReadsSsh r.attempt → ⊥) × StatusGoesOn r.status × JobGoesOn r.check

-- The error of a round with no SSH banner: that of the status, which comes first, or that of the job
abbrev pub Fails : Text → EndpointRound → WaitError → Type 0
Fails job_id r e = StatusSays r.status e ⊎ (StatusGoesOn r.status × JobSays job_id r.check e)

abbrev pub last_attempt : Option Attempt → List EndpointRound → Option Attempt
last_attempt last [] = last
last_attempt last (r ∷ rounds) = last_attempt (some r.attempt) rounds

-- What a round that ends the wait says
abbrev pub Says : Text → EndpointRound → Answered → Type 0
Says job_id r answer =
    (ReadsSsh r.attempt × (answer ≡ endpoint_answers))
    ⊎ ((e : WaitError) × (ReadsSsh r.attempt → ⊥) × Fails job_id r e × (answer ≡ ends_with e))

-- The first round that does not let the wait go on, if there is one, and what it says
pub record Ends (job_id : Text) (rounds : List EndpointRound) (answer : Answered) : Type 0 where
  pub before : List EndpointRound
  pub last : EndpointRound
  pub rest : List EndpointRound
  pub in_order : rounds ≡ before ++ last ∷ rest
  pub all_go_on : All (GoesOn job_id) before
  pub says : Says job_id last answer

later :
    (job_id : Text) (r : EndpointRound) (rounds : List EndpointRound) (answer : Answered)
    → GoesOn job_id r
    → Ends job_id rounds answer
    → Ends job_id (r ∷ rounds) answer
later job_id r rounds answer h e = record {
  before = r ∷ e.before;
  last = e.last;
  rest = e.rest;
  in_order = ap (λ rs. r ∷ rs) e.in_order;
  all_go_on = (h, e.all_go_on);
  says = e.says;
}

here :
    (job_id : Text) (r : EndpointRound) (rounds : List EndpointRound) (answer : Answered)
    → Says job_id r answer
    → Ends job_id (r ∷ rounds) answer
here job_id r rounds answer h = record {
  before = [];
  last = r;
  rest = rounds;
  in_order = refl;
  all_go_on = tt;
  says = h;
}

-- What the wait comes to, given the attempt that is the last one at the deadline
abbrev pub Outcome : Text → Option Attempt → List EndpointRound → Answered → Type 0
Outcome job_id last rounds answer =
    (All (GoesOn job_id) rounds × (answer ≡ too_late last)) ⊎ Ends job_id rounds answer

on_later :
    (job_id : Text) (r : EndpointRound) (last : Option Attempt) (rounds : List EndpointRound)
    (answer : Answered)
    → GoesOn job_id r
    → Outcome job_id last rounds answer
    → Outcome job_id last (r ∷ rounds) answer
on_later job_id r last rounds answer h (inl (go_on, late)) = inl ((h, go_on), late)
on_later job_id r last rounds answer h (inr e) = inr (later job_id r rounds answer h e)

is_there-some : (o : Option Text) → is_there o ≡ true → (rest : Text) × (o ≡ some rest)
is_there-some none h = cc
is_there-some (some rest) h = (rest, refl)

is_ssh-ReadsSsh : (attempt : Attempt) → is_ssh attempt ≡ true → ReadsSsh attempt
is_ssh-ReadsSsh no_banner h = cc
is_ssh-ReadsSsh (attempt_failed error) h = cc
is_ssh-ReadsSsh (banner text) h =
    let (rest, found) = is_there-some (strip_prefix (codes "SSH-") text) h in
    (rest, ap banner (strip_prefix_sound (codes "SSH-") text rest found))

ReadsSsh-is_ssh : (attempt : Attempt) → ReadsSsh attempt → is_ssh attempt ≡ true
ReadsSsh-is_ssh attempt (version, e) =
    ap is_ssh e ∙ ap is_there (strip_prefix-append (codes "SSH-") version)

not-ReadsSsh : (attempt : Attempt) → is_ssh attempt ≡ false → ReadsSsh attempt → ⊥
not-ReadsSsh attempt h reads = cc (h, ReadsSsh-is_ssh attempt reads)

-- What the scheduler's answer comes to
abbrev JobOutcome : Text → Result SchedulerError JobInfo → Option WaitError → Type 0
JobOutcome job_id check none = JobGoesOn check
JobOutcome job_id check (some e) = JobSays job_id check e

over_says :
    (job_id : Text) (info : JobInfo)
    → IsOver info.state
    → gone_error job_id info ≡ some (job_ended_error (ended_of job_id info))
    → JobOutcome job_id (ok info) (check_job job_id (some (ok info)))
over_says job_id info over e = rw (e, check_job) (inr (over, refl))

info-JobOutcome :
    (job_id : Text) (info : JobInfo) (state : JobState)
    → info.state ≡ state
    → JobOutcome job_id (ok info) (check_job job_id (some (ok info)))
unfolding gone_error
info-JobOutcome job_id info JobState.pending e = rw (e, gone_error) (inl refl)
info-JobOutcome job_id info JobState.running e = rw (e, gone_error) (inr (inl refl))
info-JobOutcome job_id info JobState.suspended e = rw (e, gone_error) (inr (inr refl))
info-JobOutcome job_id info JobState.succeeded e =
    over_says job_id info (inl e) (rw (e, gone_error))
info-JobOutcome job_id info JobState.failed e =
    over_says job_id info (inr (inl e)) (rw (e, gone_error))
info-JobOutcome job_id info JobState.ended e =
    over_says job_id info (inr (inr e)) (rw (e, gone_error))
info-JobOutcome job_id info JobState.unknown e = rw (e, gone_error) (inl (refl, refl))

check_job-JobOutcome :
    (job_id : Text) (check : Result SchedulerError JobInfo)
    → JobOutcome job_id check (check_job job_id (some check))
check_job-JobOutcome job_id (err e) = refl
check_job-JobOutcome job_id (ok info) = info-JobOutcome job_id info info.state refl

-- What a round comes to, once no SSH banner was read
abbrev RoundOutcome : Text → EndpointRound → Option WaitError → Type 0
RoundOutcome job_id r none = StatusGoesOn r.status × JobGoesOn r.check
RoundOutcome job_id r (some e) = Fails job_id r e

with_job :
    (job_id : Text) (r : EndpointRound) (o : Option WaitError)
    → StatusGoesOn r.status
    → JobOutcome job_id r.check o
    → RoundOutcome job_id r o
with_job job_id r none status h = (status, h)
with_job job_id r (some e) status h = inr (status, h)

status-RoundOutcome :
    (job_id : Text) (r : EndpointRound) (status : Result StatusError (Option WorkerStatus))
    → r.status ≡ status
    → RoundOutcome job_id r (failed_round job_id status r.check)
unfolding worker_gone
status-RoundOutcome job_id r (err x) e = inl (rw e refl)
status-RoundOutcome job_id r (ok none) e =
    with_job job_id r _ (rw e tt) (check_job-JobOutcome job_id r.check)
status-RoundOutcome job_id r (ok (some (worker_ready port))) e =
    with_job job_id r _ (rw e tt) (check_job-JobOutcome job_id r.check)
status-RoundOutcome job_id r (ok (some (worker_failed reason))) e = inl (rw e refl)
status-RoundOutcome job_id r (ok (some (worker_stopped exit_status))) e = inl (rw e refl)

round-GoesOn :
    (job_id : Text) (r : EndpointRound)
    → is_ssh r.attempt ≡ false
    → failed_round job_id r.status r.check ≡ none
    → GoesOn job_id r
round-GoesOn job_id r other goes =
    let (status, job) =
      subst (RoundOutcome job_id r) goes (status-RoundOutcome job_id r r.status refl) in
    (not-ReadsSsh r.attempt other, status, job)

round-Fails :
    (job_id : Text) (r : EndpointRound) (e : WaitError)
    → failed_round job_id r.status r.check ≡ some e
    → Fails job_id r e
round-Fails job_id r e fails =
    subst (RoundOutcome job_id r) fails (status-RoundOutcome job_id r r.status refl)

goes_on :
    (job_id : Text) (late last : Option Attempt) (r : EndpointRound) (rounds : List EndpointRound)
    → is_ssh r.attempt ≡ false
    → failed_round job_id r.status r.check ≡ none
    → wait_for_worker_endpoint job_id late last (r ∷ rounds)
      ≡ wait_for_worker_endpoint job_id late (some r.attempt) rounds
unfolding wait_for_worker_endpoint
goes_on job_id late last r rounds other goes = rw (other, goes, wait_for_worker_endpoint) refl

-- The wait ends with the first round that does not let it go on. The endpoint answers where that round read a banner that
-- starts with `SSH-`. Else the error is that of the worker's status, where it cannot be read or says that sshd did not start or
-- exited, and otherwise that of the job, where the scheduler cannot say, does not know its state, or has it as ended. Where all
-- rounds let it go on (no SSH banner, no such status, a job that is pending, running or suspended), the deadline passes, and
-- the error names the last attempt that failed before it, if any did.
pub wait_for_worker_endpoint-Outcome :
    (job_id : Text) (late last : Option Attempt) (rounds : List EndpointRound)
    → Outcome job_id
        (or_late late (last_attempt last rounds))
        rounds
        (wait_for_worker_endpoint job_id late last rounds)
unfolding wait_for_worker_endpoint
wait_for_worker_endpoint-Outcome job_id late last [] = inl (tt, refl)
wait_for_worker_endpoint-Outcome job_id late last (r ∷ rounds) =
    elim (Bool-cases (is_ssh r.attempt)) [
      | inl ssh ↦ inr (
          here job_id r rounds _
            (inl (is_ssh-ReadsSsh r.attempt ssh, rw (ssh, wait_for_worker_endpoint) refl)))
      | inr other ↦ elim (Option-cases (failed_round job_id r.status r.check)) [
        | inr (e, fails) ↦ inr (
            here job_id r rounds _ (
              inr (
                e,
                not-ReadsSsh r.attempt other,
                round-Fails job_id r e fails,
                rw (other, fails, wait_for_worker_endpoint) refl,
              )))
        | inl goes ↦
            subst
              (Outcome job_id (or_late late (last_attempt (some r.attempt) rounds)) (r ∷ rounds))
              (sym (goes_on job_id late last r rounds other goes))
              (on_later job_id r _ rounds _ (round-GoesOn job_id r other goes)
                (wait_for_worker_endpoint-Outcome job_id late (some r.attempt) rounds))
      ]
    ]
