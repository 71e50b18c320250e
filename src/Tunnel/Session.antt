-- ===== src/Tunnel/Session.antt =====
-- tunnel/session.py: `TunnelSession` as a state that its methods change, and the events that call them:
-- what the main task and the background tasks do between two awaits is one step.
pub mod Cleanup
pub mod Follows
pub mod Polls
pub mod Reason
pub mod Stopping
use ezhpcy.Prelude.{
  ℕ, zero, suc, ◌+◌, Bool, true, false, ◌&&◌, Option, none, some, List, [], ◌∷◌, ◌++◌,
  if◌then◌else◌, ltb,
}
use ezhpcy.Prelude.Int.{ℤ}
use ezhpcy.Prelude.Result.{Result, ok, err}
use ezhpcy.Text.{Text, codes}
use ezhpcy.Scheduler.Defs.{JobState, JobInfo, SchedulerError, is_terminal}
use ezhpcy.Worker.Control.{WorkerStatus, worker_ready, worker_failed, worker_stopped}

pub data Phase : Type 0 where
  connecting preparing submitting queued starting serving stopping : Phase

-- `TunnelStatus`, less what a tunnel never changes. Times are readings of the clock.
pub record TunnelStatus : Type 0 where
  pub phase : Phase
  pub since : ℕ
  pub job_id : Option Text
  pub job : Option JobInfo
  pub running_since : Option ℕ
  pub worker : Option Text
  pub last_heartbeat : Option ℕ
  pub connections : ℕ

-- The values of "worker job … ended in scheduler state … with exit code …".
pub record Ended : Type 0 where
  pub ended_job : Text
  pub ended_state : Text
  pub ended_exit_code : Option ℤ

-- What stops a tunnel, by what raises it: a `TunnelError`, or another exception with its text.
pub data TunnelError : Type 0 where
  unknown_state : Text → Text → TunnelError
  job_ended_error : Ended → TunnelError
  not_started_in_time : Text → TunnelError
  not_monitored : Text → SchedulerError → TunnelError
  scheduler_failed : SchedulerError → TunnelError
  connection_lost : Text → TunnelError
  sshd_failed : Text → TunnelError
  sshd_exited : ℤ → TunnelError
  other_error : Text → TunnelError

-- What "Stopping tunnel: …" says.
pub data Message : Type 0 where
  of_error : TunnelError → Message
  requested : Text → Message
  of_job : Ended → Message

-- `closed` is the login connection's future: not done, or its result.
pub record Session : Type 0 where
  pub status : TunnelStatus
  pub job_finished : Bool
  pub why : Option Message
  pub error : Option TunnelError
  pub cancelled_main_task : Bool
  pub closed : Option (Option Text)

-- `__init__`, at the clock's `now`
unfoldable pub initial : ℕ → Session
initial now = record {
  status = record {
    phase = connecting;
    since = now;
    job_id = none;
    job = none;
    running_since = none;
    worker = none;
    last_heartbeat = none;
    connections = 0;
  };
  job_finished = false;
  why = none;
  error = none;
  cancelled_main_task = false;
  closed = none;
}

abbrev enter_phase : Phase → ℕ → TunnelStatus → TunnelStatus
enter_phase phase now status = elim status.phase [
  | stopping ↦ status
  | _ ↦ record status { phase = phase; since = now }
]

-- `_report(phase)`; changes of other fields are made by its callers.
unfoldable pub report_phase : Phase → ℕ → Session → Session
report_phase phase now s = record s { status = enter_phase phase now s.status }

abbrev message_of : Option TunnelError → Option Message → Message
message_of error (some why) = why
message_of none none = requested (codes "None")
message_of (some e) none = of_error e

-- `_stop`, called by the main task or by another.
unfoldable pub stop_session : Bool → Option TunnelError → Option Message → ℕ → Session → Session
unfolding report_phase
stop_session by_main error why now s = elim s.why [
  | some _ ↦ s
  | none ↦
      let stopped =
        report_phase stopping now (record s { why = some (message_of error why); error = error }) in
      if by_main then stopped else record stopped { cancelled_main_task = true }
]

-- `_blame`
unfoldable pub blame : Session → TunnelError → TunnelError
blame s error = elim s.closed [
  | none ↦ error
  | some lost ↦ elim lost [ none ↦ error | some e ↦ connection_lost e ]
]

abbrev since_running : Option ℕ → JobState → ℕ → Option ℕ
since_running none JobState.running now = some now
since_running since _ now = since

-- `_report_job`
unfoldable pub report_job : JobInfo → ℕ → Session → Session
report_job info now s = record s {
  status = record s.status {
    job = some info;
    running_since = since_running s.status.running_since info.state now;
  };
}

abbrev pub ended_of : Text → JobInfo → Ended
ended_of job_id info = record {
  ended_job = job_id;
  ended_state = info.raw_state;
  ended_exit_code = info.exit_code;
}

-- `_job_ended`: it raises for an unknown state.
unfoldable pub job_ended : Text → JobInfo → Session → Result TunnelError (Option Ended) × Session
job_ended job_id info s = elim info.state [
  | JobState.unknown ↦ (err (unknown_state job_id info.raw_state), s)
  | JobState.pending ↦ (ok none, s)
  | JobState.running ↦ (ok none, s)
  | JobState.suspended ↦ (ok none, s)
  | _ ↦ (ok (some (ended_of job_id info)), record s { job_finished = true })
]

-- `_stop_on_failure` and the handler of `run`: the error of a task, blamed.
unfoldable pub fail : Bool → TunnelError → ℕ → Session → Session
unfolding blame stop_session
fail by_main error now s = stop_session by_main (some (blame s error)) none now s

abbrev pub after_monitor : ℕ → Result TunnelError (Option Ended) × Session → Session
after_monitor now (err e, s) = fail false e now s
after_monitor now (ok none, s) = s
after_monitor now (ok (some ended), s) = stop_session false none (some (of_job ended)) now s

abbrev pub after_poll : ℕ → Result TunnelError (Option Ended) × Session → Session
after_poll now (err e, s) = fail true e now s
after_poll now (ok none, s) = s
after_poll now (ok (some ended), s) = fail true (job_ended_error ended) now s

-- One poll of `_monitor_job`, after the scheduler answered.
unfoldable pub monitor_poll : Text → Result SchedulerError JobInfo → ℕ → Session → Session
unfolding report_job job_ended fail stop_session
monitor_poll job_id (err e) now s = fail false (not_monitored job_id e) now s
monitor_poll job_id (ok info) now s =
    after_monitor now (job_ended job_id info (report_job info now s))

-- One poll of `_wait_for_running_job`, or one of `_check_job_lives`: the startup fails where the job has
-- ended.
unfoldable pub startup_poll : Text → JobInfo → ℕ → Session → Session
unfolding report_job job_ended fail
startup_poll job_id info now s = after_poll now (job_ended job_id info (report_job info now s))

-- What happens to a session.
pub data Event : Type 0 where
  -- `stop(why)`, from the CLI.
  stop_called : Text → Event
  -- `_start` reaches a phase.
  reached : Phase → Event
  -- `_start` raises, or a background task does.
  failed : Bool → TunnelError → Event
  -- The login connection ends, with an error or without; later the watcher sees it.
  connection_closed : Option Text → Event
  connection_watched : Event
  monitored : Text → Result SchedulerError JobInfo → Event
  polled : Text → JobInfo → Event
  heartbeat : Event
  connections_changed : ℕ → Event

-- The future that `closed` is gets its result once.
unfoldable pub close_connection : Option Text → Session → Session
close_connection lost s = elim s.closed [ none ↦ record s { closed = some lost } | some _ ↦ s ]

-- `_watch_connection`, when it sees that `closed` is done
unfoldable pub watch_connection : ℕ → Session → Session
unfolding stop_session
watch_connection now s = elim s.closed [
  | none ↦ s
  | some lost ↦ elim lost [
    | none ↦ s
    | some e ↦ stop_session false (some (connection_lost e)) none now s
  ]
]

unfoldable pub step : Event → ℕ → Session → Session
unfolding stop_session report_phase fail close_connection watch_connection monitor_poll startup_poll
step (stop_called why) now s = stop_session false none (some (requested why)) now s
step (reached phase) now s = report_phase phase now s
step (failed by_main e) now s = fail by_main e now s
step (connection_closed lost) now s = close_connection lost s
step connection_watched now s = watch_connection now s
step (monitored job_id r) now s = monitor_poll job_id r now s
step (polled job_id info) now s = startup_poll job_id info now s
step heartbeat now s = record s { status = record s.status { last_heartbeat = some now } }
step (connections_changed n) now s = record s { status = record s.status { connections = n } }

-- Events in turn, each at its time.
unfoldable pub run : List (Event × ℕ) → Session → Session
unfolding step
run [] s = s
run ((e, now) ∷ events) s = run events (step e now s)

-- `_cancel_job`: whether it asks the scheduler.
unfoldable pub cancels_job : Session → Bool
cancels_job s = if s.job_finished then false else true

-- `_worker_gone`
unfoldable pub worker_gone : Option WorkerStatus → Option TunnelError
worker_gone (some (worker_failed reason)) = some (sshd_failed reason)
worker_gone (some (worker_stopped exit_status)) = some (sshd_exited exit_status)
worker_gone _ = none
