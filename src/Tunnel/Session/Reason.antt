-- ===== src/Tunnel/Session/Reason.antt =====
-- An account of when a tunnel stops, and why, that knows nothing of its steps.
use ezhpcy.Prelude.{ℕ, Option, none, some, List, [], ◌∷◌}
use ezhpcy.Prelude.Result.{ok, err}
use ezhpcy.Text.{Text}
use ezhpcy.Scheduler.Defs.{JobState}
use ezhpcy.Tunnel.Session.{
  TunnelError, unknown_state, job_ended_error, not_monitored, connection_lost, Message, of_error,
  requested, of_job, Session, ended_of, Event, stop_called, reached, failed, connection_closed,
  connection_watched, monitored, polled, heartbeat, connections_changed,
}

-- What the tunnel says when it stops, and the error that `run` raises, if any.
abbrev pub Stop : Type 0
Stop = Message × Option TunnelError

abbrev pub failing : TunnelError → Stop
failing e = (of_error e, some e)

-- After the login connection is lost, an error is put down to that.
abbrev pub blamed : Option (Option Text) → TunnelError → TunnelError
blamed (some (some e)) error = connection_lost e
blamed _ error = error

abbrev pub watched : Option (Option Text) → Option Stop
watched (some (some e)) = some (failing (connection_lost e))
watched _ = none

-- What a job's state says about the job.
pub data Verdict : Type 0 where
  lives gone unclear : Verdict

abbrev pub verdict : JobState → Verdict
verdict JobState.pending = lives
verdict JobState.running = lives
verdict JobState.suspended = lives
verdict JobState.succeeded = gone
verdict JobState.failed = gone
verdict JobState.ended = gone
verdict JobState.unknown = unclear

-- The reason to stop that an event gives, if any, in a tunnel that is not stopping.
unfoldable pub reason : Option (Option Text) → Event → Option Stop
reason lost (stop_called why) = some (requested why, none)
reason lost (reached _) = none
reason lost (failed _ e) = some (failing (blamed lost e))
reason lost (connection_closed _) = none
reason lost connection_watched = watched lost
reason lost (monitored job_id (err e)) = some (failing (blamed lost (not_monitored job_id e)))
reason lost (monitored job_id (ok info)) = elim (verdict info.state) [
  | lives ↦ none
  | gone ↦ some (of_job (ended_of job_id info), none)
  | unclear ↦ some (failing (blamed lost (unknown_state job_id info.raw_state)))
]
reason lost (polled job_id info) = elim (verdict info.state) [
  | lives ↦ none
  | gone ↦ some (failing (blamed lost (job_ended_error (ended_of job_id info))))
  | unclear ↦ some (failing (blamed lost (unknown_state job_id info.raw_state)))
]
reason lost heartbeat = none
reason lost (connections_changed _) = none

-- How the login connection ended, after an event.
abbrev pub lost_after : Event → Option (Option Text) → Option (Option Text)
lost_after (connection_closed lost) none = some lost
lost_after _ lost = lost

unfoldable pub first_stop : Option (Option Text) → List (Event × ℕ) → Option Stop
unfolding reason
first_stop lost [] = none
first_stop lost ((e, _) ∷ events) =
    let later = first_stop (lost_after e lost) events in
    elim (reason lost e) [ none ↦ later | some stop ↦ some stop ]

-- Why the session stops, and with what error.
abbrev pub stop_of : Session → Option Stop
stop_of s = elim s.why [ none ↦ none | some why ↦ some (why, s.error) ]
