-- ===== src/Tunnel/Session/Cleanup.antt =====
-- What cleanup finds: whether the job is still to be cancelled.
use ezhpcy.Prelude.{
  ℕ, ◌≡◌, ◌↔◌, ◌∙◌, refl, ap, Bool, true, false, ◌||◌, Option, none, some, List, [], ◌∷◌, arith,
  Option-cases, inl, inr, if◌then◌else◌,
}
use ezhpcy.Prelude.Result.{Result, ok, err}
use ezhpcy.Text.{Text}
use ezhpcy.Scheduler.Defs.{JobState, JobInfo, is_terminal}
use ezhpcy.Tunnel.Session.{
  TunnelError, Message, Session, report_phase, stop_session, blame, report_job, job_ended, fail,
  after_monitor, after_poll, monitor_poll, startup_poll, close_connection, watch_connection, Event,
  stop_called, reached, failed, connection_closed, connection_watched, monitored, polled, heartbeat,
  connections_changed, step, run, cancels_job, initial, Ended, requested, of_job, not_monitored,
  job_ended_error, connection_lost,
}

-- Whether the scheduler says, in an event, that the job has ended.
abbrev pub reports_end : Event → Bool
reports_end (monitored _ (ok info)) = is_terminal info.state
reports_end (polled _ info) = is_terminal info.state
reports_end _ = false

unfoldable pub any_end : List (Event × ℕ) → Bool
any_end [] = false
any_end ((e, _) ∷ events) = reports_end e || any_end events

stop-finished :
    (by_main : Bool) (error : Option TunnelError) (why : Option Message) (now : ℕ) (s : Session)
    → (stop_session by_main error why now s).job_finished ≡ s.job_finished
unfolding stop_session report_phase
stop-finished true error why now s = elim (Option-cases s.why) [
  | inl e ↦ rw (e, stop_session) refl
  | inr (w, e) ↦ rw (e, stop_session) refl
]
stop-finished false error why now s = elim (Option-cases s.why) [
  | inl e ↦ rw (e, stop_session) refl
  | inr (w, e) ↦ rw (e, stop_session) refl
]

job_ended-finished :
    (job_id : Text) (info : JobInfo) (s : Session) (x : JobState)
    → info.state ≡ x
    → (job_ended job_id info s).1.job_finished ≡ (is_terminal x || s.job_finished)
unfolding job_ended
job_ended-finished job_id info s JobState.pending e = rw (e, job_ended) refl
job_ended-finished job_id info s JobState.running e = rw (e, job_ended) refl
job_ended-finished job_id info s JobState.suspended e = rw (e, job_ended) refl
job_ended-finished job_id info s JobState.succeeded e = rw (e, job_ended) refl
job_ended-finished job_id info s JobState.failed e = rw (e, job_ended) refl
job_ended-finished job_id info s JobState.ended e = rw (e, job_ended) refl
job_ended-finished job_id info s JobState.unknown e = rw (e, job_ended) refl

fail-finished :
    (by_main : Bool) (error : TunnelError) (now : ℕ) (s : Session)
    → (fail by_main error now s).job_finished ≡ s.job_finished
unfolding fail
fail-finished by_main error now s = stop-finished by_main (some (blame s error)) none now s

after_monitor-finished :
    (now : ℕ) (r : Result TunnelError (Option Ended)) (s : Session)
    → (after_monitor now (r, s)).job_finished ≡ s.job_finished
after_monitor-finished now (err e) s = fail-finished false e now s
after_monitor-finished now (ok none) s = refl
after_monitor-finished now (ok (some ended)) s =
    stop-finished false none (some (of_job ended)) now s

after_poll-finished :
    (now : ℕ) (r : Result TunnelError (Option Ended)) (s : Session)
    → (after_poll now (r, s)).job_finished ≡ s.job_finished
after_poll-finished now (err e) s = fail-finished true e now s
after_poll-finished now (ok none) s = refl
after_poll-finished now (ok (some ended)) s = fail-finished true (job_ended_error ended) now s

polled-finished :
    (job_id : Text) (info : JobInfo) (now : ℕ) (s : Session)
    → (job_ended job_id info (report_job info now s)).1.job_finished
      ≡ (is_terminal info.state || s.job_finished)
unfolding report_job
polled-finished job_id info now s =
    job_ended-finished job_id info (report_job info now s) info.state refl

close-finished :
    (lost : Option Text) (s : Session) → (close_connection lost s).job_finished ≡ s.job_finished
unfolding close_connection
close-finished lost s = elim (Option-cases s.closed) [
  | inl e ↦ rw (e, close_connection) refl
  | inr (x, e) ↦ rw (e, close_connection) refl
]

watch-finished : (now : ℕ) (s : Session) → (watch_connection now s).job_finished ≡ s.job_finished
unfolding watch_connection
watch-finished now s = elim (Option-cases s.closed) [
  | inl e ↦ rw (e, watch_connection) refl
  | inr (lost, e) ↦ elim (Option-cases lost) [
    | inl clean ↦ rw (e ∙ ap some clean, watch_connection) refl
    | inr (x, broken) ↦
        rw (e ∙ ap some broken, watch_connection)
          (stop-finished false (some (connection_lost x)) none now s)
  ]
]

step-finished :
    (e : Event) (now : ℕ) (s : Session)
    → (step e now s).job_finished ≡ (reports_end e || s.job_finished)
unfolding step monitor_poll startup_poll
step-finished (stop_called why) now s = stop-finished false none (some (requested why)) now s
step-finished (reached phase) now s = unfold report_phase in refl
step-finished (failed by_main e) now s = fail-finished by_main e now s
step-finished (connection_closed lost) now s = close-finished lost s
step-finished connection_watched now s = watch-finished now s
step-finished (monitored job_id (err e)) now s = fail-finished false (not_monitored job_id e) now s
step-finished (monitored job_id (ok info)) now s =
    let (r, s') = job_ended job_id info (report_job info now s) in
    after_monitor-finished now r s' ∙ polled-finished job_id info now s
step-finished (polled job_id info) now s =
    let (r, s') = job_ended job_id info (report_job info now s) in
    after_poll-finished now r s' ∙ polled-finished job_id info now s
step-finished heartbeat now s = refl
step-finished (connections_changed n) now s = refl

run-finished :
    (events : List (Event × ℕ)) (s : Session)
    → (run events s).job_finished ≡ (any_end events || s.job_finished)
unfolding run any_end
run-finished [] s = refl
run-finished ((e, now) ∷ events) s =
    run-finished events (step e now s)
    ∙ ap (λ b. any_end events || b) (step-finished e now s)
    ∙ turn (reports_end e) (any_end events) s.job_finished
  where
    turn : (a b c : Bool) → (b || (a || c)) ≡ ((a || b) || c)
    turn a b c = ground arith

-- When cleanup comes, it asks to cancel the worker's job exactly when no answer that the scheduler has given in the session
-- said that the job ended.
pub cancels_job-run :
    (events : List (Event × ℕ)) (now : ℕ)
    → (cancels_job (run events (initial now)) ≡ true) ↔ (any_end events ≡ false)
unfolding cancels_job initial
cancels_job-run events now =
    negated (run events (initial now)).job_finished (any_end events)
      (run-finished events (initial now))
  where
    negated : (b a : Bool) → b ≡ (a || false) → ((if b then false else true) ≡ true) ↔ (a ≡ false)
    negated b a h = ground arith
