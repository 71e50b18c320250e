-- ===== src/Tests/Tunnel.antt =====
-- A tunnel whose job ends while it serves.
use ezhpcy.Prelude.{Bool, ℕ, ◌≡◌, ◌↔◌, refl, true, false, none, some, List, [], ◌∷◌}
use ezhpcy.Prelude.Int.{pos}
use ezhpcy.Prelude.Result.{ok}
use ezhpcy.Text.{codes}
use ezhpcy.Scheduler.Defs.{JobState, JobInfo}
use ezhpcy.Tunnel.Session.{
  serving, requested, Session, initial, Event, stop_called, reached, monitored, heartbeat,
  stop_session, report_phase, run, cancels_job,
}
use ezhpcy.Tunnel.Session.Reason.{first_stop, stop_of}
use ezhpcy.Tunnel.Session.Stopping.{run-first_stop}
use ezhpcy.Tunnel.Session.Cleanup.{any_end, cancels_job-run}
use ezhpcy.Text.{Text}
use ezhpcy.Config.Alias.{validate_alias}
use ezhpcy.Worker.Control.{worker_ready}
use ezhpcy.Tunnel.Waiting.{StatusRound}
use ezhpcy.Tunnel.Waiting.Endpoint.{
  attempt_failed, banner, EndpointRound, or_late, wait_for_worker_endpoint,
}
use ezhpcy.Tunnel.Waiting.Endpoint.Ended.{
  Outcome as EndpointOutcome, last_attempt, wait_for_worker_endpoint-Outcome,
}
use ezhpcy.Tunnel.SshConfig.{WorkerHost, Options}
use ezhpcy.Tunnel.SshConfig.Block.Reader.{argument}
use ezhpcy.Tunnel.Startup.{
  Cleanup, release_lock, close_login, stop_watcher, close_sftp, remove_control_directory,
  cancel_worker, stop_heartbeats, close_port, remove_config, stop_monitor, Call, submit_batch,
  Outcome, succeeds, ends_late, push, cleanup_order,
}

abbrev done : JobInfo
done = record {
  state = JobState.succeeded;
  raw_state = codes "DONE";
  host = none;
  exit_code = some (pos 0);
  pending_reason = none;
}

abbrev events : List (Event × ℕ)
events =
    (reached serving, 5)
    ∷ (heartbeat, 6)
    ∷ (monitored (codes "12") (ok done), 60)
    ∷ (stop_called (codes "Ctrl+C"), 61)
    ∷ []

abbrev idle : Session
idle = initial 0

not_stopping : idle.why ≡ none
unfolding initial
not_stopping = refl

run-first_stop_example : stop_of (run events idle) ≡ first_stop idle.closed events
run-first_stop_example = run-first_stop events idle not_stopping

abbrev interrupted : Session
interrupted = stop_session false none (some (requested (codes "Ctrl+C"))) 3 idle

stopping_already : interrupted.why ≡ some (requested (codes "Ctrl+C"))
unfolding stop_session report_phase initial
stopping_already = refl

cancels_job-run_example : (cancels_job (run events (initial 0)) ≡ true) ↔ (any_end events ≡ false)
cancels_job-run_example = cancels_job-run events 0

abbrev running : JobInfo
running = record {
  state = JobState.running;
  raw_state = codes "RUN";
  host = some (codes "n1");
  exit_code = none;
  pending_reason = none;
}

abbrev queued : JobInfo
queued = record {
  state = JobState.pending;
  raw_state = codes "PEND";
  host = none;
  exit_code = none;
  pending_reason = none;
}

abbrev silent : StatusRound
silent = record { status = ok none; check = some (ok running) }

abbrev ready : StatusRound
ready = record { status = ok (some (worker_ready 50000)); check = none }

abbrev host : WorkerHost
host = record {
  alias = codes "gpu-1";
  user = codes "me";
  identity_file = codes "/home/a b/.ssh/key";
  known_hosts = codes "/home/a \"b\"/known_hosts";
}

-- A user with one apostrophe, and one that starts with `#`, are no argument; of two backslashes, one is lost.
user_tests :
    (argument (codes "o'neil") ≡ none)
    × (argument (codes "#me") ≡ none)
    × (argument (codes "a\\\\b") ≡ some (codes "a\\b"))
unfolding argument
user_tests = (refl, refl, refl)

abbrev gpu_alias : Text
gpu_alias = codes "gpu-1"

abbrev locked : Text → Bool
locked alias = true

abbrev blocks : List Text
blocks = codes "active-gpu-1.conf" ∷ codes "active- .conf" ∷ []

gpu_alias_valid : validate_alias gpu_alias ≡ some gpu_alias
unfolding validate_alias
gpu_alias_valid = refl

abbrev printed : Options
printed =
    (codes "hostname", codes "127.0.0.1" ∷ [])
    ∷ (codes "port", codes "4022" ∷ [])
    ∷ (codes "user", codes "me" ∷ [])
    ∷ []

-- A startup whose job is submitted after the tunnel was told to stop.
abbrev too_late : Call → Outcome
too_late submit_batch = ends_late
too_late _ = succeeds

late_test :
    cleanup_order too_late true false
    ≡ cancel_worker ∷ remove_control_directory ∷ close_sftp ∷ stop_watcher ∷ close_login
      ∷ release_lock ∷ []
unfolding cleanup_order push
late_test = refl

-- The stack of a tunnel that serves.
order_test :
    cleanup_order (λ _. succeeds) true false
    ≡ stop_monitor ∷ remove_config ∷ close_port ∷ stop_heartbeats ∷ cancel_worker
      ∷ remove_control_directory ∷ close_sftp ∷ stop_watcher ∷ close_login ∷ release_lock ∷ []
unfolding cleanup_order push
order_test = refl

abbrev unreachable : EndpointRound
unreachable = record {
  attempt = attempt_failed (codes "refused");
  status = ok none;
  check = ok running;
}

abbrev answering : EndpointRound
answering = record { attempt = banner (codes "SSH-2.0-x"); status = ok none; check = ok running }

wait_for_worker_endpoint-Outcome_example :
    EndpointOutcome
      (codes "12")
      (or_late none (last_attempt none (unreachable ∷ answering ∷ [])))
      (unreachable ∷ answering ∷ [])
      (wait_for_worker_endpoint (codes "12") none none (unreachable ∷ answering ∷ []))
wait_for_worker_endpoint-Outcome_example =
    wait_for_worker_endpoint-Outcome (codes "12") none none (unreachable ∷ answering ∷ [])
