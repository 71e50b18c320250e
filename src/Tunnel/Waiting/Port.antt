-- ===== src/Tunnel/Waiting/Port.antt =====
-- When the wait for the worker's port succeeds.
use ezhpcy.Prelude.{
  ℕ, ◌≡◌, ◌∙◌, ◌↔◌, refl, sym, ap, Option, none, some, List, [], ◌∷◌, ◌++◌, All, Option-cases, inl,
  inr,
}
use ezhpcy.Prelude.Result.{Result, ok, Result-cases}
use ezhpcy.Text.{Text}
use ezhpcy.Scheduler.Defs.{JobInfo, SchedulerError}
use ezhpcy.Worker.Control.{WorkerStatus, worker_ready, worker_failed, worker_stopped}
use ezhpcy.Tunnel.Session.{worker_gone}
use ezhpcy.Tunnel.Waiting.{
  StatusRound, round, ready_of, status_round, check_job, wait_for_ready_port,
}
use ezhpcy.Tunnel.Waiting.Scan.{scan, scan-Ends, scan-reached, after}

wait_for_ready_port-scan :
    (job_id : Text) (rounds : List StatusRound)
    → wait_for_ready_port job_id rounds ≡ scan (round job_id) rounds
unfolding wait_for_ready_port scan
wait_for_ready_port-scan job_id [] = refl
wait_for_ready_port-scan job_id (r ∷ rounds) =
    ap (after (round job_id r)) (wait_for_ready_port-scan job_id rounds)

-- The worker said that it is ready on a port, after rounds in which neither its status nor its job's state ended the wait.
pub record ReadyOn (job_id : Text) (port : ℕ) (rounds : List StatusRound) : Type 0 where
  pub waited : List StatusRound
  pub ready_round : StatusRound
  pub rest : List StatusRound
  pub in_order : rounds ≡ waited ++ ready_round ∷ rest
  pub all_waited : All (λ r. round job_id r ≡ none) waited
  pub says_ready : ready_round.status ≡ ok (some (worker_ready port))

ready_of_sound :
    (status : Option WorkerStatus) (port : ℕ)
    → ready_of status ≡ some port
    → status ≡ some (worker_ready port)
ready_of_sound none port h = cc
ready_of_sound (some (worker_ready p)) port h = cc
ready_of_sound (some (worker_failed _)) port h = cc
ready_of_sound (some (worker_stopped _)) port h = cc

status_round_ok :
    (job_id : Text) (status : Option WorkerStatus) (check : Option (Result SchedulerError JobInfo))
    (port : ℕ)
    → status_round job_id status check ≡ some (ok port)
    → status ≡ some (worker_ready port)
status_round_ok job_id status check port h = elim (Option-cases (ready_of status)) [
  | inr (p, e) ↦ ready_of_sound status port (e ∙ cc (rw (e, status_round) at h))
  | inl e ↦ elim (Option-cases (worker_gone status)) [
    | inr (x, f) ↦ cc (rw (f, status_round) at rw (e, status_round) at h)
    | inl f ↦ elim (Option-cases (check_job job_id check)) [
      | inl g ↦ cc (rw (g, status_round) at rw (f, status_round) at rw (e, status_round) at h)
      | inr (x, g) ↦ cc (rw (g, status_round) at rw (f, status_round) at rw (e, status_round) at h)
    ]
  ]
]

round_ok :
    (job_id : Text) (r : StatusRound) (port : ℕ)
    → round job_id r ≡ some (ok port)
    → r.status ≡ ok (some (worker_ready port))
round_ok job_id r port h = elim (Result-cases r.status) [
  | inr (x, e) ↦ cc (rw (e, round) at h)
  | inl (status, e) ↦ e ∙ ap ok (status_round_ok job_id status r.check port (rw (e, round) at h))
]

round_ready :
    (job_id : Text) (r : StatusRound) (port : ℕ)
    → r.status ≡ ok (some (worker_ready port))
    → round job_id r ≡ some (ok port)
round_ready job_id r port h = rw (h, round) refl

-- The wait for sshd returns a port exactly when the worker says that it is ready there, after rounds that let it wait:
-- in none of them had sshd failed or stopped, or was the job found to be over.
pub wait_for_ready_port_iff :
    (job_id : Text) (port : ℕ) (rounds : List StatusRound)
    → (wait_for_ready_port job_id rounds ≡ ok port) ↔ ReadyOn job_id port rounds
wait_for_ready_port_iff job_id port rounds = (forward, backward)
  where
    forward : wait_for_ready_port job_id rounds ≡ ok port → ReadyOn job_id port rounds
    forward h =
        let found =
          scan-Ends (round job_id) rounds port (sym (wait_for_ready_port-scan job_id rounds) ∙ h) in
        record {
          waited = found.before;
          ready_round = found.last;
          rest = found.after;
          in_order = found.shape;
          all_waited = found.quiet;
          says_ready = round_ok job_id found.last port found.decided;
        }

    backward : ReadyOn job_id port rounds → wait_for_ready_port job_id rounds ≡ ok port
    backward r =
        wait_for_ready_port-scan job_id rounds
        ∙ ap (scan (round job_id)) r.in_order
        ∙ scan-reached (round job_id) r.waited r.ready_round r.rest (ok port) r.all_waited
            (round_ready job_id r.ready_round port r.says_ready)
