-- ===== src/Tunnel/Waiting/Job.antt =====
-- When the wait for the job succeeds.
use ezhpcy.Prelude.{
  ◌≡◌, ◌∙◌, ◌↔◌, refl, sym, ap, none, some, List, [], ◌∷◌, ◌++◌, All, Option-cases, inl, inr,
}
use ezhpcy.Prelude.Result.{Result, ok, err}
use ezhpcy.Text.{Text}
use ezhpcy.Scheduler.Defs.{JobState, JobInfo, SchedulerError}
use ezhpcy.Tunnel.Waiting.{poll, running_host, gone_error, wait_for_running_job}
use ezhpcy.Tunnel.Waiting.Scan.{scan, scan-Ends, scan-reached, after}

wait_for_running_job-scan :
    (job_id : Text) (answers : List (Result SchedulerError JobInfo))
    → wait_for_running_job job_id answers ≡ scan (poll job_id) answers
unfolding wait_for_running_job scan
wait_for_running_job-scan job_id [] = refl
wait_for_running_job-scan job_id (a ∷ answers) =
    ap (after (poll job_id a)) (wait_for_running_job-scan job_id answers)

-- The scheduler said that the job runs on a host, after answers that let it wait.
pub record RunsOn (job_id host : Text) (answers : List (Result SchedulerError JobInfo))
    : Type 0 where
  pub waiting : List (Result SchedulerError JobInfo)
  pub info : JobInfo
  pub later : List (Result SchedulerError JobInfo)
  pub in_turn : answers ≡ waiting ++ ok info ∷ later
  pub all_waiting : All (λ a. poll job_id a ≡ none) waiting
  pub running : info.state ≡ JobState.running
  pub on_host : info.host ≡ some host

running_host_sound :
    (info : JobInfo) (x : JobState) (host : Text)
    → info.state ≡ x
    → running_host info ≡ some host
    → (info.state ≡ JobState.running) × (info.host ≡ some host)
running_host_sound info JobState.running host e h = (e, rw (e, running_host) at h)
running_host_sound info JobState.pending host e h = cc (rw (e, running_host) at h)
running_host_sound info JobState.suspended host e h = cc (rw (e, running_host) at h)
running_host_sound info JobState.succeeded host e h = cc (rw (e, running_host) at h)
running_host_sound info JobState.failed host e h = cc (rw (e, running_host) at h)
running_host_sound info JobState.ended host e h = cc (rw (e, running_host) at h)
running_host_sound info JobState.unknown host e h = cc (rw (e, running_host) at h)

poll_ok :
    (job_id : Text) (a : Result SchedulerError JobInfo) (host : Text)
    → poll job_id a ≡ some (ok host)
    → (info : JobInfo) × (a ≡ ok info) × (running_host info ≡ some host)
poll_ok job_id (err e) host h = cc
poll_ok job_id (ok info) host h = elim (Option-cases (running_host info)) [
  | inr (x, e) ↦ (info, refl, e ∙ cc (rw (e, poll) at h))
  | inl e ↦ elim (Option-cases (gone_error job_id info)) [
    | inl f ↦ cc (rw (f, poll) at rw (e, poll) at h)
    | inr (x, f) ↦ cc (rw (f, poll) at rw (e, poll) at h)
  ]
]

wait_for_running_job-RunsOn :
    (job_id host : Text) (answers : List (Result SchedulerError JobInfo))
    → wait_for_running_job job_id answers ≡ ok host
    → RunsOn job_id host answers
wait_for_running_job-RunsOn job_id host answers h =
    let found =
      scan-Ends (poll job_id) answers host (sym (wait_for_running_job-scan job_id answers) ∙ h) in
    let (info, e, on) = poll_ok job_id found.last host found.decided in
    let (running, on_host) = running_host_sound info info.state host refl on in
    record {
      waiting = found.before;
      info = info;
      later = found.after;
      in_turn = found.shape ∙ ap (λ a. found.before ++ a ∷ found.after) e;
      all_waiting = found.quiet;
      running = running;
      on_host = on_host;
    }

poll_running :
    (job_id host : Text) (info : JobInfo)
    → info.state ≡ JobState.running
    → info.host ≡ some host
    → poll job_id (ok info) ≡ some (ok host)
poll_running job_id host info running on_host = rw (running_on, poll) refl
  where
    running_on : running_host info ≡ some host
    running_on = rw (running, running_host) on_host

wait_for_running_job-reached :
    (job_id host : Text) (answers : List (Result SchedulerError JobInfo))
    → RunsOn job_id host answers
    → wait_for_running_job job_id answers ≡ ok host
wait_for_running_job-reached job_id host answers r =
    wait_for_running_job-scan job_id answers
    ∙ ap (scan (poll job_id)) r.in_turn
    ∙ scan-reached (poll job_id) r.waiting (ok r.info) r.later (ok host) r.all_waiting
        (poll_running job_id host r.info r.running r.on_host)

-- The wait for the job returns a host exactly when the scheduler says that the job runs there, after answers that let
-- it wait: none of them an error, the end of the job or a host where it runs.
pub wait_for_running_job_iff :
    (job_id host : Text) (answers : List (Result SchedulerError JobInfo))
    → (wait_for_running_job job_id answers ≡ ok host) ↔ RunsOn job_id host answers
wait_for_running_job_iff job_id host answers = (
  wait_for_running_job-RunsOn job_id host answers,
  wait_for_running_job-reached job_id host answers,
)
