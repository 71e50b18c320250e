-- ===== src/Tunnel/Session/Polls.antt =====
-- The polls of the job: `_monitor_job`, and the startup's.
use ezhpcy.Prelude.{ℕ, ◌≡◌, refl, sym, ap, subst, true, false, none, some, inl, inr, ◌⊎◌}
use ezhpcy.Prelude.Result.{ok, err}
use ezhpcy.Text.{Text}
use ezhpcy.Scheduler.Defs.{JobState, JobInfo}
use ezhpcy.Tunnel.Session.{
  unknown_state, job_ended_error, of_job, Session, stop_session, report_job, ended_of, job_ended,
  fail, after_monitor, after_poll, monitor_poll, startup_poll, monitored, polled,
}
use ezhpcy.Tunnel.Session.Reason.{Verdict, lives, gone, unclear, verdict, reason}
use ezhpcy.Tunnel.Session.Follows.{Follows, Follows-quiet, Follows-fail, Follows-stop}

job_ended-lives :
    (job_id : Text) (info : JobInfo) (s : Session) (x : JobState)
    → info.state ≡ x
    → verdict x ≡ lives
    → job_ended job_id info s ≡ (ok none, s)
unfolding job_ended
job_ended-lives job_id info s JobState.pending e v = rw (e, job_ended) refl
job_ended-lives job_id info s JobState.running e v = rw (e, job_ended) refl
job_ended-lives job_id info s JobState.suspended e v = rw (e, job_ended) refl
job_ended-lives job_id info s JobState.succeeded e v = cc
job_ended-lives job_id info s JobState.failed e v = cc
job_ended-lives job_id info s JobState.ended e v = cc
job_ended-lives job_id info s JobState.unknown e v = cc

job_ended-gone :
    (job_id : Text) (info : JobInfo) (s : Session) (x : JobState)
    → info.state ≡ x
    → verdict x ≡ gone
    → job_ended job_id info s ≡ (ok (some (ended_of job_id info)), record s { job_finished = true })
unfolding job_ended
job_ended-gone job_id info s JobState.pending e v = cc
job_ended-gone job_id info s JobState.running e v = cc
job_ended-gone job_id info s JobState.suspended e v = cc
job_ended-gone job_id info s JobState.succeeded e v = rw (e, job_ended) refl
job_ended-gone job_id info s JobState.failed e v = rw (e, job_ended) refl
job_ended-gone job_id info s JobState.ended e v = rw (e, job_ended) refl
job_ended-gone job_id info s JobState.unknown e v = cc

job_ended-unclear :
    (job_id : Text) (info : JobInfo) (s : Session) (x : JobState)
    → info.state ≡ x
    → verdict x ≡ unclear
    → job_ended job_id info s ≡ (err (unknown_state job_id info.raw_state), s)
unfolding job_ended
job_ended-unclear job_id info s JobState.pending e v = cc
job_ended-unclear job_id info s JobState.running e v = cc
job_ended-unclear job_id info s JobState.suspended e v = cc
job_ended-unclear job_id info s JobState.succeeded e v = cc
job_ended-unclear job_id info s JobState.failed e v = cc
job_ended-unclear job_id info s JobState.ended e v = cc
job_ended-unclear job_id info s JobState.unknown e v = rw (e, job_ended) refl

Verdict-cases : (v : Verdict) → (v ≡ lives) ⊎ ((v ≡ gone) ⊎ (v ≡ unclear))
Verdict-cases lives = inl refl
Verdict-cases gone = inr (inl refl)
Verdict-cases unclear = inr (inr refl)

monitor_lives :
    (job_id : Text) (info : JobInfo) (now : ℕ) (s : Session)
    → verdict info.state ≡ lives
    → monitor_poll job_id (ok info) now s ≡ report_job info now s
unfolding monitor_poll
monitor_lives job_id info now s v =
    ap (after_monitor now) (job_ended-lives job_id info (report_job info now s) info.state refl v)

monitor_gone :
    (job_id : Text) (info : JobInfo) (now : ℕ) (s : Session)
    → verdict info.state ≡ gone
    → monitor_poll job_id (ok info) now s
      ≡ stop_session false none
          (some (of_job (ended_of job_id info)))
          now
          (record (report_job info now s) { job_finished = true })
unfolding monitor_poll
monitor_gone job_id info now s v =
    ap (after_monitor now) (job_ended-gone job_id info (report_job info now s) info.state refl v)

monitor_unclear :
    (job_id : Text) (info : JobInfo) (now : ℕ) (s : Session)
    → verdict info.state ≡ unclear
    → monitor_poll job_id (ok info) now s
      ≡ fail false (unknown_state job_id info.raw_state) now (report_job info now s)
unfolding monitor_poll
monitor_unclear job_id info now s v =
    ap (after_monitor now) (job_ended-unclear job_id info (report_job info now s) info.state refl v)

startup_lives :
    (job_id : Text) (info : JobInfo) (now : ℕ) (s : Session)
    → verdict info.state ≡ lives
    → startup_poll job_id info now s ≡ report_job info now s
unfolding startup_poll
startup_lives job_id info now s v =
    ap (after_poll now) (job_ended-lives job_id info (report_job info now s) info.state refl v)

startup_gone :
    (job_id : Text) (info : JobInfo) (now : ℕ) (s : Session)
    → verdict info.state ≡ gone
    → startup_poll job_id info now s
      ≡ fail true
          (job_ended_error (ended_of job_id info))
          now
          (record (report_job info now s) { job_finished = true })
unfolding startup_poll
startup_gone job_id info now s v =
    ap (after_poll now) (job_ended-gone job_id info (report_job info now s) info.state refl v)

startup_unclear :
    (job_id : Text) (info : JobInfo) (now : ℕ) (s : Session)
    → verdict info.state ≡ unclear
    → startup_poll job_id info now s
      ≡ fail true (unknown_state job_id info.raw_state) now (report_job info now s)
unfolding startup_poll
startup_unclear job_id info now s v =
    ap (after_poll now) (job_ended-unclear job_id info (report_job info now s) info.state refl v)

pub monitor-Follows :
    (job_id : Text) (info : JobInfo) (now : ℕ) (s : Session)
    → Follows (monitored job_id (ok info)) s (monitor_poll job_id (ok info) now s)
unfolding reason report_job
monitor-Follows job_id info now s =
    let e = monitored job_id (ok info) in
    let follow : Session → Type 0 = λ s'. Follows e s s' in
    elim (Verdict-cases (verdict info.state)) [
      | inl v ↦
          subst follow (sym (monitor_lives job_id info now s v))
            (Follows-quiet e s (report_job info now s) (rw (v, reason) refl) refl refl)
      | inr (inl v) ↦ subst follow (sym (monitor_gone job_id info now s v)) (
          Follows-stop e false none (some (of_job (ended_of job_id info))) now s _
            (rw (v, reason) refl) refl refl refl refl)
      | inr (inr v) ↦ subst follow (sym (monitor_unclear job_id info now s v)) (
          Follows-fail e false (unknown_state job_id info.raw_state) now s _ (rw (v, reason) refl)
            refl refl refl refl)
    ]

pub startup-Follows :
    (job_id : Text) (info : JobInfo) (now : ℕ) (s : Session)
    → Follows (polled job_id info) s (startup_poll job_id info now s)
unfolding reason report_job
startup-Follows job_id info now s =
    let e = polled job_id info in
    let follow : Session → Type 0 = λ s'. Follows e s s' in
    elim (Verdict-cases (verdict info.state)) [
      | inl v ↦
          subst follow (sym (startup_lives job_id info now s v))
            (Follows-quiet e s (report_job info now s) (rw (v, reason) refl) refl refl)
      | inr (inl v) ↦ subst follow (sym (startup_gone job_id info now s v)) (
          Follows-fail e true (job_ended_error (ended_of job_id info)) now s _ (rw (v, reason) refl)
            refl refl refl refl)
      | inr (inr v) ↦ subst follow (sym (startup_unclear job_id info now s v)) (
          Follows-fail e true (unknown_state job_id info.raw_state) now s _ (rw (v, reason) refl)
            refl refl refl refl)
    ]
