-- ===== src/Tunnel/Session/Stopping.antt =====
-- Why a tunnel stops: the first reason that comes up.
use ezhpcy.Prelude.{
  ℕ, ◌≡◌, ◌∙◌, refl, sym, ap, subst, false, Option, none, some, List, [], ◌∷◌, Option-cases, inl,
  inr,
}
use ezhpcy.Prelude.Result.{ok, err}
use ezhpcy.Text.{Text}
use ezhpcy.Tunnel.Session.{
  TunnelError, not_monitored, connection_lost, Message, requested, Session, report_phase,
  stop_session, monitor_poll, close_connection, watch_connection, Event, stop_called, reached,
  failed, connection_closed, connection_watched, monitored, polled, heartbeat, connections_changed,
  step, run,
}
use ezhpcy.Tunnel.Session.Reason.{Stop, watched, reason, lost_after, first_stop, stop_of}
use ezhpcy.Tunnel.Session.Follows.{
  Follows, stop_of-none, stop_of-some, Follows-quiet, Follows-fail, Follows-stop,
}
use ezhpcy.Tunnel.Session.Polls.{monitor-Follows, startup-Follows}

close-Follows :
    (lost : Option Text) (s : Session)
    → Follows (connection_closed lost) s (close_connection lost s)
unfolding reason
close-Follows lost s = elim (Option-cases s.closed) [
  | inl live ↦
      subst (λ s'. Follows (connection_closed lost) s s') (sym (close_first lost s live))
        (Follows-quiet (connection_closed lost) s (record s { closed = some lost }) refl refl
          (ap (lost_after (connection_closed lost)) (sym live)))
  | inr (was, closed) ↦
      subst (λ s'. Follows (connection_closed lost) s s') (sym (close_again lost s was closed))
        (Follows-quiet (connection_closed lost) s s refl refl
          (closed ∙ ap (lost_after (connection_closed lost)) (sym closed)))
]
  where
    close_first :
        (lost : Option Text) (s : Session)
        → s.closed ≡ none
        → close_connection lost s ≡ record s { closed = some lost }
    close_first lost s live = unfold close_connection in simp (live, close_connection) refl

    close_again :
        (lost : Option Text) (s : Session) (was : Option Text)
        → s.closed ≡ some was
        → close_connection lost s ≡ s
    close_again lost s was closed = unfold close_connection in simp (closed, close_connection) refl

watch_idle : (now : ℕ) (s : Session) → watched s.closed ≡ none → watch_connection now s ≡ s
watch_idle now s h = elim (Option-cases s.closed) [
  | inl live ↦ unfold watch_connection in simp (live, watch_connection) refl
  | inr (lost, closed) ↦ elim (Option-cases lost) [
    | inl clean ↦ unfold watch_connection in simp (closed ∙ ap some clean, watch_connection) refl
    | inr (x, broken) ↦ cc (ap watched (closed ∙ ap some broken), h)
  ]
]

watch_lost :
    (now : ℕ) (s : Session) (x : Text)
    → s.closed ≡ some (some x)
    → watch_connection now s ≡ stop_session false (some (connection_lost x)) none now s
unfolding watch_connection
watch_lost now s x h = simp (h, watch_connection) refl

watch-Follows : (now : ℕ) (s : Session) → Follows connection_watched s (watch_connection now s)
unfolding reason
watch-Follows now s = elim (Option-cases (watched s.closed)) [
  | inl idle ↦
      subst (λ s'. Follows connection_watched s s') (sym (watch_idle now s idle))
        (Follows-quiet connection_watched s s idle refl refl)
  | inr (stop, h) ↦
      let (x, closed) = watched_some s.closed stop h in
      subst (λ s'. Follows connection_watched s s') (sym (watch_lost now s x closed))
        (Follows-stop connection_watched false (some (connection_lost x)) none now s s
          (ap watched closed) refl refl refl refl)
]
  where
    watched_some :
        (c : Option (Option Text)) (stop : Stop)
        → watched c ≡ some stop
        → (x : Text) × (c ≡ some (some x))
    watched_some none stop h = cc
    watched_some (some none) stop h = cc
    watched_some (some (some x)) stop h = (x, refl)

step-Follows : (e : Event) (now : ℕ) (s : Session) → Follows e s (step e now s)
unfolding step
step-Follows (stop_called why) now s =
    Follows-stop (stop_called why) false none (some (requested why)) now s s (unfold reason in refl)
      refl refl refl refl
step-Follows (reached phase) now s =
    Follows-quiet (reached phase) s (report_phase phase now s) (unfold reason in refl)
      (unfold report_phase in refl) (unfold report_phase in refl)
step-Follows (failed by_main e) now s =
    Follows-fail (failed by_main e) by_main e now s s (unfold reason in refl) refl refl refl refl
step-Follows (connection_closed lost) now s = close-Follows lost s
step-Follows connection_watched now s = watch-Follows now s
step-Follows (monitored job_id (err e)) now s =
    unfold monitor_poll in
    Follows-fail (monitored job_id (err e)) false (not_monitored job_id e) now s s
      (unfold reason in refl) refl refl refl refl
step-Follows (monitored job_id (ok info)) now s = monitor-Follows job_id info now s
step-Follows (polled job_id info) now s = startup-Follows job_id info now s
step-Follows heartbeat now s = Follows-quiet heartbeat s _ (unfold reason in refl) refl refl
step-Follows (connections_changed n) now s =
    Follows-quiet (connections_changed n) s _ (unfold reason in refl) refl refl

stops :
    (s : Session) (w : Message) (x : Option TunnelError)
    → stop_of s ≡ some (w, x)
    → (s.why ≡ some w) × (s.error ≡ x)
stops s w x h = elim (Option-cases s.why) [
  | inl e ↦ cc (stop_of-none s e, h)
  | inr (v, e) ↦
      let same : (v, s.error) ≡ (w, x) = cc (stop_of-some s v e, h) in
      (e ∙ ap (λ (p : Stop). some p.0) same, ap (λ (p : Stop). p.1) same)
]

runs_on : (s : Session) → stop_of s ≡ none → s.why ≡ none
runs_on s h = elim (Option-cases s.why) [ inl e ↦ e | inr (v, e) ↦ cc (stop_of-some s v e, h) ]

-- A session that is stopping keeps its reason and its error, whatever happens.
pub run-stop_of :
    (events : List (Event × ℕ)) (s : Session) (w : Message)
    → s.why ≡ some w
    → stop_of (run events s) ≡ some (w, s.error)
unfolding run Follows
run-stop_of [] s w h = stop_of-some s w h
run-stop_of ((e, now) ∷ events) s w h =
    let (_, again, _) = step-Follows e now s in
    let (why, error) = stops (step e now s) w s.error (again w h ∙ stop_of-some s w h) in
    run-stop_of events (step e now s) w why ∙ ap (λ x. some (w, x)) error

-- A session stops for the first reason that comes up, and raises that reason's error; until one does,
-- it has none.
pub run-first_stop :
    (events : List (Event × ℕ)) (s : Session)
    → s.why ≡ none
    → stop_of (run events s) ≡ first_stop s.closed events
unfolding run first_stop Follows
run-first_stop [] s h = stop_of-none s h
run-first_stop ((e, now) ∷ events) s h =
    let (first, _, lost) = step-Follows e now s in
    elim (Option-cases (reason s.closed e)) [
      | inl quiet ↦
          rw (quiet, first_stop)
            (run-first_stop events (step e now s) (runs_on (step e now s) (first h ∙ quiet))
              ∙ ap (λ c. first_stop c events) lost)
      | inr ((w, x), stop) ↦
          let (why, error) = stops (step e now s) w x (first h ∙ stop) in
          rw (stop, first_stop)
            (run-stop_of events (step e now s) w why ∙ ap (λ y. some (w, y)) error)
    ]
