-- ===== src/Tunnel/Unwinding/Bounded.antt =====
-- Cleanup runs every step, and ends in time.
use ezhpcy.Prelude.{
  ℕ, ◌+◌, ◌≤◌, ◌≡◌, ◌∙◌, refl, ap, Bool, true, false, List, [], ◌∷◌, ◌++◌, arith, map,
}
use ezhpcy.Tunnel.Startup.{
  Cleanup, release_lock, close_login, stop_watcher, close_sftp, remove_control_directory, close_job,
  stop_output, cancel_worker, stop_heartbeats, close_port, remove_config, stop_monitor, Call,
  Outcome, startup, push, cleanup_order,
}
use ezhpcy.Tunnel.Startup.Undone.{registrations, cleanup_order-push}
use ezhpcy.Tunnel.Unwinding.{
  cleanup_seconds, Course, ends, raises, hangs, cleanup, wait_task, cancel_task, after_grace,
  stop_then_cancel, Courses, run_step, unwind,
}

abbrev pub budget : Cleanup → ℕ
budget release_lock = 1
budget close_job = 0
budget stop_output = 11
budget stop_heartbeats = 11
budget _ = 10

abbrev pub budgets : List Cleanup → ℕ
budgets [] = 0
budgets (c ∷ cs) = budget c + budgets cs

cleanup-le : (seconds : ℕ) (course : Course) → (cleanup seconds course).1 ≤ seconds
unfolding cleanup
cleanup-le seconds (ends t) = ground arith
cleanup-le seconds (raises t e) = ground arith
cleanup-le seconds hangs = omega arith

wait_task-le : (seconds : ℕ) (course : Course) → (wait_task seconds course).1 ≤ seconds
wait_task-le seconds (ends t) = ground arith
wait_task-le seconds (raises t e) = ground arith
wait_task-le seconds hangs = omega arith

cancel_task-le : (course : Course) → (cancel_task course).1 ≤ 10
unfolding cancel_task
cancel_task-le course = wait_task-le cleanup_seconds course

after_grace-le :
    (cancelled : Course) (waited : Bool × ℕ) → waited.1 ≤ 1 → (after_grace cancelled waited).1 ≤ 11
after_grace-le cancelled (true, t) h = omega arith
after_grace-le cancelled (false, t) h = omega (arith, cancel_task-le cancelled)

stop_then_cancel-le : (asked cancelled : Course) → (stop_then_cancel asked cancelled).1 ≤ 11
unfolding stop_then_cancel
stop_then_cancel-le asked cancelled =
    after_grace-le cancelled (wait_task 1 asked) (wait_task-le 1 asked)

run_step-le : (courses : Courses) (c : Cleanup) → (run_step courses c).1 ≤ budget c
unfolding run_step
run_step-le courses release_lock = cleanup-le 1 (courses.step release_lock)
run_step-le courses close_login = cleanup-le 10 (courses.step close_login)
run_step-le courses stop_watcher = cancel_task-le (courses.cancelled stop_watcher)
run_step-le courses close_sftp = cleanup-le 10 (courses.step close_sftp)
run_step-le courses remove_control_directory = cleanup-le 10 (courses.step remove_control_directory)
run_step-le courses close_job = omega arith
run_step-le courses stop_output =
    stop_then_cancel-le (courses.step stop_output) (courses.cancelled stop_output)
run_step-le courses cancel_worker = cleanup-le 10 (courses.step cancel_worker)
run_step-le courses stop_heartbeats =
    stop_then_cancel-le (courses.step stop_heartbeats) (courses.cancelled stop_heartbeats)
run_step-le courses close_port = cleanup-le 10 (courses.step close_port)
run_step-le courses remove_config = cleanup-le 10 (courses.step remove_config)
run_step-le courses stop_monitor = cancel_task-le (courses.cancelled stop_monitor)

unwind-le : (courses : Courses) (cs : List Cleanup) → (unwind courses cs).1 ≤ budgets cs
unfolding unwind
unwind-le courses [] = omega arith
unwind-le courses (c ∷ cs) = omega (arith, run_step-le courses c, unwind-le courses cs)

unwind-steps : (courses : Courses) (cs : List Cleanup) → map (λ r. r.0) (unwind courses cs).0 ≡ cs
unfolding unwind
unwind-steps courses [] = refl
unwind-steps courses (c ∷ cs) = ap (λ r. c ∷ r) (unwind-steps courses cs)

budgets-append : (a b : List Cleanup) → budgets (a ++ b) ≡ budgets a + budgets b
budgets-append [] b = omega arith
budgets-append (c ∷ a) b = omega (arith, budgets-append a b)

budgets-push : (a stack : List Cleanup) → budgets (push a stack) ≡ budgets a + budgets stack
unfolding push
budgets-push [] stack = omega arith
budgets-push (c ∷ a) stack = omega (arith, budgets-push a (c ∷ stack))

registered-le :
    (auto_provision interactive : Bool)
    → budgets (registrations (startup auto_provision interactive)) ≤ 103
unfolding startup
registered-le true true = omega arith
registered-le true false = omega arith
registered-le false true = omega arith
registered-le false false = omega arith

-- However a startup ended, and whatever its cleanup steps do, each step that was registered is run, newest first, and all of
-- them together take at most 103 seconds.
pub unwind-cleanup_order :
    (run : Call → Outcome) (auto_provision interactive : Bool) (courses : Courses)
    → let steps = cleanup_order run auto_provision interactive in
      (map (λ r. r.0) (unwind courses steps).0 ≡ steps) × ((unwind courses steps).1 ≤ 103)
unwind-cleanup_order run auto_provision interactive courses =
    let steps = cleanup_order run auto_provision interactive in
    let (done, left, order, all, whole) = cleanup_order-push run auto_provision interactive in
    let total : budgets steps ≡ budgets done + 0 = ap budgets order ∙ budgets-push done [] in
    let parts : budgets (registrations (startup auto_provision interactive))
        ≡ budgets done + budgets left =
      ap budgets all ∙ budgets-append done left in
    (
      unwind-steps courses steps,
      omega (arith, unwind-le courses steps, registered-le auto_provision interactive),
    )
