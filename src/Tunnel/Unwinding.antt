-- ===== src/Tunnel/Unwinding.antt =====
-- tunnel/session.py: how the stack of `_start`'s cleanup steps is run: `_cleanup` with its time limits, and `_stop_task`. Times
-- are whole seconds, and a step that is cancelled ends at once.
pub mod Bounded
use ezhpcy.Prelude.{
  ℕ, ◌+◌, Bool, true, false, Option, none, some, List, [], ◌∷◌, ltb, if◌then◌else◌,
}
use ezhpcy.Text.{Text}
use ezhpcy.Tunnel.Startup.{
  Cleanup, release_lock, close_login, stop_watcher, close_sftp, remove_control_directory, close_job,
  stop_output, cancel_worker, stop_heartbeats, close_port, remove_config, stop_monitor,
}

abbrev pub cleanup_seconds : ℕ
cleanup_seconds = 10

abbrev pub lock_release_seconds : ℕ
lock_release_seconds = 1

abbrev pub stop_grace_seconds : ℕ
stop_grace_seconds = 1

-- How a step goes if nothing cuts it off: it ends after so many seconds, or raises then, or never ends.
pub data Course : Type 0 where
  ends : ℕ → Course
  raises : ℕ → Text → Course
  hangs : Course

-- What is logged: nothing, or a warning
pub data Report : Type 0 where
  done : Report
  failed : Text → Report
  no_answer : Report
  did_not_stop : Report

-- `_cleanup`: what it reports, and how long it takes
unfoldable pub cleanup : ℕ → Course → Report × ℕ
cleanup seconds (ends t) = if ltb t seconds then (done, t) else (no_answer, seconds)
cleanup seconds (raises t e) = if ltb t seconds then (failed e, t) else (no_answer, seconds)
cleanup seconds hangs = (no_answer, seconds)

-- `asyncio.wait([task], timeout=seconds)`: whether the task is done, and how long it waits
abbrev pub wait_task : ℕ → Course → Bool × ℕ
wait_task seconds (ends t) = if ltb t seconds then (true, t) else (false, seconds)
wait_task seconds (raises t e) = if ltb t seconds then (true, t) else (false, seconds)
wait_task seconds hangs = (false, seconds)

abbrev pub task_report : Bool → Report
task_report true = done
task_report false = did_not_stop

-- `_stop_task` after `task.cancel()`: how the task goes once cancelled
unfoldable pub cancel_task : Course → Report × ℕ
cancel_task cancelled =
    let (stopped, t) = wait_task cleanup_seconds cancelled in (task_report stopped, t)

abbrev pub after_grace : Course → Bool × ℕ → Report × ℕ
after_grace cancelled (true, t) = (done, t)
after_grace cancelled (false, t) = let (report, u) = cancel_task cancelled in (report, t + u)

-- `_stop_task` with `stop`, which asks the task to end first
unfoldable pub stop_then_cancel : Course → Course → Report × ℕ
unfolding cancel_task
stop_then_cancel asked cancelled = after_grace cancelled (wait_task stop_grace_seconds asked)

-- What each step is given, by its kind: how it goes, and for a task also how it goes once cancelled.
pub record Courses : Type 0 where
  pub step : Cleanup → Course
  pub cancelled : Cleanup → Course

unfoldable pub run_step : Courses → Cleanup → Report × ℕ
unfolding cleanup cancel_task stop_then_cancel
run_step courses release_lock = cleanup lock_release_seconds (courses.step release_lock)
run_step courses close_login = cleanup cleanup_seconds (courses.step close_login)
run_step courses stop_watcher = cancel_task (courses.cancelled stop_watcher)
run_step courses close_sftp = cleanup cleanup_seconds (courses.step close_sftp)
run_step courses remove_control_directory =
    cleanup cleanup_seconds (courses.step remove_control_directory)
run_step courses close_job = (done, 0)
run_step courses stop_output =
    stop_then_cancel (courses.step stop_output) (courses.cancelled stop_output)
run_step courses cancel_worker = cleanup cleanup_seconds (courses.step cancel_worker)
run_step courses stop_heartbeats =
    stop_then_cancel (courses.step stop_heartbeats) (courses.cancelled stop_heartbeats)
run_step courses close_port = cleanup cleanup_seconds (courses.step close_port)
run_step courses remove_config = cleanup cleanup_seconds (courses.step remove_config)
run_step courses stop_monitor = cancel_task (courses.cancelled stop_monitor)

-- `AsyncExitStack.__aexit__`: each step in turn, with its report; and the time they take together
unfoldable pub unwind : Courses → List Cleanup → List (Cleanup × Report) × ℕ
unfolding run_step
unwind courses [] = ([], 0)
unwind courses (c ∷ cs) =
    let (report, t) = run_step courses c in
    let (reports, u) = unwind courses cs in ((c, report) ∷ reports, t + u)
