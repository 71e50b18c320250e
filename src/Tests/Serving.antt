-- ===== src/Tests/Serving.antt =====
-- A tunnel's job, its heartbeats and its forwarded port while it serves, and how its cleanup steps are run.
use ezhpcy.Prelude.{
  ◌≡◌, ◌≤◌, refl, true, false, Option, none, some, List, [], ◌∷◌, ◌++◌, arith, map,
}
use ezhpcy.Prelude.Result.{ok}
use ezhpcy.Text.{Text, codes}
use ezhpcy.Text.Split.Lines.{file_lines}
use ezhpcy.Scheduler.Interactive.{Bytes, Read, chunk, submit_interactive}
use ezhpcy.Scheduler.Interactive.Drained.{Drains, submit_interactive-Drains}
use ezhpcy.Tunnel.Output.{logged, log_lines, all_but_last}
use ezhpcy.Tunnel.Output.Lines.{AreShown, concat, logged-file_lines}
use ezhpcy.Tunnel.Heartbeats.{send_heartbeats}
use ezhpcy.Tunnel.Heartbeats.Renewed.{Renews, send_heartbeats-Renews}
use ezhpcy.Tunnel.Startup.{succeeds, cleanup_order}
use ezhpcy.Tunnel.Unwinding.{Courses, hangs, unwind}
use ezhpcy.Tunnel.Unwinding.Bounded.{unwind-cleanup_order}
use ezhpcy.Forwarding.{Event, accepted, channel_opened, channel_failed, closed_end, opened, run}
use ezhpcy.Forwarding.Counted.{IsCounted, run-IsCounted}
use ezhpcy.Worker.Control.{WorkerControl}
use ezhpcy.Worker.Control.Publish.{IsControl}
use ezhpcy.Tests.Base.{scratch, worker_job}
use ezhpcy.Tests.Server.{Files, memory, memory_files}

-- A submission that prints the job's ID after its first chunk, and then the shell's prompt.
abbrev reads : List Read
reads = chunk (codes "Job <1") ∷ chunk (codes "2>\n") ∷ chunk (codes "$ ") ∷ chunk [] ∷ []

abbrev as_it_is : Bytes → Text
as_it_is bytes = bytes

-- A pattern that wants more than six characters
abbrev search : Text → Option Text
search (a ∷ b ∷ c ∷ d ∷ e ∷ f ∷ g ∷ s) = some (f ∷ g ∷ [])
search s = none

submit_interactive-Drains_example :
    Drains as_it_is search worker_job reads
      (submit_interactive as_it_is search none (codes "bsub" ∷ []) worker_job (ok reads))
submit_interactive-Drains_example =
    submit_interactive-Drains as_it_is search none (codes "bsub" ∷ []) worker_job reads

abbrev chunks : List Text
chunks = codes "a\nb" ∷ codes "c\r\n" ∷ codes "d" ∷ []

-- A terminal's text that has no escape sequence
abbrev as_read : Text → Text
as_read line = line

logged_test : logged as_read [] chunks [] ≡ codes "a" ∷ codes "bc" ∷ codes "d" ∷ []
unfolding logged log_lines all_but_last
logged_test = refl

logged-file_lines_example :
    AreShown as_read (file_lines (concat chunks ++ [])) (logged as_read [] chunks [])
logged-file_lines_example = logged-file_lines as_read chunks [] tt

abbrev control : WorkerControl
control = record {
  directory = scratch;
  token = codes "a1b2";
  ports = 50000 ∷ [];
  sequence = 1;
  leases = [];
}

abbrev no_files : Files
no_files path = none

control-IsControl : IsControl control
unfolding IsControl
control-IsControl = (omega arith, tt)

send_heartbeats-Renews_example :
    Renews memory memory_files control 0
      (send_heartbeats memory (false ∷ true ∷ []) control no_files)
send_heartbeats-Renews_example =
    send_heartbeats-Renews memory memory_files (false ∷ true ∷ []) control no_files
      control-IsControl

abbrev all_hang : Courses
all_hang = record { step = λ c. hangs; cancelled = λ c. hangs }

unwind-cleanup_order_example :
    (map (λ r. r.0) (unwind all_hang (cleanup_order (λ c. succeeds) true true)).0
      ≡ cleanup_order (λ c. succeeds) true true)
    × ((unwind all_hang (cleanup_order (λ c. succeeds) true true)).1 ≤ 103)
unwind-cleanup_order_example = unwind-cleanup_order (λ c. succeeds) true true all_hang

-- The first client hangs up while its channel opens, and its forwarder is closed once more.
abbrev connections : List Event
connections =
    accepted ∷ accepted ∷ closed_end 0 ∷ channel_opened 0 ∷ closed_end 0 ∷ channel_failed 1 ∷ []

run-IsCounted_example : IsCounted (run opened connections)
run-IsCounted_example = run-IsCounted connections
