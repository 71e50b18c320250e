-- ===== src/Scheduler/Interactive.antt =====
-- scheduler/base.py: interactive submissions. What reading the submission's terminal gives, one `read` after another, is a
-- list; how the bytes are decoded, and the pattern of the job ID, are parameters.
pub mod Drained
use ezhpcy.Prelude.{ℕ, Bool, true, false, Option, none, some, List, [], ◌∷◌, ◌++◌}
use ezhpcy.Prelude.Result.{Result, ok, err}
use ezhpcy.Text.{Text, strip}
use ezhpcy.Scheduler.Defs.{
  JobSpec, SchedulerError, start_error, exited_early, no_id_in_time, job_shell_command,
}

abbrev pub Bytes : Type 0
Bytes = List ℕ

-- What one `read` gives: some output, of which none is the end; an error; or nothing in time.
pub data Read : Type 0 where
  chunk : Bytes → Read
  broken : Text → Read
  timed_out : Read

pub data SubmissionError : Type 0 where
  scheduler_error : SchedulerError → SubmissionError
  read_error : Text → SubmissionError

pub record InteractiveJob : Type 0 where
  pub job_id : Text
  pub submission_command : List Text
  pub shell_command : Text
  pub early_output : Bytes

-- The result, what is still to read, and whether the process was closed
abbrev pub Submitted : Type 0
Submitted = Result SubmissionError InteractiveJob × List Read × Bool

module _ (decode : Bytes → Text) (search : Text → Option Text) where
  abbrev pub Found : Type 0
  Found = Result SubmissionError (Text × Bytes) × List Read

  abbrev pub id_or : Option Text → Bytes → List Read → Found → Found
  id_or (some id) output reads more = (ok (id, output), reads)
  id_or none output reads more = more

  abbrev pub no_id : Bytes → Result SubmissionError (Text × Bytes)
  no_id output = err (scheduler_error (no_id_in_time (strip (decode output))))

  -- `_read_job_id`. Where no read ends any more, the time runs out.
  unfoldable pub read_job_id : Bytes → List Read → Found
  unfolding strip
  read_job_id output [] = id_or (search (decode output)) output [] (no_id output, [])
  read_job_id output (timed_out ∷ reads) =
      id_or (search (decode output)) output (timed_out ∷ reads) (no_id output, reads)
  read_job_id output (broken e ∷ reads) =
      id_or (search (decode output)) output (broken e ∷ reads) (err (read_error e), reads)
  read_job_id output (chunk [] ∷ reads) =
      id_or (search (decode output)) output (chunk [] ∷ reads)
        (err (scheduler_error (exited_early (strip (decode output)))), reads)
  read_job_id output (chunk (b ∷ bs) ∷ reads) =
      id_or (search (decode output)) output (chunk (b ∷ bs) ∷ reads)
        (read_job_id (output ++ b ∷ bs) reads)

  abbrev command_or : Option (List Text) → List Text → List Text
  command_or none own = own
  command_or (some command) own = command

  abbrev pub submitted : List Text → JobSpec → Found → Submitted
  submitted command spec (err e, reads) = (err e, reads, true)
  submitted command spec (ok (id, output), reads) = (
    ok (record {
      job_id = id;
      submission_command = command;
      shell_command = job_shell_command spec;
      early_output = output;
    }),
    reads,
    false,
  )

  -- `submit_interactive`: the site's command or the adapter's, and how `start_login_shell` ends: with an error, or with the
  -- reads that follow.
  unfoldable pub submit_interactive :
      Option (List Text) → List Text → JobSpec → Result Text (List Read) → Submitted
  unfolding read_job_id job_shell_command
  submit_interactive site own spec (err e) = (err (scheduler_error (start_error e)), [], false)
  submit_interactive site own spec (ok reads) =
      submitted (command_or site own) spec (read_job_id [] reads)

-- What `drain` reads once `early_output` is passed on, until the process ends or a read raises
unfoldable pub drain_rest : List Read → List Bytes
drain_rest [] = []
drain_rest (chunk [] ∷ reads) = []
drain_rest (chunk (b ∷ bs) ∷ reads) = (b ∷ bs) ∷ drain_rest reads
drain_rest (broken e ∷ reads) = []
drain_rest (timed_out ∷ reads) = drain_rest reads

abbrev pub early_first : Bytes → List Bytes → List Bytes
early_first [] rest = rest
early_first (b ∷ bs) rest = (b ∷ bs) ∷ rest

-- `InteractiveJob.drain`: what the sink is given, in order. It reads with no time limit.
unfoldable pub drain : InteractiveJob → List Read → List Bytes
unfolding drain_rest
drain job reads = early_first job.early_output (drain_rest reads)
