-- ===== src/Tests/Scheduler.antt =====
-- The scheduler adapters.
use ezhpcy.Prelude.{ℕ, arith, ◌≡◌, ◌⊎◌, refl, true, false, Option, some, List, [], ◌∷◌, ◌++◌}
use ezhpcy.Prelude.Result.{ok, err}
use ezhpcy.Text.{Text, codes, is_decimal, text_eq}
use ezhpcy.Json.{Json, object, end, find}
use ezhpcy.Remote.{Reply, completed, connection_error}
use ezhpcy.Scheduler.Defs.{SchedulerError, command_error, inspect_job, run_command}
use ezhpcy.Scheduler.Lsf.{LsfConfig, bsub_command}
use ezhpcy.Scheduler.Lsf.JobId.{Reports}
use ezhpcy.Scheduler.Lsf.Request.Faithful.{read_bsub-bsub_command}
use ezhpcy.Scheduler.Pbs.{
  qsub_command, submit_command, query, inspect, job_not_found, ended_info, parse_job_info,
  document_info,
}
use ezhpcy.Scheduler.Pbs.Request.{read_qsub, requested, batch_requested, IsWalltime, RunsIn}
use ezhpcy.Scheduler.Pbs.Request.Faithful.{read_qsub-interactive, read_qsub-submit_command}
use ezhpcy.Scheduler.Pbs.Lookup.{Disowned, first, second, inspect-ended}
use ezhpcy.Scheduler.Lsf as Lsf
use ezhpcy.Scheduler.Lsf.Request as LsfRequest
use ezhpcy.Tests.Base.{login_node, succeeded_with, worker_job}

abbrev lsf : LsfConfig
lsf = record {
  resource_reserve_per_task = true;
  application_profile = some (codes "bash");
  submission_environment = [];
  export_environment = codes "HOME" ∷ [];
}

bash-IsOperand : LsfRequest.IsOperand (codes "bash" ∷ [])
unfolding text_eq LsfRequest.switch
bash-IsOperand = refl

read_bsub-bsub_command_example :
    (minutes memory : Option ℕ) × (LsfRequest.read_bsub
        (bsub_command lsf worker_job true ++ codes "bash" ∷ [])
      ≡ some (LsfRequest.requested lsf worker_job true minutes memory, codes "bash" ∷ []))
    × LsfRequest.IsMinutes worker_job.time_limit minutes
    × LsfRequest.IsMemory
        (LsfRequest.reservations lsf.resource_reserve_per_task worker_job.cores)
        worker_job.memory_bytes
        memory
read_bsub-bsub_command_example =
    read_bsub-bsub_command lsf worker_job true (codes "bash" ∷ []) bash-IsOperand (omega arith)

abbrev submitted : Text
submitted = codes "Job <1234> is submitted to queue <gpu>."

reported : Lsf.parse_job_id submitted ≡ ok (codes "1234")
unfolding Lsf.parse_job_id
reported = refl

report : Reports submitted (codes "1234")
unfolding is_decimal
report = record {
  front = [];
  back = codes " to queue <gpu>.";
  shape = refl;
  digits = (refl, (refl, (refl, (refl, tt))));
  some_digit = λ e. cc;
}

read_qsub-submit_command_example :
    (time : Option Text) × (words : List Text) × (read_qsub
        (submit_command (codes "qsub") worker_job)
      ≡ some (batch_requested worker_job time words))
    × IsWalltime worker_job.time_limit time
    × RunsIn worker_job.working_directory worker_job.command words
read_qsub-submit_command_example = read_qsub-submit_command (codes "qsub") worker_job

read_qsub-interactive_example :
    (time : Option Text) × (read_qsub (qsub_command (codes "qsub") worker_job true)
      ≡ some (requested worker_job true time))
    × IsWalltime worker_job.time_limit time
read_qsub-interactive_example = read_qsub-interactive (codes "qsub") worker_job

abbrev no_text : Json → Text
no_text _ = []

-- A server that has no jobs at all.
abbrev empty_document : Text → Option Json
empty_document _ = some (object end)

abbrev answering : List Reply
answering = completed (succeeded_with (codes "{}")) ∷ []

abbrev asked : Text
asked = codes "12"

gone : (inspect no_text empty_document login_node (codes "qstat") asked answering).0 ≡ ok ended_info
unfolding inspect query run_command parse_job_info document_info find
gone = refl

inspect-ended_example :
    Disowned no_text empty_document login_node
      (codes "qstat")
      asked
      (first no_text empty_document login_node (codes "qstat") asked answering)
    × (((output : Text) × (first no_text empty_document login_node (codes "qstat") asked answering
            ≡ ok output))
        ⊎ Disowned no_text empty_document login_node
            (codes "qstat")
            asked
            (second no_text empty_document login_node (codes "qstat") asked answering))
inspect-ended_example =
    inspect-ended no_text empty_document login_node (codes "qstat") asked answering ended_info gone
      refl

abbrev lost : SchedulerError
lost = command_error (inspect_job asked) (connection_error (codes "closed"))

failing : (inspect no_text empty_document login_node (codes "qstat") asked []).0 ≡ err lost
unfolding inspect query run_command job_not_found
failing = refl

answered :
    (e : SchedulerError)
    → first no_text empty_document login_node (codes "qstat") asked answering ≡ err e
    → job_not_found e ≡ false
unfolding query run_command
answered e h = cc
