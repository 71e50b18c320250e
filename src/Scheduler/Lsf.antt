-- ===== src/Scheduler/Lsf.antt =====
-- scheduler/lsf.py: the LSF adapter.
pub mod Request
pub mod Amounts
pub mod JobId
use ezhpcy.Prelude.{
  ℕ, ◌+◌, ◌-◌, ◌*◌, ◌/◌, Bool, true, false, not, ◌&&◌, ◌||◌, Option, none, some, List, [], ◌∷◌,
  ◌++◌, ◌==◌, if◌then◌else◌, map,
}
use ezhpcy.Prelude.Int.{ℤ}
use ezhpcy.Prelude.Exec.{Result, ok, err, Exec, lift, ◌>>=◌}
use ezhpcy.Text.{
  Text, codes, text_eq, is_decimal, show, strip, rstrip, split, split_max, splitlines, before, join,
  strip_prefix, span, to_int,
}
use ezhpcy.Path.{path_str}
use ezhpcy.Shell.{shlex_join}
use ezhpcy.Remote.{Connection}
use ezhpcy.Scheduler.Defs.{
  JobState, JobSpec, JobInfo, SchedulerError, no_job_id, bad_output, submit_job, inspect_job,
  run_command,
}

-- `LSFConfig`
pub record LsfConfig : Type 0 where
  pub resource_reserve_per_task : Bool
  pub application_profile : Option Text
  pub submission_environment : List (Text × Text)
  pub export_environment : List Text

abbrev pub mebibyte : ℕ
mebibyte = 1024 * 1024

abbrev pub state_map : List (Text × JobState)
state_map =
    (codes "PEND", JobState.pending)
    ∷ (codes "WAIT", JobState.pending)
    ∷ (codes "PROV", JobState.pending)
    ∷ (codes "RUN", JobState.running)
    ∷ (codes "PSUSP", JobState.suspended)
    ∷ (codes "USUSP", JobState.suspended)
    ∷ (codes "SSUSP", JobState.suspended)
    ∷ (codes "DONE", JobState.succeeded)
    ∷ (codes "POST_DONE", JobState.succeeded)
    ∷ (codes "EXIT", JobState.failed)
    ∷ (codes "POST_ERR", JobState.failed)
    ∷ (codes "ZOMBI", JobState.failed)
    ∷ (codes "UNKWN", JobState.unknown)
    ∷ []

find_state : List (Text × JobState) → Text → JobState
find_state [] raw = JobState.unknown
find_state ((name, state) ∷ rest) raw = if text_eq raw name then state else find_state rest raw

unfoldable pub job_state : Text → JobState
unfolding find_state text_eq
job_state raw = find_state state_map raw

-- `math.ceil(time_limit.total_seconds() / 60)`
abbrev pub ceil_minutes : ℕ → ℕ
ceil_minutes microseconds = (microseconds + 59_999_999) / 60_000_000

-- The reservation unit is a mebibyte for each core where LSF reserves per task.
abbrev pub reservation_unit : LsfConfig → ℕ → ℕ
reservation_unit lsf cores = (if lsf.resource_reserve_per_task then cores else 1) * mebibyte

abbrev pub memory_mib : LsfConfig → ℕ → ℕ → ℕ
memory_mib lsf cores memory_bytes =
    let unit = reservation_unit lsf cores in (memory_bytes + unit - 1) / unit

abbrev pub option {ℓ} : {A : Type ℓ} → Option A → (A → List Text) → List Text
option none f = []
option (some a) f = f a

abbrev pub flag : Bool → List Text → List Text
flag true args = args
flag false args = []

abbrev is_empty {ℓ} : {A : Type ℓ} → List A → Bool
is_empty [] = true
is_empty (x ∷ xs) = false

-- `_bsub_command`
unfoldable pub bsub_command : LsfConfig → JobSpec → Bool → List Text
unfolding show join path_str
bsub_command lsf spec interactive =
    codes "bsub"
    ∷ (flag interactive
          (codes "-Is" ∷ option lsf.application_profile (λ app. codes "-app" ∷ app ∷ []))
        ++ (codes "-n" ∷ show spec.cores ∷ codes "-R" ∷ codes "span[hosts=1]" ∷ []
            ++ (flag (interactive && not (is_empty lsf.export_environment))
                  (codes "-env" ∷ join (codes ",") lsf.export_environment ∷ [])
                ++ (codes "-J" ∷ spec.name ∷ []
                    ++ (option spec.time_limit (λ t. codes "-W" ∷ show (ceil_minutes t) ∷ [])
                        ++ (option spec.memory_bytes (λ m.
                              codes "-R"
                              ∷ (codes "rusage[mem="
                                  ++ (show (memory_mib lsf spec.cores m) ++ codes "MB]"))
                              ∷ [])
                            ++ (flag (not (spec.gpus == 0)) (
                                  codes "-gpu"
                                  ∷ (codes "num=" ++ (show spec.gpus ++ codes "/host"))
                                  ∷ [])
                                ++ (flag spec.exclusive (codes "-x" ∷ [])
                                    ++ (option spec.queue (λ q. codes "-q" ∷ q ∷ [])
                                        ++ (option spec.working_directory
                                              (λ d. codes "-cwd" ∷ path_str d ∷ [])
                                            ++ (option spec.stdout_path
                                                  (λ p. codes "-o" ∷ path_str p ∷ [])
                                                ++ option spec.stderr_path
                                                    (λ p. codes "-e" ∷ path_str p ∷ []))))))))))))

abbrev assignment : Text × Text → Text
assignment (key, value) = key ++ (codes "=" ++ value)

-- `_interactive_command`
unfoldable pub interactive_command : LsfConfig → JobSpec → List Text
unfolding bsub_command
interactive_command lsf spec =
    let command = bsub_command lsf spec true ++ codes "/bin/sh" ∷ [] in
    if is_empty lsf.submission_environment
    then command
    else codes "env" ∷ (map assignment lsf.submission_environment ++ command)

-- One try of `Job <(?P<job_id>\d+)> is submitted` at the start of a text.
abbrev nonempty : Text → Option Text
nonempty [] = none
nonempty (c ∷ s) = some (c ∷ s)

match_digits : Text × Text → Option Text
match_digits (taken, rest) = elim (strip_prefix (codes "> is submitted") rest) [
  | none ↦ none
  | some _ ↦ nonempty taken
]

unfoldable pub match_submitted : Text → Option Text
unfolding match_digits strip_prefix span is_decimal
match_submitted s = elim (strip_prefix (codes "Job <") s) [
  | none ↦ none
  | some rest ↦ match_digits (span is_decimal rest)
]

abbrev pub first_of_two : Option Text → Option Text → Option Text
first_of_two none later = later
first_of_two (some found) later = some found

-- `_SUBMITTED_JOB_PATTERN.search(s)`: the first place where the pattern fits.
unfoldable pub search_submitted : Text → Option Text
search_submitted [] = none
search_submitted (c ∷ s) = first_of_two (match_submitted (c ∷ s)) (search_submitted s)

-- `_parse_job_id`
unfoldable pub parse_job_id : Text → Result SchedulerError Text
unfolding search_submitted match_submitted strip
parse_job_id output = elim (search_submitted output) [
  | none ↦ err (no_job_id (strip output))
  | some job_id ↦ ok job_id
]

abbrev pub script : JobSpec → Text
script spec = codes "#!/usr/bin/env bash\nexec " ++ (shlex_join spec.command ++ codes "\n")

-- `submit`
unfoldable pub submit :
    (conn : Connection) → LsfConfig → JobSpec → Exec conn.State SchedulerError Text
unfolding run_command bsub_command parse_job_id
submit conn lsf spec =
    run_command conn (bsub_command lsf spec false) submit_job (some (script spec)) >>= λ output.
    lift (parse_job_id output)

-- The value of a field that bjobs prints as nothing or as a dash where it has none.
unfoldable pub field_value : Text → Option Text
unfolding text_eq
field_value [] = none
field_value (c ∷ s) = if text_eq (c ∷ s) (codes "-") then none else some (c ∷ s)

-- `None if raw in {"", "-"} else int(raw)`; the outer `none` is a `ValueError`.
abbrev field_int : Option Text → Option (Option ℤ)
field_int none = some none
field_int (some raw) = elim (to_int raw) [ none ↦ none | some n ↦ some (some n) ]

abbrev counted_host : Text → Text × Text → Text
counted_host whole ([], rest) = whole
counted_host whole (c ∷ taken, []) = whole
counted_host whole (c ∷ taken, d ∷ rest) = if d == b'*' then rest else whole

-- `re.sub(r"^\d+\*", "", s)`
unfoldable pub strip_count : Text → Text
unfolding span is_decimal
strip_count s = counted_host s (span is_decimal s)

abbrev is_semicolon : ℕ → Bool
is_semicolon c = c == b';'

abbrev job_info : Text → Text → Option ℤ → Text → JobInfo
job_info raw_state raw_host exit_code raw_reason = record {
  state = job_state raw_state;
  raw_state = raw_state;
  host = elim (field_value raw_host) [ none ↦ none | some h ↦ some (strip_count (before b':' h)) ];
  exit_code = exit_code;
  pending_reason = field_value (strip (rstrip is_semicolon raw_reason));
}

fields : List Text → Option JobInfo
fields (_ ∷ raw_state ∷ raw_host ∷ raw_exit_code ∷ raw_reason ∷ []) =
    elim (field_int (field_value raw_exit_code)) [
      | none ↦ none
      | some exit_code ↦ some (job_info raw_state raw_host exit_code raw_reason)
    ]
fields _ = none

only_line : List Text → Option JobInfo
unfolding fields split_max strip
only_line (line ∷ []) = fields (map strip (split_max 4 b'|' line))
only_line _ = none

-- The body of `inspect` after the command; `none` is a `ValueError`.
unfoldable pub parse_bjobs : Text → Option JobInfo
unfolding only_line splitlines strip job_state field_value strip_count before rstrip to_int
parse_bjobs output = only_line (splitlines (strip output))

abbrev bjobs_result : Text → Text → Result SchedulerError JobInfo
bjobs_result job_id output = elim (parse_bjobs output) [
  | none ↦ err (bad_output job_id (strip output))
  | some info ↦ ok info
]

abbrev bjobs_format : Text
bjobs_format = codes "jobid stat exec_host exit_code pend_reason delimiter='|'"

-- `inspect`
unfoldable pub inspect :
    (conn : Connection) → LsfConfig → Text → Exec conn.State SchedulerError JobInfo
unfolding run_command parse_bjobs
inspect conn lsf job_id =
    run_command conn
      (codes "bjobs" ∷ codes "-a" ∷ codes "-noheader" ∷ codes "-o" ∷ bjobs_format ∷ job_id ∷ [])
      (inspect_job job_id) none
    >>= λ output. lift (bjobs_result job_id output)
