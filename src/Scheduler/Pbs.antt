-- ===== src/Scheduler/Pbs.antt =====
-- scheduler/pbs.py: the PBS adapter.
pub mod Request
pub mod Walltime
pub mod Lookup
use ezhpcy.Prelude.{
  ℕ, zero, suc, ◌+◌, ◌-◌, ◌*◌, ◌/◌, ◌%◌, Bool, true, false, not, ◌&&◌, ◌||◌, Option, none, some,
  List, [], ◌∷◌, ◌++◌, ◌==◌, ltb, if◌then◌else◌, map, length, take,
}
use ezhpcy.Prelude.Int.{ℤ, pos, negsuc}
use ezhpcy.Prelude.Exec.{Result, ok, err, Exec, pure, raise, lift, catch, handle, continue, ◌>>=◌}
use ezhpcy.Text.{
  Text, codes, text_eq, member, is_decimal, is_space, is_alnum, all_chars, show, show_padded, strip,
  before, join, span, lstrip, to_int,
}
use ezhpcy.Path.{PosixPath, child, path_str}
use ezhpcy.Json.{Json, Fields, null, bool, int, float, string, array, object, end, field, find}
use ezhpcy.Remote.{Connection, CommandError, connection_error, process_error}
use ezhpcy.Scheduler.Defs.{
  JobState, JobSpec, JobInfo, SchedulerError, no_job_id, bad_output, command_error, submit_job,
  inspect_job, inspect_historical_job, run_command, job_shell_command,
}
use ezhpcy.Scheduler.Lsf.{option, flag}

-- `_executable`
unfoldable pub executable : Option PosixPath → Text → Text
unfolding path_str
executable none name = name
executable (some directory) name = path_str (child directory name)

-- `math.ceil(time_limit.total_seconds())`
abbrev pub ceil_seconds : ℕ → ℕ
ceil_seconds microseconds = (microseconds + 999_999) / 1_000_000

-- `f"{hours:02d}:{minutes:02d}:{seconds:02d}"`
unfoldable pub walltime : ℕ → Text
unfolding show_padded
walltime t =
    let seconds = ceil_seconds t in
    show_padded 2 (seconds / 3600)
    ++ (codes ":"
        ++ (show_padded 2 (seconds % 3600 / 60)
            ++ (codes ":" ++ show_padded 2 (seconds % 3600 % 60))))

unfoldable pub selection : JobSpec → Text
unfolding join show
selection spec =
    codes "select=1:"
    ++ join (codes ":") (
        (codes "ncpus=" ++ show spec.cores)
        ∷ (option spec.memory_bytes (λ m. (codes "mem=" ++ (show m ++ codes "b")) ∷ [])
            ++ flag (not (spec.gpus == 0)) ((codes "ngpus=" ++ show spec.gpus) ∷ [])))

-- `_qsub_command`, for the `qsub` of `__init__`
unfoldable pub qsub_command : Text → JobSpec → Bool → List Text
qsub_command qsub spec interactive =
    qsub
    ∷ (flag interactive (codes "-I" ∷ [])
        ++ (codes "-N" ∷ spec.name ∷ []
            ++ (option spec.queue (λ q. codes "-q" ∷ q ∷ [])
                ++ (codes "-l" ∷ selection spec ∷ []
                    ++ (flag spec.exclusive (codes "-l" ∷ codes "place=exclhost" ∷ [])
                        ++ option spec.time_limit
                            (λ t. codes "-l" ∷ (codes "walltime=" ++ walltime t) ∷ []))))))

abbrev job_command : JobSpec → List Text
job_command spec = elim spec.working_directory [
  | none ↦ codes "--" ∷ spec.command
  | some _ ↦ codes "--" ∷ codes "bash" ∷ codes "-lc" ∷ job_shell_command spec ∷ []
]

-- `_submit_command`
unfoldable pub submit_command : Text → JobSpec → List Text
unfolding qsub_command path_str
submit_command qsub spec =
    qsub_command qsub spec false
    ++ (option spec.stdout_path (λ p. codes "-o" ∷ path_str p ∷ [])
        ++ (option spec.stderr_path (λ p. codes "-e" ∷ path_str p ∷ []) ++ job_command spec))

-- The class `[A-Za-z0-9_.-]`.
unfoldable pub is_server_char : ℕ → Bool
unfolding is_alnum
is_server_char c = is_alnum c || c == b'_' || c == b'.' || c == b'-'

abbrev pub has_some {ℓ} : {A : Type ℓ} → List A → Bool
has_some [] = false
has_some (x ∷ xs) = true

-- Behind the digits: nothing, or a dot and a server name.
server : Text → Bool
unfolding is_server_char all_chars
server [] = true
server (c ∷ s) = c == b'.' && has_some s && all_chars is_server_char s

id_parts : Text × Text → Bool
unfolding server
id_parts (taken, rest) = has_some taken && server rest

-- `_JOB_ID_PATTERN.fullmatch(s)`
unfoldable pub is_job_id : Text → Bool
unfolding id_parts span is_decimal
is_job_id s = id_parts (span is_decimal s)

-- `_parse_job_id`
unfoldable pub parse_job_id : Text → Result SchedulerError Text
unfolding is_job_id strip
parse_job_id output =
    let job_id = strip output in if is_job_id job_id then ok job_id else err (no_job_id job_id)

-- `submit`
unfoldable pub submit : (conn : Connection) → Text → JobSpec → Exec conn.State SchedulerError Text
unfolding run_command submit_command parse_job_id
submit conn qsub spec = run_command conn (submit_command qsub spec) submit_job none >>= λ output.
    lift (parse_job_id output)

-- A letter of an `IGNORECASE` pattern: also the Kelvin sign, and the `i` with and without its dot.
fold_case : ℕ → ℕ
fold_case c =
    if ltb 64 c && ltb c 91
    then c + 32
    else if c == 0x212a
    then b'k'
    else if c == 0x130 || c == 0x131
    then b'i'
    else c

match_word : Text → Text → Option Text
match_word [] s = some s
match_word (x ∷ xs) [] = none
match_word (x ∷ xs) (c ∷ s) = if fold_case c == x then match_word xs s else none

-- `\s+`
match_spaces : Text → Option Text
match_spaces [] = none
match_spaces (c ∷ s) = if is_space c then some (lstrip is_space s) else none

infixl 10 ◌▸◌
abbrev ◌▸◌ : Option Text → (Text → Option Text) → Option Text
none ▸ f = none
some s ▸ f = f s

unfoldable pub match_unknown : Text → Option Text
unfolding match_word match_spaces fold_case is_space lstrip
match_unknown s =
    match_word (codes "unknown") s
    ▸ match_spaces
    ▸ match_word (codes "job")
    ▸ match_spaces
    ▸ match_word (codes "id")

abbrev found : Option Text → Bool
found none = false
found (some _) = true

-- `_JOB_NOT_FOUND_PATTERN.search(s)`
unfoldable pub says_unknown : Text → Bool
says_unknown [] = false
says_unknown (c ∷ s) = found (match_unknown (c ∷ s)) || says_unknown s

-- `_job_not_found`
unfoldable pub job_not_found : SchedulerError → Bool
unfolding says_unknown match_unknown
job_not_found (command_error _ (process_error _ result)) = says_unknown result.stderr
job_not_found _ = false

-- `_ENDED`
abbrev pub ended_info : JobInfo
ended_info = record {
  state = JobState.ended;
  raw_state = [];
  host = none;
  exit_code = none;
  pending_reason = none;
}

abbrev or_none : Text → Option Text
or_none [] = none
or_none (c ∷ s) = some (c ∷ s)

unfoldable pub job_state : Text → Option ℤ → JobState
job_state raw exit_code =
    if member raw (codes "Q" ∷ codes "T" ∷ codes "W" ∷ [])
    then JobState.pending
    else if member raw (codes "B" ∷ codes "E" ∷ codes "R" ∷ [])
    then JobState.running
    else if member raw (codes "H" ∷ codes "S" ∷ [])
    then JobState.suspended
    else if text_eq raw (codes "F")
    then (elim exit_code [
      | none ↦ JobState.failed
      | some n ↦ elim n [
        | pos k ↦ if k == 0 then JobState.succeeded else JobState.failed
        | negsuc _ ↦ JobState.failed
      ]
    ])
    else if text_eq raw (codes "X")
    then JobState.failed
    else JobState.unknown

abbrev is_pending : JobState → Bool
is_pending JobState.pending = true
is_pending _ = false

-- `int(value)`, where `None` is no exit code; the outer `none` is a `TypeError` or a `ValueError`.
unfoldable pub exit_code_of : Option Json → Option (Option ℤ)
unfolding to_int
exit_code_of none = some none
exit_code_of (some null) = some none
exit_code_of (some (bool b)) = some (some (pos (if b then 1 else 0)))
exit_code_of (some (int n)) = some (some n)
exit_code_of (some (float n)) = some (some n)
exit_code_of (some (string s)) = elim (to_int s) [ none ↦ none | some n ↦ some (some n) ]
exit_code_of (some (array _)) = none
exit_code_of (some (object _)) = none

-- `repr` prints a value that is no string, as `str` does.
module _ (repr : Json → Text) where
  abbrev pub str : Option Json → Text
  str none = []
  str (some (string s)) = s
  str (some v) = repr v

  abbrev info_of : Fields → Option ℤ → JobInfo
  info_of fields exit_code =
      let raw_state = str (find (codes "job_state") fields) in
      let state = job_state raw_state exit_code in
      record {
        state = state;
        raw_state = raw_state;
        host = or_none (before b'/' (before b'+' (str (find (codes "exec_host") fields))));
        exit_code = exit_code;
        pending_reason =
            if is_pending state
            then or_none (strip (str (find (codes "comment") fields)))
            else none;
      }

  -- `none` is an error that `_parse_job_info` catches, here and below.
  unfoldable pub record_info : Json → Option JobInfo
  record_info (object fields) = elim (exit_code_of (find (codes "Exit_status") fields)) [
    | none ↦ none
    | some exit_code ↦ some (info_of fields exit_code)
  ]
  record_info _ = none

  unfoldable pub only_record : Json → Option JobInfo
  only_record (object (field _ job end)) = record_info job
  only_record _ = none

  -- The body of `_parse_job_info`, on what `json.loads` returned.
  unfoldable pub document_info : Json → Option JobInfo
  document_info (object fields) = elim (find (codes "Jobs") fields) [
    | none ↦ some ended_info
    | some jobs ↦ only_record jobs
  ]
  document_info _ = none

abbrev pub excerpt : Text → Text
excerpt s = if ltb 1000 (length s) then take 1000 s ++ codes "..." else s

module _ (conn : Connection) (qstat job_id : Text) where
  -- `qstat`, or with `-x` its history
  unfoldable pub query : Exec conn.State SchedulerError Text
  unfolding run_command
  query =
      run_command conn (qstat ∷ codes "-f" ∷ codes "-F" ∷ codes "json" ∷ job_id ∷ [])
        (inspect_job job_id) none

  unfoldable pub query_history : Exec conn.State SchedulerError Text
  unfolding run_command
  query_history =
      run_command conn (qstat ∷ codes "-x" ∷ codes "-f" ∷ codes "-F" ∷ codes "json" ∷ job_id ∷ [])
        (inspect_historical_job job_id) none

-- `loads` is `json.loads`, `none` where it raises.
module _ (repr : Json → Text) (loads : Text → Option Json) where
  abbrev pub loaded_info : Option Json → Option JobInfo
  loaded_info none = none
  loaded_info (some document) = document_info repr document

  abbrev pub info_or : SchedulerError → Option JobInfo → Result SchedulerError JobInfo
  info_or e none = err e
  info_or e (some info) = ok info

  -- `_parse_job_info`
  unfoldable pub parse_job_info : Text → Text → Result SchedulerError JobInfo
  parse_job_info job_id output =
      info_or (bad_output job_id (excerpt (strip output))) (loaded_info (loads output))

  module _ (conn : Connection) (qstat job_id : Text) where
    abbrev pub history_failed : SchedulerError → Exec conn.State SchedulerError JobInfo
    history_failed e = if job_not_found e then pure ended_info else raise e

    abbrev pub history_result : Result SchedulerError Text → Exec conn.State SchedulerError JobInfo
    history_result (ok output) = lift (parse_job_info job_id output)
    history_result (err e) = history_failed e

    abbrev pub inspect_history : Exec conn.State SchedulerError JobInfo
    inspect_history s = let (r, s') = query_history conn qstat job_id s in history_result r s'

    abbrev pub query_result : Result SchedulerError Text → Exec conn.State SchedulerError JobInfo
    query_result (ok output) = lift (parse_job_info job_id output)
    query_result (err e) = if job_not_found e then inspect_history else raise e

    -- `inspect`
    unfoldable pub inspect : Exec conn.State SchedulerError JobInfo
    inspect s = let (r, s') = query conn qstat job_id s in query_result r s'
