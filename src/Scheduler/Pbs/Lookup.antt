-- ===== src/Scheduler/Pbs/Lookup.antt =====
-- What `inspect` says of a job that PBS no longer knows, and of one that it does.
use ezhpcy.Prelude.{
  ◌≡◌, ◌≢◌, refl, ◌⊎◌, inl, inr, true, false, Option, none, some, arith, Option-cases, Bool-cases,
}
use ezhpcy.Prelude.Int.{ℤ}
use ezhpcy.Prelude.Result.{Result-cases}
use ezhpcy.Prelude.Exec.{Result, ok, err}
use ezhpcy.Text.{Text, codes}
use ezhpcy.Json.{Json, Fields, null, object, end, field, find}
use ezhpcy.Remote.{Connection}
use ezhpcy.Scheduler.Defs.{JobState, JobInfo, SchedulerError}
use ezhpcy.Scheduler.Pbs.{
  job_state, exit_code_of, str, job_not_found, record_info, only_record, document_info,
  parse_job_info, loaded_info, info_or, history_result, query, query_history, query_result, inspect,
}

job_state-ne-ended : (raw : Text) (exit_code : Option ℤ) → job_state raw exit_code ≢ JobState.ended
unfolding job_state
job_state-ne-ended raw exit_code = ground arith

-- A document that lists no jobs at all.
pub data Unlisted : Json → Type 0 where
  unlisted : {fields : Fields} → find (codes "Jobs") fields ≡ none → Unlisted (object fields)

module _ (repr : Json → Text) where
  record_info-ne-ended :
      (v : Json) (info : JobInfo) → record_info repr v ≡ some info → info.state ≢ JobState.ended
  unfolding record_info
  record_info-ne-ended (object fields) info h =
      elim (Option-cases (exit_code_of (find (codes "Exit_status") fields))) [
        | inl e ↦ cc (rw (e, record_info) at h)
        | inr (exit_code, e) ↦ λ ended.
            job_state-ne-ended (str repr (find (codes "job_state") fields)) exit_code
              (cc (rw (e, record_info) at h))
      ]
  record_info-ne-ended null info h = cc
  record_info-ne-ended _ info h = cc

  only_record-ne-ended :
      (v : Json) (info : JobInfo) → only_record repr v ≡ some info → info.state ≢ JobState.ended
  unfolding only_record
  only_record-ne-ended (object (field _ job end)) info h = record_info-ne-ended job info h
  only_record-ne-ended _ info h = cc

  document_info-ended :
      (document : Json) (info : JobInfo)
      → document_info repr document ≡ some info
      → info.state ≡ JobState.ended
      → Unlisted document
  unfolding document_info
  document_info-ended (object fields) info h e = elim (Option-cases (find (codes "Jobs") fields)) [
    | inl absent ↦ unlisted absent
    | inr (jobs, present) ↦
        absurd (only_record-ne-ended jobs info (rw (present, document_info) at h) e)
  ]
  document_info-ended null info h e = cc
  document_info-ended _ info h e = cc

info_or-ok :
    (repr : Json → Text) (loads : Text → Option Json) (e : SchedulerError) (o : Option JobInfo)
    (info : JobInfo)
    → info_or repr loads e o ≡ ok info
    → o ≡ some info
info_or-ok repr loads e none info h = cc
info_or-ok repr loads e (some _) info h = cc

info_or-err :
    (repr : Json → Text) (loads : Text → Option Json) (e e' : SchedulerError) (o : Option JobInfo)
    → info_or repr loads e o ≡ err e'
    → e ≡ e'
info_or-err repr loads e e' none h = cc
info_or-err repr loads e e' (some _) h = cc

module _ (repr : Json → Text) (loads : Text → Option Json) where
  loaded_info-ended :
      (o : Option Json) (info : JobInfo)
      → loaded_info repr loads o ≡ some info
      → info.state ≡ JobState.ended
      → (document : Json) × (o ≡ some document) × Unlisted document
  loaded_info-ended none info h e = cc
  loaded_info-ended (some document) info h e =
      (document, refl, document_info-ended repr document info h e)

  parse_job_info-ended :
      (job_id output : Text) (info : JobInfo)
      → parse_job_info repr loads job_id output ≡ ok info
      → info.state ≡ JobState.ended
      → (document : Json) × (loads output ≡ some document) × Unlisted document
  unfolding parse_job_info
  parse_job_info-ended job_id output info h e =
      loaded_info-ended (loads output) info (info_or-ok repr loads _ _ info h) e

  parse_job_info-known :
      (job_id output : Text) (error : SchedulerError)
      → parse_job_info repr loads job_id output ≡ err error
      → job_not_found error ≡ false
  unfolding parse_job_info job_not_found
  parse_job_info-known job_id output error h =
      rw (← info_or-err repr loads _ error (loaded_info repr loads (loads output)) h) refl

  module _ (conn : Connection) (qstat job_id : Text) where
    -- Where an answer, or its absence, says that the job has ended.
    pub data Disowned : Result SchedulerError Text → Type 0 where
      unknown : {e : SchedulerError} → job_not_found e ≡ true → Disowned (err e)
      unlisted :
          {output : Text} {document : Json}
          → loads output ≡ some document
          → Unlisted document
          → Disowned (ok output)

    history_result-ended :
        (r : Result SchedulerError Text) (s : conn.State) (info : JobInfo)
        → (history_result repr loads conn qstat job_id r s).0 ≡ ok info
        → info.state ≡ JobState.ended
        → Disowned r
    history_result-ended (ok output) s info h e =
        let found = parse_job_info-ended job_id output info h e in unlisted found.1 found.2
    history_result-ended (err error) s info h e = unknown (ground arith)

    history_result-known :
        (r : Result SchedulerError Text) (s : conn.State) (error : SchedulerError)
        → (history_result repr loads conn qstat job_id r s).0 ≡ err error
        → job_not_found error ≡ false
    history_result-known (ok output) s error h = parse_job_info-known job_id output error h
    history_result-known (err e) s error h = ground arith

    abbrev pub history : conn.State → Result SchedulerError Text
    history t = (query_history conn qstat job_id t).0

    query_result-ended :
        (r : Result SchedulerError Text) (t : conn.State) (info : JobInfo)
        → (query_result repr loads conn qstat job_id r t).0 ≡ ok info
        → info.state ≡ JobState.ended
        → Disowned r × ((e : SchedulerError) → r ≡ err e → Disowned (history t))
    query_result-ended (ok output) t info h e =
        (history_result-ended (ok output) t info h e, λ _ p. cc)
    query_result-ended (err error) t info h e = elim (Bool-cases (job_not_found error)) [
      | inl gone ↦ (
        unknown gone,
        λ _ _.
            history_result-ended (history t) (query_history conn qstat job_id t).1 info
              (rw gone at h) e,
      )
      | inr known ↦ cc (rw known at h)
    ]

    query_result-known :
        (r : Result SchedulerError Text) (t : conn.State) (error : SchedulerError)
        → (query_result repr loads conn qstat job_id r t).0 ≡ err error
        → job_not_found error ≡ false
    query_result-known (ok output) t error h = parse_job_info-known job_id output error h
    query_result-known (err e) t error h = elim (Bool-cases (job_not_found e)) [
      | inl gone ↦
          history_result-known (history t) (query_history conn qstat job_id t).1 error
            (rw gone at h)
      | inr known ↦ ground arith
    ]

    query_result_once :
        (r : Result SchedulerError Text) (t : conn.State)
        → ((e : SchedulerError) → r ≡ err e → job_not_found e ≡ false)
        → (query_result repr loads conn qstat job_id r t).1 ≡ t
    query_result_once (ok output) t h = refl
    query_result_once (err e) t h = rw (h e refl)

    module _ (s : conn.State) where
      abbrev pub first : Result SchedulerError Text
      first = (query conn qstat job_id s).0

      abbrev pub second : Result SchedulerError Text
      second = (query_history conn qstat job_id (query conn qstat job_id s).1).0

      abbrev pub outcome : Result SchedulerError JobInfo
      outcome = (inspect repr loads conn qstat job_id s).0

      -- `inspect` says that a job has ended only where PBS disowned it: `qstat` answered with a
      -- document that lists no jobs, or that the job is unknown, and then its history did one of
      -- the two as well.
      pub inspect-ended :
          (info : JobInfo)
          → outcome ≡ ok info
          → info.state ≡ JobState.ended
          → Disowned first × (((output : Text) × (first ≡ ok output)) ⊎ Disowned second)
      unfolding inspect
      inspect-ended info h e =
          let (disowned, again) = query_result-ended first (query conn qstat job_id s).1 info h e in
          (
            disowned,
            elim (Result-cases first) [
              | inl answered ↦ inl answered
              | inr (x, f) ↦ inr (again x f)
            ],
          )

      -- An unknown job is never an error of `inspect`: what it raises says something else.
      pub inspect-known :
          (error : SchedulerError) → outcome ≡ err error → job_not_found error ≡ false
      unfolding inspect
      inspect-known error h = query_result-known first (query conn qstat job_id s).1 error h

      -- The history is asked only for a job that `qstat` says is unknown; otherwise the login node
      -- runs no second command.
      pub inspect_once :
          ((e : SchedulerError) → first ≡ err e → job_not_found e ≡ false)
          → (inspect repr loads conn qstat job_id s).1 ≡ (query conn qstat job_id s).1
      unfolding inspect
      inspect_once h = query_result_once first (query conn qstat job_id s).1 h
