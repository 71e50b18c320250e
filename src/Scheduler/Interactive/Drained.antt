-- ===== src/Scheduler/Interactive/Drained.antt =====
-- No output of an interactive submission is lost.
use ezhpcy.Prelude.{
  ◌≡◌, ◌∙◌, refl, ap, subst, true, false, Option, none, some, List, [], ◌∷◌, ◌++◌, append_assoc,
}
use ezhpcy.Prelude.Result.{ok, err}
use ezhpcy.Text.{Text}
use ezhpcy.Scheduler.Defs.{JobSpec, job_shell_command}
use ezhpcy.Scheduler.Interactive.{
  Bytes, Read, chunk, broken, timed_out, InteractiveJob, Submitted, Found, id_or, read_job_id,
  submitted, submit_interactive, drain_rest, early_first, drain,
}

-- All that the terminal prints, until it ends or breaks
abbrev pub printed : List Read → Bytes
printed [] = []
printed (chunk [] ∷ reads) = []
printed (chunk (b ∷ bs) ∷ reads) = b ∷ bs ++ printed reads
printed (broken e ∷ reads) = []
printed (timed_out ∷ reads) = printed reads

abbrev pub concat : List Bytes → Bytes
concat [] = []
concat (b ∷ bs) = b ++ concat bs

drain_rest-printed : (reads : List Read) → concat (drain_rest reads) ≡ printed reads
unfolding drain_rest
drain_rest-printed [] = refl
drain_rest-printed (chunk [] ∷ reads) = refl
drain_rest-printed (chunk (b ∷ bs) ∷ reads) = ap (λ r. b ∷ bs ++ r) (drain_rest-printed reads)
drain_rest-printed (broken e ∷ reads) = refl
drain_rest-printed (timed_out ∷ reads) = drain_rest-printed reads

early_first-printed :
    (early : Bytes) (rest : List Bytes) → concat (early_first early rest) ≡ early ++ concat rest
early_first-printed [] rest = refl
early_first-printed (b ∷ bs) rest = refl

drain-printed :
    (job : InteractiveJob) (reads : List Read)
    → concat (drain job reads) ≡ job.early_output ++ printed reads
unfolding drain
drain-printed job reads =
    early_first-printed job.early_output (drain_rest reads)
    ∙ ap (λ r. job.early_output ++ r) (drain_rest-printed reads)

module _ (decode : Bytes → Text) (search : Text → Option Text) where
  -- What a submission that found its job ID has read, and has still to read, of all the output
  abbrev IsFound : Bytes → Found decode search → Type 0
  IsFound all (err e, reads) = Unit
  IsFound all (ok (id, output), reads) =
      (search (decode output) ≡ some id) × (output ++ printed reads ≡ all)

  id_or-IsFound :
      (o : Option Text) (output all : Bytes) (reads : List Read) (more : Found decode search)
      → search (decode output) ≡ o
      → output ++ printed reads ≡ all
      → IsFound all more
      → IsFound all (id_or decode search o output reads more)
  id_or-IsFound (some id) output all reads more e same h = (e, same)
  id_or-IsFound none output all reads more e same h = h

  read_job_id-IsFound :
      (output : Bytes) (reads : List Read)
      → IsFound (output ++ printed reads) (read_job_id decode search output reads)
  unfolding read_job_id
  read_job_id-IsFound output [] = id_or-IsFound (search (decode output)) output _ [] _ refl refl tt
  read_job_id-IsFound output (timed_out ∷ reads) =
      id_or-IsFound (search (decode output)) output _ (timed_out ∷ reads) _ refl refl tt
  read_job_id-IsFound output (broken e ∷ reads) =
      id_or-IsFound (search (decode output)) output _ (broken e ∷ reads) _ refl refl tt
  read_job_id-IsFound output (chunk [] ∷ reads) =
      id_or-IsFound (search (decode output)) output _ (chunk [] ∷ reads) _ refl refl tt
  read_job_id-IsFound output (chunk (b ∷ bs) ∷ reads) =
      id_or-IsFound (search (decode output)) output _ (chunk (b ∷ bs) ∷ reads) _ refl refl (
        subst (λ all. IsFound all (read_job_id decode search (output ++ b ∷ bs) reads))
          (append_assoc output (b ∷ bs) (printed reads))
          (read_job_id-IsFound (output ++ b ∷ bs) reads))

  -- What a started submission comes to: a job whose ID the pattern finds in its early output and whose whole output its
  -- sink gets, or an error, after which the process is closed.
  abbrev pub Drains : JobSpec → List Read → Submitted → Type 0
  Drains spec all (err e, reads, closed) = closed ≡ true
  Drains spec all (ok job, reads, closed) =
      (search (decode job.early_output) ≡ some job.job_id)
      × (concat (drain job reads) ≡ printed all)
      × (job.shell_command ≡ job_shell_command spec)
      × (closed ≡ false)

  submitted-Drains :
      (command : List Text) (spec : JobSpec) (all : List Read) (found : Found decode search)
      → IsFound (printed all) found
      → Drains spec all (submitted decode search command spec found)
  submitted-Drains command spec all (err e, reads) h = refl
  submitted-Drains command spec all (ok (id, output), reads) (e, same) =
      (e, drain-printed _ reads ∙ same, refl, refl)

  -- A started submission fails with its process closed, or gives a job whose ID the pattern finds in the output read so far,
  -- and whose sink then gets all that the terminal prints, nothing of it twice and in order, what was read before the
  -- ID was found included.
  pub submit_interactive-Drains :
      (site : Option (List Text)) (own : List Text) (spec : JobSpec) (reads : List Read)
      → Drains spec reads (submit_interactive decode search site own spec (ok reads))
  unfolding submit_interactive
  submit_interactive-Drains site own spec reads =
      submitted-Drains _ spec reads (read_job_id decode search [] reads)
        (read_job_id-IsFound [] reads)
