-- ===== src/Scheduler/Pbs/Request/Faithful.antt =====
-- The `qsub` command asks for what the job specifies, and for nothing else.
use ezhpcy.Prelude.{
  ℕ, arith, ◌≡◌, refl, ◌∙◌, ap, Bool, true, false, Option, none, some, List, [], ◌∷◌, ◌++◌,
  if◌then◌else◌, append_assoc, append-nil, option_map,
}
use ezhpcy.Text.{Text, codes}
use ezhpcy.Path.{PosixPath, path_str}
use ezhpcy.Scheduler.Defs.{JobSpec, job_shell_command}
use ezhpcy.Scheduler.Lsf.{option, flag}
use ezhpcy.Scheduler.Pbs.{qsub_command, submit_command, selection, walltime, ceil_seconds}
use ezhpcy.Scheduler.Pbs.Walltime.{read_walltime-walltime}
use ezhpcy.Shell.{shlex_join}
use ezhpcy.Shell.Words.Quoted.{shell_words-shlex_join}
use ezhpcy.Scheduler.Pbs.Request.{
  Request, nothing, requested, batch_requested, IsWalltime, RunsIn, chunk_of, read_options,
  read_qsub, switch, set_option,
}

read-option {ℓ} :
    {A : Type ℓ} (name : Text) (f : A → Text) (g : Option A → Request) (o : Option A)
    (tail : List Text)
    → ((a : A) (rest : List Text)
        → read_options (name ∷ f a ∷ rest) (g none) ≡ read_options rest (g (some a)))
    → read_options (option o (λ a. name ∷ f a ∷ []) ++ tail) (g none) ≡ read_options tail (g o)
read-option name f g none tail h = refl
read-option name f g (some a) tail h = h a tail

read-exclusive :
    (b : Bool) (tail : List Text) (r : Request)
    → r.place ≡ none
    → read_options (flag b (codes "-l" ∷ codes "place=exclhost" ∷ []) ++ tail) r
      ≡ read_options tail (record r { place = if b then some (codes "exclhost") else none })
unfolding read_options switch set_option
read-exclusive true tail r h = refl
read-exclusive false tail r h = ap (λ x. read_options tail (record r { place = x })) h

read-session :
    (b : Bool) (name : Text) (rest : List Text)
    → read_options (flag b (codes "-I" ∷ []) ++ codes "-N" ∷ name ∷ rest) nothing
      ≡ read_options rest (record nothing { interactive = b; name = some name })
unfolding read_options switch set_option
read-session true name rest = refl
read-session false name rest = refl

read-selection :
    (spec : JobSpec) (rest : List Text) (r : Request)
    → read_options (codes "-l" ∷ selection spec ∷ rest) r
      ≡ read_options rest (record r { chunk = some (chunk_of spec) })
unfolding read_options switch set_option selection
read-selection spec rest r = refl

read_qsub_lem :
    (qsub : Text) (args : List Text) → read_qsub (qsub ∷ args) ≡ read_options args nothing
unfolding read_qsub
read_qsub_lem qsub args = refl

time_of : JobSpec → Option Text
time_of spec = option_map walltime spec.time_limit

read-qsub_command :
    (qsub : Text) (spec : JobSpec) (b : Bool) (tail : List Text)
    → read_qsub (qsub_command qsub spec b ++ tail)
      ≡ read_options tail (requested spec b (time_of spec))
unfolding qsub_command time_of
read-qsub_command qsub spec b tail = rw read_qsub_lem (
    simp append_assoc (
      read-session b spec.name _
      ∙ read-option (codes "-q") (λ q. q) (λ x. record r0 { queue = x }) spec.queue _
          (λ v rest. unfold read_options switch set_option in refl)
      ∙ read-selection spec _ _
      ∙ read-exclusive spec.exclusive _ r1 refl
      ∙ read-option (codes "-l") (λ t. codes "walltime=" ++ walltime t)
          (λ x. record r2 { walltime = option_map walltime x }) spec.time_limit tail
          (λ v rest. unfold read_options switch set_option in refl)))
  where
    r0 : Request
    r0 = record nothing { interactive = b; name = some spec.name }

    r1 : Request
    r1 = record r0 { queue = spec.queue; chunk = some (chunk_of spec) }

    r2 : Request
    r2 = record r1 { place = if spec.exclusive then some (codes "exclhost") else none }

walltime-IsWalltime : (limit : Option ℕ) → IsWalltime limit (option_map walltime limit)
walltime-IsWalltime none = tt
walltime-IsWalltime (some limit) =
    (ceil_seconds limit, read_walltime-walltime limit, omega arith, λ fewer h. omega arith)

-- Read as PBS reads it, the command of an interactive job asks for exactly what the job specifies, for a session of its own and
-- with no output files and no command. The wall time is the least number of whole seconds that the time limit does not exceed.
pub read_qsub-interactive :
    (qsub : Text) (spec : JobSpec)
    → (time : Option Text) × (read_qsub (qsub_command qsub spec true)
        ≡ some (requested spec true time))
      × IsWalltime spec.time_limit time
unfolding read_options time_of
read_qsub-interactive qsub spec = (
  time_of spec,
  rw (← append-nil (qsub_command qsub spec true)) (read-qsub_command qsub spec true []),
  walltime-IsWalltime spec.time_limit,
)

words_of : JobSpec → List Text
words_of spec = elim spec.working_directory [
  | none ↦ spec.command
  | some _ ↦ codes "bash" ∷ codes "-lc" ∷ job_shell_command spec ∷ []
]

job_words : JobSpec → List Text
job_words spec = elim spec.working_directory [
  | none ↦ codes "--" ∷ spec.command
  | some _ ↦ codes "--" ∷ codes "bash" ∷ codes "-lc" ∷ job_shell_command spec ∷ []
]

words_of-RunsIn : (spec : JobSpec) → RunsIn spec.working_directory spec.command (words_of spec)
unfolding words_of job_shell_command
words_of-RunsIn spec = go spec.working_directory refl
  where
    go :
        (d : Option PosixPath)
        → spec.working_directory ≡ d
        → RunsIn spec.working_directory spec.command (words_of spec)
    go none e = rw e refl
    go (some directory) e = rw e (
      shlex_join (codes "cd" ∷ path_str directory ∷ []),
      shlex_join (codes "exec" ∷ spec.command),
      refl,
      shell_words-shlex_join _,
      shell_words-shlex_join _,
    )

read-finish :
    (command : List Text) (r : Request)
    → r.command ≡ []
    → read_options (codes "--" ∷ command) r ≡ some (record r { command = command })
unfolding read_options switch
read-finish [] r h = ap (λ x. some (record r { command = x })) h
read-finish (v ∷ rest) r h = refl

read-job_words :
    (spec : JobSpec) (r : Request)
    → r.command ≡ []
    → read_options (job_words spec) r ≡ some (record r { command = words_of spec })
unfolding job_words words_of
read-job_words spec r h = go spec.working_directory refl
  where
    go :
        (d : Option PosixPath)
        → spec.working_directory ≡ d
        → read_options (job_words spec) r ≡ some (record r { command = words_of spec })
    go none e = rw e (read-finish spec.command r h)
    go (some _) e = rw e (read-finish _ r h)

submit_command_lem :
    (qsub : Text) (spec : JobSpec)
    → submit_command qsub spec
      ≡ qsub_command qsub spec false
        ++ (option spec.stdout_path (λ p. codes "-o" ∷ path_str p ∷ [])
            ++ (option spec.stderr_path (λ p. codes "-e" ∷ path_str p ∷ []) ++ job_words spec))
unfolding submit_command job_words
submit_command_lem qsub spec = refl

read_qsub-command :
    (qsub : Text) (spec : JobSpec)
    → read_qsub (submit_command qsub spec)
      ≡ some (batch_requested spec (time_of spec) (words_of spec))
read_qsub-command qsub spec = rw submit_command_lem (
    read-qsub_command qsub spec false _
    ∙ read-option (codes "-o") path_str (λ x. record r0 { stdout = option_map path_str x })
        spec.stdout_path _ (λ v rest. unfold read_options switch set_option in refl)
    ∙ read-option (codes "-e") path_str (λ x. record r1 { stderr = option_map path_str x })
        spec.stderr_path _ (λ v rest. unfold read_options switch set_option in refl)
    ∙ read-job_words spec _ refl)
  where
    r0 : Request
    r0 = requested spec false (time_of spec)

    r1 : Request
    r1 = record r0 { stdout = option_map path_str spec.stdout_path }

-- Read as PBS reads it, the command of a batch job asks for exactly what the job specifies, its output files included. The wall
-- time is the least number of whole seconds that the time limit does not exceed. What runs is the job's command itself, or,
-- where the job has a working directory, a login shell with two command lines joined by `&&`, which enters that directory and
-- then executes the job's command.
pub read_qsub-submit_command :
    (qsub : Text) (spec : JobSpec)
    → (time : Option Text) × (words : List Text) × (read_qsub (submit_command qsub spec)
        ≡ some (batch_requested spec time words))
      × IsWalltime spec.time_limit time
      × RunsIn spec.working_directory spec.command words
unfolding time_of
read_qsub-submit_command qsub spec = (
  time_of spec,
  words_of spec,
  read_qsub-command qsub spec,
  walltime-IsWalltime spec.time_limit,
  words_of-RunsIn spec,
)
