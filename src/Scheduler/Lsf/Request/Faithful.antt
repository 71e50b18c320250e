-- ===== src/Scheduler/Lsf/Request/Faithful.antt =====
-- The `bsub` command asks for what the job specifies, and for nothing else.
use ezhpcy.Prelude.{
  ℕ, ◌*◌, ◌<◌, arith, Bool-cases, inl, inr, ◌≡◌, refl, ◌∙◌, Bool, true, false, not, ◌&&◌, Option,
  none, some, List, [], ◌∷◌, ◌++◌, ◌==◌, if◌then◌else◌, append_assoc, option_map, option_map_id, ap,
}
use ezhpcy.Text.{Text, codes, show, join}
use ezhpcy.Path.{path_str}
use ezhpcy.Scheduler.Defs.{JobSpec}
use ezhpcy.Scheduler.Lsf.{
  LsfConfig, option, flag, is_empty, bsub_command, ceil_minutes, memory_mib, reservation_unit,
}
use ezhpcy.Scheduler.Lsf.Amounts.{memory_mib_bounds, memory_mib-least}
use ezhpcy.Scheduler.Lsf.Request.{
  Request, nothing, requested, read_options, read_bsub, switch, set_option, IsOperand, IsMinutes,
  IsMemory, reservations,
}

read-option {ℓ} :
    {A : Type ℓ} (name : Text) (f : A → Text) (g : Option Text → Request) (o : Option A)
    (tail : List Text)
    → ((v : Text) (rest : List Text)
        → read_options (name ∷ v ∷ rest) (g none) ≡ read_options rest (g (some v)))
    → read_options (option o (λ a. name ∷ f a ∷ []) ++ tail) (g none)
      ≡ read_options tail (g (option_map f o))
read-option name f g none tail h = refl
read-option name f g (some a) tail h = h (f a) tail

read-flag :
    (b : Bool) (name v : Text) (g : Option Text → Request) (tail : List Text)
    → ((rest : List Text)
        → read_options (name ∷ v ∷ rest) (g none) ≡ read_options rest (g (some v)))
    → read_options (flag b (name ∷ v ∷ []) ++ tail) (g none)
      ≡ read_options tail (g (if b then some v else none))
read-flag true name v g tail h = h tail
read-flag false name v g tail h = refl

read-operand :
    (r : Request) (tail : List Text) → IsOperand tail → read_options tail r ≡ some (r, tail)
unfolding read_options
read-operand r [] h = refl
read-operand r (a ∷ []) h = rw (h, read_options)
read-operand r (a ∷ v ∷ rest) h = rw (h, read_options)

read-session :
    (b : Bool) (app : Option Text) (v : Text) (rest : List Text)
    → read_options
        (flag b (codes "-Is" ∷ option app (λ a. codes "-app" ∷ a ∷ [])) ++ v ∷ rest)
        nothing
      ≡ read_options
          (v ∷ rest)
          (record nothing { interactive = b; application = if b then app else none })
unfolding read_options switch set_option
read-session true none v rest = refl
read-session true (some a) v rest = refl
read-session false app v rest = refl

read-sole :
    (b : Bool) (tail : List Text) (r : Request)
    → r.exclusive ≡ false
    → read_options (flag b (codes "-x" ∷ []) ++ tail) r
      ≡ read_options tail (record r { exclusive = b })
unfolding read_options switch
read-sole true [] r h = refl
read-sole true (v ∷ rest) r h = refl
read-sole false tail r h = ap (λ x. read_options tail (record r { exclusive = x })) h

read-required :
    (cores span : Text) (rest : List Text) (r : Request)
    → read_options (codes "-n" ∷ cores ∷ codes "-R" ∷ span ∷ rest) r
      ≡ read_options rest (record r { cores = some cores; resources = r.resources ++ span ∷ [] })
unfolding read_options switch set_option
read-required cores span rest r = refl

read-name :
    (name : Text) (rest : List Text) (r : Request)
    → read_options (codes "-J" ∷ name ∷ rest) r ≡ read_options rest (record r { name = some name })
unfolding read_options switch set_option
read-name name rest r = refl

read_bsub_lem : (args : List Text) → read_bsub (codes "bsub" ∷ args) ≡ read_options args nothing
unfolding read_bsub
read_bsub_lem args = refl

fused {ℓ} :
    {A B : Type ℓ} (f : B → Text) (g : A → B) (o : Option A)
    → option_map (λ a. f (g a)) o ≡ option_map f (option_map g o)
fused f g none = refl
fused f g (some a) = refl

minutes_of : JobSpec → Option ℕ
minutes_of spec = option_map ceil_minutes spec.time_limit

memory_of : LsfConfig → JobSpec → Option ℕ
memory_of lsf spec = option_map (memory_mib lsf spec.cores) spec.memory_bytes

rusage : ℕ → Text
rusage m = codes "rusage[mem=" ++ (show m ++ codes "MB]")

-- The request, with the texts of the amounts as they are written
abbrev as_written : LsfConfig → JobSpec → Bool → Request
unfolding rusage
as_written lsf spec b = record (requested lsf spec b none none) {
  minutes = option_map (λ t. show (ceil_minutes t)) spec.time_limit;
  resources =
      codes "span[hosts=1]"
      ∷ option (option_map (λ m. rusage (memory_mib lsf spec.cores m)) spec.memory_bytes)
          (λ v. v ∷ []);
}

as_written_lem :
    (lsf : LsfConfig) (spec : JobSpec) (b : Bool)
    → as_written lsf spec b ≡ requested lsf spec b (minutes_of spec) (memory_of lsf spec)
unfolding minutes_of memory_of rusage
as_written_lem lsf spec b i = record (requested lsf spec b none none) {
  minutes = fused (λ m. show m) ceil_minutes spec.time_limit i;
  resources =
      codes "span[hosts=1]"
      ∷ option (fused rusage (memory_mib lsf spec.cores) spec.memory_bytes i) (λ v. v ∷ []);
}

read_bsub-command :
    (lsf : LsfConfig) (spec : JobSpec) (b : Bool) (tail : List Text)
    → IsOperand tail
    → read_bsub (bsub_command lsf spec b ++ tail) ≡ some (as_written lsf spec b, tail)
unfolding bsub_command rusage
read_bsub-command lsf spec b tail h = rw read_bsub_lem (
    simp append_assoc (
      read-session b lsf.application_profile _ _
      ∙ read-required (show spec.cores) _ _ r0
      ∙ read-flag (b && not (is_empty lsf.export_environment)) (codes "-env")
          (join (codes ",") lsf.export_environment) (λ x. record r1 { environment = x }) _
          (λ rest. unfold read_options switch set_option in refl)
      ∙ read-name spec.name _ _
      ∙ read-option (codes "-W") _ (λ x. record r2 { minutes = x }) spec.time_limit _
          (λ v rest. unfold read_options switch set_option in refl)
      ∙ read-option (codes "-R") _
          (λ x. record r3 { resources = codes "span[hosts=1]" ∷ option x (λ v. v ∷ []) })
          spec.memory_bytes _ (λ v rest. unfold read_options switch set_option in refl)
      ∙ read-flag (not (spec.gpus == 0)) (codes "-gpu")
          (codes "num=" ++ (show spec.gpus ++ codes "/host")) (λ x. record r4 { gpus = x }) _
          (λ rest. unfold read_options switch set_option in refl)
      ∙ read-sole spec.exclusive _ r5 refl
      ∙ read-option (codes "-q") (λ q. q) (λ x. record r6 { queue = x }) spec.queue _
          (λ v rest. unfold read_options switch set_option in refl)
      ∙ read-option (codes "-cwd") path_str (λ x. record r7 { directory = x })
          spec.working_directory _ (λ v rest. unfold read_options switch set_option in refl)
      ∙ read-option (codes "-o") path_str (λ x. record r8 { stdout = x }) spec.stdout_path _
          (λ v rest. unfold read_options switch set_option in refl)
      ∙ read-option (codes "-e") path_str (λ x. record r9 { stderr = x }) spec.stderr_path _
          (λ v rest. unfold read_options switch set_option in refl)
      ∙ read-operand _ tail h
      ∙ rw (option_map_id spec.queue)))
  where
    open as_written lsf spec b use {environment, minutes, resources, gpus, queue, directory, stdout}

    r0 : Request
    r0 = record nothing {
      interactive = b;
      application = if b then lsf.application_profile else none;
    }

    r1 : Request
    r1 = record r0 { cores = some (show spec.cores); resources = codes "span[hosts=1]" ∷ [] }

    r2 : Request
    r2 = record r1 { environment = environment; name = some spec.name }

    r3 : Request
    r3 = record r2 { minutes = minutes }

    r4 : Request
    r4 = record r3 { resources = resources }

    r5 : Request
    r5 = record r4 { gpus = gpus }

    r6 : Request
    r6 = record r5 { exclusive = spec.exclusive }

    r7 : Request
    r7 = record r6 { queue = option_map (λ q. q) spec.queue }

    r8 : Request
    r8 = record r7 { directory = directory }

    r9 : Request
    r9 = record r8 { stdout = stdout }

ceil_minutes-IsMinutes : (limit : Option ℕ) → IsMinutes limit (option_map ceil_minutes limit)
ceil_minutes-IsMinutes none = tt
ceil_minutes-IsMinutes (some limit) = (omega arith, λ fewer h. omega arith)

reservation_unit_lem :
    (lsf : LsfConfig) (cores : ℕ)
    → reservation_unit lsf cores ≡ reservations lsf.resource_reserve_per_task cores * (1024 * 1024)
reservation_unit_lem lsf cores = elim (Bool-cases lsf.resource_reserve_per_task) [
  | inl per_task ↦ rw per_task refl
  | inr per_job ↦ rw per_job refl
]

memory_mib-IsMemory :
    (lsf : LsfConfig) (cores : ℕ) (bytes : Option ℕ)
    → 0 < cores
    → IsMemory
        (reservations lsf.resource_reserve_per_task cores)
        bytes
        (option_map (memory_mib lsf cores) bytes)
memory_mib-IsMemory lsf cores none h = tt
memory_mib-IsMemory lsf cores (some bytes) h = rw (← reservation_unit_lem lsf cores) (
  (memory_mib_bounds lsf cores bytes h).0,
  λ fewer enough. memory_mib-least lsf cores bytes fewer h enough,
)

-- Read as LSF reads it, the `bsub` command of a job with at least one core asks for exactly what the job and the LSF settings
-- specify: no option is missing, extra or given another option's value, and what follows the options is left as it is. The
-- minutes are the least number that the time limit does not exceed. The mebibytes are the least number that comes to the job's
-- memory, taken once for each core where LSF reserves per task and else once.
pub read_bsub-bsub_command :
    (lsf : LsfConfig) (spec : JobSpec) (b : Bool) (tail : List Text)
    → IsOperand tail
    → 0 < spec.cores
    → (minutes memory : Option ℕ) × (read_bsub (bsub_command lsf spec b ++ tail)
        ≡ some (requested lsf spec b minutes memory, tail))
      × IsMinutes spec.time_limit minutes
      × IsMemory (reservations lsf.resource_reserve_per_task spec.cores) spec.memory_bytes memory
unfolding minutes_of memory_of
read_bsub-bsub_command lsf spec b tail h cores = (
  minutes_of spec,
  memory_of lsf spec,
  read_bsub-command lsf spec b tail h ∙ ap (λ r. some (r, tail)) (as_written_lem lsf spec b),
  ceil_minutes-IsMinutes spec.time_limit,
  memory_mib-IsMemory lsf spec.cores spec.memory_bytes cores,
)
