-- ===== src/Scheduler/Lsf/Request.antt =====
-- `bsub`'s options as LSF documents them: what a command line asks for, read independently of how
-- `_bsub_command` builds it.
pub mod Faithful
use ezhpcy.Prelude.{
  ℕ, ◌*◌, ◌≤◌, ◌≡◌, refl, ◌∙◌, ap, Bool, true, false, not, ◌&&◌, Option, none, some, List, [], ◌∷◌,
  ◌++◌, arith, ◌==◌, if◌then◌else◌, append_assoc, option_map,
}
use ezhpcy.Text.{Text, codes, text_eq, show, join}
use ezhpcy.Path.{path_str}
use ezhpcy.Scheduler.Defs.{JobSpec}
use ezhpcy.Scheduler.Lsf.{LsfConfig, option, flag, is_empty, bsub_command}

pub record Request : Type 0 where
  pub interactive : Bool
  pub exclusive : Bool
  pub application : Option Text
  pub cores : Option Text
  pub environment : Option Text
  pub name : Option Text
  pub minutes : Option Text
  pub gpus : Option Text
  pub queue : Option Text
  pub directory : Option Text
  pub stdout : Option Text
  pub stderr : Option Text
  pub resources : List Text

abbrev pub nothing : Request
nothing = record {
  interactive = false;
  exclusive = false;
  application = none;
  cores = none;
  environment = none;
  name = none;
  minutes = none;
  gpus = none;
  queue = none;
  directory = none;
  stdout = none;
  stderr = none;
  resources = [];
}

-- An option with its value.
set_option : Text → Text → Request → Option Request
unfolding text_eq
set_option o v r =
    if text_eq o (codes "-app")
    then some (record r { application = some v })
    else if text_eq o (codes "-n")
    then some (record r { cores = some v })
    else if text_eq o (codes "-R")
    then some (record r { resources = r.resources ++ v ∷ [] })
    else if text_eq o (codes "-env")
    then some (record r { environment = some v })
    else if text_eq o (codes "-J")
    then some (record r { name = some v })
    else if text_eq o (codes "-W")
    then some (record r { minutes = some v })
    else if text_eq o (codes "-gpu")
    then some (record r { gpus = some v })
    else if text_eq o (codes "-q")
    then some (record r { queue = some v })
    else if text_eq o (codes "-cwd")
    then some (record r { directory = some v })
    else if text_eq o (codes "-o")
    then some (record r { stdout = some v })
    else if text_eq o (codes "-e")
    then some (record r { stderr = some v })
    else none

pub data Switch : Type 0 where
  session sole valued operand : Switch

unfoldable pub switch : Text → Switch
unfolding text_eq
switch [] = Switch.operand
switch (c ∷ s) =
    if text_eq (c ∷ s) (codes "-Is")
    then Switch.session
    else if text_eq (c ∷ s) (codes "-x")
    then Switch.sole
    else if c == b'-'
    then Switch.valued
    else Switch.operand

-- The request, and the command that follows the options.
read_options : List Text → Request → Option (Request × List Text)
read_options [] r = some (r, [])
read_options (a ∷ []) r = elim (switch a) [
  | session ↦ some (record r { interactive = true }, [])
  | sole ↦ some (record r { exclusive = true }, [])
  | valued ↦ none
  | operand ↦ some (r, a ∷ [])
]
read_options (a ∷ v ∷ rest) r = elim (switch a) [
  | session ↦ read_options (v ∷ rest) (record r { interactive = true })
  | sole ↦ read_options (v ∷ rest) (record r { exclusive = true })
  | valued ↦ elim (set_option a v r) [ none ↦ none | some r' ↦ read_options rest r' ]
  | operand ↦ some (r, a ∷ v ∷ rest)
]

unfoldable pub read_bsub : List Text → Option (Request × List Text)
unfolding read_options switch set_option
read_bsub [] = none
read_bsub (program ∷ args) =
    if text_eq program (codes "bsub") then read_options args nothing else none

-- The least number of minutes that the time limit, in microseconds, does not exceed
abbrev pub IsMinutes : Option ℕ → Option ℕ → Type 0
IsMinutes none none = Unit
IsMinutes none (some minutes) = ⊥
IsMinutes (some limit) none = ⊥
IsMinutes (some limit) (some minutes) =
    (limit ≤ minutes * (60 * 1_000_000))
    × ((fewer : ℕ) → limit ≤ fewer * (60 * 1_000_000) → minutes ≤ fewer)

-- How often LSF reserves the memory of a request: for each task, one of which runs on a core, or once for the job
abbrev pub reservations : Bool → ℕ → ℕ
reservations true cores = cores
reservations false cores = 1

-- The least number of mebibytes that, so often, come to the memory of the job, in bytes
abbrev pub IsMemory : ℕ → Option ℕ → Option ℕ → Type 0
IsMemory times none none = Unit
IsMemory times none (some mebibytes) = ⊥
IsMemory times (some bytes) none = ⊥
IsMemory times (some bytes) (some mebibytes) =
    (bytes ≤ mebibytes * (times * (1024 * 1024)))
    × ((fewer : ℕ) → bytes ≤ fewer * (times * (1024 * 1024)) → mebibytes ≤ fewer)

-- What the job asks for, with these minutes and mebibytes.
abbrev pub requested : LsfConfig → JobSpec → Bool → Option ℕ → Option ℕ → Request
requested lsf spec interactive minutes memory = record {
  interactive = interactive;
  exclusive = spec.exclusive;
  application = if interactive then lsf.application_profile else none;
  cores = some (show spec.cores);
  environment =
      if interactive && not (is_empty lsf.export_environment)
      then some (join (codes ",") lsf.export_environment)
      else none;
  name = some spec.name;
  minutes = option_map (λ m. show m) minutes;
  gpus =
      if not (spec.gpus == 0)
      then some (codes "num=" ++ (show spec.gpus ++ codes "/host"))
      else none;
  queue = spec.queue;
  directory = option_map path_str spec.working_directory;
  stdout = option_map path_str spec.stdout_path;
  stderr = option_map path_str spec.stderr_path;
  resources =
      codes "span[hosts=1]"
      ∷ option (option_map (λ m. codes "rusage[mem=" ++ (show m ++ codes "MB]")) memory)
          (λ v. v ∷ []);
}

-- Nothing follows the options, or a command that does not look like one.
abbrev pub IsOperand : List Text → Type 0
IsOperand [] = Unit
IsOperand (a ∷ _) = switch a ≡ operand
