-- ===== src/Scheduler/Pbs/Request.antt =====
-- `qsub`'s options as PBS documents them: what a command line asks for, read independently of how
-- `_qsub_command` and `_submit_command` build it.
pub mod Faithful
use ezhpcy.Prelude.{
  ℕ, ◌*◌, ◌≤◌, ◌≡◌, Bool, true, false, not, Option, none, some, List, [], ◌∷◌, ◌++◌, ◌==◌,
  if◌then◌else◌, option_map,
}
use ezhpcy.Text.{Text, codes, text_eq, show, join, strip_prefix}
use ezhpcy.Path.{PosixPath, path_str}
use ezhpcy.Scheduler.Defs.{JobSpec}
use ezhpcy.Scheduler.Lsf.{option, flag}
use ezhpcy.Scheduler.Pbs.Walltime.{read_walltime}
use ezhpcy.Shell.Words.{shell_words}

pub record Request : Type 0 where
  pub interactive : Bool
  pub name : Option Text
  pub queue : Option Text
  pub chunk : Option Text
  pub place : Option Text
  pub walltime : Option Text
  pub stdout : Option Text
  pub stderr : Option Text
  pub command : List Text

abbrev pub nothing : Request
nothing = record {
  interactive = false;
  name = none;
  queue = none;
  chunk = none;
  place = none;
  walltime = none;
  stdout = none;
  stderr = none;
  command = [];
}

-- The value of `-l`: one chunk, a placement or a wall time.
set_resource : Text → Request → Option Request
unfolding strip_prefix
set_resource v r = elim (strip_prefix (codes "select=1:") v) [
  | some chunk ↦ some (record r { chunk = some chunk })
  | none ↦ elim (strip_prefix (codes "place=") v) [
    | some place ↦ some (record r { place = some place })
    | none ↦ elim (strip_prefix (codes "walltime=") v) [
      | some time ↦ some (record r { walltime = some time })
      | none ↦ none
    ]
  ]
]

set_option : Text → Text → Request → Option Request
unfolding text_eq set_resource
set_option o v r =
    if text_eq o (codes "-N")
    then some (record r { name = some v })
    else if text_eq o (codes "-q")
    then some (record r { queue = some v })
    else if text_eq o (codes "-l")
    then set_resource v r
    else if text_eq o (codes "-o")
    then some (record r { stdout = some v })
    else if text_eq o (codes "-e")
    then some (record r { stderr = some v })
    else none

pub data Switch : Type 0 where
  session finish valued : Switch

switch : Text → Switch
unfolding text_eq
switch a =
    if text_eq a (codes "-I") then session else if text_eq a (codes "--") then finish else valued

read_options : List Text → Request → Option Request
read_options [] r = some r
read_options (a ∷ []) r = elim (switch a) [
  | session ↦ some (record r { interactive = true })
  | finish ↦ some r
  | valued ↦ none
]
read_options (a ∷ v ∷ rest) r = elim (switch a) [
  | session ↦ read_options (v ∷ rest) (record r { interactive = true })
  | finish ↦ some (record r { command = v ∷ rest })
  | valued ↦ elim (set_option a v r) [ none ↦ none | some r' ↦ read_options rest r' ]
]

unfoldable pub read_qsub : List Text → Option Request
unfolding read_options switch set_option
read_qsub [] = none
read_qsub (program ∷ args) = read_options args nothing

abbrev pub chunk_of : JobSpec → Text
chunk_of spec = join (codes ":") (
    (codes "ncpus=" ++ show spec.cores)
    ∷ (option spec.memory_bytes (λ m. (codes "mem=" ++ (show m ++ codes "b")) ∷ [])
        ++ flag (not (spec.gpus == 0)) ((codes "ngpus=" ++ show spec.gpus) ∷ [])))

-- The least number of whole seconds that the time limit, in microseconds, does not exceed, as PBS reads a wall time
abbrev pub IsWalltime : Option ℕ → Option Text → Type 0
IsWalltime none none = Unit
IsWalltime none (some time) = ⊥
IsWalltime (some limit) none = ⊥
IsWalltime (some limit) (some time) =
    (seconds : ℕ) × (read_walltime time ≡ some seconds)
    × (limit ≤ seconds * 1_000_000)
    × ((fewer : ℕ) → limit ≤ fewer * 1_000_000 → seconds ≤ fewer)

-- What an interactive job asks for, with this wall time: the shell is its own, and writes to the terminal.
abbrev pub requested : JobSpec → Bool → Option Text → Request
requested spec interactive time = record {
  interactive = interactive;
  name = some spec.name;
  queue = spec.queue;
  chunk = some (chunk_of spec);
  place = if spec.exclusive then some (codes "exclhost") else none;
  walltime = time;
  stdout = none;
  stderr = none;
  command = [];
}

-- What a batch job asks for: also its output files, and the command that runs.
abbrev pub batch_requested : JobSpec → Option Text → List Text → Request
batch_requested spec time command = record (requested spec false time) {
  stdout = option_map path_str spec.stdout_path;
  stderr = option_map path_str spec.stderr_path;
  command = command;
}

-- These words run the command: as they are, or in the directory, where a login shell reads two command lines with `&&` between
-- them. Each is complete by itself, so that the shell joins them: `cd` and the directory, then `exec` and the command.
abbrev pub RunsIn : Option PosixPath → List Text → List Text → Type 0
RunsIn none command words = words ≡ command
RunsIn (some directory) command words =
    (enter start : Text) × (words
      ≡ codes "bash" ∷ codes "-lc" ∷ (enter ++ (codes " && " ++ start)) ∷ [])
    × (shell_words enter ≡ some (codes "cd" ∷ path_str directory ∷ []))
    × (shell_words start ≡ some (codes "exec" ∷ command))
