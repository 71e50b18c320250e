-- ===== src/Cli/Submission.antt =====
-- cli/tunnel.py: the alias of a tunnel, the check of a site's own submission command, and the ports that a worker tries.
-- The digest of an anonymous alias is a parameter.
pub mod Accepted
pub mod Apart
pub mod Options
pub mod Sorted
use ezhpcy.Prelude.{
  ℕ, Bool, true, false, not, ◌&&◌, ◌+◌, ltb, ◌==◌, Option, none, some, List, [], ◌∷◌, ◌++◌, take,
  if◌then◌else◌,
}
use ezhpcy.Prelude.Result.{Result, ok, err}
use ezhpcy.Text.{Text, codes, text_eq, member}
use ezhpcy.Config.Alias.{validate_alias}
use ezhpcy.Config.Chain.{find}
use ezhpcy.Config.Resolve.{Settings, Profile, or_empty}
use ezhpcy.Shell.{shlex_join}
use ezhpcy.Worker.Job.{select_ports}

-- With the option or setting at fault, and its value
pub data TunnelUsageError : Type 0 where
  names_profile : Text → TunnelUsageError
  invalid_alias : Text → TunnelUsageError
  needs_interactive : Text → Text → TunnelUsageError
  conflicting_options : Text → Text → List Text → TunnelUsageError

abbrev pub is_some : {A : Type 0} → Option A → Bool
is_some none = false
is_some (some a) = true

-- `alias != profile_name`
abbrev pub is_name_of : Text → Option Text → Bool
is_name_of alias none = false
is_name_of alias (some name) = text_eq alias name

module _ {V : Type 0} (digest : Text) (profiles : List (Text × Profile V)) where
  abbrev pub chosen_alias : Option Text → Option Text → Text
  chosen_alias (some alias) profile_name = alias
  chosen_alias none (some name) = name
  chosen_alias none none = codes "ezhpcy-" ++ take 12 digest

  abbrev pub checked_alias : Text → Option Text → Result TunnelUsageError Text
  checked_alias alias none = err (invalid_alias alias)
  checked_alias alias (some name) = ok alias

  -- `_resolve_ssh_host`: the alias of the `WorkerHost`, whose `__post_init__` validates it
  unfoldable pub resolve_ssh_host : Option Text → Option Text → Result TunnelUsageError Text
  unfolding validate_alias find text_eq
  resolve_ssh_host alias profile_name =
      let chosen = chosen_alias alias profile_name in
      if not (is_name_of chosen profile_name) && is_some (find chosen profiles)
      then err (names_profile chosen)
      else checked_alias chosen (validate_alias chosen)

-- Texts by their code points, as Python orders them
unfoldable pub is_before : Text → Text → Bool
is_before s [] = false
is_before [] (d ∷ t) = true
is_before (c ∷ s) (d ∷ t) = if c == d then is_before s t else ltb c d

unfoldable pub insert_sorted : Text → List Text → List Text
unfolding is_before
insert_sorted x [] = x ∷ []
insert_sorted x (y ∷ ys) =
    let rest = insert_sorted x ys in if is_before y x then y ∷ rest else x ∷ y ∷ ys

unfoldable pub sorted : List Text → List Text
unfolding insert_sorted
sorted [] = []
sorted (x ∷ xs) = insert_sorted x (sorted xs)

-- The settings that a section has, as `f"{section}.{field}"`
abbrev pub option_names : {V : Type 0} → Text → List (Text × V) → List Text
option_names section [] = []
option_names section ((field, value) ∷ fields) =
    (section ++ b'.' ∷ field) ∷ option_names section fields

module _ {V : Type 0} where
  abbrev pub section_options : Text → Settings V → List Text
  section_options section settings = option_names section (or_empty (find section settings.tables))

  unfoldable pub submission_options : Bool → Settings V → List Text
  unfolding find
  submission_options is_lsf settings =
      section_options (codes "resources") settings
      ++ (if is_lsf then section_options (codes "lsf") settings else [])

  -- The raw profile's own, where one is selected; a name with no profile is a `KeyError`, which `check_profile_name` rules out.
  abbrev pub values_of_profile : Option (Profile V) → Option (Settings V)
  values_of_profile none = none
  values_of_profile (some profile) = some profile.values

  abbrev pub options_of : Bool → Option (Settings V) → List Text
  options_of is_lsf none = []
  options_of is_lsf (some settings) = submission_options is_lsf settings

  abbrev pub own_profile : List (Text × Profile V) → Option Text → Option (Profile V)
  own_profile profiles none = none
  own_profile profiles (some name) = find name profiles

-- `configured - directly_configured`
abbrev pub without : List Text → List Text → List Text
without [] others = []
without (x ∷ xs) others = let rest = without xs others in if member x others then rest else x ∷ rest

abbrev pub in_profile : Text → List Text → List Text
in_profile name [] = []
in_profile name (option ∷ options) =
    (codes "profile." ++ (name ++ b'.' ∷ option)) ∷ in_profile name options

abbrev pub name_or_none : Option Text → Text
name_or_none none = codes "None"
name_or_none (some name) = name

abbrev pub command_source : Bool → Option Text → Text
command_source true profile_name = codes "--interactive-submission-command"
command_source false profile_name =
    codes "profile."
    ++ (name_or_none profile_name ++ codes ".scheduler.interactive_submission_command")

abbrev pub unless_conflicts :
    Text → Text → List Text → List Text → Result TunnelUsageError (List Text)
unless_conflicts source value [] ignored = ok ignored
unless_conflicts source value (conflict ∷ conflicts) ignored =
    err (conflicting_options source value (conflict ∷ conflicts))

-- `_check_interactive_submission_command`: the inherited options that it ignores. `is_batch` is the submission mode, `from_cli`
-- whether the command is an option, and `given` the resource options as `--flag=value`.
module _ {V : Type 0} (profiles : List (Text × Profile V)) where
  abbrev pub check_command :
      List Text
      → Bool
      → Bool
      → Bool
      → List Text
      → Option Text
      → List Text
      → List Text
      → Result TunnelUsageError (List Text)
  check_command command true is_lsf from_cli given profile_name configured direct =
      err (needs_interactive (command_source from_cli profile_name) (shlex_join command))
  check_command command false is_lsf from_cli given profile_name configured direct =
      unless_conflicts (command_source from_cli profile_name) (shlex_join command)
        (in_profile (name_or_none profile_name) (sorted direct) ++ given)
        (sorted (without configured direct))

  unfoldable pub check_interactive_submission_command :
      Option (List Text)
      → Bool
      → Bool
      → Bool
      → List Text
      → Option Text
      → Settings V
      → Result TunnelUsageError (List Text)
  unfolding shlex_join sorted submission_options member
  check_interactive_submission_command none is_batch is_lsf from_cli given profile_name
        profile_config =
      ok []
  check_interactive_submission_command (some command) is_batch is_lsf from_cli given profile_name
        profile_config =
      check_command command is_batch is_lsf from_cli given profile_name
        (submission_options is_lsf profile_config)
        (options_of is_lsf (values_of_profile (own_profile profiles profile_name)))

-- The worker's candidate ports; `none` is a list of random numbers that ends too soon.
unfoldable pub worker_ports : Option ℕ → ℕ → List ℕ → Option (List ℕ)
unfolding select_ports
worker_ports (some port) retries random = some (port ∷ [])
worker_ports none retries random = select_ports (retries + 1) random

-- `_interrupts_stop`: what the presses of Ctrl+C do
pub data Interrupt : Type 0 where
  stops_tunnel quits : Interrupt

unfoldable pub interrupt : ℕ → Interrupt
interrupt presses = if presses == 1 then stops_tunnel else quits
