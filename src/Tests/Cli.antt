-- ===== src/Tests/Cli.antt =====
-- Passwords of a login.
use ezhpcy.Prelude.{
  ◌≡◌, ◌⊎◌, ◌↔◌, ℕ, refl, Bool, true, false, Option, none, some, List, [], ◌∷◌, ◌++◌,
}
use ezhpcy.Prelude.Result.{ok, err}
use ezhpcy.Text.{Text, codes, text_eq, rstrip}
use ezhpcy.Cli.Password.{
  Environment, PasswordOptions, keyring_empty, read_password_file, read_password_keyring,
  without_trailing_line_endings, resolve_password,
}
use ezhpcy.Cli.Resolve.{
  ConnectionOptions, ConnectionConfig, ConnectionInfo, default_config, connection_info,
  connection_from_cli,
}
use ezhpcy.Cli.Resolve.Chosen.{Chosen}
use ezhpcy.Cli.Submission.{check_interactive_submission_command}
use ezhpcy.Cli.Submission.Accepted.{Decides, check_interactive_submission_command-Decides}
use ezhpcy.Config.Chain.{find}
use ezhpcy.Config.Resolve.{Settings, Profile}
use ezhpcy.Cli.Password.Asked.{sources, KeyringAsks, resolve_password_iff}

-- A file with a password, and a keyring without one.
abbrev environment : Environment
environment = record {
  read_text = λ path. some (codes "secret" ++ (13 ∷ 10 ∷ []));
  read_fd = λ fd. none;
  get_password = some none;
}

abbrev keyring_then_file : Bool → PasswordOptions
keyring_then_file prompt = record {
  password = none;
  password_file = none;
  password_fd = none;
  password_keyring = true;
  config_password_file = some (codes "/f");
  config_password_fd = none;
  config_password_keyring = false;
  password_prompt = prompt;
}

from_configured_file :
    resolve_password environment (record (keyring_then_file false) { password_keyring = false })
    ≡ ok (some (codes "secret"))
unfolding resolve_password read_password_file without_trailing_line_endings rstrip
from_configured_file = refl

no_prompt : resolve_password environment (keyring_then_file false) ≡ err keyring_empty
unfolding resolve_password read_password_keyring
no_prompt = refl

resolve_password_iff_example :
    (resolve_password environment (keyring_then_file true) ≡ ok none)
    ↔ ((sources (keyring_then_file true) ≡ []) ⊎ KeyringAsks environment (keyring_then_file true))
resolve_password_iff_example = resolve_password_iff environment (keyring_then_file true)

abbrev given_options : ConnectionOptions
given_options = record {
  user = some (codes "me");
  host = none;
  password = none;
  password_file = some (codes "/f");
  password_fd = none;
  password_keyring = false;
}

abbrev configured : ConnectionConfig
configured = record default_config { host = some (codes "hpc"); password_prompt = false }

abbrev chosen : ConnectionInfo
chosen = connection_info (codes "me") (codes "hpc") (some (codes "secret")) configured

connection_test :
    connection_from_cli
      (λ user host. environment)
      (λ info. none)
      given_options
      configured
      (some (codes "gpu"))
    ≡ ok chosen
unfolding connection_from_cli read_password_file without_trailing_line_endings rstrip
connection_test = refl

-- A profile of a site's own command that inherits the cores of another.
abbrev wrapper : Profile ℕ
wrapper = record { inherit = none; values = record { scalars = []; tables = [] } }

abbrev profiles : List (Text × Profile ℕ)
profiles = (codes "a100", wrapper) ∷ []

abbrev with_cores : Settings ℕ
with_cores = record { scalars = []; tables = (codes "resources", (codes "cores", 8) ∷ []) ∷ [] }

abbrev command : Option (List Text)
command = some (codes "a100sh" ∷ [])

ignored_test :
    check_interactive_submission_command profiles command false true false []
      (some (codes "a100"))
      with_cores
    ≡ ok (codes "resources.cores" ∷ [])
unfolding check_interactive_submission_command find text_eq
ignored_test = refl

check_interactive_submission_command-Decides_example :
    Decides profiles command false true [] (some (codes "a100")) with_cores (
      check_interactive_submission_command profiles command false true false []
        (some (codes "a100"))
        with_cores)
check_interactive_submission_command-Decides_example =
    check_interactive_submission_command-Decides profiles command false true false []
      (some (codes "a100")) with_cores
