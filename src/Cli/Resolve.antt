-- ===== src/Cli/Resolve.antt =====
-- cli/_resolve.py: the settings of a command from its options and the selected profile. pydantic's validation of the result
-- is a parameter, and so is what reading a user's password sources at a host gives.
pub mod Chosen
pub mod Overlaid
use ezhpcy.Prelude.{ℕ, Bool, true, false, Option, none, some, List, [], ◌∷◌, ◌++◌}
use ezhpcy.Prelude.Result.{Result, ok, err, ◌>>=◌}
use ezhpcy.Text.{Text, codes}
use ezhpcy.Config.Chain.{ChainError, find}
use ezhpcy.Config.Resolve.{Settings, Profile, update, resolve_profile, reject_stored_password}
use ezhpcy.Cli.Password.{Environment, PasswordError, PasswordOptions, resolve_password}

pub data UsageError : Type 0 where
  -- The setting, its option, its name in the configuration, and whether `list-profiles` is suggested
  missing_setting : Text → Text → Option Text → Bool → UsageError
  must_be_set : Text → UsageError
  password_error : PasswordError → UsageError
  invalid_value : Text → UsageError
  unknown_profile : Text → UsageError
  stored_password_in : Text → UsageError
  bad_chain : ChainError → UsageError

-- `resolve_forbidden_none`
abbrev pub unless_given : {A : Type 0} → Option A → Option A → Option A
unless_given (some a) config_value = some a
unless_given none config_value = config_value

abbrev pub forbid_none : {A : Type 0} → UsageError → Option A → Result UsageError A
forbid_none error none = err error
forbid_none error (some a) = ok a

unfoldable pub resolve_forbidden_none :
    {A : Type 0} → Option A → Option A → UsageError → Result UsageError A
resolve_forbidden_none cli_value config_value error =
    forbid_none error (unless_given cli_value config_value)

-- A password setting, which `false` disables
pub data Setting (A : Type 0) : Type 0 where
  unset disabled : Setting A
  given : A → Setting A

-- `unless_disabled`
unfoldable pub unless_disabled : {A : Type 0} → Setting A → Option A
unless_disabled unset = none
unless_disabled disabled = none
unless_disabled (given a) = some a

pub record ConnectionOptions : Type 0 where
  pub user : Option Text
  pub host : Option Text
  pub password : Option Text
  pub password_file : Option Text
  pub password_fd : Option ℕ
  pub password_keyring : Bool

pub record ConnectionConfig : Type 0 where
  pub user : Option Text
  pub host : Option Text
  pub password_file : Setting Text
  pub password_fd : Setting ℕ
  pub password_keyring : Bool
  pub password_prompt : Bool
  pub ssh_keepalive_interval_seconds : ℕ

pub record ConnectionInfo : Type 0 where
  pub user : Text
  pub host : Text
  pub password : Option Text
  pub password_prompt : Bool
  pub ssh_keepalive_interval_seconds : ℕ

abbrev pub in_table : Text → Option Text → Option Text
in_table field none = none
in_table field (some name) = some (codes "profile." ++ (name ++ (codes ".connection." ++ field)))

abbrev pub no_profile : Option Text → Bool
no_profile none = true
no_profile (some name) = false

abbrev pub missing : Text → Option Text → UsageError
missing field profile_name =
    missing_setting field (codes "--" ++ field) (in_table field profile_name)
      (no_profile profile_name)

-- The arguments of `resolve_password`
abbrev pub password_options : ConnectionOptions → ConnectionConfig → PasswordOptions
password_options options configured = record {
  password = options.password;
  password_file = options.password_file;
  password_fd = options.password_fd;
  password_keyring = options.password_keyring;
  config_password_file = unless_disabled configured.password_file;
  config_password_fd = unless_disabled configured.password_fd;
  config_password_keyring = configured.password_keyring;
  password_prompt = configured.password_prompt;
}

-- What a profile without settings has
abbrev pub default_config : ConnectionConfig
default_config = record {
  user = none;
  host = none;
  password_file = unset;
  password_fd = unset;
  password_keyring = false;
  password_prompt = true;
  ssh_keepalive_interval_seconds = 30;
}

abbrev pub as_usage_error : {A : Type 0} → Result PasswordError A → Result UsageError A
as_usage_error (ok a) = ok a
as_usage_error (err e) = err (password_error e)

abbrev pub connection_info : Text → Text → Option Text → ConnectionConfig → ConnectionInfo
connection_info user host password configured = record {
  user = user;
  host = host;
  password = password;
  password_prompt = configured.password_prompt;
  ssh_keepalive_interval_seconds = configured.ssh_keepalive_interval_seconds;
}

module _ (environment : Text → Text → Environment) (invalid : ConnectionInfo → Option Text) where
  abbrev pub validated : Option Text → ConnectionInfo → Result UsageError ConnectionInfo
  validated none info = ok info
  validated (some problem) info = err (invalid_value problem)

  abbrev pub model_validate : ConnectionInfo → Result UsageError ConnectionInfo
  model_validate info = validated (invalid info) info

  -- What follows the user and the host
  abbrev pub with_password :
      ConnectionOptions → ConnectionConfig → Text → Text → Result UsageError ConnectionInfo
  with_password options configured user host =
      as_usage_error
        (resolve_password (environment user host) (password_options options configured))
      >>= λ password. model_validate (connection_info user host password configured)

  unfoldable pub connection_from_cli :
      ConnectionOptions → ConnectionConfig → Option Text → Result UsageError ConnectionInfo
  unfolding resolve_forbidden_none unless_disabled resolve_password
  connection_from_cli options configured profile_name =
      resolve_forbidden_none options.user configured.user (missing (codes "user") profile_name)
      >>= λ user.
          resolve_forbidden_none options.host configured.host (missing (codes "host") profile_name)
          >>= λ host. with_password options configured user host

  unfoldable pub direct_connection_from_cli : ConnectionOptions → Result UsageError ConnectionInfo
  unfolding unless_disabled resolve_password
  direct_connection_from_cli options =
      forbid_none (must_be_set (codes "user")) options.user >>= λ user.
      forbid_none (must_be_set (codes "host")) options.host >>= λ host.
      with_password options default_config user host

-- `given_options`, of the options' fields, flags and values
unfoldable pub given_options : {V : Type 0} → List (Text × Text × Option V) → List (Text × Text × V)
given_options [] = []
given_options ((name, flag, none) ∷ options) = given_options options
given_options ((name, flag, some value) ∷ options) = (name, flag, value) ∷ given_options options

abbrev pub values_of : {V : Type 0} → List (Text × Text × V) → List (Text × V)
values_of [] = []
values_of ((name, flag, value) ∷ rest) = (name, value) ∷ values_of rest

-- `with_cli_options`: the fields that are validated
unfoldable pub with_cli_options :
    {V : Type 0} → List (Text × V) → List (Text × Text × Option V) → List (Text × V)
unfolding update given_options
with_cli_options set_fields options = update set_fields (values_of (given_options options))

-- `check_profile_name` and `resolve_profile_config`; `none` is a `KeyError` or a chain that does not end.
abbrev pub found : {A : Type 0} → Text → Option A → Result UsageError Unit
found name none = err (unknown_profile name)
found name (some a) = ok tt

unfoldable pub check_profile_name :
    {V : Type 0} → List (Text × Profile V) → Option Text → Result UsageError Unit
unfolding find
check_profile_name profiles none = ok tt
check_profile_name profiles (some name) = found name (find name profiles)

abbrev pub not_stored : Result ChainError (Option Text) → Result UsageError Unit
not_stored (err e) = err (bad_chain e)
not_stored (ok none) = ok tt
not_stored (ok (some table)) = err (stored_password_in table)

abbrev pub as_resolved :
    {V : Type 0} → Result ChainError (Settings V) → Result UsageError (Settings V)
as_resolved (err e) = err (bad_chain e)
as_resolved (ok values) = ok values

abbrev pub after_check :
    {V : Type 0}
    → Result UsageError Unit
    → Option (Result UsageError (Settings V))
    → Option (Result UsageError (Settings V))
after_check (err e) rest = some (err e)
after_check (ok _) rest = rest

abbrev pub option_map_result :
    {V : Type 0} → Option (Result ChainError (Settings V)) → Option (Result UsageError (Settings V))
option_map_result none = none
option_map_result (some r) = some (as_resolved r)

abbrev pub after_stored :
    {V : Type 0}
    → Option (Result ChainError (Option Text))
    → Option (Result UsageError (Settings V))
    → Option (Result UsageError (Settings V))
after_stored none rest = none
after_stored (some r) rest = after_check (not_stored r) rest

unfoldable pub resolve_profile_config :
    {V : Type 0}
    → Settings V
    → List (Text × Profile V)
    → Option Text
    → Option (Result UsageError (Settings V))
unfolding check_profile_name reject_stored_password resolve_profile
resolve_profile_config top profiles profile_name =
    after_check (check_profile_name profiles profile_name) (
      after_stored (reject_stored_password top profiles profile_name)
        (option_map_result (resolve_profile top profiles profile_name)))
