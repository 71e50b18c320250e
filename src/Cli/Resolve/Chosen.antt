-- ===== src/Cli/Resolve/Chosen.antt =====
-- Which connection a command makes.
use ezhpcy.Prelude.{◌≡◌, ◌⊎◌, Option, none, some}
use ezhpcy.Prelude.Result.{Result, ok}
use ezhpcy.Text.{Text}
use ezhpcy.Cli.Password.{Environment, PasswordOptions, resolve_password}
use ezhpcy.Cli.Resolve.{
  Setting, unset, disabled, given, ConnectionOptions, ConnectionConfig, ConnectionInfo,
}

-- The value of the option where it is given, and else of the profile
abbrev pub IsGiven : {A : Type 0} → Option A → Option A → A → Type 0
IsGiven {A} option configured value =
    (option ≡ some value) ⊎ ((option ≡ none) × (configured ≡ some value))

-- A profile's setting, which `false` disables
abbrev pub IsSetTo : {A : Type 0} → Setting A → Option A → Type 0
IsSetTo unset value = value ≡ none
IsSetTo disabled value = value ≡ none
IsSetTo (given a) value = value ≡ some a

-- Where the password may come from: four options, and three settings of the profile, which may also forbid to ask
pub record Offers (options : ConnectionOptions) (configured : ConnectionConfig)
    (sources : PasswordOptions) : Type 0 where
  pub by_option : sources.password ≡ options.password
  pub by_file : sources.password_file ≡ options.password_file
  pub by_descriptor : sources.password_fd ≡ options.password_fd
  pub by_keyring : sources.password_keyring ≡ options.password_keyring
  pub of_file : IsSetTo configured.password_file sources.config_password_file
  pub of_descriptor : IsSetTo configured.password_fd sources.config_password_fd
  pub of_keyring : sources.config_password_keyring ≡ configured.password_keyring
  pub may_ask : sources.password_prompt ≡ configured.password_prompt

module _ (environment : Text → Text → Environment) (invalid : ConnectionInfo → Option Text) where
  -- The user, the host and the other settings are chosen, the password is what its sources give, and the connection is valid.
  pub record Chosen (options : ConnectionOptions) (configured : ConnectionConfig)
      (info : ConnectionInfo) : Type 0 where
    pub sources : PasswordOptions
    pub user_given : IsGiven options.user configured.user info.user
    pub host_given : IsGiven options.host configured.host info.host
    pub offered : Offers options configured sources
    pub password_read :
        resolve_password (environment info.user info.host) sources ≡ ok info.password
    pub prompt_configured : info.password_prompt ≡ configured.password_prompt
    pub keepalive_configured :
        info.ssh_keepalive_interval_seconds ≡ configured.ssh_keepalive_interval_seconds
    pub is_valid : invalid info ≡ none
