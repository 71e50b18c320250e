-- ===== src/Cli/Password.antt =====
-- cli/_password.py: where a login password comes from. Files, descriptors and the keyring are parameters: what reading
-- them gives.
pub mod Asked
use ezhpcy.Prelude.{ℕ, Bool, true, false, Option, none, some, List, [], ◌∷◌, ◌++◌, ◌||◌, ◌==◌}
use ezhpcy.Prelude.Result.{Result, ok, err}
use ezhpcy.Text.{Text, rstrip}

pub data PasswordError : Type 0 where
  unreadable_file : Text → PasswordError
  unreadable_fd : ℕ → PasswordError
  keyring_unreadable keyring_empty : PasswordError

-- `read_text` of a file and `read` of a descriptor: `none` is an `OSError` or a `UnicodeError`. The keyring's `none` is a
-- `KeyringError`, and its `some none` says that it has no password for the account.
pub record Environment : Type 0 where
  pub read_text : Text → Option Text
  pub read_fd : ℕ → Option Text
  pub get_password : Option (Option Text)

pub record PasswordOptions : Type 0 where
  pub password : Option Text
  pub password_file : Option Text
  pub password_fd : Option ℕ
  pub password_keyring : Bool
  pub config_password_file : Option Text
  pub config_password_fd : Option ℕ
  pub config_password_keyring : Bool
  pub password_prompt : Bool

unfoldable pub without_trailing_line_endings : Text → Text
unfolding rstrip
without_trailing_line_endings value = rstrip (λ c. c == b'\r' || c == b'\n') value

unfoldable pub read_password_file : Environment → Text → Result PasswordError (Option Text)
unfolding without_trailing_line_endings
read_password_file env path = elim (env.read_text path) [
  | some value ↦ ok (some (without_trailing_line_endings value))
  | none ↦ err (unreadable_file path)
]

unfoldable pub read_password_fd : Environment → ℕ → Result PasswordError (Option Text)
unfolding without_trailing_line_endings
read_password_fd env fd = elim (env.read_fd fd) [
  | some value ↦ ok (some (without_trailing_line_endings value))
  | none ↦ err (unreadable_fd fd)
]

abbrev prompt_or : Bool → PasswordError → Result PasswordError (Option Text)
prompt_or true error = ok none
prompt_or false error = err error

unfoldable pub read_password_keyring : Environment → Bool → Result PasswordError (Option Text)
read_password_keyring env password_prompt = elim env.get_password [
  | none ↦ prompt_or password_prompt keyring_unreadable
  | some found ↦ elim found [
    | some password ↦ ok (some password)
    | none ↦ prompt_or password_prompt keyring_empty
  ]
]

abbrev configured_keyring : Environment → PasswordOptions → Result PasswordError (Option Text)
configured_keyring env o = elim o.config_password_keyring [
  | true ↦ read_password_keyring env o.password_prompt
  | false ↦ ok none
]

abbrev configured_password : Environment → PasswordOptions → Result PasswordError (Option Text)
configured_password env o = elim o.config_password_fd [
  | some fd ↦ read_password_fd env fd
  | none ↦ elim o.config_password_file [
    | some path ↦ read_password_file env path
    | none ↦ configured_keyring env o
  ]
]

-- `none`: the password is asked for if it is needed.
unfoldable pub resolve_password : Environment → PasswordOptions → Result PasswordError (Option Text)
unfolding read_password_file read_password_fd read_password_keyring
resolve_password env o = elim o.password [
  | some password ↦ ok (some password)
  | none ↦ elim o.password_file [
    | some path ↦ read_password_file env path
    | none ↦ elim o.password_fd [
      | some fd ↦ read_password_fd env fd
      | none ↦ elim o.password_keyring [
        | true ↦ read_password_keyring env o.password_prompt
        | false ↦ configured_password env o
      ]
    ]
  ]
]
