-- ===== src/Worker/Sshd.antt =====
-- worker/sshd.py: how long sshd serves a client that does not answer, and sshd's configuration as
-- command-line options.
pub mod Options
use ezhpcy.Prelude.{
  ℕ, zero, suc, ◌+◌, ◌-◌, ◌/◌, Bool, true, false, Option, none, some, List, [], ◌∷◌, ◌++◌, ltb,
  ◌||◌, if◌then◌else◌,
}
use ezhpcy.Prelude.Result.{Result, ok, err}
use ezhpcy.Text.{Text, codes, show}
use ezhpcy.Path.{PosixPath, path_str}

-- `RESOLVE_SSHD`
abbrev resolve_sshd : Text
resolve_sshd =
    codes
      "sshd_path=\"$(command -v sshd)\" || exit\ncase \"$sshd_path\" in\n    /*) ;;\n    *) echo \"sshd must resolve to an absolute path\" >&2; exit 1 ;;\nesac\n"

unfoldable pub absolute_sshd_command : List Text → List Text
absolute_sshd_command arguments =
    codes "sh"
    ∷ codes "-c"
    ∷ (resolve_sshd ++ codes "exec \"$sshd_path\" \"$@\"")
    ∷ codes "sshd"
    ∷ arguments

abbrev pub max : ℕ → ℕ → ℕ
max m n = if ltb m n then n else m

-- `client_alive`, of the interval `numerator / denominator`, which is what a float is.
unfoldable pub client_alive : ℕ → ℕ → ℕ → ℕ × ℕ
client_alive numerator denominator heartbeat_timeout =
    let interval = max 1 ((numerator + (denominator - 1)) / denominator) in
    (interval, max 1 (heartbeat_timeout / interval))

-- The message of the `ValueError`.
pub data SshdError : Type 0 where
  not_positive : SshdError

abbrev liveness : Option (ℕ × ℕ) → List (Text × Text)
liveness none = []
liveness (some (interval, count_max)) =
    (codes "ClientAliveInterval", show interval)
    ∷ (codes "ClientAliveCountMax", show count_max)
    ∷ []

-- What the configuration holds before and after the liveness settings.
unfoldable pub before_liveness : PosixPath → Text → Text × Text → List (Text × Text)
unfolding path_str
before_liveness host_key remote_username (key_type, key_blob) =
    (codes "ListenAddress", codes "0.0.0.0")
    ∷ (codes "HostKey", path_str host_key)
    ∷ (codes "AuthorizedKeysFile", codes "none")
    ∷ (codes "PidFile", codes "none")
    ∷ (codes "AuthorizedKeysCommand", codes "/bin/echo " ++ (key_type ++ (b' ' ∷ key_blob)))
    ∷ (codes "AuthorizedKeysCommandUser", remote_username)
    ∷ (codes "StrictModes", codes "yes")
    ∷ (codes "PubkeyAuthentication", codes "yes")
    ∷ (codes "AuthenticationMethods", codes "publickey")
    ∷ (codes "PasswordAuthentication", codes "no")
    ∷ (codes "KbdInteractiveAuthentication", codes "no")
    ∷ (codes "HostbasedAuthentication", codes "no")
    ∷ (codes "PermitEmptyPasswords", codes "no")
    ∷ (codes "PermitRootLogin", codes "no")
    ∷ (codes "AllowUsers", remote_username)
    ∷ (codes "PermitUserEnvironment", codes "no")
    ∷ (codes "AllowTcpForwarding", codes "yes")
    ∷ (codes "GatewayPorts", codes "no")
    ∷ (codes "AllowAgentForwarding", codes "no")
    ∷ (codes "X11Forwarding", codes "no")
    ∷ (codes "PermitTunnel", codes "no")
    ∷ []

abbrev after_liveness : List (Text × Text)
after_liveness =
    (codes "UseDNS", codes "no")
    ∷ (codes "LogLevel", codes "INFO")
    ∷ (codes "Subsystem", codes "sftp internal-sftp")
    ∷ []

abbrev positive : Option (ℕ × ℕ) → Bool
positive none = true
positive (some (interval, count_max)) = if ltb interval 1 || ltb count_max 1 then false else true

-- `_sshd_config_settings`
unfoldable pub sshd_config_settings :
    PosixPath → Text → Text × Text → Option (ℕ × ℕ) → Result SshdError (List (Text × Text))
unfolding path_str show
sshd_config_settings host_key remote_username authorized_key alive =
    if positive alive
    then ok (
        before_liveness host_key remote_username authorized_key
        ++ (liveness alive ++ after_liveness))
    else err not_positive

-- `part for name, value in settings for part in ("-o", f"{name}={value}")`
unfoldable pub options : List (Text × Text) → List Text
options [] = []
options ((name, value) ∷ rest) = codes "-o" ∷ (name ++ b'=' ∷ value) ∷ options rest

abbrev arguments_of : Result SshdError (List (Text × Text)) → Result SshdError (List Text)
arguments_of (err e) = err e
arguments_of (ok settings) = ok (codes "-f" ∷ codes "/dev/null" ∷ options settings)

unfoldable pub sshd_config_arguments :
    PosixPath → Text → Text × Text → Option (ℕ × ℕ) → Result SshdError (List Text)
unfolding sshd_config_settings options
sshd_config_arguments host_key remote_username authorized_key alive =
    arguments_of (sshd_config_settings host_key remote_username authorized_key alive)
