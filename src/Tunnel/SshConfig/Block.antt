-- ===== src/Tunnel/SshConfig/Block.antt =====
-- What OpenSSH reads in a tunnel's Host block.
pub mod Read
pub mod Reader
use ezhpcy.Prelude.{
  ℕ, ◌≢◌, ◌&&◌, Option, none, some, List, [], ◌∷◌, ◌++◌, ◌==◌, ℕ_discrete, Bool-cases, option_map,
}
use ezhpcy.Text.{Text, codes, show, join}
use ezhpcy.Text.Number.Decimal.{IsAsciiDigit, is_space_digit, show-IsAsciiDigit, show-cons}
use ezhpcy.Config.Alias.{IsInert, validate_alias_safe}
use ezhpcy.Tunnel.SshConfig.{escape, WorkerHost, loopback_host, worker_host_alias}
use ezhpcy.Tunnel.SshConfig.Block.Read.{not_head}

-- What OpenSSH is to read in the block of a host.
abbrev pub expected : WorkerHost → ℕ → List (Text × Option Text)
expected host port =
    (codes "Host", some host.alias)
    ∷ (codes "HostName", some loopback_host)
    ∷ (codes "Port", some (show port))
    ∷ (codes "User", some host.user)
    ∷ (codes "IdentityFile", some host.identity_file)
    ∷ (codes "IdentitiesOnly", some (codes "yes"))
    ∷ (codes "UserKnownHostsFile", some host.known_hosts)
    ∷ (codes "HostKeyAlias", some worker_host_alias)
    ∷ (codes "StrictHostKeyChecking", some (codes "yes"))
    ∷ (codes "ProxyCommand", some (codes "none"))
    ∷ []
