-- ===== src/Worker/Command.antt =====
-- worker/job.py: `sshd_command`, the worker job's command, with the paths of types.py's `RemoteState` that it names,
-- and `WORKER_SCRIPT`'s loop over the ports. The text of the script and the version of the package are parameters.
pub mod Trial
use ezhpcy.Prelude.{
  ℕ, zero, suc, Bool, true, false, Option, none, some, List, [], ◌∷◌, ◌++◌, if◌then◌else◌, map,
  length, drop, ◌==◌,
}
use ezhpcy.Prelude.Result.{Result, ok, err}
use ezhpcy.Path.{PosixPath, child, path_str}
use ezhpcy.Text.{Text, codes, show, join, before, after}
use ezhpcy.Worker.Job.{publish_state}

pub record RemoteState : Type 0 where
  pub cache_dir : PosixPath
  pub state_dir : PosixPath
  pub version : Text

abbrev pub pixi_version : Text
pixi_version = codes "0.82.1"

abbrev pub openssh_matchspec : Text
openssh_matchspec = codes "openssh==10.5p1"

abbrev pub package_cache_root : RemoteState → PosixPath
package_cache_root r = child r.cache_dir (codes "ezhpcy")

abbrev pub package_cache_dir : RemoteState → PosixPath
package_cache_dir r = child (package_cache_root r) r.version

abbrev pub pixi_home : RemoteState → PosixPath
pixi_home r = child (child (package_cache_dir r) (codes "pixi")) pixi_version

abbrev pub pixi_executable : RemoteState → PosixPath
pixi_executable r = child (child (pixi_home r) (codes "bin")) (codes "pixi")

abbrev pub pixi_cache_dir : RemoteState → PosixPath
pixi_cache_dir r = child (child (package_cache_dir r) (codes "pixi_cache")) pixi_version

abbrev pub package_state_root : RemoteState → PosixPath
package_state_root r = child r.state_dir (codes "ezhpcy")

abbrev pub package_state_dir : RemoteState → PosixPath
package_state_dir r = child (package_state_root r) r.version

abbrev pub worker_logs_dir : RemoteState → PosixPath
worker_logs_dir r = child (child (package_state_dir r) (codes "logs")) (codes "worker")

abbrev pub worker_cwd_dir : RemoteState → PosixPath
worker_cwd_dir r = child (package_cache_dir r) (codes "worker_cwd")

abbrev pub worker_control_root : RemoteState → PosixPath
worker_control_root r = child (package_state_dir r) (codes "worker_control")

unfoldable pub pixi_command : RemoteState → List Text → List Text
unfolding path_str
pixi_command r args =
    codes "env"
    ∷ (codes "PIXI_HOME=" ++ path_str (pixi_home r))
    ∷ (codes "PIXI_CACHE_DIR=" ++ path_str (pixi_cache_dir r))
    ∷ path_str (pixi_executable r)
    ∷ args

-- What `sshd_command` is given beside the ports.
pub record Lease : Type 0 where
  pub heartbeat_token : Text
  pub heartbeat_timeout_seconds : ℕ
  pub control_dir : PosixPath
  pub cancel_executable : Text

pub data CommandError : Type 0 where
  no_ports : CommandError

abbrev script_words : RemoteState → Text → List ℕ → Lease → List Text → List Text
script_words r script ports lease arguments =
    codes "exec"
    ∷ (codes "--spec=" ++ openssh_matchspec)
    ∷ codes "bash"
    ∷ codes "-c"
    ∷ script
    ∷ codes "sshd"
    ∷ join (codes ":") (map show ports)
    ∷ lease.heartbeat_token
    ∷ show lease.heartbeat_timeout_seconds
    ∷ path_str (worker_logs_dir r)
    ∷ path_str lease.control_dir
    ∷ lease.cancel_executable
    ∷ arguments

unfoldable pub sshd_command :
    RemoteState → Text → List ℕ → Lease → List Text → Result CommandError (List Text)
unfolding pixi_command join path_str show
sshd_command r script [] lease arguments = err no_ports
sshd_command r script (p ∷ ports) lease arguments =
    ok (pixi_command r (script_words r script (p ∷ ports) lease arguments))

-- The script's loop: the port on which sshd stays up. Each round takes a port off the text, so that as many rounds as it
-- has characters are enough.
unfoldable pub try_ports : ℕ → (Text → Bool) → Text → Option Text
unfolding before after
try_ports fuel stays_up [] = none
try_ports zero stays_up (c ∷ s) = none
try_ports (suc fuel) stays_up (c ∷ s) =
    let rest = try_ports fuel stays_up (after b':' (c ∷ s)) in
    if stays_up (before b':' (c ∷ s)) then some (before b':' (c ∷ s)) else rest

-- The first status that the script publishes, given its positional parameters, where it can write to the directory.
unfoldable pub first_status : (Text → Bool) → List Text → Option Text
unfolding try_ports publish_state
first_status stays_up (ports ∷ token ∷ parameters) =
    elim (try_ports (length ports) stays_up ports) [
      | some port ↦ some (publish_state token (codes "ready") (port ∷ []))
      | none ↦ some (publish_state token (codes "failed") (codes "no_ports" ∷ []))
    ]
first_status stays_up _ = none

-- `bash -c script sshd ...`: the words after the script's name are its positional parameters.
abbrev pub positional : List Text → List Text
positional command = drop 10 command
