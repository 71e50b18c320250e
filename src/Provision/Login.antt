-- ===== src/Provision/Login.antt =====
-- provision_host.py: what is put on the login node, and its validation, and provision_local.py's paths of the worker's keys
-- there. The login node's SFTP server is a parameter.
pub mod Complete
use ezhpcy.Prelude.{ℕ, Bool, true, false, Option, none, some, List, [], ◌∷◌, ◌++◌}
use ezhpcy.Prelude.Exec.{Result, ok, err, Exec, pure, raise, ◌>>=◌, ◌>>◌}
use ezhpcy.Text.{Text, codes, join}
use ezhpcy.Path.{PosixPath, child, path_str}
use ezhpcy.Shell.{quote, shlex_join}
use ezhpcy.Worker.Control.{SftpError, no_such_file, sftp_error, other_error}
use ezhpcy.Worker.Command.{RemoteState, package_cache_dir, pixi_home, pixi_executable, pixi_version}

-- `WorkerCredentials`, with the `ssh_connection_id` of its user and host
pub record Credentials : Type 0 where
  pub machine_id : Text
  pub connection_id : Text
  pub host_key : Text
  pub host_public_key : Text

abbrev pub remote_dir : Credentials → RemoteState → PosixPath
remote_dir c r =
    child (child (child (package_cache_dir r) (codes "ssh")) c.machine_id) c.connection_id

abbrev pub remote_host_key : Credentials → RemoteState → PosixPath
remote_host_key c r = child (remote_dir c r) (codes "ssh_host_ed25519_key")

abbrev pub remote_host_public_key : Credentials → RemoteState → PosixPath
remote_host_public_key c r = child (remote_dir c r) (codes "ssh_host_ed25519_key.pub")

-- The command of `provision_pixi`
unfoldable pub pixi_script : RemoteState → Text
unfolding quote shlex_join path_str
pixi_script r =
    codes "set -euo pipefail\nif [ ! -x "
    ++ (quote (path_str (pixi_executable r))
        ++ (codes " ]; then\n    "
            ++ (shlex_join (
                  codes "curl"
                  ∷ codes "--fail"
                  ∷ codes "--location"
                  ∷ codes "--show-error"
                  ∷ codes "--silent"
                  ∷ codes "https://pixi.sh/install.sh"
                  ∷ [])
                ++ (codes " | "
                    ++ (shlex_join (
                          codes "env"
                          ∷ (codes "PIXI_HOME=" ++ path_str (pixi_home r))
                          ∷ (codes "PIXI_VERSION=" ++ pixi_version)
                          ∷ codes "PIXI_NO_PATH_UPDATE=1"
                          ∷ codes "bash"
                          ∷ [])
                        ++ codes "\nfi")))))

-- asyncssh's SFTP client: `stat`, `isdir`, `makedirs`, `chmod`, and `put` of a local file
pub record SftpClient : Type 1 where
  pub State : Type 0
  pub stat : PosixPath → State → Result SftpError Unit × State
  pub isdir : PosixPath → State → Result SftpError Bool × State
  pub makedirs : PosixPath → State → Result SftpError Unit × State
  pub chmod : PosixPath → ℕ → State → Result SftpError Unit × State
  pub put : Text → PosixPath → State → Result SftpError Unit × State

pub data InfrastructureError : Type 0 where
  missing : List PosixPath → InfrastructureError
  sftp_failed : SftpError → InfrastructureError

module _ (sftp : SftpClient) where
  abbrev pub make_unless : PosixPath → Bool → Exec sftp.State SftpError Unit
  make_unless path true = pure tt
  make_unless path false = sftp.makedirs path

  -- ssh.py: `ensure_directory`
  unfoldable pub ensure_directory : PosixPath → Exec sftp.State SftpError Unit
  ensure_directory path = sftp.isdir path >>= make_unless path

  -- The SFTP session of `provision_sshd_files`
  unfoldable pub upload_keys : Credentials → RemoteState → Exec sftp.State SftpError Unit
  unfolding ensure_directory
  upload_keys c r =
      ensure_directory (remote_dir c r)
      >> sftp.chmod (remote_dir c r) 0o700
      >> sftp.put c.host_key (remote_host_key c r)
      >> sftp.put c.host_public_key (remote_host_public_key c r)
      >> sftp.chmod (remote_host_key c r) 0o600
      >> sftp.chmod (remote_host_public_key c r) 0o644

  abbrev pub note_missing :
      PosixPath → Result SftpError Unit → List PosixPath → Result SftpError (List PosixPath)
  note_missing path (ok _) found = ok found
  note_missing path (err no_such_file) found = ok (found ++ path ∷ [])
  note_missing path (err (sftp_error e)) found = err (sftp_error e)
  note_missing path (err (other_error e)) found = err (other_error e)

  -- The loop of `validate_worker_infrastructure`
  unfoldable pub find_missing :
      List PosixPath → List PosixPath → Exec sftp.State SftpError (List PosixPath)
  find_missing [] found s = (ok found, s)
  find_missing (path ∷ paths) found s =
      let (there, s') = sftp.stat path s in
      elim (note_missing path there found) [
        | err e ↦ (err e, s')
        | ok found' ↦ find_missing paths found' s'
      ]

  abbrev pub required : Credentials → RemoteState → List PosixPath
  required c r = pixi_executable r ∷ remote_host_key c r ∷ remote_host_public_key c r ∷ []

  abbrev pub unless_missing : Result SftpError (List PosixPath) → Result InfrastructureError Unit
  unless_missing (err e) = err (sftp_failed e)
  unless_missing (ok []) = ok tt
  unless_missing (ok (path ∷ paths)) = err (missing (path ∷ paths))

  unfoldable pub validate_worker_infrastructure :
      Credentials → RemoteState → Exec sftp.State InfrastructureError Unit
  unfolding find_missing
  validate_worker_infrastructure c r s =
      let (found, s') = find_missing (required c r) [] s in (unless_missing found, s')
