-- ===== src/Provision/Worker.antt =====
-- provision_host.py and provision_local.py: provisioning for a worker, over the files of this machine and the login node. Key
-- generation and what asyncssh reads in a public key are parameters.
pub mod Ready
use ezhpcy.Prelude.{Bool, true, false, Option, none, some, List, [], ◌∷◌, ◌++◌, if◌then◌else◌}
use ezhpcy.Prelude.Exec.{Result, ok, err, Exec, pure, lift, ◌>>=◌, ◌>>◌}
use ezhpcy.Text.{Text, codes, text_eq}
use ezhpcy.Remote.{Connection, CommandError, run}
use ezhpcy.Worker.Control.{SftpError}
use ezhpcy.Worker.Command.{RemoteState, pixi_command, openssh_matchspec}
use ezhpcy.Worker.Sshd.{SshdError, absolute_sshd_command, sshd_config_arguments}
use ezhpcy.Provision.Pin.{ProvisioningError, pin_host_key}
use ezhpcy.Provision.Keys.{File, Files, write, KeyError, KeyPair, Paths, ensure_local_keys}
use ezhpcy.Provision.Login.{Credentials, SftpClient, pixi_script, upload_keys, remote_host_key}

pub data ProvisionError : Type 0 where
  key_error : KeyError → ProvisionError
  pin_error : ProvisioningError → ProvisionError
  unreadable_file : Text → ProvisionError
  unreadable_key not_ed25519 : ProvisionError
  command_error : CommandError → ProvisionError
  sftp_failed : SftpError → ProvisionError
  sshd_error : SshdError → ProvisionError

abbrev pub raised : {E A : Type 0} → (E → ProvisionError) → Result E A → Result ProvisionError A
raised f (ok a) = ok a
raised f (err e) = err (f e)

abbrev text_of : Option File → Option Text
text_of none = none
text_of (some file) = some file.content

-- `pin_host_key` over the files
abbrev pub write_pinned : Text → Result ProvisioningError Text → Exec Files ProvisionError Unit
write_pinned known_hosts (err e) files = (err (pin_error e), files)
write_pinned known_hosts (ok text) files =
    (ok tt, write known_hosts (record { content = text; is_private = true }) files)

abbrev pub pin_with : Paths → Option File → Exec Files ProvisionError Unit
pin_with paths none files = (err (unreadable_file paths.host_public_key), files)
pin_with paths (some public) files =
    write_pinned paths.known_hosts (pin_host_key public.content (text_of (files paths.known_hosts)))
      files

unfoldable pub pin_in_files : Paths → Exec Files ProvisionError Unit
unfolding pin_host_key
pin_in_files paths files = pin_with paths (files paths.host_public_key) files

-- `authorized_key`: the algorithm and the blob that are read
abbrev pub checked_key : Option (Text × Text) → Result ProvisionError (Text × Text)
checked_key none = err unreadable_key
checked_key (some (algorithm, blob)) =
    if text_eq algorithm (codes "ssh-ed25519") then ok (algorithm, blob) else err not_ed25519

abbrev pub key_in :
    (Text → Option (Text × Text)) → Option File → Result ProvisionError (Text × Text)
key_in read_public_key none = err unreadable_key
key_in read_public_key (some file) = checked_key (read_public_key file.content)

module _ (read_public_key : Text → Option (Text × Text)) (paths : Paths)
    (client host : KeyPair) where
  unfoldable pub authorized_key : Exec Files ProvisionError (Text × Text)
  authorized_key files = (key_in read_public_key (files paths.client_public_key), files)

  abbrev pub ensure_keys : Exec Files ProvisionError Unit
  ensure_keys files =
      let (r, files') = ensure_local_keys paths client host files in (raised key_error r, files')

  -- `_prepare_local_keys`
  unfoldable pub prepare_local_keys : Exec Files ProvisionError (Text × Text)
  unfolding ensure_local_keys pin_in_files authorized_key
  prepare_local_keys = ensure_keys >> pin_in_files paths >> authorized_key

-- This machine's files, and the login node as commands and as an SFTP session see it
pub record World (L S : Type 0) : Type 0 where
  pub files : Files
  pub login : L
  pub server : S

module _ {L S A : Type 0} where
  abbrev pub on_files : Exec Files ProvisionError A → Exec (World L S) ProvisionError A
  on_files m w = let (r, files) = m w.files in (r, record w { files = files })

  abbrev pub on_login : Exec L CommandError A → Exec (World L S) ProvisionError A
  on_login m w = let (r, login) = m w.login in (raised command_error r, record w { login = login })

  abbrev pub on_server : Exec S SftpError A → Exec (World L S) ProvisionError A
  on_server m w =
      let (r, server) = m w.server in (raised sftp_failed r, record w { server = server })

module _ (conn : Connection) (sftp : SftpClient) (read_public_key : Text → Option (Text × Text))
    (paths : Paths) (client host : KeyPair) (credentials : Credentials) (login_user : Text)
    (r : RemoteState) where
  abbrev pub Provision : Type 0 → Type 0
  Provision A = Exec (World conn.State sftp.State) ProvisionError A

  -- `RemoteHost.run_pixi`
  abbrev pub run_pixi : List Text → Exec conn.State CommandError Text
  run_pixi args = run conn (pixi_command r args) none

  unfoldable pub provision_pixi : Provision Text
  unfolding pixi_script run
  provision_pixi = on_login (run conn (codes "bash" ∷ codes "-c" ∷ pixi_script r ∷ []) none)

  abbrev pub exec_sshd : List Text → List Text
  exec_sshd arguments =
      codes "exec" ∷ (codes "--spec=" ++ openssh_matchspec) ∷ absolute_sshd_command arguments

  unfoldable pub provision_openssh : Provision Text
  unfolding absolute_sshd_command run pixi_command
  provision_openssh = on_login (run_pixi (exec_sshd (codes "-V" ∷ [])))

  -- `sshd -t` with the worker's configuration
  abbrev pub test_configuration : Text × Text → Provision Text
  test_configuration key =
      lift (
        raised sshd_error
          (sshd_config_arguments (remote_host_key credentials r) login_user key none))
      >>= λ arguments. on_login (run_pixi (exec_sshd (codes "-t" ∷ arguments)))

  abbrev pub on_login_node : Text × Text → Provision (Text × Text)
  on_login_node key =
      on_server (upload_keys sftp credentials r) >> test_configuration key >> pure key

  unfoldable pub provision_sshd_files : Provision (Text × Text)
  unfolding prepare_local_keys upload_keys sshd_config_arguments absolute_sshd_command run
      pixi_command
  provision_sshd_files =
      on_files (prepare_local_keys read_public_key paths client host) >>= on_login_node

  unfoldable pub provision_worker_infrastructure : Provision (Text × Text)
  unfolding provision_pixi provision_openssh provision_sshd_files
  provision_worker_infrastructure = provision_pixi >> provision_openssh >> provision_sshd_files
