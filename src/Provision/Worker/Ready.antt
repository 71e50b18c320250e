-- ===== src/Provision/Worker/Ready.antt =====
-- What provisioning leaves on this machine.
pub mod Kept
use ezhpcy.Prelude.{
  ◌≡◌, ◌∙◌, refl, sym, ap, subst, Bool, true, false, Option, none, some, [], inl, inr,
}
use ezhpcy.Prelude.Exec.{Result, ok, err, Exec, pure, continue, ◌>>◌}
use ezhpcy.Text.{Text}
use ezhpcy.Text.Table.{put_same, put_other, text_cases}
use ezhpcy.Remote.{Connection}
use ezhpcy.Worker.Command.{RemoteState}
use ezhpcy.Provision.Pin.{ProvisioningError, pin_host_key}
use ezhpcy.Provision.Keys.{
  File, Files, write, exists, set_private, KeyPair, create_pair, restrict_pair, ensure_by,
  ensure_key_pair, Paths, ensure_local_keys, missing_tunnel_files,
}
use ezhpcy.Worker.Sshd.{sshd_config_arguments}
use ezhpcy.Provision.Login.{Credentials, SftpClient, remote_host_key, upload_keys}
use ezhpcy.Provision.Worker.{
  ProvisionError, key_error, sshd_error, on_server, write_pinned, pin_with, pin_in_files, key_in,
  authorized_key, ensure_keys, prepare_local_keys, raised, World, Provision, on_login_node,
  provision_sshd_files, provision_worker_infrastructure, provision_pixi, provision_openssh,
  test_configuration,
}
use ezhpcy.Provision.Worker.Ready.Kept.{
  Has, Keeps, write-Keeps, written_there, ensure_there, ensure-Keeps,
}

-- A method that succeeds goes on to what follows it.
continue_ok :
    {S E A B : Type 0} (r : Result E A) (f : A → Exec S E B) (s : S) (b : B)
    → (continue r f s).0 ≡ ok b
    → (a : A) × (r ≡ ok a) × (continue r f s ≡ f a s)
continue_ok (ok a) f s b h = (a, refl, refl)
continue_ok (err e) f s b h = cc

ok_same : {A : Type 0} (a b : A) (r : Result ProvisionError A) → r ≡ ok a → r ≡ ok b → a ≡ b
ok_same a b r h k = cc

missing_none :
    (paths : Paths) (files : Files)
    → Has files paths.client_key
    → Has files paths.client_public_key
    → Has files paths.known_hosts
    → missing_tunnel_files paths files ≡ []
unfolding missing_tunnel_files
missing_none paths files a b c = rw (a, b, c) refl

write_pinned_there :
    (known_hosts : Text) (r : Result ProvisioningError Text) (files : Files)
    → (write_pinned known_hosts r files).0 ≡ ok tt
    → Has (write_pinned known_hosts r files).1 known_hosts
      × Keeps files (write_pinned known_hosts r files).1
write_pinned_there known_hosts (err e) files h = cc
write_pinned_there known_hosts (ok text) files h =
    let file : File = record { content = text; is_private = true } in
    (written_there known_hosts file files, write-Keeps known_hosts file files)

module _ (paths : Paths) where
  pin_with_there :
      (o : Option File) (files : Files)
      → (pin_with paths o files).0 ≡ ok tt
      → Has (pin_with paths o files).1 paths.known_hosts × Keeps files (pin_with paths o files).1
  pin_with_there none files h = cc
  pin_with_there (some public) files h =
      write_pinned_there paths.known_hosts (pin_host_key public.content _) files h

  module _ (read_public_key : Text → Option (Text × Text)) (client host : KeyPair) where
    keys_there :
        (files : Files)
        → (ensure_local_keys paths client host files).0 ≡ ok tt
        → Has (ensure_local_keys paths client host files).1 paths.client_key
          × Has (ensure_local_keys paths client host files).1 paths.client_public_key
    unfolding ensure_local_keys ensure_key_pair
    keys_there files h =
        let first = ensure_key_pair paths.client_key paths.client_public_key client files in
        let (_, made, same) =
          continue_ok first.0 (λ _. ensure_key_pair paths.host_key paths.host_public_key host)
            first.1 tt h in
        let (a, b) =
          ensure_there paths.client_key paths.client_public_key client
            (exists (files paths.client_key)) (exists (files paths.client_public_key)) files refl
            refl made in
        let keeps =
          ensure-Keeps paths.host_key paths.host_public_key host (exists (first.1 paths.host_key))
            (exists (first.1 paths.host_public_key)) first.1 in
        (
          subst (λ r. Has r.1 paths.client_key) (sym same) (keeps paths.client_key a),
          subst (λ r. Has r.1 paths.client_public_key) (sym same) (keeps paths.client_public_key b),
        )

    raised_ok :
        {E A : Type 0} (f : E → ProvisionError) (r : Result E A) (a : A)
        → raised f r ≡ ok a
        → r ≡ ok a
    raised_ok f (ok b) a h = cc
    raised_ok f (err e) a h = cc

    -- The files that a tunnel needs are there, and the key that is returned is the one that they have.
    abbrev pub IsReady : Text × Text → Files → Type 0
    IsReady key files =
        (missing_tunnel_files paths files ≡ [])
        × (key_in read_public_key (files paths.client_public_key) ≡ ok key)

    prepare-IsReady :
        (files : Files) (key : Text × Text)
        → (prepare_local_keys read_public_key paths client host files).0 ≡ ok key
        → IsReady key (prepare_local_keys read_public_key paths client host files).1
    unfolding prepare_local_keys authorized_key pin_in_files
    prepare-IsReady files key h =
        let keys = ensure_keys read_public_key paths client host files in
        let pinned = pin_in_files paths keys.1 in
        let both = (ensure_keys read_public_key paths client host >> pin_in_files paths) files in
        let (u, both_ok, last) =
          continue_ok both.0 (λ _. authorized_key read_public_key paths client host) both.1 key h in
        let (v, keys_ok, same) = continue_ok keys.0 (λ _. pin_in_files paths) keys.1 u both_ok in
        let pin_ok : pinned.0 ≡ ok u = sym (ap (λ r. r.0) same) ∙ both_ok in
        let (there, keeps) = pin_with_there (keys.1 paths.host_public_key) keys.1 pin_ok in
        let (a, b) =
          keys_there files
            (raised_ok key_error (ensure_local_keys paths client host files).0 tt keys_ok) in
        let key_ok : key_in read_public_key (pinned.1 paths.client_public_key) ≡ ok key =
          sym (ap (λ r. key_in read_public_key (r.1 paths.client_public_key)) same)
          ∙ sym (ap (λ r. r.0) last)
          ∙ h in
        let final : (prepare_local_keys read_public_key paths client host files).1 ≡ pinned.1 =
          ap (λ r. r.1) last ∙ ap (λ r. r.1) same in
        subst (IsReady key) (sym final) (
          missing_none paths pinned.1 (keeps paths.client_key a) (keeps paths.client_public_key b)
              there,
          key_ok,
        )

module _ (conn : Connection) (sftp : SftpClient) (read_public_key : Text → Option (Text × Text))
    (paths : Paths) (client host : KeyPair) (credentials : Credentials) (login_user : Text)
    (r : RemoteState) where
  -- The login node's part leaves this machine's files as they are.
  continue_files :
      {A B : Type 0} (m : Result ProvisionError A)
      (f : A → Provision conn sftp read_public_key paths client host credentials login_user r B)
      (w : World conn.State sftp.State)
      → ((a : A) (v : World conn.State sftp.State) → (f a v).1.files ≡ v.files)
      → (continue m f w).1.files ≡ w.files
  continue_files (ok a) f w h = h a w
  continue_files (err e) f w h = refl

  tested_keeps :
      (k : Text × Text) (w : World conn.State sftp.State)
      → (test_configuration conn sftp read_public_key paths client host credentials login_user r k
          w).1.files
        ≡ w.files
  tested_keeps k w =
      continue_files
        (raised sshd_error
          (sshd_config_arguments (remote_host_key credentials r) login_user k none))
        _ w (λ arguments v. refl)

  login_node_keeps :
      (k : Text × Text) (w : World conn.State sftp.State) (key : Text × Text)
      → (on_login_node conn sftp read_public_key paths client host credentials login_user r k w).0
        ≡ ok key
      → ((on_login_node conn sftp read_public_key paths client host credentials login_user r k
            w).1.files
          ≡ w.files)
        × (k ≡ key)
  login_node_keeps k w key h =
      let uploaded : Result ProvisionError Unit × World conn.State sftp.State =
        on_server (upload_keys sftp credentials r) w in
      let test = λ (_ : Unit).
        test_configuration conn sftp read_public_key paths client host credentials login_user r k in
      let tested = continue uploaded.0 test uploaded.1 in
      let (u, tested_ok, same) = continue_ok tested.0 (λ _. pure k) tested.1 key h in
      (
        ap (λ x. x.1.files) same
            ∙ continue_files uploaded.0 test uploaded.1 (λ _ v. tested_keeps k v),
        ok_same k key (ok k) refl (sym (ap (λ x. x.0) same) ∙ h),
      )

  sshd_files-IsReady :
      (w : World conn.State sftp.State) (key : Text × Text)
      → (provision_sshd_files conn sftp read_public_key paths client host credentials login_user r
          w).0
        ≡ ok key
      → IsReady paths read_public_key client host key
          (provision_sshd_files conn sftp read_public_key paths client host credentials login_user r
            w).1.files
  unfolding provision_sshd_files
  sshd_files-IsReady w key h =
      let prepared = prepare_local_keys read_public_key paths client host w.files in
      let (k, prepared_ok, same) =
        continue_ok prepared.0
          (on_login_node conn sftp read_public_key paths client host credentials login_user r)
          (record w { files = prepared.1 }) key h in
      let (files, own) =
        login_node_keeps k (record w { files = prepared.1 }) key (sym (ap (λ x. x.0) same) ∙ h) in
      subst (IsReady paths read_public_key client host key) (sym (ap (λ x. x.1.files) same ∙ files))
        (prepare-IsReady paths read_public_key client host w.files key (prepared_ok ∙ ap ok own))

  -- Where provisioning for a worker succeeds, no file that a tunnel needs on this machine is missing afterwards, and the key that
  -- it returns for the worker to authorize is the one in the client's public key file.
  pub provision_worker_infrastructure-IsReady :
      (w : World conn.State sftp.State) (key : Text × Text)
      → (provision_worker_infrastructure conn sftp read_public_key paths client host credentials
          login_user r w).0
        ≡ ok key
      → IsReady paths read_public_key client host key
          (provision_worker_infrastructure conn sftp read_public_key paths client host credentials
            login_user r w).1.files
  unfolding provision_worker_infrastructure provision_pixi provision_openssh
  provision_worker_infrastructure-IsReady w key h =
      let early =
        (provision_pixi conn sftp read_public_key paths client host credentials login_user r
            >> provision_openssh conn sftp read_public_key paths client host credentials login_user
                r)
          w in
      let (u, early_ok, same) =
        continue_ok early.0
          (λ _.
            provision_sshd_files conn sftp read_public_key paths client host credentials login_user
              r)
          early.1 key h in
      subst (λ x. IsReady paths read_public_key client host key x.1.files) (sym same)
        (sshd_files-IsReady early.1 key (sym (ap (λ x. x.0) same) ∙ h))
