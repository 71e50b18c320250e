-- ===== src/Provision/Login/Complete.antt =====
-- What validation finds, on a login node whose files stay as they are meanwhile.
use ezhpcy.Prelude.{
  ◌≡◌, ◌∙◌, ◌↔◌, refl, ap, Bool, true, false, List, [], ◌∷◌, ◌++◌, All, append-nil, append_assoc,
  Bool-cases, inl, inr, if◌then◌else◌, sym,
}
use ezhpcy.Prelude.Exec.{Result, ok, err}
use ezhpcy.Path.{PosixPath}
use ezhpcy.Worker.Control.{SftpError, no_such_file}
use ezhpcy.Worker.Command.{RemoteState}
use ezhpcy.Provision.Login.{
  Credentials, SftpClient, InfrastructureError, missing, find_missing, required, unless_missing,
  validate_worker_infrastructure,
}

abbrev pub absent : (PosixPath → Bool) → List PosixPath → List PosixPath
absent present [] = []
absent present (p ∷ ps) = if present p then absent present ps else p ∷ absent present ps

abbrev pub found_or_not : Bool → Result SftpError Unit
found_or_not true = ok tt
found_or_not false = err no_such_file

module _ (sftp : SftpClient) (present : PosixPath → Bool)
    (answers : (p : PosixPath) (s : sftp.State)
      → (sftp.stat p s).0 ≡ found_or_not (present p)) where
  find_missing_lem :
      (paths found : List PosixPath) (s : sftp.State)
      → (find_missing sftp paths found s).0 ≡ ok (found ++ absent present paths)
  unfolding find_missing
  find_missing_lem [] found s = ap ok (sym (append-nil found))
  find_missing_lem (p ∷ ps) found s = elim (Bool-cases (present p)) [
    | inl here ↦ rw (answers p s, here, find_missing) (find_missing_lem ps found (sftp.stat p s).1)
    | inr gone ↦
        rw (answers p s, gone, find_missing)
          (find_missing_lem ps (found ++ p ∷ []) (sftp.stat p s).1
            ∙ ap ok (append_assoc found (p ∷ []) (absent present ps)))
  ]

  present_all :
      (paths : List PosixPath)
      → unless_missing sftp (ok (absent present paths)) ≡ ok tt
      → All (λ p. present p ≡ true) paths
  present_all [] e = tt
  present_all (p ∷ ps) e = elim (Bool-cases (present p)) [
    | inl here ↦ (here, present_all ps (rw here at e))
    | inr gone ↦ let bad = rw gone at e in cc
  ]

  absent_none :
      (paths : List PosixPath) → All (λ p. present p ≡ true) paths → absent present paths ≡ []
  absent_none [] h = refl
  absent_none (p ∷ ps) (here, h) = rw here (absent_none ps h)

  -- On a login node that answers every `stat` by the same files, validation succeeds exactly if all that a tunnel needs is
  -- there, and else names all that is not, in order.
  pub validate_worker_infrastructure_iff :
      (c : Credentials) (r : RemoteState) (s : sftp.State)
      → let result = (validate_worker_infrastructure sftp c r s).0 in
        ((result ≡ ok tt) ↔ All (λ p. present p ≡ true) (required sftp c r))
        × ((e : InfrastructureError)
            → result ≡ err e
            → e ≡ missing (absent present (required sftp c r)))
  unfolding validate_worker_infrastructure
  validate_worker_infrastructure_iff c r s =
      let found = find_missing_lem (required sftp c r) [] s in
      (
        (
          λ h. present_all (required sftp c r) (rw found at h),
          λ h. rw found (rw (absent_none (required sftp c r) h) refl),
        ),
        λ e h. named (absent present (required sftp c r)) e (rw found at h),
      )
    where
      named :
          (ms : List PosixPath) (e : InfrastructureError)
          → unless_missing sftp (ok ms) ≡ err e
          → e ≡ missing ms
      named [] e h = cc
      named (m ∷ ms) e h = cc
