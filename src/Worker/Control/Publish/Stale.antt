-- ===== src/Worker/Control/Publish/Stale.antt =====
-- The loop that removes old leases.
use ezhpcy.Prelude.{
  suc, ◌<◌, ◌≤◌, ◌≡◌, refl, sym, subst, true, none, some, List, [], ◌∷◌, ltb, length, arith,
  Option-cases, inl, inr, All, dec_lt,
}
use ezhpcy.Prelude.Result.{Result, ok, err}
use ezhpcy.Path.{PosixPath}
use ezhpcy.Worker.Control.{SftpError, Sftp, lease_file_retain_count, not_sftp, remove_stale}

module _ (sftp : Sftp) where
  remove_stale_keep :
      (leases : List PosixPath) (s : sftp.State)
      → length leases ≤ lease_file_retain_count
      → remove_stale sftp leases s ≡ (ok tt, leases, s)
  unfolding remove_stale
  remove_stale_keep [] s h = refl
  remove_stale_keep (stale ∷ rest) s h = ground (arith, h)

  remove_stale_next :
      (stale : PosixPath) (rest : List PosixPath) (s : sftp.State)
      → lease_file_retain_count < length (stale ∷ rest)
      → not_sftp (sftp.remove stale s).0 ≡ none
      → remove_stale sftp (stale ∷ rest) s ≡ remove_stale sftp rest (sftp.remove stale s).1
  unfolding remove_stale
  remove_stale_next stale rest s h e = rw (more, remove_stale) (rw e refl)
    where
      more : ltb lease_file_retain_count (length (stale ∷ rest)) ≡ true
      more = ground (arith, h)

  remove_stale_stop :
      (stale : PosixPath) (rest : List PosixPath) (s : sftp.State) (x : SftpError)
      → lease_file_retain_count < length (stale ∷ rest)
      → not_sftp (sftp.remove stale s).0 ≡ some x
      → remove_stale sftp (stale ∷ rest) s ≡ (err x, rest, (sftp.remove stale s).1)
  unfolding remove_stale
  remove_stale_stop stale rest s x h e = rw (more, remove_stale) (rw e refl)
    where
      more : ltb lease_file_retain_count (length (stale ∷ rest)) ≡ true
      more = ground (arith, h)

  -- The loop by its rounds: what holds where it ends holds of its outcome.
  pub remove_stale_induction :
      (P : List PosixPath
        → sftp.State
        → Result SftpError Unit × List PosixPath × sftp.State
        → Type 0)
      → ((leases : List PosixPath) (s : sftp.State)
          → length leases ≤ lease_file_retain_count
          → P leases s (ok tt, leases, s))
      → ((stale : PosixPath) (rest : List PosixPath) (s : sftp.State) (x : SftpError)
          → lease_file_retain_count < length (stale ∷ rest)
          → P (stale ∷ rest) s (err x, rest, (sftp.remove stale s).1))
      → ((stale : PosixPath) (rest : List PosixPath) (s : sftp.State)
            (out : Result SftpError Unit × List PosixPath × sftp.State)
          → lease_file_retain_count < length (stale ∷ rest)
          → P rest (sftp.remove stale s).1 out
          → P (stale ∷ rest) s out)
      → (leases : List PosixPath) (s : sftp.State) → P leases s (remove_stale sftp leases s)
  remove_stale_induction P keep stop next [] s =
      subst (P [] s) (sym (remove_stale_keep [] s (omega arith))) (keep [] s (omega arith))
  remove_stale_induction P keep stop next (stale ∷ rest) s =
      elim (dec_lt lease_file_retain_count (length (stale ∷ rest))) [
        | no few ↦
            let h : length (stale ∷ rest) ≤ lease_file_retain_count = omega arith in
            subst (P (stale ∷ rest) s) (sym (remove_stale_keep (stale ∷ rest) s h))
              (keep (stale ∷ rest) s h)
        | yes many ↦ elim (Option-cases (not_sftp (sftp.remove stale s).0)) [
          | inl e ↦ subst (P (stale ∷ rest) s) (sym (remove_stale_next stale rest s many e)) (
              next stale rest s _ many
                (remove_stale_induction P keep stop next rest (sftp.remove stale s).1))
          | inr (x, e) ↦
              subst (P (stale ∷ rest) s) (sym (remove_stale_stop stale rest s x many e))
                (stop stale rest s x many)
        ]
      ]

  pub remove_stale-length :
      (leases : List PosixPath) (s : sftp.State)
      → length leases ≤ suc lease_file_retain_count
      → length (remove_stale sftp leases s).1 ≤ lease_file_retain_count
  remove_stale-length =
      remove_stale_induction
        (λ leases s out.
          length leases ≤ suc lease_file_retain_count → length out.1 ≤ lease_file_retain_count)
        (λ leases s few h. few) (λ stale rest s x many h. omega arith)
        (λ stale rest s out many ih h. ih (omega arith))

  pub remove_stale-All :
      (P : PosixPath → Type 0) (leases : List PosixPath) (s : sftp.State)
      → All P leases
      → All P (remove_stale sftp leases s).1
  remove_stale-All P =
      remove_stale_induction (λ leases s out. All P leases → All P out.1) (λ leases s few h. h)
        (λ stale rest s x many h. h.1) (λ stale rest s out many ih h. ih (h.1))
