-- ===== src/Worker/Control/Publish.antt =====
-- Publishing a lease, on an SFTP server whose files behave as files do.
pub mod Names
pub mod Stale
use ezhpcy.Prelude.{
  ℕ, suc, ◌<◌, ◌≤◌, ◌≡◌, ◌≢◌, ◌∙◌, refl, sym, ap, subst, true, false, Option, none, some, List, [],
  ◌∷◌, ◌++◌, ltb, length, arith, Option-cases, inl, inr, All, All-append, length-append, dec_lt,
}
use ezhpcy.Prelude.Result.{Result, ok, err, Result-cases}
use ezhpcy.Text.{Text, codes, show_padded, digits_value, strip_prefix, strip_prefix-append}
use ezhpcy.Text.Number.Decimal.{padded_value}
use ezhpcy.Path.{PosixPath}
use ezhpcy.Worker.Control.{
  SftpError, Sftp, WorkerControl, lease_file_retain_count, lease_name, lease_path, temporary_path,
  lease_line, not_sftp, answer_sequence, write_lease, remove_stale, keep_lease, publish_lease,
}
use ezhpcy.Worker.Control.Publish.Stale.{
  remove_stale_induction, remove_stale-length, remove_stale-All,
}
use ezhpcy.Worker.Control.Publish.Names.{lease_path-injective}

-- What a server does with its files: a write or a rename that succeeds is seen afterwards, and removing a
-- file leaves the others as they are, also where it fails.
pub record FileSystem (sftp : Sftp) : Type 1 where
  pub contents : sftp.State → PosixPath → Option Text
  pub write-contents :
      (p : PosixPath) (t : Text) (s : sftp.State)
      → (sftp.write p t s).0 ≡ ok tt
      → contents (sftp.write p t s).1 p ≡ some t
  pub rename-contents :
      (p q : PosixPath) (s : sftp.State)
      → (sftp.posix_rename p q s).0 ≡ ok tt
      → contents (sftp.posix_rename p q s).1 q ≡ contents s p
  pub remove-contents :
      (p q : PosixPath) (s : sftp.State) → p ≢ q → contents (sftp.remove p s).1 q ≡ contents s q

-- A remembered lease is one that was published before.
unfoldable pub IsLease : WorkerControl → PosixPath → Type 0
IsLease c p = (n : ℕ) × (n ≤ c.sequence) × (p ≡ lease_path c.directory n)

-- What every state of the control keeps: at most two remembered leases, all from before.
unfoldable pub IsControl : WorkerControl → Type 0
unfolding IsLease
IsControl c = (length c.leases ≤ lease_file_retain_count) × All (IsLease c) c.leases

-- A list of three or more that ends with `q` starts with another of its elements.
starts_before :
    (q stale : PosixPath) (rest old : List PosixPath)
    → lease_file_retain_count < length (stale ∷ rest)
    → stale ∷ rest ≡ old ++ q ∷ []
    → All (λ p. p ≢ q) old
    → (stale ≢ q) × (old' : List PosixPath) × (rest ≡ old' ++ q ∷ []) × All (λ p. p ≢ q) old'
starts_before q stale rest [] many e h = absurd (omega (arith, ap length e))
starts_before q stale rest (p ∷ old) many e (different, h) = ((λ same. different (cc)), old, cc, h)

module _ (sftp : Sftp) where
  pub publish_lease_keeps :
      (c : WorkerControl) (s : sftp.State)
      → (write_lease sftp (record c { sequence = suc c.sequence }) (suc c.sequence) s).0 ≡ ok tt
      → publish_lease sftp c s
        ≡ keep_lease sftp
            (record c { sequence = suc c.sequence })
            (suc c.sequence)
            (write_lease sftp (record c { sequence = suc c.sequence }) (suc c.sequence) s).1
  unfolding publish_lease
  publish_lease_keeps c s e = rw (e, publish_lease) refl

  pub publish_lease_fails :
      (c : WorkerControl) (s : sftp.State) (x : SftpError)
      → (write_lease sftp (record c { sequence = suc c.sequence }) (suc c.sequence) s).0 ≡ err x
      → ((publish_lease sftp c s).0 ≡ err x)
        × ((publish_lease sftp c s).1 ≡ record c { sequence = suc c.sequence })
  unfolding publish_lease
  publish_lease_fails c s x e = rw (e, publish_lease) (refl, refl)

  -- Leases from before are still from before with the next sequence number.
  later :
      (c : WorkerControl) (leases : List PosixPath)
      → All (IsLease c) leases
      → All (IsLease (record c { sequence = suc c.sequence })) leases
  unfolding IsLease
  later c [] h = tt
  later c (p ∷ leases) ((n, le, e), h) = ((n, omega arith, e), later c leases h)

  earlier :
      (c : WorkerControl) (leases : List PosixPath)
      → All (IsLease c) leases
      → All (λ p. p ≢ lease_path c.directory (suc c.sequence)) leases
  unfolding IsLease
  earlier c [] h = tt
  earlier c (p ∷ leases) ((n, le, e), h) = (
    (λ same. lease_path-injective c.directory n (suc c.sequence) (omega arith) (sym e ∙ same)),
    earlier c leases h,
  )

  waiting : (c : WorkerControl) → IsControl c → IsControl (record c { sequence = suc c.sequence })
  unfolding IsControl
  waiting c (few, past) = (few, later c c.leases past)

  keep_lease-IsControl :
      (c : WorkerControl) (s : sftp.State)
      → length c.leases ≤ lease_file_retain_count
      → All (IsLease c) c.leases
      → IsControl (keep_lease sftp c c.sequence s).1
  unfolding keep_lease IsControl IsLease
  keep_lease-IsControl c s few past =
      let leases = c.leases ++ lease_path c.directory c.sequence ∷ [] in
      let short : length leases ≤ suc lease_file_retain_count =
        omega (arith, length-append c.leases (lease_path c.directory c.sequence ∷ [])) in
      let own : All (IsLease c) leases =
        All-append (IsLease c) c.leases _ past ((c.sequence, omega arith, refl), tt) in
      (remove_stale-length sftp leases s short, remove_stale-All sftp (IsLease c) leases s own)

  -- The control stays as it should whatever is raised: it remembers two leases at most, and only some
  -- that it published.
  pub publish_lease-IsControl :
      (c : WorkerControl) (s : sftp.State) → IsControl c → IsControl (publish_lease sftp c s).1
  unfolding IsControl
  publish_lease-IsControl c s (few, past) =
      let c' : WorkerControl = record c { sequence = suc c.sequence } in
      elim (Result-cases (write_lease sftp c' (suc c.sequence) s).0) [
        | inr (x, e) ↦ subst IsControl (sym (publish_lease_fails c s x e).1) (waiting c (few, past))
        | inl (_, e) ↦ subst IsControl (sym (ap (λ r. r.1) (publish_lease_keeps c s e))) (
            keep_lease-IsControl c' (write_lease sftp c' (suc c.sequence) s).1 few
              (later c c.leases past))
      ]

module _ (sftp : Sftp) (fs : FileSystem sftp) where
  -- The last lease of the list is not removed.
  remove_stale-contents :
      (q : PosixPath) (leases : List PosixPath) (s : sftp.State) (old : List PosixPath)
      → leases ≡ old ++ q ∷ []
      → All (λ p. p ≢ q) old
      → fs.contents (remove_stale sftp leases s).2 q ≡ fs.contents s q
  remove_stale-contents q =
      remove_stale_induction sftp
        (λ leases s out.
          (old : List PosixPath)
          → leases ≡ old ++ q ∷ []
          → All (λ p. p ≢ q) old
          → fs.contents out.2 q ≡ fs.contents s q)
        (λ leases s few old e h. refl)
        (λ stale rest s x many old e h.
          fs.remove-contents stale q s (starts_before q stale rest old many e h).0)
        (λ stale rest s out many ih old e h.
          let (different, old', e', h') = starts_before q stale rest old many e h in
          ih old' e' h' ∙ fs.remove-contents stale q s different)

  write_lease_renames :
      (c : WorkerControl) (n : ℕ) (s : sftp.State)
      → (sftp.write (temporary_path c.directory n) (lease_line c.token n) s).0 ≡ ok tt
      → write_lease sftp c n s
        ≡ sftp.posix_rename
            (temporary_path c.directory n)
            (lease_path c.directory n)
            (sftp.write (temporary_path c.directory n) (lease_line c.token n) s).1
  unfolding write_lease
  write_lease_renames c n s e = rw (e, write_lease) refl

  write_lease_fails :
      (c : WorkerControl) (n : ℕ) (s : sftp.State) (x : SftpError)
      → (sftp.write (temporary_path c.directory n) (lease_line c.token n) s).0 ≡ err x
      → (write_lease sftp c n s).0 ≡ err x
  unfolding write_lease
  write_lease_fails c n s x e = rw (e, write_lease) refl

  write_lease-contents :
      (c : WorkerControl) (n : ℕ) (s : sftp.State)
      → (write_lease sftp c n s).0 ≡ ok tt
      → fs.contents (write_lease sftp c n s).1 (lease_path c.directory n)
        ≡ some (lease_line c.token n)
  write_lease-contents c n s h =
      let t = temporary_path c.directory n in
      let l = lease_path c.directory n in
      elim (Result-cases (sftp.write t (lease_line c.token n) s).0) [
        | inr (x, e) ↦ cc (write_lease_fails c n s x e, h)
        | inl (_, e) ↦
            let s1 = (sftp.write t (lease_line c.token n) s).1 in
            let renames = write_lease_renames c n s e in
            let renamed : (sftp.posix_rename t l s1).0 ≡ ok tt = sym (ap (λ r. r.0) renames) ∙ h in
            ap (λ r. fs.contents r.1 l) renames
            ∙ fs.rename-contents t l s1 renamed
            ∙ fs.write-contents t (lease_line c.token n) s e
      ]

  past : (c : WorkerControl) → IsControl c → All (IsLease c) c.leases
  past c wf = unfold IsControl in wf.1

  answered : (k n : ℕ) (r : Result SftpError Unit) → answer_sequence k r ≡ ok n → n ≡ k
  answered k n (ok _) e = cc
  answered k n (err x) e = cc

  keep_lease-contents :
      (c : WorkerControl) (s : sftp.State) (n : ℕ)
      → All (λ p. p ≢ lease_path c.directory c.sequence) c.leases
      → (keep_lease sftp c c.sequence s).0 ≡ ok n
      → (n ≡ c.sequence)
        × ((keep_lease sftp c c.sequence s).1.sequence ≡ c.sequence)
        × (fs.contents (keep_lease sftp c c.sequence s).2 (lease_path c.directory c.sequence)
            ≡ fs.contents s (lease_path c.directory c.sequence))
  unfolding keep_lease
  keep_lease-contents c s n h e =
      let l = lease_path c.directory c.sequence in
      (
        answered c.sequence n _ e,
        refl,
        remove_stale-contents l (c.leases ++ l ∷ []) s c.leases refl h,
      )

  -- The next lease is on the server after a call that returns, and the call returns its sequence number.
  pub publish_lease-contents :
      (c : WorkerControl) (s : sftp.State) (n : ℕ)
      → IsControl c
      → (publish_lease sftp c s).0 ≡ ok n
      → (n ≡ suc c.sequence)
        × ((publish_lease sftp c s).1.sequence ≡ n)
        × (fs.contents (publish_lease sftp c s).2 (lease_path c.directory n)
            ≡ some (lease_line c.token n))
  publish_lease-contents c s n wf h =
      let c' : WorkerControl = record c { sequence = suc c.sequence } in
      elim (Result-cases (write_lease sftp c' (suc c.sequence) s).0) [
        | inr (x, e) ↦ cc ((publish_lease_fails sftp c s x e).0, h)
        | inl (_, e) ↦
            let keeps = publish_lease_keeps sftp c s e in
            let kept =
              keep_lease-contents c' (write_lease sftp c' (suc c.sequence) s).1 n
                (earlier sftp c c.leases (past c wf)) (sym (ap (λ r. r.0) keeps) ∙ h) in
            let whole = write_lease-contents c' (suc c.sequence) s e in
            (
              kept.0,
              ap (λ r. r.1.sequence) keeps ∙ kept.1 ∙ sym kept.0,
              subst
                  (λ k.
                    fs.contents (publish_lease sftp c s).2 (lease_path c.directory k)
                    ≡ some (lease_line c.token k))
                  (sym kept.0)
                  (ap (λ r. fs.contents r.2 (lease_path c.directory (suc c.sequence))) keeps
                    ∙ kept.2
                    ∙ whole),
            )
      ]
