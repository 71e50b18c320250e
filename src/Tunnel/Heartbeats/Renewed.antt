-- ===== src/Tunnel/Heartbeats/Renewed.antt =====
-- Which leases the heartbeats leave.
use ezhpcy.Prelude.{
  ℕ, suc, ◌≡◌, ◌∙◌, refl, sym, ap, subst, Bool, true, false, some, List, [], ◌∷◌, inl, inr,
}
use ezhpcy.Prelude.Result.{Result, ok, err, Result-cases}
use ezhpcy.Worker.Control.{
  SftpError, Sftp, WorkerControl, publish_lease, write_lease, keep_lease, lease_path, lease_line,
}
use ezhpcy.Worker.Control.Publish.{
  FileSystem, IsControl, publish_lease_keeps, publish_lease_fails, publish_lease-IsControl,
  publish_lease-contents,
}
use ezhpcy.Tunnel.Heartbeats.{
  Ending, stopped, write_failed, beating, Sent, Beat, wait, beat, beats, send_heartbeats,
}

-- One after the other, from a number on
abbrev pub CountsFrom : ℕ → List ℕ → Type 0
CountsFrom n [] = Unit
CountsFrom n (m ∷ ms) = (m ≡ n) × CountsFrom (suc n) ms

abbrev pub last_or : ℕ → List ℕ → ℕ
last_or n [] = n
last_or n (m ∷ ms) = last_or m ms

module _ (sftp : Sftp) where
  -- A call leaves the directory and the token as they are.
  same_lease :
      (c : WorkerControl) (s : sftp.State) (n : ℕ)
      → let c' = (publish_lease sftp c s).1 in
        (lease_path c'.directory n ≡ lease_path c.directory n)
        × (lease_line c'.token n ≡ lease_line c.token n)
  same_lease c s n =
      let next : WorkerControl = record c { sequence = suc c.sequence } in
      let Same : WorkerControl → Type 0 = λ c'.
        (lease_path c'.directory n ≡ lease_path c.directory n)
        × (lease_line c'.token n ≡ lease_line c.token n) in
      elim (Result-cases (write_lease sftp next (suc c.sequence) s).0) [
        | inr (x, e) ↦ subst Same (sym (publish_lease_fails sftp c s x e).1) (refl, refl)
        | inl (_, e) ↦
            subst Same (sym (ap (λ r. r.1) (publish_lease_keeps sftp c s e)))
              (unfold keep_lease in (refl, refl))
      ]

module _ (sftp : Sftp) (fs : FileSystem sftp) where
  abbrev pub IsOnServer : WorkerControl → ℕ → sftp.State → Type 0
  IsOnServer c n s = fs.contents s (lease_path c.directory n) ≡ some (lease_line c.token n)

  -- What is left of the leases, the last of them `last`, by how the heartbeats end
  abbrev pub Left : WorkerControl → Ending → ℕ → sftp.State → Type 0
  Left c stopped last s = IsOnServer c last s
  Left c (write_failed before e) last s = before ≡ last
  Left c beating last s = Unit

  abbrev pub Renews : WorkerControl → ℕ → Sent sftp.State → Type 0
  Renews c sequence sent =
      CountsFrom (suc c.sequence) sent.published
      × Left c sent.ending (last_or sequence sent.published) sent.state

  Left-same :
      (c : WorkerControl) (s0 : sftp.State) (ending : Ending) (last : ℕ) (s : sftp.State)
      → Left (publish_lease sftp c s0).1 ending last s
      → Left c ending last s
  Left-same c s0 stopped last s h =
      let (paths, lines) = same_lease sftp c s0 last in
      ap (fs.contents s) (sym paths) ∙ h ∙ ap some lines
  Left-same c s0 (write_failed before e) last s h = h
  Left-same c s0 beating last s h = h

  wait-Renews :
      (stops : Bool) (next : Beat sftp) (n : ℕ) (c : WorkerControl) (s : sftp.State)
      → IsOnServer c n s
      → Renews c n (next n c s)
      → Renews c n (wait sftp stops next n c s)
  wait-Renews true next n c s here ih = (tt, here)
  wait-Renews false next n c s here ih = ih

  beat-Renews :
      (stops : Bool) (next : Beat sftp) (k : ℕ) (c : WorkerControl) (s : sftp.State)
      (r : Result SftpError ℕ)
      → IsControl c
      → (publish_lease sftp c s).0 ≡ r
      → ((n : ℕ)
          → Renews
              (publish_lease sftp c s).1
              n
              (next n (publish_lease sftp c s).1 (publish_lease sftp c s).2))
      → Renews c k (beat sftp stops next k r (publish_lease sftp c s).1 (publish_lease sftp c s).2)
  beat-Renews stops next k c s (err e) wf h ih = (tt, refl)
  beat-Renews stops next k c s (ok n) wf h ih =
      let (number, sequence, here) = publish_lease-contents sftp fs c s n wf h in
      let c' = (publish_lease sftp c s).1 in
      let s' = (publish_lease sftp c s).2 in
      let (paths, lines) = same_lease sftp c s n in
      let there : IsOnServer c' n s' = ap (fs.contents s') paths ∙ here ∙ ap some (sym lines) in
      let sent = wait sftp stops next n c' s' in
      let (counts, left) = wait-Renews stops next n c' s' there (ih n) in
      (
        (number, subst (λ k. CountsFrom (suc k) sent.published) (sequence ∙ number) counts),
        Left-same c s sent.ending (last_or n sent.published) sent.state left,
      )

  beats-Renews :
      (intervals : List Bool) (k : ℕ) (c : WorkerControl) (s : sftp.State)
      → IsControl c
      → Renews c k (beats sftp intervals k c s)
  unfolding beats
  beats-Renews [] k c s wf = (tt, tt)
  beats-Renews (stops ∷ intervals) k c s wf =
      beat-Renews stops (beats sftp intervals) k c s (publish_lease sftp c s).0 wf refl (λ n.
        beats-Renews intervals n (publish_lease sftp c s).1 (publish_lease sftp c s).2
          (publish_lease-IsControl sftp c s wf))

  -- The heartbeats publish leases one after the other, numbered on from the control's last, and no other. Told to stop, they
  -- leave the last one on the server, whole and with the tunnel's token. Where a lease cannot be written, the error names
  -- the last one that they published, or zero.
  pub send_heartbeats-Renews :
      (intervals : List Bool) (c : WorkerControl) (s : sftp.State)
      → IsControl c
      → Renews c 0 (send_heartbeats sftp intervals c s)
  unfolding send_heartbeats
  send_heartbeats-Renews intervals c s wf = beats-Renews intervals 0 c s wf
