-- ===== src/Cli/Connect/Silent.antt =====
-- When `connect_interactive` asks for no password.
use ezhpcy.Prelude.{
  ℕ, zero, suc, ◌+◌, ◌≡◌, refl, Bool, true, false, Option, none, some, List, [], ◌∷◌, arith, ◌⊎◌,
  inl, inr,
}
use ezhpcy.Text.{Text}
use ezhpcy.Cli.KnownHosts.{Known, HostKey, files_knowing}
use ezhpcy.Cli.Connect.{
  Answer, connected, untrusted_key, not_verifiable, denied, failed, Environment, Event, attempted,
  asked_key, asked_password, ConnectionInfo, Again, gives_up, after_confirm, on_untrusted,
  after_attempt, connect_loop, connect_interactive, password_attempts, attempt_of,
}

-- No password is asked for, and each attempt is made with the one given.
abbrev pub IsSilent : Option Text → List Event → Type 0
IsSilent password [] = Unit
IsSilent password (attempted a ∷ es) = (a.password ≡ password) × IsSilent password es
IsSilent password (asked_key key ∷ es) = IsSilent password es
IsSilent password (asked_password ∷ es) = ⊥

module _ (env : Environment) (knows : List Text → Bool) (info : ConnectionInfo)
    (no_prompt : ((p : Text) × (info.password ≡ some p)) ⊎ (info.password_prompt ≡ false)) where
  always_gives_up : (offered : Bool) (n : ℕ) → gives_up env knows info offered n ≡ true
  always_gives_up offered n = elim no_prompt [ inl (p, e) ↦ rw e refl | inr e ↦ ground arith ]

  abbrev Keeps : Again env knows info → Type 0
  Keeps again =
      (known : Known) (n : ℕ) (s : env.State)
      → IsSilent info.password (again known info.password n s).1

  module _ (again : Again env knows info) (keeps : Keeps again) where
    after_confirm-IsSilent :
        (known : Known) (n : ℕ) (key : HostKey) (answer : Option Bool) (s : env.State)
        → IsSilent info.password
            (after_confirm env knows info again known info.password n key answer s).1
    after_confirm-IsSilent known n key none s = tt
    after_confirm-IsSilent known n key (some false) s = tt
    after_confirm-IsSilent known n key (some true) s = keeps _ n _

    on_untrusted-IsSilent :
        (known : Known) (n : ℕ) (key : HostKey) (files : List Text) (s : env.State)
        → IsSilent info.password
            (on_untrusted env knows info again known info.password n key files s).1
    on_untrusted-IsSilent known n key (file ∷ files) s = tt
    on_untrusted-IsSilent known n key [] s =
        after_confirm-IsSilent known n key (env.confirm key s).0 (env.confirm key s).1

    after_attempt-IsSilent :
        (known : Known) (n : ℕ) (answer : Answer) (s : env.State)
        → IsSilent info.password
            (after_attempt env knows info again known info.password n answer s).1
    unfolding after_attempt
    after_attempt-IsSilent known n connected s = tt
    after_attempt-IsSilent known n (failed e) s = tt
    after_attempt-IsSilent known n (not_verifiable e) s = tt
    after_attempt-IsSilent known n (untrusted_key key) s =
        on_untrusted-IsSilent known n key (files_knowing knows known) s
    after_attempt-IsSilent known n (denied offered) s = rw (always_gives_up offered n) tt

  connect_loop-IsSilent : (fuel : ℕ) → Keeps (connect_loop env knows info fuel)
  unfolding connect_loop
  connect_loop-IsSilent zero known n s = tt
  connect_loop-IsSilent (suc fuel) known n s =
      let (answer, s') = env.attempt (attempt_of env knows info known info.password) s in
      (
        refl,
        after_attempt-IsSilent (connect_loop env knows info fuel) (connect_loop-IsSilent fuel) known
            n answer s',
      )

  -- Where the profile gives a password, or prompting for one is off, no password is asked for, and each attempt is made with
  -- the profile's.
  pub connect_interactive-IsSilent :
      (known : Known) (s : env.State)
      → IsSilent info.password (connect_interactive env knows info known s).1
  unfolding connect_interactive
  connect_interactive-IsSilent known s = connect_loop-IsSilent (2 + password_attempts) known 0 s
