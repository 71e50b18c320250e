-- ===== src/Cli/Connect/Prompts.antt =====
-- How often `connect_interactive` asks and tries.
use ezhpcy.Prelude.{
  ℕ, zero, suc, ◌+◌, ◌-◌, ◌≤◌, ◌<◌, ◌≡◌, ◌≢◌, refl, Bool, true, false, Option, none, some, List, [],
  ◌∷◌, ◌++◌, arith,
}
use ezhpcy.Text.{Text}
use ezhpcy.Cli.KnownHosts.{Known, HostKey, add, files_knowing, host_key_line}
use ezhpcy.Cli.Connect.{
  Answer, connected, untrusted_key, not_verifiable, denied, failed, Environment, Event, attempted,
  asked_key, asked_password, ConnectionInfo, Outcome, Again, gives_up, after_confirm,
  after_password, on_untrusted, on_denied, after_attempt, connect_loop, connect_interactive,
  password_attempts, attempt_of,
}

abbrev pub keys_asked : List Event → ℕ
keys_asked [] = 0
keys_asked (attempted a ∷ es) = keys_asked es
keys_asked (asked_key key ∷ es) = suc (keys_asked es)
keys_asked (asked_password ∷ es) = keys_asked es

abbrev pub passwords_asked : List Event → ℕ
passwords_asked [] = 0
passwords_asked (attempted a ∷ es) = passwords_asked es
passwords_asked (asked_key key ∷ es) = passwords_asked es
passwords_asked (asked_password ∷ es) = suc (passwords_asked es)

abbrev pub attempts_made : List Event → ℕ
attempts_made [] = 0
attempts_made (attempted a ∷ es) = suc (attempts_made es)
attempts_made (asked_key key ∷ es) = attempts_made es
attempts_made (asked_password ∷ es) = attempts_made es

-- It ends, with at most so many questions about a key and about a password, and attempts to connect.
abbrev pub Within : {S : Type 0} → ℕ → ℕ → ℕ → Outcome S → Type 0
Within keys passwords attempts out =
    (out.0 ≢ none)
    × (keys_asked out.1 ≤ keys)
    × (passwords_asked out.1 ≤ passwords)
    × (attempts_made out.1 ≤ attempts)

-- The questions about a key that are left: none once a file knows the host.
abbrev pub key_questions : List Text → ℕ
key_questions [] = 1
key_questions (file ∷ files) = 0

add-knows :
    (knows : List Text → Bool) (file line : Text) (known : Known)
    → ((lines : List Text) → knows (lines ++ line ∷ []) ≡ true)
    → key_questions (files_knowing knows (add file line known)) ≡ 0
unfolding files_knowing add
add-knows knows file line [] h = rw (h []) refl
add-knows knows file line ((f, lines) ∷ rest) h =
    ground (arith, h lines, add-knows knows file line rest h)

module _ (env : Environment) (knows : List Text → Bool) (info : ConnectionInfo)
    (recognised : (key : HostKey) (lines : List Text)
      → knows (lines ++ host_key_line info.host info.port key ∷ []) ≡ true) where
  abbrev left : Known → ℕ
  left known = key_questions (files_knowing knows known)

  abbrev tries : ℕ → ℕ
  tries n = password_attempts - n

  -- The rounds that follow keep within what is left.
  abbrev Keeps : ℕ → Again env knows info → Type 0
  Keeps fuel again =
      (known : Known) (password : Option Text) (n : ℕ) (s : env.State)
      → n ≤ password_attempts
      → left known + tries n < fuel
      → Within (left known) (tries n) (left known + tries n + 1) (again known password n s)

  module _ (fuel : ℕ) (again : Again env knows info) (keeps : Keeps fuel again) where
    after_confirm-Within :
        (known : Known) (password : Option Text) (n : ℕ) (key : HostKey) (answer : Option Bool)
        (s : env.State)
        → n ≤ password_attempts
        → tries n < fuel
        → Within 0
            (tries n)
            (tries n + 1)
            (after_confirm env knows info again known password n key answer s)
    after_confirm-Within known password n key none s le lt = ground arith
    after_confirm-Within known password n key (some false) s le lt = ground arith
    after_confirm-Within known password n key (some true) s le lt =
        let line = host_key_line info.host info.port key in
        let next = add info.known_hosts_file line known in
        let known_now = add-knows knows info.known_hosts_file line known (recognised key) in
        let (ends, keys, passwords, attempts) =
          keeps next password n (env.append line s).1 le (rw known_now (omega arith)) in
        (ends, omega arith, passwords, omega arith)

    after_password-Within :
        (known : Known) (n : ℕ) (given : Option Text) (s : env.State)
        → n < password_attempts
        → left known + tries n < suc fuel
        → Within
            (left known)
            (tries n - 1)
            (left known + tries n)
            (after_password env knows info again known n given s)
    after_password-Within known n none s lt less = ground arith
    after_password-Within known n (some entered) s lt less =
        let (ends, keys, passwords, attempts) =
          keeps known (some entered) (suc n) s (omega arith) (omega arith) in
        (ends, keys, omega arith, omega arith)

    on_untrusted-Within :
        (known : Known) (password : Option Text) (n : ℕ) (key : HostKey) (files : List Text)
        (s : env.State)
        → n ≤ password_attempts
        → key_questions files + tries n < suc fuel
        → Within
            (key_questions files)
            (tries n)
            (key_questions files + tries n)
            (on_untrusted env knows info again known password n key files s)
    on_untrusted-Within known password n key (file ∷ files) s le lt = ground arith
    on_untrusted-Within known password n key [] s le lt =
        let (accepted, s') = env.confirm key s in
        let (ends, keys, passwords, attempts) =
          after_confirm-Within known password n key accepted s' le (omega arith) in
        (ends, omega arith, passwords, omega arith)

    on_denied-Within :
        (known : Known) (n : ℕ) (gives_up : Bool) (s : env.State)
        → (gives_up ≡ false → n < password_attempts)
        → left known + tries n < suc fuel
        → Within
            (left known)
            (tries n)
            (left known + tries n)
            (on_denied env knows info again known n gives_up s)
    on_denied-Within known n true s more lt = ground arith
    on_denied-Within known n false s more lt =
        let (given, s') = env.ask_password s in
        let less = more refl in
        let (ends, keys, passwords, attempts) = after_password-Within known n given s' less lt in
        (ends, keys, omega arith, attempts)

    after_attempt-Within :
        (known : Known) (password : Option Text) (n : ℕ) (answer : Answer) (s : env.State)
        → n ≤ password_attempts
        → left known + tries n < suc fuel
        → Within
            (left known)
            (tries n)
            (left known + tries n)
            (after_attempt env knows info again known password n answer s)
    unfolding after_attempt
    after_attempt-Within known password n connected s le lt = ground arith
    after_attempt-Within known password n (failed e) s le lt = ground arith
    after_attempt-Within known password n (not_verifiable e) s le lt = ground arith
    after_attempt-Within known password n (untrusted_key key) s le lt =
        on_untrusted-Within known password n key (files_knowing knows known) s le lt
    after_attempt-Within known password n (denied offered) s le lt =
        on_denied-Within known n (gives_up env knows info offered n) s (λ h. ground arith) lt

  connect_loop-Within : (fuel : ℕ) → Keeps fuel (connect_loop env knows info fuel)
  unfolding connect_loop
  connect_loop-Within zero known password n s le lt = absurd (omega arith)
  connect_loop-Within (suc fuel) known password n s le lt =
      let (answer, s') = env.attempt (attempt_of env knows info known password) s in
      let (ends, keys, passwords, attempts) =
        after_attempt-Within fuel (connect_loop env knows info fuel) (connect_loop-Within fuel)
          known password n answer s' le (omega arith) in
      (ends, keys, passwords, omega arith)

  -- If asyncssh recognises the host by a line for an accepted key, connecting ends, whatever the login node and the user
  -- answer: after at most three passwords that are asked for, five attempts, and one question about a host key, or none
  -- where a file knows the host.
  pub connect_interactive-Within :
      (known : Known) (s : env.State)
      → Within
          (left known)
          password_attempts
          (left known + password_attempts + 1)
          (connect_interactive env knows info known s)
  unfolding connect_interactive
  connect_interactive-Within known s =
      connect_loop-Within (2 + password_attempts) known info.password 0 s (omega arith)
        (at_most (files_knowing knows known))
    where
      at_most :
          (files : List Text) → key_questions files + password_attempts < 2 + password_attempts
      at_most [] = omega arith
      at_most (file ∷ files) = omega arith
