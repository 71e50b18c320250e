-- ===== src/Cli/Connect.antt =====
-- cli/utils/ssh.py: `connect_interactive`. The login node, asyncssh and the user are an `Environment`: each attempt to
-- connect and each prompt is answered in turn.
pub mod Prompts
pub mod Silent
use ezhpcy.Prelude.{
  ℕ, zero, suc, ◌+◌, Bool, true, false, not, Option, none, some, List, [], ◌∷◌, ◌++◌, ◌==◌, ◌||◌,
  if◌then◌else◌,
}
use ezhpcy.Prelude.Result.{Result, ok, err}
use ezhpcy.Text.{Text, codes}
use ezhpcy.Cli.KnownHosts.{Known, HostKey, add, combined, files_knowing, host_key_line}

abbrev pub password_attempts : ℕ
password_attempts = 3

-- `_UNKNOWN_HOST_KEY_ALGS`
abbrev pub unknown_host_key_algs : List Text
unknown_host_key_algs =
    codes "ssh-ed25519"
    ∷ codes "ecdsa-sha2-nistp256"
    ∷ codes "ecdsa-sha2-nistp384"
    ∷ codes "ecdsa-sha2-nistp521"
    ∷ codes "sk-ssh-ed25519@openssh.com"
    ∷ codes "sk-ecdsa-sha2-nistp256@openssh.com"
    ∷ codes "rsa-sha2-512"
    ∷ codes "rsa-sha2-256"
    ∷ []

-- The options of one attempt
pub record Attempt : Type 0 where
  pub known_hosts : List Text
  pub server_host_key_algs : Option (List Text)
  pub password : Option Text

-- How `ssh.connect` ends, and what the client recorded: the host key that asyncssh did not trust and asked about
-- (`validate_host_public_key`), `HostKeyNotVerifiable` with no such key, `PermissionDenied` with whether the server offered a
-- password method (`password_offered`), or another error.
pub data Answer : Type 0 where
  connected : Answer
  untrusted_key : HostKey → Answer
  not_verifiable : Text → Answer
  denied : Bool → Answer
  failed : Text → Answer

pub data Raised : Type 0 where
  changed_key : Text → HostKey → Raised
  rejected_key : HostKey → Raised
  unverifiable : Text → Raised
  permission_denied interrupted : Raised
  other : Text → Raised

-- A prompt's `none` is Ctrl+C. `append` writes a line to EzHPCy's known hosts file; it says whether that succeeded, which
-- makes no difference to the connection.
pub record Environment : Type 1 where
  pub State : Type 0
  pub attempt : Attempt → State → Answer × State
  pub confirm : HostKey → State → Option Bool × State
  pub ask_password : State → Option Text × State
  pub append : Text → State → Bool × State

-- What happened, oldest first
pub data Event : Type 0 where
  attempted : Attempt → Event
  asked_key : HostKey → Event
  asked_password : Event

pub record ConnectionInfo : Type 0 where
  pub host : Text
  pub port : ℕ
  pub password : Option Text
  pub password_prompt : Bool
  pub known_hosts_file : Text

abbrev is_some : Option Text → Bool
is_some none = false
is_some (some _) = true

abbrev unless_known : List Text → Option (List Text)
unless_known [] = some unknown_host_key_algs
unless_known (file ∷ files) = none

-- A result of `none` says that the fuel ran out.
abbrev pub Outcome : Type 0 → Type 0
Outcome S = Option (Result Raised Unit) × List Event × S

abbrev pub after_event : {S : Type 0} → Event → Outcome S → Outcome S
after_event e (r, events, s) = (r, e ∷ events, s)

module _ (env : Environment) (knows : List Text → Bool) (info : ConnectionInfo) where
  abbrev pub attempt_of : Known → Option Text → Attempt
  attempt_of known password = record {
    known_hosts = combined known;
    server_host_key_algs = unless_known (files_knowing knows known);
    password = password;
  }

  -- Whether `PermissionDenied` is raised without asking for a password
  abbrev pub gives_up : Bool → ℕ → Bool
  gives_up offered n =
      is_some info.password || (not info.password_prompt || (not offered || n == password_attempts))

  -- What the next round is given: the known hosts, the password and how many were asked for.
  abbrev pub Again : Type 0
  Again = Known → Option Text → ℕ → env.State → Outcome env.State

  -- The answer to `_accept_host_key`'s question
  abbrev pub after_confirm :
      Again → Known → Option Text → ℕ → HostKey → Option Bool → env.State → Outcome env.State
  after_confirm again known password n key none s = (some (err interrupted), [], s)
  after_confirm again known password n key (some false) s = (some (err (rejected_key key)), [], s)
  after_confirm again known password n key (some true) s =
      let line = host_key_line info.host info.port key in
      again (add info.known_hosts_file line known) password n (env.append line s).1

  abbrev pub after_password : Again → Known → ℕ → Option Text → env.State → Outcome env.State
  after_password again known n none s = (some (err interrupted), [], s)
  after_password again known n (some entered) s = again known (some entered) (suc n) s

  -- `except asyncssh.HostKeyNotVerifiable`, for the files that know the host
  abbrev pub on_untrusted :
      Again → Known → Option Text → ℕ → HostKey → List Text → env.State → Outcome env.State
  on_untrusted again known password n key (file ∷ files) s =
      (some (err (changed_key file key)), [], s)
  on_untrusted again known password n key [] s =
      let (accepted, s') = env.confirm key s in
      after_event (asked_key key) (after_confirm again known password n key accepted s')

  -- `except asyncssh.PermissionDenied`, where it gives up or not
  abbrev pub on_denied : Again → Known → ℕ → Bool → env.State → Outcome env.State
  on_denied again known n true s = (some (err permission_denied), [], s)
  on_denied again known n false s =
      let (given, s') = env.ask_password s in
      after_event asked_password (after_password again known n given s')

  unfoldable pub after_attempt :
      Again → Known → Option Text → ℕ → Answer → env.State → Outcome env.State
  unfolding files_knowing
  after_attempt again known password n connected s = (some (ok tt), [], s)
  after_attempt again known password n (failed e) s = (some (err (other e)), [], s)
  after_attempt again known password n (not_verifiable e) s = (some (err (unverifiable e)), [], s)
  after_attempt again known password n (untrusted_key key) s =
      on_untrusted again known password n key (files_knowing knows known) s
  after_attempt again known password n (denied offered) s =
      on_denied again known n (gives_up offered n) s

  -- The loop, one attempt a round
  unfoldable pub connect_loop : ℕ → Known → Option Text → ℕ → env.State → Outcome env.State
  unfolding after_attempt combined files_knowing
  connect_loop zero known password n s = (none, [], s)
  connect_loop (suc fuel) known password n s =
      let (answer, s') = env.attempt (attempt_of known password) s in
      after_event (attempted (attempt_of known password))
        (after_attempt (connect_loop fuel) known password n answer s')

  -- `connect_interactive`: one attempt, one more once a key is accepted, and one for each password that is asked for
  unfoldable pub connect_interactive : Known → env.State → Outcome env.State
  unfolding connect_loop
  connect_interactive known s = connect_loop (2 + password_attempts) known info.password 0 s
