-- ===== src/Tests/Connect.antt =====
-- Connecting to the login node, and its known hosts.
use ezhpcy.Prelude.{
  ℕ, zero, suc, ◌≡◌, ◌≢◌, refl, Bool, true, false, none, some, List, [], ◌∷◌, ◌++◌, All, arith, inl,
}
use ezhpcy.Text.{Text, codes}
use ezhpcy.Text.Split.Lines.{file_lines}
use ezhpcy.Cli.KnownHosts.{HostKey, host_key_line, append_line, files_knowing}
use ezhpcy.Cli.KnownHosts.Appended.{file_lines-append_line}
use ezhpcy.Cli.Connect.{
  Answer, connected, untrusted_key, denied, Environment, ConnectionInfo, connect_interactive,
}
use ezhpcy.Cli.Connect.Prompts.{Within, connect_interactive-Within}
use ezhpcy.Cli.Connect.Silent.{IsSilent, connect_interactive-IsSilent}

abbrev old_line : Text
old_line = codes "a ssh-ed25519 AA"

abbrev new_line : Text
new_line = codes "b ssh-ed25519 BB"

new_line-IsLine : All (λ c. c ≢ b'\n') new_line
new_line-IsLine = (
  omega arith,
  (
    omega arith,
    (
      omega arith,
      (
        omega arith,
        (
          omega arith,
          (
            omega arith,
            (
              omega arith,
              (
                omega arith,
                (
                  omega arith,
                  (
                    omega arith,
                    (
                      omega arith,
                      (omega arith, (omega arith, (omega arith, (omega arith, (omega arith, tt))))),
                    ),
                  ),
                ),
              ),
            ),
          ),
        ),
      ),
    ),
  ),
)

append_test : append_line old_line new_line ≡ codes "a ssh-ed25519 AA\nb ssh-ed25519 BB\n"
unfolding append_line
append_test = refl

file_lines-append_line_example :
    file_lines (append_line old_line new_line) ≡ file_lines old_line ++ new_line ∷ []
file_lines-append_line_example = file_lines-append_line old_line new_line new_line-IsLine

abbrev key : HostKey
key = record { key_type = codes "ssh-ed25519"; key_data = codes "AA" }

-- A host whose key is not known, that refuses the first password and takes the second.
abbrev answer_at : ℕ → Answer
answer_at zero = untrusted_key key
answer_at (suc zero) = denied true
answer_at (suc (suc zero)) = denied true
answer_at _ = connected

abbrev environment : Environment
environment = record {
  State = ℕ;
  attempt = λ a n. (answer_at n, suc n);
  confirm = λ k n. (some true, n);
  ask_password = λ n. (some (codes "secret"), n);
  append = λ line n. (true, n);
}

abbrev knows : List Text → Bool
knows [] = false
knows (line ∷ lines) = true

abbrev login : ConnectionInfo
login = record {
  host = codes "hpc";
  port = 22;
  password = none;
  password_prompt = true;
  known_hosts_file = codes "/k";
}

recognised :
    (k : HostKey) (lines : List Text)
    → knows (lines ++ host_key_line login.host login.port k ∷ []) ≡ true
recognised k [] = refl
recognised k (line ∷ lines) = refl

connect_interactive-Within_example :
    Within 1 3 5 (connect_interactive environment knows login [] zero)
unfolding files_knowing
connect_interactive-Within_example =
    connect_interactive-Within environment knows login recognised [] zero

abbrev stored : ConnectionInfo
stored = record login { password = some (codes "stored") }

connect_interactive-IsSilent_example :
    IsSilent (some (codes "stored")) (connect_interactive environment knows stored [] zero).1
connect_interactive-IsSilent_example =
    connect_interactive-IsSilent environment knows stored (inl (codes "stored", refl)) [] zero
