-- ===== src/Remote/Quoting.antt =====
-- What the login node is asked to run, and when a command counts as done.
use ezhpcy.Prelude.{◌≡◌, refl, Option, some, List, [], ◌∷◌, ◌↔◌, arith}
use ezhpcy.Prelude.Int.{pos}
use ezhpcy.Prelude.Exec.{ok}
use ezhpcy.Text.{Text, codes}
use ezhpcy.Shell.{shlex_join}
use ezhpcy.Shell.Words.{shell_words}
use ezhpcy.Shell.Words.Quoted.{shell_words-shlex_join}
use ezhpcy.Remote.{Connection, Completed, check_status, answer, run_login_shell}

-- The login shell is started by one command line, which a shell splits into `bash`, `-lc` and a
-- second line, which Bash in turn splits into exactly the arguments given; the reply to that line
-- is the result. So no argument is split, merged, expanded or dropped on its way through both.
pub run_login_shell-words :
    (conn : Connection) (args : List Text) (stdin : Option Text) (s : conn.State)
    → (line inner : Text) × (run_login_shell conn args stdin s
        ≡ (let (reply, s') = conn.create_process line stdin s in (answer reply, s')))
      × (shell_words line ≡ some (codes "bash" ∷ codes "-lc" ∷ inner ∷ []))
      × (shell_words inner ≡ some args)
unfolding run_login_shell
run_login_shell-words conn args stdin s = (
  shlex_join (codes "bash" ∷ codes "-lc" ∷ shlex_join args ∷ []),
  shlex_join args,
  refl,
  shell_words-shlex_join _,
  shell_words-shlex_join args,
)

-- A command returns its output exactly when it exits with status 0.
pub check_status_iff :
    (r : Completed) (out : Text)
    → (check_status r ≡ ok out) ↔ ((r.exit_status ≡ some (pos 0)) × (r.stdout ≡ out))
unfolding check_status
check_status_iff r out = ground arith
