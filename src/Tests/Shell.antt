-- ===== src/Tests/Shell.antt =====
-- Command lines.
use ezhpcy.Prelude.{◌≡◌, none, some, List, [], ◌∷◌}
use ezhpcy.Text.{Text, codes}
use ezhpcy.Shell.Words.{shell_words}
use ezhpcy.Remote.{completed, answer, run_login_shell}
use ezhpcy.Remote.Quoting.{run_login_shell-words}
use ezhpcy.Tests.Base.{login_node, succeeded_with}

abbrev echo : List Text
echo = codes "echo" ∷ codes "it's" ∷ [] ∷ codes "$(rm)" ∷ []

run_login_shell-words_example :
    (line inner : Text) × (run_login_shell login_node echo none (completed (succeeded_with []) ∷ [])
      ≡ (let (reply, s') =
            login_node.create_process line none (completed (succeeded_with []) ∷ []) in
          (answer reply, s')))
    × (shell_words line ≡ some (codes "bash" ∷ codes "-lc" ∷ inner ∷ []))
    × (shell_words inner ≡ some echo)
run_login_shell-words_example =
    run_login_shell-words login_node echo none (completed (succeeded_with []) ∷ [])
