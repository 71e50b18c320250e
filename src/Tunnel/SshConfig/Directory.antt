-- ===== src/Tunnel/SshConfig/Directory.antt =====
-- tunnel/ssh_config.py: writing, publishing, withdrawing and probing of Host blocks, over the directory's files. How the
-- operating system's calls end is an argument.
pub mod Whole
pub mod Published
pub mod Probe
use ezhpcy.Prelude.{ℕ, Bool, true, false, Option, none, some, List, [], ◌∷◌, ◌++◌, take, option_map}
use ezhpcy.Text.{Text, codes, join}
use ezhpcy.Text.Table.{put}
use ezhpcy.Config.Alias.{validate_alias}
use ezhpcy.Tunnel.SshConfig.{
  WorkerHost, render, AliasProblem, SshRun, check_host_resolution, resolution_problem,
  probe_host_name, active_name, prune,
}

-- The texts of the files, by their names
abbrev pub Directory : Type 0
Directory = Text → Option Text

-- `path.unlink(missing_ok=True)`
abbrev pub unlink : Text → Directory → Directory
unlink name files = put name none files

-- The call of `_write_private` that raises, with what was written of the text; or that all succeed.
pub data Outcome : Type 0 where
  not_created not_restricted not_replaced replaced : Outcome
  not_written : Text → Outcome

-- f".{path.name}.{os.getpid()}.{uuid.uuid4().hex}.tmp"
unfoldable pub temporary_name : Text → Text → Text → Text
temporary_name name pid unique = b'.' ∷ (name ++ b'.' ∷ (pid ++ b'.' ∷ (unique ++ codes ".tmp")))

-- `_write_private`: the directory after each call before the last, and after the last, which removes the temporary file.
abbrev pub calls : Text → Text → Text → Outcome → Directory → List Directory × Directory
calls temporary name content not_created files = ([], files)
calls temporary name content (not_written part) files =
    let written = put temporary (some part) files in
    (put temporary (some []) files ∷ written ∷ [], written)
calls temporary name content not_restricted files =
    let written = put temporary (some content) files in
    (put temporary (some []) files ∷ written ∷ [], written)
calls temporary name content not_replaced files =
    let written = put temporary (some content) files in
    (put temporary (some []) files ∷ written ∷ [], written)
calls temporary name content replaced files =
    let written = put temporary (some content) files in
    let moved = put name (some content) (unlink temporary written) in
    (put temporary (some []) files ∷ written ∷ moved ∷ [], moved)

abbrev pub succeeded : Outcome → Bool
succeeded replaced = true
succeeded _ = false

unfoldable pub write_private :
    Text → Text → Text → Outcome → Directory → Bool × List Directory × Directory
unfolding put
write_private temporary name content outcome files =
    let (meanwhile, last) = calls temporary name content outcome files in
    (succeeded outcome, meanwhile, unlink temporary last)

abbrev pub unlink_all : List Text → Directory → Directory
unlink_all [] files = files
unlink_all (name ∷ names) files = unlink_all names (unlink name files)

-- How often the removals of the stale blocks succeed before one raises, and how the write ends
pub record Disk : Type 0 where
  pub removals : Option ℕ
  pub outcome : Outcome

-- What `publish_host` warns of: that the block could not be written, or the problem that `ssh` has with it.
pub data Publication : Type 0 where
  not_written_warning : Publication
  published : Option AliasProblem → Publication

abbrev pub written :
    WorkerHost
    → ℕ
    → Option AliasProblem
    → Bool × List Directory × Directory
    → Publication × Directory
written host port problem (true, meanwhile, files) = (published problem, files)
written host port problem (false, meanwhile, files) = (not_written_warning, files)

abbrev pub after_prune :
    Text
    → WorkerHost
    → ℕ
    → Disk
    → Option AliasProblem
    → List Text
    → Directory
    → Option ℕ
    → Publication × Directory
after_prune temporary host port disk problem removed files (some n) =
    (not_written_warning, unlink_all (take n removed) files)
after_prune temporary host port disk problem removed files none = written host port problem (
    write_private temporary (active_name host.alias) (render host port) disk.outcome
      (unlink_all removed files))

-- `publish_host`: `locked` is `alias_locked`, `names` the sorted matches of the glob, and `run` the run of `ssh -G`.
module _ (normcase : Text → Text) (show_options : Option (List Text) → Text)
    (locked : Text → Bool) where
  unfoldable pub publish_host :
      Text → WorkerHost → ℕ → List Text → Disk → SshRun → Directory → Publication × Directory
  unfolding check_host_resolution prune write_private
  publish_host temporary host port names disk run files =
      after_prune temporary host port disk
        (check_host_resolution normcase show_options host port run) (prune locked names).1 files
        disk.removals

-- `withdraw_host`, which only warns where the file cannot be removed
unfoldable pub withdraw_host : WorkerHost → Bool → Directory → Directory
unfolding active_name put
withdraw_host host true files = unlink (active_name host.alias) files
withdraw_host host false files = files

abbrev pub probe_block : Text → Text
probe_block name =
    codes "Host " ++ (name ++ (codes "\n    HostName " ++ (probe_host_name ++ b'\n' ∷ [])))

-- `probe_hosts`: the text of its file; `none` is the `ValueError` of an alias.
unfoldable pub probe_blocks : List Text → Option Text
unfolding validate_alias
probe_blocks [] = some []
probe_blocks (alias ∷ aliases) =
    let rest = probe_blocks aliases in
    elim (validate_alias alias) [
      | none ↦ none
      | some name ↦ option_map (λ blocks. probe_block name ++ blocks) rest
    ]

abbrev pub probe_comment : Text
probe_comment = codes "# Written by EzHPCy while it checks `ssh`, then removed.\n"

-- What `probe_alias` does: it raises for the alias or for the write, or it returns what `resolution_problem` says of the run
-- of `ssh -G` on the directory with the probe's block.
pub data Probed : Type 0 where
  invalid not_probed : Probed
  answered : Option AliasProblem → Probed

abbrev pub probed :
    Text → Text → Option AliasProblem → Bool × List Directory × Directory → Probed × Directory
probed name alias answer (true, meanwhile, files) = (answered answer, unlink name files)
probed name alias answer (false, meanwhile, files) = (not_probed, files)

abbrev pub probe_written :
    (Directory → SshRun)
    → Bool
    → Text
    → Text
    → Text
    → Text
    → Outcome
    → Directory
    → Probed × Directory
probe_written ssh locked temporary name alias blocks outcome files =
    let result = write_private temporary name (probe_comment ++ blocks) outcome files in
    probed name alias (resolution_problem alias locked (ssh result.2)) result

unfoldable pub probe_alias :
    (Directory → SshRun) → Bool → Text → Text → Text → Outcome → Directory → Probed × Directory
unfolding probe_blocks write_private resolution_problem
probe_alias ssh locked temporary name alias outcome files = elim (probe_blocks (alias ∷ [])) [
  | none ↦ (invalid, files)
  | some blocks ↦ probe_written ssh locked temporary name alias blocks outcome files
]
