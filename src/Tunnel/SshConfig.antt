-- ===== src/Tunnel/SshConfig.antt =====
-- tunnel/ssh_config.py: the Host block of a running tunnel, what `ssh -G` says of its alias, and the blocks that
-- tunnels left behind. A path is the text that `resolve().as_posix()` returns.
pub mod Block
pub mod Directory
pub mod Resolution
use ezhpcy.Prelude.{
  ℕ, zero, suc, Bool, true, false, not, ◌&&◌, ◌||◌, Option, none, some, List, [], ◌∷◌, ◌++◌, ◌==◌,
  leb, ◌+◌, if◌then◌else◌,
}
use ezhpcy.Prelude.Int.{ℤ, pos, negsuc}
use ezhpcy.Text.{
  Text, codes, text_eq, is_space, show, join, split, words, splitlines, before, after, strip_prefix,
}
use ezhpcy.Config.Alias.{validate_alias}
use ezhpcy.Config.Chain.{find}
use ezhpcy.Config.Resolve.{or_empty, set}

-- `value.replace('"', '\\"')`
unfoldable pub escape : Text → Text
escape [] = []
escape (c ∷ s) = let rest = escape s in if c == b'"' then b'\\' ∷ b'"' ∷ rest else c ∷ rest

-- `_config_path`
unfoldable pub config_path : Text → Text
unfolding escape
config_path value = b'"' ∷ (escape value ++ b'"' ∷ [])

-- `WorkerHost`, with what its properties return.
pub record WorkerHost : Type 0 where
  pub alias : Text
  pub user : Text
  pub identity_file : Text
  pub known_hosts : Text

abbrev pub has_space : Text → Bool
has_space [] = false
has_space (c ∷ s) = if is_space c then true else has_space s

abbrev is_empty : Text → Bool
is_empty [] = true
is_empty (_ ∷ _) = false

-- `__post_init__`: whether it raises nothing.
unfoldable pub is_valid : WorkerHost → Bool
unfolding validate_alias is_space
is_valid host = elim (validate_alias host.alias) [
  | none ↦ false
  | some _ ↦ if is_empty host.user || has_space host.user then false else true
]

abbrev pub loopback_host : Text
loopback_host = codes "127.0.0.1"

abbrev pub worker_host_alias : Text
worker_host_alias = codes "ezhpcy-worker"

unfoldable pub render_lines : WorkerHost → ℕ → List Text
unfolding config_path show
render_lines host port =
    (codes "Host " ++ host.alias)
    ∷ (codes "    HostName " ++ loopback_host)
    ∷ (codes "    Port " ++ show port)
    ∷ (codes "    User " ++ host.user)
    ∷ (codes "    IdentityFile " ++ config_path host.identity_file)
    ∷ codes "    IdentitiesOnly yes"
    ∷ (codes "    UserKnownHostsFile " ++ config_path host.known_hosts)
    ∷ (codes "    HostKeyAlias " ++ worker_host_alias)
    ∷ codes "    StrictHostKeyChecking yes"
    ∷ codes "    ProxyCommand none"
    ∷ []
    ∷ []

-- `WorkerHost.render`
unfoldable pub render : WorkerHost → ℕ → Text
unfolding render_lines join
render host port = join (codes "\n") (render_lines host port)

-- `AliasProblem`
pub record AliasProblem : Type 0 where
  pub detail : Text
  pub ssh_failed : Bool

abbrev pub problem : Text → AliasProblem
problem detail = record { detail = detail; ssh_failed = false }

-- How `subprocess.run` of `ssh -G` ends: no `ssh` on PATH, another error with its text, or a return code
-- with the output and the errors.
pub data SshRun : Type 0 where
  not_found : SshRun
  not_run : Text → SshRun
  exited : ℤ → Text → Text → SshRun

abbrev pub Options : Type 0
Options = List (Text × List Text)

-- `ssh_options.setdefault(key, []).append(value)`
unfoldable pub add_option : Text → Text → Options → Options
unfolding find set
add_option key value options = set key (or_empty (find key options) ++ value ∷ []) options

-- `str.lower` on ASCII; `ssh -G` prints no other keys.
abbrev lower_char : ℕ → ℕ
lower_char c = if leb b'A' c && leb c b'Z' then c + 32 else c

unfoldable pub lower : Text → Text
lower [] = []
lower (c ∷ s) = lower_char c ∷ lower s

unfoldable pub read_lines : Options → List Text → Options
unfolding add_option before after lower
read_lines options [] = options
read_lines options (line ∷ lines) =
    read_lines (add_option (lower (before b' ' line)) (after b' ' line) options) lines

abbrev show_code : ℤ → Text
show_code (pos n) = show n
show_code (negsuc n) = b'-' ∷ show (suc n)

abbrev failed_with : Text → Text → ℤ → AliasProblem
failed_with alias [] code = record {
  detail = codes "`ssh -G " ++ (alias ++ (codes "` exited with " ++ show_code code));
  ssh_failed = true;
}
failed_with alias (c ∷ s) code = record { detail = c ∷ s; ssh_failed = true }

-- What `resolve_alias` returns: nothing, a problem, or the options.
pub data Resolved : Type 0 where
  unknown : Resolved
  problem_found : AliasProblem → Resolved
  resolved : Options → Resolved

abbrev after_run : Text → ℤ → Text → Text → Resolved
after_run alias (pos zero) out errors = resolved (read_lines [] (splitlines out))
after_run alias code out errors =
    problem_found (failed_with alias (join (codes " ") (words errors)) code)

-- `resolve_alias`, on the run of `ssh -G`
unfoldable pub resolve_alias : Text → SshRun → Resolved
unfolding read_lines splitlines words join show
resolve_alias alias not_found = unknown
resolve_alias alias (not_run error) = problem_found (record {
  detail = codes "could not run `ssh -G " ++ (alias ++ (codes "`: " ++ error));
  ssh_failed = true;
})
resolve_alias alias (exited code out errors) = after_run alias code out errors

unfoldable pub texts_eq : List Text → List Text → Bool
unfolding text_eq
texts_eq [] [] = true
texts_eq [] (y ∷ ys) = false
texts_eq (x ∷ xs) [] = false
texts_eq (x ∷ xs) (y ∷ ys) = text_eq x y && texts_eq xs ys

-- `options.get(key) == value`
abbrev pub holds : Option (List Text) → List Text → Bool
holds none value = false
holds (some xs) value = texts_eq xs value

abbrev pub unless : Option (List Text) → List Text → List Text
unless none xs = xs
unless (some ys) xs = ys

abbrev pub first_of : List Text → Text
first_of [] = []
first_of (x ∷ xs) = x

abbrev pub first_is : (Text → Text) → List Text → Text → Bool
first_is normcase [] expected = false
first_is normcase (x ∷ xs) expected = text_eq (normcase x) (normcase expected)

-- `normcase` is `os.path.normcase`, and `show_options` prints what `options.get` returns.
module _ (normcase : Text → Text) (show_options : Option (List Text) → Text) where
  unfoldable pub check_options : WorkerHost → ℕ → Options → Option AliasProblem
  unfolding find text_eq texts_eq show
  check_options host port options =
      if not (
        holds (find (codes "hostname") options) (loopback_host ∷ [])
        && holds (find (codes "port") options) (show port ∷ []))
      then some
          (problem (codes "OpenSSH does not resolve it to the ezhpcy-generated configuration"))
      else if not (
          texts_eq (unless (find (codes "proxycommand") options) (codes "none" ∷ []))
            (codes "none" ∷ []))
      then some (
          problem (
            codes "OpenSSH resolves a ProxyCommand: "
            ++ first_of (or_empty (find (codes "proxycommand") options))))
      else if not (holds (find (codes "user") options) (host.user ∷ []))
      then some (
          problem (
            codes "OpenSSH resolves a different user: "
            ++ show_options (find (codes "user") options)))
      else if not
          (first_is normcase (or_empty (find (codes "identityfile") options)) host.identity_file)
      then some (problem (codes "OpenSSH resolves a different IdentityFile"))
      else none

  -- `check_host_resolution`
  unfoldable pub check_host_resolution : WorkerHost → ℕ → SshRun → Option AliasProblem
  unfolding check_options resolve_alias
  check_host_resolution host port run = elim (resolve_alias host.alias run) [
    | unknown ↦ none
    | problem_found p ↦ some p
    | resolved options ↦ check_options host port options
  ]

-- `PROBE_HOST_NAME`
abbrev pub probe_host_name : Text
probe_host_name = codes "ezhpcy-doctor-probe.invalid"

-- `resolution_problem`; `locked` is what `alias_locked` says of the alias.
unfoldable pub resolution_problem : Text → Bool → SshRun → Option AliasProblem
unfolding resolve_alias find text_eq
resolution_problem alias locked run = elim (resolve_alias alias run) [
  | unknown ↦ none
  | problem_found p ↦ some p
  | resolved options ↦
      let hostname = first_of (unless (find (codes "hostname") options) ([] ∷ [])) in
      if text_eq hostname probe_host_name
      then none
      else if text_eq hostname loopback_host && locked
      then none
      else some (problem (codes "OpenSSH resolves it to " ++ hostname))
]

-- `active_file_name` of `_active_path`
unfoldable pub active_name : Text → Text
active_name alias = codes "active-" ++ (alias ++ codes ".conf")

-- `s.removesuffix(".conf")`
unfoldable pub remove_suffix : Text → Text
unfolding text_eq
remove_suffix [] = []
remove_suffix (c ∷ s) =
    let rest = remove_suffix s in if text_eq (c ∷ s) (codes ".conf") then [] else c ∷ rest

-- `path.name.removeprefix(...).removesuffix(".conf")`, on a name that the glob matched
unfoldable pub alias_of : Text → Text
unfolding strip_prefix
alias_of name = elim (strip_prefix (codes "active-") name) [
  | none ↦ name
  | some rest ↦ remove_suffix rest
]

-- `prune_stale_active_configs`: the files that stay and those removed, of the sorted matches of the glob.
-- `locked` is `alias_locked`, which raises for a name that `validate_alias` refuses.
unfoldable pub is_live : (Text → Bool) → Text → Bool
unfolding validate_alias
is_live locked alias = elim (validate_alias alias) [ none ↦ false | some a ↦ locked a ]

unfoldable pub prune : (Text → Bool) → List Text → List Text × List Text
unfolding is_live alias_of
prune locked [] = ([], [])
prune locked (name ∷ names) =
    let (kept, removed) = prune locked names in
    if is_live locked (alias_of name) then (name ∷ kept, removed) else (kept, name ∷ removed)
