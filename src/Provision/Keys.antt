-- ===== src/Provision/Keys.antt =====
-- provision_local.py: `_ensure_key_pair`, `ensure_local_keys` and `missing_tunnel_files`, over the files of this machine. Key
-- generation is a parameter, and other processes do not touch the files meanwhile.
pub mod Pair
use ezhpcy.Prelude.{
  Bool, true, false, ◌&&◌, ◌||◌, Option, none, some, List, [], ◌∷◌, ◌++◌, if◌then◌else◌,
}
use ezhpcy.Prelude.Exec.{Result, ok, err, Exec, pure, raise, ◌>>=◌, ◌>>◌}
use ezhpcy.Text.{Text}
use ezhpcy.Text.Table.{put}

-- A file's text and its mode's bits that matter: whether others than the owner may read it.
pub record File : Type 0 where
  pub content : Text
  pub is_private : Bool

abbrev pub Files : Type 0
Files = Text → Option File

abbrev pub write : Text → File → Files → Files
write path file files = put path (some file) files

abbrev pub exists : Option File → Bool
exists none = false
exists (some file) = true

-- `restrict_to_current_user`, and `chmod(0o644)`
abbrev pub set_private : Bool → Text → Option File → Files → Files
set_private value path none files = files
set_private value path (some file) files = write path (record file { is_private = value }) files

pub data KeyError : Type 0 where
  incomplete_pair : KeyError

-- A private and a public key, as exported
abbrev pub KeyPair : Type 0
KeyPair = Text × Text

abbrev pub create_pair : Text → Text → KeyPair → Files → Files
create_pair private_key public_key (private_text, public_text) files =
    write public_key (record { content = public_text; is_private = false })
      (write private_key (record { content = private_text; is_private = true }) files)

abbrev pub restrict_pair : Text → Text → Files → Files
restrict_pair private_key public_key files =
    let restricted = set_private true private_key (files private_key) files in
    set_private false public_key (restricted public_key) restricted

-- `_ensure_key_pair`, by whether the two files exist. The private key is created with `O_EXCL`, for the owner only.
abbrev pub ensure_by : Text → Text → KeyPair → Bool → Bool → Exec Files KeyError Unit
ensure_by private_key public_key pair true true files =
    (ok tt, restrict_pair private_key public_key files)
ensure_by private_key public_key pair false false files =
    (ok tt, restrict_pair private_key public_key (create_pair private_key public_key pair files))
ensure_by private_key public_key pair _ _ files = (err incomplete_pair, files)

unfoldable pub ensure_key_pair : Text → Text → KeyPair → Exec Files KeyError Unit
unfolding put
ensure_key_pair private_key public_key pair files =
    ensure_by private_key public_key pair (exists (files private_key)) (exists (files public_key))
      files

-- The paths of `WorkerCredentials`
pub record Paths : Type 0 where
  pub client_key : Text
  pub client_public_key : Text
  pub host_key : Text
  pub host_public_key : Text
  pub known_hosts : Text

-- `ensure_local_keys`, given the pairs that are generated
unfoldable pub ensure_local_keys : Paths → KeyPair → KeyPair → Exec Files KeyError Unit
unfolding ensure_key_pair
ensure_local_keys paths client host =
    ensure_key_pair paths.client_key paths.client_public_key client
    >> ensure_key_pair paths.host_key paths.host_public_key host

abbrev pub absent : Files → List Text → List Text
absent files [] = []
absent files (p ∷ ps) = if exists (files p) then absent files ps else p ∷ absent files ps

-- `missing_tunnel_files`
unfoldable pub missing_tunnel_files : Paths → Files → List Text
missing_tunnel_files paths files =
    absent files (paths.client_key ∷ paths.client_public_key ∷ paths.known_hosts ∷ [])
