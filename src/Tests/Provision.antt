-- ===== src/Tests/Provision.antt =====
-- Key pairs, known hosts, and the login node's files.
use ezhpcy.Prelude.{
  Option, ◌≡◌, ◌≢◌, refl, ap, Bool, true, false, none, some, List, [], ◌∷◌, ◌++◌, All, arith,
  length,
}
use ezhpcy.Prelude.Result.{Result, ok}
use ezhpcy.Text.{Text, codes, words, splitlines_keep, text_eq, is_space}
use ezhpcy.Text.Split.Lines.{IsLine, unlines}
use ezhpcy.Path.{PosixPath}
use ezhpcy.Remote.{Connection, Reply, completed}
use ezhpcy.Worker.Command.{RemoteState}
use ezhpcy.Provision.Pin.{pin_host_key, is_ours, retained, entry}
use ezhpcy.Provision.Pin.Entries.{others, pin_host_key-unlines}
use ezhpcy.Provision.Stale.{Login}
use ezhpcy.Provision.Keys.{Files, KeyPair, ensure_key_pair}
use ezhpcy.Provision.Keys.Pair.{Ensured, ensure_key_pair-Ensured}
use ezhpcy.Provision.Login.{Credentials, SftpClient}
use ezhpcy.Provision.Login.Complete.{found_or_not}
use ezhpcy.Provision.Keys.{Paths}
use ezhpcy.Provision.Worker.{ProvisionError, World, provision_worker_infrastructure}
use ezhpcy.Provision.Worker.Ready.{IsReady, provision_worker_infrastructure-IsReady}
use ezhpcy.Tests.Base.{scripted, succeeded_with}

abbrev public_key : Text
public_key = codes "ssh-ed25519 AA me"

public_key-words : words public_key ≡ codes "ssh-ed25519" ∷ codes "AA" ∷ codes "me" ∷ []
unfolding words is_space
public_key-words = refl

abbrev old_lines : List Text
old_lines = codes "h k v" ∷ codes "" ∷ []

old_lines-IsLine : All IsLine old_lines
old_lines-IsLine = ((refl, (refl, (refl, (refl, (refl, tt))))), (tt, tt))

pin_host_key-unlines_example :
    (out : Text) × (pin_host_key public_key (some (unlines old_lines)) ≡ ok out)
    × (out ≡ unlines (others old_lines ++ entry (codes "ssh-ed25519") (codes "AA") ∷ []))
    × (pin_host_key public_key (some out) ≡ ok out)
pin_host_key-unlines_example =
    pin_host_key-unlines public_key (codes "ssh-ed25519") (codes "AA") (codes "me" ∷ []) old_lines
      public_key-words old_lines-IsLine

-- The last line has no newline.
glued_test :
    pin_host_key public_key (some (codes "h k v"))
    ≡ ok (codes "h k vezhpcy-worker ssh-ed25519 AA\n")
unfolding pin_host_key retained is_ours words splitlines_keep is_space text_eq
glued_test = refl

abbrev remote_state : RemoteState
remote_state = record {
  cache_dir = record { root = codes "/"; parts = codes "c" ∷ [] };
  state_dir = record { root = codes "/"; parts = codes "s" ∷ [] };
  version = codes "1.0";
}

abbrev login_node : Login
login_node = record {
  conn = record { State = List Reply; create_process = scripted };
  list_directory = λ path replies. (ok (codes "0.9" ∷ codes "1.0" ∷ codes "-x" ∷ []), replies);
}

abbrev replies : List Reply
replies = completed (succeeded_with []) ∷ []

abbrev private_path : Text
private_path = codes "/k"

abbrev public_path : Text
public_path = codes "/k.pub"

abbrev no_files : Files
no_files path = none

abbrev pair : KeyPair
pair = (codes "private", codes "public")

paths_differ : private_path ≢ public_path
paths_differ e =
    let lengths : length private_path ≡ length public_path = ap length e in omega (arith, lengths)

ensure_key_pair-Ensured_example :
    Ensured private_path public_path paths_differ pair no_files
      (ensure_key_pair private_path public_path pair no_files)
ensure_key_pair-Ensured_example =
    ensure_key_pair-Ensured private_path public_path paths_differ pair no_files

abbrev ends_pub : List Text → Bool
ends_pub [] = false
ends_pub (part ∷ []) = text_eq part (codes "ssh_host_ed25519_key.pub")
ends_pub (part ∷ next ∷ parts) = ends_pub (next ∷ parts)

abbrev is_public : PosixPath → Bool
is_public path = ends_pub path.parts

abbrev server : SftpClient
server = record {
  State = Unit;
  stat = λ p s. (found_or_not (is_public p), s);
  isdir = λ p s. (ok true, s);
  makedirs = λ p s. (ok tt, s);
  chmod = λ p mode s. (ok tt, s);
  put = λ f p s. (ok tt, s);
}

abbrev credentials : Credentials
credentials = record {
  machine_id = codes "m";
  connection_id = codes "me@hpc";
  host_key = codes "/h";
  host_public_key = codes "/h.pub";
}

abbrev paths : Paths
paths = record {
  client_key = codes "/k";
  client_public_key = codes "/k.pub";
  host_key = codes "/h";
  host_public_key = codes "/h.pub";
  known_hosts = codes "/known_hosts";
}

abbrev read_public_key : Text → Option (Text × Text)
read_public_key text = some (codes "ssh-ed25519", text)

abbrev generated : KeyPair
generated = (codes "private", public_key)

abbrev world : World (List Reply) Unit
world = record {
  files = no_files;
  login =
      completed (succeeded_with [])
      ∷ completed (succeeded_with [])
      ∷ completed (succeeded_with [])
      ∷ [];
  server = tt;
}

abbrev scripted_node : Connection
scripted_node = record { State = List Reply; create_process = scripted }

abbrev provisioned : Result ProvisionError (Text × Text) × World (List Reply) Unit
provisioned =
    provision_worker_infrastructure scripted_node server read_public_key paths generated generated
      credentials (codes "me") remote_state world

provision_ok : provisioned.0 ≡ ok (codes "ssh-ed25519", public_key)
unfolding provision_worker_infrastructure
provision_ok = refl

provision_worker_infrastructure-IsReady_example :
    IsReady paths read_public_key generated generated
      (codes "ssh-ed25519", public_key)
      provisioned.1.files
provision_worker_infrastructure-IsReady_example =
    provision_worker_infrastructure-IsReady scripted_node server read_public_key paths generated
      generated credentials (codes "me") remote_state world (codes "ssh-ed25519", public_key)
      provision_ok
