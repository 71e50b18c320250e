-- ===== src/Provision/Pin.antt =====
-- provision_local.py: `pin_host_key`, on the texts of the worker host's public key and of `known_hosts`.
pub mod Entries
pub mod Glued
use ezhpcy.Prelude.{Bool, true, false, Option, none, some, List, [], ◌∷◌, ◌++◌, if◌then◌else◌}
use ezhpcy.Prelude.Result.{Result, ok, err}
use ezhpcy.Text.{Text, codes, text_eq, words, splitlines_keep}

pub data ProvisioningError : Type 0 where
  malformed : ProvisioningError

-- `WORKER_HOST_ALIAS`
abbrev pub host_alias : Text
host_alias = codes "ezhpcy-worker"

abbrev starts_with : Text → List Text → Bool
starts_with name [] = false
starts_with name (w ∷ ws) = text_eq w name

-- Whether the first field of a line is the alias. `line.split(maxsplit=1)` has the same first field as `line.split()`.
unfoldable pub is_ours : Text → Bool
unfolding words text_eq
is_ours line = starts_with host_alias (words line)

unfoldable pub retained : List Text → List Text
unfolding is_ours
retained [] = []
retained (line ∷ lines) = if is_ours line then retained lines else line ∷ retained lines

abbrev pub concat : List Text → Text
concat [] = []
concat (line ∷ lines) = line ++ concat lines

abbrev or_no_text : Option Text → Text
or_no_text none = []
or_no_text (some text) = text

-- `f"{WORKER_HOST_ALIAS} {fields[0]} {fields[1]}"`
abbrev pub entry : Text → Text → Text
entry key_type key = host_alias ++ (b' ' ∷ (key_type ++ (b' ' ∷ key)))

abbrev pin_fields : List Text → Option Text → Result ProvisioningError Text
pin_fields (key_type ∷ key ∷ comment) existing = ok (
    concat (retained (splitlines_keep (or_no_text existing))) ++ (entry key_type key ++ b'\n' ∷ []))
pin_fields _ existing = err malformed

-- `pin_host_key`: the new text of `known_hosts`, given the public key's and the old one, if there is one.
unfoldable pub pin_host_key : Text → Option Text → Result ProvisioningError Text
unfolding words splitlines_keep retained
pin_host_key public existing = pin_fields (words public) existing
