-- ===== src/Worker/Job.antt =====
-- worker/job.py: the worker's command, and the programs of its shell: the ports that sshd may take, the
-- status that the job publishes, and the watchdog over the tunnel's leases.
pub mod Ports
pub mod Watchdog
use ezhpcy.Prelude.{
  ℕ, zero, suc, ◌+◌, ◌-◌, ◌<◌, Bool, true, false, Option, none, some, List, [], ◌∷◌, ◌++◌, ltb, leb,
  ◌==◌, length, if◌then◌else◌, map, ◌&&◌, ◌||◌,
}
use ezhpcy.Prelude.Result.{Result, ok, err}
use ezhpcy.Text.{Text, codes, text_eq, show, join, split, all_chars, digits_value}
use ezhpcy.Worker.Control.{member_port}

abbrev pub first_dynamic_port : ℕ
first_dynamic_port = 49152

abbrev pub last_dynamic_port : ℕ
last_dynamic_port = 65535

-- `select_ports`, over what `secrets.randbelow` returns in turn: `none` when that is not enough.
unfoldable pub draw : List ℕ → ℕ → List ℕ → Option (List ℕ)
draw ports count [] = if ltb (length ports) count then none else some ports
draw ports count (r ∷ random) =
    let port = first_dynamic_port + r in
    let again = draw ports count random in
    let next = draw (ports ++ port ∷ []) count random in
    if ltb (length ports) count
    then (if member_port port ports then again else next)
    else some ports

unfoldable pub select_ports : ℕ → List ℕ → Option (List ℕ)
unfolding draw
select_ports count random = draw [] count random

-- `publish_state`: the status file's content.
unfoldable pub publish_state : Text → Text → List Text → Text
unfolding join
publish_state token state fields = join (codes " ") (token ∷ state ∷ fields) ++ b'\n' ∷ []

-- The line that `read` reads: it fails where no newline ends it.
unfoldable pub first_line : Text → Option Text
first_line [] = none
first_line (c ∷ s) =
    if c == b'\n'
    then some []
    else elim (first_line s) [ none ↦ none | some line ↦ some (c ∷ line) ]

abbrev pub nonempty : List Text → List Text
nonempty [] = []
nonempty ([] ∷ ws) = nonempty ws
nonempty ((c ∷ w) ∷ ws) = (c ∷ w) ∷ nonempty ws

abbrev pub is_ascii_digit : ℕ → Bool
is_ascii_digit c = leb b'0' c && leb c b'9'

abbrev sequence_number : Text → Option ℕ
sequence_number s = if all_chars is_ascii_digit s then digits_value 0 false s else none

abbrev pub lease_of_fields : Text → List Text → Option ℕ
lease_of_fields token (t ∷ s ∷ []) = if text_eq t token then sequence_number s else none
lease_of_fields token _ = none

-- The sequence number of one file: `IFS=' ' read -r token sequence extra`, and the tests that follow it.
unfoldable pub lease_sequence : Text → Text → Option ℕ
unfolding first_line split text_eq digits_value all_chars
lease_sequence token content = elim (first_line content) [
  | none ↦ none
  | some line ↦ lease_of_fields token (nonempty (split b' ' line))
]

abbrev pub newer : Option ℕ → Option ℕ → Option ℕ
newer none latest = latest
newer (some n) none = some n
newer (some n) (some latest) = if ltb latest n then some n else some latest

-- `latest_lease_sequence`, over the contents of the `lease.*` files in turn.
unfoldable pub latest_from : Text → Option ℕ → List Text → Option ℕ
unfolding lease_sequence
latest_from token latest [] = latest
latest_from token latest (content ∷ files) =
    latest_from token (newer (lease_sequence token content) latest) files

unfoldable pub latest_lease_sequence : Text → List Text → Option ℕ
unfolding latest_from
latest_lease_sequence token files = latest_from token none files

pub data Reason : Type 0 where
  sshd_exited heartbeat_timeout : Reason

-- What one round of the watchdog's loop sees: whether sshd runs, the latest lease, and `SECONDS`.
pub record Round : Type 0 where
  pub sshd_runs : Bool
  pub sequence : Option ℕ
  pub seconds : ℕ

pub record Watch : Type 0 where
  pub last_sequence : Option ℕ
  pub last_seen : ℕ

-- `[ -n "$sequence" ] && { [ -z "$last_sequence" ] || [ "$sequence" -gt "$last_sequence" ]; }`
abbrev pub is_newer : Option ℕ → Option ℕ → Bool
is_newer none last = false
is_newer (some n) none = true
is_newer (some n) (some last) = ltb last n

unfoldable pub observe : Watch → Round → Watch
observe w r =
    if is_newer r.sequence w.last_sequence
    then record { last_sequence = r.sequence; last_seen = r.seconds }
    else w

-- The loop: why it ended, or `none` where it would go on after the rounds.
unfoldable pub watch : ℕ → Watch → List Round → Option Reason
unfolding observe
watch timeout w [] = none
watch timeout w (r ∷ rounds) =
    let w' = observe w r in
    let rest = watch timeout w' rounds in
    if r.sshd_runs
    then (if leb timeout (r.seconds - w'.last_seen) then some heartbeat_timeout else rest)
    else some sshd_exited
