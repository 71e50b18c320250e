-- ===== src/Worker/Control.antt =====
-- worker/control.py: the tunnel's side of the control directory. asyncssh's SFTP client is the
-- `Sftp`: calls that may raise and that leave a state behind in any case.
pub mod Publish
pub mod Status
use ezhpcy.Prelude.{
  ℕ, zero, suc, ◌+◌, ◌<◌, Bool, true, false, Option, none, some, List, [], ◌∷◌, ◌++◌, ltb, ◌==◌,
  length, if◌then◌else◌,
}
use ezhpcy.Prelude.Int.{ℤ, pos, negsuc}
use ezhpcy.Prelude.Result.{Result, ok, err}
use ezhpcy.Text.{Text, codes, text_eq, show, show_padded, words, join, is_digit, all_chars, to_int}
use ezhpcy.Path.{PosixPath, child, parent}

-- `asyncssh.SFTPNoSuchFile`, other `SFTPError`s, and the rest of `asyncssh.Error` and `OSError`.
pub data SftpError : Type 0 where
  no_such_file : SftpError
  sftp_error other_error : Text → SftpError

pub record Sftp : Type 1 where
  pub State : Type 0
  pub write : PosixPath → Text → State → Result SftpError Unit × State
  pub posix_rename : PosixPath → PosixPath → State → Result SftpError Unit × State
  pub remove : PosixPath → State → Result SftpError Unit × State
  pub read : PosixPath → State → Result SftpError Text × State

pub record WorkerControl : Type 0 where
  pub directory : PosixPath
  pub token : Text
  pub ports : List ℕ
  pub sequence : ℕ
  pub leases : List PosixPath

-- `__init__`
unfoldable pub worker_control : PosixPath → Text → List ℕ → WorkerControl
worker_control directory token ports = record {
  directory = directory;
  token = token;
  ports = ports;
  sequence = 0;
  leases = [];
}

-- `_LEASE_FILE_RETAIN_COUNT`
abbrev pub lease_file_retain_count : ℕ
lease_file_retain_count = 2

-- `f"lease.{sequence:020d}"`
unfoldable pub lease_name : ℕ → Text
unfolding show_padded
lease_name n = codes "lease." ++ show_padded 20 n

unfoldable pub lease_path : PosixPath → ℕ → PosixPath
unfolding lease_name
lease_path directory n = child directory (lease_name n)

-- `f".{name}.tmp"`
unfoldable pub temporary_path : PosixPath → ℕ → PosixPath
unfolding lease_name
temporary_path directory n = child directory (b'.' ∷ lease_name n ++ codes ".tmp")

-- `f"{token} {sequence}\n"`
unfoldable pub lease_line : Text → ℕ → Text
unfolding show
lease_line token n = token ++ (b' ' ∷ show n ++ b'\n' ∷ [])

-- `except asyncssh.SFTPError` lets any other error through.
abbrev pub not_sftp : Result SftpError Unit → Option SftpError
not_sftp (ok _) = none
not_sftp (err no_such_file) = none
not_sftp (err (sftp_error _)) = none
not_sftp (err (other_error m)) = some (other_error m)

abbrev pub answer_sequence : ℕ → Result SftpError Unit → Result SftpError ℕ
answer_sequence n (ok _) = ok n
answer_sequence n (err e) = err e

module _ (sftp : Sftp) where
  -- The `try` block: the lease is written under another name and moved into place.
  unfoldable pub write_lease : WorkerControl → ℕ → sftp.State → Result SftpError Unit × sftp.State
  unfolding temporary_path lease_path lease_line
  write_lease c n s =
      let (written, s1) = sftp.write (temporary_path c.directory n) (lease_line c.token n) s in
      elim written [
        | err e ↦ (err e, s1)
        | ok _ ↦ sftp.posix_rename (temporary_path c.directory n) (lease_path c.directory n) s1
      ]

  -- The loop that removes all but the latest leases. It pops one each time.
  unfoldable pub remove_stale :
      List PosixPath → sftp.State → Result SftpError Unit × List PosixPath × sftp.State
  remove_stale [] s = (ok tt, [], s)
  remove_stale (stale ∷ rest) s = elim (ltb lease_file_retain_count (length (stale ∷ rest))) [
    | false ↦ (ok tt, stale ∷ rest, s)
    | true ↦ elim (not_sftp (sftp.remove stale s).0) [
      | none ↦ remove_stale rest (sftp.remove stale s).1
      | some e ↦ (err e, rest, (sftp.remove stale s).1)
    ]
  ]

  -- What follows the `try` statement.
  unfoldable pub keep_lease :
      WorkerControl → ℕ → sftp.State → Result SftpError ℕ × WorkerControl × sftp.State
  unfolding lease_path remove_stale
  keep_lease c n s =
      let (removed, leases, s1) = remove_stale (c.leases ++ lease_path c.directory n ∷ []) s in
      (answer_sequence n removed, record c { leases = leases }, s1)

  unfoldable pub publish_lease :
      WorkerControl → sftp.State → Result SftpError ℕ × WorkerControl × sftp.State
  unfolding write_lease keep_lease temporary_path
  publish_lease control s =
      let c = record control { sequence = suc control.sequence } in
      let (written, s1) = write_lease c c.sequence s in
      elim written [
        | err e ↦ (err e, c, (sftp.remove (temporary_path c.directory c.sequence) s1).1)
        | ok _ ↦ keep_lease c c.sequence s1
      ]

pub data WorkerStatus : Type 0 where
  worker_ready : ℕ → WorkerStatus
  worker_failed : Text → WorkerStatus
  worker_stopped : ℤ → WorkerStatus

-- What `read_status` raises: the messages of `WorkerError`, the `ValueError` of `int`, and errors of
-- the SFTP client.
pub data StatusError : Type 0 where
  invalid_record non_numeric_port unexpected_port value_error : StatusError
  unreadable : SftpError → StatusError

abbrev pub member_port : ℕ → List ℕ → Bool
member_port p [] = false
member_port p (q ∷ qs) = if p == q then true else member_port p qs

-- `_ready_port`
unfoldable pub ready_port : List ℕ → Text → Result StatusError ℕ
unfolding to_int
ready_port ports field = elim (to_int field) [
  | none ↦ err non_numeric_port
  | some (negsuc _) ↦ err unexpected_port
  | some (pos p) ↦ if member_port p ports then ok p else err unexpected_port
]

abbrev or_startup_failed : Text → Text
or_startup_failed [] = codes "worker startup failed"
or_startup_failed (c ∷ s) = c ∷ s

abbrev ready : Result StatusError ℕ → Result StatusError WorkerStatus
ready (ok p) = ok (worker_ready p)
ready (err e) = err e

abbrev stopped : Text → Result StatusError WorkerStatus
stopped field = elim (to_int field) [ none ↦ err value_error | some n ↦ ok (worker_stopped n) ]

-- `str.isdigit()`
abbrev isdigit : Text → Bool
isdigit [] = false
isdigit (c ∷ s) = all_chars is_digit (c ∷ s)

abbrev stopped_case : Text → List Text → Result StatusError WorkerStatus
stopped_case kind (field ∷ []) =
    if text_eq kind (codes "stopped")
    then (if isdigit field then stopped field else err invalid_record)
    else err invalid_record
stopped_case kind _ = err invalid_record

abbrev failed_case : Text → List Text → Result StatusError WorkerStatus
failed_case kind rest =
    if text_eq kind (codes "failed")
    then ok (worker_failed (or_startup_failed (join (codes " ") rest)))
    else stopped_case kind rest

-- The `match` on the fields after the token, its cases in order.
abbrev pub ready_case : List ℕ → Text → List Text → Result StatusError WorkerStatus
ready_case ports kind (port ∷ []) =
    if text_eq kind (codes "ready")
    then ready (ready_port ports port)
    else failed_case kind (port ∷ [])
ready_case ports kind rest = failed_case kind rest

unfoldable pub parse_status : Text → List ℕ → List Text → Result StatusError WorkerStatus
unfolding ready_port text_eq to_int all_chars is_digit join
parse_status token ports [] = err invalid_record
parse_status token ports (t ∷ []) = err invalid_record
parse_status token ports (t ∷ kind ∷ rest) =
    if text_eq t token then ready_case ports kind rest else err invalid_record

-- `read_status`
module _ (sftp : Sftp) where
  abbrev status_of :
      WorkerControl → Result SftpError Text → Result StatusError (Option WorkerStatus)
  status_of c r = elim r [
    | err no_such_file ↦ ok none
    | err (sftp_error m) ↦ err (unreadable (sftp_error m))
    | err (other_error m) ↦ err (unreadable (other_error m))
    | ok text ↦ elim (parse_status c.token c.ports (words text)) [
      | ok status ↦ ok (some status)
      | err e ↦ err e
    ]
  ]

  unfoldable pub read_status :
      WorkerControl → sftp.State → Result StatusError (Option WorkerStatus) × sftp.State
  unfolding parse_status words
  read_status c s =
      let (r, s1) = sftp.read (child c.directory (codes "status")) s in (status_of c r, s1)
