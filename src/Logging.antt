-- ===== src/Logging.antt =====
-- logging.py: which records of the log the terminal and the log file get. The output thread runs in the order of the calls, so
-- it is a call here. A record's text, once its arguments are in, and how it is printed are the logging library's.
pub mod Handed
pub mod Replayed
pub mod Oldest
use ezhpcy.Prelude.{
  ℕ, Bool, true, false, not, ◌&&◌, Option, none, some, List, [], ◌∷◌, ◌++◌, ltb, leb, ◌==◌, ◌+◌,
  ◌-◌, length, take, drop, if◌then◌else◌,
}
use ezhpcy.Text.{Text, codes, text_eq, before}

-- A log record: its resolved message, if its arguments fit; whether it has a traceback; and whether it is `REPLAY_ON_ERROR`.
pub record Entry : Type 0 where
  pub name : Text
  pub level : ℕ
  pub message : Option Text
  pub has_traceback : Bool
  pub replay_on_error : Bool

abbrev pub debug : ℕ
debug = 10

abbrev pub info : ℕ
info = 20

abbrev pub error : ℕ
error = 40

abbrev pub critical : ℕ
critical = 50

-- A handler that writes: its level, and whether its `_DebugDetail` lets asyncssh's records through.
pub record Output : Type 0 where
  pub level : ℕ
  pub asyncssh : Bool

abbrev pub is_asyncssh : Entry → Bool
is_asyncssh entry = text_eq (before b'.' entry.name) (codes "asyncssh")

-- `_DebugDetail.filter`
abbrev pub without_traceback : Bool → Entry → Entry
without_traceback true entry = record entry { has_traceback = false }
without_traceback false entry = entry

unfoldable pub detail : Output → Entry → Option Entry
unfolding text_eq before
detail output entry =
    if is_asyncssh entry
    then if output.asyncssh then some entry else none
    else some (without_traceback (entry.has_traceback && ltb debug output.level) entry)

-- `Handler.handle`: what the handler has written afterwards
abbrev pub written : Option Entry → List Entry → List Entry
written none entries = entries
written (some entry) entries = entries ++ entry ∷ []

unfoldable pub handle : Output → Entry → List Entry → List Entry
unfolding detail
handle output entry entries = written (detail output entry) entries

abbrev pub handle_all : Output → List Entry → List Entry → List Entry
handle_all output [] entries = entries
handle_all output (e ∷ es) entries = handle_all output es (handle output e entries)

-- `deque.append` with its `maxlen`
abbrev pub last_of : ℕ → List Entry → List Entry
last_of capacity entries = drop (length entries - capacity) entries

-- `_Replay`: what it keeps, and what its target has written
pub record Replay : Type 0 where
  pub kept : List Entry
  pub shown : List Entry

-- `_Replay.emit`
unfoldable pub replay : ℕ → Output → Entry → Replay → Replay
unfolding handle
replay capacity target entry state =
    if ltb entry.level target.level
    then if entry.replay_on_error
      then record state { kept = last_of capacity (state.kept ++ entry ∷ []) }
      else state
    else if leb error entry.level
    then record {
      kept = [];
      shown = handle target entry (handle_all target state.kept state.shown);
    }
    else record state { shown = handle target entry state.shown }

-- The configured handlers, and what they have
pub record Outputs : Type 0 where
  pub terminal : Option Output
  pub file : Option Output

pub record Log : Type 0 where
  pub replay_state : Replay
  pub filed : List Entry

abbrev pub to_terminal : ℕ → Option Output → Entry → Replay → Replay
to_terminal capacity none entry state = state
to_terminal capacity (some target) entry state =
    if leb debug entry.level then replay capacity target entry state else state

abbrev pub to_file : Option Output → Entry → List Entry → List Entry
to_file none entry entries = entries
to_file (some file) entry entries =
    if leb file.level entry.level then handle file entry entries else entries

-- `_write`, with the handlers that `_update_handlers` configures
unfoldable pub write : ℕ → Outputs → Entry → Log → Log
unfolding replay
write capacity outputs entry log = record {
  replay_state = to_terminal capacity outputs.terminal entry log.replay_state;
  filed = to_file outputs.file entry log.filed;
}

abbrev pub minimum : Option ℕ → Option ℕ → ℕ → ℕ
minimum none none default = default
minimum (some m) none default = m
minimum none (some n) default = n
minimum (some m) (some n) default = if leb m n then m else n

abbrev pub level_of : Option Output → Option ℕ
level_of none = none
level_of (some output) = some output.level

-- The terminal's handler is its replay, at DEBUG.
abbrev pub replay_level : Option Output → Option ℕ
replay_level none = none
replay_level (some output) = some debug

abbrev pub lets_asyncssh : Option Output → Bool
lets_asyncssh none = false
lets_asyncssh (some output) = output.asyncssh

-- `_update_handlers`: `output_level`, and the levels of the package's logger and of asyncssh's, if it has the handler
unfoldable pub output_level : Outputs → ℕ
output_level outputs = minimum (level_of outputs.terminal) (level_of outputs.file) 0

unfoldable pub package_level : Outputs → ℕ
package_level outputs =
    minimum (replay_level outputs.terminal) (level_of outputs.file) (critical + 1)

unfoldable pub asyncssh_level : Outputs → Option ℕ
asyncssh_level outputs =
    if lets_asyncssh outputs.terminal
    then some info
    else if lets_asyncssh outputs.file
    then some info
    else none

-- `_OutputHandler.emit`; a record whose message does not resolve is only reported.
abbrev pub resolved : ℕ → Outputs → Option Text → Entry → Log → Log
resolved capacity outputs none entry log = log
resolved capacity outputs (some message) entry log = write capacity outputs entry log

unfoldable pub emit : ℕ → Outputs → Entry → Log → Log
unfolding write output_level
emit capacity outputs entry log =
    if ltb entry.level (output_level outputs) && not entry.replay_on_error
    then log
    else resolved capacity outputs entry.message entry log

-- `Logger.getEffectiveLevel`: a logger at `NOTSET` has the level of the root, `WARNING`.
abbrev pub effective : ℕ → ℕ
effective level = if level == 0 then 30 else level

-- A call of a logger, which makes the record if it is at its level: the package's, and asyncssh's.
abbrev pub from_level : ℕ → ℕ → Outputs → Entry → Log → Log
from_level capacity level outputs entry log =
    if leb level entry.level then emit capacity outputs entry log else log

abbrev pub from_asyncssh : ℕ → Option ℕ → Outputs → Entry → Log → Log
from_asyncssh capacity none outputs entry log = log
from_asyncssh capacity (some level) outputs entry log = from_level capacity level outputs entry log

unfoldable pub log_entry : ℕ → Outputs → Entry → Log → Log
unfolding emit package_level asyncssh_level text_eq before
log_entry capacity outputs entry log =
    if is_asyncssh entry
    then from_asyncssh capacity (asyncssh_level outputs) outputs entry log
    else from_level capacity (effective (package_level outputs)) outputs entry log

unfoldable pub log_entries : ℕ → Outputs → List Entry → Log → Log
unfolding log_entry
log_entries capacity outputs [] log = log
log_entries capacity outputs (entry ∷ entries) log =
    log_entries capacity outputs entries (log_entry capacity outputs entry log)

-- `_remove_old_logs`: the files with their times, newest first. `is_after` compares the pairs, as Python does.
abbrev pub LogFile : Type 0
LogFile = ℕ × Text

module _ (is_after : LogFile → LogFile → Bool) where
  unfoldable pub insert : LogFile → List LogFile → List LogFile
  insert log [] = log ∷ []
  insert log (other ∷ logs) =
      let rest = insert log logs in if is_after log other then log ∷ other ∷ logs else other ∷ rest

  unfoldable pub newest_first : List LogFile → List LogFile
  unfolding insert
  newest_first [] = []
  newest_first (log ∷ logs) = insert log (newest_first logs)

  -- The files that stay and those that are removed
  unfoldable pub remove_old_logs : ℕ → List LogFile → List LogFile × List LogFile
  unfolding newest_first
  remove_old_logs keep logs = (take keep (newest_first logs), drop keep (newest_first logs))
