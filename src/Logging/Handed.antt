-- ===== src/Logging/Handed.antt =====
-- The levels that keep records from being made or copied lose none.
use ezhpcy.Prelude.{
  ℕ, ◌≡◌, ◌∙◌, refl, sym, ap, Bool, true, false, not, ◌&&◌, Option, none, some, List, [], ◌∷◌, ltb,
  leb, ◌<◌, All, arith, Bool-cases, inl, inr,
}
use ezhpcy.Text.{Text}
use ezhpcy.Logging.{
  Entry, Output, is_asyncssh, Replay, replay, Outputs, Log, to_terminal, to_file, write, level_of,
  replay_level, minimum, output_level, package_level, emit, effective, from_level, log_entry,
  log_entries,
}

-- An entry below a handler's level
abbrev IsBelow : ℕ → Option ℕ → Type 0
IsBelow level none = Unit
IsBelow level (some other) = level < other

minimum-IsBelow :
    (level : ℕ) (m n : Option ℕ) (default : ℕ)
    → ltb level (minimum m n default) ≡ true
    → IsBelow level m × IsBelow level n
minimum-IsBelow level none none default h = (tt, tt)
minimum-IsBelow level (some m) none default h = (ground arith, tt)
minimum-IsBelow level none (some n) default h = (tt, ground arith)
minimum-IsBelow level (some m) (some n) default h = (ground arith, ground arith)

-- The terminal's replay does nothing with an entry below the terminal's level that it does not keep.
replay_below :
    (capacity : ℕ) (target : Output) (entry : Entry) (state : Replay)
    → entry.replay_on_error ≡ false
    → entry.level < target.level
    → replay capacity target entry state ≡ state
unfolding replay
replay_below capacity target entry state h below = ground arith

unshown :
    (capacity : ℕ) (target : Option Output) (entry : Entry) (state : Replay)
    → entry.replay_on_error ≡ false
    → IsBelow entry.level (level_of target)
    → to_terminal capacity target entry state ≡ state
unshown capacity none entry state h below = refl
unshown capacity (some target) entry state h below =
    ground (arith, replay_below capacity target entry state h below)

unmade :
    (capacity : ℕ) (target : Option Output) (entry : Entry) (state : Replay)
    → IsBelow entry.level (replay_level target)
    → to_terminal capacity target entry state ≡ state
unmade capacity none entry state below = refl
unmade capacity (some target) entry state below = ground arith

unfiled :
    (file : Option Output) (entry : Entry) (entries : List Entry)
    → IsBelow entry.level (level_of file)
    → to_file file entry entries ≡ entries
unfiled none entry entries below = refl
unfiled (some file) entry entries below = ground arith

-- The file's level is no `NOTSET`.
abbrev pub HasLevel : Option Output → Type 0
HasLevel none = Unit
HasLevel (some file) = 0 < file.level

and_true : (a b : Bool) → (a && b) ≡ true → (a ≡ true) × (b ≡ true)
and_true true true h = (refl, refl)
and_true true false h = (refl, h)
and_true false b h = absurd (ground arith)

not-true : (b : Bool) → not b ≡ true → b ≡ false
not-true true h = ground arith
not-true false h = refl

package_level-pos :
    (terminal file : Option Output)
    → HasLevel file
    → 0 < minimum (replay_level terminal) (level_of file) 51
package_level-pos none none h = ground arith
package_level-pos none (some file) h = h
package_level-pos (some terminal) none h = ground arith
package_level-pos (some terminal) (some file) h = ground (arith, h)

effective-same : (level : ℕ) → 0 < level → effective level ≡ level
effective-same level h = ground (arith, h)

module _ (capacity : ℕ) (outputs : Outputs) where
  write-same :
      (entry : Entry) (log : Log)
      → to_terminal capacity outputs.terminal entry log.replay_state ≡ log.replay_state
      → to_file outputs.file entry log.filed ≡ log.filed
      → log ≡ write capacity outputs entry log
  unfolding write
  write-same entry log a b = λ i. record { replay_state = sym a i; filed = sym b i }

  emit-write :
      (entry : Entry) (message : Text) (log : Log)
      → entry.message ≡ some message
      → emit capacity outputs entry log ≡ write capacity outputs entry log
  unfolding emit
  emit-write entry message log h =
      elim (Bool-cases (ltb entry.level (output_level outputs) && not entry.replay_on_error)) [
        | inl dropped ↦
            let (low, context) =
              and_true (ltb entry.level (output_level outputs)) (not entry.replay_on_error)
                dropped in
            let (a, b) =
              minimum-IsBelow entry.level (level_of outputs.terminal) (level_of outputs.file) 0
                low in
            rw dropped (
              write-same entry log
                (unshown capacity outputs.terminal entry log.replay_state
                  (not-true entry.replay_on_error context) a)
                (unfiled outputs.file entry log.filed b))
        | inr handed ↦ rw (handed, h) refl
      ]

  from_level-write :
      (entry : Entry) (message : Text) (log : Log)
      → HasLevel outputs.file
      → entry.message ≡ some message
      → from_level capacity (effective (package_level outputs)) outputs entry log
        ≡ write capacity outputs entry log
  unfolding package_level
  from_level-write entry message log set h =
      let level =
        effective-same (package_level outputs)
          (package_level-pos outputs.terminal outputs.file set) in
      elim (Bool-cases (leb (package_level outputs) entry.level)) [
        | inl made ↦ rw (level, made) (emit-write entry message log h)
        | inr low ↦
            let (a, b) =
              minimum-IsBelow entry.level (replay_level outputs.terminal) (level_of outputs.file) 51
                (ground (arith, low)) in
            rw (level, low)
              (write-same entry log (unmade capacity outputs.terminal entry log.replay_state a)
                (unfiled outputs.file entry log.filed b))
      ]

  -- A record of the package, whose arguments fit its message
  abbrev pub IsOwn : Entry → Type 0
  IsOwn entry = (is_asyncssh entry ≡ false) × (message : Text) × (entry.message ≡ some message)

  abbrev pub write_all : List Entry → Log → Log
  write_all [] log = log
  write_all (entry ∷ entries) log = write_all entries (write capacity outputs entry log)

  -- However the loggers' levels and the output handler's spare records that no output shows, the terminal, what its replay
  -- keeps and the log file get the same from the package's records as if each record were handed to every handler. The
  -- records' arguments fit their messages, and the file's level is not `NOTSET`.
  pub log_entries-write :
      HasLevel outputs.file
      → (entries : List Entry) (log : Log) → All IsOwn entries
      → log_entries capacity outputs entries log ≡ write_all entries log
  unfolding log_entries log_entry
  log_entries-write set [] log h = refl
  log_entries-write set (entry ∷ entries) log ((own, message, fits), hs) =
      log_entries-write set entries (log_entry capacity outputs entry log) hs
      ∙ ap (write_all entries) (rw own (from_level-write entry message log set fits))
