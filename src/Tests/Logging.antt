-- ===== src/Tests/Logging.antt =====
-- Messages and the log.
use ezhpcy.Prelude.{
  Bool, Bool-cases, List, [], ap, arith, false, if◌then◌else◌, inl, inr, ltb, option_map, refl,
  some, true, ℕ, ◌++◌, ◌==◌, ◌∷◌, ◌≡◌, ◌≤◌,
}
use ezhpcy.Text.{Text, codes, text_eq, before}
use ezhpcy.Messages.{
  Styles, Template, end, str, interpolation, no_items, value, nested, plain, rich_text, duration,
}
use ezhpcy.Messages.Plain.{texts, rich_text-plain}
use ezhpcy.Logging.{
  Entry, Output, Outputs, Log, log_entries, log_entry, emit, write, package_level, LogFile,
}
use ezhpcy.Logging.Handed.{write_all, log_entries-write}

abbrev styles : Styles
styles = record {
  style_name = codes "cyan";
  style_offending_value = codes "yellow";
  style_valid_choice = codes "green";
  style_suggestion = codes "blue";
  style_source = codes "dim";
}

abbrev as_it_is : Text → Text → Text
as_it_is text spec = text

-- t"Run {t'{'a':choice} or {'b':path}':aside}, {['x', 'y']:value}."
abbrev message : Template Text
message = str (codes "Run ") (
    interpolation (codes "aside")
      (nested
        (interpolation (codes "choice") (value (codes "a") no_items)
          (str (codes " or ") (interpolation (codes "path") (value (codes "/b/c") no_items) end)))
        no_items)
      (str (codes ", ") (
        interpolation (codes "value") (value (codes "x") (value (codes "y") no_items))
          (str (codes ".") end))))

message_test : plain Text as_it_is styles message ≡ some (codes "Run \"a\" or /b/c, \"x\", \"y\".")
unfolding plain text_eq before
message_test = refl

abbrev without_bells : Text → Text
without_bells [] = []
without_bells (c ∷ s) = let rest = without_bells s in if c == 7 then rest else c ∷ rest

without_bells-append : (s t : Text) → without_bells (s ++ t) ≡ without_bells s ++ without_bells t
without_bells-append [] t = refl
without_bells-append (c ∷ s) t = elim (Bool-cases (c == 7)) [
  | inl bell ↦ rw bell (without_bells-append s t)
  | inr other ↦ rw other (ap (λ r. c ∷ r) (without_bells-append s t))
]

rich_text-plain_example :
    option_map texts (rich_text without_bells Text as_it_is styles message)
    ≡ option_map without_bells (plain Text as_it_is styles message)
rich_text-plain_example =
    rich_text-plain without_bells without_bells-append Text as_it_is styles message

duration_test :
    (duration 3900 ≡ codes "1 h 5 min")
    × (duration 150 ≡ codes "2 min 30 s")
    × (duration 45 ≡ codes "45 s")
unfolding duration
duration_test = (refl, refl, refl)

abbrev entry_at : ℕ → Bool → Entry
entry_at level replay_on_error = record {
  name = codes "ezhpcy.tunnel";
  level = level;
  message = some (codes "m");
  has_traceback = false;
  replay_on_error = replay_on_error;
}

abbrev outputs : Outputs
outputs = record {
  terminal = some (record { level = 20; asyncssh = false });
  file = some (record { level = 30; asyncssh = false });
}

abbrev nothing : Log
nothing = record { replay_state = record { kept = []; shown = [] }; filed = [] }

abbrev entries : List Entry
entries = entry_at 10 true ∷ entry_at 10 false ∷ entry_at 20 false ∷ entry_at 40 false ∷ []

log_entries-write_example :
    log_entries 2 outputs entries nothing ≡ write_all 2 outputs entries nothing
unfolding text_eq before
log_entries-write_example = log_entries-write 2 outputs (omega arith) entries nothing (
  (refl, codes "m", refl),
  ((refl, codes "m", refl), ((refl, codes "m", refl), ((refl, codes "m", refl), tt))),
)

-- A log file at `NOTSET` leaves the package's logger at the level of the root logger: the terminal misses an INFO record.
not_set_test :
    (log_entries 2
      (record outputs { file = some (record { level = 0; asyncssh = false }) })
      (entry_at 20 false ∷ [])
      nothing).replay_state.shown
    ≡ []
unfolding log_entries log_entry emit write package_level text_eq before
not_set_test = refl

abbrev terminal : Output
terminal = record { level = 20; asyncssh = false }

abbrev quiet : List Entry
quiet = entry_at 10 true ∷ entry_at 20 false ∷ []

abbrev is_after : LogFile → LogFile → Bool
is_after a b = ltb b.0 a.0

is_after_sound : (a b : LogFile) → is_after a b ≡ true → b.0 ≤ a.0
is_after_sound a b h = ground arith

is_after_complete : (a b : LogFile) → is_after a b ≡ false → a.0 ≤ b.0
is_after_complete a b h = ground arith

abbrev logs : List LogFile
logs = (5, codes "a") ∷ (9, codes "b") ∷ (7, codes "c") ∷ []
