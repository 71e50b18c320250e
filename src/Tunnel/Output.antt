-- ===== src/Tunnel/Output.antt =====
-- tunnel/session.py: `_log_job_output`, over the texts that its decoder gives for each chunk.
pub mod Lines
use ezhpcy.Prelude.{Bool, true, false, List, [], ◌∷◌, ◌++◌, ◌==◌, map, if◌then◌else◌}
use ezhpcy.Text.{Text, split}

-- `*lines, partial = parts`
unfoldable pub all_but_last : List Text → List Text × Text
all_but_last [] = ([], [])
all_but_last (w ∷ []) = ([], w)
all_but_last (w ∷ v ∷ ws) = let (lines, partial) = all_but_last (v ∷ ws) in (w ∷ lines, partial)

abbrev pub last_line : Text → List Text
last_line [] = []
last_line (c ∷ s) = (c ∷ s) ∷ []

-- `line.removesuffix("\r")`
unfoldable pub removesuffix : Text → Text
removesuffix [] = []
removesuffix (c ∷ []) = if c == 13 then [] else c ∷ []
removesuffix (c ∷ d ∷ s) = c ∷ removesuffix (d ∷ s)

-- The text that Rich's `Text.from_ansi` reads from a line of a terminal's output, without its styles, is a parameter.
module _ (from_ansi : Text → Text) where
  -- `_as_displayed`
  unfoldable pub as_displayed : Text → Text
  unfolding removesuffix
  as_displayed line = from_ansi (removesuffix line)

  -- `log_lines`: the lines that it logs, and the line so far
  unfoldable pub log_lines : Text → Text → List Text × Text
  unfolding split all_but_last as_displayed
  log_lines partial output =
      let (lines, rest) = all_but_last (split b'\n' (partial ++ output)) in
      (map as_displayed lines, rest)

  -- The lines that `_log_job_output` logs, of the texts for the chunks and what the decoder still gives at the end
  unfoldable pub logged : Text → List Text → Text → List Text
  unfolding log_lines
  logged partial [] final = map as_displayed (last_line (partial ++ final))
  logged partial (text ∷ texts) final =
      let (lines, rest) = log_lines partial text in lines ++ logged rest texts final
