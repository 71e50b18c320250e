-- ===== src/Messages.antt =====
-- messages.py: the pieces of a message template, its plain text and its styled one. The values that a template holds, how
-- Python formats them, the styles of Cyclopts and Rich's removal of control codes are parameters.
pub mod Plain
pub mod LastPart
use ezhpcy.Prelude.{
  ℕ, zero, suc, Bool, true, false, Option, none, some, List, [], ◌∷◌, ◌++◌, leb, ◌==◌, ◌+◌, ◌/◌,
  ◌%◌, take, drop, option_map, if◌then◌else◌,
}
use ezhpcy.Text.{Text, codes, show, text_eq, before, after}
use ezhpcy.Config.Chain.{find}

-- `_Split`
pub record Split : Type 0 where
  pub separators : Text
  pub last_style : Text
  pub separator_style : Option Text

-- `_Kind`
pub record Kind : Type 0 where
  pub style : Option Text
  pub quote : Text
  pub styled_quotes : Bool
  pub split : Option Split

-- Cyclopts' styles
pub record Styles : Type 0 where
  pub style_name : Text
  pub style_offending_value : Text
  pub style_valid_choice : Text
  pub style_suggestion : Text
  pub style_source : Text

-- A kind with a style alone
abbrev pub styled : Option Text → Kind
styled style = record { style = style; quote = []; styled_quotes = false; split = none }

abbrev pub quoted : Text → Text → Bool → Kind
quoted style quote styled_quotes = record {
  style = some style;
  quote = quote;
  styled_quotes = styled_quotes;
  split = none;
}

abbrev pub splitting : Text → Split → Kind
splitting style split = record {
  style = some style;
  quote = [];
  styled_quotes = false;
  split = some split;
}

abbrev pub plain_kind : Kind
plain_kind = styled none

abbrev detail_style : Text
detail_style = codes "bold cyan"

-- `_KINDS`
abbrev pub kinds : Styles → List (Text × Kind)
kinds s =
    ([], plain_kind)
    ∷ (codes "name", styled (some s.style_name))
    ∷ (codes "value", quoted s.style_offending_value (codes "\"") false)
    ∷ (codes "choice", quoted s.style_valid_choice (codes "\"") false)
    ∷ (codes "suggestion", quoted s.style_suggestion (codes "'") true)
    ∷ (codes "target", styled (some s.style_suggestion))
    ∷ (
      codes "path",
      splitting (codes "repr.path") (record {
        separators = codes "/\\";
        last_style = codes "repr.filename";
        separator_style = none;
      }),
    )
    ∷ (codes "detail", styled (some detail_style))
    ∷ (
      codes "endpoint",
      splitting detail_style (record {
        separators = codes ":";
        last_style = codes "cyan";
        separator_style = some (codes "bold white");
      }),
    )
    ∷ (codes "emphasis", styled (some (codes "bold red")))
    ∷ (codes "aside", styled (some s.style_source))
    ∷ []

-- A template: its texts, and its interpolations with their format specs and converted values. A value that is no list is a
-- list of one. A nested item is a template or the message of a `MessageError`.
module _ (V : Type 0) where
  mutual
    pub data Template : Type 0 where
      end : Template
      str : Text → Template → Template
      interpolation : Text → Items → Template → Template

    pub data Items : Type 0 where
      no_items : Items
      value : V → Items → Items
      nested : Template → Items → Items

abbrev pub Piece : Type 0
Piece = Text × Kind

-- The pieces before an error are not used.
abbrev pub both : Option (List Piece) → Option (List Piece) → Option (List Piece)
both none ys = none
both (some xs) ys = option_map (λ rest. xs ++ rest) ys

abbrev pub plain_pieces : List Piece → Text
plain_pieces [] = []
plain_pieces ((text, kind) ∷ pieces) = (kind.quote ++ (text ++ kind.quote)) ++ plain_pieces pieces

module _ (V : Type 0) (format : V → Text → Text) (styles : Styles) where
  -- What stands between two items of an interpolation
  abbrev pub comma : Bool → List Piece
  comma true = []
  comma false = (codes ", ", plain_kind) ∷ []

  -- `_parts` and `_interpolation_parts`, which raise `ValueError` for an unknown kind
  unfoldable mutual
    unfolding find before after

    pub parts : Template V → Kind → Option (List Piece)
    parts end kind = some []
    parts (str s message) kind = both (some ((s, kind) ∷ [])) (parts message kind)
    parts (interpolation format_spec items message) kind =
        both
          (item_parts items (find (before b':' format_spec) (kinds styles)) (after b':' format_spec)
            true)
          (parts message kind)

    pub item_parts : Items V → Option Kind → Text → Bool → Option (List Piece)
    item_parts items none spec first = none
    item_parts no_items (some kind) spec first = some []
    item_parts (value v items) (some kind) spec first =
        both (some (comma first ++ (format v spec, kind) ∷ []))
          (item_parts items (some kind) spec false)
    item_parts (nested message items) (some kind) spec first =
        both (both (some (comma first)) (parts message kind))
          (item_parts items (some kind) spec false)

  -- `plain`
  unfoldable pub plain : Template V → Option Text
  unfolding parts
  plain message = option_map plain_pieces (parts message plain_kind)

-- `part.rfind(separator)`, where -1 is `none`
unfoldable pub rfind : ℕ → Text → Option ℕ
rfind separator [] = none
rfind separator (c ∷ s) = elim (rfind separator s) [
  | none ↦ if c == separator then some zero else none
  | some n ↦ some (suc n)
]

abbrev pub max_index : Option ℕ → Option ℕ → Option ℕ
max_index none n = n
max_index (some m) none = some m
max_index (some m) (some n) = if leb m n then some n else some m

unfoldable pub last_separator : Text → Text → Option ℕ
unfolding rfind
last_separator [] part = none
last_separator (separator ∷ separators) part =
    max_index (rfind separator part) (last_separator separators part)

abbrev pub at_index : Text → Option ℕ → Text × Text × Text
at_index part none = ([], [], part)
at_index part (some at) = (take at part, take 1 (drop at part), drop (suc at) part)

-- The head, the separator and the last part
unfoldable pub split_part : Text → Text → Text × Text × Text
unfolding last_separator
split_part separators part = at_index part (last_separator separators part)

-- Texts with their styles, as `Text.append` takes them
abbrev pub Span : Type 0
Span = Text × Option Text

abbrev pub join_head : Option Text → Text × Text × Text → Option Text → Text → List Span
join_head none (head, separator, last) style last_style =
    (head ++ separator, style) ∷ ([], none) ∷ (last, some last_style) ∷ []
join_head (some separator_style) (head, separator, last) style last_style =
    (head, style) ∷ (separator, some separator_style) ∷ (last, some last_style) ∷ []

abbrev pub unstyled_quotes : Kind → Option Split → Text → List Span
unstyled_quotes kind (some split) part =
    join_head split.separator_style (split_part split.separators part) kind.style split.last_style
unstyled_quotes kind none part = (kind.quote, none) ∷ (part, kind.style) ∷ (kind.quote, none) ∷ []

-- The texts that are appended for a piece, with their styles
abbrev pub appended : Piece → List Span
appended (part, kind) =
    if kind.styled_quotes
    then (kind.quote ++ (part ++ kind.quote), kind.style) ∷ []
    else unstyled_quotes kind kind.split part

-- Rich's `Text.append`, which keeps of a text what `strip_control_codes` leaves of it
module _ (strip_control_codes : Text → Text) where
  abbrev pub append : List Span → List Span
  append [] = []
  append ((text, style) ∷ rest) = (strip_control_codes text, style) ∷ append rest

  unfoldable pub spans : Piece → List Span
  unfolding split_part
  spans piece = append (appended piece)

  unfoldable pub all_spans : List Piece → List Span
  unfolding spans
  all_spans [] = []
  all_spans (piece ∷ pieces) = spans piece ++ all_spans pieces

module _ (strip_control_codes : Text → Text) (V : Type 0) (format : V → Text → Text)
    (styles : Styles) where
  -- `rich_text`
  unfoldable pub rich_text : Template V → Option (List Span)
  unfolding parts all_spans
  rich_text message =
      option_map (all_spans strip_control_codes) (parts V format styles message plain_kind)

-- `duration`, of the rounded seconds
abbrev pub amounts : ℕ → ℕ → ℕ → Text
amounts (suc hours) minutes seconds =
    show (suc hours) ++ (codes " h " ++ (show minutes ++ codes " min"))
amounts zero (suc minutes) seconds =
    show (suc minutes) ++ (codes " min " ++ (show seconds ++ codes " s"))
amounts zero zero seconds = show seconds ++ codes " s"

unfoldable pub duration : ℕ → Text
unfolding show
duration seconds = amounts (seconds / 60 / 60) (seconds / 60 % 60) (seconds % 60)
