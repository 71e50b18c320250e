-- ===== src/Messages/Plain.antt =====
-- The styled text of a message reads as its plain text without control codes.
use ezhpcy.Prelude.{
  ℕ, zero, suc, ◌≡◌, ◌∙◌, refl, sym, ap, Bool, true, false, Option, none, some, List, [], ◌∷◌, ◌++◌,
  append-nil, append_assoc, take, drop, All, All-append, option_map, Bool-cases, inl, inr,
}
use mathlib.Core.List.{append_cancel_right}
use ezhpcy.Text.{Text, text_eq, before, after}
use ezhpcy.Config.Chain.{find}
use ezhpcy.Messages.{
  Split, Kind, Styles, kinds, plain_kind, Template, end, str, interpolation, Items, no_items, value,
  nested, Piece, both, comma, parts, item_parts, plain_pieces, plain, at_index, split_part,
  last_separator, Span, join_head, unstyled_quotes, appended, append, spans, all_spans, rich_text,
}

-- The text of a styled text
abbrev pub texts : List Span → Text
texts [] = []
texts ((text, style) ∷ rest) = text ++ texts rest

texts-append : (xs ys : List Span) → texts (xs ++ ys) ≡ texts xs ++ texts ys
texts-append [] ys = refl
texts-append ((text, style) ∷ xs) ys =
    ap (λ r. text ++ r) (texts-append xs ys) ∙ sym (append_assoc text (texts xs) (texts ys))

take-drop : (n : ℕ) (s : Text) → take n s ++ (take 1 (drop n s) ++ drop (suc n) s) ≡ s
take-drop zero [] = refl
take-drop zero (c ∷ s) = refl
take-drop (suc n) [] = refl
take-drop (suc n) (c ∷ s) = ap (λ r. c ∷ r) (take-drop n s)

abbrev joined : Text × Text × Text → Text
joined (head, separator, last) = head ++ (separator ++ last)

at_index-joined : (part : Text) (at : Option ℕ) → joined (at_index part at) ≡ part
at_index-joined part none = refl
at_index-joined part (some n) = take-drop n part

-- A kind that is split has no quotes.
abbrev QuotesNothing : Option Split → Text → Type 0
QuotesNothing none quote = Unit
QuotesNothing (some split) quote = quote ≡ []

abbrev IsGood : Kind → Type 0
IsGood kind = QuotesNothing kind.split kind.quote

abbrev AreGood : Option (List Piece) → Type 0
AreGood none = Unit
AreGood (some pieces) = All (λ (p : Piece). IsGood p.1) pieces

abbrev FoundGood : Option Kind → Type 0
FoundGood none = Unit
FoundGood (some kind) = IsGood kind

find-Good :
    (name : Text) (table : List (Text × Kind))
    → All (λ (e : Text × Kind). IsGood e.1) table
    → FoundGood (find name table)
unfolding find
find-Good name [] h = tt
find-Good name ((key, kind) ∷ table) (h, hs) = elim (Bool-cases (text_eq name key)) [
  | inl same ↦ rw same h
  | inr other ↦ rw other (find-Good name table hs)
]

both-Good : (xs ys : Option (List Piece)) → AreGood xs → AreGood ys → AreGood (both xs ys)
both-Good none ys h k = tt
both-Good (some xs) none h k = tt
both-Good (some xs) (some ys) h k = All-append (λ (p : Piece). IsGood p.1) xs ys h k

module _ (V : Type 0) (format : V → Text → Text) (styles : Styles) where
  comma-Good : (first : Bool) → All (λ (p : Piece). IsGood p.1) (comma V format styles first)
  comma-Good true = tt
  comma-Good false = (tt, tt)

  kinds-Good : All (λ (e : Text × Kind). IsGood e.1) (kinds styles)
  kinds-Good = (tt, (tt, (tt, (tt, (tt, (tt, (refl, (tt, (refl, (tt, (tt, tt)))))))))))

  mutual
    unfolding parts

    parts-Good :
        (message : Template V) (kind : Kind)
        → IsGood kind
        → AreGood (parts V format styles message kind)
    parts-Good end kind h = tt
    parts-Good (str s message) kind h =
        both-Good (some ((s, kind) ∷ [])) (parts V format styles message kind) (h, tt)
          (parts-Good message kind h)
    parts-Good (interpolation format_spec items message) kind h =
        let found = find (before b':' format_spec) (kinds styles) in
        both-Good (item_parts V format styles items found (after b':' format_spec) true)
          (parts V format styles message kind)
          (item_parts-Good items found (after b':' format_spec) true
            (find-Good (before b':' format_spec) (kinds styles) kinds-Good))
          (parts-Good message kind h)

    item_parts-Good :
        (items : Items V) (kind : Option Kind) (spec : Text) (first : Bool)
        → FoundGood kind
        → AreGood (item_parts V format styles items kind spec first)
    item_parts-Good items none spec first h = tt
    item_parts-Good no_items (some kind) spec first h = tt
    item_parts-Good (value v items) (some kind) spec first h =
        both-Good (some (comma V format styles first ++ (format v spec, kind) ∷ []))
          (item_parts V format styles items (some kind) spec false)
          (All-append (λ (p : Piece). IsGood p.1) (comma V format styles first)
            ((format v spec, kind) ∷ []) (comma-Good first) (h, tt))
          (item_parts-Good items (some kind) spec false h)
    item_parts-Good (nested message items) (some kind) spec first h =
        both-Good (both (some (comma V format styles first)) (parts V format styles message kind))
          (item_parts V format styles items (some kind) spec false)
          (both-Good (some (comma V format styles first)) (parts V format styles message kind)
            (comma-Good first) (parts-Good message kind h))
          (item_parts-Good items (some kind) spec false h)

join_head-texts :
    (style : Option Text) (part : Text × Text × Text) (head_style : Option Text) (last_style : Text)
    → texts (join_head style part head_style last_style) ≡ joined part
join_head-texts none (head, separator, last) head_style last_style =
    ap (λ r. (head ++ separator) ++ r) (append-nil last) ∙ append_assoc head separator last
join_head-texts (some style) (head, separator, last) head_style last_style =
    ap (λ r. head ++ (separator ++ r)) (append-nil last)

split_joined : (separators part : Text) → joined (split_part separators part) ≡ part
unfolding split_part
split_joined separators part = at_index-joined part (last_separator separators part)

unstyled_quotes-texts :
    (kind : Kind) (split : Option Split) (part : Text)
    → QuotesNothing split kind.quote
    → texts (unstyled_quotes kind split part) ≡ kind.quote ++ (part ++ kind.quote)
unstyled_quotes-texts kind none part h = ap (λ r. kind.quote ++ (part ++ r)) (append-nil kind.quote)
unstyled_quotes-texts kind (some split) part h =
    join_head-texts split.separator_style (split_part split.separators part) kind.style
      split.last_style
    ∙ split_joined split.separators part
    ∙ sym (append-nil part)
    ∙ ap (λ q. q ++ (part ++ q)) (sym h)

appended-texts :
    (part : Text) (kind : Kind)
    → IsGood kind
    → texts (appended (part, kind)) ≡ kind.quote ++ (part ++ kind.quote)
appended-texts part kind h = elim (Bool-cases kind.styled_quotes) [
  | inl styled ↦ rw styled (append-nil (kind.quote ++ (part ++ kind.quote)))
  | inr unstyled ↦ rw unstyled (unstyled_quotes-texts kind kind.split part h)
]

-- Control codes are removed from a text wherever they stand in it.
module _ (strip : Text → Text) (apart : (s t : Text) → strip (s ++ t) ≡ strip s ++ strip t) where
  stripped : strip [] ≡ []
  stripped = append_cancel_right (strip []) [] (strip []) (sym (apart [] []))

  append-texts : (xs : List Span) → texts (append strip xs) ≡ strip (texts xs)
  append-texts [] = sym stripped
  append-texts ((text, style) ∷ xs) =
      ap (λ r. strip text ++ r) (append-texts xs) ∙ sym (apart text (texts xs))

  spans-texts :
      (part : Text) (kind : Kind)
      → IsGood kind
      → texts (spans strip (part, kind)) ≡ strip (kind.quote ++ (part ++ kind.quote))
  unfolding spans
  spans-texts part kind h =
      append-texts (appended (part, kind)) ∙ ap strip (appended-texts part kind h)

  all_spans-texts :
      (pieces : List Piece)
      → All (λ (p : Piece). IsGood p.1) pieces
      → texts (all_spans strip pieces) ≡ strip (plain_pieces pieces)
  unfolding all_spans
  all_spans-texts [] h = sym stripped
  all_spans-texts ((part, kind) ∷ pieces) (h, hs) =
      texts-append (spans strip (part, kind)) (all_spans strip pieces)
      ∙ ap (λ r. r ++ texts (all_spans strip pieces)) (spans-texts part kind h)
      ∙ ap (λ r. strip (kind.quote ++ (part ++ kind.quote)) ++ r) (all_spans-texts pieces hs)
      ∙ sym (apart (kind.quote ++ (part ++ kind.quote)) (plain_pieces pieces))

  map-texts :
      (pieces : Option (List Piece))
      → AreGood pieces
      → option_map texts (option_map (all_spans strip) pieces)
        ≡ option_map strip (option_map plain_pieces pieces)
  map-texts none h = refl
  map-texts (some pieces) h = ap some (all_spans-texts pieces h)

-- The styled text of a message, without its styles, is its plain text without the control codes, and the one is refused exactly
-- if the other is. The styles and the format of values are arbitrary. Rich removes control codes from each text that is appended;
-- all that is assumed of this is that it can be done in two parts of a text apart.
pub rich_text-plain :
    (strip_control_codes : Text → Text)
    (apart : (s t : Text)
      → strip_control_codes (s ++ t) ≡ strip_control_codes s ++ strip_control_codes t)
    (V : Type 0) (format : V → Text → Text) (styles : Styles) (message : Template V)
    → option_map texts (rich_text strip_control_codes V format styles message)
      ≡ option_map strip_control_codes (plain V format styles message)
unfolding rich_text plain
rich_text-plain strip_control_codes apart V format styles message =
    map-texts strip_control_codes apart (parts V format styles message plain_kind)
      (parts-Good V format styles message plain_kind tt)
