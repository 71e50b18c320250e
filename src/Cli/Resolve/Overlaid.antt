-- ===== src/Cli/Resolve/Overlaid.antt =====
-- Options given on the command line stand over the profile's settings.
use ezhpcy.Prelude.{◌≡◌, ◌∙◌, refl, ap, Option, none, some, List, [], ◌∷◌, Bool-cases, inl, inr}
use ezhpcy.Text.{Text, text_eq, text_eq_iff}
use ezhpcy.Config.Chain.{find}
use ezhpcy.Config.Resolve.Nearest.{IsDict, or_else, find-update}
use ezhpcy.Cli.Resolve.{given_options, values_of, with_cli_options}

module _ {V : Type 0} where
  -- The options by their fields' names
  abbrev pub fields : List (Text × Text × Option V) → List (Text × Option V)
  fields [] = []
  fields ((name, flag, value) ∷ options) = (name, value) ∷ fields options

  abbrev pub flatten : Option (Option V) → Option V
  flatten none = none
  flatten (some value) = value

  find-given_options :
      (key : Text) (options : List (Text × Text × Option V))
      → IsDict (fields options)
      → find key (values_of (given_options options)) ≡ flatten (find key (fields options))
  unfolding find given_options IsDict
  find-given_options key [] d = refl
  find-given_options key ((name, flag, some value) ∷ options) (fresh, d) =
      elim (Bool-cases (text_eq key name)) [
        | inl same ↦ rw same refl
        | inr other ↦ rw other (find-given_options key options d)
      ]
  find-given_options key ((name, flag, none) ∷ options) (fresh, d) =
      elim (Bool-cases (text_eq key name)) [
        | inl same ↦ rw same (
            find-given_options key options d
            ∙ ap (λ k. flatten (find k (fields options))) ((text_eq_iff key name).0 same)
            ∙ ap flatten fresh)
        | inr other ↦ rw other (find-given_options key options d)
      ]

  given_options-IsDict :
      (options : List (Text × Text × Option V))
      → IsDict (fields options)
      → IsDict (values_of (given_options options))
  unfolding given_options IsDict
  given_options-IsDict [] d = tt
  given_options-IsDict ((name, flag, none) ∷ options) (fresh, d) = given_options-IsDict options d
  given_options-IsDict ((name, flag, some value) ∷ options) (fresh, d) =
      (find-given_options name options d ∙ ap flatten fresh, given_options-IsDict options d)

  -- A setting has the value of its option, if that is given, and else the profile's, if that has one. No two options are for
  -- the same field.
  pub with_cli_options-nearest :
      (key : Text) (set_fields : List (Text × V)) (options : List (Text × Text × Option V))
      → IsDict (fields options)
      → find key (with_cli_options set_fields options)
        ≡ or_else (flatten (find key (fields options))) (find key set_fields)
  unfolding with_cli_options
  with_cli_options-nearest key set_fields options d =
      find-update key set_fields (values_of (given_options options))
        (given_options-IsDict options d)
      ∙ ap (λ o. or_else o (find key set_fields)) (find-given_options key options d)
