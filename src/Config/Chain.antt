-- ===== src/Config/Chain.antt =====
-- `inheritance_chain`: a profile, then the profile it inherits, and so on. Profiles are the values of
-- a dict; what they hold besides the name that they inherit is left open.
pub mod Lineage
pub mod Termination
use ezhpcy.Prelude.{
  ℕ, zero, suc, ◌+◌, Bool, true, false, Option, none, some, List, [], ◌∷◌, ◌++◌, length,
  if◌then◌else◌,
}
use ezhpcy.Prelude.Result.{Result, ok, err}
use ezhpcy.Text.{Text, text_eq, member}

pub data ChainError : Type 0 where
  unknown_profile : Text → ChainError
  cycle : List Text → ChainError
  unknown_parent : Option Text → Text → ChainError

module _ {V : Type 0} where
  -- `d.get(key)`
  unfoldable pub find : Text → List (Text × V) → Option V
  unfolding text_eq
  find key [] = none
  find key ((k, v) ∷ rest) = if text_eq key k then some v else find key rest

-- `chain[-1]`
abbrev pub last : List Text → Option Text
last [] = none
last (x ∷ []) = some x
last (x ∷ y ∷ xs) = last (y ∷ xs)

module _ {P : Type 0} (inherit : P → Option Text) (profiles : List (Text × P)) where
  -- The loop; the outer `none` says that the fuel ran out.
  unfoldable pub walk : ℕ → List Text → Option Text → Option (Result ChainError (List Text))
  walk fuel chain none = some (ok chain)
  walk zero chain (some name) = none
  walk (suc fuel) chain (some name) = elim (member name chain) [
    | true ↦ some (err (cycle (chain ++ name ∷ [])))
    | false ↦ elim (find name profiles) [
      | none ↦ some (err (unknown_parent (last chain) name))
      | some p ↦ walk fuel (chain ++ name ∷ []) (inherit p)
    ]
  ]

  -- One round for each profile, and one that finds a cycle or an unknown name.
  unfoldable pub inheritance_chain : Text → Option (Result ChainError (List Text))
  unfolding walk find member
  inheritance_chain name = elim (find name profiles) [
    | none ↦ some (err (unknown_profile name))
    | some _ ↦ walk (length profiles + 1) [] (some name)
  ]
