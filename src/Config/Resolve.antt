-- ===== src/Config/Resolve.antt =====
-- `resolve_profile` and `reject_stored_password`. Settings are what `model_dump(exclude_unset=True)`
-- returns: the values that are no dict, and the tables, which merge one level deep. A value is
-- left open; none of them is `None`, which TOML cannot write.
pub mod Nearest
use ezhpcy.Prelude.{
  ℕ, ◌≡◌, Bool, true, false, Option, none, some, List, [], ◌∷◌, ◌++◌, String, if◌then◌else◌,
}
use ezhpcy.Prelude.Result.{Result, ok, err, ◌>>=◌}
use ezhpcy.Text.{Text, codes, text_eq}
use ezhpcy.Config.Chain.{ChainError, find, inheritance_chain}

module _ {V : Type 0} where
  -- `d[key] = value`
  unfoldable pub set : Text → V → List (Text × V) → List (Text × V)
  unfolding text_eq
  set key v [] = (key, v) ∷ []
  set key v ((k, old) ∷ rest) = if text_eq key k then (k, v) ∷ rest else (k, old) ∷ set key v rest

  -- `{**old, **new}`
  unfoldable pub update : List (Text × V) → List (Text × V) → List (Text × V)
  unfolding set
  update old [] = old
  update old ((k, v) ∷ rest) = update (set k v old) rest

-- `d.get(key, {})`
abbrev pub or_empty : {A : Type 0} → Option (List A) → List A
or_empty none = []
or_empty (some xs) = xs

pub record Settings (V : Type 0) : Type 0 where
  pub scalars : List (Text × V)
  pub tables : List (Text × List (Text × V))

pub record Profile (V : Type 0) : Type 0 where
  pub inherit : Option Text
  pub values : Settings V

abbrev pub connection : Text
connection = codes "connection"

abbrev pub password : Text
password = codes "password"

-- `f"profile.{name}.connection"`
abbrev pub connection_of : Text → Text
connection_of name = codes "profile." ++ (name ++ codes ".connection")

module _ {V : Type 0} where
  unfoldable pub merge_tables :
      List (Text × List (Text × V)) → List (Text × List (Text × V)) → List (Text × List (Text × V))
  unfolding set update find
  merge_tables old [] = old
  merge_tables old ((t, fields) ∷ rest) =
      merge_tables (set t (update (or_empty (find t old)) fields) old) rest

  -- One round of the loop over the chain.
  unfoldable pub merge : Settings V → Settings V → Settings V
  unfolding update merge_tables
  merge old current = record {
    scalars = update old.scalars current.scalars;
    tables = merge_tables old.tables current.tables;
  }

  -- The loop over `reversed(chain)`; `none` is the `KeyError` of `self.profile[name]`.
  unfoldable pub resolve_chain :
      Settings V → List (Text × Profile V) → List Text → Option (Settings V)
  unfolding merge find
  resolve_chain top profiles [] = some top
  resolve_chain top profiles (name ∷ chain) =
      let rest = resolve_chain top profiles chain in
      elim (find name profiles) [
        | none ↦ none
        | some p ↦ elim rest [ none ↦ none | some values ↦ some (merge values p.values) ]
      ]

  unfoldable pub resolve_profile :
      Settings V → List (Text × Profile V) → Option Text → Option (Result ChainError (Settings V))
  unfolding resolve_chain
  resolve_profile top profiles none = some (ok top)
  resolve_profile top profiles (some name) =
      elim (inheritance_chain (λ p. p.inherit) profiles name) [
        | none ↦ none
        | some (err e) ↦ some (err e)
        | some (ok chain) ↦ elim (resolve_chain top profiles chain) [
          | none ↦ none
          | some values ↦ some (ok values)
        ]
      ]

  -- A field of a table, where it is set.
  unfoldable pub setting : Text → Text → List (Text × List (Text × V)) → Option V
  unfolding find
  setting t key tables = find key (or_empty (find t tables))

  abbrev is_set : Option V → Bool
  is_set none = false
  is_set (some _) = true

  -- The `connection` tables, by their name in the file.
  unfoldable pub connection_tables :
      Settings V → List (Text × Profile V) → List Text → List (Text × Settings V)
  unfolding find
  connection_tables top profiles [] = []
  connection_tables top profiles (name ∷ chain) =
      let rest = connection_tables top profiles chain in
      elim (find name profiles) [ none ↦ rest | some p ↦ (connection_of name, p.values) ∷ rest ]

  -- The table that the error names: the first one that sets a password.
  unfoldable pub stored_password : List (Text × Settings V) → Option Text
  unfolding setting
  stored_password [] = none
  stored_password ((table, values) ∷ rest) =
      if is_set (setting connection password values.tables)
      then some table
      else stored_password rest

  unfoldable pub reject_stored_password :
      Settings V → List (Text × Profile V) → Option Text → Option (Result ChainError (Option Text))
  unfolding stored_password connection_tables
  reject_stored_password top profiles none = some (ok (stored_password ((connection, top) ∷ [])))
  reject_stored_password top profiles (some name) =
      elim (inheritance_chain (λ p. p.inherit) profiles name) [
        | none ↦ none
        | some (err e) ↦ some (err e)
        | some (ok chain) ↦
            some (ok (stored_password ((connection, top) ∷ connection_tables top profiles chain)))
      ]
