-- ===== src/Config/Chain/Termination.antt =====
-- The loop ends: each round visits a profile that was not visited before.
use ezhpcy.Prelude.{
  ℕ, zero, suc, ◌+◌, ◌<◌, ◌≤◌, ◌≡◌, ◌∙◌, refl, true, false, Option, none, some, List, [], ◌∷◌, ◌++◌,
  length, arith, Bool-cases, Option-cases, inl, inr, if◌then◌else◌, ◌||◌,
}
use ezhpcy.Prelude.Result.{Result, ok, err}
use ezhpcy.Text.{Text, text_eq, text_eq_iff, member}
use ezhpcy.Config.Chain.{
  ChainError, unknown_profile, cycle, unknown_parent, last, find, walk, inheritance_chain,
}

pub member-append :
    (x y : Text) (chain : List Text) → member x (chain ++ y ∷ []) ≡ (member x chain || text_eq x y)
unfolding member
member-append x y [] = ground arith
member-append x y (z ∷ chain) = ground (arith, member-append x y chain)

module _ {P : Type 0} where
  -- How many profiles the chain has not visited.
  unvisited : List (Text × P) → List Text → ℕ
  unvisited [] chain = 0
  unvisited ((k, _) ∷ rest) chain = (if member k chain then 0 else 1) + unvisited rest chain

  unvisited-le-length :
      (profiles : List (Text × P)) (chain : List Text) → unvisited profiles chain ≤ length profiles
  unfolding unvisited
  unvisited-le-length [] chain = omega arith
  unvisited-le-length ((k, _) ∷ rest) chain = ground (arith, unvisited-le-length rest chain)

  unvisited-append-le :
      (profiles : List (Text × P)) (chain : List Text) (name : Text)
      → unvisited profiles (chain ++ name ∷ []) ≤ unvisited profiles chain
  unfolding unvisited
  unvisited-append-le [] chain name = omega arith
  unvisited-append-le ((k, _) ∷ rest) chain name =
      ground (arith, member-append k name chain, unvisited-append-le rest chain name)

  unvisited-append-lt :
      (profiles : List (Text × P)) (chain : List Text) (name : Text) (p : P)
      → find name profiles ≡ some p
      → member name chain ≡ false
      → unvisited profiles (chain ++ name ∷ []) < unvisited profiles chain
  unfolding unvisited find
  unvisited-append-lt [] chain name p h m = cc
  unvisited-append-lt ((k, _) ∷ rest) chain name p h m = ground (
    arith,
    text_eq_iff name k,
    text_eq_iff k name,
    member-append k name chain,
    unvisited-append-le rest chain name,
    unvisited-append-lt rest chain name p,
  )

module _ {P : Type 0} (inherit : P → Option Text) (profiles : List (Text × P)) where
  -- One round, on each of its branches.
  pub walk_cycle :
      (fuel : ℕ) (chain : List Text) (name : Text)
      → member name chain ≡ true
      → walk inherit profiles (suc fuel) chain (some name) ≡ some (err (cycle (chain ++ name ∷ [])))
  unfolding walk
  walk_cycle fuel chain name seen = rw (seen, walk)

  pub walk_unknown :
      (fuel : ℕ) (chain : List Text) (name : Text)
      → member name chain ≡ false
      → find name profiles ≡ none
      → walk inherit profiles (suc fuel) chain (some name)
        ≡ some (err (unknown_parent (last chain) name))
  unfolding walk
  walk_unknown fuel chain name unseen absent = rw (unseen, walk) (rw (absent, walk))

  pub walk_step :
      (fuel : ℕ) (chain : List Text) (name : Text) (p : P)
      → member name chain ≡ false
      → find name profiles ≡ some p
      → walk inherit profiles (suc fuel) chain (some name)
        ≡ walk inherit profiles fuel (chain ++ name ∷ []) (inherit p)
  unfolding walk
  walk_step fuel chain name p unseen present = rw (unseen, walk) (rw (present, walk))

  walk_total :
      (fuel : ℕ) (chain : List Text) (o : Option Text)
      → unvisited profiles chain < fuel
      → (r : Result ChainError (List Text)) × (walk inherit profiles fuel chain o ≡ some r)
  walk_total fuel chain none h = (ok chain, unfold walk in refl)
  walk_total zero chain (some name) h = absurd (omega arith)
  walk_total (suc fuel) chain (some name) h = elim (Bool-cases (member name chain)) [
    | inl seen ↦ (err (cycle (chain ++ name ∷ [])), walk_cycle fuel chain name seen)
    | inr unseen ↦ elim (Option-cases (find name profiles)) [
      | inl absent ↦
          (err (unknown_parent (last chain) name), walk_unknown fuel chain name unseen absent)
      | inr (p, present) ↦
          let less = unvisited-append-lt profiles chain name p present unseen in
          let (r, e) = walk_total fuel (chain ++ name ∷ []) (inherit p) (omega (arith, less)) in
          (r, walk_step fuel chain name p unseen present ∙ e)
    ]
  ]

  pub inheritance_chain_known :
      (name : Text) (p : P)
      → find name profiles ≡ some p
      → inheritance_chain inherit profiles name
        ≡ walk inherit profiles (length profiles + 1) [] (some name)
  unfolding inheritance_chain
  inheritance_chain_known name p present = rw (present, inheritance_chain)

  pub inheritance_chain_unknown :
      (name : Text)
      → find name profiles ≡ none
      → inheritance_chain inherit profiles name ≡ some (err (unknown_profile name))
  unfolding inheritance_chain
  inheritance_chain_unknown name absent = rw (absent, inheritance_chain)

  -- The loop never runs out of fuel: every chain is followed to its end, to a cycle, or to a name
  -- that no profile has.
  pub inheritance_chain_total :
      (name : Text)
      → (r : Result ChainError (List Text)) × (inheritance_chain inherit profiles name ≡ some r)
  inheritance_chain_total name = elim (Option-cases (find name profiles)) [
    | inl absent ↦ (err (unknown_profile name), inheritance_chain_unknown name absent)
    | inr (p, present) ↦
        let (r, e) =
          walk_total (length profiles + 1) [] (some name)
            (omega (arith, unvisited-le-length profiles [])) in
        (r, inheritance_chain_known name p present ∙ e)
  ]
