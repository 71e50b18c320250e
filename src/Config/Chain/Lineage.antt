-- ===== src/Config/Chain/Lineage.antt =====
-- What a chain is: the profiles that a profile inherits from, nearest first.
use ezhpcy.Prelude.{
  ℕ, zero, suc, ◌+◌, ◌≤◌, ◌≡◌, ◌↔◌, ◌∙◌, refl, sym, ap, subst, true, false, Option, none, some,
  List, [], ◌∷◌, ◌++◌, length, arith, Bool-cases, Option-cases, inl, inr, append_assoc, append-nil,
}
use ezhpcy.Prelude.Result.{Result, ok}
use ezhpcy.Text.{Text, text_eq, text_eq_iff, member}
use ezhpcy.Config.Chain.{ChainError, find, walk, inheritance_chain}
use ezhpcy.Config.Chain.Termination.{
  member-append, walk_cycle, walk_unknown, walk_step, inheritance_chain_known,
  inheritance_chain_unknown, inheritance_chain_total,
}

apart-head :
    (name : Text) (chain rest : List Text)
    → ((x : Text) → member x chain ≡ true → member x (name ∷ rest) ≡ false)
    → member name chain ≡ false
unfolding member
apart-head name chain rest apart = elim (Bool-cases (member name chain)) [
  | inl seen ↦ ground (arith, apart name seen, (text_eq_iff name name).1 refl)
  | inr unseen ↦ unseen
]

apart-append :
    (name : Text) (chain rest : List Text)
    → member name rest ≡ false
    → ((x : Text) → member x chain ≡ true → member x (name ∷ rest) ≡ false)
    → (x : Text) → member x (chain ++ name ∷ []) ≡ true
    → member x rest ≡ false
unfolding member
apart-append name chain rest fresh apart x h = elim (Bool-cases (member x chain)) [
  | inl seen ↦ ground (arith, apart x seen)
  | inr unseen ↦
      let same : text_eq x name ≡ true = ground (arith, member-append x name chain, h) in
      subst (λ y. member y rest ≡ false) (sym ((text_eq_iff x name).0 same)) fresh
]

module _ {P : Type 0} (inherit : P → Option Text) (profiles : List (Text × P)) where
  -- From a name, or from the absence of one.
  pub data Lineage : Option Text → List Text → Type 0 where
    root : Lineage none []
    heir :
        {name : Text} {p : P} {chain : List Text}
        → find name profiles ≡ some p
        → Lineage (inherit p) chain
        → Lineage (some name) (name ∷ chain)

  walk_sound :
      (fuel : ℕ) (chain out : List Text) (o : Option Text)
      → walk inherit profiles fuel chain o ≡ some (ok out)
      → (rest : List Text) × (out ≡ chain ++ rest) × Lineage o rest
  unfolding walk
  walk_sound zero chain out none h = ([], cc (append-nil chain), root)
  walk_sound (suc fuel) chain out none h = ([], cc (append-nil chain), root)
  walk_sound zero chain out (some name) h = cc
  walk_sound (suc fuel) chain out (some name) h = elim (Bool-cases (member name chain)) [
    | inl seen ↦ cc (walk_cycle inherit profiles fuel chain name seen, h)
    | inr unseen ↦ elim (Option-cases (find name profiles)) [
      | inl absent ↦ cc (walk_unknown inherit profiles fuel chain name unseen absent, h)
      | inr (p, present) ↦
          let step = walk_step inherit profiles fuel chain name p unseen present in
          let (rest, e, l) = walk_sound fuel (chain ++ name ∷ []) out (inherit p) (sym step ∙ h) in
          (name ∷ rest, e ∙ append_assoc chain (name ∷ []) rest, heir present l)
    ]
  ]

  -- A name has one lineage at most.
  Lineage-unique : {o : Option Text} {l l' : List Text} → Lineage o l → Lineage o l' → l ≡ l'
  Lineage-unique root root = refl
  Lineage-unique (heir {name} {p} {chain = l} h t) (heir {p = p'} {chain = l'} h' t') =
      let same : p' ≡ p = cc in
      ap (λ c. name ∷ c) (Lineage-unique t (subst (λ q. Lineage (inherit q) l') same t'))

  -- The lineage of a name in a lineage is a part of it.
  Lineage-suffix :
      (x : Text) {o : Option Text} {l : List Text}
      → Lineage o l
      → member x l ≡ true
      → (l' : List Text) × Lineage (some x) l' × (length l' ≤ length l)
  Lineage-suffix x root m = unfold member in cc
  Lineage-suffix x (heir {name} {p} {chain} h t) m = elim (Bool-cases (text_eq x name)) [
    | inl same ↦ (
      name ∷ chain,
      subst (λ y. Lineage (some y) (name ∷ chain)) (sym ((text_eq_iff x name).0 same)) (heir h t),
      omega arith,
    )
    | inr other ↦
        let (l', t', short) = Lineage-suffix x t (unfold member in ground arith) in
        (l', t', omega arith)
  ]

  Lineage-fresh :
      (name : Text) (p : P) (chain : List Text)
      → find name profiles ≡ some p
      → Lineage (inherit p) chain
      → member name chain ≡ false
  Lineage-fresh name p chain h t = elim (Bool-cases (member name chain)) [
    | inl m ↦
        let (l', t', short) = Lineage-suffix name t m in
        absurd (omega (arith, ap length (Lineage-unique t' (heir h t))))
    | inr fresh ↦ fresh
  ]

  head_known :
      (name : Text) (chain : List Text)
      → Lineage (some name) chain
      → (p : P) × (find name profiles ≡ some p)
  head_known name _ (heir {p} f t) = (p, f)

  walk_complete :
      (fuel : ℕ) (chain rest : List Text) (o : Option Text) (r : Result ChainError (List Text))
      → Lineage o rest
      → ((x : Text) → member x chain ≡ true → member x rest ≡ false)
      → walk inherit profiles fuel chain o ≡ some r
      → r ≡ ok (chain ++ rest)
  unfolding walk
  walk_complete zero chain [] none r root apart h = cc (append-nil chain)
  walk_complete (suc fuel) chain [] none r root apart h = cc (append-nil chain)
  walk_complete fuel chain (_ ∷ _) none r x apart h = elim x [ ]
  walk_complete zero chain _ (some name) r (heir {p} {chain = rest} f t) apart h = cc
  walk_complete (suc fuel) chain _ (some name) r (heir {p} {chain = rest} f t) apart h =
      walk_complete fuel (chain ++ name ∷ []) rest (inherit p) r t
        (apart-append name chain rest (Lineage-fresh name p rest f t) apart)
        (sym (walk_step inherit profiles fuel chain name p (apart-head name chain rest apart) f)
          ∙ h)
      ∙ ap ok (append_assoc chain (name ∷ []) rest)

  -- The chain is what follows from the profiles' entries, and there is one when the entries lead to a
  -- profile that inherits nothing: it fails on a cycle and on an unknown name alone.
  pub inheritance_chain_iff :
      (name : Text) (chain : List Text)
      → inheritance_chain inherit profiles name ≡ some (ok chain) ↔ Lineage (some name) chain
  inheritance_chain_iff name chain = (forward, backward)
    where
      start : ℕ
      start = length profiles + 1

      forward :
          inheritance_chain inherit profiles name ≡ some (ok chain) → Lineage (some name) chain
      forward h = elim (Option-cases (find name profiles)) [
        | inl absent ↦ cc (inheritance_chain_unknown inherit profiles name absent, h)
        | inr (p, present) ↦
            let (rest, e, l) =
              walk_sound start [] chain (some name)
                (sym (inheritance_chain_known inherit profiles name p present) ∙ h) in
            subst (λ c. Lineage (some name) c) (sym e) l
      ]

      backward :
          Lineage (some name) chain → inheritance_chain inherit profiles name ≡ some (ok chain)
      backward l =
          let (r, e) = inheritance_chain_total inherit profiles name in
          let (p, present) = head_known name chain l in
          let known = inheritance_chain_known inherit profiles name p present in
          let answer =
            walk_complete start [] chain (some name) r l (λ x m. unfold member in cc)
              (sym known ∙ e) in
          e ∙ ap some answer
