-- ===== src/Config/Resolve/Nearest.antt =====
-- Which value a resolved profile has: that of the profile nearest to it in the chain, and in the
-- end that of the top-level table.
use ezhpcy.Prelude.{
  ◌≡◌, ◌↔◌, ◌∙◌, refl, sym, ap, subst, true, false, Option, none, some, List, [], ◌∷◌, arith,
  Bool-cases, Option-cases, inl, inr, if◌then◌else◌,
}
use ezhpcy.Prelude.Result.{ok}
use ezhpcy.Text.{Text, text_eq, text_eq_iff}
use ezhpcy.Config.Chain.{find}
use ezhpcy.Config.Chain.Lineage.{Lineage, root, heir, inheritance_chain_iff}
use ezhpcy.Config.Resolve.{
  Settings, Profile, set, update, or_empty, merge_tables, merge, resolve_chain, resolve_profile,
  setting, connection, password, connection_of, connection_tables, stored_password,
  reject_stored_password,
}

-- The first of two values that is there.
unfoldable pub or_else : {A : Type 0} → Option A → Option A → Option A
or_else none y = y
or_else (some x) y = some x

module _ {V : Type 0} where
  -- A dict has each key once.
  unfoldable pub IsDict : List (Text × V) → Type 0
  IsDict [] = Unit
  IsDict ((k, _) ∷ rest) = (find k rest ≡ none) × IsDict rest

  find-set :
      (key k : Text) (v : V) (d : List (Text × V))
      → find key (set k v d) ≡ (if text_eq key k then some v else find key d)
  unfolding find set
  find-set key k v [] = refl
  find-set key k v ((k', old) ∷ rest) =
      ground (arith, find-set key k v rest, text_eq_iff key k, text_eq_iff k k', text_eq_iff key k')

  pub find-update :
      (key : Text) (old new : List (Text × V))
      → IsDict new
      → find key (update old new) ≡ or_else (find key new) (find key old)
  unfolding find update IsDict or_else
  find-update key old [] d = refl
  find-update key old ((k, v) ∷ rest) (fresh, d) =
      let ih = find-update key (set k v old) rest d in
      elim (Bool-cases (text_eq key k)) [
        | inl same ↦
            let absent = subst (λ y. find y rest ≡ none) (sym ((text_eq_iff key k).0 same)) fresh in
            rw (ih, absent, find-set key k v old, same)
        | inr other ↦ rw (ih, find-set key k v old, other)
      ]

module _ {V : Type 0} where
  unfoldable pub AreDicts : List (Text × List (Text × V)) → Type 0
  unfolding IsDict
  AreDicts [] = Unit
  AreDicts ((_, fields) ∷ rest) = IsDict fields × AreDicts rest

  -- The tables of a profile are a dict of dicts.
  unfoldable pub IsSettings : Settings V → Type 0
  IsSettings s = IsDict s.tables × AreDicts s.tables

module _ {V : Type 0} (t key : Text) where
  setting-head :
      (t' : Text) (fields : List (Text × V)) (rest : List (Text × List (Text × V)))
      → text_eq t t' ≡ true
      → setting t key ((t', fields) ∷ rest) ≡ find key fields
  unfolding setting find
  setting-head t' fields rest same = rw (same, setting)

  setting-tail :
      (t' : Text) (fields : List (Text × V)) (rest : List (Text × List (Text × V)))
      → text_eq t t' ≡ false
      → setting t key ((t', fields) ∷ rest) ≡ setting t key rest
  unfolding setting find
  setting-tail t' fields rest other = rw (other, setting)

  setting-absent :
      (tables : List (Text × List (Text × V))) → find t tables ≡ none → setting t key tables ≡ none
  unfolding setting find
  setting-absent tables absent = rw (absent, setting)

  setting-set :
      (t' : Text) (fields : List (Text × V)) (tables : List (Text × List (Text × V)))
      → setting t key (set t' fields tables)
        ≡ (if text_eq t t' then find key fields else setting t key tables)
  unfolding setting
  setting-set t' fields tables = elim (Bool-cases (text_eq t t')) [
    | inl same ↦ rw (find-set t t' fields tables, same)
    | inr other ↦ rw (find-set t t' fields tables, other)
  ]

  pub setting-merge_tables :
      (old new : List (Text × List (Text × V)))
      → IsDict new
      → AreDicts new
      → setting t key (merge_tables old new) ≡ or_else (setting t key new) (setting t key old)
  unfolding merge_tables IsDict AreDicts
  setting-merge_tables old [] d fd = unfold or_else setting find in refl
  setting-merge_tables old ((t', fields) ∷ rest) (fresh, d) (one, fd) =
      let merged = update (or_empty (find t' old)) fields in
      let ih = setting-merge_tables (set t' merged old) rest d fd in
      elim (Bool-cases (text_eq t t')) [
        | inl same ↦
            let e : t ≡ t' = (text_eq_iff t t').0 same in
            let absent = setting-absent rest (subst (λ y. find y rest ≡ none) (sym e) fresh) in
            let here = ap (λ y. find key (or_empty (find y old))) (sym e) in
            rw (ih, setting-set t' merged old, same, absent)
              (rw
                (
                  find-update key (or_empty (find t' old)) fields one,
                  setting-head t' fields rest same,
                  here,
                )
                (unfold or_else setting in refl))
        | inr other ↦ rw (ih, setting-set t' merged old, other, setting-tail t' fields rest other)
      ]

  pub setting-merge :
      (old new : Settings V)
      → IsSettings new
      → setting t key (merge old new).tables
        ≡ or_else (setting t key new.tables) (setting t key old.tables)
  unfolding merge IsSettings
  setting-merge old new (d, fd) = setting-merge_tables old.tables new.tables d fd

or_else-eq-none : {A : Type 0} (x y : Option A) → or_else x y ≡ none ↔ (x ≡ none) × (y ≡ none)
unfolding or_else
or_else-eq-none none y = (λ h. (refl, h), λ h. h.1)
or_else-eq-none (some x) y = (λ h. cc, λ h. h.0)

stored_password_cons :
    {V : Type 0} (table : Text) (values : Settings V) (rest : List (Text × Settings V))
    → stored_password ((table, values) ∷ rest) ≡ none
      ↔ (setting connection password values.tables ≡ none) × (stored_password rest ≡ none)
unfolding stored_password
stored_password_cons table values rest =
    elim (Option-cases (setting connection password values.tables)) [
      | inl unset ↦ rw (unset, stored_password) (λ h. (refl, h), λ h. h.1)
      | inr (v, present) ↦ rw (present, stored_password) (λ h. cc, λ h. cc (h.0))
    ]

-- The value that the profile nearest to the head of a chain sets, or else the top-level one.
unfoldable pub nearest :
    {V : Type 0} → Settings V → List (Text × Profile V) → Text → Text → List Text → Option V
nearest top profiles t key [] = setting t key top.tables
nearest top profiles t key (name ∷ chain) = elim (find name profiles) [
  | none ↦ nearest top profiles t key chain
  | some p ↦ or_else (setting t key p.values.tables) (nearest top profiles t key chain)
]

module _ {V : Type 0} (top : Settings V) (profiles : List (Text × Profile V)) where
  unfoldable pub AreSettings : Type 0
  AreSettings = (name : Text) (p : Profile V) → find name profiles ≡ some p → IsSettings p.values

  resolve_chain_step :
      (name : Text) (p : Profile V) (chain : List Text) (values : Settings V)
      → find name profiles ≡ some p
      → resolve_chain top profiles chain ≡ some values
      → resolve_chain top profiles (name ∷ chain) ≡ some (merge values p.values)
  unfolding resolve_chain
  resolve_chain_step name p chain values known e = rw (known, resolve_chain) (rw e refl)

  nearest_step :
      {v : Option V} (t key name : Text) (p : Profile V) (chain : List Text)
      → find name profiles ≡ some p
      → v ≡ nearest top profiles t key chain
      → or_else (setting t key p.values.tables) v ≡ nearest top profiles t key (name ∷ chain)
  unfolding nearest
  nearest_step {v} t key name p chain known e =
      rw (known, nearest) (ap (or_else (setting t key p.values.tables)) e)

  resolve_chain-nearest :
      AreSettings
      → {o : Option Text} {chain : List Text} → Lineage (λ p. p.inherit) profiles o chain
      → (values : Settings V) × (resolve_chain top profiles chain ≡ some values)
        × ((t key : Text) → setting t key values.tables ≡ nearest top profiles t key chain)
  unfolding AreSettings
  resolve_chain-nearest wf root =
      (top, unfold resolve_chain in refl, λ t key. unfold nearest in refl)
  resolve_chain-nearest wf (heir {name} {p} {chain} known l) =
      let (values, e, same) = resolve_chain-nearest wf l in
      (
        merge values p.values,
        resolve_chain_step name p chain values known e,
        λ t key.
            setting-merge t key values p.values (wf name p known)
            ∙ nearest_step t key name p chain known (same t key),
      )

  -- A profile that inherits along `chain` resolves, and each field of each table is then the one that
  -- the first profile of the chain to set it has, or the top-level one where no profile sets it. The
  -- profiles' tables are dicts.
  pub resolve_profile-nearest :
      AreSettings
      → (name : Text) (chain : List Text) → Lineage (λ p. p.inherit) profiles (some name) chain
      → (values : Settings V) × (resolve_profile top profiles (some name) ≡ some (ok values))
        × ((t key : Text) → setting t key values.tables ≡ nearest top profiles t key chain)
  unfolding resolve_profile
  resolve_profile-nearest wf name chain l =
      let (values, e, same) = resolve_chain-nearest wf l in
      let chained = (inheritance_chain_iff (λ p. p.inherit) profiles name chain).1 l in
      (values, rw (chained, resolve_profile) (rw e refl), same)

  connection_tables_step :
      (name : Text) (p : Profile V) (chain : List Text)
      → find name profiles ≡ some p
      → connection_tables top profiles (name ∷ chain)
        ≡ (connection_of name, p.values) ∷ connection_tables top profiles chain
  unfolding connection_tables
  connection_tables_step name p chain known = rw (known, connection_tables)

  stored_password-nearest :
      {o : Option Text} {chain : List Text}
      → Lineage (λ p. p.inherit) profiles o chain
      → (setting connection password top.tables ≡ none)
          × (stored_password (connection_tables top profiles chain) ≡ none)
        ↔ (nearest top profiles connection password chain ≡ none)
  stored_password-nearest root = (
    λ h. unfold nearest in h.0,
    λ h. (unfold nearest in h, unfold connection_tables stored_password in refl),
  )
  stored_password-nearest (heir {name} {p} {chain} known l) =
      let (there, back) = stored_password-nearest l in
      let tables = connection_tables_step name p chain known in
      let (open_first, close_first) =
        stored_password_cons (connection_of name) p.values (connection_tables top profiles chain) in
      let (split, join) =
        or_else-eq-none (setting connection password p.values.tables)
          (nearest top profiles connection password chain) in
      let step = nearest_step connection password name p chain known refl in
      (
        λ h.
            sym step
            ∙ join (
              (open_first (sym (ap stored_password tables) ∙ h.1)).0,
              there (h.0, (open_first (sym (ap stored_password tables) ∙ h.1)).1),
            ),
        λ h.
            (let parts = split (step ∙ h) in
              (
                (back (parts.1)).0,
                ap stored_password tables ∙ close_first (parts.0, (back (parts.1)).1),
              )),
      )

  reject_stored_password-chain :
      (name : Text) (chain : List Text)
      → Lineage (λ p. p.inherit) profiles (some name) chain
      → reject_stored_password top profiles (some name)
        ≡ some (ok (stored_password ((connection, top) ∷ connection_tables top profiles chain)))
  unfolding reject_stored_password
  reject_stored_password-chain name chain l =
      rw ((inheritance_chain_iff (λ p. p.inherit) profiles name chain).1 l, reject_stored_password)
        refl

  -- For a profile that inherits along `chain` and resolves to `values`: no stored password is reported
  -- exactly when `values` has none. The profiles' tables are dicts.
  pub reject_stored_password-resolved :
      AreSettings
      → (name : Text) (chain : List Text) → Lineage (λ p. p.inherit) profiles (some name) chain
      → (values : Settings V) → resolve_profile top profiles (some name) ≡ some (ok values)
      → reject_stored_password top profiles (some name) ≡ some (ok none)
        ↔ (setting connection password values.tables ≡ none)
  reject_stored_password-resolved wf name chain l values resolved =
      let (values', e, nearest_of) = resolve_profile-nearest wf name chain l in
      let same : values' ≡ values = cc (e, resolved) in
      let here =
        sym (ap (λ v. setting connection password v.tables) same)
        ∙ nearest_of connection password in
      let rejected = reject_stored_password-chain name chain l in
      let (there, back) = stored_password-nearest l in
      let (open_top, close_top) =
        stored_password_cons connection top (connection_tables top profiles chain) in
      (
        λ h. here ∙ there (open_top (cc (rejected, h))),
        λ h. cc (rejected, close_top (back (sym here ∙ h))),
      )
