-- ===== src/Cli/Submission/Options.antt =====
-- The submission options that a profile's settings set, described by their tables.
use ezhpcy.Prelude.{
  ◌≡◌, ◌↔◌, ◌⊎◌, ◌∙◌, refl, sym, subst, Bool, true, false, Option, none, some, List, [], ◌∷◌, ◌++◌,
  Option-cases, inl, inr, if◌then◌else◌,
}
use ezhpcy.Text.{Text, codes}
use ezhpcy.Config.Chain.{find}
use ezhpcy.Config.Resolve.{Settings, Profile, or_empty}
use ezhpcy.Cli.Submission.{
  option_names, section_options, submission_options, options_of, values_of_profile, own_profile,
}
use ezhpcy.Cli.Submission.Sorted.{In}

-- A table of submission options: the resources, and for LSF its own settings
abbrev pub IsSection : Bool → Text → Type 0
IsSection is_lsf section =
    (section ≡ codes "resources") ⊎ ((section ≡ codes "lsf") × (is_lsf ≡ true))

In-append : (x : Text) (xs ys : List Text) → In x (xs ++ ys) ↔ (In x xs ⊎ In x ys)
In-append x [] ys = ((λ h. inr h), right)
  where
    right : In x [] ⊎ In x ys → In x ys
    right (inl h) = elim h [ ]
    right (inr h) = h
In-append x (z ∷ xs) ys = let (to, fro) = In-append x xs ys in (forward to, backward fro)
  where
    forward :
        (In x (xs ++ ys) → In x xs ⊎ In x ys) → (x ≡ z) ⊎ In x (xs ++ ys) → In x (z ∷ xs) ⊎ In x ys
    forward f (inl e) = inl (inl e)
    forward f (inr h) = elim (f h) [ inl a ↦ inl (inr a) | inr b ↦ inr b ]

    backward :
        (In x xs ⊎ In x ys → In x (xs ++ ys)) → In x (z ∷ xs) ⊎ In x ys → In x (z ∷ (xs ++ ys))
    backward f (inl (inl e)) = inl e
    backward f (inl (inr h)) = inr (f (inl h))
    backward f (inr h) = inr (f (inr h))

module _ {V : Type 0} where
  abbrev pub HasField : Text → List (Text × V) → Type 0
  HasField field [] = ⊥
  HasField field ((key, value) ∷ fields) = (field ≡ key) ⊎ HasField field fields

  -- The option `section.field` is set in a table of submission options.
  abbrev pub Sets : Bool → Settings V → Text → Type 0
  Sets is_lsf settings option =
      (section : Text) × (field : Text) × (fields : List (Text × V)) × IsSection is_lsf section
      × (find section settings.tables ≡ some fields)
      × HasField field fields
      × (option ≡ section ++ b'.' ∷ field)

  named_In :
      (section option : Text) (fields : List (Text × V))
      → In option (option_names section fields)
        ↔ ((field : Text) × HasField field fields × (option ≡ section ++ b'.' ∷ field))
  named_In section option [] = ((λ h. elim h [ ]), (λ (field, h, e). elim h [ ]))
  named_In section option ((key, value) ∷ fields) =
      let (to, fro) = named_In section option fields in (forward to, backward fro)
    where
      forward :
          (In option (option_names section fields)
            → (field : Text) × HasField field fields × (option ≡ section ++ b'.' ∷ field))
          → In option (option_names section ((key, value) ∷ fields))
          → (field : Text) × HasField field ((key, value) ∷ fields)
            × (option ≡ section ++ b'.' ∷ field)
      forward f (inl e) = (key, inl refl, e)
      forward f (inr h) = let (field, has, e) = f h in (field, inr has, e)

      backward :
          ((field : Text) × HasField field fields × (option ≡ section ++ b'.' ∷ field)
            → In option (option_names section fields))
          → (field : Text) × HasField field ((key, value) ∷ fields)
            × (option ≡ section ++ b'.' ∷ field)
          → In option (option_names section ((key, value) ∷ fields))
      backward f (field, inl same, e) = inl (cc)
      backward f (field, inr has, e) = inr (f (field, has, e))

  InSection : Text → Settings V → Text → Type 0
  InSection section settings option =
      (field : Text) × (fields : List (Text × V)) × (find section settings.tables ≡ some fields)
      × HasField field fields
      × (option ≡ section ++ b'.' ∷ field)

  section_In :
      (section option : Text) (settings : Settings V)
      → In option (section_options section settings) ↔ InSection section settings option
  unfolding InSection
  section_In section option settings = elim (Option-cases (find section settings.tables)) [
    | inl absent ↦
        ((λ h. elim (rw (absent, or_empty) at h) [ ]), (λ (field, fields, found, has, e). cc))
    | inr (fields, found) ↦
        let (to, fro) = named_In section option fields in
        (
          (λ h. let (field, has, e) = to (rw found at h) in (field, fields, found, has, e)),
          (λ (field, others, found', has, e).
              rw found
                (fro (field, subst (HasField field) (some_injective (sym found' ∙ found)) has, e))),
        )
  ]
    where
      some_injective : {a b : List (Text × V)} → some a ≡ some b → a ≡ b
      some_injective h = cc

  lsf_In :
      (is_lsf : Bool) (option : Text) (settings : Settings V)
      → In option (if is_lsf then section_options (codes "lsf") settings else [])
        ↔ ((is_lsf ≡ true) × InSection (codes "lsf") settings option)
  lsf_In true option settings =
      let (to, fro) = section_In (codes "lsf") option settings in
      ((λ h. (refl, to h)), (λ (_, h). fro h))
  lsf_In false option settings = ((λ h. elim h [ ]), (λ (e, h). cc))

  pub submission_In :
      (is_lsf : Bool) (option : Text) (settings : Settings V)
      → In option (submission_options is_lsf settings) ↔ Sets is_lsf settings option
  unfolding submission_options InSection
  submission_In is_lsf option settings =
      let resources = section_options (codes "resources") settings in
      let lsf = if is_lsf then section_options (codes "lsf") settings else [] in
      let (split, join) = In-append option resources lsf in
      let (to, fro) = section_In (codes "resources") option settings in
      let (to_lsf, fro_lsf) = lsf_In is_lsf option settings in
      ((λ h. forward to to_lsf (split h)), (λ h. join (backward fro fro_lsf h)))
    where
      forward :
          (In option (section_options (codes "resources") settings)
            → InSection (codes "resources") settings option)
          → (In option (if is_lsf then section_options (codes "lsf") settings else [])
              → (is_lsf ≡ true) × InSection (codes "lsf") settings option)
          → In option (section_options (codes "resources") settings)
            ⊎ In option (if is_lsf then section_options (codes "lsf") settings else [])
          → Sets is_lsf settings option
      forward f g (inl h) =
          let (field, fields, found, has, e) = f h in
          (codes "resources", field, fields, inl refl, found, has, e)
      forward f g (inr h) =
          let (lsf, (field, fields, found, has, e)) = g h in
          (codes "lsf", field, fields, inr (refl, lsf), found, has, e)

      backward :
          (InSection (codes "resources") settings option
            → In option (section_options (codes "resources") settings))
          → ((is_lsf ≡ true) × InSection (codes "lsf") settings option
              → In option (if is_lsf then section_options (codes "lsf") settings else []))
          → Sets is_lsf settings option
          → In option (section_options (codes "resources") settings)
            ⊎ In option (if is_lsf then section_options (codes "lsf") settings else [])
      backward f g (section, field, fields, inl same, found, has, e) =
          inl (f (subst (λ s. InSection s settings option) same (field, fields, found, has, e)))
      backward f g (section, field, fields, inr (same, lsf), found, has, e) =
          inr
            (g (lsf, subst (λ s. InSection s settings option) same (field, fields, found, has, e)))

  -- The selected profile itself, without what it inherits, sets the option.
  abbrev pub OwnSets : Bool → List (Text × Profile V) → Option Text → Text → Type 0
  OwnSets is_lsf profiles profile_name option =
      (name : Text) × (profile : Profile V) × (profile_name ≡ some name)
      × (find name profiles ≡ some profile)
      × Sets is_lsf profile.values option

  own_In_name :
      (is_lsf : Bool) (profiles : List (Text × Profile V)) (name option : Text)
      → In option (options_of is_lsf (values_of_profile (find name profiles)))
        ↔ OwnSets is_lsf profiles (some name) option
  own_In_name is_lsf profiles name option = elim (Option-cases (find name profiles)) [
    | inl absent ↦ (
      (λ h. elim (rw absent at h) [ ]),
      (λ (other, profile, same, found, sets). absurd (missing other profile same found absent)),
    )
    | inr (profile, found) ↦
        let (to, fro) = submission_In is_lsf option profile.values in
        (
          (λ h. (name, profile, refl, found, to (rw found at h))),
          (λ (other, profile', same, found', sets). rw found (
              fro (
                subst (λ (p : Profile V). Sets is_lsf p.values option)
                  (unique other profile profile' same found found') sets))),
        )
  ]
    where
      missing :
          (other : Text) (profile : Profile V)
          → some name ≡ some other
          → find other profiles ≡ some profile
          → find name profiles ≡ none
          → ⊥
      missing other profile same found absent = cc

      unique :
          (other : Text) (profile profile' : Profile V)
          → some name ≡ some other
          → find name profiles ≡ some profile
          → find other profiles ≡ some profile'
          → profile' ≡ profile
      unique other profile profile' same found found' = cc

  pub own_In :
      (is_lsf : Bool) (profiles : List (Text × Profile V)) (profile_name : Option Text)
      (option : Text)
      → In option (options_of is_lsf (values_of_profile (own_profile profiles profile_name)))
        ↔ OwnSets is_lsf profiles profile_name option
  own_In is_lsf profiles none option =
      ((λ h. elim h [ ]), (λ (name, profile, same, found, sets). cc))
  own_In is_lsf profiles (some name) option = own_In_name is_lsf profiles name option
