-- ===== src/Cli/Submission/Apart.antt =====
-- Which alias a tunnel may have.
use ezhpcy.Prelude.{
  ◌≡◌, ◌∙◌, refl, sym, ap, subst, true, false, not, ◌&&◌, Option, none, some, List, ◌⊎◌, inl, inr,
  Bool-cases, Option-cases, if◌then◌else◌,
}
use ezhpcy.Prelude.Result.{ok, err}
use ezhpcy.Text.{Text, text_eq, text_eq_iff}
use ezhpcy.Config.Alias.{validate_alias, validate_alias_safe}
use ezhpcy.Config.Chain.{find}
use ezhpcy.Config.Resolve.{Profile}
use ezhpcy.Cli.Submission.{
  names_profile, is_some, is_name_of, chosen_alias, checked_alias, resolve_ssh_host,
}

checked_valid :
    {V : Type 0} (digest : Text) (profiles : List (Text × Profile V)) (chosen out : Text)
    (name : Option Text)
    → checked_alias digest profiles chosen name ≡ ok out
    → (chosen ≡ out) × ((n : Text) × (name ≡ some n))
checked_valid digest profiles chosen out none h = cc
checked_valid digest profiles chosen out (some n) h = (cc, (n, refl))

unknown_or_own :
    {V : Type 0} (profiles : List (Text × Profile V)) (chosen : Text) (profile_name : Option Text)
    → (not (is_name_of chosen profile_name) && is_some (find chosen profiles)) ≡ false
    → (profile_name ≡ some chosen) ⊎ (find chosen profiles ≡ none)
unknown_or_own profiles chosen profile_name h = elim (Option-cases (find chosen profiles)) [
  | inl absent ↦ inr absent
  | inr (p, there) ↦ inl (own profile_name (rw there at h))
]
  where
    own :
        (profile_name : Option Text)
        → (not (is_name_of chosen profile_name) && true) ≡ false
        → profile_name ≡ some chosen
    own none h = cc
    own (some name) h = elim (Bool-cases (text_eq chosen name)) [
      | inl same ↦ ap some (sym ((text_eq_iff chosen name).0 same))
      | inr other ↦ cc (rw other at h)
    ]

chosen_apart :
    {V : Type 0} (digest : Text) (profiles : List (Text × Profile V)) (chosen : Text)
    (profile_name : Option Text) (out : Text)
    → (if not (is_name_of chosen profile_name) && is_some (find chosen profiles)
        then err (names_profile chosen)
        else checked_alias digest profiles chosen (validate_alias chosen))
      ≡ ok out
    → (validate_alias out ≡ some out) × ((profile_name ≡ some out) ⊎ (find out profiles ≡ none))
chosen_apart digest profiles chosen profile_name out h =
    elim (Bool-cases (not (is_name_of chosen profile_name) && is_some (find chosen profiles))) [
      | inl taken ↦ cc (rw taken at h)
      | inr free ↦
          let (same, (n, valid)) =
            checked_valid digest profiles chosen out (validate_alias chosen) (rw free at h) in
          let kept = valid ∙ ap some ((validate_alias_safe chosen n valid).0) in
          subst
            (λ c.
              (validate_alias c ≡ some c) × ((profile_name ≡ some c) ⊎ (find c profiles ≡ none)))
            same (kept, unknown_or_own profiles chosen profile_name free)
    ]

-- A tunnel's alias is a valid name, and of all profiles' names it can only be that of the profile that the tunnel runs.
pub resolve_ssh_host-apart :
    {V : Type 0} (digest : Text) (profiles : List (Text × Profile V))
    (alias profile_name : Option Text) (out : Text)
    → resolve_ssh_host digest profiles alias profile_name ≡ ok out
    → (validate_alias out ≡ some out) × ((profile_name ≡ some out) ⊎ (find out profiles ≡ none))
unfolding resolve_ssh_host
resolve_ssh_host-apart digest profiles alias profile_name out h =
    chosen_apart digest profiles (chosen_alias digest profiles alias profile_name) profile_name out
      h
