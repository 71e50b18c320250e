-- ===== src/Tests/Config.antt =====
-- Names, chains and time limits.
use ezhpcy.Prelude.{
  ℕ, ◌≡◌, ◌↔◌, refl, Option, none, some, List, [], ◌∷◌, arith, Bool-cases, inl, inr, subst,
}
use ezhpcy.Prelude.Int.{pos}
use ezhpcy.Prelude.Result.{Result, ok, err}
use ezhpcy.Text.{Text, codes, text_eq}
use ezhpcy.Config.Alias.{validate_alias}
use ezhpcy.Config.Chain.{ChainError, find, inheritance_chain}
use ezhpcy.Config.Chain.Lineage.{Lineage, root, heir, inheritance_chain_iff}
use ezhpcy.Config.Chain.Termination.{inheritance_chain_total}
use ezhpcy.Config.Resolve.{
  Settings, Profile, resolve_profile, reject_stored_password, setting, connection, password,
}
use ezhpcy.Config.Resolve.Nearest.{
  IsDict, IsSettings, AreDicts, AreSettings, nearest, resolve_profile-nearest,
  reject_stored_password-resolved,
}
use ezhpcy.TimeLimit.{
  parse_time_limit, check_time_limit, format_time_limit, read_groups, read_hours, timedelta,
  bad_minutes, bad_format, overflow,
}
use ezhpcy.TimeLimit.Roundtrip.{parse_time_limit-format_time_limit}

abbrev gpu_node : Text
gpu_node = codes "gpu-1.a"

valid : validate_alias gpu_node ≡ some gpu_node
unfolding validate_alias
valid = refl

abbrev base : Text
base = codes "base"

abbrev child : Text
child = codes "child"

-- `child` inherits `base`, whose user it overrides.
abbrev base_profile : Profile ℕ
base_profile = record {
  inherit = none;
  values = record {
    scalars = [];
    tables = (connection, (codes "user", 1) ∷ (codes "host", 2) ∷ []) ∷ [];
  };
}

abbrev child_profile : Profile ℕ
child_profile = record {
  inherit = some base;
  values = record { scalars = []; tables = (connection, (codes "user", 3) ∷ []) ∷ [] };
}

abbrev profiles : List (Text × Profile ℕ)
profiles = (base, base_profile) ∷ (child, child_profile) ∷ []

abbrev top : Settings ℕ
top = record { scalars = []; tables = [] }

abbrev parent_of : Profile ℕ → Option Text
parent_of p = p.inherit

found_child : find child profiles ≡ some child_profile
unfolding find
found_child = refl

found_base : find base profiles ≡ some base_profile
unfolding find
found_base = refl

abbrev chain : List Text
chain = child ∷ base ∷ []

lineage : Lineage parent_of profiles (some child) chain
lineage = heir found_child (heir found_base root)

inheritance_chain_total_example :
    (r : Result ChainError (List Text)) × (inheritance_chain parent_of profiles child ≡ some r)
inheritance_chain_total_example = inheritance_chain_total parent_of profiles child

inheritance_chain_iff_example :
    (inheritance_chain parent_of profiles child ≡ some (ok chain))
    ↔ Lineage parent_of profiles (some child) chain
inheritance_chain_iff_example = inheritance_chain_iff parent_of profiles child chain

profiles_dict : IsSettings (base_profile.values) × IsSettings (child_profile.values)
unfolding IsSettings IsDict AreDicts find
profiles_dict = (((refl, tt), ((refl, (refl, tt)), tt)), ((refl, tt), ((refl, tt), tt)))

are_settings : AreSettings top profiles
unfolding AreSettings find
are_settings name p h = elim (Bool-cases (text_eq name base)) [
  | inl a ↦
      let same : base_profile ≡ p = cc (rw (a, find) at h) in
      subst (λ q. IsSettings (q.values)) same (profiles_dict.0)
  | inr a ↦ elim (Bool-cases (text_eq name child)) [
    | inl b ↦
        let same : child_profile ≡ p = cc (rw (b, find) at rw (a, find) at h) in
        subst (λ q. IsSettings (q.values)) same (profiles_dict.1)
    | inr b ↦ cc (rw (b, find) at rw (a, find) at h)
  ]
]

resolve_profile-nearest_example :
    (values : Settings ℕ) × (resolve_profile top profiles (some child) ≡ some (ok values))
    × ((t key : Text) → setting t key values.tables ≡ nearest top profiles t key chain)
resolve_profile-nearest_example =
    resolve_profile-nearest top profiles are_settings child chain lineage

abbrev merged : Settings ℕ
merged = record {
  scalars = [];
  tables = (connection, (codes "user", 3) ∷ (codes "host", 2) ∷ []) ∷ [];
}

resolved : resolve_profile top profiles (some child) ≡ some (ok merged)
unfolding resolve_profile inheritance_chain
resolved = refl

reject_stored_password-resolved_example :
    (reject_stored_password top profiles (some child) ≡ some (ok none))
    ↔ (setting connection password merged.tables ≡ none)
reject_stored_password-resolved_example =
    reject_stored_password-resolved top profiles are_settings child chain lineage merged resolved

checked : check_time_limit (pos 5400000000) ≡ ok 5400000000
unfolding check_time_limit
checked = refl

parse_time_limit-format_time_limit_example :
    parse_time_limit (format_time_limit 5400000000) ≡ ok 5400000000
parse_time_limit-format_time_limit_example =
    parse_time_limit-format_time_limit (pos 5400000000) 5400000000 checked (omega arith)

-- `1:30`, with blanks around, and times that are refused.
time_limit_tests :
    (parse_time_limit (codes " 1:30 ") ≡ ok 5400000000)
    × (parse_time_limit (codes "1:60") ≡ err bad_minutes)
    × (parse_time_limit (codes "1:5:0") ≡ err bad_format)
    × (parse_time_limit (codes "99999999999:00") ≡ err overflow)
unfolding parse_time_limit read_groups read_hours timedelta
time_limit_tests = (refl, refl, refl, refl)
