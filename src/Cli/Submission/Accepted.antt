-- ===== src/Cli/Submission/Accepted.antt =====
-- When a site's own submission command is accepted.
use ezhpcy.Prelude.{
  ◌≡◌, ◌≢◌, ◌∙◌, ◌↔◌, refl, sym, ap, subst, Bool, true, false, Option, none, some, List, [], ◌∷◌,
  ◌++◌, inl, inr, Bool-cases,
}
use ezhpcy.Prelude.Result.{Result, ok, err}
use ezhpcy.Text.{Text, member}
use ezhpcy.Config.Resolve.{Settings, Profile}
use ezhpcy.Shell.{shlex_join}
use ezhpcy.Cli.Submission.Options.{Sets, OwnSets, submission_In, own_In}
use ezhpcy.Cli.Submission.Sorted.{In, IsSorted, sorted-In, sorted-IsSorted}
use ezhpcy.Cli.Submission.{
  TunnelUsageError, is_before, insert_sorted, sorted, submission_options, options_of,
  values_of_profile, own_profile, without, in_profile, name_or_none, command_source,
  unless_conflicts, check_command, check_interactive_submission_command,
}

insert_sorted-some : (x : Text) (xs : List Text) → insert_sorted x xs ≢ []
unfolding insert_sorted
insert_sorted-some x [] e = cc
insert_sorted-some x (y ∷ ys) e = elim (Bool-cases (is_before y x)) [
  | inl before ↦ cc (rw before at e)
  | inr after ↦ cc (rw after at e)
]

sorted-nil : (xs : List Text) → sorted xs ≡ [] → xs ≡ []
unfolding sorted
sorted-nil [] e = refl
sorted-nil (x ∷ xs) e = absurd (insert_sorted-some x (sorted xs) e)

in_profile-nil : (name : Text) (xs : List Text) → in_profile name xs ≡ [] → xs ≡ []
in_profile-nil name [] e = refl
in_profile-nil name (x ∷ xs) e = cc

append_none : (xs ys : List Text) → xs ++ ys ≡ [] → (xs ≡ []) × (ys ≡ [])
append_none [] ys e = (refl, e)
append_none (x ∷ xs) ys e = cc

without-nil : (xs : List Text) → without xs [] ≡ xs
unfolding member
without-nil [] = refl
without-nil (x ∷ xs) = ap (λ r. x ∷ r) (without-nil xs)

unless_conflicts_ok :
    (source value : Text) (conflicts ignored out : List Text)
    → unless_conflicts source value conflicts ignored ≡ ok out
    → (conflicts ≡ []) × (ignored ≡ out)
unless_conflicts_ok source value [] ignored out h = (refl, cc)
unless_conflicts_ok source value (c ∷ cs) ignored out h = cc

module _ {V : Type 0} (profiles : List (Text × Profile V)) where
  -- Nothing asks for what the command would drop: the submission is interactive, and neither the selected profile itself nor
  -- the command line sets a submission option.
  abbrev pub Accepts : Bool → Bool → List Text → Option Text → Type 0
  Accepts is_batch is_lsf given profile_name =
      (is_batch ≡ false)
      × (given ≡ [])
      × ((option : Text) → OwnSets is_lsf profiles profile_name option → ⊥)

  -- What a check comes to: the ignored options, which are all that the resolved settings set, in order, or an error. Without a
  -- command, nothing is checked.
  abbrev pub Decides :
      Option (List Text)
      → Bool
      → Bool
      → List Text
      → Option Text
      → Settings V
      → Result TunnelUsageError (List Text)
      → Type 0
  Decides none is_batch is_lsf given profile_name settings result = result ≡ ok []
  Decides (some command) is_batch is_lsf given profile_name settings (ok ignored) =
      Accepts is_batch is_lsf given profile_name
      × IsSorted ignored
      × ((option : Text) → In option ignored ↔ Sets is_lsf settings option)
  Decides (some command) is_batch is_lsf given profile_name settings (err e) =
      Accepts is_batch is_lsf given profile_name → ⊥

  passes :
      (command : List Text) (is_batch is_lsf from_cli : Bool) (given : List Text)
      (profile_name : Option Text) (configured direct ignored : List Text)
      → (check_command profiles command is_batch is_lsf from_cli given profile_name configured
            direct
          ≡ ok ignored)
        ↔ ((is_batch ≡ false) × (direct ≡ []) × (given ≡ []) × (ignored ≡ sorted configured))
  unfolding sorted
  passes command true is_lsf from_cli given profile_name configured direct ignored =
      ((λ h. cc), (λ (h, _, _, _). cc))
  passes command false is_lsf from_cli given profile_name configured direct ignored =
      (forward, backward)
    where
      forward :
          check_command profiles command false is_lsf from_cli given profile_name configured direct
            ≡ ok ignored
          → (false ≡ false) × (direct ≡ []) × (given ≡ []) × (ignored ≡ sorted configured)
      forward h =
          let (empty, same) =
            unless_conflicts_ok (command_source from_cli profile_name) (shlex_join command)
              (in_profile (name_or_none profile_name) (sorted direct) ++ given)
              (sorted (without configured direct)) ignored h in
          let (mine, theirs) =
            append_none (in_profile (name_or_none profile_name) (sorted direct)) given empty in
          let own =
            sorted-nil direct (in_profile-nil (name_or_none profile_name) (sorted direct) mine) in
          (
            refl,
            own,
            theirs,
            sym same
                ∙ ap (λ d. sorted (without configured d)) own
                ∙ ap sorted (without-nil configured),
          )

      backward :
          (false ≡ false) × (direct ≡ []) × (given ≡ []) × (ignored ≡ sorted configured)
          → check_command profiles command false is_lsf from_cli given profile_name configured
              direct
            ≡ ok ignored
      backward (_, own, theirs, same) =
          rw (own, theirs, same) (ap (λ c. ok (sorted c)) (without-nil configured))

  empty_unless : (xs : List Text) → ((x : Text) → In x xs → ⊥) → xs ≡ []
  empty_unless [] h = refl
  empty_unless (x ∷ xs) h = absurd (h x (inl refl))

  none_set :
      (is_lsf : Bool) (profile_name : Option Text)
      → (options_of is_lsf (values_of_profile (own_profile profiles profile_name)) ≡ [])
        ↔ ((option : Text) → OwnSets is_lsf profiles profile_name option → ⊥)
  none_set is_lsf profile_name = (
    (λ e option sets. subst (In option) e ((own_In is_lsf profiles profile_name option).1 sets)),
    (λ h.
        empty_unless _
          (λ option here. h option ((own_In is_lsf profiles profile_name option).0 here))),
  )

  ignored-Sets :
      (is_lsf : Bool) (settings : Settings V) (ignored : List Text)
      → ignored ≡ sorted (submission_options is_lsf settings)
      → IsSorted ignored × ((option : Text) → In option ignored ↔ Sets is_lsf settings option)
  ignored-Sets is_lsf settings ignored e =
      let options = submission_options is_lsf settings in
      (
        subst IsSorted (sym e) (sorted-IsSorted options),
        λ option. (
          (λ h.
              (submission_In is_lsf option settings).0
                ((sorted-In option options).0 (subst (In option) e h))),
          (λ h.
              subst (In option) (sym e)
                ((sorted-In option options).1 ((submission_In is_lsf option settings).1 h))),
        ),
      )

  decided :
      (command : List Text) (is_batch is_lsf from_cli : Bool) (given : List Text)
      (profile_name : Option Text) (settings : Settings V)
      (result : Result TunnelUsageError (List Text))
      → check_command profiles command is_batch is_lsf from_cli given profile_name
          (submission_options is_lsf settings)
          (options_of is_lsf (values_of_profile (own_profile profiles profile_name)))
        ≡ result
      → Decides (some command) is_batch is_lsf given profile_name settings result
  decided command is_batch is_lsf from_cli given profile_name settings (ok ignored) e =
      let configured = submission_options is_lsf settings in
      let direct = options_of is_lsf (values_of_profile (own_profile profiles profile_name)) in
      let (interactive, own, not_given, same) =
        (passes command is_batch is_lsf from_cli given profile_name configured direct ignored).0
          e in
      let (in_order, all) = ignored-Sets is_lsf settings ignored same in
      ((interactive, not_given, (none_set is_lsf profile_name).0 own), in_order, all)
  decided command is_batch is_lsf from_cli given profile_name settings (err x) e =
      λ (interactive, not_given, own).
        let configured = submission_options is_lsf settings in
        let direct = options_of is_lsf (values_of_profile (own_profile profiles profile_name)) in
        let passed =
          (passes command is_batch is_lsf from_cli given profile_name configured direct
              (sorted configured)).1
            (interactive, (none_set is_lsf profile_name).1 own, not_given, refl) in
        cc (e, passed)

  -- A submission command of a site is accepted exactly if the submission is interactive, the command line sets no submission
  -- option, and neither does the selected profile itself. A submission option is a field that is set in the table `resources`,
  -- or, for LSF alone, in the table `lsf`. All that the resolved settings set are then ignored, in order, and no others. Without
  -- such a command nothing is checked and nothing is ignored.
  pub check_interactive_submission_command-Decides :
      (command : Option (List Text)) (is_batch is_lsf from_cli : Bool) (given : List Text)
      (profile_name : Option Text) (profile_config : Settings V)
      → Decides command is_batch is_lsf given profile_name profile_config (
          check_interactive_submission_command profiles command is_batch is_lsf from_cli given
            profile_name profile_config)
  unfolding check_interactive_submission_command
  check_interactive_submission_command-Decides none is_batch is_lsf from_cli given profile_name
        profile_config =
      refl
  check_interactive_submission_command-Decides (some command) is_batch is_lsf from_cli given
        profile_name profile_config =
      decided command is_batch is_lsf from_cli given profile_name profile_config _ refl
