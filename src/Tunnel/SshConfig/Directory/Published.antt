-- ===== src/Tunnel/SshConfig/Directory/Published.antt =====
-- Publishing and withdrawing a tunnel's block, among those of other tunnels.
use ezhpcy.Prelude.{
  ℕ, zero, suc, ◌≡◌, ◌≢◌, ◌∙◌, refl, sym, ap, Bool, true, false, not, ◌&&◌, Option, none, some,
  List, [], ◌∷◌, ◌++◌, take, arith, inl, inr, Bool-cases, if◌then◌else◌,
}
use ezhpcy.Text.{Text, codes, text_eq, text_eq_iff, text_eq_refl, member}
use ezhpcy.Text.Table.{put_same, put_other}
use ezhpcy.Config.Alias.{validate_alias}
use ezhpcy.Tunnel.SshConfig.{
  WorkerHost, render, AliasProblem, SshRun, check_host_resolution, active_name, alias_of, prune,
}
use ezhpcy.Tunnel.SshConfig.Resolution.{prune-active_name, alias_of-active_name}
use ezhpcy.Tunnel.SshConfig.Directory.{
  Directory, unlink, Outcome, replaced, temporary_name, write_private, written, succeeded,
  unlink_all, Disk, publish_host, withdraw_host,
}
use ezhpcy.Tunnel.SshConfig.Directory.Whole.{conf_name, write_private-IsWhole}

member-take :
    (file : Text) (n : ℕ) (names : List Text)
    → member file names ≡ false
    → member file (take n names) ≡ false
unfolding member
member-take file zero names h = refl
member-take file (suc n) [] h = refl
member-take file (suc n) (name ∷ names) h = ground (arith, member-take file n names)

unlink_all_other :
    (file : Text) (names : List Text) (files : Directory)
    → member file names ≡ false
    → unlink_all names files file ≡ files file
unfolding member
unlink_all_other file [] files h = refl
unlink_all_other file (name ∷ names) files h =
    unlink_all_other file names (unlink name files) (ground arith)
    ∙ put_other name file none files
        (λ e. let same = (text_eq_iff file name).1 (sym e) in ground arith)

unlink_all_gone :
    (file : Text) (names : List Text) (files : Directory)
    → member file names ≡ true
    → unlink_all names files file ≡ none
unfolding member
unlink_all_gone file [] files h = ground arith
unlink_all_gone file (name ∷ names) files h = elim (Bool-cases (member file names)) [
  | inl again ↦ unlink_all_gone file names (unlink name files) again
  | inr once ↦
      unlink_all_other file names (unlink name files) once
      ∙ ap (λ f. unlink name files f) ((text_eq_iff file name).0 (ground arith))
      ∙ put_same name none files
]

active_name-injective : (a b : Text) → active_name a ≡ active_name b → a ≡ b
active_name-injective a b e = sym (alias_of-active_name a) ∙ ap alias_of e ∙ alias_of-active_name b

if_and_false : (c : Bool) (x y : Option Text) → (if c && false then x else y) ≡ y
if_and_false true x y = refl
if_and_false false x y = refl

and_false : (c : Bool) → (c && false) ≡ false
and_false true = refl
and_false false = refl

-- `publish_host` where nothing raises
abbrev pub all_well : Disk
all_well = record { removals = none; outcome = replaced }

-- The name of a block's file is one that OpenSSH reads.
active_name-conf_name : (a : Text) → active_name a ≡ conf_name (codes "active-" ++ a)
unfolding active_name
active_name-conf_name a = refl

module _ (normcase : Text → Text) (show_options : Option (List Text) → Text) (locked : Text → Bool)
    (host : WorkerHost) (port : ℕ) (names : List Text) (pid unique : Text) (run : SshRun) where
  -- The directory afterwards
  abbrev pub publish : Disk → Directory → Directory
  publish disk files =
      (publish_host normcase show_options locked
        (temporary_name (active_name host.alias) pid unique) host port names disk run files).1

  abbrev gone : List Text
  gone = (prune locked names).1

  written_files :
      (problem : Option AliasProblem) (r : Bool × List Directory × Directory)
      → (written host port problem r).1 ≡ r.2
  written_files problem (true, meanwhile, files) = refl
  written_files problem (false, meanwhile, files) = refl

  -- The write, after the removals
  publish_written :
      (outcome : Outcome) (files : Directory) (stem : Text)
      → publish (record { removals = none; outcome = outcome }) files (conf_name stem) ≡ (
          if succeeded outcome && text_eq (active_name host.alias) (conf_name stem)
          then some (render host port)
          else unlink_all gone files (conf_name stem))
  unfolding publish_host
  publish_written outcome files stem =
      let temporary = temporary_name (active_name host.alias) pid unique in
      let after = unlink_all gone files in
      ap (λ d. d (conf_name stem))
        (written_files (check_host_resolution normcase show_options host port run)
          (write_private temporary (active_name host.alias) (render host port) outcome after))
      ∙ (write_private-IsWhole (active_name host.alias) (render host port) pid unique stem outcome
          after).1

  publish_stopped :
      (n : ℕ) (outcome : Outcome) (files : Directory)
      → publish (record { removals = some n; outcome = outcome }) files
        ≡ unlink_all (take n gone) files
  unfolding publish_host
  publish_stopped n outcome files = refl

  publish_own :
      (files : Directory)
      → publish all_well files (active_name host.alias) ≡ some (render host port)
  unfolding active_name
  publish_own files =
      publish_written replaced files (codes "active-" ++ host.alias)
      ∙ ap
          (λ e.
            if e then some (render host port) else unlink_all gone files (active_name host.alias))
          (text_eq_refl (active_name host.alias))

  -- Another alias's block
  module _ (b out : Text) (valid : validate_alias b ≡ some out) (other : host.alias ≢ b) where
    other_file : text_eq (active_name host.alias) (active_name b) ≡ false
    other_file = elim (Bool-cases (text_eq (active_name host.alias) (active_name b))) [
      | inl same ↦ absurd (
          other (
            active_name-injective host.alias b
              ((text_eq_iff (active_name host.alias) (active_name b)).0 same)))
      | inr apart ↦ apart
    ]

    publish_aside :
        (outcome : Outcome) (files : Directory)
        → publish (record { removals = none; outcome = outcome }) files (active_name b)
          ≡ unlink_all gone files (active_name b)
    unfolding active_name
    publish_aside outcome files =
        publish_written outcome files (codes "active-" ++ b)
        ∙ ap
            (λ e.
              if succeeded outcome && e
              then some (render host port)
              else unlink_all gone files (active_name b))
            other_file
        ∙ if_and_false (succeeded outcome) (some (render host port))
            (unlink_all gone files (active_name b))

    spared : locked b ≡ true → member (active_name b) gone ≡ false
    spared held =
        (prune-active_name locked names b out valid).1
        ∙ ap (λ l. member (active_name b) names && not l) held
        ∙ and_false (member (active_name b) names)

    doomed :
        member (active_name b) names ≡ true → locked b ≡ false → member (active_name b) gone ≡ true
    doomed there free = (prune-active_name locked names b out valid).1 ∙ (rw (there, free) refl)

    kept_by :
        (removals : Option ℕ) (outcome : Outcome) (files : Directory)
        → locked b ≡ true
        → publish (record { removals = removals; outcome = outcome }) files (active_name b)
          ≡ files (active_name b)
    kept_by none outcome files held =
        publish_aside outcome files ∙ unlink_all_other (active_name b) gone files (spared held)
    kept_by (some n) outcome files held =
        ap (λ d. d (active_name b)) (publish_stopped n outcome files)
        ∙ unlink_all_other (active_name b) (take n gone) files
            (member-take (active_name b) n gone (spared held))

    -- The directory after a tunnel for `host` publishes its block, for each other valid alias `b`: wherever the removals or the
    -- write fail, a running tunnel's block stays as it was; and where nothing fails, a block of the glob that no tunnel holds is
    -- gone, and the host's own file has its block, until it is withdrawn, which leaves `b`'s file alone.
    pub publish_host-active :
        (disk : Disk) (files : Directory)
        → (locked b ≡ true → publish disk files (active_name b) ≡ files (active_name b))
          × (member (active_name b) names ≡ true
              → locked b ≡ false
              → publish all_well files (active_name b) ≡ none)
          × (publish all_well files (active_name host.alias) ≡ some (render host port))
          × (withdraw_host host true (publish all_well files) (active_name host.alias) ≡ none)
          × (withdraw_host host true (publish all_well files) (active_name b)
              ≡ publish all_well files (active_name b))
    unfolding withdraw_host
    publish_host-active disk files =
        let apart : active_name host.alias ≢ active_name b =
          λ e. other (active_name-injective host.alias b e) in
        (
          kept_by disk.removals disk.outcome files,
          λ there free.
              publish_aside replaced files
              ∙ unlink_all_gone (active_name b) gone files (doomed there free),
          publish_own files,
          put_same (active_name host.alias) none (publish all_well files),
          put_other (active_name host.alias) (active_name b) none (publish all_well files) apart,
        )
