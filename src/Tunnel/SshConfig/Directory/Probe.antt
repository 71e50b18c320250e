-- ===== src/Tunnel/SshConfig/Directory/Probe.antt =====
-- A probe leaves no file behind.
use ezhpcy.Prelude.{
  ◌≡◌, ◌∙◌, refl, sym, ap, Bool, true, false, ◌&&◌, Option, none, some, List, [], ◌∷◌, ◌++◌, inl,
  inr, Bool-cases, Option-cases, if◌then◌else◌,
}
use ezhpcy.Text.{Text, text_eq, text_eq_iff}
use ezhpcy.Text.Table.{put_same, put_other}
use ezhpcy.Tunnel.SshConfig.{AliasProblem, SshRun, resolution_problem}
use ezhpcy.Tunnel.SshConfig.Directory.{
  Directory, unlink, Outcome, temporary_name, write_private, probe_comment, probe_blocks, probed,
  probe_alias,
}
use ezhpcy.Tunnel.SshConfig.Directory.Whole.{conf_name, write_private-IsWhole}

-- The probe's file is removed again.
probed_keeps :
    (name file alias content : Text) (answer : Option AliasProblem)
    (r : Bool × List Directory × Directory) (files : Directory)
    → files name ≡ none
    → r.2 file ≡ (if r.0 && text_eq name file then some content else files file)
    → (probed name alias answer r).1 file ≡ files file
probed_keeps name file alias content answer (false, meanwhile, now) files new h = h
probed_keeps name file alias content answer (true, meanwhile, now) files new h =
    elim (Bool-cases (text_eq name file)) [
      | inl same ↦
          let e = (text_eq_iff name file).0 same in
          ap (λ f. unlink name now f) (sym e) ∙ put_same name none now ∙ sym new ∙ ap files e
      | inr apart ↦
          put_other name file none now (λ e. cc ((text_eq_iff name file).1 e, apart))
          ∙ h
          ∙ ap (λ c. if c then some content else files file) apart
    ]

-- A probe of an alias leaves every file that OpenSSH reads as it was, however its write ends. Its own file's name is new.
pub probe_alias-keeps :
    (ssh : Directory → SshRun) (locked : Bool) (pid unique probe stem alias : Text)
    (outcome : Outcome) (files : Directory)
    → files (conf_name probe) ≡ none
    → (probe_alias ssh locked
          (temporary_name (conf_name probe) pid unique)
          (conf_name probe)
          alias
          outcome
          files).1
        (conf_name stem)
      ≡ files (conf_name stem)
unfolding probe_alias
probe_alias-keeps ssh locked pid unique probe stem alias outcome files new =
    elim (Option-cases (probe_blocks (alias ∷ []))) [
      | inl invalid ↦ rw (invalid, probe_alias) refl
      | inr (blocks, valid) ↦
          rw (valid, probe_alias)
            (probed_keeps (conf_name probe) (conf_name stem) alias (probe_comment ++ blocks)
              (resolution_problem alias locked (ssh (written_probe blocks).2))
              (written_probe blocks) files new
              (write_private-IsWhole (conf_name probe) (probe_comment ++ blocks) pid unique stem
                outcome files).1)
    ]
  where
    written_probe : Text → Bool × List Directory × Directory
    written_probe blocks =
        write_private (temporary_name (conf_name probe) pid unique) (conf_name probe)
          (probe_comment ++ blocks) outcome files
