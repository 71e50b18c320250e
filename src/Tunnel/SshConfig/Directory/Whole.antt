-- ===== src/Tunnel/SshConfig/Directory/Whole.antt =====
-- How a block's file is written: what other processes find meanwhile.
use ezhpcy.Prelude.{
  ℕ, ◌≡◌, ◌≢◌, ◌∙◌, refl, sym, ap, ◌&&◌, Option, none, some, [], ◌∷◌, ◌++◌, All, arith, ◌⊎◌, inl,
  inr, Bool-cases, if◌then◌else◌,
}
use ezhpcy.Text.{Text, codes, text_eq, text_eq_iff}
use ezhpcy.Text.Table.{put, put_other}
use ezhpcy.Tunnel.SshConfig.Directory.{
  Directory, unlink, Outcome, not_created, not_restricted, not_replaced, replaced, not_written,
  temporary_name, write_private, succeeded,
}

abbrev last : Text → ℕ
last [] = 0
last (c ∷ []) = c
last (c ∷ d ∷ s) = last (d ∷ s)

last-append : (s : Text) (c : ℕ) (t : Text) → last (s ++ c ∷ t) ≡ last (c ∷ t)
last-append [] c t = refl
last-append (d ∷ []) c t = refl
last-append (d ∷ e ∷ s) c t = last-append (e ∷ s) c t

last-temporary_name : (name pid unique : Text) → last (temporary_name name pid unique) ≡ b'p'
unfolding temporary_name
last-temporary_name name pid unique =
    last-append (b'.' ∷ name) b'.' (pid ++ b'.' ∷ (unique ++ codes ".tmp"))
    ∙ last-append (b'.' ∷ pid) b'.' (unique ++ codes ".tmp")
    ∙ last-append (b'.' ∷ unique) b'.' (codes "tmp")

-- What OpenSSH reads: the names that `*.conf` matches.
abbrev pub conf_name : Text → Text
conf_name stem = stem ++ codes ".conf"

-- The temporary file is none that OpenSSH reads.
temporary_name-apart :
    (name pid unique stem : Text) → temporary_name name pid unique ≢ conf_name stem
temporary_name-apart name pid unique stem e =
    let p = last-temporary_name name pid unique in
    let f = last-append stem b'.' (codes "conf") in omega (arith, sym p ∙ ap last e ∙ f)

-- A file is as it was before, or it is the file that is written and has its whole text.
abbrev pub IsWhole : Text → Text → Text → Directory → Directory → Type 0
IsWhole name content file files now =
    (now file ≡ files file) ⊎ ((file ≡ name) × (now file ≡ some content))

module _ (name content temporary file : Text) (apart : temporary ≢ file) where
  aside : (text : Option Text) (files : Directory) → put temporary text files file ≡ files file
  aside text files = put_other temporary file text files apart

  meanwhile_aside :
      (s t : Option Text) (files : Directory)
      → All (IsWhole name content file files) (put temporary s files ∷ put temporary t files ∷ [])
  meanwhile_aside s t files = (inl (aside s files), (inl (aside t files), tt))

  undone :
      (s : Option Text) (files : Directory)
      → unlink temporary (put temporary s files) file ≡ files file
  undone s files = aside none (put temporary s files) ∙ aside s files

  moved_in :
      (files : Directory)
      → (put name (some content) (unlink temporary (put temporary (some content) files)) file
          ≡ (if text_eq name file then some content else files file))
  unfolding put
  moved_in files = elim (Bool-cases (text_eq name file)) [
    | inl same ↦ rw (same, put) refl
    | inr other ↦ rw (other, put) (undone (some content) files)
  ]

  IsWhole-of :
      (files now : Directory)
      → now file ≡ (if text_eq name file then some content else files file)
      → IsWhole name content file files now
  IsWhole-of files now h = elim (Bool-cases (text_eq name file)) [
    | inl same ↦ inr (sym ((text_eq_iff name file).0 same), let h' = rw same at h in h')
    | inr other ↦ inl (let h' = rw other at h in h')
  ]

  write_private-aside :
      (outcome : Outcome) (files : Directory)
      → All (IsWhole name content file files) (write_private temporary name content outcome files).1
        × ((write_private temporary name content outcome files).2 file
            ≡ (if succeeded outcome && text_eq name file then some content else files file))
  unfolding write_private
  write_private-aside not_created files = (tt, aside none files)
  write_private-aside (not_written part) files =
      (meanwhile_aside (some []) (some part) files, undone (some part) files)
  write_private-aside not_restricted files =
      (meanwhile_aside (some []) (some content) files, undone (some content) files)
  write_private-aside not_replaced files =
      (meanwhile_aside (some []) (some content) files, undone (some content) files)
  write_private-aside replaced files =
      let moved = put name (some content) (unlink temporary (put temporary (some content) files)) in
      let (a, (b, _)) = meanwhile_aside (some []) (some content) files in
      ((a, (b, (IsWhole-of files moved (moved_in files), tt))), aside none moved ∙ moved_in files)

-- However a block's write ends, OpenSSH never reads a part of it: at each moment every file that its `*.conf` matches is as
-- before the write, or it is the written file with the whole text. A write that raises leaves all of them as they were, and
-- one that succeeds changes that file alone.
pub write_private-IsWhole :
    (name content pid unique stem : Text) (outcome : Outcome) (files : Directory)
    → All
        (IsWhole name content (conf_name stem) files)
        (write_private (temporary_name name pid unique) name content outcome files).1
      × ((write_private (temporary_name name pid unique) name content outcome files).2
            (conf_name stem)
          ≡ (if succeeded outcome && text_eq name (conf_name stem)
              then some content
              else files (conf_name stem)))
write_private-IsWhole name content pid unique stem outcome files =
    write_private-aside name content (temporary_name name pid unique) (conf_name stem)
      (temporary_name-apart name pid unique stem) outcome files
