-- ===== src/Provision/Worker/Ready/Kept.antt =====
-- What ensuring a key pair leaves: no file that is there goes away.
use ezhpcy.Prelude.{◌≡◌, ◌∙◌, ap, subst, Bool, true, false, Option, none, some, inl, inr}
use ezhpcy.Prelude.Exec.{ok}
use ezhpcy.Text.{Text}
use ezhpcy.Text.Table.{put_same, put_other, text_cases}
use ezhpcy.Provision.Keys.{
  File, Files, write, exists, set_private, KeyPair, create_pair, restrict_pair, ensure_by,
}

abbrev pub Has : Files → Text → Type 0
Has files path = exists (files path) ≡ true

-- The files that are there stay.
abbrev pub Keeps : Files → Files → Type 0
Keeps files after = (path : Text) → Has files path → Has after path

pub write-Keeps : (path : Text) (file : File) (files : Files) → Keeps files (write path file files)
write-Keeps path file files other h = elim (text_cases path other) [
  | inl same ↦
      subst (λ p. Has (write path file files) p) same (ap exists (put_same path (some file) files))
  | inr apart ↦ ap exists (put_other path other (some file) files apart) ∙ h
]

pub written_there : (path : Text) (file : File) (files : Files) → Has (write path file files) path
written_there path file files = ap exists (put_same path (some file) files)

set_private-Keeps :
    (value : Bool) (path : Text) (o : Option File) (files : Files)
    → Keeps files (set_private value path o files)
set_private-Keeps value path none files other h = h
set_private-Keeps value path (some file) files other h =
    write-Keeps path (record file { is_private = value }) files other h

module _ (private_key public_key : Text) where
  restrict-Keeps : (files : Files) → Keeps files (restrict_pair private_key public_key files)
  restrict-Keeps files other h =
      let restricted = set_private true private_key (files private_key) files in
      set_private-Keeps false public_key (restricted public_key) restricted other
        (set_private-Keeps true private_key (files private_key) files other h)

  create-Keeps :
      (pair : KeyPair) (files : Files) → Keeps files (create_pair private_key public_key pair files)
  create-Keeps (s, t) files other h =
      write-Keeps public_key (record { content = t; is_private = false })
        (write private_key (record { content = s; is_private = true }) files) other
        (write-Keeps private_key (record { content = s; is_private = true }) files other h)

  create_there :
      (pair : KeyPair) (files : Files)
      → Has (create_pair private_key public_key pair files) private_key
        × Has (create_pair private_key public_key pair files) public_key
  create_there (s, t) files =
      let first = write private_key (record { content = s; is_private = true }) files in
      (
        write-Keeps public_key (record { content = t; is_private = false }) first private_key
            (written_there private_key (record { content = s; is_private = true }) files),
        written_there public_key (record { content = t; is_private = false }) first,
      )

  pub ensure_there :
      (pair : KeyPair) (a b : Bool) (files : Files)
      → exists (files private_key) ≡ a
      → exists (files public_key) ≡ b
      → (ensure_by private_key public_key pair a b files).0 ≡ ok tt
      → Has (ensure_by private_key public_key pair a b files).1 private_key
        × Has (ensure_by private_key public_key pair a b files).1 public_key
  ensure_there pair true true files ea eb h =
      (restrict-Keeps files private_key ea, restrict-Keeps files public_key eb)
  ensure_there pair false false files ea eb h =
      let (s, t) = create_there pair files in
      let made = create_pair private_key public_key pair files in
      (restrict-Keeps made private_key s, restrict-Keeps made public_key t)
  ensure_there pair true false files ea eb h = cc
  ensure_there pair false true files ea eb h = cc

  pub ensure-Keeps :
      (pair : KeyPair) (a b : Bool) (files : Files)
      → Keeps files (ensure_by private_key public_key pair a b files).1
  ensure-Keeps pair true true files other h = restrict-Keeps files other h
  ensure-Keeps pair false false files other h =
      restrict-Keeps (create_pair private_key public_key pair files) other
        (create-Keeps pair files other h)
  ensure-Keeps pair true false files other h = h
  ensure-Keeps pair false true files other h = h
