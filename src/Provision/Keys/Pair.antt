-- ===== src/Provision/Keys/Pair.antt =====
-- A key pair is made once, and kept.
use ezhpcy.Prelude.{
  ◌≡◌, ◌≢◌, ◌∙◌, refl, sym, ap, subst, true, false, Option, none, some, ◌⊎◌, inl, inr,
}
use ezhpcy.Prelude.Exec.{Result, ok, err}
use ezhpcy.Text.{Text}
use ezhpcy.Text.Table.{put_same, put_other}
use ezhpcy.Provision.Keys.{
  File, Files, write, exists, set_private, KeyError, incomplete_pair, KeyPair, restrict_pair,
  ensure_by, ensure_key_pair,
}

-- Who may read the key pair's files once it is there
abbrev pub HasPair : Text → Text → Text → Text → Files → Type 0
HasPair private_key public_key private_text public_text files =
    (files private_key ≡ some (record { content = private_text; is_private = true }))
    × (files public_key ≡ some (record { content = public_text; is_private = false }))

abbrev pub private_file : Text → File
private_file content = record { content = content; is_private = true }

abbrev pub public_file : Text → File
public_file content = record { content = content; is_private = false }

module _ (private_key public_key : Text) (differ : private_key ≢ public_key) where
  -- The files with both written
  abbrev both : Text → Text → Files → Files
  both private_text public_text files =
      write public_key (public_file public_text)
        (write private_key (private_file private_text) files)

  both-HasPair : (s t : Text) (files : Files) → HasPair private_key public_key s t (both s t files)
  both-HasPair s t files = (
    put_other public_key private_key (some (public_file t))
          (write private_key (private_file s) files) (λ e. differ (sym e))
        ∙ put_same private_key (some (private_file s)) files,
    put_same public_key (some (public_file t)) (write private_key (private_file s) files),
  )

  restrict_pair_lem :
      (files : Files) (a b : File)
      → files private_key ≡ some a
      → files public_key ≡ some b
      → restrict_pair private_key public_key files ≡ both a.content b.content files
  restrict_pair_lem files a b ea eb =
      let restricted = write private_key (private_file a.content) files in
      ap
        (λ o.
          let r = set_private true private_key o files in
          set_private false public_key (r public_key) r)
        ea
      ∙ ap (λ o. set_private false public_key o restricted)
          (put_other private_key public_key (some (private_file a.content)) files differ ∙ eb)

  -- What is kept of a file that exists, or else written
  abbrev pub content_or : Option File → Text → Text
  content_or none text = text
  content_or (some file) text = file.content

  abbrev pub Ensured : KeyPair → Files → Result KeyError Unit × Files → Type 0
  Ensured (private_text, public_text) files (r, after) =
      ((r ≡ ok tt)
        × (exists (files private_key) ≡ exists (files public_key))
        × HasPair private_key public_key (content_or (files private_key) private_text)
            (content_or (files public_key) public_text) after
        × ((other : Text) → private_key ≢ other → public_key ≢ other → after other ≡ files other))
      ⊎ ((r ≡ err incomplete_pair)
          × (exists (files private_key) ≢ exists (files public_key))
          × (after ≡ files))

  others_kept :
      (s t : Text) (files : Files) (other : Text)
      → private_key ≢ other
      → public_key ≢ other
      → both s t files other ≡ files other
  others_kept s t files other h k =
      put_other public_key other (some (public_file t)) (write private_key (private_file s) files) k
      ∙ put_other private_key other (some (private_file s)) files h

  -- What restricting the two files leaves, where they stand in `now`.
  Restricted : Text → Text → Files → Files → Type 0
  Restricted s t files after =
      HasPair private_key public_key s t after
      × ((other : Text) → private_key ≢ other → public_key ≢ other → after other ≡ files other)

  restricted :
      (a b : File) (now : Files)
      → now private_key ≡ some a
      → now public_key ≡ some b
      → Restricted a.content b.content now (restrict_pair private_key public_key now)
  unfolding Restricted
  restricted a b now ea eb =
      subst (Restricted a.content b.content now) (sym (restrict_pair_lem now a b ea eb))
        (both-HasPair a.content b.content now, others_kept a.content b.content now)

  contents :
      (s t : Text) (files after : Files) (o u : Option File)
      → files private_key ≡ o
      → files public_key ≡ u
      → HasPair private_key public_key (content_or o s) (content_or u t) after
      → HasPair private_key public_key
          (content_or (files private_key) s)
          (content_or (files public_key) t)
          after
  contents s t files after o u ea eb h = rw (ea, eb) h

  ensured :
      (pair : KeyPair) (files : Files) (o u : Option File)
      → files private_key ≡ o
      → files public_key ≡ u
      → Ensured pair files (ensure_by private_key public_key pair (exists o) (exists u) files)
  unfolding Restricted
  ensured (s, t) files (some a) (some b) ea eb =
      let (pair, others) = restricted a b files ea eb in
      inl (
        refl,
        rw (ea, eb) refl,
        contents s t files (restrict_pair private_key public_key files) (some a) (some b) ea eb
            pair,
        others,
      )
  ensured (s, t) files none none ea eb =
      let (hs, ht) = both-HasPair s t files in
      let (pair, others) = restricted (private_file s) (public_file t) (both s t files) hs ht in
      inl (
        refl,
        rw (ea, eb) refl,
        contents s t files (restrict_pair private_key public_key (both s t files)) none none ea eb
            pair,
        λ other h k. others other h k ∙ others_kept s t files other h k,
      )
  ensured (s, t) files (some a) none ea eb = inr (refl, rw (ea, eb) (λ e. cc), refl)
  ensured (s, t) files none (some b) ea eb = inr (refl, rw (ea, eb) (λ e. cc), refl)

  -- Where both files of a key pair exist, or neither, both are there afterwards, only the private one closed to others, with
  -- the texts that they had, or else with the new pair's; no other file changes. Where only one exists, it is an error, and
  -- nothing changes.
  pub ensure_key_pair-Ensured :
      (pair : KeyPair) (files : Files)
      → Ensured pair files (ensure_key_pair private_key public_key pair files)
  unfolding ensure_key_pair
  ensure_key_pair-Ensured pair files =
      ensured pair files (files private_key) (files public_key) refl refl
