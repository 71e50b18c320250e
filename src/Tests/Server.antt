-- ===== src/Tests/Server.antt =====
-- An SFTP server that keeps its files in memory.
use ezhpcy.Prelude.{
  ◌≡◌, ◌≢◌, refl, Bool, true, false, ◌&&◌, Option, none, some, List, [], ◌∷◌, arith, if◌then◌else◌,
  Bool-cases, inl, inr,
}
use ezhpcy.Prelude.Result.{Result, ok, err}
use ezhpcy.Text.{Text, text_eq, text_eq_iff, text_eq_refl}
use ezhpcy.Path.{PosixPath}
use ezhpcy.Worker.Control.{SftpError, no_such_file, Sftp}
use ezhpcy.Worker.Control.Publish.{FileSystem}

parts_eq : List Text → List Text → Bool
parts_eq [] [] = true
parts_eq [] (y ∷ ys) = false
parts_eq (x ∷ xs) [] = false
parts_eq (x ∷ xs) (y ∷ ys) = text_eq x y && parts_eq xs ys

parts_eq_refl : (xs : List Text) → parts_eq xs xs ≡ true
unfolding parts_eq
parts_eq_refl [] = refl
parts_eq_refl (x ∷ xs) = rw (text_eq_refl x) (parts_eq_refl xs)

parts_eq_sound : (xs ys : List Text) → parts_eq xs ys ≡ true → xs ≡ ys
unfolding parts_eq
parts_eq_sound [] [] h = refl
parts_eq_sound [] (y ∷ ys) h = cc
parts_eq_sound (x ∷ xs) [] h = cc
parts_eq_sound (x ∷ xs) (y ∷ ys) h = ground (arith, text_eq_iff x y, parts_eq_sound xs ys)

unfoldable pub path_eq : PosixPath → PosixPath → Bool
unfolding parts_eq
path_eq p q = text_eq p.root q.root && parts_eq p.parts q.parts

path_eq_refl : (p : PosixPath) → path_eq p p ≡ true
unfolding path_eq
path_eq_refl p = rw (text_eq_refl p.root) (parts_eq_refl p.parts)

both : (a b : Bool) → (a && b) ≡ true → (a ≡ true) × (b ≡ true)
both a b h = ground arith

path_eq_sound : (p q : PosixPath) → path_eq p q ≡ true → p ≡ q
unfolding path_eq
path_eq_sound p q h =
    let (r, s) = both (text_eq p.root q.root) (parts_eq p.parts q.parts) h in
    cc ((text_eq_iff p.root q.root).0 r, parts_eq_sound p.parts q.parts s)

abbrev pub Files : Type 0
Files = PosixPath → Option Text

unfoldable pub put : PosixPath → Option Text → Files → Files
put p t s q = if path_eq p q then t else s q

put-same : (p : PosixPath) (t : Option Text) (s : Files) → put p t s p ≡ t
unfolding put
put-same p t s = rw (path_eq_refl p) refl

put-other : (p q : PosixPath) (t : Option Text) (s : Files) → p ≢ q → put p t s q ≡ s q
unfolding put
put-other p q t s h = elim (Bool-cases (path_eq p q)) [
  | inl same ↦ absurd (h (path_eq_sound p q same))
  | inr other ↦ rw other refl
]

-- A rename to the same name is not needed here; it drops the file.
abbrev moved : Option Text → PosixPath → PosixPath → Files → Result SftpError Unit × Files
moved none p q s = (err no_such_file, s)
moved (some t) p q s = (ok tt, put q (some t) (put p none s))

abbrev readable : Option Text → Result SftpError Text
readable none = err no_such_file
readable (some t) = ok t

abbrev pub memory : Sftp
memory = record {
  State = Files;
  write = λ p t s. (ok tt, put p (some t) s);
  posix_rename = λ p q s. moved (s p) p q s;
  remove = λ p s. (ok tt, put p none s);
  read = λ p s. (readable (s p), s);
}

moved-contents :
    (t : Option Text) (p q : PosixPath) (s : Files)
    → (moved t p q s).0 ≡ ok tt
    → (moved t p q s).1 q ≡ t
moved-contents none p q s h = cc
moved-contents (some t) p q s h = put-same q (some t) (put p none s)

pub memory_files : FileSystem memory
memory_files = record {
  contents = λ s p. s p;
  write-contents = λ p t s h. put-same p (some t) s;
  rename-contents = λ p q s h. moved-contents (s p) p q s h;
  remove-contents = λ p q s h. put-other p q none s h;
}
