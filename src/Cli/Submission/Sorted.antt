-- ===== src/Cli/Submission/Sorted.antt =====
-- What Python's `sorted` makes of option names: the same names, in order.
use ezhpcy.Prelude.{◌≡◌, ◌↔◌, ◌⊎◌, refl, true, false, List, [], ◌∷◌, arith, Bool-cases, inl, inr}
use ezhpcy.Text.{Text}
use ezhpcy.Cli.Submission.{is_before, insert_sorted, sorted}

abbrev pub In : Text → List Text → Type 0
In x [] = ⊥
In x (y ∷ ys) = (x ≡ y) ⊎ In x ys

-- No text stands directly after one that it comes before.
abbrev pub IsSorted : List Text → Type 0
IsSorted [] = Unit
IsSorted (x ∷ []) = Unit
IsSorted (x ∷ y ∷ ys) = (is_before y x ≡ false) × IsSorted (y ∷ ys)

is_before-asymm : (s t : Text) → is_before s t ≡ true → is_before t s ≡ false
unfolding is_before
is_before-asymm [] [] h = cc
is_before-asymm (c ∷ s) [] h = cc
is_before-asymm [] (d ∷ t) h = refl
is_before-asymm (c ∷ s) (d ∷ t) h = ground (arith, is_before-asymm s t)

insert_before :
    (x y : Text) (ys : List Text)
    → is_before y x ≡ true
    → insert_sorted x (y ∷ ys) ≡ y ∷ insert_sorted x ys
unfolding insert_sorted
insert_before x y ys e = rw e refl

insert_here :
    (x y : Text) (ys : List Text) → is_before y x ≡ false → insert_sorted x (y ∷ ys) ≡ x ∷ y ∷ ys
unfolding insert_sorted
insert_here x y ys e = rw e refl

swapped : {A B C : Type 0} → A ⊎ (B ⊎ C) → B ⊎ (A ⊎ C)
swapped (inl a) = inr (inl a)
swapped (inr (inl b)) = inl b
swapped (inr (inr c)) = inr (inr c)

under : {A B C : Type 0} → (B → C) → A ⊎ B → A ⊎ C
under f (inl a) = inl a
under f (inr b) = inr (f b)

insert_sorted-In : (x y : Text) (ys : List Text) → In x (insert_sorted y ys) ↔ ((x ≡ y) ⊎ In x ys)
insert_sorted-In x y [] = unfold insert_sorted in ((λ h. h), (λ h. h))
insert_sorted-In x y (z ∷ zs) = elim (Bool-cases (is_before z y)) [
  | inr after ↦ rw (insert_here y z zs after) ((λ h. h), (λ h. h))
  | inl before ↦
      let (into, out) = insert_sorted-In x y zs in
      rw (insert_before y z zs before) ((λ h. swapped (under into h)), (λ h. under out (swapped h)))
]

pub sorted-In : (x : Text) (xs : List Text) → In x (sorted xs) ↔ In x xs
unfolding sorted
sorted-In x [] = ((λ h. h), (λ h. h))
sorted-In x (y ∷ ys) =
    let (into, out) = insert_sorted-In x y (sorted ys) in
    let (less, more) = sorted-In x ys in ((λ h. under less (into h)), (λ h. out (under more h)))

after_head :
    (x y : Text) (ys : List Text)
    → is_before y x ≡ true
    → IsSorted (y ∷ ys)
    → IsSorted (insert_sorted x ys)
    → IsSorted (y ∷ insert_sorted x ys)
after_head x y [] before h k = unfold insert_sorted in (is_before-asymm y x before, tt)
after_head x y (z ∷ zs) before (h, hs) k = elim (Bool-cases (is_before z x)) [
  | inl later ↦ rw (insert_before x z zs later) (h, rw (insert_before x z zs later) at k)
  | inr here ↦
      rw (insert_here x z zs here) (is_before-asymm y x before, rw (insert_here x z zs here) at k)
]

tail-IsSorted : (y : Text) (ys : List Text) → IsSorted (y ∷ ys) → IsSorted ys
tail-IsSorted y [] h = tt
tail-IsSorted y (z ∷ zs) (h, hs) = hs

insert_sorted-IsSorted : (x : Text) (xs : List Text) → IsSorted xs → IsSorted (insert_sorted x xs)
insert_sorted-IsSorted x [] h = unfold insert_sorted in tt
insert_sorted-IsSorted x (y ∷ ys) h = elim (Bool-cases (is_before y x)) [
  | inr here ↦ rw (insert_here x y ys here) (here, h)
  | inl before ↦
      rw (insert_before x y ys before)
        (after_head x y ys before h (insert_sorted-IsSorted x ys (tail-IsSorted y ys h)))
]

pub sorted-IsSorted : (xs : List Text) → IsSorted (sorted xs)
unfolding sorted
sorted-IsSorted [] = tt
sorted-IsSorted (x ∷ xs) = insert_sorted-IsSorted x (sorted xs) (sorted-IsSorted xs)
