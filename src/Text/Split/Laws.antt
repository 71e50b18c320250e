-- ===== src/Text/Split/Laws.antt =====
-- What `strip_prefix` and `span` return.
use ezhpcy.Prelude.{ℕ, ◌≡◌, ◌≢◌, refl, Bool, true, false, some, [], ◌∷◌, ◌++◌, arith, All}
use ezhpcy.Text.Chars.{Text}
use ezhpcy.Text.Split.{before, after, strip_prefix, span}

pub strip_prefix_sound : (p s r : Text) → strip_prefix p s ≡ some r → s ≡ p ++ r
unfolding strip_prefix
strip_prefix_sound [] s r h = ground arith
strip_prefix_sound (x ∷ xs) [] r h = cc
strip_prefix_sound (x ∷ xs) (y ∷ ys) r h = ground (arith, strip_prefix_sound xs ys r)

pub span-append : (p : ℕ → Bool) (s : Text) → (span p s).0 ++ (span p s).1 ≡ s
unfolding span
span-append p [] = refl
span-append p (c ∷ s) = ground (arith, span-append p s)

abbrev pub Satisfies : (ℕ → Bool) → ℕ → Type 0
Satisfies p c = p c ≡ true

pub span-All : (p : ℕ → Bool) (s : Text) → All (Satisfies p) (span p s).0
unfolding span
span-All p [] = tt
span-All p (c ∷ s) = ground (arith, span-All p s)

-- A start in the class, up to a character outside it.
pub span-append_stop :
    (p : ℕ → Bool) (a : Text) (c : ℕ) (s : Text)
    → All (Satisfies p) a
    → p c ≡ false
    → span p (a ++ c ∷ s) ≡ (a, c ∷ s)
unfolding span
span-append_stop p [] c s h stop = ground arith
span-append_stop p (x ∷ a) c s h stop = ground (arith, span-append_stop p a c s h.1 stop)

-- The text before the first separator, and the text after it.
pub before-append : (c : ℕ) (a s : Text) → All (λ x. x ≢ c) a → before c (a ++ c ∷ s) ≡ a
unfolding before
before-append c [] s h = ground arith
before-append c (x ∷ a) s h = ground (arith, before-append c a s h.1)

pub after-append : (c : ℕ) (a s : Text) → All (λ x. x ≢ c) a → after c (a ++ c ∷ s) ≡ s
unfolding after
after-append c [] s h = ground arith
after-append c (x ∷ a) s h = ground (arith, after-append c a s h.1)
