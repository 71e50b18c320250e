-- ===== src/Text/Table.antt =====
-- Tables by names, such as the files of a directory: one entry changes at a time.
use ezhpcy.Prelude.{◌≡◌, ◌≢◌, refl, ◌⊎◌, inl, inr, Bool-cases, if◌then◌else◌}
use ezhpcy.Text.{Text, text_eq, text_eq_iff, text_eq_refl}

-- Where `b` is `a` or not
pub text_cases : (a b : Text) → (a ≡ b) ⊎ (a ≢ b)
text_cases a b = elim (Bool-cases (text_eq a b)) [
  | inl same ↦ inl ((text_eq_iff a b).0 same)
  | inr other ↦ inr (λ e. cc ((text_eq_iff a b).1 e, other))
]

module _ {A : Type 0} where
  unfoldable pub put : Text → A → (Text → A) → Text → A
  unfolding text_eq
  put name entry table other = if text_eq name other then entry else table other

  pub put_same : (name : Text) (entry : A) (table : Text → A) → put name entry table name ≡ entry
  unfolding put
  put_same name entry table = rw (text_eq_refl name) refl

  pub put_other :
      (name other : Text) (entry : A) (table : Text → A)
      → name ≢ other
      → put name entry table other ≡ table other
  unfolding put
  put_other name other entry table h = elim (Bool-cases (text_eq name other)) [
    | inl same ↦ absurd (h ((text_eq_iff name other).0 same))
    | inr apart ↦ rw apart refl
  ]
