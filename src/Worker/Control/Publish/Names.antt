-- ===== src/Worker/Control/Publish/Names.antt =====
-- The names of leases.
use ezhpcy.Prelude.{
  ℕ, ◌<◌, ◌≡◌, ◌≢◌, ◌∙◌, refl, sym, ap, false, Option, none, some, List, [], ◌∷◌, ◌++◌, arith,
}
use ezhpcy.Text.{Text, codes, show_padded, digits_value, strip_prefix, strip_prefix-append}
use ezhpcy.Text.Number.Decimal.{padded_value}
use ezhpcy.Path.{PosixPath}
use ezhpcy.Worker.Control.{lease_name, lease_path}

abbrev last_part : List Text → Text
last_part [] = []
last_part (x ∷ []) = x
last_part (x ∷ y ∷ ys) = last_part (y ∷ ys)

last_part-append : (xs : List Text) (x : Text) → last_part (xs ++ x ∷ []) ≡ x
last_part-append [] x = refl
last_part-append (y ∷ []) x = refl
last_part-append (y ∷ z ∷ xs) x = last_part-append (z ∷ xs) x

-- The sequence number in a lease's name.
sequence_in : Text → Option ℕ
sequence_in name = elim (strip_prefix (codes "lease.") name) [
  | none ↦ none
  | some digits ↦ digits_value 0 false digits
]

abbrev sequence_of : PosixPath → Option ℕ
sequence_of p = sequence_in (last_part p.parts)

sequence_in-lease : (n : ℕ) → sequence_in (codes "lease." ++ show_padded 20 n) ≡ some n
unfolding sequence_in
sequence_in-lease n =
    rw (strip_prefix-append (codes "lease.") (show_padded 20 n), sequence_in) (padded_value 20 n)

sequence_of-lease_path :
    (directory : PosixPath) (n : ℕ) → sequence_of (lease_path directory n) ≡ some n
unfolding lease_path lease_name
sequence_of-lease_path directory n =
    ap sequence_in (last_part-append directory.parts (codes "lease." ++ show_padded 20 n))
    ∙ sequence_in-lease n

pub lease_path-injective :
    (directory : PosixPath) (m n : ℕ) → m < n → lease_path directory m ≢ lease_path directory n
lease_path-injective directory m n less e =
    let same : some m ≡ some n =
      sym (sequence_of-lease_path directory m)
      ∙ ap sequence_of e
      ∙ sequence_of-lease_path directory n in
    let equal : m ≡ n = cc in omega arith
