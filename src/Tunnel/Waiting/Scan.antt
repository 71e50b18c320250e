-- ===== src/Tunnel/Waiting/Scan.antt =====
-- A loop over answers that each end it or let it go on.
use ezhpcy.Prelude.{
  ◌≡◌, ◌∙◌, refl, sym, ap, Option, none, some, List, [], ◌∷◌, ◌++◌, All, Option-cases, inl, inr,
}
use ezhpcy.Prelude.Result.{Result, ok, err}
use ezhpcy.Tunnel.Waiting.{WaitError, timed_out}

-- The answers before the one that ends a wait, which say to go on, that one, and the rest.
pub record Ends {A B : Type 0} (say : A → Option (Result WaitError B)) (answers : List A)
    (out : Result WaitError B) : Type 0 where
  pub before : List A
  pub last : A
  pub after : List A
  pub shape : answers ≡ before ++ last ∷ after
  pub quiet : All (λ a. say a ≡ none) before
  pub decided : say last ≡ some out

module _ {A B : Type 0} (say : A → Option (Result WaitError B)) where
  -- The loop that both waits are.
  unfoldable pub scan : List A → Result WaitError B
  scan [] = err timed_out
  scan (a ∷ answers) = let rest = scan answers in elim (say a) [ some r ↦ r | none ↦ rest ]

  scan_next : (a : A) (answers : List A) → say a ≡ none → scan (a ∷ answers) ≡ scan answers
  unfolding scan
  scan_next a answers h = rw (h, scan) refl

  scan_last :
      (a : A) (answers : List A) (r : Result WaitError B) → say a ≡ some r → scan (a ∷ answers) ≡ r
  unfolding scan
  scan_last a answers r h = rw (h, scan) refl

  pub scan-Ends : (answers : List A) (b : B) → scan answers ≡ ok b → Ends say answers (ok b)
  scan-Ends [] b h = unfold scan in cc
  scan-Ends (a ∷ answers) b h = elim (Option-cases (say a)) [
    | inl quiet ↦
        let found = scan-Ends answers b (sym (scan_next a answers quiet) ∙ h) in
        record {
          before = a ∷ found.before;
          last = found.last;
          after = found.after;
          shape = ap (λ r. a ∷ r) found.shape;
          quiet = (quiet, found.quiet);
          decided = found.decided;
        }
    | inr (r, says) ↦ record {
      before = [];
      last = a;
      after = answers;
      shape = refl;
      quiet = tt;
      decided = says ∙ ap some (sym (scan_last a answers r says) ∙ h);
    }
  ]

  pub scan-reached :
      (before : List A) (a : A) (after : List A) (r : Result WaitError B)
      → All (λ x. say x ≡ none) before
      → say a ≡ some r
      → scan (before ++ a ∷ after) ≡ r
  scan-reached [] a after r h says = scan_last a after r says
  scan-reached (x ∷ before) a after r (quiet, h) says =
      scan_next x (before ++ a ∷ after) quiet ∙ scan-reached before a after r h says

-- What is left to do after an answer.
abbrev pub after :
    {B : Type 0} → Option (Result WaitError B) → Result WaitError B → Result WaitError B
after said rest = elim said [ some r ↦ r | none ↦ rest ]
