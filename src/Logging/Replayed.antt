-- ===== src/Logging/Replayed.antt =====
-- What an error brings out.
use ezhpcy.Prelude.{
  ℕ, zero, suc, ◌≡◌, ◌∙◌, refl, sym, ap, true, false, ◌&&◌, List, [], ◌∷◌, ◌++◌, append-nil,
  append_assoc, ltb, leb, ◌<◌, ◌≤◌, ◌+◌, ◌-◌, length, length-append, drop, All, arith, Bool-cases,
  inl, inr, if◌then◌else◌,
}
use ezhpcy.Logging.{Entry, error, Output, handle, handle_all, last_of, Replay, replay}

module _ {A : Type 0} where
  length-drop : (n : ℕ) (xs : List A) → length (drop n xs) ≡ length xs - n
  length-drop zero xs = omega arith
  length-drop (suc n) [] = omega arith
  length-drop (suc n) (x ∷ xs) = length-drop n xs ∙ omega arith

  drop-drop :
      (k m : ℕ) (xs ys : List A)
      → k ≤ length xs
      → drop m (drop k xs ++ ys) ≡ drop (k + m) (xs ++ ys)
  drop-drop zero m xs ys h = ap (λ n. drop n (xs ++ ys)) (omega arith)
  drop-drop (suc k) m [] ys h = absurd (omega (arith, h))
  drop-drop (suc k) m (x ∷ xs) ys h =
      drop-drop k m xs ys (omega (arith, h)) ∙ ap (λ n. drop n (x ∷ (xs ++ ys))) (suc_add k m)
    where
      suc_add : (k m : ℕ) → suc (k + m) ≡ suc k + m
      suc_add k m = omega arith

-- A queue of bounded length that takes one more
last_of-append :
    (capacity : ℕ) (xs ys : List Entry)
    → length ys ≡ 1
    → last_of capacity (last_of capacity xs ++ ys) ≡ last_of capacity (xs ++ ys)
last_of-append capacity xs ys h =
    let k = length xs - capacity in
    drop-drop k (length (drop k xs ++ ys) - capacity) xs ys (omega arith)
    ∙ ap (λ n. drop n (xs ++ ys))
        (omega (arith, h, length-append xs ys, length-append (drop k xs) ys, length-drop k xs))

not_error : (entry : Entry) → entry.level < error → leb error entry.level ≡ false
not_error entry h = ground (arith, h)

at_least : (level least : ℕ) → least ≤ level → (ltb level least ≡ false) × (leb least level ≡ true)
at_least level least h = ground (arith, h)

drop-nil : (n : ℕ) → drop {A = Entry} n [] ≡ []
drop-nil zero = refl
drop-nil (suc n) = refl

module _ (capacity : ℕ) (target : Output) where
  abbrev pub replay_all : List Entry → Replay → Replay
  replay_all [] state = state
  replay_all (entry ∷ entries) state = replay_all entries (replay capacity target entry state)

  -- The records that the target does not show and that an error is to bring out, and those that it shows
  abbrev pub hidden : List Entry → List Entry
  hidden [] = []
  hidden (entry ∷ entries) =
      let rest = hidden entries in
      if ltb entry.level target.level && entry.replay_on_error then entry ∷ rest else rest

  abbrev pub visible : List Entry → List Entry
  visible [] = []
  visible (entry ∷ entries) =
      let rest = visible entries in if ltb entry.level target.level then rest else entry ∷ rest

  -- Before any error
  quiet :
      (entries before : List Entry) (shown : List Entry)
      → All (λ (e : Entry). e.level < error) entries
      → replay_all entries (record { kept = last_of capacity before; shown = shown }) ≡ record {
        kept = last_of capacity (before ++ hidden entries);
        shown = handle_all target (visible entries) shown;
      }
  unfolding replay
  quiet [] before shown h =
      ap (λ k. record { kept = last_of capacity k; shown = shown }) (sym (append-nil before))
  quiet (entry ∷ entries) before shown (h, hs) = elim (Bool-cases (ltb entry.level target.level)) [
    | inl low ↦ elim (Bool-cases entry.replay_on_error) [
      | inl context ↦
          simp (low, context)
            (ap (λ k. replay_all entries (record { kept = k; shown = shown }))
                (last_of-append capacity before (entry ∷ []) refl)
              ∙ quiet entries (before ++ entry ∷ []) shown hs
              ∙ ap
                  (λ k. record {
                    kept = last_of capacity k;
                    shown = handle_all target (visible entries) shown;
                  })
                  (append_assoc before (entry ∷ []) (hidden entries)))
      | inr plain ↦ rw (low, plain) (quiet entries before shown hs)
    ]
    | inr high ↦ rw (high, not_error entry h) (quiet entries before (handle target entry shown) hs)
  ]

  -- After any records below ERROR, an ERROR that the target shows is preceded by the last `capacity` of the records that were
  -- not shown but kept for it, in their order, and by all that were shown at once; and nothing is kept any more.
  pub replay-error :
      (entries : List Entry) (entry : Entry)
      → All (λ (e : Entry). e.level < error) entries
      → error ≤ entry.level
      → target.level ≤ entry.level
      → replay capacity target entry (replay_all entries (record { kept = []; shown = [] }))
        ≡ record {
          kept = [];
          shown = handle target entry (
              handle_all target
                (last_of capacity (hidden entries))
                (handle_all target (visible entries) []));
        }
  unfolding replay
  replay-error entries entry h is_error is_shown =
      let start =
        ap (λ k. replay_all entries (record { kept = k; shown = [] }))
          (sym (drop-nil (0 - capacity))) in
      ap (replay capacity target entry) (start ∙ quiet entries [] [] h)
      ∙ rw ((at_least entry.level target.level is_shown).0, (at_least entry.level error is_error).1)
          refl
