-- ===== src/Logging/Oldest.antt =====
-- Which log files are removed.
use ezhpcy.Prelude.{
  ℕ, zero, suc, ◌≡◌, ◌∙◌, refl, ap, Bool, true, false, List, [], ◌∷◌, ◌+◌, ◌≤◌, length, take, drop,
  All, arith, Bool-cases, inl, inr,
}
use ezhpcy.Logging.{LogFile, insert, newest_first, remove_old_logs}

module _ {A : Type 0} where
  length-take-drop :
      (n : ℕ) (xs : List A)
      → (length (take n xs) + length (drop n xs) ≡ length xs) × (length (take n xs) ≤ n)
  length-take-drop zero xs = (omega arith, omega arith)
  length-take-drop (suc n) [] = (omega arith, omega arith)
  length-take-drop (suc n) (x ∷ xs) =
      let (a, b) = length-take-drop n xs in (omega (arith, a), omega (arith, b))

  take-All : (P : A → Type 0) (n : ℕ) (xs : List A) → All P xs → All P (take n xs)
  take-All P zero xs h = tt
  take-All P (suc n) [] h = tt
  take-All P (suc n) (x ∷ xs) (h, hs) = (h, take-All P n xs hs)

  drop-All : (P : A → Type 0) (n : ℕ) (xs : List A) → All P xs → All P (drop n xs)
  drop-All P zero xs h = h
  drop-All P (suc n) [] h = tt
  drop-All P (suc n) (x ∷ xs) (h, hs) = drop-All P n xs hs

-- `log` was written no later than `other`.
abbrev pub IsOlder : LogFile → LogFile → Type 0
IsOlder other log = log.0 ≤ other.0

abbrev IsDescending : List LogFile → Type 0
IsDescending [] = Unit
IsDescending (log ∷ logs) = All (IsOlder log) logs × IsDescending logs

IsOlder-trans :
    (a b : LogFile) (logs : List LogFile)
    → IsOlder a b
    → All (IsOlder b) logs
    → All (IsOlder a) logs
IsOlder-trans a b [] h hs = tt
IsOlder-trans a b (log ∷ logs) h (k, ks) = (omega (arith, h, k), IsOlder-trans a b logs h ks)

split-IsOlder :
    (n : ℕ) (logs : List LogFile)
    → IsDescending logs
    → All (λ (k : LogFile). All (IsOlder k) (drop n logs)) (take n logs)
split-IsOlder zero logs h = tt
split-IsOlder (suc n) [] h = tt
split-IsOlder (suc n) (log ∷ logs) (h, hs) =
    (drop-All (IsOlder log) n logs h, split-IsOlder n logs hs)

module _ (is_after : LogFile → LogFile → Bool)
    (after : (a b : LogFile) → is_after a b ≡ true → b.0 ≤ a.0)
    (before : (a b : LogFile) → is_after a b ≡ false → a.0 ≤ b.0) where
  insert-All :
      (P : LogFile → Type 0) (log : LogFile) (logs : List LogFile)
      → P log
      → All P logs
      → All P (insert is_after log logs)
  unfolding insert
  insert-All P log [] h hs = (h, tt)
  insert-All P log (other ∷ logs) h (k, ks) = elim (Bool-cases (is_after log other)) [
    | inl newer ↦ rw newer (h, (k, ks))
    | inr older ↦ rw older (k, insert-All P log logs h ks)
  ]

  insert-IsDescending :
      (log : LogFile) (logs : List LogFile)
      → IsDescending logs
      → IsDescending (insert is_after log logs)
  unfolding insert
  insert-IsDescending log [] h = (tt, tt)
  insert-IsDescending log (other ∷ logs) (h, hs) = elim (Bool-cases (is_after log other)) [
    | inl newer ↦
        let first = after log other newer in
        rw newer ((first, IsOlder-trans log other logs first h), (h, hs))
    | inr older ↦ rw older (
      insert-All (IsOlder other) log logs (before log other older) h,
      insert-IsDescending log logs hs,
    )
  ]

  insert-length :
      (log : LogFile) (logs : List LogFile) → length (insert is_after log logs) ≡ suc (length logs)
  unfolding insert
  insert-length log [] = refl
  insert-length log (other ∷ logs) = elim (Bool-cases (is_after log other)) [
    | inl newer ↦ rw newer refl
    | inr older ↦ rw older (ap suc (insert-length log logs))
  ]

  newest_first-IsDescending : (logs : List LogFile) → IsDescending (newest_first is_after logs)
  unfolding newest_first
  newest_first-IsDescending [] = tt
  newest_first-IsDescending (log ∷ logs) =
      insert-IsDescending log (newest_first is_after logs) (newest_first-IsDescending logs)

  newest_first-All :
      (P : LogFile → Type 0) (logs : List LogFile) → All P logs → All P (newest_first is_after logs)
  unfolding newest_first
  newest_first-All P [] h = tt
  newest_first-All P (log ∷ logs) (h, hs) =
      insert-All P log (newest_first is_after logs) h (newest_first-All P logs hs)

  newest_first-length : (logs : List LogFile) → length (newest_first is_after logs) ≡ length logs
  unfolding newest_first
  newest_first-length [] = refl
  newest_first-length (log ∷ logs) =
      insert-length log (newest_first is_after logs) ∙ ap suc (newest_first-length logs)

  -- Of a directory's log files at most `keep` stay, no file that is removed was written after one that stays, and each is one
  -- of the directory's: what holds of all of those holds of what stays and what goes, which are as many together. The order
  -- is by the time of the last write.
  pub remove_old_logs-IsOlder :
      (keep : ℕ) (logs : List LogFile)
      → (length (remove_old_logs is_after keep logs).0 ≤ keep)
        × All
            (λ (k : LogFile). All (IsOlder k) (remove_old_logs is_after keep logs).1)
            (remove_old_logs is_after keep logs).0
        × (length (remove_old_logs is_after keep logs).0
              + length (remove_old_logs is_after keep logs).1
            ≡ length logs)
        × ((P : LogFile → Type 0)
            → All P logs
            → All P (remove_old_logs is_after keep logs).0
              × All P (remove_old_logs is_after keep logs).1)
  unfolding remove_old_logs
  remove_old_logs-IsOlder keep logs =
      let sorted = newest_first is_after logs in
      let (sum, bound) = length-take-drop keep sorted in
      (
        bound,
        split-IsOlder keep sorted (newest_first-IsDescending logs),
        sum ∙ newest_first-length logs,
        λ P h.
            let all = newest_first-All P logs h in
            (take-All P keep sorted all, drop-All P keep sorted all),
      )
