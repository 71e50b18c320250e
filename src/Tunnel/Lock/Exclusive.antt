-- ===== src/Tunnel/Lock/Exclusive.antt =====
-- One tunnel for each alias.
use ezhpcy.Prelude.{
  ℕ, ◌≡◌, ◌≢◌, ◌∙◌, refl, sym, ap, subst, Bool, true, false, some, List, [], ◌∷◌, ◌⊎◌, inl, inr,
  ◌↔◌, Option-cases, All, if◌then◌else◌,
}
use ezhpcy.Prelude.Exec.{ok}
use ezhpcy.Text.{Text}
use ezhpcy.Text.Table.{put, put_same, put_other, text_cases}
use ezhpcy.Config.Alias.{validate_alias, validate_alias_safe}
use ezhpcy.Tunnel.Lock.{
  LockFile, absent, free, held, Locks, acquire, acquire_lock, entered, enter_alias_lock, ask,
  alias_locked, Use, starts, asks, ends, is_ok, use_locks, started,
}

-- Asking takes no lock away and leaves none.
ask_keeps :
    (p : ℕ) (a : Text) (l : LockFile) (locks : Locks) (b : Text)
    → locks a ≡ l
    → (ask p a l locks).1 b ≡ locks b
ask_keeps p a absent locks b e = refl
ask_keeps p a (held q) locks b e = rw e refl
ask_keeps p a free locks b e = rw e (released (text_cases a b))
  where
    released : (a ≡ b) ⊎ (a ≢ b) → put a free (put a (held p) locks) b ≡ locks b
    released (inl same) =
        subst (λ c. put a free (put a (held p) locks) c ≡ locks c) same
          (put_same a free (put a (held p) locks) ∙ sym e)
    released (inr other) =
        put_other a b free (put a (held p) locks) other ∙ put_other a b (held p) locks other

ask_says :
    (p : ℕ) (a : Text) (l : LockFile) (locks : Locks)
    → locks a ≡ l
    → ((ask p a l locks).0 ≡ true) ↔ ((q : ℕ) × (l ≡ held q))
ask_says p a absent locks e = ((λ h. cc), (λ (q, h). cc))
ask_says p a (held q) locks e = ((λ h. (q, refl)), (λ h. rw e refl))
ask_says p a free locks e = ((λ h. let bad = rw e at h in cc), (λ (q, h). cc))

valid_name : (alias name : Text) → validate_alias alias ≡ some name → name ≡ alias
valid_name alias name h = (validate_alias_safe alias name h).0

-- Whether a tunnel runs for `a`, to whoever may ask: a valid alias's answer is whether its lock is held, and asking changes
-- no alias's lock.
pub alias_locked-held :
    (p : ℕ) (a name : Text) (locks : Locks)
    → validate_alias a ≡ some name
    → (b : Bool) × ((alias_locked p a locks).0 ≡ ok b)
      × ((b ≡ true) ↔ ((q : ℕ) × (locks a ≡ held q)))
      × ((c : Text) → (alias_locked p a locks).1 c ≡ locks c)
unfolding alias_locked
alias_locked-held p a name locks h =
    let same = valid_name a name h in
    (
      (ask p name (locks name) locks).0,
      rw (h, alias_locked) refl,
      subst (λ n. ((ask p n (locks n) locks).0 ≡ true) ↔ ((q : ℕ) × (locks a ≡ held q))) (sym same)
          (ask_says p a (locks a) locks refl),
      λ c. rw (h, alias_locked) (ask_keeps p name (locks name) locks c refl),
    )

-- No use but the end of `a`'s tunnel
abbrev pub Leaves : Text → Use → Type 0
Leaves a (starts p b) = Unit
Leaves a (asks p b) = Unit
Leaves a (ends b) = b ≢ a

-- No start of a tunnel for `a`
abbrev pub IsElsewhere : Text → Use → Type 0
IsElsewhere a (starts p b) = b ≢ a
IsElsewhere a (asks p b) = Unit
IsElsewhere a (ends b) = Unit

module _ (a : Text) (p : ℕ) where
  acquire_held :
      (q : ℕ) (b : Text) (l : LockFile) (locks : Locks)
      → locks b ≡ l
      → locks a ≡ held p
      → ((acquire_lock q b l locks).1 a ≡ held p) × ((acquire_lock q b l locks).0 ≡ true → b ≢ a)
  acquire_held q b (held r) locks e h = (h, λ bad. cc)
  acquire_held q b free locks e h =
      let apart : b ≢ a = λ s. let t = ap locks s in cc in
      (put_other b a (held q) locks apart ∙ h, λ _. apart)
  acquire_held q b absent locks e h =
      let apart : b ≢ a = λ s. let t = ap locks s in cc in
      (put_other b a (held q) locks apart ∙ h, λ _. apart)

  entered_held :
      (b : Text) (r : Bool × Locks)
      → (r.1 a ≡ held p) × (r.0 ≡ true → b ≢ a)
      → ((entered b r).1 a ≡ held p) × (is_ok (entered b r).0 ≡ true → b ≢ a)
  entered_held b (true, locks) h = h
  entered_held b (false, locks) h = h

  acquire_valid :
      (q : ℕ) (b name : Text) (locks : Locks)
      → validate_alias b ≡ some name
      → locks a ≡ held p
      → ((acquire q name locks).1 a ≡ held p) × ((acquire q name locks).0 ≡ true → b ≢ a)
  acquire_valid q b name locks valid h =
      subst (λ c. ((acquire q name locks).1 a ≡ held p) × ((acquire q name locks).0 ≡ true → c ≢ a))
        (valid_name b name valid) (acquire_held q name (locks name) locks refl h)

  enter_held :
      (q : ℕ) (b : Text) (locks : Locks)
      → locks a ≡ held p
      → ((enter_alias_lock q b locks).1 a ≡ held p)
        × (is_ok (enter_alias_lock q b locks).0 ≡ true → b ≢ a)
  unfolding enter_alias_lock
  enter_held q b locks h = elim (Option-cases (validate_alias b)) [
    | inl invalid ↦ rw (invalid, enter_alias_lock) (h, λ bad. cc)
    | inr (name, valid) ↦
        rw (valid, enter_alias_lock)
          (entered_held b (acquire q name locks) (acquire_valid q b name locks valid h))
  ]

  ask_held :
      (q : ℕ) (b : Text) (locks : Locks) → locks a ≡ held p → (alias_locked q b locks).1 a ≡ held p
  unfolding alias_locked
  ask_held q b locks h = elim (Option-cases (validate_alias b)) [
    | inl invalid ↦ rw (invalid, alias_locked) h
    | inr (name, valid) ↦ rw (valid, alias_locked) (ask_keeps q name (locks name) locks a refl ∙ h)
  ]

  use_held :
      (u : Use) (locks : Locks)
      → locks a ≡ held p
      → Leaves a u
      → ((use_locks u locks).1 a ≡ held p) × ((use_locks u locks).0 ≡ true → IsElsewhere a u)
  unfolding use_locks
  use_held (starts q b) locks h l = enter_held q b locks h
  use_held (asks q b) locks h l = (ask_held q b locks h, λ _. tt)
  use_held (ends b) locks h l = (put_other b a free locks l ∙ h, λ _. tt)

  if_all :
      (c : Bool) (u : Use) (us : List Use)
      → (c ≡ true → IsElsewhere a u)
      → All (IsElsewhere a) us
      → All (IsElsewhere a) (if c then u ∷ us else us)
  if_all true u us h hs = (h refl, hs)
  if_all false u us h hs = hs

  -- While a process holds an alias's lock, whatever the other tunnels and commands do, short of ending that tunnel, the
  -- process keeps it, and no start of a tunnel for the alias succeeds.
  pub started-IsElsewhere :
      (us : List Use) (locks : Locks)
      → locks a ≡ held p
      → All (Leaves a) us
      → ((started us locks).1 a ≡ held p) × All (IsElsewhere a) (started us locks).0
  unfolding started
  started-IsElsewhere [] locks h ls = (h, tt)
  started-IsElsewhere (u ∷ us) locks h (l, ls) =
      let (keeps, elsewhere) = use_held u locks h l in
      let (last, rest) = started-IsElsewhere us (use_locks u locks).1 keeps ls in
      (last, if_all (use_locks u locks).0 u (started us (use_locks u locks).1).0 elsewhere rest)
