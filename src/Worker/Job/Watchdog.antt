-- ===== src/Worker/Job/Watchdog.antt =====
-- The watchdog: which lease it takes for the latest, and when it gives the tunnel up.
use ezhpcy.Prelude.{
  ℕ, ◌-◌, ◌≤◌, ◌≡◌, ◌≢◌, ◌∙◌, refl, sym, ap, Bool, true, false, Option, none, some, List, [], ◌∷◌,
  ◌++◌, arith, All, All-append, leb, if◌then◌else◌, inl, inr, ◌⊎◌, append_assoc,
}
use ezhpcy.Text.{Text, text_eq_refl, show, split, is_space}
use ezhpcy.Text.Split.Laws.{Satisfies}
use ezhpcy.Text.Split.Words.{IsWord, IsUnspaced}
use ezhpcy.Text.Number.Decimal.{
  show-IsWord, show-IsAsciiDigit, IsAsciiDigit, shown_value, all_chars-true,
}
use ezhpcy.Worker.Control.{lease_line}
use ezhpcy.Worker.Job.{
  newer, is_newer, first_line, nonempty, is_ascii_digit, sequence_number, lease_of_fields,
  lease_sequence, latest_from, latest_lease_sequence, Reason, sshd_exited, heartbeat_timeout, Round,
  Watch, observe, watch,
}

-- Both have a value, and the first is at most the second; nothing is below any.
abbrev pub IsAtMost : Option ℕ → Option ℕ → Type 0
IsAtMost none y = Unit
IsAtMost (some m) none = ⊥
IsAtMost (some m) (some n) = m ≤ n

IsAtMost-refl : (x : Option ℕ) → IsAtMost x x
IsAtMost-refl none = tt
IsAtMost-refl (some n) = omega arith

IsAtMost-trans : (x y z : Option ℕ) → IsAtMost x y → IsAtMost y z → IsAtMost x z
IsAtMost-trans none y z h k = tt
IsAtMost-trans (some m) none z h k = elim h [ ]
IsAtMost-trans (some m) (some n) none h k = elim k [ ]
IsAtMost-trans (some m) (some n) (some o) h k = omega arith

newer-IsAtMost : (x y : Option ℕ) → IsAtMost x (newer x y) × IsAtMost y (newer x y)
newer-IsAtMost none none = (tt, tt)
newer-IsAtMost none (some n) = (tt, omega arith)
newer-IsAtMost (some m) none = (omega arith, tt)
newer-IsAtMost (some m) (some n) = ground arith

latest_from-IsAtMost :
    (token : Text) (latest : Option ℕ) (files : List Text)
    → IsAtMost latest (latest_from token latest files)
      × All (λ f. IsAtMost (lease_sequence token f) (latest_from token latest files)) files
unfolding latest_from
latest_from-IsAtMost token latest [] = (IsAtMost-refl latest, tt)
latest_from-IsAtMost token latest (f ∷ files) =
    let next = newer (lease_sequence token f) latest in
    let (above, all) = latest_from-IsAtMost token next files in
    let (one, two) = newer-IsAtMost (lease_sequence token f) latest in
    (
      IsAtMost-trans latest next _ two above,
      (IsAtMost-trans (lease_sequence token f) next _ one above, all),
    )

-- The latest lease is not older than any lease of the directory that names the run's token.
pub latest_lease_sequence-IsAtMost :
    (token : Text) (files : List Text)
    → All (λ f. IsAtMost (lease_sequence token f) (latest_lease_sequence token files)) files
unfolding latest_lease_sequence
latest_lease_sequence-IsAtMost token files = (latest_from-IsAtMost token none files).1

IsNotIn : ℕ → Text → Type 0
IsNotIn c s = All (λ x. x ≢ c) s

unspaced_other : (c x : ℕ) → is_space c ≡ true → IsUnspaced x → x ≢ c
unspaced_other c x h free same = cc

unspaced-IsNotIn : (c : ℕ) (s : Text) → is_space c ≡ true → All IsUnspaced s → IsNotIn c s
unfolding IsNotIn
unspaced-IsNotIn c [] space h = tt
unspaced-IsNotIn c (x ∷ s) space (free, h) =
    (unspaced_other c x space free, unspaced-IsNotIn c s space h)

first_line-append : (s : Text) → IsNotIn b'\n' s → first_line (s ++ b'\n' ∷ []) ≡ some s
unfolding first_line IsNotIn
first_line-append [] h = refl
first_line-append (c ∷ s) (other, h) = ground (arith, first_line-append s h)

split_last : (c : ℕ) (w : Text) → IsNotIn c w → split c w ≡ w ∷ []
unfolding split IsNotIn
split_last c [] h = refl
split_last c (x ∷ w) (other, h) = ground (arith, split_last c w h)

split-append : (c : ℕ) (w s : Text) → IsNotIn c w → split c (w ++ c ∷ s) ≡ w ∷ split c s
unfolding split IsNotIn
split-append c [] s h = ground arith
split-append c (x ∷ w) s (other, h) = ground (arith, split-append c w s h)

word-IsUnspaced : (w : Text) → IsWord w → All IsUnspaced w
word-IsUnspaced [] h = elim h [ ]
word-IsUnspaced (c ∷ w) h = h

nonempty_word : (w : Text) (ws : List Text) → IsWord w → nonempty (w ∷ ws) ≡ w ∷ nonempty ws
nonempty_word [] ws h = elim h [ ]
nonempty_word (c ∷ w) ws h = refl

lease_fields :
    (t s : Text) → IsWord t → IsWord s → nonempty (split b' ' (t ++ b' ' ∷ s)) ≡ t ∷ s ∷ []
unfolding is_space
lease_fields t s ht hs =
    let no_t = unspaced-IsNotIn b' ' t refl (word-IsUnspaced t ht) in
    let no_s = unspaced-IsNotIn b' ' s refl (word-IsUnspaced s hs) in
    ap nonempty (split-append b' ' t s no_t ∙ ap (λ r. t ∷ r) (split_last b' ' s no_s))
    ∙ nonempty_word t (s ∷ []) ht
    ∙ ap (λ r. t ∷ r) (nonempty_word s [] hs)

ascii_digits : (s : Text) → All IsAsciiDigit s → All (Satisfies is_ascii_digit) s
ascii_digits [] h = tt
ascii_digits (c ∷ s) (d, h) = (ground (arith, d), ascii_digits s h)

shown_number : (n : ℕ) → sequence_number (show n) ≡ some n
shown_number n =
    rw
      (
        all_chars-true is_ascii_digit (show n) (ascii_digits (show n) (show-IsAsciiDigit n)),
        sequence_number,
      )
      (shown_value n)

lease_of_shown : (t : Text) (n : ℕ) → lease_of_fields t (t ∷ show n ∷ []) ≡ some n
lease_of_shown t n = rw (text_eq_refl t, lease_of_fields) (shown_number n)

lease_read :
    (token content line : Text) (fields : List Text)
    → first_line content ≡ some line
    → nonempty (split b' ' line) ≡ fields
    → lease_sequence token content ≡ lease_of_fields token fields
unfolding lease_sequence
lease_read token content line fields e f = rw (e, lease_sequence) (ap (lease_of_fields token) f)

-- The watchdog reads the lease that the tunnel writes, whatever word the token is.
pub lease_sequence-lease_line :
    (token : Text) (n : ℕ) → IsWord token → lease_sequence token (lease_line token n) ≡ some n
unfolding lease_line is_space IsNotIn
lease_sequence-lease_line token n h =
    let line = token ++ b' ' ∷ show n in
    let whole =
      All-append (λ x. x ≢ b'\n') token (b' ' ∷ show n)
        (unspaced-IsNotIn b'\n' token refl (word-IsUnspaced token h))
        (
          omega arith,
          unspaced-IsNotIn b'\n' (show n) refl (word-IsUnspaced (show n) (show-IsWord n)),
        ) in
    lease_read token (token ++ (b' ' ∷ show n ++ b'\n' ∷ [])) line (token ∷ show n ∷ [])
      (ap first_line (sym (append_assoc token (b' ' ∷ show n) (b'\n' ∷ [])))
        ∙ first_line-append line whole)
      (lease_fields token (show n) h (show-IsWord n))
    ∙ lease_of_shown token n

-- A round whose latest lease is no newer than the last one seen.
unfoldable pub IsStale : Watch → Round → Type 0
IsStale w r = is_newer r.sequence w.last_sequence ≡ false

observe_stale : (w : Watch) (r : Round) → IsStale w r → observe w r ≡ w
unfolding observe IsStale
observe_stale w r stale = rw stale refl

abbrev outcome : ℕ → Watch → Round → Option Reason → Option Reason
outcome timeout w r rest =
    if r.sshd_runs
    then (if leb timeout (r.seconds - w.last_seen) then some heartbeat_timeout else rest)
    else some sshd_exited

watch_round :
    (timeout : ℕ) (w : Watch) (r : Round) (rounds : List Round)
    → IsStale w r
    → watch timeout w (r ∷ rounds) ≡ outcome timeout w r (watch timeout w rounds)
unfolding watch
watch_round timeout w r rounds stale =
    ap (λ v. outcome timeout v r (watch timeout v rounds)) (observe_stale w r stale)

ended :
    (b late : Bool) (rest : Option Reason)
    → (late ≡ true) ⊎ ((x : Reason) × (rest ≡ some x))
    → (x : Reason) × ((if b
          then (if late then some heartbeat_timeout else rest)
          else some sshd_exited)
        ≡ some x)
ended false late rest h = (sshd_exited, refl)
ended true true rest h = (heartbeat_timeout, refl)
ended true false rest (inl h) = cc
ended true false rest (inr h) = h

watch_stale :
    (timeout : ℕ) (w : Watch) (r : Round) (rounds : List Round)
    → IsStale w r
    → (leb timeout (r.seconds - w.last_seen) ≡ true)
      ⊎ ((x : Reason) × (watch timeout w rounds ≡ some x))
    → (x : Reason) × (watch timeout w (r ∷ rounds) ≡ some x)
watch_stale timeout w r rounds stale h =
    let (x, e) =
      ended r.sshd_runs (leb timeout (r.seconds - w.last_seen)) (watch timeout w rounds) h in
    (x, watch_round timeout w r rounds stale ∙ e)

-- A tunnel that renews its lease no more is given up: the loop has ended by the first round that is
-- `timeout` seconds after the last newer lease.
pub watch-ends :
    (timeout : ℕ) (w : Watch) (rounds : List Round) (r : Round)
    → All (IsStale w) (rounds ++ r ∷ [])
    → timeout ≤ r.seconds - w.last_seen
    → (x : Reason) × (watch timeout w (rounds ++ r ∷ []) ≡ some x)
watch-ends timeout w [] r (stale, _) late =
    watch_stale timeout w r [] stale (inl (ground (arith, late)))
watch-ends timeout w (q ∷ rounds) r (stale, h) late =
    watch_stale timeout w q (rounds ++ r ∷ []) stale (inr (watch-ends timeout w rounds r h late))
