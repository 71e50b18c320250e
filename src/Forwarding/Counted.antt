-- ===== src/Forwarding/Counted.antt =====
-- The number of connections that is reported.
use ezhpcy.Prelude.{
  ℕ, zero, suc, ◌+◌, ◌≡◌, ◌∙◌, refl, ap, Bool, true, false, List, [], ◌∷◌, ◌++◌, arith,
}
use ezhpcy.Prelude.Int.{ℤ, pos, negsuc, ◌+ℤ◌}
use ezhpcy.Forwarding.{
  count_closed, refused, Forwarder, ForwardedPort, Event, accepted, channel_opened, channel_failed,
  closed_end, port_closed, login_closed, opened, count, close_forwarder, join_channel, change_at,
  on_forwarder, refuse_channel, step, run,
}

abbrev one_if_open : Bool → ℕ
one_if_open true = 0
one_if_open false = 1

abbrev pub open_connections : List Forwarder → ℕ
open_connections [] = 0
open_connections (f ∷ fs) = one_if_open f.closed + open_connections fs

abbrev one_if : Bool → ℕ
one_if true = 1
one_if false = 0

-- A change counts a connection exactly when it closes it.
abbrev Counts : (Forwarder → Forwarder × Bool) → Type 0
Counts change =
    (f : Forwarder) → one_if_open (change f).0.closed + one_if (change f).1 ≡ one_if_open f.closed

change_at-Counts :
    (change : Forwarder → Forwarder × Bool)
    → Counts change
    → (i : ℕ) (fs : List Forwarder)
    → open_connections (change_at change i fs).0 + one_if (change_at change i fs).1
      ≡ open_connections fs
unfolding change_at
change_at-Counts change h zero [] = refl
change_at-Counts change h (suc i) [] = refl
change_at-Counts change h zero (f ∷ fs) = omega (arith, h f)
change_at-Counts change h (suc i) (f ∷ fs) = omega (arith, change_at-Counts change h i fs)

abbrev pub ReportsLast : List ℤ → ℤ → Type 0
ReportsLast [] n = n ≡ pos 0
ReportsLast (m ∷ ms) n = m ≡ n

abbrev pub IsCounted : ForwardedPort → Type 0
IsCounted p =
    (p.connections ≡ pos (open_connections p.forwarders)) × ReportsLast p.reported p.connections

closed_one : (n m : ℕ) (c : ℤ) → c ≡ pos n → m + 1 ≡ n → c +ℤ negsuc 0 ≡ pos m
unfolding ◌+ℤ◌
closed_one n m c e h = ground arith

opened_one : (n m : ℕ) (c : ℤ) → c ≡ pos n → m ≡ n + 1 → c +ℤ pos 1 ≡ pos m
unfolding ◌+ℤ◌
opened_one n m c e h = ground arith

count_closed-IsCounted :
    (counted : Bool) (p : ForwardedPort) (fs : List Forwarder)
    → IsCounted p
    → open_connections fs + one_if counted ≡ open_connections p.forwarders
    → IsCounted (count_closed counted (record p { forwarders = fs }))
unfolding count
count_closed-IsCounted true p fs (total, last) e =
    (closed_one (open_connections p.forwarders) (open_connections fs) p.connections total e, refl)
count_closed-IsCounted false p fs (total, last) e = (total ∙ ap pos (omega arith), last)

on_forwarder-IsCounted :
    (change : Forwarder → Forwarder × Bool) (i : ℕ) (p : ForwardedPort)
    → Counts change
    → IsCounted p
    → IsCounted (on_forwarder change i p)
on_forwarder-IsCounted change i p h counted =
    count_closed-IsCounted (change_at change i p.forwarders).1 p (change_at change i p.forwarders).0
      counted (change_at-Counts change h i p.forwarders)

close_counts :
    (f : Forwarder) (b : Bool)
    → f.closed ≡ b
    → one_if_open (close_forwarder f).0.closed + one_if (close_forwarder f).1 ≡ one_if_open f.closed
close_counts f true e = rw e refl
close_counts f false e = rw e refl

join_counts :
    (f : Forwarder) (b : Bool)
    → f.closed ≡ b
    → one_if_open (join_channel f).closed + 0 ≡ one_if_open f.closed
join_counts f true e = rw e refl
join_counts f false e = rw e refl

open_connections-append :
    (fs gs : List Forwarder)
    → open_connections (fs ++ gs) ≡ open_connections fs + open_connections gs
open_connections-append [] gs = omega arith
open_connections-append (f ∷ fs) gs = omega (arith, open_connections-append fs gs)

accepted-IsCounted :
    (p : ForwardedPort) (b : Bool) → p.listening ≡ b → IsCounted p → IsCounted (step p accepted)
unfolding step count
accepted-IsCounted p true e (total, last) =
    rw (e, step)
      (
        opened_one (open_connections p.forwarders) _ p.connections total
            (open_connections-append p.forwarders _),
        refl,
      )
accepted-IsCounted p false e counted = rw (e, step) counted

step-IsCounted : (p : ForwardedPort) (e : Event) → IsCounted p → IsCounted (step p e)
unfolding step
step-IsCounted p accepted h = accepted-IsCounted p p.listening refl h
step-IsCounted p (channel_opened i) h =
    on_forwarder-IsCounted (λ f. (join_channel f, false)) i p (λ f. join_counts f f.closed refl) h
step-IsCounted p (channel_failed i) h =
    on_forwarder-IsCounted refuse_channel i p
      (λ f. close_counts (record f { channel = refused }) f.closed refl) h
step-IsCounted p (closed_end i) h =
    on_forwarder-IsCounted close_forwarder i p (λ f. close_counts f f.closed refl) h
step-IsCounted p port_closed h = h
step-IsCounted p login_closed h = h

run_from : (p : ForwardedPort) (es : List Event) → IsCounted p → IsCounted (run p es)
unfolding run
run_from p [] h = h
run_from p (e ∷ es) h = run_from (step p e) es (step-IsCounted p e h)

-- After any events, in any order, the number of connections is that of the forwarders that are not closed, however often and
-- at whichever end each was closed, and it is the number that was reported last, if any was.
pub run-IsCounted : (es : List Event) → IsCounted (run opened es)
unfolding opened
run-IsCounted es = run_from opened es (refl, refl)
