-- ===== src/Forwarding.antt =====
-- ssh.py: `ForwardedPort` and its `_Forwarder`s, by the events of the event loop: a client is accepted, its channel opens or
-- not, an end of the connection closes, and the port is closed.
pub mod Counted
use ezhpcy.Prelude.{
  ℕ, zero, suc, Bool, true, false, Option, none, some, List, [], ◌∷◌, ◌++◌, if◌then◌else◌,
}
use ezhpcy.Prelude.Int.{ℤ, pos, negsuc, ◌+ℤ◌}

-- The channel of a connection: still being opened, joined to it, refused, or closed at once as the client hung up meanwhile
pub data Channel : Type 0 where
  opening joined refused dropped : Channel

pub record Forwarder : Type 0 where
  pub closed : Bool
  pub reading : Bool
  pub channel : Channel

pub record ForwardedPort : Type 0 where
  pub listening : Bool
  pub forwarders : List Forwarder
  pub connections : ℤ
  -- What `on_connections` was called with, newest first
  pub reported : List ℤ

pub data Event : Type 0 where
  accepted : Event
  channel_opened channel_failed closed_end : ℕ → Event
  port_closed login_closed : Event

-- `ForwardedPort.open`
unfoldable pub opened : ForwardedPort
opened = record { listening = true; forwarders = []; connections = pos 0; reported = [] }

-- `_count`
unfoldable pub count : ℤ → ForwardedPort → ForwardedPort
unfolding ◌+ℤ◌
count change p =
    let n = p.connections +ℤ change in record p { connections = n; reported = n ∷ p.reported }

-- `_Forwarder.close`, which counts only once; whether it counted
abbrev pub close_forwarder : Forwarder → Forwarder × Bool
close_forwarder f = if f.closed then (f, false) else (record f { closed = true }, true)

-- The end of `_open_channel` where the channel is open
abbrev pub join_channel : Forwarder → Forwarder
join_channel f =
    if f.closed
    then record f { channel = dropped }
    else record f { channel = joined; reading = true }

-- A change of one forwarder, and whether it counted a connection as closed; an event of no forwarder changes nothing.
unfoldable pub change_at :
    (Forwarder → Forwarder × Bool) → ℕ → List Forwarder → List Forwarder × Bool
change_at change i [] = ([], false)
change_at change zero (f ∷ fs) = let (f', counted) = change f in (f' ∷ fs, counted)
change_at change (suc i) (f ∷ fs) = let (fs', counted) = change_at change i fs in (f ∷ fs', counted)

abbrev pub count_closed : Bool → ForwardedPort → ForwardedPort
count_closed true p = count (negsuc 0) p
count_closed false p = p

abbrev pub on_forwarder : (Forwarder → Forwarder × Bool) → ℕ → ForwardedPort → ForwardedPort
on_forwarder change i p =
    let (fs, counted) = change_at change i p.forwarders in
    count_closed counted (record p { forwarders = fs })

abbrev pub refuse_channel : Forwarder → Forwarder × Bool
refuse_channel f = close_forwarder (record f { channel = refused })

unfoldable pub step : ForwardedPort → Event → ForwardedPort
unfolding count change_at
step p accepted =
    if p.listening
    then count (pos 1) (record p {
      forwarders =
          p.forwarders ++ record { closed = false; reading = false; channel = opening } ∷ [];
    })
    else p
step p (channel_opened i) = on_forwarder (λ f. (join_channel f, false)) i p
step p (channel_failed i) = on_forwarder refuse_channel i p
step p (closed_end i) = on_forwarder close_forwarder i p
step p port_closed = record p { listening = false }
step p login_closed = record p { listening = false }

unfoldable pub run : ForwardedPort → List Event → ForwardedPort
unfolding step
run p [] = p
run p (e ∷ es) = run (step p e) es
