-- ===== src/Tunnel/Session/Follows.antt =====
-- What `_stop` and the handlers that call it make of a session.
use ezhpcy.Prelude.{
  ℕ, ◌≡◌, ◌∙◌, refl, sym, ap, Bool, true, false, Option, none, some, Option-cases, inl, inr,
}
use ezhpcy.Tunnel.Session.{
  TunnelError, Message, Session, report_phase, message_of, stop_session, blame, fail, Event,
}
use ezhpcy.Tunnel.Session.Reason.{failing, blamed, reason, lost_after, stop_of}

-- A stop, on a session that is not stopping, and on one that is.
pub stop_first :
    (by_main : Bool) (error : Option TunnelError) (why : Option Message) (now : ℕ) (s : Session)
    → s.why ≡ none
    → (stop_of (stop_session by_main error why now s) ≡ some (message_of error why, error))
      × ((stop_session by_main error why now s).closed ≡ s.closed)
unfolding stop_session report_phase
stop_first true error why now s e = rw (e, stop_session) (refl, refl)
stop_first false error why now s e = rw (e, stop_session) (refl, refl)

pub stop_again :
    (by_main : Bool) (error : Option TunnelError) (why : Option Message) (now : ℕ) (s : Session)
    (w : Message)
    → s.why ≡ some w
    → stop_session by_main error why now s ≡ s
unfolding stop_session
stop_again by_main error why now s w e = simp (e, stop_session) refl

blame-blamed : (s : Session) (e : TunnelError) → blame s e ≡ blamed s.closed e
unfolding blame
blame-blamed s e = elim (Option-cases s.closed) [
  | inl live ↦ rw (live, blame) refl
  | inr (lost, closed) ↦ elim (Option-cases lost) [
    | inl clean ↦ rw (closed, blame) (rw clean refl)
    | inr (x, broken) ↦ rw (closed, blame) (rw broken refl)
  ]
]

-- What a step makes of a session: its reason to stop, from the event's, and how the login connection ended.
unfoldable pub Follows : Event → Session → Session → Type 0
Follows e s s' =
    (s.why ≡ none → stop_of s' ≡ reason s.closed e)
    × ((w : Message) → s.why ≡ some w → stop_of s' ≡ stop_of s)
    × (s'.closed ≡ lost_after e s.closed)

pub fail-stops :
    (by_main : Bool) (error : TunnelError) (now : ℕ) (s : Session)
    → (s.why ≡ none → stop_of (fail by_main error now s) ≡ some (failing (blamed s.closed error)))
      × ((w : Message) → s.why ≡ some w → stop_of (fail by_main error now s) ≡ stop_of s)
      × ((fail by_main error now s).closed ≡ s.closed)
unfolding fail
fail-stops by_main error now s = (
  (λ e.
      (stop_first by_main (some (blame s error)) none now s e).0
      ∙ ap (λ x. some (failing x)) (blame-blamed s error)),
  (λ w e. ap stop_of (stop_again by_main (some (blame s error)) none now s w e)),
  elim (Option-cases s.why) [
    | inl e ↦ (stop_first by_main (some (blame s error)) none now s e).1
    | inr (w, e) ↦ ap (λ x. x.closed) (stop_again by_main (some (blame s error)) none now s w e)
  ],
)

pub stop_of-none : (s : Session) → s.why ≡ none → stop_of s ≡ none
stop_of-none s e = rw e refl

pub stop_of-some : (s : Session) (w : Message) → s.why ≡ some w → stop_of s ≡ some (w, s.error)
stop_of-some s w e = rw e refl

-- A step that gives no reason to stop, and changes neither reason nor error.
pub Follows-quiet :
    (e : Event) (s s' : Session)
    → reason s.closed e ≡ none
    → stop_of s' ≡ stop_of s
    → s'.closed ≡ lost_after e s.closed
    → Follows e s s'
unfolding Follows
Follows-quiet e s s' quiet same lost =
    ((λ h. same ∙ stop_of-none s h ∙ sym quiet), (λ w h. same), lost)

-- A step that fails with an error, from a session that differs in nothing that counts here.
pub Follows-fail :
    (e : Event) (by_main : Bool) (error : TunnelError) (now : ℕ) (s s1 : Session)
    → reason s.closed e ≡ some (failing (blamed s.closed error))
    → s1.why ≡ s.why
    → s1.error ≡ s.error
    → s1.closed ≡ s.closed
    → lost_after e s.closed ≡ s.closed
    → Follows e s (fail by_main error now s1)
unfolding Follows
Follows-fail e by_main error now s s1 why_of same same_error same_closed lost =
    let (first, again, closed) = fail-stops by_main error now s1 in
    (
      (λ h. first (same ∙ h) ∙ ap (λ c. some (failing (blamed c error))) same_closed ∙ sym why_of),
      (λ w h.
          again w (same ∙ h)
          ∙ stop_of-some s1 w (same ∙ h)
          ∙ ap (λ x. some (w, x)) same_error
          ∙ sym (stop_of-some s w h)),
      closed ∙ same_closed ∙ sym lost,
    )

pub Follows-stop :
    (e : Event) (by_main : Bool) (error : Option TunnelError) (why : Option Message) (now : ℕ)
    (s s1 : Session)
    → reason s.closed e ≡ some (message_of error why, error)
    → s1.why ≡ s.why
    → s1.error ≡ s.error
    → s1.closed ≡ s.closed
    → lost_after e s.closed ≡ s.closed
    → Follows e s (stop_session by_main error why now s1)
unfolding Follows
Follows-stop e by_main error why now s s1 why_of same same_error same_closed lost = (
  (λ h. (stop_first by_main error why now s1 (same ∙ h)).0 ∙ sym why_of),
  (λ w h.
      ap stop_of (stop_again by_main error why now s1 w (same ∙ h))
      ∙ stop_of-some s1 w (same ∙ h)
      ∙ ap (λ x. some (w, x)) same_error
      ∙ sym (stop_of-some s w h)),
  elim (Option-cases s1.why) [
    | inl h ↦ (stop_first by_main error why now s1 h).1 ∙ same_closed ∙ sym lost
    | inr (w, h) ↦
        ap (λ x. x.closed) (stop_again by_main error why now s1 w h) ∙ same_closed ∙ sym lost
  ],
)
