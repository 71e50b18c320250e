-- ===== src/Worker/Command/Trial.antt =====
-- The worker's script tries the ports of its command in turn.
use ezhpcy.Prelude.{
  ℕ, zero, suc, ◌+◌, ◌≤◌, ◌≡◌, ◌≢◌, ◌∙◌, refl, ap, Bool, Option, none, some, List, [], ◌∷◌, ◌++◌,
  arith, All, if◌then◌else◌, map, length, length-append,
}
use ezhpcy.Prelude.Result.{ok}
use ezhpcy.Text.{Text, codes, show, join, before, after}
use ezhpcy.Text.Split.Laws.{before-append, after-append}
use ezhpcy.Text.Number.Decimal.{show-cons, show-IsAsciiDigit, IsAsciiDigit}
use ezhpcy.Worker.Job.{publish_state}
use ezhpcy.Worker.Command.{
  RemoteState, Lease, sshd_command, pixi_command, try_ports, first_status, positional,
}

-- The first port on which sshd stays up.
abbrev pub first_up : (Text → Bool) → List ℕ → Option Text
first_up stays_up [] = none
first_up stays_up (p ∷ ports) = if stays_up (show p) then some (show p) else first_up stays_up ports

before_all : (c : ℕ) (a : Text) → All (λ x. x ≢ c) a → before c a ≡ a
unfolding before
before_all c [] h = refl
before_all c (x ∷ a) h = ground (arith, before_all c a h.1)

after_all : (c : ℕ) (a : Text) → All (λ x. x ≢ c) a → after c a ≡ []
unfolding after
after_all c [] h = refl
after_all c (x ∷ a) h = ground (arith, after_all c a h.1)

digits_no_colon : (s : Text) → All IsAsciiDigit s → All (λ x. x ≢ b':') s
digits_no_colon [] h = tt
digits_no_colon (c ∷ s) h = (ground (arith, h.0), digits_no_colon s h.1)

show_no_colon : (n : ℕ) → All (λ x. x ≢ b':') (show n)
show_no_colon n = digits_no_colon (show n) (show-IsAsciiDigit n)

abbrev listed : List ℕ → Text
listed ports = join (codes ":") (map show ports)

try_ports-cons :
    (fuel : ℕ) (stays_up : Text → Bool) (s : Text) (c : ℕ) (t : Text)
    → s ≡ c ∷ t
    → try_ports (suc fuel) stays_up s ≡ (
        if stays_up (before b':' s)
        then some (before b':' s)
        else try_ports fuel stays_up (after b':' s))
unfolding try_ports
try_ports-cons fuel stays_up s c t e = rw e refl

before-listed : (p : ℕ) (ports : List ℕ) → before b':' (listed (p ∷ ports)) ≡ show p
unfolding join
before-listed p [] = before_all b':' (show p) (show_no_colon p)
before-listed p (q ∷ ports) = before-append b':' (show p) (listed (q ∷ ports)) (show_no_colon p)

after-listed : (p : ℕ) (ports : List ℕ) → after b':' (listed (p ∷ ports)) ≡ listed ports
unfolding join
after-listed p [] = after_all b':' (show p) (show_no_colon p)
after-listed p (q ∷ ports) = after-append b':' (show p) (listed (q ∷ ports)) (show_no_colon p)

listed-cons : (p : ℕ) (ports : List ℕ) → (c : ℕ) × (t : Text) × (listed (p ∷ ports) ≡ c ∷ t)
unfolding join
listed-cons p [] = show-cons p
listed-cons p (q ∷ ports) =
    let (c, t, e) = show-cons p in
    (c, t ++ (codes ":" ++ listed (q ∷ ports)), ap (λ s. s ++ (codes ":" ++ listed (q ∷ ports))) e)

length_lem : (a b : Text) (c : ℕ) (t : Text) → a ≡ c ∷ t → 1 + length b ≤ length (a ++ b)
length_lem a b c t e = rw e (rw (length-append t b) (omega arith))

length-listed : (ports : List ℕ) → length ports ≤ length (listed ports)
unfolding join
length-listed [] = omega arith
length-listed (p ∷ []) = let (c, t, e) = show-cons p in rw e (omega arith)
length-listed (p ∷ q ∷ ports) =
    let (c, t, e) = show-cons p in
    let step = length_lem (show p) (codes ":" ++ listed (q ∷ ports)) c t e in
    let rest = length-listed (q ∷ ports) in ground (arith, step, rest)

try_ports-listed :
    (fuel : ℕ) (stays_up : Text → Bool) (ports : List ℕ)
    → length ports ≤ fuel
    → try_ports fuel stays_up (listed ports) ≡ first_up stays_up ports
unfolding join
try_ports-listed fuel stays_up [] h = unfold try_ports in refl
try_ports-listed zero stays_up (p ∷ ports) h = ground arith
try_ports-listed (suc fuel) stays_up (p ∷ ports) h =
    let (c, t, e) = listed-cons p ports in
    try_ports-cons fuel stays_up (listed (p ∷ ports)) c t e
    ∙ (rw
        (
          before-listed p ports,
          after-listed p ports,
          try_ports-listed fuel stays_up ports (omega arith),
        )
        refl)

abbrev pub status_of : Text → Option Text → Text
status_of token (some port) = publish_state token (codes "ready") (port ∷ [])
status_of token none = publish_state token (codes "failed") (codes "no_ports" ∷ [])

first_status_lem :
    (stays_up : Text → Bool) (ports token : Text) (parameters : List Text) (o : Option Text)
    → try_ports (length ports) stays_up ports ≡ o
    → first_status stays_up (ports ∷ token ∷ parameters) ≡ some (status_of token o)
unfolding first_status
first_status_lem stays_up ports token parameters (some port) e = rw (e, first_status) refl
first_status_lem stays_up ports token parameters none e = rw (e, first_status) refl

-- The worker's command, given at least one port, has its script try the ports in their order: the first status that it
-- publishes, with the tunnel's token, is `ready` with the first port on which sshd stays up, and that no port worked where
-- there is none. So the loop ends within as many rounds as it has.
pub first_status-sshd_command :
    (stays_up : Text → Bool) (r : RemoteState) (script : Text) (p : ℕ) (ports : List ℕ)
    (lease : Lease) (arguments : List Text)
    → (command : List Text) × (sshd_command r script (p ∷ ports) lease arguments ≡ ok command)
      × (first_status stays_up (positional command)
          ≡ some (status_of lease.heartbeat_token (first_up stays_up (p ∷ ports))))
unfolding sshd_command pixi_command
first_status-sshd_command stays_up r script p ports lease arguments = (
  _,
  refl,
  first_status_lem stays_up (listed (p ∷ ports)) lease.heartbeat_token _ _
      (try_ports-listed _ stays_up (p ∷ ports) (length-listed (p ∷ ports))),
)
