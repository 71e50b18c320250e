-- ===== src/Tunnel/SshConfig/Resolution.antt =====
-- Which blocks are removed as stale, and which answers of `ssh -G` are taken for the tunnel's block.
use ezhpcy.Prelude.{
  ℕ, ◌≡◌, ◌∙◌, ◌↔◌, refl, ap, Bool, true, false, not, ◌&&◌, Option, none, some, List, [], ◌∷◌, ◌++◌,
  if◌then◌else◌, arith, Bool-cases, inl, inr, length, length-append,
}
use ezhpcy.Text.{Text, codes, text_eq, text_eq_iff, member, show, strip_prefix}
use ezhpcy.Config.Alias.{validate_alias, validate_alias_safe}
use ezhpcy.Config.Chain.{find}
use ezhpcy.Config.Resolve.{or_empty}
use ezhpcy.Tunnel.SshConfig.{
  WorkerHost, loopback_host, Options, texts_eq, holds, unless, first_is, check_options, active_name,
  alias_of, remove_suffix, is_live, prune,
}

text_eq-length : (s t : Text) → text_eq s t ≡ true → length s ≡ length t
text_eq-length s t h = ap length ((text_eq_iff s t).0 h)

longer_other : (c : ℕ) (a : Text) → text_eq (c ∷ (a ++ codes ".conf")) (codes ".conf") ≡ false
longer_other c a = elim (Bool-cases (text_eq (c ∷ (a ++ codes ".conf")) (codes ".conf"))) [
  | inl same ↦ absurd (
      omega (
        arith,
        text_eq-length (c ∷ (a ++ codes ".conf")) (codes ".conf") same,
        length-append a (codes ".conf"),
      ))
  | inr other ↦ other
]

remove_suffix-append : (a : Text) → remove_suffix (a ++ codes ".conf") ≡ a
unfolding remove_suffix
remove_suffix-append [] = unfold text_eq in refl
remove_suffix-append (c ∷ a) = rw (longer_other c a) (ap (λ r. c ∷ r) (remove_suffix-append a))

pub alias_of-active_name : (alias : Text) → alias_of (active_name alias) ≡ alias
unfolding alias_of active_name strip_prefix
alias_of-active_name alias = remove_suffix-append alias

same_live :
    (locked : Text → Bool) (name n : Text)
    → text_eq name n ≡ true
    → is_live locked (alias_of name) ≡ is_live locked (alias_of n)
same_live locked name n h = ap (λ x. is_live locked (alias_of x)) ((text_eq_iff name n).0 h)

-- Each match of the glob stays or goes by whether its alias is live.
prune-live :
    (locked : Text → Bool) (names : List Text) (name : Text)
    → (member name (prune locked names).0 ≡ (member name names && is_live locked (alias_of name)))
      × (member name (prune locked names).1
          ≡ (member name names && not (is_live locked (alias_of name))))
unfolding prune member
prune-live locked [] name = (refl, refl)
prune-live locked (n ∷ names) name =
    let (stay, go) = prune-live locked names name in
    elim (Bool-cases (is_live locked (alias_of n))) [
      | inl live ↦ rw live (ground (arith, stay, go, live, same_live locked name n))
      | inr stale ↦ rw stale (ground (arith, stay, go, stale, same_live locked name n))
    ]

is_live-valid :
    (locked : Text → Bool) (alias out : Text)
    → validate_alias alias ≡ some out
    → is_live locked alias ≡ locked alias
unfolding is_live
is_live-valid locked alias out h = rw (h, is_live) (ap locked ((validate_alias_safe alias out h).0))

-- Pruning keeps the block of an alias exactly if its lock is held, and removes it exactly if it is free: no running
-- tunnel loses its block, and no killed one keeps it. The alias is valid.
pub prune-active_name :
    (locked : Text → Bool) (names : List Text) (alias out : Text)
    → validate_alias alias ≡ some out
    → (member (active_name alias) (prune locked names).0
        ≡ (member (active_name alias) names && locked alias))
      × (member (active_name alias) (prune locked names).1
          ≡ (member (active_name alias) names && not (locked alias)))
prune-active_name locked names alias out h =
    let live : is_live locked (alias_of (active_name alias)) ≡ locked alias =
      ap (is_live locked) (alias_of-active_name alias) ∙ is_live-valid locked alias out h in
    let (stay, go) = prune-live locked names (active_name alias) in
    (
      stay ∙ ap (λ b. member (active_name alias) names && b) live,
      go ∙ ap (λ b. member (active_name alias) names && not b) live,
    )

texts_eq_iff : (xs ys : List Text) → (texts_eq xs ys ≡ true) ↔ (xs ≡ ys)
unfolding texts_eq
texts_eq_iff [] [] = ground arith
texts_eq_iff [] (y ∷ ys) = ground arith
texts_eq_iff (x ∷ xs) [] = ground arith
texts_eq_iff (x ∷ xs) (y ∷ ys) = ground (arith, text_eq_iff x y, texts_eq_iff xs ys)

holds_iff : (o : Option (List Text)) (value : List Text) → (holds o value ≡ true) ↔ (o ≡ some value)
holds_iff none value = ground arith
holds_iff (some xs) value = ground (arith, texts_eq_iff xs value)

-- What the block of a host gives `ssh -G` to print, as far as it is checked.
pub record Reaches (normcase : Text → Text) (host : WorkerHost) (port : ℕ) (options : Options)
    : Type 0 where
  pub hostname : find (codes "hostname") options ≡ some (loopback_host ∷ [])
  pub port_option : find (codes "port") options ≡ some (show port ∷ [])
  pub no_proxy :
      unless (find (codes "proxycommand") options) (codes "none" ∷ []) ≡ codes "none" ∷ []
  pub user_option : find (codes "user") options ≡ some (host.user ∷ [])
  pub identity :
      first_is normcase (or_empty (find (codes "identityfile") options)) host.identity_file ≡ true

five :
    {A : Type 0} (a b c d e : Bool) (v w x y : A)
    → ((if not (a && b)
          then some v
          else if not c
          then some w
          else if not d
          then some x
          else if not e
          then some y
          else none)
        ≡ none)
      ↔ (a ≡ true) × (b ≡ true) × (c ≡ true) × (d ≡ true) × (e ≡ true)
five a b c d e v w x y = ground arith

-- The answer of `ssh -G` is taken for the tunnel's block exactly if it says the loopback address and the port, no
-- proxy command, the user, and first the identity file of the host.
pub check_options_iff :
    (normcase : Text → Text) (show_options : Option (List Text) → Text) (host : WorkerHost)
    (port : ℕ) (options : Options)
    → (check_options normcase show_options host port options ≡ none)
      ↔ Reaches normcase host port options
unfolding check_options
check_options_iff normcase show_options host port options =
    let (forward, backward) =
      five (holds (find (codes "hostname") options) (loopback_host ∷ []))
        (holds (find (codes "port") options) (show port ∷ []))
        (texts_eq (unless (find (codes "proxycommand") options) (codes "none" ∷ []))
          (codes "none" ∷ []))
        (holds (find (codes "user") options) (host.user ∷ []))
        (first_is normcase (or_empty (find (codes "identityfile") options)) host.identity_file) _ _
        _ _ in
    (
      λ h.
          (let (a, b, c, d, e) = forward h in
            record {
              hostname = (holds_iff (find (codes "hostname") options) (loopback_host ∷ [])).0 a;
              port_option = (holds_iff (find (codes "port") options) (show port ∷ [])).0 b;
              no_proxy =
                  (texts_eq_iff (unless (find (codes "proxycommand") options) (codes "none" ∷ []))
                      (codes "none" ∷ [])).0
                    c;
              user_option = (holds_iff (find (codes "user") options) (host.user ∷ [])).0 d;
              identity = e;
            }),
      λ r. backward (
        (holds_iff (find (codes "hostname") options) (loopback_host ∷ [])).1 r.hostname,
        (holds_iff (find (codes "port") options) (show port ∷ [])).1 r.port_option,
        (texts_eq_iff (unless (find (codes "proxycommand") options) (codes "none" ∷ []))
              (codes "none" ∷ [])).1
            r.no_proxy,
        (holds_iff (find (codes "user") options) (host.user ∷ [])).1 r.user_option,
        r.identity,
      ),
    )
