-- ===== src/Tunnel/Startup/Undone.antt =====
-- Cleanup undoes what was started, newest first.
use ezhpcy.Prelude.{
  ◌≡◌, ◌∙◌, ◌⊎◌, refl, sym, ap, subst, Bool, false, List, [], ◌∷◌, ◌++◌, append_assoc, inl, inr,
}
use ezhpcy.Tunnel.Startup.{
  Cleanup, Call, Step, Outcome, succeeds, raises, cut_off, ends_late, fails_late, given_up, startup,
  push, run_steps, cleanup_order,
}

-- All that a list of steps registers, in order.
abbrev pub registrations : List Step → List Cleanup
registrations [] = []
registrations (s ∷ steps) = s.then_registers ++ (s.registers ++ registrations steps)

push-append : (a b stack : List Cleanup) → push (a ++ b) stack ≡ push b (push a stack)
unfolding push
push-append [] b stack = refl
push-append (c ∷ a) b stack = push-append a b (c ∷ stack)

abbrev pub Undoes : List Step → List Cleanup → List Cleanup × Bool → Type 0
Undoes steps stack out =
    (done left : List Cleanup) × (out.0 ≡ push done stack)
    × (registrations steps ≡ done ++ left)
    × ((out.1 ≡ false) ⊎ (left ≡ []))

module _ (ends : Call → Outcome) (s : Step) (steps : List Step) (stack : List Cleanup) where
  pub run_succeeds :
      ends s.call ≡ succeeds
      → run_steps ends (s ∷ steps) stack
        ≡ run_steps ends steps (push s.registers (push s.then_registers stack))
  unfolding run_steps
  run_succeeds e = rw (e, run_steps) refl

  pub run_raises : ends s.call ≡ raises → run_steps ends (s ∷ steps) stack ≡ (stack, false)
  unfolding run_steps
  run_raises e = rw (e, run_steps) refl

  pub run_cut_off : ends s.call ≡ cut_off → run_steps ends (s ∷ steps) stack ≡ (stack, false)
  unfolding run_steps
  run_cut_off e = rw (e, run_steps) refl

  pub run_ends_late :
      ends s.call ≡ ends_late
      → run_steps ends (s ∷ steps) stack ≡ (push s.then_registers stack, false)
  unfolding run_steps
  run_ends_late e = rw (e, run_steps) refl

  pub run_fails_late : ends s.call ≡ fails_late → run_steps ends (s ∷ steps) stack ≡ (stack, false)
  unfolding run_steps
  run_fails_late e = rw (e, run_steps) refl

  pub run_given_up : ends s.call ≡ given_up → run_steps ends (s ∷ steps) stack ≡ (stack, false)
  unfolding run_steps
  run_given_up e = rw (e, run_steps) refl

  nothing-Undoes : Undoes (s ∷ steps) stack (stack, false)
  nothing-Undoes = ([], registrations (s ∷ steps), unfold push in refl, refl, inl refl)

  late-Undoes : Undoes (s ∷ steps) stack (push s.then_registers stack, false)
  late-Undoes = (s.then_registers, s.registers ++ registrations steps, refl, refl, inl refl)

  more-Undoes :
      (out : List Cleanup × Bool)
      → Undoes steps (push s.registers (push s.then_registers stack)) out
      → Undoes (s ∷ steps) stack out
  more-Undoes out (done, left, e, split, whole) =
      let all = s.then_registers ++ (s.registers ++ done) in
      (
        all,
        left,
        e
            ∙ sym (
                push-append s.then_registers (s.registers ++ done) stack
                ∙ push-append s.registers done (push s.then_registers stack)),
        ap (λ r. s.then_registers ++ (s.registers ++ r)) split
            ∙ sym (
                append_assoc s.then_registers (s.registers ++ done) left
                ∙ ap (λ r. s.then_registers ++ r) (append_assoc s.registers done left)),
        whole,
      )

  step-Undoes :
      Undoes steps
        (push s.registers (push s.then_registers stack))
        (run_steps ends steps (push s.registers (push s.then_registers stack)))
      → (o : Outcome) → ends s.call ≡ o
      → Undoes (s ∷ steps) stack (run_steps ends (s ∷ steps) stack)
  step-Undoes ih succeeds e =
      subst (Undoes (s ∷ steps) stack) (sym (run_succeeds e)) (more-Undoes _ ih)
  step-Undoes ih raises e = subst (Undoes (s ∷ steps) stack) (sym (run_raises e)) nothing-Undoes
  step-Undoes ih cut_off e = subst (Undoes (s ∷ steps) stack) (sym (run_cut_off e)) nothing-Undoes
  step-Undoes ih fails_late e =
      subst (Undoes (s ∷ steps) stack) (sym (run_fails_late e)) nothing-Undoes
  step-Undoes ih given_up e = subst (Undoes (s ∷ steps) stack) (sym (run_given_up e)) nothing-Undoes
  step-Undoes ih ends_late e = subst (Undoes (s ∷ steps) stack) (sym (run_ends_late e)) late-Undoes

run_steps-Undoes :
    (ends : Call → Outcome) (steps : List Step) (stack : List Cleanup)
    → Undoes steps stack (run_steps ends steps stack)
run_steps-Undoes ends [] stack =
    ([], [], unfold run_steps push in refl, refl, inr (unfold run_steps in refl))
run_steps-Undoes ends (s ∷ steps) stack =
    step-Undoes ends s steps stack
      (run_steps-Undoes ends steps (push s.registers (push s.then_registers stack))) (ends s.call)
      refl

-- However the calls of a startup end, cleanup runs the first so many of the steps that it registers, newest first, with none
-- left out between: all of them if the tunnel came to serve.
pub cleanup_order-push :
    (ends : Call → Outcome) (auto_provision interactive : Bool)
    → (done left : List Cleanup) × (cleanup_order ends auto_provision interactive ≡ push done [])
      × (registrations (startup auto_provision interactive) ≡ done ++ left)
      × (((run_steps ends (startup auto_provision interactive) []).1 ≡ false) ⊎ (left ≡ []))
unfolding cleanup_order
cleanup_order-push ends auto_provision interactive =
    run_steps-Undoes ends (startup auto_provision interactive) []
