-- ===== src/Worker/Job/Ports.antt =====
-- The ports that a run's sshd may take.
use ezhpcy.Prelude.{
  ℕ, ◌+◌, ◌<◌, ◌≤◌, ◌≡◌, ◌≢◌, ◌∙◌, refl, sym, subst, true, false, none, some, List, [], ◌∷◌, ◌++◌,
  arith, All, All-append, length, length-append, ltb, Bool-cases, inl, inr,
}
use ezhpcy.Worker.Control.{member_port}
use ezhpcy.Worker.Job.{draw, select_ports, first_dynamic_port, last_dynamic_port}

unfoldable pub IsDynamic : ℕ → Type 0
IsDynamic p = (first_dynamic_port ≤ p) × (p ≤ last_dynamic_port)

unfoldable pub IsDistinct : List ℕ → Type 0
IsDistinct [] = Unit
IsDistinct (p ∷ ps) = (member_port p ps ≡ false) × IsDistinct ps

member_port-append :
    (p q : ℕ) (ps : List ℕ)
    → member_port p (ps ++ q ∷ []) ≡ false
    → (member_port p ps ≡ false) × (p ≢ q)
member_port-append p q [] h = ground arith
member_port-append p q (x ∷ ps) h = ground (arith, member_port-append p q ps)

append-member_port :
    (p q : ℕ) (ps : List ℕ)
    → member_port p ps ≡ false
    → p ≢ q
    → member_port p (ps ++ q ∷ []) ≡ false
append-member_port p q [] h d = ground arith
append-member_port p q (x ∷ ps) h d = ground (arith, append-member_port p q ps)

not_head :
    (p q : ℕ) (ps : List ℕ) → member_port q (p ∷ ps) ≡ false → (p ≢ q) × (member_port q ps ≡ false)
not_head p q ps h = ground arith

IsDistinct-append :
    (ps : List ℕ) (q : ℕ) → IsDistinct ps → member_port q ps ≡ false → IsDistinct (ps ++ q ∷ [])
unfolding IsDistinct
IsDistinct-append [] q d h = (refl, tt)
IsDistinct-append (p ∷ ps) q (fresh, d) h =
    let (different, h') = not_head p q ps h in
    (append-member_port p q ps fresh different, IsDistinct-append ps q d h')

draw_done :
    (ports : List ℕ) (count : ℕ) (random : List ℕ)
    → ltb (length ports) count ≡ false
    → draw ports count random ≡ some ports
unfolding draw
draw_done ports count [] h = rw h refl
draw_done ports count (r ∷ random) h = rw h refl

draw_again :
    (ports : List ℕ) (count r : ℕ) (random : List ℕ)
    → ltb (length ports) count ≡ true
    → member_port (first_dynamic_port + r) ports ≡ true
    → draw ports count (r ∷ random) ≡ draw ports count random
unfolding draw
draw_again ports count r random more seen = rw (more, seen) refl

draw_next :
    (ports : List ℕ) (count r : ℕ) (random : List ℕ)
    → ltb (length ports) count ≡ true
    → member_port (first_dynamic_port + r) ports ≡ false
    → draw ports count (r ∷ random) ≡ draw (ports ++ (first_dynamic_port + r) ∷ []) count random
unfolding draw
draw_next ports count r random more fresh = rw (more, fresh) refl

-- `secrets.randbelow(n)` is below `n`.
abbrev pub IsBelow : ℕ → Type 0
IsBelow r = r < 16384

draw_short :
    (ports : List ℕ) (count : ℕ) → ltb (length ports) count ≡ true → draw ports count [] ≡ none
unfolding draw
draw_short ports count h = rw h refl

in_range : (r : ℕ) → IsBelow r → IsDynamic (first_dynamic_port + r)
unfolding IsDynamic
in_range r h = (omega arith, omega arith)

grown :
    (ports : List ℕ) (p count : ℕ)
    → ltb (length ports) count ≡ true
    → length (ports ++ p ∷ []) ≤ count
grown ports p count h = ground (arith, h, length-append ports (p ∷ []))

finished :
    (ports : List ℕ) (count : ℕ) (out : List ℕ)
    → ltb (length ports) count ≡ false
    → length ports ≤ count
    → IsDistinct ports
    → All IsDynamic ports
    → some ports ≡ some out
    → (length out ≡ count) × IsDistinct out × All IsDynamic out
finished ports count out done few distinct dynamic h =
    let same : ports ≡ out = cc in
    let full : length ports ≡ count = ground (arith, done, few) in
    subst (λ ps. (length ps ≡ count) × IsDistinct ps × All IsDynamic ps) same
      (full, distinct, dynamic)

draw_sound :
    (ports : List ℕ) (count : ℕ) (random out : List ℕ)
    → All IsBelow random
    → length ports ≤ count
    → IsDistinct ports
    → All IsDynamic ports
    → draw ports count random ≡ some out
    → (length out ≡ count) × IsDistinct out × All IsDynamic out
draw_sound ports count [] out below few distinct dynamic h =
    elim (Bool-cases (ltb (length ports) count)) [
      | inr done ↦
          finished ports count out done few distinct dynamic
            (sym (draw_done ports count [] done) ∙ h)
      | inl more ↦ cc (draw_short ports count more, h)
    ]
draw_sound ports count (r ∷ random) out (small, below) few distinct dynamic h =
    let port = first_dynamic_port + r in
    elim (Bool-cases (ltb (length ports) count)) [
      | inr done ↦
          finished ports count out done few distinct dynamic
            (sym (draw_done ports count (r ∷ random) done) ∙ h)
      | inl more ↦ elim (Bool-cases (member_port port ports)) [
        | inl seen ↦
            draw_sound ports count random out below few distinct dynamic
              (sym (draw_again ports count r random more seen) ∙ h)
        | inr fresh ↦
            draw_sound (ports ++ port ∷ []) count random out below (grown ports port count more)
              (IsDistinct-append ports port distinct fresh)
              (All-append IsDynamic ports _ dynamic (in_range r small, tt))
              (sym (draw_next ports count r random more fresh) ∙ h)
      ]
    ]

-- The ports that are chosen are as many as asked for, all different, and in the dynamic range, whatever
-- `secrets.randbelow` returns below its bound.
pub select_ports-IsDistinct :
    (count : ℕ) (random ports : List ℕ)
    → All IsBelow random
    → select_ports count random ≡ some ports
    → (length ports ≡ count) × IsDistinct ports × All IsDynamic ports
unfolding select_ports IsDistinct
select_ports-IsDistinct count random ports below h =
    draw_sound [] count random ports below (omega arith) tt tt h
