-- ===== src/Provision/Pin/Entries.antt =====
-- What `known_hosts` holds once the worker's host key is pinned.
use ezhpcy.Prelude.{
  ◌≡◌, ◌∙◌, refl, ap, subst, Bool, true, false, some, List, [], ◌∷◌, ◌++◌, arith, All, All-append,
  append_assoc, append-nil, map, Bool-cases, inl, inr, if◌then◌else◌,
}
use ezhpcy.Prelude.Result.{ok}
use ezhpcy.Text.{Text, words}
use ezhpcy.Text.Split.Words.{IsWord}
use ezhpcy.Text.Split.Lines.{
  IsLine, terminated, unlines, unlines-append, splitlines_keep-unlines, words-IsWord, word-IsLine,
}
use ezhpcy.Provision.Pin.{host_alias, is_ours, retained, concat, entry, pin_host_key}

-- The lines of other hosts.
unfoldable pub others : List Text → List Text
others [] = []
others (l ∷ ls) = if is_ours (terminated l) then others ls else l ∷ others ls

retained-terminated : (ls : List Text) → concat (retained (map terminated ls)) ≡ unlines (others ls)
unfolding retained others
retained-terminated [] = refl
retained-terminated (l ∷ ls) = elim (Bool-cases (is_ours (terminated l))) [
  | inl ours ↦ rw ours (retained-terminated ls)
  | inr other ↦ rw other (
      append_assoc l (b'\n' ∷ []) (concat (retained (map terminated ls)))
      ∙ ap (λ r. l ++ (b'\n' ∷ r)) (retained-terminated ls))
]

others-IsLine : (ls : List Text) → All IsLine ls → All IsLine (others ls)
unfolding others
others-IsLine [] h = tt
others-IsLine (l ∷ ls) (line, h) = elim (Bool-cases (is_ours (terminated l))) [
  | inl ours ↦ rw (ours, others) (others-IsLine ls h)
  | inr other ↦ rw (other, others) (line, others-IsLine ls h)
]

others_idem : (ls ms : List Text) → others (others ls ++ ms) ≡ others ls ++ others ms
unfolding others
others_idem [] ms = refl
others_idem (l ∷ ls) ms = elim (Bool-cases (is_ours (terminated l))) [
  | inl ours ↦ rw (ours, others) (others_idem ls ms)
  | inr other ↦ rw (other, others) (rw (other, others) (ap (λ r. l ∷ r) (others_idem ls ms)))
]

alias-IsLine : IsLine (host_alias ++ b' ' ∷ [])
alias-IsLine = ground arith

pub entry-IsLine : (t k : Text) → IsWord t → IsWord k → IsLine (entry t k)
entry-IsLine t k ht hk =
    All-append _ (host_alias ++ b' ' ∷ []) (t ++ b' ' ∷ k) alias-IsLine
      (All-append _ t (b' ' ∷ k) (word-IsLine t ht) (refl, word-IsLine k hk))

others-entry : (t k : Text) → others (entry t k ∷ []) ≡ []
unfolding others is_ours
others-entry t k = refl

pub first_two :
    (t k : Text) (rest : List Text) (s : Text) → words s ≡ t ∷ k ∷ rest → IsWord t × IsWord k
first_two t k rest s e =
    let h : All IsWord (t ∷ k ∷ rest) = subst (All IsWord) e (words-IsWord s) in (h.0, h.1.0)

pin_unlines :
    (public t k : Text) (rest : List Text) (ls : List Text)
    → words public ≡ t ∷ k ∷ rest
    → All IsLine ls
    → pin_host_key public (some (unlines ls)) ≡ ok (unlines (others ls ++ entry t k ∷ []))
unfolding pin_host_key
pin_unlines public t k rest ls e h =
    rw
      (
        e,
        splitlines_keep-unlines ls h,
        retained-terminated ls,
        unlines-append (others ls) (entry t k ∷ []),
      )
      refl

-- For a public key with its type and its data, and a `known_hosts` of lines that end with newlines, pinning keeps the lines
-- of other hosts, as they are and in order, and puts one for the worker's key after them, in place of all earlier ones.
-- Pinning the key again leaves the file as it is.
pub pin_host_key-unlines :
    (public t k : Text) (rest : List Text) (ls : List Text)
    → words public ≡ t ∷ k ∷ rest
    → All IsLine ls
    → (out : Text) × (pin_host_key public (some (unlines ls)) ≡ ok out)
      × (out ≡ unlines (others ls ++ entry t k ∷ []))
      × (pin_host_key public (some out) ≡ ok out)
pin_host_key-unlines public t k rest ls e h =
    let (ht, hk) = first_two t k rest public e in
    let now = others ls ++ entry t k ∷ [] in
    let lines =
      All-append _ (others ls) (entry t k ∷ []) (others-IsLine ls h) (entry-IsLine t k ht hk, tt) in
    let same : others now ++ entry t k ∷ [] ≡ now =
      ap (λ r. r ++ entry t k ∷ [])
        (others_idem ls (entry t k ∷ [])
          ∙ ap (λ r. others ls ++ r) (others-entry t k)
          ∙ append-nil (others ls)) in
    (
      unlines now,
      pin_unlines public t k rest ls e h,
      refl,
      pin_unlines public t k rest now e lines ∙ ap (λ r. ok (unlines r)) same,
    )

-- Whether a line of a file is the worker's.
unfoldable pub is_pinned : List Text → Bool
is_pinned [] = false
is_pinned (l ∷ ls) = if is_ours l then true else is_pinned ls
