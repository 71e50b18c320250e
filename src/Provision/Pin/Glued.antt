-- ===== src/Provision/Pin/Glued.antt =====
-- A `known_hosts` whose last line has no newline.
use ezhpcy.Prelude.{
  ℕ, ◌≡◌, ◌≢◌, ◌∙◌, refl, sym, ap, false, some, List, [], ◌∷◌, ◌++◌, All-append, append_assoc,
  append-nil, Bool-cases, inl, inr,
}
use ezhpcy.Prelude.Result.{ok}
use ezhpcy.Text.{Text, text_eq, text_eq_iff, words, splitlines_keep}
use ezhpcy.Text.Split.Words.{IsWord, words_word}
use ezhpcy.Text.Split.Lines.{IsLine, terminated, splitlines_keep-line, splitlines_keep-unlines}
use ezhpcy.Provision.Pin.{host_alias, is_ours, retained, entry, pin_host_key}
use ezhpcy.Provision.Pin.Entries.{is_pinned, entry-IsLine, first_two}

-- A line that starts with another host is not the worker's.
is_ours_other : (w s : Text) → IsWord w → w ≢ host_alias → is_ours (w ++ b' ' ∷ s) ≡ false
unfolding is_ours
is_ours_other w s h other = rw (words_word w b' ' s h refl) (text_eq_false w other)
  where
    text_eq_false : (w : Text) → w ≢ host_alias → text_eq w host_alias ≡ false
    text_eq_false w other = elim (Bool-cases (text_eq w host_alias)) [
      | inl same ↦ absurd (other ((text_eq_iff w host_alias).0 same))
      | inr different ↦ different
    ]

-- Pinning a key where the file is one line of another host, which no newline ends, pins nothing: the worker's line is
-- written onto the end of that line, and no line of the new file is the worker's.
pub pin_host_key-glued :
    (public t k : Text) (rest : List Text) (c : ℕ) (w s : Text)
    → words public ≡ t ∷ k ∷ rest
    → IsWord (c ∷ w)
    → c ∷ w ≢ host_alias
    → IsLine (c ∷ w ++ b' ' ∷ s)
    → (out : Text) × (pin_host_key public (some (c ∷ w ++ b' ' ∷ s)) ≡ ok out)
      × (is_pinned (splitlines_keep out) ≡ false)
unfolding pin_host_key retained is_pinned
pin_host_key-glued public t k rest c w s e word other line =
    let (ht, hk) = first_two t k rest public e in
    let old = c ∷ w ++ b' ' ∷ s in
    let glued = old ++ entry t k in
    let kept = is_ours_other (c ∷ w) s word other in
    let split = splitlines_keep-line c (w ++ b' ' ∷ s) line in
    let still : is_ours (terminated glued) ≡ false =
      ap is_ours (
        append_assoc old (entry t k) (b'\n' ∷ [])
        ∙ append_assoc (c ∷ w) (b' ' ∷ s) (terminated (entry t k)))
      ∙ is_ours_other (c ∷ w) (s ++ terminated (entry t k)) word other in
    let new =
      splitlines_keep-unlines (glued ∷ [])
        (All-append _ old (entry t k) line (entry-IsLine t k ht hk), tt) in
    (
      terminated glued,
      rw (e, split, kept)
          (ap ok (
            ap (λ r. r ++ terminated (entry t k)) (append-nil old)
            ∙ sym (append_assoc old (entry t k) (b'\n' ∷ [])))),
      ap is_pinned new ∙ (rw still refl),
    )
