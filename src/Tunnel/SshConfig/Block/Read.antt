-- ===== src/Tunnel/SshConfig/Block/Read.antt =====
-- What OpenSSH's way to split a line makes of quoted paths and of names.
use ezhpcy.Prelude.{
  ℕ, ◌≡◌, ◌≢◌, ◌∙◌, refl, sym, ap, append-nil, append_assoc, Bool, true, false, ◌&&◌, none, some,
  List, [], ◌∷◌, ◌++◌, ◌==◌, arith, All, ℕ_discrete, Bool-cases, inl, inr,
}
use ezhpcy.Text.{Text, codes, is_space, show, join, split}
use ezhpcy.Text.Number.Decimal.{IsAsciiDigit, show-IsAsciiDigit, show-cons}
use ezhpcy.Config.Alias.{validate_alias, IsInert, validate_alias_safe}
use ezhpcy.Tunnel.SshConfig.{escape, config_path, has_space}
use ezhpcy.Tunnel.SshConfig.Block.Reader.{contains, plain, double, read, the_only, argument}

split_line : (c : ℕ) (w s : Text) → contains c w ≡ false → split c (w ++ c ∷ s) ≡ w ∷ split c s
unfolding split contains
split_line c [] s h = ground arith
split_line c (x ∷ w) s h = ground (arith, split_line c w s)

split_last_line : (c : ℕ) (w : Text) → contains c w ≡ false → split c w ≡ w ∷ []
unfolding split contains
split_last_line c [] h = refl
split_last_line c (x ∷ w) h = ground (arith, split_last_line c w)

abbrev pub IsLine : Text → Type 0
IsLine s = contains b'\n' s ≡ false

pub split-join :
    (l : Text) (ls : List Text)
    → All IsLine (l ∷ ls)
    → split b'\n' (join (codes "\n") (l ∷ ls)) ≡ l ∷ ls
unfolding join
split-join l [] (h, _) = split_last_line b'\n' l h
split-join l (m ∷ ls) (h, hs) =
    split_line b'\n' l (join (codes "\n") (m ∷ ls)) h ∙ ap (λ r. l ∷ r) (split-join m ls hs)

-- A path that can be quoted: it has neither a backslash nor a line break.
abbrev pub IsPlain : Text → Type 0
IsPlain s = (contains b'\\' s ≡ false) × (contains b'\n' s ≡ false)

escape_quote : (s : Text) → escape (b'"' ∷ s) ≡ b'\\' ∷ b'"' ∷ escape s
unfolding escape
escape_quote s = refl

escape_other : (c : ℕ) (s : Text) → c ≢ b'"' → escape (c ∷ s) ≡ c ∷ escape s
unfolding escape
escape_other c s h = ground arith

pub not_head : (x c : ℕ) (s : Text) → contains x (c ∷ s) ≡ false → (c ≢ x) × (contains x s ≡ false)
unfolding contains
not_head x c s h = ground arith

other : (c d : ℕ) → c ≢ d → (c == d) ≡ false
other c d h = ground arith

double_kept :
    (w : Text) (c : ℕ) (s : Text)
    → c ≢ b'"'
    → c ≢ b'\\'
    → read double (some w) (c ∷ s) ≡ read double (some (w ++ c ∷ [])) s
unfolding read
double_kept w c [] a b = rw (other c b'\\' b, other c b'"' a, read) refl
double_kept w c (d ∷ s) a b = rw (other c b'\\' b, other c b'"' a, read) refl

read_opened : (s : Text) → read plain none (b'"' ∷ s) ≡ read double (some []) s
unfolding read
read_opened [] = refl
read_opened (d ∷ s) = refl

read_escaped :
    (w s : Text) → read double (some w) (b'\\' ∷ b'"' ∷ s) ≡ read double (some (w ++ b'"' ∷ [])) s
unfolding read
read_escaped w s = refl

read-escape :
    (w s : Text)
    → contains b'\\' s ≡ false
    → read double (some w) (escape s ++ b'"' ∷ []) ≡ some ((w ++ s) ∷ [])
read-escape w [] h = unfold read escape in ap (λ r. some (r ∷ [])) (sym (append-nil w))
read-escape w (c ∷ s) h =
    let (unescaped, rest) = not_head b'\\' c s h in
    let ih = read-escape (w ++ c ∷ []) s rest in
    elim (ℕ_discrete c b'"') [
      | yes same ↦
          ap (λ x. read double (some w) (escape (x ∷ s) ++ b'"' ∷ [])) same
          ∙ ap (λ r. read double (some w) (r ++ b'"' ∷ [])) (escape_quote s)
          ∙ read_escaped w (escape s ++ b'"' ∷ [])
          ∙ ap (λ x. read double (some (w ++ x ∷ [])) (escape s ++ b'"' ∷ [])) (sym same)
          ∙ ih
          ∙ ap (λ r. some (r ∷ [])) (append_assoc w (c ∷ []) s)
      | no other ↦
          ap (λ r. read double (some w) (r ++ b'"' ∷ [])) (escape_other c s other)
          ∙ double_kept w c (escape s ++ b'"' ∷ []) other unescaped
          ∙ ih
          ∙ ap (λ r. some (r ∷ [])) (append_assoc w (c ∷ []) s)
    ]

escape-IsLine : (s : Text) → IsLine s → IsLine (escape s ++ b'"' ∷ [])
unfolding escape contains
escape-IsLine [] h = refl
escape-IsLine (c ∷ s) h = ground (arith, escape-IsLine s)

pub config_path-IsLine : (s : Text) → IsLine s → IsLine (config_path s)
unfolding config_path contains
config_path-IsLine s h = escape-IsLine s h

pub argument_path : (s : Text) → contains b'\\' s ≡ false → argument (config_path s) ≡ some s
unfolding argument config_path
argument_path s h = ap the_only (read_opened (escape s ++ b'"' ∷ []) ∙ read-escape [] s h)

-- A character that stands for itself outside quotes
abbrev pub IsBare : ℕ → Type 0
IsBare c = (c ≢ b'"') × (c ≢ b'\'') × (c ≢ b'\\') × (c ≢ b' ') × (c ≢ 9) × (c ≢ b'\n')

hash : (b : Bool) → (b && false) ≡ false
hash true = refl
hash false = refl

plain_kept :
    (w : Text) (c : ℕ) (s : Text)
    → IsBare c
    → read plain (some w) (c ∷ s) ≡ read plain (some (w ++ c ∷ [])) s
unfolding read
plain_kept w c [] (a, b, e, f, g, n) =
    rw (other c b'\\' e, other c b' ' f, other c 9 g, hash, other c b'"' a, other c b'\'' b, read)
      refl
plain_kept w c (d ∷ s) (a, b, e, f, g, n) =
    rw (other c b'\\' e, other c b' ' f, other c 9 g, hash, other c b'"' a, other c b'\'' b, read)
      refl

plain_start :
    (c : ℕ) (s : Text)
    → IsBare c
    → c ≢ b'#'
    → read plain none (c ∷ s) ≡ read plain (some (c ∷ [])) s
unfolding read
plain_start c [] (a, b, e, f, g, n) h =
    rw
      (
        other c b'\\' e,
        other c b' ' f,
        other c 9 g,
        other c b'#' h,
        other c b'"' a,
        other c b'\'' b,
        read,
      )
      refl
plain_start c (d ∷ s) (a, b, e, f, g, n) h =
    rw
      (
        other c b'\\' e,
        other c b' ' f,
        other c 9 g,
        other c b'#' h,
        other c b'"' a,
        other c b'\'' b,
        read,
      )
      refl

read-bare : (w s : Text) → All IsBare s → read plain (some w) s ≡ some ((w ++ s) ∷ [])
read-bare w [] h = unfold read in ap (λ r. some (r ∷ [])) (sym (append-nil w))
read-bare w (c ∷ s) (h, hs) =
    plain_kept w c s h
    ∙ read-bare (w ++ c ∷ []) s hs
    ∙ ap (λ r. some (r ∷ [])) (append_assoc w (c ∷ []) s)

-- A name that is put as it is: it is not empty, no comment, and all of it stands for itself.
abbrev pub IsName : Text → Type 0
IsName [] = ⊥
IsName (c ∷ s) = (c ≢ b'#') × All IsBare (c ∷ s)

pub argument_name : (s : Text) → IsName s → argument s ≡ some s
unfolding argument
argument_name [] h = elim h [ ]
argument_name (c ∷ s) (start, (h, hs)) =
    ap the_only (plain_start c s h start ∙ read-bare (c ∷ []) s hs)

IsLine-cons : (c : ℕ) (s : Text) → c ≢ b'\n' → IsLine s → IsLine (c ∷ s)
unfolding contains
IsLine-cons c s a h = ground arith

bare-IsLine : (s : Text) → All IsBare s → IsLine s
bare-IsLine [] h = unfold contains in refl
bare-IsLine (c ∷ s) ((a, b, e, f, g, n), hs) = IsLine-cons c s n (bare-IsLine s hs)

pub name-IsLine : (s : Text) → IsName s → IsLine s
name-IsLine [] h = elim h [ ]
name-IsLine (c ∷ s) (start, h) = bare-IsLine (c ∷ s) h

-- A name that OpenSSH reads as it is, if it has no blank: none of its characters is a quote, a backslash or `#`.
abbrev pub IsUnquoted : Text → Type 0
IsUnquoted s =
    (contains b'"' s ≡ false)
    × (contains b'\'' s ≡ false)
    × (contains b'\\' s ≡ false)
    × (contains b'#' s ≡ false)

unspaced_head :
    (c : ℕ) (s : Text) → has_space (c ∷ s) ≡ false → (is_space c ≡ false) × (has_space s ≡ false)
unspaced_head c s h = elim (Bool-cases (is_space c)) [
  | inl space ↦ cc (rw (space, has_space) at h)
  | inr free ↦ (free, rw (free, has_space) at h)
]

no_blank : (c : ℕ) → is_space c ≡ false → (c ≢ b' ') × (c ≢ 9) × (c ≢ b'\n')
unfolding is_space
no_blank c free = ((λ same. cc), (λ same. cc), (λ same. cc))

unquoted-IsBare : (s : Text) → has_space s ≡ false → IsUnquoted s → All IsBare s
unquoted-IsBare [] h k = tt
unquoted-IsBare (c ∷ s) h (q, a, b, n) =
    let (free, unspaced) = unspaced_head c s h in
    let (q1, q2) = not_head b'"' c s q in
    let (a1, a2) = not_head b'\'' c s a in
    let (b1, b2) = not_head b'\\' c s b in
    let (n1, n2) = not_head b'#' c s n in
    let (space, tab, line) = no_blank c free in
    ((q1, a1, b1, space, tab, line), unquoted-IsBare s unspaced (q2, a2, b2, n2))

pub unquoted-IsName :
    (c : ℕ) (s : Text) → has_space (c ∷ s) ≡ false → IsUnquoted (c ∷ s) → IsName (c ∷ s)
unquoted-IsName c s h k = ((not_head b'#' c s k.3).0, unquoted-IsBare (c ∷ s) h k)

inert-IsBare : (s : Text) → All IsInert s → All IsBare s
inert-IsBare [] h = tt
inert-IsBare (c ∷ s) (h, hs) =
    let (space, tab, line) = no_blank c h.0 in
    ((h.5, h.10, h.8, space, tab, line), inert-IsBare s hs)

pub alias-IsName : (alias out : Text) → validate_alias alias ≡ some out → IsName alias
alias-IsName [] out h = unfold validate_alias in cc
alias-IsName (c ∷ s) out h =
    let (_, _, _, _, _, _, inert) = validate_alias_safe (c ∷ s) out h in
    (inert.0.6, inert-IsBare (c ∷ s) inert)

digits-IsBare : (s : Text) → All IsAsciiDigit s → All IsBare s
digits-IsBare [] h = tt
digits-IsBare (c ∷ s) (h, hs) = (omega arith, digits-IsBare s hs)

digits-IsName : (s : Text) (c : ℕ) (t : Text) → s ≡ c ∷ t → All IsAsciiDigit s → IsName s
digits-IsName [] c t e h = cc
digits-IsName (x ∷ s) c t e h = (omega arith, digits-IsBare (x ∷ s) h)

pub show-IsName : (n : ℕ) → IsName (show n)
show-IsName n = let (c, t, e) = show-cons n in digits-IsName (show n) c t e (show-IsAsciiDigit n)
