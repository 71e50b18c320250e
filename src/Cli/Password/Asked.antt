-- ===== src/Cli/Password/Asked.antt =====
-- When a password is asked for.
use ezhpcy.Prelude.{
  ℕ, ◌≡◌, ◌≢◌, ◌⊎◌, refl, sym, ap, ◌∙◌, ◌↔◌, Bool, true, false, Option, none, some, List, [], ◌∷◌,
  ◌++◌, arith, inl, inr,
}
use ezhpcy.Prelude.Result.{ok}
use ezhpcy.Text.{Text}
use ezhpcy.Cli.Password.{
  Environment, PasswordOptions, read_password_file, read_password_fd, read_password_keyring,
  resolve_password,
}

pub data Source : Type 0 where
  from_argument from_file from_fd from_keyring : Source

abbrev enabled {ℓ} : {A : Type ℓ} → Source → Option A → List Source
enabled source none = []
enabled source (some _) = source ∷ []

abbrev set : Source → Bool → List Source
set source true = source ∷ []
set source false = []

-- The sources that are set, those of the command line first.
abbrev pub sources : PasswordOptions → List Source
sources o =
    enabled from_argument o.password
    ++ (enabled from_file o.password_file
        ++ (enabled from_fd o.password_fd
            ++ (set from_keyring o.password_keyring
                ++ (enabled from_fd o.config_password_fd
                    ++ (enabled from_file o.config_password_file
                        ++ set from_keyring o.config_password_keyring)))))

abbrev pub KeyringAsks : Environment → PasswordOptions → Type 0
KeyringAsks env o =
    (later : List Source) × (sources o ≡ from_keyring ∷ later)
    × (o.password_prompt ≡ true)
    × ((password : Text) → env.get_password ≢ some (some password))

read_password_file-none : (env : Environment) (path : Text) → read_password_file env path ≢ ok none
unfolding read_password_file
read_password_file-none env path = ground arith

read_password_fd-none : (env : Environment) (fd : ℕ) → read_password_fd env fd ≢ ok none
unfolding read_password_fd
read_password_fd-none env fd = ground arith

read_password_keyring-none :
    (env : Environment) (prompt : Bool)
    → read_password_keyring env prompt ≡ ok none
    → (prompt ≡ true) × ((password : Text) → env.get_password ≢ some (some password))
unfolding read_password_keyring
read_password_keyring-none env prompt h = ground arith

keyring_asks :
    (env : Environment) (found : Option (Option Text))
    → env.get_password ≡ found
    → ((password : Text) → found ≢ some (some password))
    → read_password_keyring env true ≡ ok none
unfolding read_password_keyring
keyring_asks env none e h = rw (e, read_password_keyring) refl
keyring_asks env (some none) e h = rw (e, read_password_keyring) refl
keyring_asks env (some (some password)) e h = elim (h password refl) [ ]

abbrev is_keyring : List Source → Bool
is_keyring [] = true
is_keyring (from_keyring ∷ later) = true
is_keyring (_ ∷ later) = false

-- Another source than the keyring comes first.
not_asked :
    {P : Type 0} (env : Environment) (o : PasswordOptions)
    → is_keyring (sources o) ≡ false
    → (sources o ≡ []) ⊎ KeyringAsks env o
    → P
not_asked env o e (inl h) = let bad = sym (ap is_keyring h) ∙ e in cc
not_asked env o e (inr (later, h, asks, lacks)) = let bad = sym (ap is_keyring h) ∙ e in cc

module _ (env : Environment) (prompt : Bool) where
  abbrev options :
      Option Text → Option Text → Option ℕ → Bool → Option ℕ → Option Text → Bool → PasswordOptions
  options p f d k cd cf ck = record {
    password = p;
    password_file = f;
    password_fd = d;
    password_keyring = k;
    config_password_file = cf;
    config_password_fd = cd;
    config_password_keyring = ck;
    password_prompt = prompt;
  }

  options-none :
      (p f : Option Text) (d : Option ℕ) (k : Bool) (cd : Option ℕ) (cf : Option Text) (ck : Bool)
      → resolve_password env (options p f d k cd cf ck) ≡ ok none
      → (sources (options p f d k cd cf ck) ≡ []) ⊎ KeyringAsks env (options p f d k cd cf ck)
  unfolding resolve_password
  options-none (some _) f d k cd cf ck h = ground arith
  options-none none (some path) d k cd cf ck h = elim (read_password_file-none env path h) [ ]
  options-none none none (some fd) k cd cf ck h = elim (read_password_fd-none env fd h) [ ]
  options-none none none none true cd cf ck h =
      inr (let (asks, lacks) = read_password_keyring-none env prompt h in (_, refl, asks, lacks))
  options-none none none none false (some fd) cf ck h = elim (read_password_fd-none env fd h) [ ]
  options-none none none none false none (some path) ck h =
      elim (read_password_file-none env path h) [ ]
  options-none none none none false none none true h =
      inr (let (asks, lacks) = read_password_keyring-none env prompt h in (_, refl, asks, lacks))
  options-none none none none false none none false h = inl refl

  asks_options :
      (p f : Option Text) (d : Option ℕ) (k : Bool) (cd : Option ℕ) (cf : Option Text) (ck : Bool)
      → (sources (options p f d k cd cf ck) ≡ []) ⊎ KeyringAsks env (options p f d k cd cf ck)
      → resolve_password env (options p f d k cd cf ck) ≡ ok none
  unfolding resolve_password
  asks_options (some password) f d k cd cf ck h =
      not_asked env (options (some password) f d k cd cf ck) refl h
  asks_options none (some path) d k cd cf ck h =
      not_asked env (options none (some path) d k cd cf ck) refl h
  asks_options none none (some fd) k cd cf ck h =
      not_asked env (options none none (some fd) k cd cf ck) refl h
  asks_options none none none true cd cf ck (inl e) = cc
  asks_options none none none true cd cf ck (inr (later, e, asks, lacks)) =
      rw asks (keyring_asks env _ refl lacks)
  asks_options none none none false (some fd) cf ck h =
      not_asked env (options none none none false (some fd) cf ck) refl h
  asks_options none none none false none (some path) ck h =
      not_asked env (options none none none false none (some path) ck) refl h
  asks_options none none none false none none true (inl e) = cc
  asks_options none none none false none none true (inr (later, e, asks, lacks)) =
      rw asks (keyring_asks env _ refl lacks)
  asks_options none none none false none none false h = refl

-- A password is left to be asked for, if it is needed, exactly where no source is set, or where the keyring is the first
-- source that is set, has no password to give, and prompting is allowed. In all other cases there is a password, or an
-- error.
pub resolve_password_iff :
    (env : Environment) (o : PasswordOptions)
    → (resolve_password env o ≡ ok none) ↔ ((sources o ≡ []) ⊎ KeyringAsks env o)
resolve_password_iff env o = (
  options-none env o.password_prompt o.password o.password_file o.password_fd o.password_keyring
      o.config_password_fd o.config_password_file o.config_password_keyring,
  asks_options env o.password_prompt o.password o.password_file o.password_fd o.password_keyring
      o.config_password_fd o.config_password_file o.config_password_keyring,
)
