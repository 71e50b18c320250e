-- ===== src/Worker/Control/Status.antt =====
-- What the worker publishes as its status, the tunnel reads.
use ezhpcy.Prelude.{ℕ, ◌≡◌, ◌∙◌, refl, ap, true, List, [], ◌∷◌, All}
use ezhpcy.Prelude.Int.{pos}
use ezhpcy.Prelude.Result.{ok}
use ezhpcy.Text.{Text, codes, text_eq_refl, show, words, is_digit, is_space}
use ezhpcy.Text.Split.Words.{IsWord, words-join}
use ezhpcy.Text.Number.Decimal.{
  IsAsciiDigit, show-IsAsciiDigit, show-cons, show-IsWord, to_int-show, digit-IsDigit,
  all_chars-true,
}
use ezhpcy.Worker.Control.{
  worker_ready, worker_failed, worker_stopped, member_port, parse_status, ready_port, isdigit,
  stopped, or_startup_failed,
}
use ezhpcy.Worker.Job.{publish_state}

ready-IsWord : IsWord (codes "ready")
unfolding is_space
ready-IsWord = (refl, (refl, (refl, (refl, (refl, tt)))))

stopped-IsWord : IsWord (codes "stopped")
unfolding is_space
stopped-IsWord = (refl, (refl, (refl, (refl, (refl, (refl, (refl, tt)))))))

failed-IsWord : IsWord (codes "failed")
unfolding is_space
failed-IsWord = (refl, (refl, (refl, (refl, (refl, (refl, tt))))))

published :
    (token state : Text) (fields : List Text)
    → All IsWord (token ∷ state ∷ fields)
    → words (publish_state token state fields) ≡ token ∷ state ∷ fields
unfolding publish_state
published token state fields h = words-join token (state ∷ fields) h

ready_port-show :
    (ports : List ℕ) (p : ℕ) → member_port p ports ≡ true → ready_port ports (show p) ≡ ok p
unfolding ready_port
ready_port-show ports p h = rw (to_int-show p, ready_port) (rw h refl)

parse_ready :
    (token : Text) (ports : List ℕ) (p : ℕ)
    → member_port p ports ≡ true
    → parse_status token ports (token ∷ codes "ready" ∷ show p ∷ []) ≡ ok (worker_ready p)
unfolding parse_status
parse_ready token ports p h = rw (text_eq_refl token) (rw (ready_port-show ports p h) refl)

isdigit-digits : (s : Text) (c : ℕ) (t : Text) → s ≡ c ∷ t → All IsAsciiDigit s → isdigit s ≡ true
isdigit-digits [] c t e h = cc
isdigit-digits (x ∷ s) c t e h = all_chars-true is_digit (x ∷ s) (digit-IsDigit (x ∷ s) h)

isdigit-show : (n : ℕ) → isdigit (show n) ≡ true
isdigit-show n = let (c, t, e) = show-cons n in isdigit-digits (show n) c t e (show-IsAsciiDigit n)

stopped-show : (n : ℕ) → stopped (show n) ≡ ok (worker_stopped (pos n))
stopped-show n = rw (to_int-show n, stopped) refl

parse_stopped :
    (token : Text) (ports : List ℕ) (n : ℕ)
    → parse_status token ports (token ∷ codes "stopped" ∷ show n ∷ []) ≡ ok (worker_stopped (pos n))
unfolding parse_status
parse_stopped token ports n = rw (text_eq_refl token) (rw (isdigit-show n) (stopped-show n))

word_reason : (reason : Text) → IsWord reason → or_startup_failed reason ≡ reason
word_reason [] h = elim h [ ]
word_reason (c ∷ s) h = refl

parse_failed :
    (token : Text) (ports : List ℕ) (reason : Text)
    → IsWord reason
    → parse_status token ports (token ∷ codes "failed" ∷ reason ∷ []) ≡ ok (worker_failed reason)
unfolding parse_status
parse_failed token ports reason h =
    rw (text_eq_refl token) (ap (λ r. ok (worker_failed r)) (word_reason reason h))

-- The three records that the worker publishes are read as what they say, whatever word the token is: the
-- port where sshd listens, if it is one of the run's, the exit status, and a reason of one word.
pub parse_status-publish_state :
    (token : Text) (ports : List ℕ) (p n : ℕ) (reason : Text)
    → IsWord token
    → IsWord reason
    → member_port p ports ≡ true
    → (parse_status token ports (words (publish_state token (codes "ready") (show p ∷ [])))
        ≡ ok (worker_ready p))
      × (parse_status token ports (words (publish_state token (codes "stopped") (show n ∷ [])))
          ≡ ok (worker_stopped (pos n)))
      × (parse_status token ports (words (publish_state token (codes "failed") (reason ∷ [])))
          ≡ ok (worker_failed reason))
parse_status-publish_state token ports p n reason t r h = (
  ap (parse_status token ports)
        (published token (codes "ready") (show p ∷ []) (t, (ready-IsWord, (show-IsWord p, tt))))
      ∙ parse_ready token ports p h,
  ap (parse_status token ports)
        (published token (codes "stopped") (show n ∷ []) (t, (stopped-IsWord, (show-IsWord n, tt))))
      ∙ parse_stopped token ports n,
  ap (parse_status token ports)
        (published token (codes "failed") (reason ∷ []) (t, (failed-IsWord, (r, tt))))
      ∙ parse_failed token ports reason r,
)
