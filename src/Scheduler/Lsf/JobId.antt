-- ===== src/Scheduler/Lsf/JobId.antt =====
-- The job ID that `bsub` reports, and the execution host that `bjobs` reports.
use ezhpcy.Prelude.{
  ◌≡◌, ◌≢◌, refl, sym, ◌∙◌, ap, Option, none, some, [], ◌∷◌, ◌++◌, arith, All, ◌⊎◌, Option-cases,
  inl, inr,
}
use ezhpcy.Prelude.Exec.{ok}
use ezhpcy.Text.{Text, codes, is_decimal, strip_prefix, span}
use ezhpcy.Text.Split.Laws.{strip_prefix_sound, span-append, span-All, span-append_stop, Satisfies}
use ezhpcy.Scheduler.Lsf.{
  match_digits, match_submitted, search_submitted, parse_job_id, nonempty, first_of_two,
}

-- A text with a submission report in it: digits, one at least, between the two fixed parts.
pub record Reports (output job_id : Text) : Type 0 where
  pub front : Text
  pub back : Text
  pub shape : output ≡ front ++ (codes "Job <" ++ (job_id ++ (codes "> is submitted" ++ back)))
  pub digits : All (Satisfies is_decimal) job_id
  pub some_digit : job_id ≢ []

nonempty_sound : (t u : Text) → nonempty t ≡ some u → (t ≡ u) × (u ≢ [])
nonempty_sound [] u h = cc
nonempty_sound (c ∷ t) u h = ground arith

match_digits_sound :
    (taken rest job_id : Text)
    → match_digits (taken, rest) ≡ some job_id
    → (taken ≡ job_id) × (job_id ≢ []) × (back : Text) × (rest ≡ codes "> is submitted" ++ back)
unfolding match_digits
match_digits_sound taken rest job_id h =
    elim (Option-cases (strip_prefix (codes "> is submitted") rest)) [
      | inl e ↦ cc (rw (e, match_digits) at h)
      | inr (back, e) ↦
          let found = nonempty_sound taken job_id (rw (e, match_digits) at h) in
          (found.0, found.1, back, strip_prefix_sound _ rest back e)
    ]

match_submitted_sound : (s job_id : Text) → match_submitted s ≡ some job_id → Reports s job_id
unfolding match_submitted
match_submitted_sound s job_id h = elim (Option-cases (strip_prefix (codes "Job <") s)) [
  | inl e ↦ cc (rw (e, match_submitted) at h)
  | inr (rest, e) ↦
      let found =
        match_digits_sound (span is_decimal rest).0 (span is_decimal rest).1 job_id
          (rw (e, match_submitted) at h) in
      record {
        front = [];
        back = found.2;
        shape =
            strip_prefix_sound (codes "Job <") s rest e
            ∙ ap (λ t. codes "Job <" ++ t)
                (sym (span-append is_decimal rest) ∙ rw (found.0, found.3));
        digits = rw found.0 at (span-All is_decimal rest);
        some_digit = found.1;
      }
]

search_submitted_sound : (s job_id : Text) → search_submitted s ≡ some job_id → Reports s job_id
search_submitted_sound [] job_id h = unfold search_submitted in cc
search_submitted_sound (c ∷ s) job_id h = elim (Option-cases (match_submitted (c ∷ s))) [
  | inl e ↦
      let later =
        search_submitted_sound s job_id
          (unfold search_submitted in rw (e, search_submitted) at h) in
      record {
        front = c ∷ later.front;
        back = later.back;
        shape = ap (λ t. c ∷ t) later.shape;
        digits = later.digits;
        some_digit = later.some_digit;
      }
  | inr (found, e) ↦
      match_submitted_sound (c ∷ s) job_id
        (e ∙ (unfold search_submitted in rw (e, search_submitted) at h))
]

-- A job ID that is returned stands in `bsub`'s output, in a report of its submission, and has one
-- digit at least and nothing but digits.
pub parse_job_id_sound :
    (output job_id : Text) → parse_job_id output ≡ ok job_id → Reports output job_id
unfolding parse_job_id
parse_job_id_sound output job_id h = elim (Option-cases (search_submitted output)) [
  | inl e ↦ cc (rw (e, parse_job_id) at h)
  | inr (found, e) ↦ search_submitted_sound output job_id (e ∙ cc (rw (e, parse_job_id) at h))
]

nonempty-some : (t : Text) → t ≢ [] → nonempty t ≡ some t
nonempty-some [] h = absurd (h refl)
nonempty-some (c ∷ t) h = refl

match_submitted_lem :
    (rest : Text) → match_submitted (codes "Job <" ++ rest) ≡ match_digits (span is_decimal rest)
unfolding match_submitted
match_submitted_lem rest = refl

match_digits_lem :
    (taken back : Text) → match_digits (taken, codes "> is submitted" ++ back) ≡ nonempty taken
unfolding match_digits strip_prefix
match_digits_lem taken back = refl

match_submitted-report :
    (job_id back : Text)
    → All (Satisfies is_decimal) job_id
    → job_id ≢ []
    → match_submitted (codes "Job <" ++ (job_id ++ (codes "> is submitted" ++ back))) ≡ some job_id
match_submitted-report job_id back digits some_digit =
    match_submitted_lem _
    ∙ ap match_digits (
        span-append_stop is_decimal job_id b'>' (codes " is submitted" ++ back) digits
          (unfold is_decimal in refl))
    ∙ match_digits_lem job_id back
    ∙ nonempty-some job_id some_digit

first_of_two-ne-none : (a b : Option Text) → (a ≢ none) ⊎ (b ≢ none) → first_of_two a b ≢ none
first_of_two-ne-none none b h = ground arith
first_of_two-ne-none (some a) b h = cc

search_submitted-found :
    (front s job_id : Text) → match_submitted s ≡ some job_id → search_submitted (front ++ s) ≢ none
unfolding search_submitted
search_submitted-found [] [] job_id h = unfold match_submitted in cc
search_submitted-found [] (c ∷ s) job_id h =
    first_of_two-ne-none (match_submitted (c ∷ s)) (search_submitted s) (inl (cc))
search_submitted-found (x ∷ front) s job_id h =
    first_of_two-ne-none (match_submitted (x ∷ front ++ s)) (search_submitted (front ++ s))
      (inr (search_submitted-found front s job_id h))

-- Where the output holds a submission report, a job ID is found: `submit` then raises no error.
pub parse_job_id_complete :
    (output job_id : Text)
    → Reports output job_id
    → (found : Text) × (parse_job_id output ≡ ok found)
parse_job_id_complete output job_id r = elim (Option-cases (search_submitted output)) [
  | inl e ↦ absurd (
      search_submitted-found r.front _ job_id
        (match_submitted-report job_id r.back r.digits r.some_digit)
        (ap search_submitted (sym r.shape) ∙ e))
  | inr (found, e) ↦ (found, unfold parse_job_id in rw (e, parse_job_id))
]
