-- ===== src/Enrollment/Answers.antt =====
-- packages/domain/src/enrollment.ts: the answers of an application and the decision on it.
use pods.Base.{
  ℕ, ◌≤◌, ◌≡◌, ◌↔◌, refl, Bool, true, false, not, ◌||◌, List, [], ◌∷◌, Result, ok, err, Text, Value,
  str, arr, Items, nil, cons, items, trimmed_text, as_text, trim, trim_idem, Number, nat, All,
  some_of, length, ltb, ◌==◌, if◌then◌else◌, arith,
}

pub data ApplicationStatus : Type 0 where
  applied accepted_unfunded application_rejected application_expired : ApplicationStatus

pub data ApplicationDecision : Type 0 where
  accept reject : ApplicationDecision

pub data AnswersError : Type 0 where
  answer_every_question answer_length : AnswersError

abbrev pub is_bad_answer : Text → Bool
is_bad_answer answer = ltb (length answer) 2 || ltb 500 (length answer)

-- `answers.map(answer => typeof answer === "string" ? answer.trim() : "")`.
abbrev pub answer_texts : Items → List Text
answer_texts nil = []
answer_texts (cons v vs) = trimmed_text v ∷ answer_texts vs

unfoldable pub validate_application_answers :
    Value → Number → Result (List AnswersError) (List Text)
validate_application_answers (arr answers) (nat expected_count) =
    if not (length (items answers) == expected_count)
    then err (answer_every_question ∷ [])
    else if some_of is_bad_answer (answer_texts answers)
    then err (answer_length ∷ [])
    else ok (answer_texts answers)
validate_application_answers _ _ = err (answer_every_question ∷ [])

unfoldable pub can_decide_application : ApplicationStatus → ApplicationDecision → Bool
can_decide_application applied accept = true
can_decide_application applied reject = true
can_decide_application _ _ = false

-- An application is decided at most once: only a fresh one can be, by either decision.
pub can_decide_application_iff :
    (s : ApplicationStatus) (d : ApplicationDecision)
    → (can_decide_application s d ≡ true) ↔ (s ≡ applied)
unfolding can_decide_application
can_decide_application_iff s d = ground arith

-- Stored answers, as the array of strings that a client sends.
abbrev pub to_items : List Text → Items
to_items [] = nil
to_items (t ∷ ts) = cons (str t) (to_items ts)

abbrev pub IsAnswer : Text → Type 0
IsAnswer t = (2 ≤ length t) × (length t ≤ 500) × (trim t ≡ t)

good_answers :
    (vs : Items) → some_of is_bad_answer (answer_texts vs) ≡ false → All IsAnswer (answer_texts vs)
good_answers nil h = tt
good_answers (cons v vs) h = ground (arith, trim_idem (as_text v), good_answers vs)

length-answer_texts : (vs : Items) → length (answer_texts vs) ≡ length (items vs)
length-answer_texts nil = refl
length-answer_texts (cons v vs) = ground (arith, length-answer_texts vs)

-- Accepted answers are as many as the questions, each trimmed and of 2 to 500 characters.
pub validate_application_answers_sound :
    (answers : Value) (n : ℕ) {ts : List Text}
    → validate_application_answers answers (nat n) ≡ ok ts
    → (length ts ≡ n) × All IsAnswer ts
unfolding validate_application_answers
validate_application_answers_sound (arr vs) n {ts} h =
    ground (arith, length-answer_texts vs, good_answers vs)
validate_application_answers_sound _ n h = cc

answer_texts-to_items :
    (ts : List Text)
    → All IsAnswer ts
    → (answer_texts (to_items ts) ≡ ts)
      × (length (items (to_items ts)) ≡ length ts)
      × (some_of is_bad_answer ts ≡ false)
answer_texts-to_items [] h = (refl, refl, refl)
answer_texts-to_items (t ∷ ts) h = ground (arith, answer_texts-to_items ts h.1)

-- Every list of trimmed answers of 2 to 500 characters, as many as are expected, is accepted and
-- stored as it is.
pub validate_application_answers_complete :
    (ts : List Text)
    → All IsAnswer ts
    → validate_application_answers (arr (to_items ts)) (nat (length ts)) ≡ ok ts
unfolding validate_application_answers
validate_application_answers_complete ts h =
    let (texts, n, good) = answer_texts-to_items ts h in rw (texts, n, good) (ground arith)
