-- ===== src/Enrollment/Tests.antt =====
-- The answers of an application, and a token.
use pods.Base.{
  ◌≤◌, ◌≡◌, ◌↔◌, refl, Bool, true, List, [], ◌∷◌, ok, some, all, All, length, Text, codes, Value,
  str, arr, nat, trim, replicate, arith,
}
use pods.Enrollment.Answers.{
  IsAnswer, to_items, validate_application_answers, validate_application_answers_sound,
  validate_application_answers_complete,
}
use pods.Enrollment.Token.{IsTokenChar, normalize_invitation_token, normalize_invitation_token_iff}

abbrev answers : List Text
answers = codes "Every day" ∷ codes "Yes" ∷ []

answers_accepted : validate_application_answers (arr (to_items answers)) (nat 2) ≡ ok answers
unfolding validate_application_answers pods.Base.trim
answers_accepted = refl

answers-good : All IsAnswer answers
unfolding pods.Base.trim
answers-good = ((omega arith, omega arith, refl), ((omega arith, omega arith, refl), tt))

validate_application_answers_sound_example : (length answers ≡ 2) × All IsAnswer answers
validate_application_answers_sound_example =
    validate_application_answers_sound (arr (to_items answers)) 2 {ts = answers} answers_accepted

validate_application_answers_complete_example :
    validate_application_answers (arr (to_items answers)) (nat (length answers)) ≡ ok answers
validate_application_answers_complete_example =
    validate_application_answers_complete answers answers-good

abbrev token : Text
token = replicate 43 b'a'

normalize_invitation_token_iff_example :
    (normalize_invitation_token (str token) ≡ some token)
    ↔ ((str token ≡ str token) × All IsTokenChar token × (length token ≡ 43))
normalize_invitation_token_iff_example = normalize_invitation_token_iff (str token) token
