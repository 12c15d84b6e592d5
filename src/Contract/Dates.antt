-- ===== src/Contract/Dates.antt =====
-- packages/domain/src/index.ts: which days `materializeOccurrences` turns into occurrences.
use mathlib.Core.Path.{subst, ap₂}
use pods.Base.{
  ok-injective, throw_if-eq-ok, ℕ, zero, suc, ◌+◌, ◌-◌, ◌≤◌, ◌≡◌, refl, true, Option, none, some,
  List, [], ◌∷◌, map, keep, ok, >>=-eq-ok, throw_if, leb, ltb, arith, Bool-cases, inl, inr,
  Option-cases,
}
use pods.Contract.Types.{FrozenOccurrence}
use pods.Contract.Calendar.{Calendar, CountsDays}
use pods.Contract.Occurrences.{
  MaterializeInput, selects, make_occurrence, materialize_from, materialize_occurrences,
  or_range_error, is_bad_cutoff,
}

-- The `n` days from `date` on.
abbrev pub days_from : ℕ → ℕ → List ℕ
days_from zero date = []
days_from (suc n) date = date ∷ days_from n (suc date)

-- The occurrences are numbered from `count + 1` on.
abbrev pub IsNumbered : ℕ → List FrozenOccurrence → Type 0
IsNumbered count [] = Unit
IsNumbered count (o ∷ os) = (o.ordinal ≡ suc count) × IsNumbered (suc count) os

module _ (c : Calendar) (counts : CountsDays c) where
  or_range_error-next :
      (date : ℕ) {next : ℕ} → or_range_error (c.next_day date) ≡ ok next → next ≡ suc date
  or_range_error-next date {next} h = elim (Option-cases (c.next_day date)) [
    | inl e ↦ cc (rw e at h)
    | inr (d, e) ↦ ground (arith, counts date d e)
  ]

  make_occurrence-date :
      (input : MaterializeInput) (date n : ℕ) {o : FrozenOccurrence}
      → make_occurrence c input date n ≡ ok o
      → (o.ordinal ≡ n) × (o.local_date ≡ c.print_date date)
  unfolding make_occurrence
  make_occurrence-date input date n h = ground arith

  -- An occurrence for each selected day of the `rounds` days from `date` on, in order and numbered.
  abbrev pub IsDated : MaterializeInput → ℕ → ℕ → ℕ → List FrozenOccurrence → Type 0
  IsDated input rounds date count os =
      (map (λ o. o.local_date) os
        ≡ map c.print_date
            (keep (λ d. selects input.weekdays (c.day_of_week d)) (days_from rounds date)))
      × IsNumbered count os

  cons-IsDated :
      (input : MaterializeInput) (rounds date count : ℕ) (o : FrozenOccurrence)
      (os : List FrozenOccurrence)
      → selects input.weekdays (c.day_of_week date) ≡ true
      → o.ordinal ≡ suc count
      → o.local_date ≡ c.print_date date
      → IsDated input rounds (suc date) (suc count) os
      → IsDated input (suc rounds) date count (o ∷ os)
  cons-IsDated input rounds date count o os e n d ih = (rw e (ap₂ ◌∷◌ d ih.0), (n, ih.1))

  materialize_from-IsDated :
      (input : MaterializeInput) (end rounds date count : ℕ) (os : List FrozenOccurrence)
      → suc end ≡ date + rounds
      → materialize_from c input end rounds date count ≡ ok os
      → IsDated input rounds date count os
  unfolding materialize_from
  materialize_from-IsDated input end zero date count os n h =
      subst (IsDated input zero date count) (ok-injective h) (refl, tt)
  materialize_from-IsDated input end (suc rounds) date count os n h =
      let within : leb date end ≡ true = ground arith in
      elim (Bool-cases (selects input.weekdays (c.day_of_week date))) [
        | inl taken ↦
            let (o, e₁, h₁) =
              >>=-eq-ok (make_occurrence c input date (suc count)) _
                (rw (within, taken, materialize_from) at h) in
            let (next, e₂, h₂) = >>=-eq-ok (or_range_error (c.next_day date)) _ h₁ in
            let (rest, e₃, h₃) =
              >>=-eq-ok (materialize_from c input end rounds next (suc count)) _ h₂ in
            let same = or_range_error-next date e₂ in
            let (number, day) = make_occurrence-date input date (suc count) e₁ in
            let ih =
              materialize_from-IsDated input end rounds next (suc count) rest (omega (arith, same))
                e₃ in
            subst (IsDated input (suc rounds) date count) (ok-injective h₃) (
              cons-IsDated input rounds date count o rest taken number day
                (subst (λ d. IsDated input rounds d (suc count) rest) same ih))
        | inr skipped ↦
            let (next, e₂, h₂) =
              >>=-eq-ok (or_range_error (c.next_day date)) _
                (rw (within, skipped, materialize_from) at h) in
            let same = or_range_error-next date e₂ in
            let ih =
              materialize_from-IsDated input end rounds next count os (omega (arith, same)) h₂ in
            rw skipped (subst (λ d. IsDated input rounds d count os) same ih)
      ]

  -- Where the calendar counts days one by one, the occurrences of a schedule are the selected
  -- days from the start date to the end date, each once, in order, and numbered from 1; the loop
  -- has rounds enough.
  pub materialize_occurrences-IsDated :
      (input : MaterializeInput) (os : List FrozenOccurrence)
      → materialize_occurrences c input ≡ ok os
      → (start : ℕ) × (end : ℕ) × (c.parse_date input.start_date ≡ some start)
        × (c.parse_date input.end_date ≡ some end)
        × (start ≤ end)
        × IsDated input (suc (end - start)) start 0 os
  unfolding materialize_occurrences
  materialize_occurrences-IsDated input os h =
      let (start, e₁, h₁) = >>=-eq-ok (or_range_error (c.parse_date input.start_date)) _ h in
      let (end, e₂, h₂) = >>=-eq-ok (or_range_error (c.parse_date input.end_date)) _ h₁ in
      let (_, e₃, h₃) = >>=-eq-ok (throw_if (ltb end start) _) _ h₂ in
      let (_, _, h₄) = >>=-eq-ok (throw_if (is_bad_cutoff input.commitment_cutoff) _) _ h₃ in
      let ordered : start ≤ end = ground (arith, throw_if-eq-ok _ _ e₃) in
      (
        start,
        end,
        found _ e₁,
        found _ e₂,
        ordered,
        materialize_from-IsDated input end (suc (end - start)) start 0 os (omega arith) h₄,
      )
    where
      found : (o : Option ℕ) {n : ℕ} → or_range_error o ≡ ok n → o ≡ some n
      found none h = cc
      found (some n) h = cc
