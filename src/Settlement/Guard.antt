-- ===== src/Settlement/Guard.antt =====
-- packages/domain/src/settlement.ts: the last guard of the calculation.
use pods.Base.{
  >>=-eq-err, throw_if, ℕ, ◌+◌, ◌*◌, ◌≡◌, ◌≢◌, Bool, not, ◌||◌, List, [], ◌∷◌, arith, Result, err,
  ◌==◌, Text, Dict, has, length, insert, Number, inl, inr, Option-cases, is_empty, sum_at,
  throw_if-ne-err,
}
use pods.Settlement.Types.{
  SettlementMemberInput, SettlementOutcomeInput, SettlementOccurrenceInput, SettlementInput,
  SettlementOutcomeState, CalculatedSettlementOutcome, CalculatedSettlementOccurrence,
  CalculatedSettlementMember, SettlementError, not_conserved, members_not_unique, invalid_deposit,
  deposit_mismatch, invalid_slice, no_members, no_occurrences, allocation_too_large,
  occurrences_not_unique, deposit_total_too_large, payout_total_too_large, pool_too_large,
  terminal_state,
}
use pods.Settlement.{
  Distribution, distribute, collect_outcomes, require_complete, settle_member, add_outcome,
  settle_members, settle_occurrence, settle_occurrences, register_members, read_totals, checked_sum,
  checked_multiply, finish_settlement, calculate_settlement, require_positive_safe_integer,
  is_forfeiting, ids_where,
}
use pods.Settlement.Steps.{member_ids, payout_of, deposit_of}
use pods.Settlement.Conservation.{
  register_members-IsRegister, settle_occurrences-pays, checked_multiply-eq, checked_sum-eq,
  read_totals-sum,
}

-- No step but the last throws `not_conserved`.
abbrev Passes : {A : Type 0} → Result SettlementError A → Type 0
Passes m = m ≢ err not_conserved

require-Passes :
    (n : Number) {message : SettlementError}
    → message ≢ not_conserved
    → Passes (require_positive_safe_integer n message)
unfolding require_positive_safe_integer
require-Passes n d = ground arith

multiply-Passes :
    (a b : ℕ) {message : SettlementError}
    → message ≢ not_conserved
    → Passes (checked_multiply a b message)
unfolding checked_multiply
multiply-Passes a b d = ground arith

collect_outcomes-Passes :
    (ids : List Text) (os : List SettlementOutcomeInput) (d : Dict SettlementOutcomeState)
    → Passes (collect_outcomes ids os d)
unfolding collect_outcomes
collect_outcomes-Passes ids [] d = ground arith
collect_outcomes-Passes ids (o ∷ os) d = elim (Option-cases (terminal_state o.state)) [
  | inl e ↦ ground arith
  | inr (s, e) ↦ ground (arith, collect_outcomes-Passes ids os (insert o.membership_id s d))
]

settle_member-Passes : (d : Distribution) (m : SettlementMemberInput) → Passes (settle_member d m)
unfolding settle_member
settle_member-Passes d m = ground arith

add_outcome-Passes :
    (o : CalculatedSettlementOutcome) (totals : Dict CalculatedSettlementMember)
    → Passes (add_outcome o totals)
unfolding add_outcome
add_outcome-Passes o totals = ground arith

settle_members-Passes :
    (d : Distribution) (ms : List SettlementMemberInput) (totals : Dict CalculatedSettlementMember)
    → Passes (settle_members d ms totals)
unfolding settle_members
settle_members-Passes d [] totals h = cc
settle_members-Passes d (m ∷ ms) totals h =
    let (o, _, h₁) = >>=-eq-err (settle_member d m) _ h (settle_member-Passes d m) in
    let (t, _, h₂) = >>=-eq-err (add_outcome o totals) _ h₁ (add_outcome-Passes o totals) in
    let (_, _, h₃) = >>=-eq-err (settle_members d ms t) _ h₂ (settle_members-Passes d ms t) in cc

read_totals-Passes :
    (totals : Dict CalculatedSettlementMember) (ms : List SettlementMemberInput)
    → Passes (read_totals totals ms)
unfolding read_totals
read_totals-Passes totals [] = ground arith
read_totals-Passes totals (m ∷ ms) = ground (arith, read_totals-Passes totals ms)

checked_sum-Passes :
    (f : CalculatedSettlementMember → ℕ) {message : SettlementError} (n : ℕ)
    (ts : List CalculatedSettlementMember)
    → message ≢ not_conserved
    → Passes (checked_sum f message n ts)
unfolding checked_sum
checked_sum-Passes f n [] d = ground arith
checked_sum-Passes f {message} n (t ∷ ts) d =
    ground (arith, checked_sum-Passes f {message = message} (n + f t) ts d)

register_members-Passes :
    (a : ℕ) (ms : List SettlementMemberInput) (ids : List Text)
    (totals : Dict CalculatedSettlementMember)
    → Passes (register_members a ms ids totals)
unfolding register_members
register_members-Passes a [] ids totals h = cc
register_members-Passes a (m ∷ ms) ids totals h =
    let (_, _, h₁) =
      >>=-eq-err (throw_if (is_empty m.membership_id || has m.membership_id ids) members_not_unique)
        _ h (throw_if-ne-err _ (λ e. cc)) in
    let (deposit, _, h₂) =
      >>=-eq-err (require_positive_safe_integer m.deposit_luna invalid_deposit) _ h₁
        (require-Passes m.deposit_luna (λ e. cc)) in
    let (_, _, h₃) =
      >>=-eq-err (throw_if (not (deposit == a)) deposit_mismatch) _ h₂
        (throw_if-ne-err _ (λ e. cc)) in
    register_members-Passes a ms _ _ h₃

module _ (locale_le : Text → Text → Bool) where
  distribute-Passes :
      (slice : ℕ) (outcomes : Dict SettlementOutcomeState)
      → Passes (distribute locale_le slice outcomes)
  unfolding distribute
  distribute-Passes slice outcomes h =
      let (_, _, h₁) =
        >>=-eq-err
          (checked_multiply (length (ids_where is_forfeiting outcomes)) slice pool_too_large) _ h
          (multiply-Passes _ slice (λ e. cc)) in
      cc

  settle_occurrence-Passes :
      (slice : ℕ) (ms : List SettlementMemberInput) (ids : List Text)
      (o : SettlementOccurrenceInput) (totals : Dict CalculatedSettlementMember)
      → Passes (settle_occurrence locale_le slice ms ids o totals)
  unfolding settle_occurrence require_complete
  settle_occurrence-Passes slice ms ids o totals h =
      let (outcomes, _, h₁) =
        >>=-eq-err (collect_outcomes ids o.outcomes []) _ h
          (collect_outcomes-Passes ids o.outcomes []) in
      let (_, _, h₂) =
        >>=-eq-err (require_complete ids outcomes) _ h₁ (throw_if-ne-err _ (λ e. cc)) in
      let (p, _, h₃) =
        >>=-eq-err (distribute locale_le slice outcomes) _ h₂ (distribute-Passes slice outcomes) in
      let (_, _, h₄) =
        >>=-eq-err (settle_members p.1 ms totals) _ h₃ (settle_members-Passes p.1 ms totals) in
      cc

  settle_occurrences-Passes :
      (slice : ℕ) (ms : List SettlementMemberInput) (ids seen : List Text)
      (os : List SettlementOccurrenceInput) (totals : Dict CalculatedSettlementMember)
      → Passes (settle_occurrences locale_le slice ms ids seen os totals)
  unfolding settle_occurrences
  settle_occurrences-Passes slice ms ids seen [] totals h = cc
  settle_occurrences-Passes slice ms ids seen (o ∷ os) totals h =
      let (_, _, h₁) =
        >>=-eq-err
          (throw_if (is_empty o.occurrence_id || has o.occurrence_id seen) occurrences_not_unique) _
          h (throw_if-ne-err _ (λ e. cc)) in
      let (p, _, h₂) =
        >>=-eq-err (settle_occurrence locale_le slice ms ids o totals) _ h₁
          (settle_occurrence-Passes slice ms ids o totals) in
      let (_, _, h₃) =
        >>=-eq-err (settle_occurrences locale_le slice ms ids (o.occurrence_id ∷ seen) os p.1) _ h₂
          (settle_occurrences-Passes slice ms ids (o.occurrence_id ∷ seen) os p.1) in
      cc

  finish_settlement-Passes :
      (slice : ℕ) (ms : List SettlementMemberInput) (cs : List CalculatedSettlementOccurrence)
      (totals : Dict CalculatedSettlementMember)
      → sum_at deposit_of totals (member_ids ms) ≡ sum_at payout_of totals (member_ids ms)
      → Passes (finish_settlement locale_le slice ms cs totals)
  unfolding finish_settlement
  finish_settlement-Passes slice ms cs totals same h =
      let (ts, e₁, h₁) = >>=-eq-err (read_totals totals ms) _ h (read_totals-Passes totals ms) in
      let (deposit, e₂, h₂) =
        >>=-eq-err (checked_sum deposit_of deposit_total_too_large 0 ts) _ h₁
          (checked_sum-Passes deposit_of 0 ts (λ e. cc)) in
      let (payout, e₃, h₃) =
        >>=-eq-err (checked_sum payout_of payout_total_too_large 0 ts) _ h₂
          (checked_sum-Passes payout_of 0 ts (λ e. cc)) in
      ground (
        arith,
        h₃,
        same,
        checked_sum-eq deposit_of _ 0 ts e₂,
        checked_sum-eq payout_of _ 0 ts e₃,
        read_totals-sum deposit_of totals ms e₁,
        read_totals-sum payout_of totals ms e₁,
      )

  -- The last guard of a settlement never fires: no input makes it throw that the deposits are not
  -- conserved.
  pub calculate_settlement-ne-not_conserved :
      (input : SettlementInput) → calculate_settlement locale_le input ≢ err not_conserved
  unfolding calculate_settlement
  calculate_settlement-ne-not_conserved input h =
      let (slice, _, h₁) =
        >>=-eq-err (require_positive_safe_integer input.luna_per_occurrence invalid_slice) _ h
          (require-Passes input.luna_per_occurrence (λ e. cc)) in
      let (_, _, h₂) =
        >>=-eq-err (throw_if (is_empty input.members) no_members) _ h₁
          (throw_if-ne-err _ (λ e. cc)) in
      let (_, _, h₃) =
        >>=-eq-err (throw_if (is_empty input.occurrences) no_occurrences) _ h₂
          (throw_if-ne-err _ (λ e. cc)) in
      let (a, e₄, h₄) =
        >>=-eq-err (checked_multiply slice (length input.occurrences) allocation_too_large) _ h₃
          (multiply-Passes _ _ (λ e. cc)) in
      let (r, e₅, h₅) =
        >>=-eq-err (register_members a input.members [] []) _ h₄
          (register_members-Passes a input.members [] []) in
      let (q, e₆, h₆) =
        >>=-eq-err (settle_occurrences locale_le slice input.members r.0 [] input.occurrences r.1) _
          h₅ (settle_occurrences-Passes slice input.members r.0 [] input.occurrences r.1) in
      let (reg, paid, deposited) = register_members-IsRegister a input.members {r = r} e₅ in
      let ((pays, keeps), _, _) =
        settle_occurrences-pays locale_le slice input.members r.0 [] input.occurrences r.1
          {cs = q.0} {r = q.1} reg e₆ in
      let product : a * length input.members
          ≡ slice * length input.members * length input.occurrences =
        rw (checked_multiply-eq slice (length input.occurrences) _ e₄) (omega arith) in
      finish_settlement-Passes slice input.members q.0 q.1
        (omega (arith, pays, paid, keeps, deposited, product)) h₆
