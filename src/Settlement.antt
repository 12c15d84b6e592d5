-- ===== src/Settlement.antt =====
-- packages/domain/src/settlement.ts: what a finished Pod owes each of its members.
pub mod Types
mod Tests
pub mod Bonus
pub mod Steps
pub mod Conservation
pub mod Guard
use Types.{
  SettlementMemberInput, SettlementOutcomeInput, SettlementOccurrenceInput, SettlementInput,
  SettlementOutcomeState, approved, timeout_protected, rejected, missed, SettlementOccurrenceState,
  closed, closed_no_bonus_recipient, CalculatedSettlementOutcome, CalculatedSettlementOccurrence,
  CalculatedSettlementMember, CalculatedSettlement, SettlementError, invalid_slice, no_members,
  no_occurrences, allocation_too_large, members_not_unique, invalid_deposit, deposit_mismatch,
  occurrences_not_unique, outcomes_incomplete, pool_too_large, payout_too_large, total_missing,
  principal_too_large, forfeiture_too_large, restoration_too_large, bonus_too_large,
  member_payout_too_large, deposit_total_too_large, payout_total_too_large, not_conserved,
  terminal_state,
}
use pods.Base.{
  ℕ, zero, suc, ◌+◌, ◌*◌, ◌/◌, ◌%◌, Bool, true, false, not, ◌||◌, Option, none, some, List, [], ◌∷◌,
  map, Result, ok, err, ◌>>=◌, ◌>>◌, throw_if, Text, Dict, has, keys, lookup, contains, insert,
  Number, max_safe_integer, is_safe, positive_safe_integer, ltb, ◌==◌, if◌then◌else◌, length,
  is_empty, keep, some_of,
}

-- The positive safe integer that passed the test.
pub require_positive_safe_integer : Number → SettlementError → Result SettlementError ℕ
require_positive_safe_integer value message = elim (positive_safe_integer value) [
  | none ↦ err message
  | some n ↦ ok n
]

pub checked_add : ℕ → ℕ → SettlementError → Result SettlementError ℕ
checked_add left right message =
    let total = left + right in if is_safe total then ok total else err message

pub checked_multiply : ℕ → ℕ → SettlementError → Result SettlementError ℕ
checked_multiply left right message =
    let total = left * right in if is_safe total then ok total else err message

-- The totals of a member before the first occurrence.
abbrev pub fresh_total : Text → ℕ → CalculatedSettlementMember
fresh_total id deposit = record {
  membership_id = id;
  deposit_luna = deposit;
  principal_luna = 0;
  provisional_forfeiture_luna = 0;
  restoration_luna = 0;
  bonus_luna = 0;
  payout_luna = 0;
}

-- The first loop: `memberIds` and `memberTotals`.
pub register_members :
    ℕ
    → List SettlementMemberInput
    → List Text
    → Dict CalculatedSettlementMember
    → Result SettlementError (List Text × Dict CalculatedSettlementMember)
unfolding require_positive_safe_integer
register_members allocation [] ids totals = ok (ids, totals)
register_members allocation (member ∷ members) ids totals = do
  throw_if (is_empty member.membership_id || has member.membership_id ids) members_not_unique
  deposit ← require_positive_safe_integer member.deposit_luna invalid_deposit
  throw_if (not (deposit == allocation)) deposit_mismatch
  register_members allocation members (member.membership_id ∷ ids)
      (insert member.membership_id (fresh_total member.membership_id deposit) totals)

-- `outcomeByMember`, from the outcomes of one occurrence.
pub collect_outcomes :
    List Text
    → List SettlementOutcomeInput
    → Dict SettlementOutcomeState
    → Result SettlementError (Dict SettlementOutcomeState)
collect_outcomes ids [] outcomes = ok outcomes
collect_outcomes ids (outcome ∷ rest) outcomes = do
  throw_if (not (has outcome.membership_id ids) || contains outcome.membership_id outcomes)
      outcomes_incomplete
  state ← elim (terminal_state outcome.state) [ none ↦ err outcomes_incomplete | some s ↦ ok s ]
  collect_outcomes ids rest (insert outcome.membership_id state outcomes)

pub require_complete : List Text → Dict SettlementOutcomeState → Result SettlementError (Unit {0})
require_complete ids outcomes =
    throw_if (not (length outcomes == length ids) || some_of (λ id. not (contains id outcomes)) ids)
      outcomes_incomplete

abbrev pub is_approved : SettlementOutcomeState → Bool
is_approved approved = true
is_approved _ = false

abbrev pub is_forfeiting : SettlementOutcomeState → Bool
is_forfeiting rejected = true
is_forfeiting missed = true
is_forfeiting _ = false

abbrev pub keeps_principal : SettlementOutcomeState → Bool
keeps_principal approved = true
keeps_principal timeout_protected = true
keeps_principal _ = false

-- The keys of the entries whose state passes the test.
abbrev pub ids_where : (SettlementOutcomeState → Bool) → Dict SettlementOutcomeState → List Text
ids_where p outcomes = keys (keep (λ e. p e.1) outcomes)

-- What one occurrence fixes before its members are paid.
pub record Distribution : Type 0 where
  pub slice : ℕ
  pub outcomes : Dict SettlementOutcomeState
  pub approved_count : ℕ
  pub bonus_by_member : Dict ℕ

-- `approvedIds.map((id, index) => [id, baseBonus + (index < remainder ? 1 : 0)])` as a `Map`.
pub assign_bonus : ℕ → ℕ → ℕ → List Text → Dict ℕ
assign_bonus base remainder index [] = []
assign_bonus base remainder index (id ∷ ids) =
    (id, base + (if ltb index remainder then 1 else 0))
    ∷ assign_bonus base remainder (suc index) ids

abbrev pub or_zero : Option ℕ → ℕ
or_zero none = 0
or_zero (some n) = n

-- The outcome of one member.
pub settle_member :
    Distribution → SettlementMemberInput → Result SettlementError CalculatedSettlementOutcome
unfolding checked_add
settle_member d member = do
  state ← elim (lookup member.membership_id d.outcomes) [
    | none ↦ err outcomes_incomplete
    | some s ↦ ok s
  ]
  let principal = if keeps_principal state then d.slice else 0
  let forfeiture = if is_forfeiting state then d.slice else 0
  let restoration = if d.approved_count == 0 then forfeiture else 0
  let bonus = or_zero (lookup member.membership_id d.bonus_by_member)
  restored ← checked_add principal restoration payout_too_large
  payout ← checked_add restored bonus payout_too_large
  ok (record {
    membership_id = member.membership_id;
    state = state;
    principal_luna = principal;
    provisional_forfeiture_luna = forfeiture;
    restoration_luna = restoration;
    bonus_luna = bonus;
    payout_luna = payout;
  })

-- The member's totals with one more outcome.
pub add_outcome :
    CalculatedSettlementOutcome
    → Dict CalculatedSettlementMember
    → Result SettlementError (Dict CalculatedSettlementMember)
unfolding checked_add
add_outcome outcome totals = do
  total ← elim (lookup outcome.membership_id totals) [ none ↦ err total_missing | some t ↦ ok t ]
  principal ← checked_add total.principal_luna outcome.principal_luna principal_too_large
  forfeiture ←
      checked_add total.provisional_forfeiture_luna outcome.provisional_forfeiture_luna
        forfeiture_too_large
  restoration ← checked_add total.restoration_luna outcome.restoration_luna restoration_too_large
  bonus ← checked_add total.bonus_luna outcome.bonus_luna bonus_too_large
  payout ← checked_add total.payout_luna outcome.payout_luna member_payout_too_large
  ok (
      insert outcome.membership_id
        (record total {
          principal_luna = principal;
          provisional_forfeiture_luna = forfeiture;
          restoration_luna = restoration;
          bonus_luna = bonus;
          payout_luna = payout;
        })
        totals)

-- The loop over the members of one occurrence.
pub settle_members :
    Distribution
    → List SettlementMemberInput
    → Dict CalculatedSettlementMember
    → Result SettlementError (List CalculatedSettlementOutcome × Dict CalculatedSettlementMember)
settle_members d [] totals = ok ([], totals)
settle_members d (member ∷ members) totals = do
  outcome ← settle_member d member
  totals' ← add_outcome outcome totals
  (outcomes, totals'') ← settle_members d members totals'
  ok (outcome ∷ outcomes, totals'')

-- The entries of `memberTotals`, in the order of the members.
pub read_totals :
    Dict CalculatedSettlementMember
    → List SettlementMemberInput
    → Result SettlementError (List CalculatedSettlementMember)
read_totals totals [] = ok []
read_totals totals (member ∷ members) = do
  total ← elim (lookup member.membership_id totals) [ none ↦ err total_missing | some t ↦ ok t ]
  rest ← read_totals totals members
  ok (total ∷ rest)

-- `members.reduce((total, member) => checkedAdd(total, amount(member), message), total)`.
pub checked_sum :
    (CalculatedSettlementMember → ℕ)
    → SettlementError
    → ℕ
    → List CalculatedSettlementMember
    → Result SettlementError ℕ
unfolding checked_add
checked_sum amount message total [] = ok total
checked_sum amount message total (member ∷ members) = do
  next ← checked_add total (amount member) message
  checked_sum amount message next members

-- `locale_le a b` is `a.localeCompare(b) <= 0`, which the run time decides.
module _ (locale_le : Text → Text → Bool) where
  pub insert_sorted : Text → List Text → List Text
  insert_sorted x [] = x ∷ []
  insert_sorted x (y ∷ ys) = if locale_le x y then x ∷ y ∷ ys else y ∷ insert_sorted x ys

  -- `ids.sort((left, right) => left.localeCompare(right))`, which is stable.
  pub sort_ids : List Text → List Text
  unfolding insert_sorted
  sort_ids [] = []
  sort_ids (x ∷ xs) = insert_sorted x (sort_ids xs)

  -- The bonus of each approved member, from the pool of the forfeited slices.
  pub distribution : ℕ → Dict SettlementOutcomeState → ℕ → Distribution
  unfolding assign_bonus sort_ids
  distribution slice outcomes pool =
      let approved_ids = sort_ids (ids_where is_approved outcomes) in
      let count = length approved_ids in
      let base = if ltb 0 count then pool / count else 0 in
      let remainder = if ltb 0 count then pool % count else 0 in
      record {
        slice = slice;
        outcomes = outcomes;
        approved_count = count;
        bonus_by_member = assign_bonus base remainder 0 approved_ids;
      }

  pub distribute : ℕ → Dict SettlementOutcomeState → Result SettlementError (ℕ × Distribution)
  unfolding checked_multiply distribution
  distribute slice outcomes = do
    pool ← checked_multiply (length (ids_where is_forfeiting outcomes)) slice pool_too_large
    ok (pool, distribution slice outcomes pool)

  -- One round of the loop over the occurrences.
  pub settle_occurrence :
      ℕ
      → List SettlementMemberInput
      → List Text
      → SettlementOccurrenceInput
      → Dict CalculatedSettlementMember
      → Result SettlementError (CalculatedSettlementOccurrence × Dict CalculatedSettlementMember)
  unfolding collect_outcomes require_complete distribute settle_members
  settle_occurrence slice members ids occurrence totals = do
    outcomes ← collect_outcomes ids occurrence.outcomes []
    require_complete ids outcomes
    (pool, d) ← distribute slice outcomes
    (settled, totals') ← settle_members d members totals
    ok (
      record {
        occurrence_id = occurrence.occurrence_id;
        state = if d.approved_count == 0 then closed_no_bonus_recipient else closed;
        forfeiture_pool_luna = pool;
        bonus_recipient_count = d.approved_count;
        outcomes = settled;
      },
      totals',
    )

  pub settle_occurrences :
      ℕ
      → List SettlementMemberInput
      → List Text
      → List Text
      → List SettlementOccurrenceInput
      → Dict CalculatedSettlementMember
      → Result SettlementError
          (List CalculatedSettlementOccurrence × Dict CalculatedSettlementMember)
  settle_occurrences slice members ids seen [] totals = ok ([], totals)
  settle_occurrences slice members ids seen (occurrence ∷ rest) totals = do
    throw_if (is_empty occurrence.occurrence_id || has occurrence.occurrence_id seen)
        occurrences_not_unique
    (calculated, totals') ← settle_occurrence slice members ids occurrence totals
    (others, totals'') ←
        settle_occurrences slice members ids (occurrence.occurrence_id ∷ seen) rest totals'
    ok (calculated ∷ others, totals'')

  -- The totals, and the test that they conserve the deposits.
  pub finish_settlement :
      ℕ
      → List SettlementMemberInput
      → List CalculatedSettlementOccurrence
      → Dict CalculatedSettlementMember
      → Result SettlementError CalculatedSettlement
  unfolding read_totals checked_sum
  finish_settlement slice inputs occurrences totals = do
    members ← read_totals totals inputs
    total_deposit ← checked_sum (λ m. m.deposit_luna) deposit_total_too_large 0 members
    total_payout ← checked_sum (λ m. m.payout_luna) payout_total_too_large 0 members
    throw_if (not (total_deposit == total_payout)) not_conserved
    ok (record {
      luna_per_occurrence = slice;
      total_deposit_luna = total_deposit;
      total_payout_luna = total_payout;
      occurrences = occurrences;
      members = members;
    })

  pub calculate_settlement : SettlementInput → Result SettlementError CalculatedSettlement
  unfolding require_positive_safe_integer checked_multiply register_members settle_occurrences
      finish_settlement
  calculate_settlement input = do
    slice ← require_positive_safe_integer input.luna_per_occurrence invalid_slice
    throw_if (is_empty input.members) no_members
    throw_if (is_empty input.occurrences) no_occurrences
    allocation ← checked_multiply slice (length input.occurrences) allocation_too_large
    (ids, totals) ← register_members allocation input.members [] []
    (occurrences, totals') ← settle_occurrences slice input.members ids [] input.occurrences totals
    finish_settlement slice input.members occurrences totals'
