-- ===== src/Settlement/Conservation.antt =====
-- packages/domain/src/settlement.ts: a settlement pays out the deposits, no more and no less.
use pods.Base.{
  inl, inr, >>=-eq-ok, throw_if-eq-ok, throw_if, ℕ, suc, ◌+◌, ◌*◌, ◌≡◌, refl, sym, ap, ◌∙◌, Bool,
  false, not, ◌||◌, some, List, [], ◌∷◌, arith, ok, ◌==◌, Text, Dict, same_text_iff, keys, has,
  lookup, insert, IsUnique, All, length, sum_of, sum_at, lookup-insert, Option-cases,
  same_text_refl, is_empty,
}
use pods.Settlement.Types.{
  SettlementMemberInput, SettlementOccurrenceInput, SettlementInput, SettlementOutcomeState,
  CalculatedSettlementOutcome, CalculatedSettlementOccurrence, CalculatedSettlementMember,
  CalculatedSettlement, SettlementError,
}
use pods.Settlement.{
  fresh_total, Distribution, is_forfeiting, ids_where, distribution, distribute, collect_outcomes,
  require_complete, settle_members, settle_occurrence, settle_occurrences, register_members,
  read_totals, checked_sum, checked_multiply, finish_settlement, calculate_settlement,
  require_positive_safe_integer,
}
use pods.Settlement.Steps.{
  member_ids, IsOutcomes, payout_of, deposit_of, collect_outcomes-IsOutcomes, settle_members-adds,
  distribution-total, has_of_All, All-has,
}

-- `ids` lists the members' ids, as a set and in number.
pub record IsRegister (ms : List SettlementMemberInput) (ids : List Text) : Type 0 where
  pub unique : IsUnique (member_ids ms)
  pub counted : length ids ≡ length ms
  pub known : (k : Text) → has k ids ≡ has k (member_ids ms)

All-has_cons :
    (x : Text) (ids xs : List Text)
    → All (λ k. has k (x ∷ ids) ≡ false) xs
    → (has x xs ≡ false) × All (λ k. has k ids ≡ false) xs
All-has_cons x ids [] h = (refl, tt)
All-has_cons x ids (y ∷ ys) h =
    ground (arith, same_text_iff x y, same_text_iff y x, All-has_cons x ids ys h.1)

module _ (a : ℕ) where
  -- One accepted member: a new id, with the allocation as its deposit.
  register_members-cons :
      (m : SettlementMemberInput) (ms : List SettlementMemberInput) (ids : List Text)
      (totals : Dict CalculatedSettlementMember) {r : List Text × Dict CalculatedSettlementMember}
      → register_members a (m ∷ ms) ids totals ≡ ok r
      → (has m.membership_id ids ≡ false)
        × (register_members a ms
              (m.membership_id ∷ ids)
              (insert m.membership_id (fresh_total m.membership_id a) totals)
            ≡ ok r)
  unfolding register_members
  register_members-cons m ms ids totals {r} h =
      let (_, e₁, h₁) =
        >>=-eq-ok (throw_if (is_empty m.membership_id || has m.membership_id ids) _) _ h in
      let (deposit, _, h₂) = >>=-eq-ok (require_positive_safe_integer m.deposit_luna _) _ h₁ in
      let (_, e₃, h₃) = >>=-eq-ok (throw_if (not (deposit == a)) _) _ h₂ in
      let same : deposit ≡ a = ground (arith, throw_if-eq-ok (not (deposit == a)) _ e₃) in
      (ground (arith, throw_if-eq-ok _ _ e₁), rw same at h₃)

  register_members-keeps :
      (ms : List SettlementMemberInput) (ids : List Text) (totals : Dict CalculatedSettlementMember)
      {r : List Text × Dict CalculatedSettlementMember} (k : Text)
      → has k (member_ids ms) ≡ false
      → register_members a ms ids totals ≡ ok r
      → lookup k r.1 ≡ lookup k totals
  register_members-keeps [] ids totals k n h = unfold register_members in ground arith
  register_members-keeps (m ∷ ms) ids totals {r} k n h =
      let (_, h') = register_members-cons m ms ids totals h in
      let totals₁ = insert m.membership_id (fresh_total m.membership_id a) totals in
      ground (
        arith,
        lookup-insert m.membership_id k (fresh_total m.membership_id a) totals,
        register_members-keeps ms (m.membership_id ∷ ids) totals₁ {r = r} k,
      )

  register_members-known :
      (ms : List SettlementMemberInput) (ids : List Text) (totals : Dict CalculatedSettlementMember)
      {r : List Text × Dict CalculatedSettlementMember}
      → register_members a ms ids totals ≡ ok r
      → IsUnique (member_ids ms)
        × All (λ k. has k ids ≡ false) (member_ids ms)
        × (length r.0 ≡ length ms + length ids)
        × ((k : Text) → has k r.0 ≡ (has k (member_ids ms) || has k ids))
        × All (λ k. lookup k r.1 ≡ some (fresh_total k a)) (member_ids ms)
  register_members-known [] ids totals {r} h =
      unfold register_members in (tt, tt, ground arith, λ k. ground arith, tt)
  register_members-known (m ∷ ms) ids totals {r} h =
      let (new, h') = register_members-cons m ms ids totals h in
      let totals₁ = insert m.membership_id (fresh_total m.membership_id a) totals in
      let (u, out, n, known, fresh) =
        register_members-known ms (m.membership_id ∷ ids) totals₁ {r = r} h' in
      let (alone, outside) = All-has_cons m.membership_id ids (member_ids ms) out in
      (
        (alone, u),
        (new, outside),
        omega (arith, n),
        λ k. ground (arith, known k),
        (
          register_members-keeps ms (m.membership_id ∷ ids) totals₁ {r = r} m.membership_id alone h'
              ∙ (lookup-insert m.membership_id m.membership_id (fresh_total m.membership_id a)
                    totals
                  ∙ rw (same_text_refl m.membership_id)),
          fresh,
        ),
      )

sum_at-fresh :
    (f : CalculatedSettlementMember → ℕ) (a c : ℕ) (totals : Dict CalculatedSettlementMember)
    (ids : List Text)
    → ((k : Text) → f (fresh_total k a) ≡ c)
    → All (λ k. lookup k totals ≡ some (fresh_total k a)) ids
    → sum_at f totals ids ≡ c * length ids
sum_at-fresh f a c totals [] e h = omega arith
sum_at-fresh f a c totals (id ∷ ids) e h =
    rw h.0 (omega (arith, e id, sum_at-fresh f a c totals ids e h.1))

length-member_ids : (ms : List SettlementMemberInput) → length (member_ids ms) ≡ length ms
length-member_ids [] = refl
length-member_ids (m ∷ ms) = ap suc (length-member_ids ms)

-- The first loop lists the members and gives each its deposit.
pub register_members-IsRegister :
    (a : ℕ) (ms : List SettlementMemberInput) {r : List Text × Dict CalculatedSettlementMember}
    → register_members a ms [] [] ≡ ok r
    → IsRegister ms r.0
      × (sum_at payout_of r.1 (member_ids ms) ≡ 0)
      × (sum_at deposit_of r.1 (member_ids ms) ≡ a * length ms)
register_members-IsRegister a ms {r} h =
    let (u, _, n, known, fresh) = register_members-known a ms [] [] {r = r} h in
    (
      record { unique = u; counted = omega (arith, n); known = λ k. ground (arith, known k) },
      omega (arith, sum_at-fresh payout_of a 0 r.1 (member_ids ms) (λ k. refl) fresh),
      sum_at-fresh deposit_of a a r.1 (member_ids ms) (λ k. refl) fresh
          ∙ ap (λ (n : ℕ). a * n) (length-member_ids ms),
    )

abbrev pub PaysSlices :
    ℕ
    → List SettlementMemberInput
    → Dict CalculatedSettlementMember
    → ℕ
    → Dict CalculatedSettlementMember
    → Type 0
PaysSlices slice ms before rounds after =
    (sum_at payout_of after (member_ids ms)
      ≡ sum_at payout_of before (member_ids ms) + slice * length ms * rounds)
    × (sum_at deposit_of after (member_ids ms) ≡ sum_at deposit_of before (member_ids ms))

module _ (locale_le : Text → Text → Bool) (slice : ℕ) (ms : List SettlementMemberInput)
    (ids : List Text) where
  abbrev pool_of : Dict SettlementOutcomeState → ℕ
  pool_of outcomes = length (ids_where is_forfeiting outcomes) * slice

  distribute-eq-ok :
      (outcomes : Dict SettlementOutcomeState) {p : ℕ × Distribution}
      → distribute locale_le slice outcomes ≡ ok p
      → p ≡ (pool_of outcomes, distribution locale_le slice outcomes (pool_of outcomes))
  unfolding distribute
  distribute-eq-ok outcomes h = ground arith

  -- What the steps of a round that returns have returned.
  pub settle_occurrence-eq-ok :
      (occurrence : SettlementOccurrenceInput) (totals : Dict CalculatedSettlementMember)
      {c : CalculatedSettlementOccurrence} {r : Dict CalculatedSettlementMember}
      → settle_occurrence locale_le slice ms ids occurrence totals ≡ ok (c, r)
      → (outcomes : Dict SettlementOutcomeState) × (collect_outcomes ids occurrence.outcomes []
          ≡ ok outcomes)
        × (length outcomes ≡ length ids)
        × (settle_members (distribution locale_le slice outcomes (pool_of outcomes)) ms totals
            ≡ ok (c.outcomes, r))
  unfolding settle_occurrence
  settle_occurrence-eq-ok occurrence totals {c} {r} h =
      let (outcomes, e₁, h₁) = >>=-eq-ok (collect_outcomes ids occurrence.outcomes []) _ h in
      let (_, e₂, h₂) = >>=-eq-ok (require_complete ids outcomes) _ h₁ in
      let (p, e₃, h₃) = >>=-eq-ok (distribute locale_le slice outcomes) _ h₂ in
      let (q, e₄, h₄) = >>=-eq-ok (settle_members p.1 ms totals) _ h₃ in
      (
        outcomes,
        e₁,
        unfold require_complete in ground (arith, throw_if-eq-ok _ _ e₂),
        ap (λ d. settle_members d ms totals) (sym (ap (λ p. p.1) (distribute-eq-ok outcomes e₃)))
            ∙ (e₄ ∙ ap ok (ground arith)),
      )

  round_pays :
      (outcomes : Dict SettlementOutcomeState) (totals : Dict CalculatedSettlementMember)
      {os : List CalculatedSettlementOutcome} {r : Dict CalculatedSettlementMember}
      → IsRegister ms ids
      → IsOutcomes ids outcomes
      → length outcomes ≡ length ids
      → settle_members (distribution locale_le slice outcomes (pool_of outcomes)) ms totals
        ≡ ok (os, r)
      → PaysSlices slice ms totals 1 r × (sum_of (λ o. o.payout_luna) os ≡ slice * length ms)
  round_pays outcomes totals reg v n h =
      let a = All-has (member_ids ms) (member_ids ms) (λ k e. e) in
      let a' =
        All-has (keys outcomes) (member_ids ms)
          (λ k e. sym (reg.known k) ∙ has_of_All (keys outcomes) ids k v.1 e) in
      let total =
        distribution-total locale_le slice outcomes (member_ids ms) reg.unique (v.0, a') in
      let n' : slice * length outcomes ≡ slice * length ms = rw (n, reg.counted) in
      let (paid, kept, shared) =
        settle_members-adds (distribution locale_le slice outcomes (pool_of outcomes)) ms totals
          (member_ids ms) reg.unique a h in
      ((omega (arith, paid, total, n'), kept), shared ∙ (total ∙ n'))

  -- A round pays every member's slice to somebody.
  pub settle_occurrence-pays :
      (occurrence : SettlementOccurrenceInput) (totals : Dict CalculatedSettlementMember)
      {c : CalculatedSettlementOccurrence} {r : Dict CalculatedSettlementMember}
      → IsRegister ms ids
      → settle_occurrence locale_le slice ms ids occurrence totals ≡ ok (c, r)
      → PaysSlices slice ms totals 1 r
        × (sum_of (λ o. o.payout_luna) c.outcomes ≡ slice * length ms)
  settle_occurrence-pays occurrence totals reg h =
      let (outcomes, e, n, settled) = settle_occurrence-eq-ok occurrence totals h in
      let v = collect_outcomes-IsOutcomes ids occurrence.outcomes [] (tt, tt) e in
      round_pays outcomes totals reg v n settled

  pub settle_occurrences-pays :
      (seen : List Text) (occurrences : List SettlementOccurrenceInput)
      (totals : Dict CalculatedSettlementMember) {cs : List CalculatedSettlementOccurrence}
      {r : Dict CalculatedSettlementMember}
      → IsRegister ms ids
      → settle_occurrences locale_le slice ms ids seen occurrences totals ≡ ok (cs, r)
      → PaysSlices slice ms totals (length occurrences) r
        × All (λ c. sum_of (λ o. o.payout_luna) c.outcomes ≡ slice * length ms) cs
        × (length cs ≡ length occurrences)
  unfolding settle_occurrences
  settle_occurrences-pays seen [] totals {cs} {r} reg h = ground arith
  settle_occurrences-pays seen (o ∷ os) totals {cs} {r} reg h =
      let (_, _, h₁) =
        >>=-eq-ok (throw_if (is_empty o.occurrence_id || has o.occurrence_id seen) _) _ h in
      let (p, e₂, h₂) = >>=-eq-ok (settle_occurrence locale_le slice ms ids o totals) _ h₁ in
      let (q, e₃, h₃) =
        >>=-eq-ok (settle_occurrences locale_le slice ms ids (o.occurrence_id ∷ seen) os p.1) _
          h₂ in
      let first = settle_occurrence-pays o totals {c = p.0} {r = p.1} reg e₂ in
      let rest =
        settle_occurrences-pays (o.occurrence_id ∷ seen) os p.1 {cs = q.0} {r = q.1} reg e₃ in
      ground (arith, first, rest)

pub read_totals-sum :
    (f : CalculatedSettlementMember → ℕ) (totals : Dict CalculatedSettlementMember)
    (ms : List SettlementMemberInput) {ts : List CalculatedSettlementMember}
    → read_totals totals ms ≡ ok ts
    → sum_of f ts ≡ sum_at f totals (member_ids ms)
unfolding read_totals
read_totals-sum f totals [] h = ground arith
read_totals-sum f totals (m ∷ ms) {ts} h = elim (Option-cases (lookup m.membership_id totals)) [
  | inl e ↦ ground arith
  | inr (t, e) ↦
      let (rest, e', h') = >>=-eq-ok (read_totals totals ms) _ (rw e at h) in
      ground (arith, read_totals-sum f totals ms {ts = rest} e')
]

pub checked_sum-eq :
    (f : CalculatedSettlementMember → ℕ) (message : SettlementError) (n : ℕ)
    (ts : List CalculatedSettlementMember) {total : ℕ}
    → checked_sum f message n ts ≡ ok total
    → total ≡ n + sum_of f ts
unfolding checked_sum
checked_sum-eq f message n [] h = ground arith
checked_sum-eq f message n (t ∷ ts) {total} h =
    ground (arith, checked_sum-eq f message (n + f t) ts {total = total})

pub checked_multiply-eq :
    (a b : ℕ) (message : SettlementError) {n : ℕ} → checked_multiply a b message ≡ ok n → n ≡ a * b
unfolding checked_multiply
checked_multiply-eq a b message h = ground arith

module _ (locale_le : Text → Text → Bool) where
  finish_settlement-eq-ok :
      (slice : ℕ) (ms : List SettlementMemberInput) (cs : List CalculatedSettlementOccurrence)
      (totals : Dict CalculatedSettlementMember) {s : CalculatedSettlement}
      → finish_settlement locale_le slice ms cs totals ≡ ok s
      → (s.luna_per_occurrence ≡ slice)
        × (s.occurrences ≡ cs)
        × (s.total_deposit_luna ≡ sum_at deposit_of totals (member_ids ms))
        × (s.total_payout_luna ≡ sum_at payout_of totals (member_ids ms))
        × (sum_of payout_of s.members ≡ s.total_payout_luna)
  unfolding finish_settlement
  finish_settlement-eq-ok slice ms cs totals {s} h =
      let (ts, e₁, h₁) = >>=-eq-ok (read_totals totals ms) _ h in
      let (deposit, e₂, h₂) = >>=-eq-ok (checked_sum deposit_of _ 0 ts) _ h₁ in
      let (payout, e₃, h₃) = >>=-eq-ok (checked_sum payout_of _ 0 ts) _ h₂ in
      let (_, _, h₄) = >>=-eq-ok (throw_if (not (deposit == payout)) _) _ h₃ in
      ground (
        arith,
        h₄,
        checked_sum-eq deposit_of _ 0 ts e₂,
        checked_sum-eq payout_of _ 0 ts e₃,
        read_totals-sum deposit_of totals ms e₁,
        read_totals-sum payout_of totals ms e₁,
      )

  calculate_settlement-eq-ok :
      (input : SettlementInput) {s : CalculatedSettlement}
      → calculate_settlement locale_le input ≡ ok s
      → (slice : ℕ) × (r : List Text × Dict CalculatedSettlementMember) × (q : List
            CalculatedSettlementOccurrence
          × Dict CalculatedSettlementMember)
        × (register_members (slice * length input.occurrences) input.members [] [] ≡ ok r)
        × (settle_occurrences locale_le slice input.members r.0 [] input.occurrences r.1 ≡ ok q)
        × (finish_settlement locale_le slice input.members q.0 q.1 ≡ ok s)
  unfolding calculate_settlement
  calculate_settlement-eq-ok input {s} h =
      let (slice, _, h₁) =
        >>=-eq-ok (require_positive_safe_integer input.luna_per_occurrence _) _ h in
      let (_, _, h₂) = >>=-eq-ok (throw_if (is_empty input.members) _) _ h₁ in
      let (_, _, h₃) = >>=-eq-ok (throw_if (is_empty input.occurrences) _) _ h₂ in
      let (a, e₄, h₄) = >>=-eq-ok (checked_multiply slice (length input.occurrences) _) _ h₃ in
      let (r, e₅, h₅) = >>=-eq-ok (register_members a input.members [] []) _ h₄ in
      let (q, e₆, h₆) =
        >>=-eq-ok (settle_occurrences locale_le slice input.members r.0 [] input.occurrences r.1) _
          h₅ in
      (slice, r, q, rw (checked_multiply-eq slice (length input.occurrences) _ e₄) at e₅, e₆, h₆)

  -- A settlement that returns pays out exactly the deposits: the payouts of the members, the
  -- total payout and the total deposit are each one slice for every member and occurrence, and
  -- each occurrence pays one slice for every member.
  pub calculate_settlement-pays :
      (input : SettlementInput) {s : CalculatedSettlement}
      → calculate_settlement locale_le input ≡ ok s
      → let stake = s.luna_per_occurrence * length input.members in
        (s.total_payout_luna ≡ stake * length input.occurrences)
        × (s.total_deposit_luna ≡ stake * length input.occurrences)
        × (sum_of payout_of s.members ≡ s.total_payout_luna)
        × (length s.occurrences ≡ length input.occurrences)
        × All (λ c. sum_of (λ o. o.payout_luna) c.outcomes ≡ stake) s.occurrences
  calculate_settlement-pays input {s} h =
      let (slice, r, q, e₁, e₂, e₃) = calculate_settlement-eq-ok input h in
      let (reg, paid, deposited) =
        register_members-IsRegister (slice * length input.occurrences) input.members {r = r} e₁ in
      let ((pays, keeps), rounds, n) =
        settle_occurrences-pays locale_le slice input.members r.0 [] input.occurrences r.1
          {cs = q.0} {r = q.1} reg e₂ in
      let (same_slice, same_rounds, deposit, payout, total) =
        finish_settlement-eq-ok slice input.members q.0 q.1 {s = s} e₃ in
      rw (same_slice, same_rounds)
        (
          omega (arith, payout, pays, paid),
          omega (arith, deposit, keeps, deposited),
          total,
          n,
          rounds,
        )
