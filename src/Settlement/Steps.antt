-- ===== src/Settlement/Steps.antt =====
-- packages/domain/src/settlement.ts: what each step of the calculation has done when it returns.
use pods.Base.{
  inl, inr, >>=-eq-ok, ℕ, ◌+◌, ◌*◌, ◌≡◌, refl, Bool, true, false, ◌||◌, some, List, [], ◌∷◌, arith,
  ok, ◌==◌, if◌then◌else◌, Text, Dict, same_text, same_text_iff, keys, has, lookup, insert,
  IsUnique, All, length, sum_of, value, sum_at, sum_at-eq-sum_of, sum_at-insert, Option-cases,
  Bool-cases, same_text_refl, sum_of_add, count,
}
use pods.Settlement.Types.{
  SettlementMemberInput, SettlementOutcomeInput, SettlementOutcomeState,
  CalculatedSettlementOutcome, CalculatedSettlementMember, approved, timeout_protected, rejected,
  missed, terminal_state,
}
use pods.Settlement.{
  Distribution, is_approved, is_forfeiting, keeps_principal, ids_where, sort_ids, distribution,
  collect_outcomes, settle_member, add_outcome, settle_members,
}
use pods.Settlement.Bonus.{
  assign_bonus-total_or_zero, keys-assign_bonus, has-sort_ids, sort_ids-IsUnique,
}

abbrev pub member_ids : List SettlementMemberInput → List Text
member_ids [] = []
member_ids (m ∷ ms) = m.membership_id ∷ member_ids ms

-- The outcomes of known members, each at most once.
abbrev pub IsOutcomes : List Text → Dict SettlementOutcomeState → Type 0
IsOutcomes ids d = IsUnique (keys d) × All (λ k. has k ids ≡ true) (keys d)

has-keys-insert {ℓ} :
    {V : Type ℓ} (k j : Text) (v : V) (d : Dict V)
    → has j (keys (insert k v d)) ≡ (same_text k j || has j (keys d))
has-keys-insert k j v [] = refl
has-keys-insert k j v (e ∷ d) =
    ground
      (arith, same_text_iff e.0 k, same_text_iff k j, same_text_iff e.0 j, has-keys-insert k j v d)

insert-IsOutcomes :
    (ids : List Text) (k : Text) (s : SettlementOutcomeState) (d : Dict SettlementOutcomeState)
    → has k ids ≡ true
    → IsOutcomes ids d
    → IsOutcomes ids (insert k s d)
insert-IsOutcomes ids k s [] h v = ground arith
insert-IsOutcomes ids k s (e ∷ d) h v = ground (
  arith,
  has-keys-insert k e.0 s d,
  same_text_iff k e.0,
  same_text_iff e.0 k,
  insert-IsOutcomes ids k s d h (v.0.1, v.1.1),
)

pub collect_outcomes-IsOutcomes :
    (ids : List Text) (os : List SettlementOutcomeInput) (d : Dict SettlementOutcomeState)
    {r : Dict SettlementOutcomeState}
    → IsOutcomes ids d
    → collect_outcomes ids os d ≡ ok r
    → IsOutcomes ids r
unfolding collect_outcomes
collect_outcomes-IsOutcomes ids [] d v h = ground arith
collect_outcomes-IsOutcomes ids (o ∷ os) d {r} v h = elim (Option-cases (terminal_state o.state)) [
  | inl e ↦ ground arith
  | inr (s, e) ↦ ground (
    arith,
    insert-IsOutcomes ids o.membership_id s d,
    collect_outcomes-IsOutcomes ids os (insert o.membership_id s d) {r = r},
  )
]

-- What an outcome pays before the bonus.
abbrev pub base_pay : ℕ → ℕ → SettlementOutcomeState → ℕ
base_pay slice approved_count state =
    (if keeps_principal state then slice else 0)
    + (if approved_count == 0 then (if is_forfeiting state then slice else 0) else 0)

abbrev pub share : Distribution → Text → ℕ
share d id =
    value (base_pay d.slice d.approved_count) (lookup id d.outcomes)
    + value (λ n. n) (lookup id d.bonus_by_member)

length-ids_where :
    (p : SettlementOutcomeState → Bool) (d : Dict SettlementOutcomeState)
    → length (ids_where p d) ≡ count (λ e. p e.1) d
length-ids_where p [] = refl
length-ids_where p (e ∷ d) = ground (arith, length-ids_where p d)

has-ids_where :
    (p : SettlementOutcomeState → Bool) (k : Text) (d : Dict SettlementOutcomeState)
    → has k (keys d) ≡ false
    → has k (ids_where p d) ≡ false
has-ids_where p k [] h = refl
has-ids_where p k (e ∷ d) h = ground (arith, has-ids_where p k d)

ids_where-IsUnique :
    (p : SettlementOutcomeState → Bool) (d : Dict SettlementOutcomeState)
    → IsUnique (keys d)
    → IsUnique (ids_where p d)
ids_where-IsUnique p [] u = tt
ids_where-IsUnique p (e ∷ d) u = ground (arith, has-ids_where p e.0 d, ids_where-IsUnique p d u.1)

sum_of-base_pay :
    (slice c : ℕ) (d : Dict SettlementOutcomeState)
    → sum_of (λ e. base_pay slice c e.1) d
      ≡ slice * count (λ e. keeps_principal e.1) d
        + (if c == 0 then slice * count (λ e. is_forfeiting e.1) d else 0)
sum_of-base_pay slice c [] = ground arith
sum_of-base_pay slice c ((k, approved) ∷ d) = ground (arith, sum_of-base_pay slice c d)
sum_of-base_pay slice c ((k, timeout_protected) ∷ d) = ground (arith, sum_of-base_pay slice c d)
sum_of-base_pay slice c ((k, rejected) ∷ d) = ground (arith, sum_of-base_pay slice c d)
sum_of-base_pay slice c ((k, missed) ∷ d) = ground (arith, sum_of-base_pay slice c d)

length-eq-count :
    (d : Dict SettlementOutcomeState)
    → length d ≡ count (λ e. keeps_principal e.1) d + count (λ e. is_forfeiting e.1) d
length-eq-count [] = refl
length-eq-count ((k, approved) ∷ d) = omega (arith, length-eq-count d)
length-eq-count ((k, timeout_protected) ∷ d) = omega (arith, length-eq-count d)
length-eq-count ((k, rejected) ∷ d) = omega (arith, length-eq-count d)
length-eq-count ((k, missed) ∷ d) = omega (arith, length-eq-count d)

pub settle_member-share :
    (d : Distribution) (m : SettlementMemberInput) {o : CalculatedSettlementOutcome}
    → settle_member d m ≡ ok o
    → (o.membership_id ≡ m.membership_id)
      × (o.payout_luna ≡ share d m.membership_id)
      × (o.payout_luna ≡ o.principal_luna + o.restoration_luna + o.bonus_luna)
unfolding settle_member
settle_member-share d m h = ground arith

pub add_outcome-adds :
    (o : CalculatedSettlementOutcome) (totals : Dict CalculatedSettlementMember)
    {r : Dict CalculatedSettlementMember}
    → add_outcome o totals ≡ ok r
    → (old : CalculatedSettlementMember) × (new : CalculatedSettlementMember) × (lookup
          o.membership_id totals
        ≡ some old)
      × (r ≡ insert o.membership_id new totals)
      × (new.payout_luna ≡ old.payout_luna + o.payout_luna)
      × (new.deposit_luna ≡ old.deposit_luna)
unfolding add_outcome
add_outcome-adds o totals {r} h = elim (Option-cases (lookup o.membership_id totals)) [
  | inl e ↦ ground arith
  | inr (t, e) ↦ (
    t,
    record t {
      principal_luna = t.principal_luna + o.principal_luna;
      provisional_forfeiture_luna = t.provisional_forfeiture_luna + o.provisional_forfeiture_luna;
      restoration_luna = t.restoration_luna + o.restoration_luna;
      bonus_luna = t.bonus_luna + o.bonus_luna;
      payout_luna = t.payout_luna + o.payout_luna;
    },
    e,
    ground arith,
    refl,
    refl,
  )
]

abbrev pub payout_of : CalculatedSettlementMember → ℕ
payout_of t = t.payout_luna

abbrev pub deposit_of : CalculatedSettlementMember → ℕ
deposit_of t = t.deposit_luna

-- A round moves the members' payouts by their shares, and no deposit.
pub settle_members-adds :
    (d : Distribution) (ms : List SettlementMemberInput) (totals : Dict CalculatedSettlementMember)
    (ids : List Text) {os : List CalculatedSettlementOutcome} {r : Dict CalculatedSettlementMember}
    → IsUnique ids
    → All (λ k. has k ids ≡ true) (member_ids ms)
    → settle_members d ms totals ≡ ok (os, r)
    → (sum_at payout_of r ids ≡ sum_at payout_of totals ids + sum_of (share d) (member_ids ms))
      × (sum_at deposit_of r ids ≡ sum_at deposit_of totals ids)
      × (sum_of (λ o. o.payout_luna) os ≡ sum_of (share d) (member_ids ms))
unfolding settle_members
settle_members-adds d [] totals ids {os} {r} u a h = ground arith
settle_members-adds d (m ∷ ms) totals ids {os} {r} u a h =
    let (o, e₁, h₁) = >>=-eq-ok (settle_member d m) _ h in
    let (t, e₂, h₂) = >>=-eq-ok (add_outcome o totals) _ h₁ in
    let (p, e₃, h₃) = >>=-eq-ok (settle_members d ms t) _ h₂ in
    let (same_id, pays, _) = settle_member-share d m e₁ in
    let (old, new, found, written, paid, kept) = add_outcome-adds o totals e₂ in
    let rest = settle_members-adds d ms t ids u a.1 e₃ in
    ground (
      arith,
      rest,
      sum_at-insert payout_of o.membership_id old new totals ids u,
      sum_at-insert deposit_of o.membership_id old new totals ids u,
    )

pub All-has :
    (xs ids : List Text)
    → ((k : Text) → has k xs ≡ true → has k ids ≡ true)
    → All (λ k. has k ids ≡ true) xs
All-has [] ids h = tt
All-has (x ∷ xs) ids h =
    (h x (ground (arith, same_text_refl x)), All-has xs ids (λ k e. h k (ground arith)))

pub has_of_All :
    (xs ids : List Text) (k : Text)
    → All (λ k. has k ids ≡ true) xs
    → has k xs ≡ true
    → has k ids ≡ true
has_of_All [] ids k a h = cc
has_of_All (x ∷ xs) ids k a h = ground (arith, same_text_iff x k, has_of_All xs ids k a.1)

has-ids_where-true :
    (p : SettlementOutcomeState → Bool) (k : Text) (d : Dict SettlementOutcomeState)
    → has k (ids_where p d) ≡ true
    → has k (keys d) ≡ true
has-ids_where-true p k d h = elim (Bool-cases (has k (keys d))) [
  | inl e ↦ e
  | inr e ↦ ground (arith, has-ids_where p k d e)
]

add_shares :
    (total pays bonus slice kept forfeits n c forfeiting : ℕ)
    → total ≡ pays + bonus
    → pays ≡ slice * kept + (if c == 0 then slice * forfeits else 0)
    → bonus ≡ (if c == 0 then 0 else forfeiting * slice)
    → forfeiting ≡ forfeits
    → n ≡ kept + forfeits
    → total ≡ slice * n
add_shares total pays bonus slice kept forfeits n c forfeiting h₁ h₂ h₃ h₄ h₅ =
    let product : slice * n ≡ slice * kept + slice * forfeits = rw h₅ (omega arith) in
    let pool : forfeiting * slice ≡ slice * forfeits = rw h₄ (omega arith) in
    elim (Bool-cases (c == 0)) [
      | inl e ↦ omega (arith, rw e at h₂, rw e at h₃)
      | inr e ↦ omega (arith, rw e at h₂, rw e at h₃)
    ]

module _ (locale_le : Text → Text → Bool) where
  sum_of-bonus :
      (slice pool : ℕ) (outcomes : Dict SettlementOutcomeState)
      → sum_of (λ e. e.1) (distribution locale_le slice outcomes pool).bonus_by_member
        ≡ (if (distribution locale_le slice outcomes pool).approved_count == 0 then 0 else pool)
  unfolding distribution
  sum_of-bonus slice pool outcomes =
      assign_bonus-total_or_zero pool (sort_ids locale_le (ids_where is_approved outcomes))

  keys-bonus :
      (slice pool : ℕ) (outcomes : Dict SettlementOutcomeState)
      → keys (distribution locale_le slice outcomes pool).bonus_by_member
        ≡ sort_ids locale_le (ids_where is_approved outcomes)
  unfolding distribution
  keys-bonus slice pool outcomes = keys-assign_bonus _ _ 0 _

  bonus-IsUnique :
      (slice pool : ℕ) (outcomes : Dict SettlementOutcomeState) (ids : List Text)
      → IsOutcomes ids outcomes
      → IsUnique (keys (distribution locale_le slice outcomes pool).bonus_by_member)
        × All
            (λ k. has k ids ≡ true)
            (keys (distribution locale_le slice outcomes pool).bonus_by_member)
  bonus-IsUnique slice pool outcomes ids v = rw (keys-bonus slice pool outcomes) (
    sort_ids-IsUnique locale_le _ (ids_where-IsUnique is_approved outcomes v.0),
    All-has _ ids λ k h. has_of_All (keys outcomes) ids k v.1 (
        has-ids_where-true is_approved k outcomes
          (ground (arith, has-sort_ids locale_le k (ids_where is_approved outcomes)))),
  )

  -- When the outcomes are exactly those of different known members, the shares of the members of
  -- an occurrence, principal or restoration and bonus, add up to one slice for each outcome.
  pub distribution-total :
      (slice : ℕ) (outcomes : Dict SettlementOutcomeState) (ids : List Text)
      → IsUnique ids
      → IsOutcomes ids outcomes
      → let pool = length (ids_where is_forfeiting outcomes) * slice in
        sum_of (share (distribution locale_le slice outcomes pool)) ids ≡ slice * length outcomes
  unfolding distribution
  distribution-total slice outcomes ids u v =
      let pool = length (ids_where is_forfeiting outcomes) * slice in
      let d = distribution locale_le slice outcomes pool in
      let (w, a) = bonus-IsUnique slice pool outcomes ids v in
      let pay = base_pay slice d.approved_count in
      add_shares (sum_of (share d) ids) (sum_of (λ e. pay e.1) outcomes)
        (sum_of (λ e. e.1) d.bonus_by_member) slice (count (λ e. keeps_principal e.1) outcomes)
        (count (λ e. is_forfeiting e.1) outcomes) (length outcomes) d.approved_count
        (length (ids_where is_forfeiting outcomes))
        (rw
          (
            ← sum_at-eq-sum_of pay outcomes ids u v.0 v.1,
            ← sum_at-eq-sum_of (λ n. n) d.bonus_by_member ids u w a,
          )
          (sum_of_add (λ id. value pay (lookup id outcomes))
            (λ id. value (λ n. n) (lookup id d.bonus_by_member)) ids))
        (sum_of-base_pay slice d.approved_count outcomes) (sum_of-bonus slice pool outcomes)
        (length-ids_where is_forfeiting outcomes) (length-eq-count outcomes)
