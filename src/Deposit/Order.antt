-- ===== src/Deposit/Order.antt =====
-- packages/domain/src/funding.ts: the amount of a deposit, and the order of finalized deposits.
use pods.Base.{
  ℕ, ◌*◌, ◌≤◌, ◌<◌, ◌≡◌, ◌↔◌, ◌⊎◌, refl, true, ◌&&◌, Result, ok, err, Text, ℤ, sub_ℕ, is_zero,
  is_negative, Number, nat, is_safe, max_safe_integer, ltb, if◌then◌else◌, arith, mul_pos,
}

pub data DepositError : Type 0 where
  invalid_required_deposit : DepositError

unfoldable pub required_deposit_luna : Number → Number → Result DepositError ℕ
required_deposit_luna (nat occurrence_count) (nat luna_per_occurrence) =
    let amount = occurrence_count * luna_per_occurrence in
    if ltb 0 occurrence_count && ltb 0 luna_per_occurrence && is_safe amount
    then ok amount
    else err invalid_required_deposit
required_deposit_luna _ _ = err invalid_required_deposit

-- A required deposit is the positive product of two positive whole numbers, and a safe integer.
pub required_deposit_luna_sound :
    (count luna : Number) {n : ℕ}
    → required_deposit_luna count luna ≡ ok n
    → (k : ℕ) × (l : ℕ) × (count ≡ nat k)
      × (luna ≡ nat l)
      × (n ≡ k * l)
      × (0 < n)
      × (n ≤ max_safe_integer)
unfolding required_deposit_luna
required_deposit_luna_sound (nat k) (nat l) h =
    (k, l, refl, refl, ground arith, ground (arith, mul_pos k l), ground arith)
required_deposit_luna_sound _ _ h = cc

pub record FinalizedDepositOrder : Type 0 where
  pub block_number : ℕ
  pub transaction_index : ℕ
  pub transaction_hash : Text

-- `a || b` on numbers.
abbrev or_number : ℤ → ℤ → ℤ
or_number a b = if is_zero a then b else a

-- `locale_compare` is `String.prototype.localeCompare`.
module _ (locale_compare : Text → Text → ℤ) where
  unfoldable pub compare_finalized_deposits : FinalizedDepositOrder → FinalizedDepositOrder → ℤ
  compare_finalized_deposits left right = or_number (sub_ℕ left.block_number right.block_number) (
      or_number (sub_ℕ left.transaction_index right.transaction_index)
        (locale_compare left.transaction_hash right.transaction_hash))

  -- `left` stands before `right`: by block, then by index in the block, then by hash.
  abbrev pub Before : FinalizedDepositOrder → FinalizedDepositOrder → Type 0
  Before l r =
      (l.block_number < r.block_number)
      ⊎ ((l.block_number ≡ r.block_number)
          × ((l.transaction_index < r.transaction_index)
              ⊎ ((l.transaction_index ≡ r.transaction_index)
                  × (is_negative (locale_compare l.transaction_hash r.transaction_hash) ≡ true))))

  -- One finalized deposit compares below another exactly when it stands before it by block, then
  -- by index in the block, then by hash.
  pub compare-Before :
      (l r : FinalizedDepositOrder)
      → (is_negative (compare_finalized_deposits l r) ≡ true) ↔ Before l r
  unfolding compare_finalized_deposits
  compare-Before l r = ground arith

  pub compare_trans :
      (a b c : FinalizedDepositOrder)
      → ((s t u : Text)
          → is_negative (locale_compare s t) ≡ true
          → is_negative (locale_compare t u) ≡ true
          → is_negative (locale_compare s u) ≡ true)
      → is_negative (compare_finalized_deposits a b) ≡ true
      → is_negative (compare_finalized_deposits b c) ≡ true
      → is_negative (compare_finalized_deposits a c) ≡ true
  compare_trans a b c tr h k = ground (
    arith,
    compare-Before a b,
    compare-Before b c,
    compare-Before a c,
    tr a.transaction_hash b.transaction_hash c.transaction_hash,
  )
