-- ===== src/Deposit/Tests.antt =====
-- The life of a deposit that is refunded, and deposits in the order of the chain.
use pods.Base.{
  one_if, ℕ, ◌+◌, ◌*◌, ◌≤◌, ◌<◌, ◌≡◌, ◌↔◌, refl, Bool, true, false, not, ◌&&◌, ◌||◌, Option, some,
  List, [], ◌∷◌, ok, Text, ℤ, count, length, nat, max_safe_integer, is_negative, pos, negsuc, codes,
  arith,
}
use pods.Deposit.Machine.{
  next_deposit_state, intent_created, refunded, open_wallet, submit_hint, observe, finalize, credit,
  apply_roster, queue_refund, confirm_refund, client, worker,
}
use pods.Deposit.Life.{
  Call, run, stage, is_call, is_finalized, is_credited, is_spent, is_refunded, in_roster, in_refund,
  spends, length-run, run-accounts,
}
use pods.Deposit.Order.{
  required_deposit_luna, required_deposit_luna_sound, FinalizedDepositOrder,
  compare_finalized_deposits, Before, compare-Before,
}

abbrev refund_calls : List Call
refund_calls =
    (open_wallet, client)
    ∷ (submit_hint, client)
    ∷ (observe, worker)
    ∷ (finalize, worker)
    ∷ (credit, worker)
    ∷ (queue_refund, worker)
    ∷ (confirm_refund, worker)
    ∷ []

refund_calls-run : run intent_created refund_calls ≡ some refunded
unfolding run next_deposit_state
refund_calls-run = refl

run-accounts_example :
    (count (is_call finalize worker) refund_calls ≡ one_if (is_finalized refunded))
    × (count (is_call credit worker) refund_calls ≡ one_if (is_credited refunded))
    × (count spends refund_calls ≡ one_if (is_spent refunded))
    × (count (is_call apply_roster worker) refund_calls ≡ one_if (in_roster refunded))
    × (count (is_call queue_refund worker) refund_calls ≡ one_if (in_refund refunded))
    × (count (is_call confirm_refund worker) refund_calls ≡ one_if (is_refunded refunded))
    × (count (is_call apply_roster worker) refund_calls
          + count (is_call confirm_refund worker) refund_calls
        ≤ 1)
run-accounts_example = run-accounts refund_calls {u = refunded} refund_calls-run

length-run_example : stage intent_created + length refund_calls ≤ stage refunded
length-run_example = length-run refund_calls intent_created {u = refunded} refund_calls-run

six_slices : required_deposit_luna (nat 6) (nat 500000) ≡ ok 3000000
unfolding required_deposit_luna
six_slices = refl

required_deposit_luna_sound_example :
    (k : ℕ) × (l : ℕ) × (nat 6 ≡ nat k)
    × (nat 500000 ≡ nat l)
    × (3000000 ≡ k * l)
    × (0 < 3000000)
    × (3000000 ≤ max_safe_integer)
required_deposit_luna_sound_example = required_deposit_luna_sound (nat 6) (nat 500000) six_slices

-- Texts by their first code unit.
abbrev compare_first : Text → Text → ℤ
compare_first (a ∷ s) (b ∷ t) = pods.Base.sub_ℕ a b
compare_first _ _ = pods.Base.sub_ℕ 0 0

abbrev at : ℕ → ℕ → FinalizedDepositOrder
at block index = record { block_number = block; transaction_index = index; transaction_hash = [] }

compare-Before_example :
    (is_negative (compare_finalized_deposits compare_first (at 3 1) (at 3 2)) ≡ true)
    ↔ Before compare_first (at 3 1) (at 3 2)
compare-Before_example = compare-Before compare_first (at 3 1) (at 3 2)
