-- ===== src/Funding/Reconcile.antt =====
-- apps/worker/src/funding/deposit-reconciler.ts: what a transaction on the chain is to a deposit.
use pods.Base.{
  ℕ, ◌≡◌, ◌<◌, ◌↔◌, refl, sym, ap, ◌∙◌, Bool, true, false, not, ◌&&◌, ◌||◌, Option, none, some,
  List, Text, codes, same_text, same_text_iff, is_space, is_empty, is_safe, keep, some_of, leb,
  ◌==◌, Number, nat, if◌then◌else◌, arith,
}
use pods.Database.Rows.{
  DepositExceptionCode, wrong_network, recipient_mismatch, amount_mismatch, reference_missing,
  reference_mismatch, reference_duplicate, execution_failed,
}

pub record DepositIntentForValidation : Type 0 where
  pub id : Text
  pub wallet_address : Text
  pub treasury_address : Text
  pub amount_luna : ℕ
  pub network : Text
  pub reference : Text

pub record DepositTransaction : Type 0 where
  pub hash : Text
  pub from : Text
  pub from_type : ℕ
  pub to : Text
  pub value : Number
  pub recipient_data : Text
  pub network_id : ℕ
  pub execution_result : Bool
  pub block_number : ℕ
  pub transaction_index : ℕ
  pub related_addresses : List Text

pub record DepositBlock : Type 0 where
  pub number : ℕ
  pub batch : ℕ
  pub network : Text

pub record DepositChainContext : Type 0 where
  pub containing_block : DepositBlock
  pub latest_block : DepositBlock
  pub matching_reference_count : ℕ
  pub hash_claimed_by_another_intent : Bool

pub record DepositAudit : Type 0 where
  pub hash : Text
  pub from : Text
  pub from_type : ℕ
  pub related_addresses : List Text
  pub direct_wallet_match : Bool
  pub related_wallet_match : Bool
  pub block_number : ℕ
  pub transaction_index : ℕ
  pub transaction_batch : Option ℕ
  pub latest_batch : Option ℕ

-- With the audit beside it.
pub data DepositClassification : Type 0 where
  valid_observed valid_finalized pending_finality : DepositClassification
  exception : DepositExceptionCode → DepositClassification

-- `Number.isSafeInteger(value) && value === amount`.
abbrev pub is_amount : Number → ℕ → Bool
is_amount (nat n) amount = is_safe n && n == amount
is_amount _ amount = false

pass :
    (test : Bool) (code : DepositExceptionCode) (rest : DepositClassification)
    → (if test then exception code else rest) ≡ valid_finalized
    → (test ≡ false) × (rest ≡ valid_finalized)
pass true code rest h = cc h
pass false code rest h = (refl, h)

is_amount-eq :
    (n : Number) (amount : ℕ)
    → is_amount n amount ≡ true
    → (n ≡ nat amount) × (is_safe amount ≡ true)
is_amount-eq (nat n) amount h = ground arith
is_amount-eq _ amount h = cc h

batch_later : (latest containing : ℕ) → containing < latest → leb latest containing ≡ false
batch_later latest containing h = ground arith

-- `to_upper_case` and `to_lower_case` stand for the methods of strings.
module _ (to_upper_case to_lower_case : Text → Text) where
  unfoldable pub normalized_address : Text → Text
  normalized_address value = to_upper_case (keep (λ c. not (is_space c)) value)

  abbrev pub is_testnet_block : DepositBlock → Bool
  is_testnet_block block = same_text (to_lower_case block.network) (codes "testalbatross")

  unfoldable pub audit :
      DepositIntentForValidation → DepositTransaction → Option DepositChainContext → DepositAudit
  audit intent transaction context =
      let wallet = normalized_address intent.wallet_address in
      record {
        hash = transaction.hash;
        from = transaction.from;
        from_type = transaction.from_type;
        related_addresses = transaction.related_addresses;
        direct_wallet_match = same_text (normalized_address transaction.from) wallet;
        related_wallet_match =
            some_of (λ address. same_text (normalized_address address) wallet)
              transaction.related_addresses;
        block_number = transaction.block_number;
        transaction_index = transaction.transaction_index;
        transaction_batch = elim context [ none ↦ none | some c ↦ some c.containing_block.batch ];
        latest_batch = elim context [ none ↦ none | some c ↦ some c.latest_block.batch ];
      }

  -- `context && test`.
  abbrev pub in_context : Option DepositChainContext → (DepositChainContext → Bool) → Bool
  in_context none test = false
  in_context (some context) test = test context

  abbrev pub on_other_network : DepositChainContext → Bool
  on_other_network c =
      not (is_testnet_block c.containing_block) || not (is_testnet_block c.latest_block)

  abbrev pub is_duplicate : DepositChainContext → Bool
  is_duplicate c = not (c.matching_reference_count == 1) || c.hash_claimed_by_another_intent

  unfoldable pub classify :
      DepositIntentForValidation
      → DepositTransaction
      → Option DepositChainContext
      → DepositClassification
  classify intent transaction context =
      if not (same_text intent.network (codes "testnet"))
        || not (transaction.network_id == 5)
        || in_context context on_other_network
      then exception wrong_network
      else if not (
          same_text (normalized_address transaction.to)
            (normalized_address intent.treasury_address))
      then exception recipient_mismatch
      else if not (is_amount transaction.value intent.amount_luna)
      then exception amount_mismatch
      else if is_empty transaction.recipient_data
      then exception reference_missing
      else if not (same_text transaction.recipient_data intent.reference)
      then exception reference_mismatch
      else if in_context context is_duplicate
      then exception reference_duplicate
      else if not transaction.execution_result
      then exception execution_failed
      else elim context [
        | none ↦ valid_observed
        | some c ↦
            if leb c.latest_block.batch c.containing_block.batch
            then pending_finality
            else valid_finalized
      ]

  unfoldable pub validate_observed_deposit :
      DepositIntentForValidation
      → DepositTransaction
      → Option DepositChainContext
      → DepositClassification × DepositAudit
  validate_observed_deposit intent transaction context =
      (classify intent transaction context, audit intent transaction context)

  -- A transaction that pays the deposit, said without an order of tests.
  pub record Pays (intent : DepositIntentForValidation) (t : DepositTransaction)
      (c : DepositChainContext) : Type 0 where
    pub testnet : (same_text intent.network (codes "testnet") ≡ true) × (t.network_id ≡ 5)
    pub blocks :
        (is_testnet_block c.containing_block ≡ true) × (is_testnet_block c.latest_block ≡ true)
    pub recipient : normalized_address t.to ≡ normalized_address intent.treasury_address
    pub amount : t.value ≡ nat intent.amount_luna
    pub safe : is_safe intent.amount_luna ≡ true
    pub reference : (t.recipient_data ≡ intent.reference) × (is_empty intent.reference ≡ false)
    pub only : (c.matching_reference_count ≡ 1) × (c.hash_claimed_by_another_intent ≡ false)
    pub executed : t.execution_result ≡ true

  validate_observed_deposit-Pays :
      (intent : DepositIntentForValidation) (t : DepositTransaction) (c : DepositChainContext)
      → (validate_observed_deposit intent t (some c)).0 ≡ valid_finalized
      → Pays intent t c × (c.containing_block.batch < c.latest_block.batch)
  unfolding validate_observed_deposit classify
  validate_observed_deposit-Pays intent t c h =
      let (n, h1) =
        pass
          (not (same_text intent.network (codes "testnet"))
            || not (t.network_id == 5)
            || in_context (some c) on_other_network)
          wrong_network _ h in
      let (r, h2) =
        pass
          (not (same_text (normalized_address t.to) (normalized_address intent.treasury_address)))
          recipient_mismatch _ h1 in
      let (a, h3) = pass (not (is_amount t.value intent.amount_luna)) amount_mismatch _ h2 in
      let (m, h4) = pass (is_empty t.recipient_data) reference_missing _ h3 in
      let (f, h5) =
        pass (not (same_text t.recipient_data intent.reference)) reference_mismatch _ h4 in
      let (d, h6) = pass (in_context (some c) is_duplicate) reference_duplicate _ h5 in
      let (x, h7) = pass (not t.execution_result) execution_failed _ h6 in
      let is_amount_true : is_amount t.value intent.amount_luna ≡ true = ground arith in
      let same : t.recipient_data ≡ intent.reference =
        (same_text_iff t.recipient_data intent.reference).0 (ground arith) in
      (
        record {
          testnet = ground arith;
          blocks = ground arith;
          recipient =
              (same_text_iff (normalized_address t.to)
                  (normalized_address intent.treasury_address)).0
                (ground arith);
          amount = (is_amount-eq t.value intent.amount_luna is_amount_true).0;
          safe = (is_amount-eq t.value intent.amount_luna is_amount_true).1;
          reference = (same, sym (ap (λ (s : Text). is_empty s) same) ∙ m);
          only = ground arith;
          executed = ground arith;
        },
        ground arith,
      )

  Pays-validate_observed_deposit :
      (intent : DepositIntentForValidation) (t : DepositTransaction) (c : DepositChainContext)
      → Pays intent t c
      → (validate_observed_deposit intent t (some c)).0 ≡ (
          if leb c.latest_block.batch c.containing_block.batch
          then pending_finality
          else valid_finalized)
  unfolding validate_observed_deposit classify
  Pays-validate_observed_deposit intent t c p = ground (
    arith,
    p.testnet.0,
    p.testnet.1,
    p.blocks.0,
    p.blocks.1,
    (same_text_iff (normalized_address t.to) (normalized_address intent.treasury_address)).1
        p.recipient,
    p.amount,
    p.safe,
    (same_text_iff t.recipient_data intent.reference).1 p.reference.0,
    ap (λ (s : Text). is_empty s) p.reference.0,
    p.reference.1,
    p.only.0,
    p.only.1,
    p.executed,
    ap (λ v. is_amount v intent.amount_luna) p.amount,
  )

  -- An observed transaction is found valid and final exactly when it pays the deposit, on the
  -- test network, to the treasury, the exact safe amount, with its reference and no other claim
  -- on it, and was executed, and the latest block is of a later batch than its own.
  pub validate_observed_deposit_iff :
      (intent : DepositIntentForValidation) (t : DepositTransaction) (c : DepositChainContext)
      → ((validate_observed_deposit intent t (some c)).0 ≡ valid_finalized)
        ↔ (Pays intent t c × (c.containing_block.batch < c.latest_block.batch))
  validate_observed_deposit_iff intent t c = (
    validate_observed_deposit-Pays intent t c,
    λ p.
        Pays-validate_observed_deposit intent t c p.0
        ∙ ap (λ b. if b then pending_finality else valid_finalized)
            (batch_later c.latest_block.batch c.containing_block.batch p.1),
  )
