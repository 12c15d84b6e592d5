-- ===== src/Database/Insert.antt =====
-- packages/db/src/schema.ts: what follows an insertion into the ledger, whose key is unique.
use pods.Base.{
  ◌≡◌, refl, Bool, true, false, ◌∷◌, same_text, some_of, Result, ok, err, ◌>>=◌, if◌then◌else◌,
}
use pods.Database.Rows.{LedgerEntry}
use pods.Database.Store.{Store, StoreError, insert_entry, unique_violation}
use pods.Database.Flow.{After}

by_flags :
    {A : Type 0} (P : A → Type 0) (old new : Store) (next : Store → Result StoreError A)
    (present taken : Bool)
    → (present ≡ true → After P (next old))
    → (present ≡ false → After P (next new))
    → After P
        ((if present then ok old else if taken then err unique_violation else ok new) >>= next)
by_flags P old new next true taken h k = h refl
by_flags P old new next false true h k = tt
by_flags P old new next false false h k = k refl

pub After-insert_entry :
    {A : Type 0} (P : A → Type 0) (new : LedgerEntry) (s : Store)
    (next : Store → Result StoreError A)
    → (some_of
            (λ (e : LedgerEntry). same_text e.idempotency_key new.idempotency_key)
            s.ledger_entries
          ≡ true
        → After P (next s))
    → (some_of
            (λ (e : LedgerEntry). same_text e.idempotency_key new.idempotency_key)
            s.ledger_entries
          ≡ false
        → After P (next (record s { ledger_entries = new ∷ s.ledger_entries })))
    → After P (insert_entry new s >>= next)
After-insert_entry P new s next =
    by_flags P s (record s { ledger_entries = new ∷ s.ledger_entries }) next
      (some_of (λ (e : LedgerEntry). same_text e.idempotency_key new.idempotency_key)
        s.ledger_entries)
      (some_of (λ (e : LedgerEntry). same_text e.id new.id) s.ledger_entries)
