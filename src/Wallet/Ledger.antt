-- ===== src/Wallet/Ledger.antt =====
-- The books of the wallets (wallet.service.ts, bolao-entry-payment.service.ts): the invariant of
-- the tables `wallets` and `wallet_ledger`, and that credits and debits keep it.
use boteco12_api.Prelude.{
  ℕ, suc, ◌≡◌, ◌≤◌, refl, inl, inr, Bool, true, false, some, Bool-cases, Option, List, [], ◌∷◌,
  ◌==◌, if◌then◌else◌, arith,
}
use boteco12_api.Prelude.Int.{ℤ, pos, ◌+ℤ◌, ◌-ℤ◌, ◌≤ℤ◌}
use boteco12_api.Db.{
  Db, LedgerEntry, EntryType, credit, debit, IdempotencyKey, bolao_entry, bolao_payout, key_taken,
  same_key,
}
use boteco12_api.Errors.{ok}
use boteco12_api.Wallet.{
  balance, JsNumber, integer, not_integer, credit_with_key, debit_wallet, debit_entry,
}

abbrev signed : EntryType → ℤ → ℤ → ℤ
signed credit amount rest = rest +ℤ amount
signed debit amount rest = rest -ℤ amount

-- The credits of a user less the debits.
abbrev pub net : ℕ → List LedgerEntry → ℤ
net u [] = pos 0
net u (e ∷ l) = if e.user == u then signed e.type e.amount (net u l) else net u l

-- No idempotency key stands on two entries.
abbrev HasDistinctKeys : List LedgerEntry → Type 0
HasDistinctKeys [] = Unit
HasDistinctKeys (e ∷ l) = (key_taken e.key l ≡ false) × HasDistinctKeys l

pub record IsSound (db : Db) : Type 0 where
  pub balanced : (u : ℕ) → balance db u ≡ net u db.ledger
  pub nonneg : (u : ℕ) → pos 0 ≤ℤ balance db u
  pub distinct : HasDistinctKeys db.ledger

pub credit_with_key-IsSound :
    (u : ℕ) (amount : ℤ) (key : Option IdempotencyKey) (db : Db) {b : ℤ} {db' : Db}
    → IsSound db
    → credit_with_key u amount key db ≡ ok (b, db')
    → IsSound db'
unfolding credit_with_key
credit_with_key-IsSound u amount key db h e = record {
  balanced = λ j. ground (arith, h.balanced j);
  nonneg = λ j. ground (arith, h.nonneg j);
  distinct = ground (arith, h.distinct);
}

module _ (others : Db → Db) (u : ℕ) (db : Db) (h : IsSound (others db)) where
  pub debit_wallet-IsSound :
      (n : JsNumber) {b : ℤ} {db' : Db} → debit_wallet others u n db ≡ ok (b, db') → IsSound db'
  unfolding debit_wallet
  debit_wallet-IsSound not_integer e = cc
  debit_wallet-IsSound (integer amount) e = record {
    balanced = λ j. ground (arith, h.balanced j);
    nonneg = λ j. ground (arith, h.nonneg j);
    distinct = ground (arith, h.distinct);
  }

  pub debit_entry-IsSound :
      (ranking : ℕ) (amount : ℤ) {db' : Db}
      → debit_entry others ranking u amount db ≡ ok (tt, db')
      → IsSound db'
  unfolding debit_entry
  debit_entry-IsSound ranking amount e = record {
    balanced = λ j. ground (arith, h.balanced j);
    nonneg = λ j. ground (arith, h.nonneg j);
    distinct = ground (arith, h.distinct);
  }

abbrev has_key : IdempotencyKey → LedgerEntry → Bool
has_key k e = same_key (some k) e.key

-- How many entries have the key.
abbrev pub count_key : IdempotencyKey → List LedgerEntry → ℕ
count_key k [] = 0
count_key k (e ∷ l) = if has_key k e then suc (count_key k l) else count_key k l

key_taken-count_key :
    (k : IdempotencyKey) (l : List LedgerEntry) → key_taken (some k) l ≡ false → count_key k l ≡ 0
key_taken-count_key k [] h = refl
key_taken-count_key k (e ∷ l) h = ground (arith, key_taken-count_key k l)

same_key-eq :
    (k : IdempotencyKey) (o : Option IdempotencyKey) → same_key (some k) o ≡ true → o ≡ some k
same_key-eq (bolao_entry a b) (some (bolao_entry c d)) h = ground arith
same_key-eq (bolao_payout a b) (some (bolao_payout c d)) h = ground arith
same_key-eq k o h = ground arith

pub count_key-le-one :
    (k : IdempotencyKey) (l : List LedgerEntry) → HasDistinctKeys l → count_key k l ≤ 1
count_key-le-one k [] h = omega arith
count_key-le-one k (e ∷ l) (new, h) = elim (Bool-cases (has_key k e)) [
  | inl same ↦
      rw same (omega (arith, key_taken-count_key k l (rw (same_key-eq k e.key same) at new)))
  | inr other ↦ rw other (count_key-le-one k l h)
]
