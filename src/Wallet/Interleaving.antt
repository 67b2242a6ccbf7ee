-- ===== src/Wallet/Interleaving.antt =====
-- Credits, debits and access fees (wallet.service.ts, bolao-entry-payment.service.ts) of any number
-- of transactions, in any order of their writes, each from a read that may be out of date.
use boteco12_api.Prelude.{ℕ, ◌≡◌, refl, sym, ap, true, false, Option, some, none, List, ◌∷◌, arith}
use boteco12_api.Prelude.Int.{ℤ, pos, ◌≤ℤ◌}
use boteco12_api.Db.{
  Db, IdempotencyKey, bolao_entry, bolao_payout, key_taken, same_key, LedgerEntry, credit, debit,
  empty_db,
}
use boteco12_api.Errors.{ok}
use boteco12_api.Wallet.{
  JsNumber, integer, not_integer, balance, credit_with_key, debit_wallet, debit_entry,
}
use boteco12_api.Wallet.Ledger.{
  IsSound, net, credit_with_key-IsSound, debit_wallet-IsSound, debit_entry-IsSound,
}

-- One transaction commits. A debit read the wallet in `old`, any state of the database, and writes
-- to the state that the others have left.
pub data Step : Db → Db → Type 0 where
  credited :
      (u : ℕ) (amount : ℤ) (key : Option IdempotencyKey) (db : Db) {b : ℤ} {db' : Db}
      → credit_with_key u amount key db ≡ ok (b, db')
      → Step db db'
  debited :
      (old db : Db) (u : ℕ) (amount : JsNumber) {b : ℤ} {db' : Db}
      → debit_wallet (λ _. db) u amount old ≡ ok (b, db')
      → Step db db'
  paid_entry :
      (old db : Db) (ranking u : ℕ) (amount : ℤ) {db' : Db}
      → debit_entry (λ _. db) ranking u amount old ≡ ok (tt, db')
      → Step db db'

pub data Reach (s : Db) : Db → Type 0 where
  here : Reach s s
  next : {t u : Db} → Reach s t → Step t u → Reach s u

Step-IsSound : {db db' : Db} → Step db db' → IsSound db → IsSound db'
Step-IsSound (credited u amount key db e) h = credit_with_key-IsSound u amount key db h e
Step-IsSound (debited old db u amount e) h = debit_wallet-IsSound (λ _. db) u old h amount e
Step-IsSound (paid_entry old db ranking u amount e) h =
    debit_entry-IsSound (λ _. db) u old h ranking amount e

empty_db-IsSound : IsSound empty_db
empty_db-IsSound = record { balanced = λ u. refl; nonneg = λ u. omega arith; distinct = tt }

Reach-IsSound : {s t : Db} → IsSound s → Reach s t → IsSound t
Reach-IsSound h here = h
Reach-IsSound h (next r st) = Step-IsSound st (Reach-IsSound h r)

-- From an empty database, whatever transactions commit and however old the balances are that they
-- read: every balance is the credits less the debits of the ledger, and it is never negative.
pub balance_is_net :
    {db : Db}
    → Reach empty_db db
    → (u : ℕ) → (balance db u ≡ net u db.ledger) × (pos 0 ≤ℤ balance db u)
balance_is_net r u =
    let h : IsSound _ = Reach-IsSound empty_db-IsSound r in (h.balanced u, h.nonneg u)

-- One transaction writes an entry with this idempotency key: a credit that has the key, or the access
-- fee of the user and the Mesa of the key, which read the wallet in any state.
pub data Writes (k : IdempotencyKey) : Db → Db → Type 0 where
  keyed_credit :
      (u : ℕ) (amount : ℤ) (db : Db) {b : ℤ} {db' : Db}
      → credit_with_key u amount (some k) db ≡ ok (b, db')
      → Writes k db db'
  access_fee :
      (old db : Db) (ranking u : ℕ) (amount : ℤ) {db' : Db}
      → k ≡ bolao_entry ranking u
      → debit_entry (λ _. db) ranking u amount old ≡ ok (tt, db')
      → Writes k db db'

abbrev IsTaken : IdempotencyKey → Db → Type 0
IsTaken k db = key_taken (some k) db.ledger ≡ true

same_key_refl : (k : IdempotencyKey) → same_key (some k) (some k) ≡ true
same_key_refl (bolao_entry a b) = ground arith
same_key_refl (bolao_payout a b) = ground arith

taken_on :
    (k : IdempotencyKey) (e : LedgerEntry) (l m : List LedgerEntry)
    → m ≡ e ∷ l
    → key_taken (some k) l ≡ true
    → key_taken (some k) m ≡ true
taken_on k e l m q h = rw q (ground arith)

taken_by :
    (k : IdempotencyKey) (e : LedgerEntry) (l m : List LedgerEntry)
    → m ≡ e ∷ l
    → e.key ≡ some k
    → key_taken (some k) m ≡ true
taken_by k e l m q h = rw (q, h, same_key_refl k) refl

-- A transaction that commits adds its entry to the ledger.
credit_writes :
    (u : ℕ) (amount : ℤ) (key : Option IdempotencyKey) (db : Db) {b : ℤ} {db' : Db}
    → credit_with_key u amount key db ≡ ok (b, db')
    → (db'.ledger ≡ record { user = u; type = credit; amount = amount; key = key } ∷ db.ledger)
      × (key_taken key db.ledger ≡ false)
unfolding credit_with_key
credit_writes u amount key db e = (ground arith, ground arith)

fee_writes :
    (old db : Db) (ranking u : ℕ) (amount : ℤ) {db' : Db}
    → debit_entry (λ _. db) ranking u amount old ≡ ok (tt, db')
    → (db'.ledger
        ≡ record { user = u; type = debit; amount = amount; key = some (bolao_entry ranking u) }
          ∷ db.ledger)
      × (key_taken (some (bolao_entry ranking u)) db.ledger ≡ false)
unfolding debit_entry
fee_writes old db ranking u amount e = (ground arith, ground arith)

debit_writes :
    (old db : Db) (u : ℕ) (n : JsNumber) {b : ℤ} {db' : Db}
    → debit_wallet (λ _. db) u n old ≡ ok (b, db')
    → (e : LedgerEntry) × (db'.ledger ≡ e ∷ db.ledger)
unfolding debit_wallet
debit_writes old db u not_integer e = cc
debit_writes old db u (integer amount) e =
    (record { user = u; type = debit; amount = amount; key = none }, ground arith)

Step-IsTaken : (k : IdempotencyKey) {db db' : Db} → Step db db' → IsTaken k db → IsTaken k db'
Step-IsTaken k (credited u amount key db e) h =
    taken_on k _ db.ledger _ (credit_writes u amount key db e).0 h
Step-IsTaken k (debited old db u n e) h =
    let (entry, q) = debit_writes old db u n e in taken_on k entry db.ledger _ q h
Step-IsTaken k (paid_entry old db ranking u amount e) h =
    taken_on k _ db.ledger _ (fee_writes old db ranking u amount e).0 h

Reach-IsTaken : (k : IdempotencyKey) {s t : Db} → Reach s t → IsTaken k s → IsTaken k t
Reach-IsTaken k here h = h
Reach-IsTaken k (next r st) h = Step-IsTaken k st (Reach-IsTaken k r h)

Writes-IsTaken : (k : IdempotencyKey) {s t : Db} → Writes k s t → IsTaken k t
Writes-IsTaken k (keyed_credit u amount db e) =
    taken_by k _ db.ledger _ (credit_writes u amount (some k) db e).0 refl
Writes-IsTaken k (access_fee old db ranking u amount q e) =
    taken_by k _ db.ledger _ (fee_writes old db ranking u amount e).0 (ap some (sym q))

taken_is_refused : (k : IdempotencyKey) {s t : Db} → IsTaken k s → ¬ Writes k s t
taken_is_refused k h (keyed_credit u amount db e) =
    let free = (credit_writes u amount (some k) db e).1 in cc
taken_is_refused k h (access_fee old db ranking u amount q e) =
    let free = (fee_writes old db ranking u amount e).1 in
    let h' : key_taken (some (bolao_entry ranking u)) db.ledger ≡ true = rw q at h in cc

-- When an access fee has been taken, or a credit with an idempotency key made, no transaction that
-- commits later writes an entry with that key again, whatever amounts it asks for, however old the
-- balance is that it read, and whatever credits, debits and access fees come between.
pub key_used_once : {k : IdempotencyKey} {s t v w : Db} → Writes k s t → Reach t v → ¬ Writes k v w
key_used_once {k} first r = taken_is_refused k (Reach-IsTaken k r (Writes-IsTaken k first))
