-- ===== src/Wallet.antt =====
-- src/services/wallet/wallet.service.ts, get-wallet.service.ts and
-- src/services/bolao/bolao-entry-payment.service.ts: credits and debits of tampinhas.
-- `others` is what other transactions committed between the read of the wallet and the guarded
-- update, any function on the database; a relative update such as `increment` reads the row itself.
pub mod Ledger
pub mod Debit
pub mod Interleaving
mod Tests
use boteco12_api.Prelude.{
  ℕ, ◌≡◌, Bool, true, false, ◌||◌, Option, none, some, if◌then◌else◌, arith, Bool-cases,
}
use boteco12_api.Prelude.Int.{ℤ, pos, ◌+ℤ◌, ◌-ℤ◌, ltb_ℤ, leb_ℤ}
use boteco12_api.Errors.{
  Result, ok, err, bad_request, database, record_not_found, invalid_wallet_amount,
  insufficient_wallet_balance, insufficient_balance,
}
use boteco12_api.Transaction.{Tx, ◌>>=◌, ◌>>◌, pure, throw, throw_if, gets, modify}
use boteco12_api.Db.{
  Db, LedgerEntry, EntryType, credit, debit, IdempotencyKey, bolao_entry, put, create_entry,
  set_balance,
}

-- A JavaScript number: an integer, or one for which `Number.isInteger` is false.
pub data JsNumber : Type 0 where
  integer : ℤ → JsNumber
  not_integer : JsNumber

-- `wallet?.balance ?? 0`
abbrev balance_or_zero : Option ℤ → ℤ
balance_or_zero none = pos 0
balance_or_zero (some b) = b

abbrev pub balance : Db → ℕ → ℤ
balance db u = balance_or_zero (db.wallets u)

-- `GetWalletService.execute`, the balance of its answer.
abbrev get_wallet : ℕ → Tx Db ℤ
get_wallet u = gets (λ db. balance db u)

abbrev created : ℕ → Option ℤ → Tx Db ℤ
created u (some b) db = ok (b, db)
created u none db = ok (pos 0, record db { wallets = put u (some (pos 0)) db.wallets })

-- `wallet.upsert` with an empty update; the answer is the balance of the row.
unfoldable get_or_create_wallet : ℕ → Tx Db ℤ
get_or_create_wallet u db = created u (db.wallets u) db

abbrev incremented : ℕ → ℤ → Option ℤ → Tx Db (Unit {0})
incremented u amount none db = err (database record_not_found)
incremented u amount (some b) db = set_balance u (b +ℤ amount) db

-- `wallet.update` with `increment`
unfoldable increment_balance : ℕ → ℤ → Tx Db (Unit {0})
increment_balance u amount db = incremented u amount (db.wallets u) db

-- `creditWithTx`, with the idempotency key that `SettleBolaoService` gives to the same statements.
unfoldable pub credit_with_key : ℕ → ℤ → Option IdempotencyKey → Tx Db ℤ
unfolding get_or_create_wallet increment_balance
credit_with_key u amount key = do
  wallet ← get_or_create_wallet u
  create_entry (record { user = u; type = credit; amount = amount; key = key })
  increment_balance u amount
  pure wallet

-- `WalletService.credit`
unfoldable pub credit_wallet : ℕ → ℤ → Tx Db ℤ
unfolding credit_with_key
credit_wallet u amount = credit_with_key u amount none

abbrev decremented : ℕ → ℤ → Option ℤ → Tx Db Bool
decremented u amount none db = ok (false, db)
decremented u amount (some b) db =
    if ltb_ℤ b amount then ok (false, db) else (set_balance u (b -ℤ amount) >> pure true) db

-- `wallet.updateMany` where `balance >= amount`: whether `count` is 1
unfoldable guarded_decrement : ℕ → ℤ → Tx Db Bool
guarded_decrement u amount db = decremented u amount (db.wallets u) db

-- `!wallet || wallet.balance < amount`
abbrev pub short_of : ℤ → Option ℤ → Bool
short_of amount none = true
short_of amount (some b) = ltb_ℤ b amount

module _ (others : Db → Db) where
  -- `debitWithTx`
  unfoldable debit_with_tx : ℕ → ℤ → Tx Db ℤ
  unfolding guarded_decrement
  debit_with_tx u amount = do
    wallet ← gets (λ db. db.wallets u)
    let refused = bad_request (insufficient_wallet_balance amount (balance_or_zero wallet))
    throw_if (short_of amount wallet) refused
    modify others
    done ← guarded_decrement u amount
    throw_if (if done then false else true) refused
    create_entry (record { user = u; type = debit; amount = amount; key = none })
    pure (balance_or_zero wallet)

  -- `WalletService.debit`
  unfoldable pub debit_wallet : ℕ → JsNumber → Tx Db ℤ
  unfolding debit_with_tx
  debit_wallet u not_integer = throw (bad_request invalid_wallet_amount)
  debit_wallet u (integer amount) = do
    throw_if (leb_ℤ amount (pos 0)) (bad_request invalid_wallet_amount)
    debit_with_tx u amount

  -- `BolaoEntryPaymentService.debit`
  unfoldable pub debit_entry : ℕ → ℕ → ℤ → Tx Db (Unit {0})
  unfolding guarded_decrement
  debit_entry ranking u amount = do
    wallet ← gets (λ db. db.wallets u)
    throw_if (short_of amount wallet) (bad_request insufficient_balance)
    modify others
    done ← guarded_decrement u amount
    throw_if (if done then false else true) (bad_request insufficient_balance)
    create_entry
        (record { user = u; type = debit; amount = amount; key = some (bolao_entry ranking u) })
