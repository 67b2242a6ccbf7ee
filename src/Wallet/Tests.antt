-- ===== src/Wallet/Tests.antt =====
-- The wallet at concrete inputs.
use boteco12_api.Prelude.{◌≡◌, refl, none, some, [], ◌∷◌}
use boteco12_api.Prelude.Int.{pos, ◌+ℤ◌, ◌-ℤ◌, ◌≤ℤ◌}
use boteco12_api.Errors.{ok, err, bad_request, insufficient_wallet_balance}
use boteco12_api.Transaction.{committed}
use boteco12_api.Db.{Db, empty_db, bolao_entry, key_taken}
use boteco12_api.Wallet.{balance, integer, credit_with_key, debit_wallet, debit_entry}
use boteco12_api.Wallet.Debit.{after_debit, debit_wallet_outcome, no_double_spend}
use boteco12_api.Wallet.Ledger.{net, count_key}
use boteco12_api.Wallet.Interleaving.{
  Reach, here, next, credited, paid_entry, Writes, access_fee, balance_is_net, key_used_once,
}

abbrev funded : Db
funded = record empty_db { wallets = λ u. some (pos 9) }

debit_wallet_outcome_example :
    debit_wallet (λ s. s) 7 (integer (pos 4)) funded ≡ ok (pos 9, after_debit 7 (pos 4) funded)
debit_wallet_outcome_example = debit_wallet_outcome (λ s. s) 7 (pos 4) funded

no_double_spend_example :
    (pos 4 +ℤ pos 5 ≤ℤ pos 9)
    × (balance (after_debit 7 (pos 5) (after_debit 7 (pos 4) funded)) 7 ≡ pos 9 -ℤ (pos 4 +ℤ pos 5))
unfolding debit_wallet ◌-ℤ◌
no_double_spend_example = no_double_spend 7 (pos 4) (pos 5) funded refl refl

second_debit_refused :
    debit_wallet (λ _. after_debit 7 (pos 6) funded) 7 (integer (pos 4)) funded
    ≡ err (bad_request (insufficient_wallet_balance (pos 4) (pos 9)))
unfolding debit_wallet ◌-ℤ◌
second_debit_refused = refl

abbrev paid : Db
paid = record funded {
  ledger =
      record {
        user = 7;
        type = boteco12_api.Db.EntryType.debit;
        amount = pos 2;
        key = some (bolao_entry 3 7);
      }
      ∷ [];
}

abbrev after_credit : Db
after_credit = committed empty_db (credit_with_key 7 (pos 9) none empty_db)

abbrev after_fee : Db
after_fee = committed after_credit (debit_entry (λ s. s) 3 7 (pos 2) after_credit)

credit_succeeds : credit_with_key 7 (pos 9) none empty_db ≡ ok (pos 0, after_credit)
unfolding credit_with_key ◌+ℤ◌
credit_succeeds = refl

fee_succeeds : debit_entry (λ _. after_credit) 3 7 (pos 2) after_credit ≡ ok (tt, after_fee)
unfolding credit_with_key debit_entry ◌+ℤ◌ ◌-ℤ◌
fee_succeeds = refl

after_fee-Reach : Reach empty_db after_fee
after_fee-Reach =
    next (next here (credited 7 (pos 9) none empty_db credit_succeeds))
      (paid_entry after_credit after_credit 3 7 (pos 2) fee_succeeds)

balance_is_net_example :
    (balance after_fee 7 ≡ net 7 after_fee.ledger) × (pos 0 ≤ℤ balance after_fee 7)
balance_is_net_example = balance_is_net after_fee-Reach 7

-- The fee again, after a further credit, from the balance as it was before.
abbrev topped_up : Db
topped_up = committed after_fee (credit_with_key 7 (pos 5) none after_fee)

top_up_succeeds : credit_with_key 7 (pos 5) none after_fee ≡ ok (pos 7, topped_up)
unfolding credit_with_key debit_entry ◌+ℤ◌ ◌-ℤ◌
top_up_succeeds = refl

key_used_once_example : ¬ Writes (bolao_entry 3 7) topped_up after_fee
key_used_once_example =
    key_used_once (access_fee after_credit after_credit 3 7 (pos 2) refl fee_succeeds)
      (next here (credited 7 (pos 5) none after_fee top_up_succeeds))

fee_on_the_books :
    (balance after_fee 7 ≡ pos 7) × (count_key (bolao_entry 3 7) after_fee.ledger ≡ 1)
unfolding credit_with_key debit_entry ◌+ℤ◌ ◌-ℤ◌
fee_on_the_books = (refl, refl)
