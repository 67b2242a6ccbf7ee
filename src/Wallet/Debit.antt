-- ===== src/Wallet/Debit.antt =====
-- Debits of tampinhas (wallet.service.ts, bolao-entry-payment.service.ts), branch by branch and
-- under any interference between the read and the guarded update.
use boteco12_api.Prelude.{
  ℕ, ◌≡◌, ◌≢◌, refl, true, false, none, some, List, [], ◌∷◌, if◌then◌else◌, arith,
}
use boteco12_api.Prelude.Int.{ℤ, pos, ◌+ℤ◌, ◌-ℤ◌, ◌≤ℤ◌, leb_ℤ, +ℤ_parts, -ℤ_parts, sub_sub}
use boteco12_api.Db.{Db, LedgerEntry, debit, put, key_taken, bolao_entry}
use boteco12_api.Errors.{ok, err, bad_request, invalid_wallet_amount, insufficient_wallet_balance}
use boteco12_api.Wallet.{balance, short_of, integer, debit_wallet, debit_entry}

-- Rows without a key never clash.
key_taken-none : (l : List LedgerEntry) → key_taken none l ≡ false
key_taken-none [] = refl
key_taken-none (e ∷ l) = key_taken-none l

-- The database after a debit that went through: the balance is down by the amount, and the ledger
-- has one entry more.
abbrev pub after_debit : ℕ → ℤ → Db → Db
after_debit u amount db = record db {
  wallets = put u (some (balance db u -ℤ amount)) db.wallets;
  ledger = record { user = u; type = debit; amount = amount; key = none } ∷ db.ledger;
}

-- A debit of an integer amount has these outcomes, whatever other transactions do between its read
-- and its write: an amount below 1 is refused; so is one above the balance that was read, and one
-- above the balance at the write; otherwise the balance at the write falls by the amount and one
-- debit entry is added. In particular no constraint of the database is ever hit.
pub debit_wallet_outcome :
    (others : Db → Db) (u : ℕ) (amount : ℤ) (db : Db)
    → debit_wallet others u (integer amount) db ≡ (
        if leb_ℤ amount (pos 0)
        then err (bad_request invalid_wallet_amount)
        else if short_of amount (db.wallets u)
        then err (bad_request (insufficient_wallet_balance amount (balance db u)))
        else if short_of amount ((others db).wallets u)
        then err (bad_request (insufficient_wallet_balance amount (balance db u)))
        else ok (balance db u, after_debit u amount (others db)))
unfolding debit_wallet
debit_wallet_outcome others u amount db =
    ground (arith, key_taken-none (others db).ledger, -ℤ_parts (balance (others db) u) amount)

-- Two debits that both read the same balance and both succeed are covered by it together: the
-- second one to write sees what the first has left.
pub no_double_spend :
    (u : ℕ) (x y : ℤ) (db : Db) {b c : ℤ} {db₁ db₂ : Db}
    → debit_wallet (λ s. s) u (integer x) db ≡ ok (b, db₁)
    → debit_wallet (λ _. db₁) u (integer y) db ≡ ok (c, db₂)
    → (x +ℤ y ≤ℤ balance db u) × (balance db₂ u ≡ balance db u -ℤ (x +ℤ y))
unfolding debit_wallet
no_double_spend u x y db {db₁ = m} e f = ground (
  arith,
  key_taken-none m.ledger,
  key_taken-none db.ledger,
  +ℤ_parts x y,
  -ℤ_parts (balance db u) x,
  -ℤ_parts (balance m u) y,
  sub_sub (balance db u) x y,
)

-- An access fee that is already in the ledger at the write is never debited again.
pub debit_entry_once :
    (others : Db → Db) (ranking u : ℕ) (amount : ℤ) (db : Db) {r : Unit {0} × Db}
    → key_taken (some (bolao_entry ranking u)) (others db).ledger ≡ true
    → debit_entry others ranking u amount db ≢ ok r
unfolding debit_entry
debit_entry_once others ranking u amount db h e = ground arith
