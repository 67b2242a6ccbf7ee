-- ===== src/Benefit/Purchase.antt =====
-- src/services/benefits/purchase-benefits.service.ts: a package of benefits for tampinhas.
use boteco12_api.Prelude.{ℕ, ◌+◌, ◌≡◌, false, Option, none, some, ◌∷◌, if◌then◌else◌, arith}
use boteco12_api.Prelude.Int.{ℤ, pos, leb_ℤ, ◌-ℤ◌}
use boteco12_api.Errors.{ok, err, bad_request, invalid_benefit_package, insufficient_wallet_balance}
use boteco12_api.Transaction.{Tx, ◌>>=◌, ◌>>◌, pure, throw, gets}
use boteco12_api.Db.{Db, benefit_package_purchased, put_bet, log_audit}
use boteco12_api.Wallet.{balance, short_of, integer, debit_wallet}
use boteco12_api.Wallet.Debit.{after_debit, debit_wallet_outcome}
use boteco12_api.Benefit.Config.{PackageId, Package, package_of}
use boteco12_api.Benefit.Consume.{quantity_or_zero}
use boteco12_api.Benefit.Grant.{add_inventory}

-- `inventoryQuantity` and `walletBalance` of the answer
pub record Receipt : Type 0 where
  pub pkg : Package
  pub inventory_quantity : ℕ
  pub wallet_balance : ℤ

-- The callback of the transaction. `others` is what other transactions committed between the read of
-- the wallet and its update.
unfoldable pub buy_package : (Db → Db) → ℕ → Package → Tx Db Receipt
buy_package others u p = do
  debit_wallet others u (integer p.cost)
  q ← add_inventory u p.type p.quantity
  w ← gets (λ db. balance db u)
  log_audit (benefit_package_purchased u p.type q w)
  pure (record { pkg = p; inventory_quantity = q; wallet_balance = w })

abbrev bought : (Db → Db) → ℕ → Option Package → Tx Db Receipt
bought others u none = throw (bad_request invalid_benefit_package)
bought others u (some p) = buy_package others u p

-- `PurchaseBenefitsService.execute`
unfoldable pub purchase_benefits : (Db → Db) → ℕ → PackageId → Tx Db Receipt
purchase_benefits others u id = bought others u (package_of id)

-- The database after a purchase.
abbrev pub after_purchase : ℕ → Package → Db → Db
after_purchase u p db =
    let q = quantity_or_zero (db.inventory u p.type) + p.quantity in
    record (after_debit u p.cost db) {
      inventory = put_bet u p.type (some q) db.inventory;
      audit = benefit_package_purchased u p.type q (balance db u -ℤ p.cost) ∷ db.audit;
    }

package_cost :
    (id : PackageId) {p : Package} → package_of id ≡ some p → leb_ℤ p.cost (pos 0) ≡ false
package_cost id h = ground arith

buy_package_outcome :
    (others : Db → Db) (u : ℕ) (p : Package) (db : Db)
    → leb_ℤ p.cost (pos 0) ≡ false
    → buy_package others u p db ≡ (
        if short_of p.cost (db.wallets u)
        then err (bad_request (insufficient_wallet_balance p.cost (balance db u)))
        else if short_of p.cost ((others db).wallets u)
        then err (bad_request (insufficient_wallet_balance p.cost (balance db u)))
        else ok (
          record {
            pkg = p;
            inventory_quantity = quantity_or_zero ((others db).inventory u p.type) + p.quantity;
            wallet_balance = balance (others db) u -ℤ p.cost;
          },
          after_purchase u p (others db),
        ))
unfolding buy_package add_inventory
buy_package_outcome others u p db h = ground (arith, debit_wallet_outcome others u p.cost db)

-- A purchase of a package of the table: where the balance that was read or the balance at the write
-- is short of the cost it is refused; otherwise the wallet pays the cost, the inventory of the
-- package's type grows by its quantity, and the debit and the purchase are logged.
pub purchase_benefits_outcome :
    (others : Db → Db) (u : ℕ) (id : PackageId) (db : Db) {p : Package}
    → package_of id ≡ some p
    → purchase_benefits others u id db ≡ (
        if short_of p.cost (db.wallets u)
        then err (bad_request (insufficient_wallet_balance p.cost (balance db u)))
        else if short_of p.cost ((others db).wallets u)
        then err (bad_request (insufficient_wallet_balance p.cost (balance db u)))
        else ok (
          record {
            pkg = p;
            inventory_quantity = quantity_or_zero ((others db).inventory u p.type) + p.quantity;
            wallet_balance = balance (others db) u -ℤ p.cost;
          },
          after_purchase u p (others db),
        ))
unfolding purchase_benefits
purchase_benefits_outcome others u id db {p} h =
    rw h (buy_package_outcome others u p db (package_cost id h))
