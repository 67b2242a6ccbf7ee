-- ===== src/Benefit/Grant.antt =====
-- src/services/benefits/grant-round-benefits.service.ts, round-benefit.service.ts,
-- grant-paid-benefit.service.ts, reward-benefit.service.ts and get-benefit-balance.service.ts: how
-- benefits reach a user, and what a user sees of them.
pub mod Laws
use boteco12_api.Prelude.{
  ℕ, suc, ◌+◌, ◌≡◌, refl, ◌∙◌, Bool, true, false, ◌&&◌, Option, none, some, List, [], ◌∷◌, ◌==◌,
  leb, if◌then◌else◌, arith,
}
use boteco12_api.Prelude.Int.{ℤ, pos, negsuc}
use boteco12_api.Errors.{Result, ok, err, failure, bad_quantity, database, unique_violation}
use boteco12_api.Transaction.{Tx, ◌>>=◌, ◌>>◌, pure, throw, modify, gets, committed}
use boteco12_api.Db.{
  Db, BetType, double, super_double, RoundBenefit, AuditEntry, paid_benefit_granted, put_pair,
  put_bet, log_audit,
}
use boteco12_api.Wallet.{JsNumber, integer, not_integer, balance}
use boteco12_api.Benefit.Config.{
  Subscription, has_active_pro_subscription_at, has_annual_pro_subscription,
  get_round_benefit_grant,
}
use boteco12_api.Benefit.Consume.{quantity_or_zero, free_or_zero}

-- A row of `user.findMany`.
abbrev pub User : Type 0
User = ℕ × Option Subscription

-- The `select` of both services leaves out `startAt`.
abbrev selected : Option Subscription → Option Subscription
selected none = none
selected (some s) = some (record s { start_at = none })

-- The grant of a user at the time `now`.
unfoldable pub grant_of : ℕ → Option Subscription → RoundBenefit
grant_of now s =
    get_round_benefit_grant (has_active_pro_subscription_at (selected s) now)
      (has_annual_pro_subscription (selected s) now)

abbrev absent_then : RoundBenefit → Option RoundBenefit → RoundBenefit
absent_then b none = b
absent_then b (some old) = old

-- `roundBenefit.upsert` with an empty update
abbrev pub ensure_grant : ℕ → ℕ → User → Db → Db
ensure_grant now r (u, s) db = record db {
  round_benefits =
      put_pair u r (some (absent_then (grant_of now s) (db.round_benefits u r))) db.round_benefits;
}

-- `GrantRoundBenefitsService.execute`, over the users that `findMany` returned. Every upsert is a
-- transaction of its own.
unfoldable pub grant_round_benefits : ℕ → ℕ → List User → Db → Db
grant_round_benefits now r [] db = db
grant_round_benefits now r (x ∷ xs) db = grant_round_benefits now r xs (ensure_grant now r x db)

-- `roundBenefit.create`, under the unique index on user and round
abbrev pub create_grant : ℕ → ℕ → RoundBenefit → Tx Db (Unit {0})
create_grant u r b db = elim (db.round_benefits u r) [
  | none ↦ ok (tt, record db { round_benefits = put_pair u r (some b) db.round_benefits })
  | some old ↦ err (database unique_violation)
]

-- `RoundBenefitService.grantForRound`
unfoldable pub grant_for_round : ℕ → ℕ → List User → Tx Db (Unit {0})
grant_for_round now r [] = pure tt
grant_for_round now r ((u, s) ∷ xs) = create_grant u r (grant_of now s) >> grant_for_round now r xs

-- `userBenefitInventory.upsert` with `increment`: the quantity of the row
unfoldable pub add_inventory : ℕ → BetType → ℕ → Tx Db ℕ
add_inventory u type n db =
    let q = quantity_or_zero (db.inventory u type) + n in
    ok (q, record db { inventory = put_bet u type (some q) db.inventory })

-- `RewardBenefitService.execute`; a quantity below 0 is refused by the columns' constraint or by
-- the callers, and is not modelled.
unfoldable reward_benefit : ℕ → BetType → ℕ → Tx Db ℕ
unfolding add_inventory
reward_benefit u type n = add_inventory u type n

-- `GrantPaidBenefitService.execute`; the answer is the quantity of the inventory.
unfoldable grant_paid_benefit : ℕ → ℕ → BetType → JsNumber → Tx Db ℕ
unfolding add_inventory
grant_paid_benefit u r type (integer (pos (suc n))) = do
  q ← add_inventory u type (suc n)
  log_audit (paid_benefit_granted u type (suc n) q)
  pure q
grant_paid_benefit u r type _ = throw (failure bad_quantity)

-- The numbers of `GetBenefitBalanceService.execute`; with no round there are no free benefits.
pub record BenefitBalance : Type 0 where
  pub free_doubles : ℕ
  pub free_super_doubles : ℕ
  pub paid_doubles : ℕ
  pub paid_super_doubles : ℕ
  pub total_doubles : ℕ
  pub total_super_doubles : ℕ
  pub wallet_balance : ℤ

abbrev benefit_in : Db → ℕ → Option ℕ → Option RoundBenefit
benefit_in db u none = none
benefit_in db u (some r) = db.round_benefits u r

unfoldable pub get_benefit_balance : ℕ → Option ℕ → Db → BenefitBalance
get_benefit_balance u r db =
    let free = free_or_zero double (benefit_in db u r) in
    let free_super = free_or_zero super_double (benefit_in db u r) in
    let paid = quantity_or_zero (db.inventory u double) in
    let paid_super = quantity_or_zero (db.inventory u super_double) in
    record {
      free_doubles = free;
      free_super_doubles = free_super;
      paid_doubles = paid;
      paid_super_doubles = paid_super;
      total_doubles = free + paid;
      total_super_doubles = free_super + paid_super;
      wallet_balance = balance db u;
    }
