-- ===== src/Benefit/Consume.antt =====
-- src/services/benefits/consume-benefits.service.ts: the benefits of a ticket are taken from the
-- free ones of the round first and from the inventory for the rest. The two arguments of type
-- `Db → Db` are what other transactions committed before each guarded update.
use boteco12_api.Prelude.{
  ℕ, ◌-◌, Bool, true, false, Option, none, some, min, ltb, leb, if◌then◌else◌,
}
use boteco12_api.Errors.{ok, bad_request, insufficient_benefit_balance}
use boteco12_api.Transaction.{Tx, ◌>>=◌, ◌>>◌, pure, throw, modify}
use boteco12_api.Db.{Db, BetType, none_type, double, super_double, RoundBenefit, put_pair, put_bet}

-- The counter of a type; the service takes from none for any other.
abbrev free_count : BetType → RoundBenefit → ℕ
free_count none_type b = 0
free_count double b = b.free_doubles
free_count super_double b = b.free_super_doubles

abbrev with_free : BetType → ℕ → RoundBenefit → RoundBenefit
with_free none_type n b = b
with_free double n b = record b { free_doubles = n }
with_free super_double n b = record b { free_super_doubles = n }

-- `benefit?.freeDoubles ?? 0`, of the type
abbrev pub free_or_zero : BetType → Option RoundBenefit → ℕ
free_or_zero type none = 0
free_or_zero type (some b) = free_count type b

abbrev pub quantity_or_zero : Option ℕ → ℕ
quantity_or_zero none = 0
quantity_or_zero (some n) = n

abbrev take_free_row : BetType → ℕ → ℕ → ℕ → Option RoundBenefit → Tx Db Bool
take_free_row type u r used none db = ok (false, db)
take_free_row type u r used (some b) db =
    if ltb (free_count type b) used
    then ok (false, db)
    else ok (
      true,
      record db {
        round_benefits =
            put_pair u r (some (with_free type (free_count type b - used) b)) db.round_benefits;
      },
    )

-- `roundBenefit.updateMany` where the counter is at least `used`: whether `count` is 1
unfoldable take_free : BetType → ℕ → ℕ → ℕ → Tx Db Bool
take_free type u r used db = take_free_row type u r used (db.round_benefits u r) db

abbrev take_inventory_row : BetType → ℕ → ℕ → Option ℕ → Tx Db Bool
take_inventory_row type u n none db = ok (false, db)
take_inventory_row type u n (some q) db =
    if ltb q n
    then ok (false, db)
    else ok (true, record db { inventory = put_bet u type (some (q - n)) db.inventory })

-- `userBenefitInventory.updateMany` where the quantity is at least `n`
unfoldable take_inventory : BetType → ℕ → ℕ → Tx Db Bool
take_inventory type u n db = take_inventory_row type u n (db.inventory u type) db

-- `freeUsed` and `inventoryUsed` of the answer
pub record Consumption : Type 0 where
  pub free_used : ℕ
  pub inventory_used : ℕ

module _ (before_free before_inventory : Db → Db) (u r : ℕ) (type : BetType) where
  -- The first part: how many free benefits were taken.
  unfoldable pub consume_free : ℕ → Tx Db ℕ
  unfolding take_free
  consume_free quantity db =
      let available = free_or_zero type (db.round_benefits u r) in
      let used = min available quantity in
      if ltb 0 available
      then (do modify before_free; done ← take_free type u r used; pure (if done then used else 0))
          db
      else ok (0, db)

  -- The second part, for what remains: whether the inventory covered it, with what it held.
  unfoldable consume_inventory : ℕ → Tx Db (Bool × ℕ)
  unfolding take_inventory
  consume_inventory remaining db =
      let available = quantity_or_zero (db.inventory u type) in
      if leb remaining available
      then (do
        modify before_inventory
        done ← take_inventory type u remaining
        pure (done, available))
          db
      else ok ((false, available), db)

  -- What is left of the service when the free benefits have been taken.
  unfoldable pub consume_rest : ℕ → ℕ → Tx Db Consumption
  unfolding consume_inventory
  consume_rest quantity free_used db =
      let remaining = quantity - free_used in
      if ltb 0 remaining
      then (do
        (done, available) ← consume_inventory remaining
        if done
            then pure (record { free_used = free_used; inventory_used = remaining })
            else throw
                (bad_request (insufficient_benefit_balance quantity (remaining - available))))
          db
      else ok (record { free_used = free_used; inventory_used = 0 }, db)

  -- `ConsumeBenefitsService.execute`, inside a transaction
  unfoldable pub consume : ℕ → Tx Db Consumption
  consume quantity = do free_used ← consume_free quantity; consume_rest quantity free_used
