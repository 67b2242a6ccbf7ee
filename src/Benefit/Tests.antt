-- ===== src/Benefit/Tests.antt =====
-- Benefits at concrete databases.
use boteco12_api.Prelude.{
  ◌≡◌, ◌+◌, refl, min, none, some, List, [], ◌∷◌, ◌==◌, ◌&&◌, if◌then◌else◌, arith,
}
use boteco12_api.Prelude.Int.{pos, ◌-ℤ◌}
use boteco12_api.Errors.{ok}
use boteco12_api.Transaction.{committed}
use boteco12_api.Db.{Db, double, bet_eq, empty_db}
use boteco12_api.Benefit.Config.{
  double_combo, Subscription, active, annual, Package, has_active_pro_subscription_at,
  has_annual_pro_subscription,
}
use boteco12_api.Benefit.Consume.{Consumption, consume, consume_free, consume_rest}
use boteco12_api.Benefit.Accounting.{quiet, free_of, inventory_of, consume_takes_free_first}
use boteco12_api.Benefit.Grant.{User, grant_of, grant_round_benefits, get_benefit_balance}
use boteco12_api.Benefit.Grant.Laws.{
  granted, subscription_in, grant_round_benefits_lem, grant_restores_nothing,
  shown_doubles_are_usable,
}
use boteco12_api.Benefit.Purchase.{purchase_benefits, after_purchase, purchase_benefits_outcome}

-- User 7 has two free doubles in round 5 and three doubles in the inventory.
abbrev stocked : Db
stocked = record empty_db {
  wallets = λ u. some (pos 30);
  round_benefits = λ u r.
      if u == 7 && r == 5 then some (record { free_doubles = 2; free_super_doubles = 0 }) else none;
  inventory = λ u t. if u == 7 && bet_eq t double then some 3 else none;
}

abbrev taken : Consumption
taken = record { free_used = 2; inventory_used = 2 }

abbrev after_four : Db
after_four = committed stocked (consume quiet quiet 7 5 double 4 stocked)

four_doubles : consume quiet quiet 7 5 double 4 stocked ≡ ok (taken, after_four)
unfolding consume consume_free consume_rest
four_doubles = refl

consume_takes_free_first_example :
    (taken.free_used ≡ min (free_of stocked 7 5 double) 4)
    × (taken.free_used + free_of after_four 7 5 double ≡ free_of stocked 7 5 double)
    × (taken.inventory_used + inventory_of after_four 7 double ≡ inventory_of stocked 7 double)
consume_takes_free_first_example = consume_takes_free_first 7 5 double 4 stocked four_doubles

shown_doubles_example :
    (c : Consumption) × (db' : Db) × (consume quiet quiet 7 5 double 4 stocked ≡ ok (c, db'))
unfolding get_benefit_balance
shown_doubles_example = (shown_doubles_are_usable 7 5 4 stocked).1 (omega arith)

abbrev subscriber : Subscription
subscriber = record { status = active; plan = some annual; start_at = none; end_at = some 100 }

abbrev users : List User
users = (7, none) ∷ (8, some subscriber) ∷ []

grants :
    ((grant_round_benefits 50 5 users stocked).round_benefits 8 5
      ≡ some (record { free_doubles = 4; free_super_doubles = 2 }))
    × ((grant_round_benefits 50 5 users after_four).round_benefits 7 5
        ≡ some (record { free_doubles = 0; free_super_doubles = 0 }))
unfolding grant_round_benefits grant_of has_active_pro_subscription_at has_annual_pro_subscription
    consume consume_free consume_rest
grants = (refl, refl)

grant_round_benefits_lem_example :
    (grant_round_benefits 50 5 users stocked).round_benefits 8 5
    ≡ granted 50 (subscription_in 8 users) (stocked.round_benefits 8 5)
grant_round_benefits_lem_example = grant_round_benefits_lem 50 5 users stocked 8 5

grant_restores_nothing_example :
    (grant_round_benefits 50 5 users after_four).round_benefits 7 5
    ≡ some (record { free_doubles = 0; free_super_doubles = 0 })
unfolding consume consume_free consume_rest
grant_restores_nothing_example = grant_restores_nothing 50 5 users after_four 7 refl

abbrev combo : Package
combo = record { type = double; quantity = 3; cost = pos 10 }

purchase_benefits_outcome_example :
    purchase_benefits quiet 7 double_combo stocked
    ≡ ok (
      record { pkg = combo; inventory_quantity = 6; wallet_balance = pos 30 -ℤ pos 10 },
      after_purchase 7 combo stocked,
    )
purchase_benefits_outcome_example = purchase_benefits_outcome quiet 7 double_combo stocked refl
