-- ===== src/Mesa/Settlement/Tests.antt =====
-- A Mesa with a tie on the second position is settled, with exact fractions.
use boteco12_api.Prelude.{ℕ, ◌≡◌, refl, Option, none, some, List, [], ◌∷◌, arith}
use boteco12_api.Prelude.Int.{pos, ◌+ℤ◌}
use boteco12_api.Errors.{ok}
use boteco12_api.Transaction.{committed}
use boteco12_api.Db.{empty_db}
use boteco12_api.Wallet.{integer, balance, credit_with_key}
use boteco12_api.Benefit.Config.{Subscription}
use boteco12_api.Mesa.Terms.{paid, is_free, is_sponsored, category_of}
use boteco12_api.Mesa.Prize.{
  RawItem, array, PrizeItem, validate_distribution, validate_items, calculate_pool,
}
use boteco12_api.Mesa.Payout.{PrizeRow, Payout, calculate_payouts}
use boteco12_api.Mesa.Payout.Fraction.{Fraction, fraction_number}
use boteco12_api.Mesa.Payout.Total.{total_paid, payouts_pay_the_pool}
use boteco12_api.Mesa.Settlement.{
  SettlementRanking, Till, totals_of, distribution_of, eligible_payouts, settle_bolao,
}
use boteco12_api.Mesa.Settlement.Laws.{paid_to, settled_once, settlement_pays_the_payouts}

abbrev raw_item : ℕ → ℕ → RawItem
raw_item n p = record { position = integer (pos n); percentage = integer (pos p) }

abbrev items : List PrizeItem
items =
    record { position = 1; percentage = 70 }
    ∷ record { position = 2; percentage = 20 }
    ∷ record { position = 3; percentage = 10 }
    ∷ []

abbrev rows : List PrizeRow
rows =
    record { user = 1; position = 1 }
    ∷ record { user = 2; position = 2 }
    ∷ record { user = 3; position = 2 }
    ∷ []

abbrev payouts : List Payout
payouts =
    record { user = 1; position = 1; amount = 64 }
    ∷ record { user = 2; position = 2; amount = 14 }
    ∷ record { user = 3; position = 2; amount = 13 }
    ∷ []

abbrev ranking : SettlementRanking
ranking = record {
  id = 5;
  gross_collected = 101;
  category = some paid;
  sponsor_prize_pool = none;
  prize_distribution = array (raw_item 1 70 ∷ raw_item 2 20 ∷ raw_item 3 10 ∷ []);
  settled_at = none;
}

abbrev till : Till
till = record {
  db = empty_db;
  row = record { settled_at = none; platform_fee = 0; prize_pool = 0; reward_pool = some 0 };
  settled = [];
}

abbrev nobody : ℕ → Option Subscription
nobody u = none

ninety_one : calculate_payouts Fraction 91 items rows ≡ payouts
unfolding calculate_payouts
ninety_one = refl

payouts_pay_the_pool_example : total_paid payouts ≡ 91
unfolding calculate_payouts
payouts_pay_the_pool_example = payouts_pay_the_pool Fraction 91 items rows (ground arith) refl

abbrev after : Till
after = committed till (settle_bolao Fraction ranking rows nobody 100 till)

settlement_pays_the_payouts_example :
    (items : List PrizeItem) × (distribution_of ranking ≡ ok items)
    × (balance after.db 2
        ≡ balance till.db 2 +ℤ paid_to 2 (eligible_payouts Fraction ranking items rows nobody 100))
    × (after.row.settled_at ≡ some 100)
    × (after.row.prize_pool ≡ (totals_of ranking).prize_pool)
unfolding settle_bolao calculate_payouts validate_distribution validate_items calculate_pool is_free
    is_sponsored category_of credit_with_key ◌+ℤ◌
settlement_pays_the_payouts_example =
    settlement_pays_the_payouts Fraction ranking rows nobody 100 2 till after refl refl

settled_once_example :
    committed after
      (settle_bolao Fraction (record ranking { gross_collected = 900 }) rows nobody 101 after)
    ≡ after
unfolding settle_bolao calculate_payouts validate_distribution validate_items calculate_pool is_free
    is_sponsored category_of credit_with_key ◌+ℤ◌
settled_once_example =
    settled_once Fraction ranking rows nobody 100 till after refl refl
      (record ranking { gross_collected = 900 }) rows nobody 101 after refl
