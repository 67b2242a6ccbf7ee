-- ===== src/Mesa/Settlement.antt =====
-- src/services/bolao/settle-bolao.service.ts: the rewards of a Mesa are paid into the wallets. The
-- rows of the ranking are given by user and position, the subscriptions by user.
pub mod Laws
mod Tests
use boteco12_api.Prelude.{
  ℕ, ◌+◌, Bool, true, false, Option, none, some, List, [], ◌∷◌, if◌then◌else◌,
}
use boteco12_api.Prelude.Int.{ℤ, pos}
use boteco12_api.Errors.{Result, ok, err, database, record_not_found}
use boteco12_api.Transaction.{Tx, continue}
use boteco12_api.Db.{Db, bolao_payout}
use boteco12_api.Wallet.{credit_with_key}
use boteco12_api.Benefit.Config.{Subscription, has_active_pro_subscription_at}
use boteco12_api.Mesa.Terms.{Category, MesaTerms, or_else, is_free, is_sponsored}
use boteco12_api.Mesa.Prize.{Json, PrizeItem, Pool, validate_distribution, calculate_pool}
use boteco12_api.Mesa.Payout.{Number, PrizeRow, Payout, calculate_payouts}

-- `SettlementRanking`, as the caller has read it
pub record SettlementRanking : Type 0 where
  pub id : ℕ
  pub gross_collected : ℕ
  pub category : Option Category
  pub sponsor_prize_pool : Option ℕ
  pub prize_distribution : Json
  pub settled_at : Option ℕ

-- What is written of the row of `rankings`
pub record SettledRow : Type 0 where
  pub settled_at : Option ℕ
  pub platform_fee : ℕ
  pub prize_pool : ℕ
  pub reward_pool : Option ℕ

-- The tables, with the row of one Mesa and its entries BOLAO_SETTLED.
pub record Till : Type 0 where
  pub db : Db
  pub row : SettledRow
  pub settled : List (List Payout)

abbrev pub category_terms : Option Category → MesaTerms
category_terms category = record {
  category = category;
  access_cost = none;
  entry_fee = none;
  sponsor_prize_pool = none;
  has_sponsor_name = false;
  max_participants = none;
  registration_close_mode = none;
}

abbrev pub is_free_mesa : SettlementRanking → Bool
is_free_mesa r = is_free (category_terms r.category)

abbrev pub is_sponsored_mesa : SettlementRanking → Bool
is_sponsored_mesa r = is_sponsored (category_terms r.category)

abbrev no_pool : Pool
no_pool = record { gross_collected = 0; platform_fee = 0; prize_pool = 0 }

-- `totals`
abbrev pub totals_of : SettlementRanking → Pool
totals_of r =
    let entry_totals = calculate_pool r.gross_collected in
    if is_sponsored_mesa r
    then record entry_totals {
      prize_pool = or_else r.sponsor_prize_pool 0 + entry_totals.prize_pool;
    }
    else if is_free_mesa r
    then no_pool
    else entry_totals

-- `prizeDistribution`
abbrev pub distribution_of : SettlementRanking → Result (List PrizeItem)
distribution_of r = if is_free_mesa r then ok [] else validate_distribution r.prize_distribution

-- `payouts.filter(payout => eligibleUserIds.has(payout.userId))`
abbrev pub only_eligible : (ℕ → Option Subscription) → ℕ → List Payout → List Payout
only_eligible subscriptions at [] = []
only_eligible subscriptions at (p ∷ ps) =
    let rest = only_eligible subscriptions at ps in
    if has_active_pro_subscription_at (subscriptions p.user) at then p ∷ rest else rest

-- The loop of the credits; each has its key.
abbrev pub pay_all : ℕ → List Payout → Tx Db (Unit {0})
pay_all id [] db = ok (tt, db)
pay_all id (p ∷ ps) db =
    continue (credit_with_key p.user (pos p.amount) (some (bolao_payout id p.user)) db)
      (λ _ db'. pay_all id ps db')

-- `ranking.update` where `settledAt` is null
abbrev pub mark_settled : ℕ → Pool → List Payout → Db → Option ℕ → Tx Till (Unit {0})
mark_settled at totals paid db (some t) s = err (database record_not_found)
mark_settled at totals paid db none s = ok (
  tt,
  record {
    db = db;
    row = record {
      settled_at = some at;
      platform_fee = totals.platform_fee;
      prize_pool = totals.prize_pool;
      reward_pool = some totals.prize_pool;
    };
    settled = paid ∷ s.settled;
  },
)

abbrev pub after_payment :
    ℕ → Pool → List Payout → Till → Result (Unit {0} × Db) → Result (Unit {0} × Till)
after_payment at totals paid s (err e) = err e
after_payment at totals paid s (ok (_, db)) = mark_settled at totals paid db s.row.settled_at s

abbrev pub pay_and_mark : ℕ → ℕ → Pool → List Payout → Tx Till (Unit {0})
pay_and_mark id at totals paid s = after_payment at totals paid s (pay_all id paid s.db)

module _ (W : Type 0) ⦃number : Number W⦄ where
  -- `eligiblePayouts`
  abbrev pub eligible_payouts :
      SettlementRanking
      → List PrizeItem
      → List PrizeRow
      → (ℕ → Option Subscription)
      → ℕ
      → List Payout
  eligible_payouts r items rows subscriptions at =
      let payouts = calculate_payouts W (totals_of r).prize_pool items rows in
      if is_sponsored_mesa r then only_eligible subscriptions at payouts else payouts

  abbrev pub with_distribution :
      SettlementRanking
      → List PrizeRow
      → (ℕ → Option Subscription)
      → ℕ
      → Result (List PrizeItem)
      → Tx Till (Unit {0})
  with_distribution r rows subscriptions at (err e) s = err e
  with_distribution r rows subscriptions at (ok items) s =
      pay_and_mark r.id at (totals_of r) (eligible_payouts r items rows subscriptions at) s

  abbrev pub if_unsettled :
      SettlementRanking
      → List PrizeRow
      → (ℕ → Option Subscription)
      → ℕ
      → Option ℕ
      → Tx Till (Unit {0})
  if_unsettled r rows subscriptions at (some t) s = ok (tt, s)
  if_unsettled r rows subscriptions at none s =
      with_distribution r rows subscriptions at (distribution_of r) s

  -- `SettleBolaoService.execute`
  unfoldable pub settle_bolao :
      SettlementRanking → List PrizeRow → (ℕ → Option Subscription) → ℕ → Tx Till (Unit {0})
  settle_bolao r rows subscriptions at s = if_unsettled r rows subscriptions at r.settled_at s
