-- ===== src/Mesa/Settlement/Laws.antt =====
-- That a Mesa is settled once, and what its settlement pays (settle-bolao.service.ts).
use boteco12_api.Prelude.{
  ℕ, ◌≡◌, ◌≤◌, refl, sym, ap, subst, ◌∙◌, Bool, true, false, Option, none, some, List, [], ◌∷◌,
  ◌==◌, if◌then◌else◌, arith, Bool-cases, inl, inr,
}
use boteco12_api.Prelude.Int.{ℤ, pos, ◌+ℤ◌, +ℤ_assoc, +ℤ_zero}
use boteco12_api.Errors.{Result, ok, err}
use boteco12_api.Transaction.{committed, Result-cases, >>=-eq-ok}
use boteco12_api.Db.{Db, IdempotencyKey, bolao_payout}
use boteco12_api.Wallet.{balance, credit_with_key}
use boteco12_api.Benefit.Config.{Subscription, has_active_pro_subscription_at}
use boteco12_api.Mesa.Prize.{PrizeItem, Pool}
use boteco12_api.Mesa.Payout.{
  Number, PrizeRow, Payout, calculate_payouts, weighted_of, allocated, allotted,
}
use boteco12_api.Mesa.Payout.Total.{total_paid, payouts_pay_the_pool}
use boteco12_api.Mesa.Settlement.{
  SettlementRanking, Till, totals_of, distribution_of, only_eligible, is_sponsored_mesa, pay_all,
  mark_settled, after_payment, eligible_payouts, with_distribution, if_unsettled, settle_bolao,
}

-- What this list pays to a user
abbrev pub paid_to : ℕ → List Payout → ℤ
paid_to u [] = pos 0
paid_to u (p ∷ ps) = if p.user == u then pos p.amount +ℤ paid_to u ps else paid_to u ps

credit_with_key-balance :
    (v u : ℕ) (a : ℤ) (key : Option IdempotencyKey) (db db' : Db) {b : ℤ}
    → credit_with_key v a key db ≡ ok (b, db')
    → balance db' u ≡ (if v == u then balance db u +ℤ a else balance db u)
unfolding credit_with_key
credit_with_key-balance v u a key db db' e = ground arith

pay_all-balance :
    (id u : ℕ) (ps : List Payout) (db db' : Db)
    → pay_all id ps db ≡ ok (tt, db')
    → balance db' u ≡ balance db u +ℤ paid_to u ps
pay_all-balance id u [] db db' e =
    let same : db' ≡ db = ground arith in rw same (sym (+ℤ_zero (balance db u)))
pay_all-balance id u (p ∷ ps) db db' e =
    let (_, m, first, rest) =
      >>=-eq-ok (credit_with_key p.user (pos p.amount) (some (bolao_payout id p.user)))
        (λ _ db'. pay_all id ps db') db e in
    let one =
      credit_with_key-balance p.user u (pos p.amount) (some (bolao_payout id p.user)) db m first in
    let more = pay_all-balance id u ps m db' rest in
    added (balance m u) (balance db u) (p.user == u) one more
  where
    added :
        (m db : ℤ) (b : Bool)
        → m ≡ (if b then db +ℤ pos p.amount else db)
        → balance db' u ≡ m +ℤ paid_to u ps
        → balance db' u ≡ db +ℤ (if b then pos p.amount +ℤ paid_to u ps else paid_to u ps)
    added n d true one more = more ∙ rw one (+ℤ_assoc d (pos p.amount) (paid_to u ps))
    added n d false one more = more ∙ rw one refl

mark_settled-ok :
    (at : ℕ) (totals : Pool) (paid : List Payout) (db : Db) (o : Option ℕ) (s t : Till)
    → mark_settled at totals paid db o s ≡ ok (tt, t)
    → (o ≡ none)
      × (t.db ≡ db)
      × (t.row.settled_at ≡ some at)
      × (t.row.prize_pool ≡ totals.prize_pool)
mark_settled-ok at totals paid db none s t h = (refl, ground arith, ground arith, ground arith)
mark_settled-ok at totals paid db (some x) s t h = cc

after_payment-ok :
    (at : ℕ) (totals : Pool) (paid : List Payout) (s t : Till) (x : Result (Unit {0} × Db))
    → after_payment at totals paid s x ≡ ok (tt, t)
    → (s.row.settled_at ≡ none)
      × (x ≡ ok (tt, t.db))
      × (t.row.settled_at ≡ some at)
      × (t.row.prize_pool ≡ totals.prize_pool)
after_payment-ok at totals paid s t (err e) h = cc
after_payment-ok at totals paid s t (ok (_, db)) h =
    let (unsettled, same, settled, pool) =
      mark_settled-ok at totals paid db s.row.settled_at s t h in
    (unsettled, ap (λ d. ok (tt, d)) (sym same), settled, pool)

-- The run of a settlement that went through
with_distribution-ok :
    (W : Type 0) ⦃number : Number W⦄ (r : SettlementRanking) (rows : List PrizeRow)
    (subscriptions : ℕ → Option Subscription) (at : ℕ) (x : Result (List PrizeItem)) (s t : Till)
    → with_distribution W r rows subscriptions at x s ≡ ok (tt, t)
    → (items : List PrizeItem) × (x ≡ ok items)
      × (s.row.settled_at ≡ none)
      × (pay_all r.id (eligible_payouts W r items rows subscriptions at) s.db ≡ ok (tt, t.db))
      × (t.row.settled_at ≡ some at)
      × (t.row.prize_pool ≡ (totals_of r).prize_pool)
with_distribution-ok W r rows subscriptions at (err e) s t h = cc
with_distribution-ok W r rows subscriptions at (ok items) s t h =
    let paid = eligible_payouts W r items rows subscriptions at in
    let (unsettled, pay, settled, pool) =
      after_payment-ok at (totals_of r) paid s t (pay_all r.id paid s.db) h in
    (items, refl, unsettled, pay, settled, pool)

-- What a settlement pays: every wallet grows by exactly what the payouts that were found eligible
-- give its user, and the row is marked as settled with the pool that they were computed from.
pub settlement_pays_the_payouts :
    (W : Type 0) ⦃number : Number W⦄ (r : SettlementRanking) (rows : List PrizeRow)
    (subscriptions : ℕ → Option Subscription) (at u : ℕ) (s t : Till)
    → r.settled_at ≡ none
    → settle_bolao W r rows subscriptions at s ≡ ok (tt, t)
    → (items : List PrizeItem) × (distribution_of r ≡ ok items)
      × (balance t.db u
          ≡ balance s.db u +ℤ paid_to u (eligible_payouts W r items rows subscriptions at))
      × (t.row.settled_at ≡ some at)
      × (t.row.prize_pool ≡ (totals_of r).prize_pool)
unfolding settle_bolao
settlement_pays_the_payouts W r rows subscriptions at u s t fresh h =
    let run : with_distribution W r rows subscriptions at (distribution_of r) s ≡ ok (tt, t) =
      subst (λ o. if_unsettled W r rows subscriptions at o s ≡ ok (tt, t)) fresh h in
    let (items, valid, _, pay, settled, pool) =
      with_distribution-ok W r rows subscriptions at (distribution_of r) s t run in
    (items, valid, pay_all-balance r.id u _ s.db t.db pay, settled, pool)

-- On a row that is settled every run leaves the tables as they are.
settled_stays :
    (W : Type 0) ⦃number : Number W⦄ (r : SettlementRanking) (rows : List PrizeRow)
    (subscriptions : ℕ → Option Subscription) (at : ℕ) (o : Option ℕ) (s : Till) {x : ℕ}
    → s.row.settled_at ≡ some x
    → committed s (if_unsettled W r rows subscriptions at o s) ≡ s
settled_stays W r rows subscriptions at (some t) s h = refl
settled_stays W r rows subscriptions at none s h =
    elim (Result-cases (with_distribution W r rows subscriptions at (distribution_of r) s)) [
      | inl (_, e) ↦ rw e refl
      | inr (_, t, e) ↦
          let (_, _, unsettled, _, _, _) =
            with_distribution-ok W r rows subscriptions at (distribution_of r) s t e in
          absurd (ground arith)
    ]

-- A Mesa is settled at most once: after a settlement every further run, also one that has read the
-- Mesa before and believes it unsettled, with whatever rows and subscriptions, leaves all tables as
-- they are.
pub settled_once :
    (W : Type 0) ⦃number : Number W⦄ (r : SettlementRanking) (rows : List PrizeRow)
    (subscriptions : ℕ → Option Subscription) (at : ℕ) (s t : Till)
    → r.settled_at ≡ none
    → settle_bolao W r rows subscriptions at s ≡ ok (tt, t)
    → (stale : SettlementRanking) (rows' : List PrizeRow) (subscriptions' : ℕ → Option Subscription)
      (later : ℕ) (now : Till)
    → now.row.settled_at ≡ t.row.settled_at
    → committed now (settle_bolao W stale rows' subscriptions' later now) ≡ now
unfolding settle_bolao
settled_once W r rows subscriptions at s t fresh h stale rows' subscriptions' later now same =
    let (_, _, _, settled, _) =
      settlement_pays_the_payouts W r rows subscriptions at 0 s t fresh h in
    settled_stays W stale rows' subscriptions' later stale.settled_at now (same ∙ settled)

only_eligible-total_paid :
    (subscriptions : ℕ → Option Subscription) (at : ℕ) (ps : List Payout)
    → total_paid (only_eligible subscriptions at ps) ≤ total_paid ps
only_eligible-total_paid subscriptions at [] = omega arith
only_eligible-total_paid subscriptions at (p ∷ ps) =
    let ih = only_eligible-total_paid subscriptions at ps in
    elim (Bool-cases (has_active_pro_subscription_at (subscriptions p.user) at)) [
      | inl e ↦ rw e (omega arith)
      | inr e ↦ rw e (omega arith)
    ]

eligible-within :
    (subscriptions : ℕ → Option Subscription) (at : ℕ) (sponsored : Bool) (ps : List Payout)
    (pool : ℕ)
    → total_paid ps ≤ pool
    → total_paid (if sponsored then only_eligible subscriptions at ps else ps) ≤ pool
eligible-within subscriptions at true ps pool h =
    omega (arith, only_eligible-total_paid subscriptions at ps)
eligible-within subscriptions at false ps pool h = h

payouts-within :
    (W : Type 0) ⦃number : Number W⦄ (pool : ℕ) (items : List PrizeItem) (rows : List PrizeRow)
    → allotted (allocated pool (weighted_of {W = W} items rows)) ≤ pool
    → total_paid (calculate_payouts W pool items rows) ≤ pool
payouts-within W pool items rows h = go (calculate_payouts W pool items rows) refl
  where
    go : (ps : List Payout) → calculate_payouts W pool items rows ≡ ps → total_paid ps ≤ pool
    go [] e = omega arith
    go (p ∷ ps) e = rw (payouts_pay_the_pool W pool items rows h e) (omega arith)

-- A settlement never pays more than the pool of the Mesa, if the shares rounded down do not exceed
-- it: what users without a subscription would get is withheld, and given to nobody.
pub settlement_within_the_pool :
    (W : Type 0) ⦃number : Number W⦄ (r : SettlementRanking) (items : List PrizeItem)
    (rows : List PrizeRow) (subscriptions : ℕ → Option Subscription) (at : ℕ)
    → allotted (allocated (totals_of r).prize_pool (weighted_of {W = W} items rows))
      ≤ (totals_of r).prize_pool
    → total_paid (eligible_payouts W r items rows subscriptions at) ≤ (totals_of r).prize_pool
settlement_within_the_pool W r items rows subscriptions at h =
    eligible-within subscriptions at (is_sponsored_mesa r) _ (totals_of r).prize_pool
      (payouts-within W (totals_of r).prize_pool items rows h)
