-- ===== src/Subscription.antt =====
-- src/services/subscription: the PRO subscription of a user, as the webhooks of Mercado Pago, a
-- payment, a cancellation and the daily job change it. What Mercado Pago answers is an argument.
pub mod Calendar
pub mod Provider
pub mod Renewal
pub mod Events
mod Tests
use boteco12_api.Prelude.{
  ℕ, Bool, true, false, not, ◌&&◌, Option, none, some, List, [], ◌∷◌, ◌==◌, ltb, leb, if◌then◌else◌,
}
use boteco12_api.Errors.{
  Result, ok, err, not_found, forbidden, conflict, database, record_not_found, failure,
  provider_failed, subscription_not_found, subscription_already_cancelled, user_not_found,
  pro_subscription_required,
}
use boteco12_api.Transaction.{Tx}
use boteco12_api.Db.{put}
use boteco12_api.Benefit.Config.{
  Subscription, SubscriptionStatus, active, expired, cancelled, Plan, monthly, annual,
  has_active_pro_subscription_at,
}
use boteco12_api.Subscription.Calendar.{UtcDate, add_validity_months, get_time}

-- A row of `subscriptions`, by the user. The only provider of rows is Mercado Pago, or none.
pub record SubscriptionRow : Type 0 where
  pub plan : Plan
  pub status : SubscriptionStatus
  pub start_at : UtcDate
  pub end_at : Option UtcDate
  pub from_mercado_pago : Bool
  pub external_id : Option ℕ
  pub package_id : Option ℕ

-- The rows, and the events of the provider that have been stored.
pub record Subscriptions : Type 0 where
  pub rows : ℕ → Option SubscriptionRow
  pub events : List ℕ

abbrev pub time_of : Option UtcDate → Option ℕ
time_of none = none
time_of (some d) = some (get_time d)

-- What the rules on subscriptions read of a row.
abbrev pub as_subscription : Option SubscriptionRow → Option Subscription
as_subscription none = none
as_subscription (some r) = some (record {
  status = r.status;
  plan = some r.plan;
  start_at = some (get_time r.start_at);
  end_at = time_of r.end_at;
})

abbrev pub put_row : ℕ → SubscriptionRow → Subscriptions → Subscriptions
put_row u r s = record s { rows = put u (some r) s.rows }

-- `!!subscription?.endAt && subscription.endAt > now`, with the date
abbrev pub running_until : UtcDate → Option UtcDate → Option UtcDate
running_until now none = none
running_until now (some d) = if ltb (get_time now) (get_time d) then some d else none

abbrev pub base_of : UtcDate → Option UtcDate → UtcDate
base_of now none = now
base_of now (some d) = d

abbrev pub start_of : UtcDate → UtcDate → Option UtcDate → UtcDate
start_of now old none = now
start_of now old (some d) = old

abbrev pub renewed : UtcDate → Plan → ℕ → ℕ → Option SubscriptionRow → SubscriptionRow
renewed now plan pkg months none = record {
  plan = plan;
  status = active;
  start_at = now;
  end_at = some (add_validity_months now months);
  from_mercado_pago = true;
  external_id = none;
  package_id = some pkg;
}
renewed now plan pkg months (some r) = record r {
  plan = plan;
  status = active;
  start_at = start_of now r.start_at (running_until now r.end_at);
  end_at = some (add_validity_months (base_of now (running_until now r.end_at)) months);
  from_mercado_pago = true;
  package_id = some pkg;
}

-- `RenewSubscriptionFromPaymentService.execute` at the time `now`
unfoldable pub renew : UtcDate → ℕ → Plan → ℕ → ℕ → Subscriptions → Subscriptions
renew now u plan pkg months s = put_row u (renewed now plan pkg months (s.rows u)) s

abbrev pub is_cancelled : SubscriptionStatus → Bool
is_cancelled cancelled = true
is_cancelled _ = false

abbrev pub cancel_found : ℕ → Option SubscriptionRow → Tx Subscriptions (Unit {0})
cancel_found u none s = err (not_found subscription_not_found)
cancel_found u (some r) s =
    if is_cancelled r.status
    then err (conflict subscription_already_cancelled)
    else ok (tt, put_row u (record r { status = cancelled }) s)

-- `CancelSubscriptionService.execute`; an error of the provider is only logged.
unfoldable pub cancel_subscription : ℕ → Tx Subscriptions (Unit {0})
cancel_subscription u s = cancel_found u (s.rows u) s

abbrev pub is_running : Option SubscriptionRow → ℕ → Bool
is_running o now = has_active_pro_subscription_at (as_subscription o) now

-- `AssertActiveProUserService.execute`, of a user that exists or not
unfoldable pub assert_active_pro_user : Bool → Option SubscriptionRow → ℕ → Result (Unit {0})
assert_active_pro_user exists row now =
    if not exists
    then err (not_found user_not_found)
    else if has_active_pro_subscription_at (as_subscription row) now
    then ok tt
    else err (forbidden pro_subscription_required)
