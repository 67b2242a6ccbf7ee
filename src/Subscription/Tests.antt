-- ===== src/Subscription/Tests.antt =====
-- A user whose PRO subscription is bought, renewed and cancelled.
use boteco12_api.Prelude.{◌≡◌, ◌<◌, refl, false, none, some, [], arith}
use boteco12_api.Db.{put}
use boteco12_api.Benefit.Config.{active, expired, cancelled, monthly, annual}
use boteco12_api.Subscription.{SubscriptionRow, Subscriptions, renew}
use boteco12_api.Subscription.Calendar.{UtcDate, get_time, add_validity_months, month_length}
use boteco12_api.Subscription.Provider.{MpSubscription, authorized}
use boteco12_api.Subscription.Renewal.{renew_extends}

abbrev new_year : UtcDate
new_year = record { year = 2026; month = 0; day = 31; time = 5 }

abbrev summer : UtcDate
summer = record { year = 2026; month = 6; day = 31; time = 7 }

-- The last day of January and one month is the last day of February.
one_month_later : (add_validity_months new_year 1).day ≡ 28
unfolding add_validity_months
one_month_later = refl

abbrev monthly_row : SubscriptionRow
monthly_row = record {
  plan = monthly;
  status = active;
  start_at = new_year;
  end_at = some summer;
  from_mercado_pago = false;
  external_id = none;
  package_id = none;
}

abbrev one_subscriber : Subscriptions
one_subscriber = record { rows = put 1 (some monthly_row) (λ _. none); events = [] }

abbrev lapsed : Subscriptions
lapsed = record {
  rows = put 1 (some (record monthly_row { status = expired; end_at = none })) (λ _. none);
  events = [];
}

abbrev revived : Subscriptions
revived = record {
  rows = put 1 (some (record monthly_row { status = cancelled; end_at = none })) lapsed.rows;
  events = [];
}

renew_extends_example :
    (r' : SubscriptionRow) × (d' : UtcDate) × ((renew new_year 1 annual 4 12 one_subscriber).rows 1
      ≡ some r')
    × (r'.end_at ≡ some d')
    × (get_time summer < get_time d')
    × (get_time new_year < get_time d')
unfolding month_length
renew_extends_example =
    renew_extends new_year 1 annual 4 12 one_subscriber {r = monthly_row} {d = summer} refl refl
      (ground arith, ground arith, ground arith, ground arith)
      (ground arith, ground arith, ground arith, ground arith) (omega arith)

abbrev answer_of_mp : MpSubscription
answer_of_mp = record {
  id = 9;
  status = authorized;
  is_annual_plan = false;
  external_reference = some 2;
  start_date = new_year;
  end_date = some summer;
}
