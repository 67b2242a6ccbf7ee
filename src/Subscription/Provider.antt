-- ===== src/Subscription/Provider.antt =====
-- src/services/subscription/process-mp-subscription-created, -updated and -cancelled.service.ts and
-- revalidate-active-subscriptions.service.ts: what the provider says of a subscription.
use boteco12_api.Prelude.{
  ℕ, Bool, true, false, not, ◌&&◌, Option, none, some, List, [], ◌∷◌, ◌==◌, leb, if◌then◌else◌,
}
use boteco12_api.Errors.{Result, ok, err, database, record_not_found, failure, provider_failed}
use boteco12_api.Benefit.Config.{SubscriptionStatus, active, expired, cancelled, monthly, annual}
use boteco12_api.Subscription.{SubscriptionRow, Subscriptions, put_row}
use boteco12_api.Subscription.Calendar.{UtcDate, get_time}

-- What `getSubscription` of the provider answers.
pub data MpStatus : Type 0 where
  authorized paused mp_cancelled mp_expired other_status : MpStatus

pub record MpSubscription : Type 0 where
  pub id : ℕ
  pub status : MpStatus
  pub is_annual_plan : Bool
  pub external_reference : Option ℕ
  pub start_date : UtcDate
  pub end_date : Option UtcDate

abbrev pub map_status : MpStatus → SubscriptionStatus
map_status authorized = active
map_status paused = active
map_status mp_cancelled = cancelled
map_status mp_expired = expired
map_status other_status = expired

abbrev pub or_date : Option UtcDate → UtcDate → UtcDate
or_date none now = now
or_date (some d) now = d

abbrev pub is_stored : ℕ → List ℕ → Bool
is_stored e [] = false
is_stored e (x ∷ xs) = if x == e then true else is_stored e xs

-- The three handlers run outside of a transaction: what was written before a throw stays.
abbrev pub Handler : Type 0
Handler = Subscriptions → Result (Unit {0}) × Subscriptions

pub data MpEvent : Type 0 where
  subscription_created subscription_updated subscription_ended : MpEvent

-- `subscription.update` of a user: a missing row throws.
abbrev pub update_row : ℕ → (SubscriptionRow → SubscriptionRow) → Option SubscriptionRow → Handler
update_row u f none s = (err (database record_not_found), s)
update_row u f (some r) s = (ok tt, put_row u (f r) s)

abbrev pub package_id_of : Option SubscriptionRow → Option ℕ
package_id_of none = none
package_id_of (some r) = r.package_id

abbrev pub created_row : MpSubscription → Option SubscriptionRow → SubscriptionRow
created_row m old = record {
  plan = if m.is_annual_plan then annual else monthly;
  status = active;
  start_at = m.start_date;
  end_at = m.end_date;
  from_mercado_pago = true;
  external_id = some m.id;
  package_id = package_id_of old;
}

-- The last step of each handler, for a known user.
abbrev pub apply_event : MpEvent → UtcDate → MpSubscription → ℕ → Handler
apply_event subscription_created now m u s = (ok tt, put_row u (created_row m (s.rows u)) s)
apply_event subscription_updated now m u s =
    update_row u
      (λ r. record r { status = map_status m.status; start_at = m.start_date; end_at = m.end_date })
      (s.rows u) s
apply_event subscription_ended now m u s =
    update_row u (λ r. record r { status = cancelled; end_at = some (or_date m.end_date now) })
      (s.rows u) s

abbrev pub for_user : MpEvent → UtcDate → MpSubscription → Option ℕ → Handler
for_user kind now m none s = (ok tt, s)
for_user kind now m (some u) s = apply_event kind now m u s

-- From the call of the provider on; `none` where it throws.
abbrev pub fetched : MpEvent → UtcDate → ℕ → Option MpSubscription → Handler
fetched kind now e none s = (err (failure provider_failed), s)
fetched kind now e (some m) s =
    for_user kind now m m.external_reference (record s { events = e ∷ s.events })

-- The two ids of the event, with `none` for one that is missing.
abbrev pub with_ids :
    Bool → (ℕ → Option MpSubscription) → MpEvent → UtcDate → Option ℕ → Option ℕ → Handler
with_ids token fetch kind now (some e) (some id) s =
    if is_stored e s.events
    then (ok tt, s)
    else if not token
    then (ok tt, s)
    else fetched kind now e (fetch id) s
with_ids token fetch kind now _ _ s = (ok tt, s)

-- `ProcessMpSubscriptionCreatedService`, `…UpdatedService` and `…CancelledService`, with whether
-- there is an access token.
unfoldable pub process_event :
    Bool → (ℕ → Option MpSubscription) → MpEvent → UtcDate → Option ℕ → Option ℕ → Handler
process_event token fetch kind now event id s = with_ids token fetch kind now event id s

abbrev pub is_active_status : SubscriptionStatus → Bool
is_active_status active = true
is_active_status _ = false

abbrev pub has_no_id : Option ℕ → Bool
has_no_id none = true
has_no_id (some _) = false

abbrev pub is_over : ℕ → Option UtcDate → Bool
is_over now none = false
is_over now (some d) = leb (get_time d) now

-- The first statement of `RevalidateActiveSubscriptionsService.execute`, at one row.
abbrev pub expire_row : ℕ → Option SubscriptionRow → Option SubscriptionRow
expire_row now none = none
expire_row now (some r) =
    if is_active_status r.status && (is_over now r.end_at && has_no_id r.external_id)
    then some (record r { status = expired })
    else some r

abbrev pub status_eq : SubscriptionStatus → SubscriptionStatus → Bool
status_eq active active = true
status_eq expired expired = true
status_eq cancelled cancelled = true
status_eq _ _ = false

abbrev pub end_or : Option UtcDate → Option UtcDate → Option UtcDate
end_or none old = old
end_or (some d) old = some d

-- The loop of the job, at one row that it has found; an error of the provider leaves the row.
abbrev pub synced : Option MpSubscription → SubscriptionRow → SubscriptionRow
synced none r = r
synced (some m) r =
    if status_eq (map_status m.status) r.status
    then r
    else record r { status = map_status m.status; end_at = end_or m.end_date r.end_at }

abbrev pub sync_found : (ℕ → Option MpSubscription) → SubscriptionRow → Option ℕ → SubscriptionRow
sync_found fetch r none = r
sync_found fetch r (some id) =
    if r.from_mercado_pago && is_active_status r.status then synced (fetch id) r else r

abbrev pub sync_row : (ℕ → Option MpSubscription) → Option SubscriptionRow → Option SubscriptionRow
sync_row fetch none = none
sync_row fetch (some r) = some (sync_found fetch r r.external_id)

-- `RevalidateActiveSubscriptionsService.execute` at the time `now`
unfoldable pub revalidate : Bool → (ℕ → Option MpSubscription) → ℕ → Subscriptions → Subscriptions
revalidate token fetch now s = record s {
  rows =
      λ u. if token then sync_row fetch (expire_row now (s.rows u)) else expire_row now (s.rows u);
}
