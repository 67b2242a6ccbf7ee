-- ===== src/Subscription/Events.antt =====
-- How often an event of the provider acts (process-mp-subscription-*.service.ts), and what the daily
-- job leaves (revalidate-active-subscriptions.service.ts).
use boteco12_api.Prelude.{ℕ, ◌≡◌, refl, ap, Bool, true, false, Option, none, some, arith}
use boteco12_api.Errors.{ok}
use boteco12_api.Benefit.Config.{active}
use boteco12_api.Subscription.{SubscriptionRow, Subscriptions}
use boteco12_api.Subscription.Calendar.{UtcDate}
use boteco12_api.Subscription.Provider.{
  MpSubscription, MpEvent, subscription_created, subscription_updated, subscription_ended,
  is_stored, process_event, is_over, expire_row, revalidate, sync_row, synced, sync_found,
}

-- An event that is stored does nothing more, whatever its kind and whatever the provider says now.
pub stored_event_is_ignored :
    (token : Bool) (fetch : ℕ → Option MpSubscription) (kind : MpEvent) (now : UtcDate) (e : ℕ)
    (id : Option ℕ) (s : Subscriptions)
    → is_stored e s.events ≡ true
    → process_event token fetch kind now (some e) id s ≡ (ok tt, s)
unfolding process_event
stored_event_is_ignored token fetch kind now e none s h = refl
stored_event_is_ignored token fetch kind now e (some id) s h = rw h

-- The two events that update a row, and so throw where there is none.
abbrev pub is_change : MpEvent → Bool
is_change subscription_created = false
is_change subscription_updated = true
is_change subscription_ended = true

expire_row-ok :
    (now : ℕ) (o : Option SubscriptionRow) {r : SubscriptionRow}
    → expire_row now o ≡ some r
    → r.status ≡ active
    → r.external_id ≡ none
    → is_over now r.end_at ≡ false
expire_row-ok now none e a x = cc
expire_row-ok now (some y) {r} e a x = ground arith

synced-external_id :
    (m : Option MpSubscription) (y : SubscriptionRow) → (synced m y).external_id ≡ y.external_id
synced-external_id none y = refl
synced-external_id (some m) y = ground arith

sync_found-none :
    (fetch : ℕ → Option MpSubscription) (y : SubscriptionRow) (o : Option ℕ) {r : SubscriptionRow}
    → y.external_id ≡ o
    → sync_found fetch y o ≡ r
    → r.external_id ≡ none
    → y ≡ r
sync_found-none fetch y none q e x = e
sync_found-none fetch y (some id) {r} q e x = ground (arith, synced-external_id (fetch id) y)

sync_row-none :
    (fetch : ℕ → Option MpSubscription) (o : Option SubscriptionRow) {r : SubscriptionRow}
    → sync_row fetch o ≡ some r
    → r.external_id ≡ none
    → o ≡ some r
sync_row-none fetch none e x = cc
sync_row-none fetch (some y) e x =
    ap some (sync_found-none fetch y y.external_id refl (ground arith) x)

-- The job leaves no subscription of a fixed term ACTIVE past its end.
pub revalidate_expires :
    (token : Bool) (fetch : ℕ → Option MpSubscription) (now u : ℕ) (s : Subscriptions)
    {r : SubscriptionRow}
    → (revalidate token fetch now s).rows u ≡ some r
    → r.status ≡ active
    → r.external_id ≡ none
    → is_over now r.end_at ≡ false
unfolding revalidate
revalidate_expires true fetch now u s {r} e a x =
    expire_row-ok now (s.rows u) (sync_row-none fetch (expire_row now (s.rows u)) e x) a x
revalidate_expires false fetch now u s {r} e a x = expire_row-ok now (s.rows u) e a x
