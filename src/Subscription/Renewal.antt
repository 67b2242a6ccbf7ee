-- ===== src/Subscription/Renewal.antt =====
-- What a renewal and a cancellation do to the access of a user (renew-subscription-from-payment,
-- cancel-subscription.service.ts, domain/subscription.ts).
use boteco12_api.Prelude.{
  ℕ, ◌≡◌, ◌≤◌, ◌<◌, refl, true, false, Option, none, some, ◌==◌, ltb, arith, Bool-cases, inl, inr,
}
use boteco12_api.Errors.{ok}
use boteco12_api.Benefit.Config.{
  Subscription, active, expired, Plan, has_active_pro_subscription_at,
}
use boteco12_api.Subscription.{
  SubscriptionRow, Subscriptions, renew, renewed, running_until, base_of, start_of,
  cancel_subscription, is_running,
}
use boteco12_api.Subscription.Calendar.{
  UtcDate, IsDate, get_time, add_validity_months, add_validity_months-later,
}

-- The row has begun by this time, and its end, if it has one, is a date.
abbrev pub HasBegun : UtcDate → Option SubscriptionRow → Type 0
HasBegun now none = Unit
HasBegun now (some r) = get_time r.start_at ≤ get_time now

abbrev pub HasDates : Option UtcDate → Type 0
HasDates none = Unit
HasDates (some d) = IsDate d

abbrev pub end_of : Option SubscriptionRow → Option UtcDate
end_of none = none
end_of (some r) = r.end_at

base_of-IsDate :
    (now : UtcDate) (o : Option UtcDate)
    → IsDate now
    → HasDates o
    → IsDate (base_of now (running_until now o))
base_of-IsDate now none n h = n
base_of-IsDate now (some d) n h = elim (Bool-cases (ltb (get_time now) (get_time d))) [
  | inl e ↦ rw e h
  | inr e ↦ rw e n
]

base_of_later :
    (now : UtcDate) (o : Option UtcDate)
    → get_time now ≤ get_time (base_of now (running_until now o))
base_of_later now none = omega arith
base_of_later now (some d) = elim (Bool-cases (ltb (get_time now) (get_time d))) [
  | inl e ↦ rw e (ground arith)
  | inr e ↦ rw e (omega arith)
]

start_of_begun :
    (now old : UtcDate) (o : Option UtcDate)
    → get_time old ≤ get_time now
    → get_time (start_of now old o) ≤ get_time now
start_of_begun now old none h = omega arith
start_of_begun now old (some d) h = h

-- A row that is active, has begun and ends later is running.
runs :
    (s : Subscription) (d now b : ℕ)
    → s.status ≡ active
    → s.start_at ≡ some b
    → s.end_at ≡ some d
    → b ≤ now
    → now < d
    → has_active_pro_subscription_at (some s) now ≡ true
unfolding has_active_pro_subscription_at
runs s d now b e f g h k = ground arith

renewed-is_running :
    (now : UtcDate) (plan : Plan) (pkg months : ℕ) (o : Option SubscriptionRow)
    → IsDate now
    → HasDates (end_of o)
    → HasBegun now o
    → 1 ≤ months
    → is_running (some (renewed now plan pkg months o)) (get_time now) ≡ true
renewed-is_running now plan pkg months none n h b m =
    runs _ _ (get_time now) (get_time now) refl refl refl (omega arith)
      (add_validity_months-later now months n m)
renewed-is_running now plan pkg months (some r) n h b m =
    let base = base_of now (running_until now r.end_at) in
    let later = add_validity_months-later base months (base_of-IsDate now r.end_at n h) m in
    let begun = start_of_begun now r.start_at (running_until now r.end_at) b in
    let past = base_of_later now r.end_at in
    runs _ (get_time (add_validity_months base months)) (get_time now) _ refl refl refl begun
      (omega arith)

-- A payment for at least one month leaves the user with a PRO subscription that is active now,
-- whatever the row was before, if it had begun.
pub renew-is_running :
    (now : UtcDate) (u : ℕ) (plan : Plan) (pkg months : ℕ) (s : Subscriptions)
    → IsDate now
    → HasDates (end_of (s.rows u))
    → HasBegun now (s.rows u)
    → 1 ≤ months
    → is_running ((renew now u plan pkg months s).rows u) (get_time now) ≡ true
unfolding renew
renew-is_running now u plan pkg months s n h b m =
    let same : (u == u) ≡ true = ground arith in
    rw same (renewed-is_running now plan pkg months (s.rows u) n h b m)

-- A renewal of a subscription with an end never takes days away: the new end is later than the old
-- one and later than now.
pub renew_extends :
    (now : UtcDate) (u : ℕ) (plan : Plan) (pkg months : ℕ) (s : Subscriptions) {r : SubscriptionRow}
    {d : UtcDate}
    → s.rows u ≡ some r
    → r.end_at ≡ some d
    → IsDate now
    → IsDate d
    → 1 ≤ months
    → (r' : SubscriptionRow) × (d' : UtcDate) × ((renew now u plan pkg months s).rows u ≡ some r')
      × (r'.end_at ≡ some d')
      × (get_time d < get_time d')
      × (get_time now < get_time d')
unfolding renew
renew_extends now u plan pkg months s {r} {d} e f n h m =
    let base = base_of now (running_until now r.end_at) in
    let past = base_of_later now r.end_at in
    let dated : IsDate base = base_of-IsDate now r.end_at n (rw f h) in
    let later = add_validity_months-later base months dated m in
    let kept : get_time d ≤ get_time base = rw f (old-le now d) in
    (
      renewed now plan pkg months (some r),
      add_validity_months base months,
      rw e (ground arith),
      refl,
      omega arith,
      omega arith,
    )
  where
    old-le : (now d : UtcDate) → get_time d ≤ get_time (base_of now (running_until now (some d)))
    old-le now d = elim (Bool-cases (ltb (get_time now) (get_time d))) [
      | inl q ↦ rw q (omega arith)
      | inr q ↦ rw q (ground arith)
    ]

-- Cancelling an ACTIVE subscription changes nothing about its access, now or later: it lasts until
-- its end.
pub cancel_keeps_access :
    (u : ℕ) (s t : Subscriptions) (at : ℕ) {r : SubscriptionRow}
    → s.rows u ≡ some r
    → r.status ≡ active
    → cancel_subscription u s ≡ ok (tt, t)
    → is_running (t.rows u) at ≡ is_running (s.rows u) at
unfolding cancel_subscription has_active_pro_subscription_at
cancel_keeps_access u s t at {r} e a h = ground arith

-- Cancelling an EXPIRED subscription gives the access back: one that was refused because of its
-- status alone runs again once it is CANCELLED.
pub cancel_revives_expired :
    (u : ℕ) (s t : Subscriptions) (at : ℕ) {r : SubscriptionRow}
    → s.rows u ≡ some r
    → r.status ≡ expired
    → get_time r.start_at ≤ at
    → r.end_at ≡ none
    → cancel_subscription u s ≡ ok (tt, t)
    → (is_running (s.rows u) at ≡ false) × (is_running (t.rows u) at ≡ true)
unfolding cancel_subscription has_active_pro_subscription_at
cancel_revives_expired u s t at {r} e a b f h = ground arith
