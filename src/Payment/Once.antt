-- ===== src/Payment/Once.antt =====
-- That an event of the provider acts once (process-mercado-pago-webhook.service.ts), and that what it
-- must not change stays.
use boteco12_api.Prelude.{
  ℕ, ◌≡◌, refl, ◌==◌, ==_iff, false, ◌||◌, ◌&&◌, ◌∙◌, true, not, Option, none, some, arith,
  Bool-cases, inl, inr,
}
use boteco12_api.Prelude.Int.{ℤ}
use boteco12_api.Errors.{Result, ok, err}
use boteco12_api.Transaction.{continue, >>=-eq-ok}
use boteco12_api.Db.{Db}
use boteco12_api.Subscription.{renew}
use boteco12_api.Subscription.Provider.{is_stored}
use boteco12_api.Subscription.Calendar.{UtcDate}
use boteco12_api.Benefit.Config.{Plan}
use boteco12_api.Payment.{Purpose, wallet_credit, subscription, Payment, Payments, log_payment}
use boteco12_api.Payment.Webhook.{
  alone, MpPayment, with_db, buy_subscription, deliver, settle, write_payment, approve_row,
  approval, is_processed, is_approved, is_valid_payment, on_payment, on_found, with_event,
  find_payment, process_payment,
}

with_db-events :
    (s t : Payments) (r : Result (ℤ × Db))
    → with_db s r ≡ ok (tt, t)
    → t.subscriptions.events ≡ s.subscriptions.events
with_db-events s t (err e) h = cc
with_db-events s t (ok x) h = ground arith

buy_subscription-events :
    (now : UtcDate) (p : Payment) (o : Option Plan) (s t : Payments)
    → buy_subscription now p o s ≡ ok (tt, t)
    → t.subscriptions.events ≡ s.subscriptions.events
unfolding renew
buy_subscription-events now p none s t h = cc
buy_subscription-events now p (some plan) s t h = ground arith

deliver-events :
    (now : UtcDate) (p : Payment) (k : Purpose) (s t : Payments)
    → deliver now p k s ≡ ok (tt, t)
    → t.subscriptions.events ≡ s.subscriptions.events
deliver-events now p wallet_credit s t h = with_db-events s t _ h
deliver-events now p subscription s t h = buy_subscription-events now p p.subscription_plan s t h

-- The parts of a purchase that went through.
pub settle-ok :
    (now : UtcDate) (external : ℕ) (p : Payment) (s t : Payments)
    → settle now external p s ≡ ok (tt, t)
    → (u v : Payments) × (deliver now p p.purpose s ≡ ok (tt, u))
      × (write_payment p.id external (approve_row now p.purpose) u ≡ ok (tt, v))
      × (t ≡ log_payment (approval p) v)
settle-ok now external p s t h =
    let (_, u, first, rest) =
      >>=-eq-ok (deliver now p p.purpose)
        (λ _ w.
          continue (write_payment p.id external (approve_row now p.purpose) w)
            (λ _ v. ok (tt, log_payment (approval p) v)))
        s h in
    let (_, v, second, last) =
      >>=-eq-ok (write_payment p.id external (approve_row now p.purpose))
        (λ _ v. ok (tt, log_payment (approval p) v)) u rest in
    (u, v, first, second, ground arith)

write_payment-events :
    (id external : ℕ) (f : Payment → Payment) (s t : Payments)
    → write_payment id external f s ≡ ok (tt, t)
    → t.subscriptions.events ≡ s.subscriptions.events
write_payment-events id external f s t h = ground arith

settle-events :
    (now : UtcDate) (external : ℕ) (p : Payment) (s t : Payments)
    → settle now external p s ≡ ok (tt, t)
    → t.subscriptions.events ≡ s.subscriptions.events
settle-events now external p s t h =
    let (u, v, first, second, last) = settle-ok now external p s t h in
    let kept = write_payment-events p.id external (approve_row now p.purpose) u v second in
    rw last (kept ∙ deliver-events now p p.purpose s u first)

on_payment-events :
    (now : UtcDate) (external : ℕ) (m : MpPayment) (p : Payment) (s t : Payments)
    → on_payment now external m p s ≡ ok (tt, t)
    → t.subscriptions.events ≡ s.subscriptions.events
on_payment-events now external m p s t h = elim (Bool-cases (is_processed p.processed_at)) [
  | inl a ↦ ground arith
  | inr a ↦ elim (Bool-cases (is_approved m.status)) [
    | inr b ↦ ground arith
    | inl b ↦ elim (Bool-cases (is_valid_payment p m)) [
      | inr c ↦ ground arith
      | inl c ↦ settle-events now external p s t (rw (a, b, c) at h)
    ]
  ]
]

on_found-events :
    (now : UtcDate) (event external : ℕ) (m : MpPayment) (o : Option Payment) (s t : Payments)
    → on_found now event external m o s ≡ ok (tt, t)
    → t.subscriptions.events ≡ s.subscriptions.events
on_found-events now event external m none s t h = ground arith
on_found-events now event external m (some p) s t h = on_payment-events now external m p s t h

-- The transaction of an event leaves it stored, and keeps the events that are stored.
pub process_payment-stored :
    (now : UtcDate) (event external : ℕ) (m : MpPayment) (s t : Payments)
    → process_payment alone now event external m s ≡ ok (tt, t)
    → (e : ℕ) → (e == event) || is_stored e s.subscriptions.events ≡ true
    → is_stored e t.subscriptions.events ≡ true
unfolding process_payment
process_payment-stored now event external m s t h e k =
    elim (Bool-cases (is_stored event s.subscriptions.events)) [
      | inl a ↦ elim (Bool-cases (e == event)) [
        | inl q ↦
            let same = (==_iff e event).0 q in let st : t ≡ s = ground arith in rw (st, same) a
        | inr q ↦ ground arith
      ]
      | inr a ↦
          let kept =
            on_found-events now event external m (find_payment m.external_reference s.payments)
              (with_event event s) t (rw a at h) in
          elim (Bool-cases (event == e)) [
            | inl q ↦ rw (kept, q) refl
            | inr q ↦
                let other : (e == event) ≡ false = ground arith in rw (kept, q) (rw other at k)
          ]
    ]

-- A stored event does nothing more.
pub stored_event_does_nothing :
    (now : UtcDate) (event external : ℕ) (m : MpPayment) (s : Payments)
    → is_stored event s.subscriptions.events ≡ true
    → process_payment alone now event external m s ≡ ok (tt, s)
unfolding process_payment
stored_event_does_nothing now event external m s h = rw h refl

-- A payment that was processed is never delivered again: a later event, even an approval, adds an
-- entry to the log and changes neither a wallet, nor a subscription, nor a payment. The same holds
-- for an approval of another amount, in another currency or for another reference.
pub nothing_without_approval :
    (now : UtcDate) (event external : ℕ) (m : MpPayment) (p : Payment) (s t : Payments)
    → is_processed p.processed_at || (is_approved m.status && not (is_valid_payment p m)) ≡ true
    → on_payment now external m p s ≡ ok (tt, t)
    → (t.db ≡ s.db) × (t.subscriptions ≡ s.subscriptions) × (t.payments ≡ s.payments)
nothing_without_approval now event external m p s t c h = ground arith
