-- ===== src/Payment/Again.antt =====
-- An event of the provider over any history of checkouts and webhooks
-- (process-mercado-pago-webhook.service.ts, create-payment.service.ts).
use boteco12_api.Prelude.{
  ℕ, ◌≡◌, refl, ◌||◌, ◌==◌, Bool, true, false, Option, none, some, inl, inr, arith,
}
use boteco12_api.Errors.{Result, ok}
use boteco12_api.Transaction.{committed, Result-cases}
use boteco12_api.Subscription.Provider.{is_stored}
use boteco12_api.Subscription.Calendar.{UtcDate}
use boteco12_api.Payment.{
  Payments, PaymentPackage, Preference, Method, with_preference, create_payment,
}
use boteco12_api.Payment.Webhook.{
  alone, MpPayment, with_event_ids, with_answer, process_payment, process_webhook,
}
use boteco12_api.Payment.Once.{process_payment-stored, stored_event_does_nothing}
use boteco12_api.Payment.History.{Step, webhook, checkout, Reach, here, next}

abbrev IsKnown : ℕ → Payments → Type 0
IsKnown e s = is_stored e s.subscriptions.events ≡ true

or_right : (a b : Bool) → b ≡ true → a || b ≡ true
or_right a b h = ground arith

with_answer-IsKnown :
    (e : ℕ) (now : UtcDate) (event external : ℕ) (o : Option MpPayment) (s t : Payments)
    → with_answer alone now event external o s ≡ ok (tt, t)
    → IsKnown e s
    → IsKnown e t
with_answer-IsKnown e now event external none s t h k = cc
with_answer-IsKnown e now event external (some m) s t h k =
    process_payment-stored now event external m s t h e (or_right (e == event) _ k)

same-IsKnown :
    (e : ℕ) (s t : Payments)
    → ◌≡◌ {A = Result (Unit {0} × Payments)} (ok (tt, s)) (ok (tt, t))
    → IsKnown e s
    → IsKnown e t
same-IsKnown e s t h k = let same : t ≡ s = ground arith in rw same k

with_event_ids-IsKnown :
    (e : ℕ) (token : Bool) (fetch : ℕ → Option MpPayment) (now : UtcDate)
    (event external : Option ℕ) (s t : Payments)
    → with_event_ids alone token fetch now event external s ≡ ok (tt, t)
    → IsKnown e s
    → IsKnown e t
with_event_ids-IsKnown e token fetch now none external s t h k = same-IsKnown e s t h k
with_event_ids-IsKnown e token fetch now (some event) none s t h k = same-IsKnown e s t h k
with_event_ids-IsKnown e false fetch now (some event) (some external) s t h k = cc
with_event_ids-IsKnown e true fetch now (some event) (some external) s t h k =
    with_answer-IsKnown e now event external (fetch external) s t h k

webhook-IsKnown :
    (e : ℕ) (token : Bool) (fetch : ℕ → Option MpPayment) (now : UtcDate)
    (event external : Option ℕ) (s : Payments)
    → IsKnown e s
    → IsKnown e (committed s (process_webhook alone token fetch now event external s))
unfolding process_webhook
webhook-IsKnown e token fetch now event external s k =
    elim (Result-cases (with_event_ids alone token fetch now event external s)) [
      | inl (_, h) ↦ rw h k
      | inr (_, t, h) ↦ rw h (with_event_ids-IsKnown e token fetch now event external s t h k)
    ]

with_preference-events :
    (id : ℕ) (answer : Option Preference) (s : Payments)
    → (with_preference id answer s).1.subscriptions.events ≡ s.subscriptions.events
with_preference-events id none s = refl
with_preference-events id (some q) s = ground arith

create_payment-events :
    (token : Bool) (id u : ℕ) (user_exists : Bool) (method : Method) (pkg : Option PaymentPackage)
    (answer : Option Preference) (s : Payments)
    → (create_payment token id u user_exists method pkg answer s).1.subscriptions.events
      ≡ s.subscriptions.events
unfolding create_payment
create_payment-events token id u user_exists method pkg answer s = ground arith

Step-IsKnown : (e : ℕ) {s t : Payments} → Step s t → IsKnown e s → IsKnown e t
Step-IsKnown e (webhook s token fetch now event external) k =
    webhook-IsKnown e token fetch now event external s k
Step-IsKnown e (checkout s token id u user_exists method pkg answer fresh) k =
    rw (create_payment-events token id u user_exists method pkg answer s) k

Reach-IsKnown : (e : ℕ) {s t : Payments} → Reach s t → IsKnown e s → IsKnown e t
Reach-IsKnown e here k = k
Reach-IsKnown e (next r st) k = Step-IsKnown e st (Reach-IsKnown e r k)

-- Once an event has been processed, the same event does nothing more, at any time, whatever the
-- provider says then, and however many checkouts and other webhooks, failed ones included, came
-- between, one after the other.
pub event_acts_once :
    (now : UtcDate) (event external : ℕ) (m : MpPayment) (s t v : Payments)
    → process_payment alone now event external m s ≡ ok (tt, t)
    → Reach t v
    → (later : UtcDate) (external' : ℕ) (m' : MpPayment)
    → process_payment alone later event external' m' v ≡ ok (tt, v)
event_acts_once now event external m s t v h r later external' m' =
    let known = process_payment-stored now event external m s t h event (ground arith) in
    stored_event_does_nothing later event external' m' v (Reach-IsKnown event r known)
