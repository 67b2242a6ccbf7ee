-- ===== src/Payment/Webhook.antt =====
-- src/services/payment/process-mercado-pago-webhook.service.ts and mercado-pago-payment.helpers.ts,
-- with the offers of src/services/subscription/subscription-plans.config.ts.
use boteco12_api.Prelude.{
  ℕ, Bool, true, false, not, ◌&&◌, ◌||◌, Option, none, some, List, [], ◌∷◌, ◌==◌, if◌then◌else◌,
}
use boteco12_api.Prelude.Int.{ℤ, ◌+ℤ◌, eqb_ℤ}
use boteco12_api.Wallet.{JsNumber, integer, not_integer, credit_wallet}
use boteco12_api.Errors.{
  Result, ok, err, failure, token_missing, provider_failed, payment_without_plan, invalid_validity,
  package_mismatch, database, unique_violation,
}
use boteco12_api.Transaction.{Tx, continue}
use boteco12_api.Db.{Db}
use boteco12_api.Benefit.Config.{Plan, monthly, annual}
use boteco12_api.Subscription.{renew}
use boteco12_api.Subscription.Provider.{is_stored}
use boteco12_api.Subscription.Calendar.{UtcDate, get_time}
use boteco12_api.Payment.{
  Purpose, wallet_credit, subscription, PaymentStatus, pending, approved, rejected, cancelled,
  refunded, Payment, Payments, PaymentLog, webhook_unmatched, already_processed, status_updated,
  validation_failed, approved_and_credited, subscription_approved, log_payment, update_payment,
}

-- `status` of the provider's payment.
pub data MpPaymentStatus : Type 0 where
  mp_approved mp_rejected mp_cancelled mp_refunded mp_other : MpPaymentStatus

-- What `getPayment` answers. The amount is the number `Math.round(Number(transaction_amount) * 100)`,
-- an integer or not finite; the reference is `none` where it is no text.
pub record MpPayment : Type 0 where
  pub status : MpPaymentStatus
  pub is_brl : Bool
  pub cents : JsNumber
  pub external_reference : Option ℕ

abbrev pub is_approved : MpPaymentStatus → Bool
is_approved mp_approved = true
is_approved _ = false

-- `mapMpStatus`
abbrev pub map_mp_status : MpPaymentStatus → PaymentStatus
map_mp_status mp_approved = approved
map_mp_status mp_rejected = rejected
map_mp_status mp_cancelled = cancelled
map_mp_status mp_refunded = refunded
map_mp_status mp_other = pending

abbrev pub is_number : JsNumber → ℤ → Bool
is_number not_integer n = false
is_number (integer k) n = eqb_ℤ k n

abbrev pub same_reference : Option ℕ → Option ℕ → Bool
same_reference none none = true
same_reference (some a) (some b) = a == b
same_reference _ _ = false

-- `validateMercadoPagoPayment(…).valid`
unfoldable pub is_valid_payment : Payment → MpPayment → Bool
is_valid_payment p m =
    m.is_brl
    && (is_number m.cents p.amount_cents
        && same_reference m.external_reference p.external_reference)

-- `payment.findUnique` by the reference
abbrev pub find_reference : ℕ → List Payment → Option Payment
find_reference r [] = none
find_reference r (p ∷ ps) =
    if same_reference (some r) p.external_reference then some p else find_reference r ps

abbrev pub find_payment : Option ℕ → List Payment → Option Payment
find_payment none ps = none
find_payment (some r) ps = find_reference r ps

-- The months of each offer, by its place in SUBSCRIPTION_PLAN_OFFERS: pro_monthly, pro_annual_pix and
-- pro_annual_card.
abbrev pub offer_months : ℕ → Option ℕ
offer_months n = if n == 0 then some 1 else if n == 1 || n == 2 then some 12 else none

abbrev pub offer_of : Option ℕ → Option ℕ
offer_of none = none
offer_of (some id) = offer_months id

-- The package id of payments that have none, `legacy_monthly` and `legacy_annual`.
abbrev pub package_or_legacy : Option ℕ → Plan → ℕ
package_or_legacy (some id) plan = id
package_or_legacy none monthly = 3
package_or_legacy none annual = 4

abbrev pub months_of : Option ℕ → Plan → ℕ
months_of (some n) plan = n
months_of none monthly = 1
months_of none annual = 12

abbrev pub differs : Option ℕ → ℕ → Bool
differs none n = false
differs (some k) n = not (k == n)

abbrev pub buy_subscription : UtcDate → Payment → Option Plan → Tx Payments (Unit {0})
buy_subscription now p none s = err (failure payment_without_plan)
buy_subscription now p (some plan) s =
    let months = months_of p.validity_months plan in
    if not (months == 1 || months == 12)
    then err (failure invalid_validity)
    else if differs (offer_of p.subscription_package_id) months
    then err (failure package_mismatch)
    else ok (
      tt,
      record s {
        subscriptions =
            renew now p.user plan (package_or_legacy p.subscription_package_id plan) months
              s.subscriptions;
      },
    )

abbrev pub with_db : Payments → Result (ℤ × Db) → Result (Unit {0} × Payments)
with_db s (err e) = err e
with_db s (ok (balance, db)) = ok (tt, record s { db = db })

-- The purchase itself: coins or months.
abbrev pub deliver : UtcDate → Payment → Purpose → Tx Payments (Unit {0})
deliver now p wallet_credit s =
    with_db s (credit_wallet p.user (p.coins_amount +ℤ p.bonus_coins) s.db)
deliver now p subscription s = buy_subscription now p p.subscription_plan s

abbrev pub is_credit : Purpose → Bool
is_credit wallet_credit = true
is_credit subscription = false

abbrev pub approval : Payment → PaymentLog
approval p = if is_credit p.purpose then approved_and_credited p.id else subscription_approved p.id

-- Whether another payment has this id of the provider, which is unique.
abbrev pub external_taken : ℕ → ℕ → List Payment → Bool
external_taken id external [] = false
external_taken id external (q ∷ qs) =
    (not (q.id == id) && same_reference (some external) q.external_payment_id)
    || external_taken id external qs

-- `payment.update` with the id of the provider
abbrev pub write_payment : ℕ → ℕ → (Payment → Payment) → Tx Payments (Unit {0})
write_payment id external f s =
    if external_taken id external s.payments
    then err (database unique_violation)
    else ok (tt, update_payment id (λ q. record (f q) { external_payment_id = some external }) s)

abbrev pub approve_row : UtcDate → Purpose → Payment → Payment
approve_row now purpose q = record q {
  status = approved;
  is_credited = is_credit purpose;
  processed_at = some (get_time now);
}

-- The last part of the transaction, for a payment that the provider has approved.
abbrev pub settle : UtcDate → ℕ → Payment → Tx Payments (Unit {0})
settle now external p s = continue (deliver now p p.purpose s) (λ _ t.
    continue (write_payment p.id external (approve_row now p.purpose) t)
      (λ _ v. ok (tt, log_payment (approval p) v)))

abbrev pub is_processed : Option ℕ → Bool
is_processed none = false
is_processed (some t) = true

-- What is done with a payment that was found.
abbrev pub on_payment : UtcDate → ℕ → MpPayment → Payment → Tx Payments (Unit {0})
on_payment now external m p s =
    if is_processed p.processed_at
    then ok (tt, log_payment (already_processed p.id) s)
    else if not (is_approved m.status)
    then continue
        (write_payment p.id external (λ q. record q { status = map_mp_status m.status }) s)
        (λ _ v. ok (tt, log_payment (status_updated p.id) v))
    else if not (is_valid_payment p m)
    then ok (tt, log_payment (validation_failed p.id) s)
    else settle now external p s

abbrev pub on_found : UtcDate → ℕ → ℕ → MpPayment → Option Payment → Tx Payments (Unit {0})
on_found now event external m none s = ok (tt, log_payment (webhook_unmatched event) s)
on_found now event external m (some p) s = on_payment now external m p s

abbrev pub with_event : ℕ → Payments → Payments
with_event event s = record s {
  subscriptions = record s.subscriptions { events = event ∷ s.subscriptions.events };
}

-- Nothing that others commit
abbrev pub alone : Payments → Payments
alone s = s

-- The transaction: an event that is stored ends it, by the unique index. The function is what other
-- transactions committed between the read of the payment and what is written then; the payment is
-- not locked.
unfoldable pub process_payment :
    (Payments → Payments) → UtcDate → ℕ → ℕ → MpPayment → Tx Payments (Unit {0})
unfolding is_valid_payment
process_payment others now event external m s =
    if is_stored event s.subscriptions.events
    then ok (tt, s)
    else on_found now event external m (find_payment m.external_reference s.payments)
        (others (with_event event s))

abbrev pub with_answer :
    (Payments → Payments) → UtcDate → ℕ → ℕ → Option MpPayment → Tx Payments (Unit {0})
with_answer others now event external none s = err (failure provider_failed)
with_answer others now event external (some m) s = process_payment others now event external m s

abbrev pub with_event_ids :
    (Payments → Payments)
    → Bool
    → (ℕ → Option MpPayment)
    → UtcDate
    → Option ℕ
    → Option ℕ
    → Tx Payments (Unit {0})
with_event_ids others token fetch now (some event) (some external) s =
    if not token
    then err (failure token_missing)
    else with_answer others now event external (fetch external) s
with_event_ids others token fetch now _ _ s = ok (tt, s)

-- `ProcessMercadoPagoWebhookService.execute`, of an event by its two ids
unfoldable pub process_webhook :
    (Payments → Payments)
    → Bool
    → (ℕ → Option MpPayment)
    → UtcDate
    → Option ℕ
    → Option ℕ
    → Tx Payments (Unit {0})
unfolding process_payment
process_webhook others token fetch now event external s =
    with_event_ids others token fetch now event external s
