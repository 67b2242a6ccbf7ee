-- ===== src/Payment.antt =====
-- src/services/payment: what is paid through Mercado Pago, and what it buys. The provider's answers
-- and the random id are arguments.
pub mod Webhook
pub mod Once
pub mod Effects
pub mod Books
pub mod History
pub mod Again
mod Tests
use boteco12_api.Prelude.{
  ℕ, ◌+◌, Bool, true, false, not, ◌&&◌, Option, none, some, List, [], ◌∷◌, ◌==◌, if◌then◌else◌,
}
use boteco12_api.Prelude.Int.{ℤ, pos, eqb_ℤ}
use boteco12_api.Wallet.{JsNumber, integer, not_integer}
use boteco12_api.Errors.{
  Result, ok, err, internal, bad_request, not_found, failure, provider_failed,
  mp_access_token_missing, invalid_payment_package, mp_checkout_url_missing, user_not_found,
}
use boteco12_api.Transaction.{Tx}
use boteco12_api.Db.{Db}
use boteco12_api.Benefit.Config.{Plan, monthly, annual}
use boteco12_api.Subscription.{Subscriptions}

pub data Purpose : Type 0 where
  wallet_credit subscription : Purpose

pub data PaymentStatus : Type 0 where
  pending approved rejected cancelled refunded : PaymentStatus

pub data Method : Type 0 where
  pix card : Method

-- A row of `payments`, what the services write and read.
pub record Payment : Type 0 where
  pub id : ℕ
  pub user : ℕ
  pub method : Method
  pub purpose : Purpose
  pub status : PaymentStatus
  pub subscription_plan : Option Plan
  pub package_id : Option ℕ
  pub subscription_package_id : Option ℕ
  pub validity_months : Option ℕ
  pub amount_cents : ℤ
  pub coins_amount : ℤ
  pub bonus_coins : ℤ
  pub external_payment_id : Option ℕ
  pub external_reference : Option ℕ
  pub preference_id : Option ℕ
  pub is_credited : Bool
  pub processed_at : Option ℕ

-- The audit entries of the payments, by action.
pub data PaymentLog : Type 0 where
  payment_created checkout_created webhook_unmatched already_processed : ℕ → PaymentLog
  status_updated validation_failed : ℕ → PaymentLog
  approved_and_credited subscription_approved : ℕ → PaymentLog

-- The stored webhook events are one table, with those of the subscriptions.
pub record Payments : Type 0 where
  pub db : Db
  pub subscriptions : Subscriptions
  pub payments : List Payment
  pub log : List PaymentLog

-- A row of `payment_packages`.
pub record PaymentPackage : Type 0 where
  pub id : ℕ
  pub is_active : Bool
  pub amount_cents : ℤ
  pub coins_amount : ℤ
  pub bonus_coins : ℤ

abbrev pub log_payment : PaymentLog → Payments → Payments
log_payment l s = record s { log = l ∷ s.log }

-- `payment.update` of the row with this id
abbrev pub update_rows : ℕ → (Payment → Payment) → List Payment → List Payment
update_rows id f [] = []
update_rows id f (p ∷ ps) = let rest = update_rows id f ps in (if p.id == id then f p else p) ∷ rest

abbrev pub update_payment : ℕ → (Payment → Payment) → Payments → Payments
update_payment id f s = record s { payments = update_rows id f s.payments }

-- What `createPreference` answers: its id, and whether `getMercadoPagoCheckoutUrl` finds a URL in it.
pub record Preference : Type 0 where
  pub id : Option ℕ
  pub has_url : Bool

-- The row that is written first; the reference `f12_<id>` is given by the id.
abbrev pub new_payment : ℕ → ℕ → Method → PaymentPackage → Payment
new_payment id u method pkg = record {
  id = id;
  user = u;
  method = method;
  purpose = wallet_credit;
  status = pending;
  subscription_plan = none;
  package_id = some pkg.id;
  subscription_package_id = none;
  validity_months = none;
  amount_cents = pkg.amount_cents;
  coins_amount = pkg.coins_amount;
  bonus_coins = pkg.bonus_coins;
  external_payment_id = none;
  external_reference = some id;
  preference_id = none;
  is_credited = false;
  processed_at = none;
}

abbrev pub add_payment : Payment → Payments → Payments
add_payment p s = log_payment (payment_created p.id) (record s { payments = p ∷ s.payments })

-- The second transaction, or its absence.
abbrev pub with_preference : ℕ → Option Preference → Payments → Result (Unit {0}) × Payments
with_preference id none s = (err (failure provider_failed), s)
with_preference id (some q) s = elim q.id [
  | none ↦ (err (internal mp_checkout_url_missing), s)
  | some k ↦
      if q.has_url
      then (
        ok tt,
        log_payment (checkout_created id)
            (update_payment id (λ p. record p { preference_id = some k }) s),
      )
      else (err (internal mp_checkout_url_missing), s)
]

abbrev pub with_package :
    ℕ
    → ℕ
    → Bool
    → Method
    → Option Preference
    → Option PaymentPackage
    → Payments
    → Result (Unit {0}) × Payments
with_package id u user_exists method answer none s = (err (bad_request invalid_payment_package), s)
with_package id u user_exists method answer (some pkg) s =
    if not pkg.is_active
    then (err (bad_request invalid_payment_package), s)
    else if not user_exists
    then (err (not_found user_not_found), s)
    else with_preference id answer (add_payment (new_payment id u method pkg) s)

-- `CreatePaymentService.execute`: two transactions with the call of the provider between them, so an
-- error keeps what was written before it.
unfoldable pub create_payment :
    Bool
    → ℕ
    → ℕ
    → Bool
    → Method
    → Option PaymentPackage
    → Option Preference
    → Payments
    → Result (Unit {0}) × Payments
create_payment token id u user_exists method pkg answer s =
    if not token
    then (err (internal mp_access_token_missing), s)
    else with_package id u user_exists method answer pkg s
