-- ===== src/Payment/Tests.antt =====
-- A user buys coins: the checkout, the approval and the same event again.
use boteco12_api.Prelude.{◌≡◌, refl, true, none, some, []}
use boteco12_api.Prelude.Int.{pos, ◌+ℤ◌}
use boteco12_api.Errors.{ok}
use boteco12_api.Transaction.{committed}
use boteco12_api.Db.{empty_db}
use boteco12_api.Wallet.{integer, balance, credit_wallet}
use boteco12_api.Subscription.Calendar.{UtcDate}
use boteco12_api.Payment.{Payments, PaymentPackage, pix, create_payment}
use boteco12_api.Payment.Webhook.{
  alone, MpPayment, mp_approved, mp_rejected, process_payment, process_webhook,
}
use boteco12_api.Payment.Effects.{credited}
use boteco12_api.Payment.Again.{event_acts_once}
use boteco12_api.Payment.History.{here, next, webhook, checkout, wallets_hold_what_was_paid}

abbrev epoch : UtcDate
epoch = record { year = 0; month = 0; day = 1; time = 4 }

abbrev nothing_paid : Payments
nothing_paid = record {
  db = empty_db;
  subscriptions = record { rows = λ _. none; events = [] };
  payments = [];
  log = [];
}

abbrev fifty_coins : PaymentPackage
fifty_coins = record {
  id = 1;
  is_active = true;
  amount_cents = pos 5000;
  coins_amount = pos 50;
  bonus_coins = pos 5;
}

abbrev checked_out : Payments
checked_out =
    (create_payment true 12 7 true pix (some fifty_coins)
      (some (record { id = some 3; has_url = true })) nothing_paid).1

abbrev approved_by_mp : MpPayment
approved_by_mp = record {
  status = mp_approved;
  is_brl = true;
  cents = integer (pos 5000);
  external_reference = some 12;
}

abbrev delivered : Payments
delivered =
    committed checked_out
      (process_webhook alone true (λ _. some approved_by_mp) epoch (some 1) (some 88) checked_out)

abbrev delivered_again : Payments
delivered_again =
    committed delivered
      (process_webhook alone true (λ _. some approved_by_mp) epoch (some 2) (some 88) delivered)

paid_once : balance delivered_again.db 7 ≡ pos 55
unfolding create_payment credit_wallet process_webhook ◌+ℤ◌
paid_once = refl

-- Two events of one payment at the same time: the second has read the payment before the first was
-- committed, and delivers it once more.
abbrev delivered_twice : Payments
delivered_twice = committed checked_out (
    process_webhook (λ _. delivered) true (λ _. some approved_by_mp) epoch (some 2) (some 88)
      checked_out)

simultaneous_events_pay_twice : balance delivered_twice.db 7 ≡ pos 110
unfolding create_payment credit_wallet process_webhook ◌+ℤ◌
simultaneous_events_pay_twice = refl

wallets_hold_what_was_paid_example :
    balance delivered_again.db 7 +ℤ credited 7 nothing_paid.payments
    ≡ balance nothing_paid.db 7 +ℤ credited 7 delivered_again.payments
wallets_hold_what_was_paid_example =
    wallets_hold_what_was_paid 7 {s = nothing_paid} {t = delivered_again} tt (
      next
        (next
          (next here (
            checkout nothing_paid true 12 7 true pix (some fifty_coins)
              (some (record { id = some 3; has_url = true })) refl))
          (webhook checked_out true (λ _. some approved_by_mp) epoch (some 1) (some 88)))
        (webhook delivered true (λ _. some approved_by_mp) epoch (some 2) (some 88)))

-- Between the two runs another event came.
event_acts_once_example :
    process_payment alone epoch 1 89
      (record approved_by_mp { status = mp_rejected })
      delivered_again
    ≡ ok (tt, delivered_again)
unfolding create_payment credit_wallet process_webhook ◌+ℤ◌
event_acts_once_example =
    event_acts_once epoch 1 88 approved_by_mp checked_out delivered delivered_again refl
      (next here (webhook delivered true (λ _. some approved_by_mp) epoch (some 2) (some 88))) epoch
      89 (record approved_by_mp { status = mp_rejected })
