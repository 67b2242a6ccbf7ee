-- ===== src/Payment/Books.antt =====
-- That the wallets hold what the credited payments bought, over any sequence of webhooks
-- (process-mercado-pago-webhook.service.ts).
use boteco12_api.Prelude.{
  ℕ, ◌≡◌, ◌||◌, ◌&&◌, refl, sym, ap, ◌∙◌, Bool, true, false, not, Option, none, some, List, [], ◌∷◌,
  ◌==◌, if◌then◌else◌, arith, Bool-cases, inl, inr,
}
use boteco12_api.Prelude.Int.{ℤ, ◌+ℤ◌, +ℤ_assoc}
use boteco12_api.Errors.{Result, ok, err}
use boteco12_api.Transaction.{continue, >>=-eq-ok}
use boteco12_api.Benefit.Config.{Plan}
use boteco12_api.Db.{Db}
use boteco12_api.Wallet.{balance, credit_wallet}
use boteco12_api.Subscription.Provider.{is_stored}
use boteco12_api.Subscription.Calendar.{UtcDate}
use boteco12_api.Payment.{
  Purpose, wallet_credit, subscription, PaymentStatus, Payment, Payments, update_rows, PaymentLog,
  log_payment, status_updated, already_processed, validation_failed, webhook_unmatched,
}
use boteco12_api.Payment.Webhook.{
  alone, MpPayment, is_credit, map_mp_status, with_db, buy_subscription, deliver, settle,
  write_payment, approve_row, is_processed, is_approved, is_valid_payment, on_payment, on_found,
  find_payment, find_reference, same_reference, with_event, process_payment,
}
use boteco12_api.Payment.Once.{settle-ok}
use boteco12_api.Payment.Effects.{
  coins_of, credited, AreRows, Books, credit_wallet-balance, credited-update_rows,
  update_rows-AreRows,
}

-- What the delivery of a payment adds to the wallet of `u`.
abbrev added : ℕ → Payment → Purpose → ℤ → ℤ
added u p k b = if is_credit k && p.user == u then b +ℤ coins_of p else b

with_db-balance :
    (u : ℕ) (p : Payment) (s t : Payments) (r : Result (ℤ × Db))
    → credit_wallet p.user (coins_of p) s.db ≡ r
    → with_db s r ≡ ok (tt, t)
    → (t.payments ≡ s.payments) × (balance t.db u ≡ added u p wallet_credit (balance s.db u))
with_db-balance u p s t (err e) q h = cc
with_db-balance u p s t (ok (b, db)) q h =
    (ground arith, ground (arith, credit_wallet-balance p.user u (coins_of p) s.db db q))

buy_subscription-db :
    (now : UtcDate) (p : Payment) (o : Option Plan) (s t : Payments)
    → buy_subscription now p o s ≡ ok (tt, t)
    → (t.payments ≡ s.payments) × (t.db ≡ s.db)
buy_subscription-db now p none s t h = cc
buy_subscription-db now p (some plan) s t h = ground arith

deliver-balance :
    (u : ℕ) (now : UtcDate) (p : Payment) (k : Purpose) (s t : Payments)
    → deliver now p k s ≡ ok (tt, t)
    → (t.payments ≡ s.payments) × (balance t.db u ≡ added u p k (balance s.db u))
deliver-balance u now p wallet_credit s t h = with_db-balance u p s t _ refl h
deliver-balance u now p subscription s t h =
    let (rows, db) = buy_subscription-db now p p.subscription_plan s t h in
    (rows, ap (λ d. balance d u) db)

abbrev written : ℕ → (Payment → Payment) → Payment → Payment
written external f q = record (f q) { external_payment_id = some external }

write_payment-ok :
    (id external : ℕ) (f : Payment → Payment) (s t : Payments)
    → write_payment id external f s ≡ ok (tt, t)
    → (t.payments ≡ update_rows id (written external f) s.payments) × (t.db ≡ s.db)
write_payment-ok id external f s t h = (ground arith, ground arith)

-- A row that is found and was not processed is not credited.
found_not_credited :
    (r : ℕ) (ps : List Payment) (p : Payment)
    → AreRows ps
    → find_reference r ps ≡ some p
    → is_processed p.processed_at ≡ false
    → p.is_credited ≡ false
found_not_credited r [] p rows e h = cc
found_not_credited r (q ∷ ps) p (_, flag, rows) e h =
    elim (Bool-cases (same_reference (some r) q.external_reference)) [
      | inl here ↦
          let is_p : q ≡ p = ground arith in
          let flag' : is_processed p.processed_at || not p.is_credited ≡ true = rw is_p at flag in
          ground arith
      | inr there ↦ found_not_credited r ps p rows (rw there at e) h
    ]

credited_kept :
    (u i external : ℕ) (status : PaymentStatus) (ps : List Payment)
    → credited u (update_rows i (written external (λ q. record q { status = status })) ps)
      ≡ credited u ps
credited_kept u i external status [] = refl
credited_kept u i external status (q ∷ ps) = elim (Bool-cases (q.id == i)) [
  | inl e ↦ rw (e, credited_kept u i external status ps) refl
  | inr e ↦ rw (e, credited_kept u i external status ps) refl
]

module _ (u : ℕ) (rest : ℤ) where
  total_step :
      (c : Bool) (b x a : ℤ)
      → b ≡ rest +ℤ x
      → (if c then b +ℤ a else b) ≡ rest +ℤ (if c then x +ℤ a else x)
  total_step true b x a h = rw h (+ℤ_assoc rest x a)
  total_step false b x a h = h

  settle-Books :
      (now : UtcDate) (external r : ℕ) (p : Payment) (s t : Payments)
      → Books u rest s
      → find_reference r s.payments ≡ some p
      → is_processed p.processed_at ≡ false
      → settle now external p s ≡ ok (tt, t)
      → Books u rest t
  settle-Books now external r p s t h found fresh e =
      let (mid, v, delivery, write, last) = settle-ok now external p s t e in
      let (rows, paid) = deliver-balance u now p p.purpose s mid delivery in
      let (rows', db') = write_payment-ok p.id external (approve_row now p.purpose) mid v write in
      let unpaid = found_not_credited r s.payments p h.rows found fresh in
      let sum =
        credited-update_rows u r (written external (approve_row now p.purpose)) s.payments p h.rows
          found unpaid refl refl in
      record {
        rows =
            rw (last, rows', rows)
              (update_rows-AreRows p.id (written external (approve_row now p.purpose)) s.payments
                (λ q. refl) (λ q x. refl) h.rows);
        total =
            rw (last, db', rows', rows)
              (paid
                ∙ total_step (is_credit p.purpose && p.user == u) _ _ (coins_of p) h.total
                ∙ ap (λ x. rest +ℤ x) (sym sum));
      }

  status-Books :
      (id external : ℕ) (status : PaymentStatus) (s t : Payments)
      → Books u rest s
      → write_payment id external (λ q. record q { status = status }) s ≡ ok (tt, t)
      → Books u rest t
  status-Books id external status s t h e =
      let f : Payment → Payment = λ q. record q { status = status } in
      let (rows, db) = write_payment-ok id external f s t e in
      record {
        rows =
            rw rows (
              update_rows-AreRows id (written external f) s.payments (λ q. refl) (λ q x. x) h.rows);
        total =
            rw (db, rows)
              (h.total ∙ ap (λ x. rest +ℤ x) (sym (credited_kept u id external status s.payments)));
      }

  logged-Books :
      (l : PaymentLog) (s t : Payments)
      → Books u rest s
      → ◌≡◌ {A = Result (Unit {0} × Payments)} (ok (tt, log_payment l s)) (ok (tt, t))
      → Books u rest t
  logged-Books l s t h e =
      let rows : t.payments ≡ s.payments = ground arith in
      let db : t.db ≡ s.db = ground arith in
      record { rows = rw rows h.rows; total = rw (db, rows) h.total }

  update-Books :
      (id external : ℕ) (status : PaymentStatus) (s t : Payments)
      → Books u rest s
      → continue
          (write_payment id external (λ q. record q { status = status }) s)
          (λ _ v. ok (tt, log_payment (status_updated id) v))
        ≡ ok (tt, t)
      → Books u rest t
  update-Books id external status s t h e =
      let (_, v, write, last) =
        >>=-eq-ok (write_payment id external (λ q. record q { status = status }))
          (λ _ v. ok (tt, log_payment (status_updated id) v)) s e in
      logged-Books (status_updated id) v t (status-Books id external status s v h write) last

  on_payment-Books :
      (now : UtcDate) (external r : ℕ) (m : MpPayment) (p : Payment) (s t : Payments)
      → Books u rest s
      → find_reference r s.payments ≡ some p
      → on_payment now external m p s ≡ ok (tt, t)
      → Books u rest t
  on_payment-Books now external r m p s t h found e =
      elim (Bool-cases (is_processed p.processed_at)) [
        | inl a ↦ logged-Books (already_processed p.id) s t h (rw a at e)
        | inr a ↦ elim (Bool-cases (is_approved m.status)) [
          | inr b ↦ update-Books p.id external (map_mp_status m.status) s t h (rw (a, b) at e)
          | inl b ↦ elim (Bool-cases (is_valid_payment p m)) [
            | inr c ↦ logged-Books (validation_failed p.id) s t h (rw (a, b, c) at e)
            | inl c ↦ settle-Books now external r p s t h found a (rw (a, b, c) at e)
          ]
        ]
      ]

  on_found-Books :
      (now : UtcDate) (event external r : ℕ) (m : MpPayment) (o : Option Payment) (s t : Payments)
      → Books u rest s
      → find_reference r s.payments ≡ o
      → on_found now event external m o s ≡ ok (tt, t)
      → Books u rest t
  on_found-Books now event external r m none s t h q e =
      logged-Books (webhook_unmatched event) s t h e
  on_found-Books now event external r m (some p) s t h q e =
      on_payment-Books now external r m p s t h q e

  found-Books :
      (now : UtcDate) (event external : ℕ) (m : MpPayment) (o : Option ℕ) (s t : Payments)
      → Books u rest s
      → on_found now event external m (find_payment o s.payments) s ≡ ok (tt, t)
      → Books u rest t
  found-Books now event external m none s t h e = logged-Books (webhook_unmatched event) s t h e
  found-Books now event external m (some r) s t h e =
      on_found-Books now event external r m (find_reference r s.payments) s t h refl e

  pub process_payment-Books :
      (now : UtcDate) (event external : ℕ) (m : MpPayment) (s t : Payments)
      → Books u rest s
      → process_payment alone now event external m s ≡ ok (tt, t)
      → Books u rest t
  unfolding process_payment
  process_payment-Books now event external m s t h e =
      elim (Bool-cases (is_stored event s.subscriptions.events)) [
        | inl a ↦ let same : t ≡ s = ground arith in rw same h
        | inr a ↦
            found-Books now event external m m.external_reference (with_event event s) t
              (record { rows = h.rows; total = h.total }) (rw a at e)
      ]
