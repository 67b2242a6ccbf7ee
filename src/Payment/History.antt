-- ===== src/Payment/History.antt =====
-- What payments and webhooks make of the tables, in any order (create-payment.service.ts,
-- process-mercado-pago-webhook.service.ts).
use boteco12_api.Prelude.{
  ℕ, ◌≡◌, refl, sym, ap, ◌∙◌, Bool, true, false, Option, none, some, List, [], ◌∷◌, ◌==◌, arith,
  Bool-cases, inl, inr,
}
use boteco12_api.Prelude.Int.{ℤ, ◌+ℤ◌, ◌-ℤ◌, int_laws}
use boteco12_api.Errors.{Result, ok}
use boteco12_api.Transaction.{committed, Result-cases}
use boteco12_api.Wallet.{balance}
use boteco12_api.Subscription.Calendar.{UtcDate}
use boteco12_api.Payment.{
  Payment, Payments, PaymentPackage, Preference, Method, new_payment, add_payment, update_rows,
  with_preference, with_package, create_payment,
}
use boteco12_api.Payment.Webhook.{alone, MpPayment, with_event_ids, with_answer, process_webhook}
use boteco12_api.Payment.Effects.{AreRows, Books, credited, has_id, update_rows-AreRows}
use boteco12_api.Payment.Books.{process_payment-Books}

credited_preference :
    (u i : ℕ) (o : Option ℕ) (ps : List Payment)
    → credited u (update_rows i (λ p. record p { preference_id = o }) ps) ≡ credited u ps
credited_preference u i o [] = refl
credited_preference u i o (q ∷ ps) = elim (Bool-cases (q.id == i)) [
  | inl e ↦ rw (e, credited_preference u i o ps) refl
  | inr e ↦ rw (e, credited_preference u i o ps) refl
]

-- One run of a service: an event is delivered, or a user goes to the checkout. The ids of new
-- payments are not in use.
pub data Step : Payments → Payments → Type 0 where
  webhook :
      (s : Payments) (token : Bool) (fetch : ℕ → Option MpPayment) (now : UtcDate)
      (event external : Option ℕ)
      → Step s (committed s (process_webhook alone token fetch now event external s))
  checkout :
      (s : Payments) (token : Bool) (id u : ℕ) (user_exists : Bool) (method : Method)
      (pkg : Option PaymentPackage) (answer : Option Preference)
      → has_id id s.payments ≡ false
      → Step s ((create_payment token id u user_exists method pkg answer s).1)

pub data Reach (s : Payments) : Payments → Type 0 where
  here : Reach s s
  next : {t v : Payments} → Reach s t → Step t v → Reach s v

module _ (u : ℕ) (rest : ℤ) where
  same-Books :
      (s t : Payments)
      → Books u rest s
      → ◌≡◌ {A = Result (Unit {0} × Payments)} (ok (tt, s)) (ok (tt, t))
      → Books u rest t
  same-Books s t h e = let same : t ≡ s = ground arith in rw same h

  with_answer-Books :
      (now : UtcDate) (event external : ℕ) (o : Option MpPayment) (s t : Payments)
      → Books u rest s
      → with_answer alone now event external o s ≡ ok (tt, t)
      → Books u rest t
  with_answer-Books now event external none s t h e = cc
  with_answer-Books now event external (some m) s t h e =
      process_payment-Books u rest now event external m s t h e

  with_event_ids-Books :
      (token : Bool) (fetch : ℕ → Option MpPayment) (now : UtcDate) (event external : Option ℕ)
      (s t : Payments)
      → Books u rest s
      → with_event_ids alone token fetch now event external s ≡ ok (tt, t)
      → Books u rest t
  with_event_ids-Books token fetch now none external s t h e = same-Books s t h e
  with_event_ids-Books token fetch now (some event) none s t h e = same-Books s t h e
  with_event_ids-Books false fetch now (some event) (some external) s t h e = cc
  with_event_ids-Books true fetch now (some event) (some external) s t h e =
      with_answer-Books now event external (fetch external) s t h e

  webhook-Books :
      (token : Bool) (fetch : ℕ → Option MpPayment) (now : UtcDate) (event external : Option ℕ)
      (s : Payments)
      → Books u rest s
      → Books u rest (committed s (process_webhook alone token fetch now event external s))
  unfolding process_webhook
  webhook-Books token fetch now event external s h =
      elim (Result-cases (with_event_ids alone token fetch now event external s)) [
        | inl (_, e) ↦ rw e h
        | inr (_, t, e) ↦ rw e (with_event_ids-Books token fetch now event external s t h e)
      ]

  add-Books :
      (id v : ℕ) (method : Method) (pkg : PaymentPackage) (s : Payments)
      → has_id id s.payments ≡ false
      → Books u rest s
      → Books u rest (add_payment (new_payment id v method pkg) s)
  add-Books id v method pkg s fresh h = record { rows = (fresh, refl, h.rows); total = h.total }

  preference-Books :
      (id : ℕ) (k : Option ℕ) (has_url : Bool) (s : Payments)
      → Books u rest s
      → Books u rest ((with_preference id (some (record { id = k; has_url = has_url })) s).1)
  preference-Books id none b s h = h
  preference-Books id (some k) false s h = h
  preference-Books id (some k) true s h = record {
    rows =
        update_rows-AreRows id (λ p. record p { preference_id = some k }) s.payments (λ q. refl)
          (λ q x. x) h.rows;
    total = h.total ∙ ap (λ x. rest +ℤ x) (sym (credited_preference u id (some k) s.payments));
  }

  with_preference-Books :
      (id : ℕ) (answer : Option Preference) (s : Payments)
      → Books u rest s
      → Books u rest ((with_preference id answer s).1)
  with_preference-Books id none s h = h
  with_preference-Books id (some q) s h = preference-Books id q.id q.has_url s h

  package-Books :
      (id v : ℕ) (user_exists : Bool) (method : Method) (pkg : PaymentPackage) (b : Bool)
      → pkg.is_active ≡ b
      → (answer : Option Preference) (s : Payments) → has_id id s.payments ≡ false
      → Books u rest s
      → Books u rest ((with_package id v user_exists method answer (some pkg) s).1)
  package-Books id v exists method pkg false q answer s fresh h = rw q h
  package-Books id v false method pkg true q answer s fresh h = rw q h
  package-Books id v true method pkg true q answer s fresh h = rw q (
      with_preference-Books id answer (add_payment (new_payment id v method pkg) s)
        (add-Books id v method pkg s fresh h))

  checkout-Books :
      (token : Bool) (id v : ℕ) (user_exists : Bool) (method : Method) (pkg : Option PaymentPackage)
      (answer : Option Preference) (s : Payments)
      → has_id id s.payments ≡ false
      → Books u rest s
      → Books u rest ((create_payment token id v user_exists method pkg answer s).1)
  unfolding create_payment
  checkout-Books false id v exists method pkg answer s fresh h = h
  checkout-Books true id v exists method none answer s fresh h = h
  checkout-Books true id v exists method (some pkg) answer s fresh h =
      package-Books id v exists method pkg pkg.is_active refl answer s fresh h

  Reach-Books : {s t : Payments} → Reach s t → Books u rest s → Books u rest t
  Reach-Books here h = h
  Reach-Books (next r (webhook t token fetch now event external)) h =
      webhook-Books token fetch now event external t (Reach-Books r h)
  Reach-Books (next r (checkout t token id v exists method pkg answer fresh)) h =
      checkout-Books token id v exists method pkg answer t fresh (Reach-Books r h)

balance_split : (a b : ℤ) → a ≡ (a -ℤ b) +ℤ b
balance_split a b = omega int_laws

balance_move : (a b c d r : ℤ) → a ≡ r +ℤ b → c ≡ r +ℤ d → c +ℤ b ≡ a +ℤ d
balance_move a b c d r h k = rw (h, k) (omega int_laws)

-- However checkouts and webhooks, repeated and failed ones included, follow each other, a wallet
-- grows by exactly the coins and bonus coins of the user's payments that have become credited: if
-- the ids of the payments are distinct and no unprocessed payment is credited at the start, the
-- balance and the credited payments grow by the same amount.
pub wallets_hold_what_was_paid :
    (u : ℕ) {s t : Payments}
    → AreRows s.payments
    → Reach s t
    → balance t.db u +ℤ credited u s.payments ≡ balance s.db u +ℤ credited u t.payments
wallets_hold_what_was_paid u {s = s} {t = t} rows r =
    let rest = balance s.db u -ℤ credited u s.payments in
    let start : Books u rest s = record {
      rows = rows;
      total = balance_split (balance s.db u) (credited u s.payments);
    } in
    let h = Reach-Books u rest r start in
    balance_move (balance s.db u) (credited u s.payments) (balance t.db u) (credited u t.payments)
      rest start.total h.total
