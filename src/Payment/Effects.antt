-- ===== src/Payment/Effects.antt =====
-- What a webhook pays out (process-mercado-pago-webhook.service.ts, wallet.service.ts).
use boteco12_api.Prelude.{
  ℕ, ◌≡◌, ◌||◌, ◌&&◌, refl, ◌∙◌, Bool, true, false, not, some, List, [], ◌∷◌, ◌==◌, ==_iff,
  if◌then◌else◌, arith, Bool-cases, inl, inr,
}
use boteco12_api.Prelude.Int.{ℤ, pos, ◌+ℤ◌, int_laws}
use boteco12_api.Errors.{ok}
use boteco12_api.Db.{Db}
use boteco12_api.Wallet.{balance, credit_wallet}
use boteco12_api.Payment.{Payment, Payments, update_rows}
use boteco12_api.Payment.Webhook.{is_processed, find_reference, same_reference}

abbrev pub coins_of : Payment → ℤ
coins_of p = p.coins_amount +ℤ p.bonus_coins

-- The coins of the payments of a user that are credited.
abbrev pub credited : ℕ → List Payment → ℤ
credited u [] = pos 0
credited u (p ∷ ps) =
    if p.is_credited && p.user == u then credited u ps +ℤ coins_of p else credited u ps

==-refl : (n : ℕ) → (n == n) ≡ true
==-refl n = ground arith

abbrev pub has_id : ℕ → List Payment → Bool
has_id i [] = false
has_id i (p ∷ ps) = if p.id == i then true else has_id i ps

-- The ids are distinct, and what was not processed is not credited.
abbrev pub AreRows : List Payment → Type 0
AreRows [] = Unit
AreRows (p ∷ ps) =
    (has_id p.id ps ≡ false)
    × (is_processed p.processed_at || not p.is_credited ≡ true)
    × AreRows ps

pub credit_wallet-balance :
    (v u : ℕ) (a : ℤ) (db db' : Db) {b : ℤ}
    → credit_wallet v a db ≡ ok (b, db')
    → balance db' u ≡ (if v == u then balance db u +ℤ a else balance db u)
unfolding credit_wallet
credit_wallet-balance v u a db db' e = ground arith

update_rows_fresh :
    (i : ℕ) (f : Payment → Payment) (ps : List Payment)
    → has_id i ps ≡ false
    → update_rows i f ps ≡ ps
update_rows_fresh i f [] h = refl
update_rows_fresh i f (p ∷ ps) h = ground (arith, update_rows_fresh i f ps)

find_reference-has_id :
    (r : ℕ) (ps : List Payment) {p : Payment} → find_reference r ps ≡ some p → has_id p.id ps ≡ true
find_reference-has_id r [] e = cc
find_reference-has_id r (q ∷ ps) {p} e = ground (arith, find_reference-has_id r ps {p = p})

add_swap : (a b c : ℤ) → a +ℤ b +ℤ c ≡ a +ℤ c +ℤ b
add_swap a b c = omega int_laws

swap_if :
    (x y : Bool) (c a b : ℤ)
    → (if x then (if y then c +ℤ b else c) +ℤ a else (if y then c +ℤ b else c))
      ≡ (if y then (if x then c +ℤ a else c) +ℤ b else (if x then c +ℤ a else c))
swap_if true true c a b = add_swap c b a
swap_if true false c a b = refl
swap_if false true c a b = refl
swap_if false false c a b = refl

ids_differ :
    (i j : ℕ) (ps : List Payment) → has_id i ps ≡ false → has_id j ps ≡ true → (i == j) ≡ false
ids_differ i j ps h k = elim (Bool-cases (i == j)) [
  | inl e ↦
      let same : i ≡ j = (==_iff i j).0 e in
      let h' : has_id j ps ≡ false = rw same at h in cc (h', k)
  | inr e ↦ e
]

-- What the credited payments come to when one row that was found changes.
pub credited-update_rows :
    (u r : ℕ) (f : Payment → Payment) (ps : List Payment) (p : Payment)
    → AreRows ps
    → find_reference r ps ≡ some p
    → p.is_credited ≡ false
    → (f p).user ≡ p.user
    → coins_of (f p) ≡ coins_of p
    → credited u (update_rows p.id f ps)
      ≡ (if (f p).is_credited && p.user == u then credited u ps +ℤ coins_of p else credited u ps)
credited-update_rows u r f [] p rows e c same coins = cc
credited-update_rows u r f (q ∷ ps) p (fresh, _, rows) e c same coins =
    elim (Bool-cases (same_reference (some r) q.external_reference)) [
      | inl here ↦
          let is_p : q ≡ p = ground arith in
          let id_same : (q.id == p.id) ≡ true = rw is_p (==-refl p.id) in
          let rest : update_rows p.id f ps ≡ ps = update_rows_fresh p.id f ps (rw (← is_p) fresh) in
          rw (id_same, rest, is_p) (ground arith)
      | inr there ↦
          let found : find_reference r ps ≡ some p = rw there at e in
          let inside = find_reference-has_id r ps found in
          let other : (q.id == p.id) ≡ false = ids_differ q.id p.id ps fresh inside in
          let ih = credited-update_rows u r f ps p rows found c same coins in
          rw (other, ih)
            (swap_if (q.is_credited && q.user == u) ((f p).is_credited && p.user == u)
              (credited u ps) (coins_of q) (coins_of p))
    ]

update_rows-has_id :
    (i j : ℕ) (f : Payment → Payment) (ps : List Payment)
    → ((q : Payment) → (f q).id ≡ q.id)
    → has_id j (update_rows i f ps) ≡ has_id j ps
update_rows-has_id i j f [] keeps = refl
update_rows-has_id i j f (q ∷ ps) keeps = ground (arith, keeps q, update_rows-has_id i j f ps keeps)

pub update_rows-AreRows :
    (i : ℕ) (f : Payment → Payment) (ps : List Payment)
    → ((q : Payment) → (f q).id ≡ q.id)
    → ((q : Payment)
        → is_processed q.processed_at || not q.is_credited ≡ true
        → is_processed (f q).processed_at || not (f q).is_credited ≡ true)
    → AreRows ps
    → AreRows (update_rows i f ps)
update_rows-AreRows i f [] keeps flags h = tt
update_rows-AreRows i f (q ∷ ps) keeps flags (fresh, flag, rows) =
    let ih = update_rows-AreRows i f ps keeps flags rows in
    elim (Bool-cases (q.id == i)) [
      | inl e ↦ rw e (rw (keeps q) (update_rows-has_id i q.id f ps keeps ∙ fresh), flags q flag, ih)
      | inr e ↦ rw e (update_rows-has_id i q.id f ps keeps ∙ fresh, flag, ih)
    ]

-- The books of the payments: the rows are in order, and what the wallet of `u` holds besides the
-- credited payments is `rest`.
pub record Books (u : ℕ) (rest : ℤ) (s : Payments) : Type 0 where
  pub rows : AreRows s.payments
  pub total : balance s.db u ≡ rest +ℤ credited u s.payments
