-- ===== src/Round/Closing.antt =====
-- What a closed round no longer gives (close-round.service.ts, with create-ticket.service.ts).
use boteco12_api.Prelude.{
  sym, ap, subst, ◌∙◌, true, ==_iff, Bool-cases, inl, inr, if◌then◌else◌, ◌==◌, ℕ, ◌≡◌, ◌≢◌, refl,
  Option, some, none, List, arith,
}
use boteco12_api.Prelude.Text.{Text, join, comma}
use boteco12_api.Errors.{Result, ok, err}
use boteco12_api.Transaction.{>>=-eq-ok}
use boteco12_api.Benefit.Grant.{User, grant_round_benefits}
use boteco12_api.Round.Single.{grant-rounds, open_found-ok, after_ok, close_found-ok}
use boteco12_api.Db.{
  Db, BetType, none_type, double, super_double, RoundBenefit, Round, Ticket, closed, open_status,
  put,
}
use boteco12_api.Score.RoundScore.{update_status, is_scored}
use boteco12_api.Ticket.{create_ticket}
use boteco12_api.Ticket.Acceptance.{create_ticket_accepts}
use boteco12_api.Benefit.Accounting.{free_of, inventory_of}
use boteco12_api.Round.{
  Season, open_found, open_round, open_status_of, with_row, result_found, set_normalized,
  set_round_result, normalize_round_result, close_found, close_round, expire_benefits, emptied,
}
use boteco12_api.Benefit.Consume.{free_or_zero}

closed_found :
    (r : ℕ) (o : Option Round) (db db' : Db)
    → db.rounds r ≡ o
    → close_found r o db ≡ ok (tt, db')
    → (x : Round) × (o ≡ some x)
      × (x.status ≡ open_status)
      × (db'.rounds r ≡ some (record x { status = closed }))
      × (db'.round_benefits ≡ (expire_benefits r db).round_benefits)
      × (db'.inventory ≡ db.inventory)
unfolding update_status expire_benefits
closed_found r none db db' q e = cc
closed_found r (some x) db db' q e =
    (x, refl, ground arith, ground arith, ground arith, ground arith)

emptied_free : (t : BetType) (o : Option RoundBenefit) → free_or_zero t (emptied o) ≡ 0
emptied_free t none = refl
emptied_free none_type (some b) = refl
emptied_free double (some b) = refl
emptied_free super_double (some b) = refl

expired_elsewhere :
    (r u k : ℕ) (t : BetType) (db : Db)
    → free_of (expire_benefits r db) u k t ≡ (if k == r then 0 else free_of db u k t)
unfolding expire_benefits
expired_elsewhere r u k t db = elim (Bool-cases (k == r)) [
  | inl q ↦ rw q (emptied_free t (db.round_benefits u k))
  | inr q ↦ rw q refl
]

-- Closing works on an OPEN round only, and makes it CLOSED. Every free benefit of the round is gone,
-- for every user, while those of the other rounds and the bought ones are as before.
pub close_round_outcome :
    (r : ℕ) (db db' : Db) (u : ℕ) (t : BetType) (k : ℕ)
    → close_round r db ≡ ok (tt, db')
    → ((x : Round) × (db.rounds r ≡ some x)
        × (x.status ≡ open_status)
        × (db'.rounds r ≡ some (record x { status = closed })))
      × (free_of db' u k t ≡ (if k == r then 0 else free_of db u k t))
      × (inventory_of db' u t ≡ inventory_of db u t)
unfolding close_round
close_round_outcome r db db' u t k e =
    let (x, found, opened, now_closed, rows, bought) = closed_found r (db.rounds r) db db' refl e in
    ((x, found, opened, now_closed), rw rows (expired_elsewhere r u k t db), rw bought refl)

abbrev IsClosed : ℕ → Season → Type 0
IsClosed r s = (x : Round) × (s.db.rounds r ≡ some x) × (x.status ≡ closed)

opening_of_closed :
    (r : ℕ) (x : Round) (s t : Season) → x.status ≡ closed → open_found r (some x) s ≢ ok (tt, t)
opening_of_closed r x s t h = rw h (λ e. ground arith)

-- A row is written: the closed round stays closed if the row is another one, or is closed as well.
put-IsClosed :
    (r k : ℕ) (x : Round) (s t : Season)
    → t.db.rounds ≡ put k (some x) s.db.rounds
    → ((r == k) ≡ true → x.status ≡ closed)
    → IsClosed r s
    → IsClosed r t
put-IsClosed r k x s t rows same (y, found, h) = elim (Bool-cases (r == k)) [
  | inl q ↦ (x, rw (rows, q) refl, same q)
  | inr q ↦ (y, rw (rows, q) found, h)
]

-- The row of the round, when it is the one that is written.
row_status :
    (r k : ℕ) (x : Round) (s : Season)
    → IsClosed r s
    → s.db.rounds k ≡ some x
    → (r == k) ≡ true
    → x.status ≡ closed
row_status r k x s (y, found, h) row q =
    let same = (==_iff r k).0 q in
    let found' : s.db.rounds k ≡ some y = ap s.db.rounds (sym same) ∙ found in
    let xy : x ≡ y = ground arith in rw xy h

open_found-IsClosed :
    (r k : ℕ) (o : Option Round) (s t : Season)
    → s.db.rounds k ≡ o
    → open_found k o s ≡ ok (tt, t)
    → IsClosed r s
    → IsClosed r t
open_found-IsClosed r k none s t q e h = cc
open_found-IsClosed r k (some x) s t q e h = elim (open_found-ok k (some x) s t q e) [
  | inl same ↦ subst (IsClosed r) (sym same) h
  | inr (y, is_y, _, _, rows) ↦
      put-IsClosed r k (record y { status = open_status }) s t rows
        (λ b. absurd (opening_of_closed k x s t (row_status r k x s h q b) e)) h
]

open_round-IsClosed :
    (now r k : ℕ) (users : List User) (s t : Season)
    → open_round now k users s ≡ ok (tt, t)
    → IsClosed r s
    → IsClosed r t
unfolding open_round open_status_of
open_round-IsClosed now r k users s t e h =
    let (_, mid, first, rest) =
      >>=-eq-ok (open_status_of k)
        (λ _ u. ok (tt, record u { db = grant_round_benefits now k users u.db })) s e in
    let (x, found, shut) = open_found-IsClosed r k (s.db.rounds k) s mid refl first h in
    subst (IsClosed r) (after_ok _ t rest) (x, rw (grant-rounds now k users mid.db) found, shut)

with_row-rows :
    (k : ℕ) (ts : List Text) (s t : Season) (db : Db) (o : Option Round)
    → with_row k ts s db o ≡ ok (tt, t)
    → (x : Round) × (o ≡ some x)
      × (t.db.rounds ≡ put k (some (record x { result = some (join comma ts) })) db.rounds)
with_row-rows k ts s t db none e = cc
with_row-rows k ts s t db (some x) e = (x, refl, ground arith)

result_found-rows :
    (k : ℕ) (ts : List Text) (o : Option Round) (s t : Season)
    → result_found (λ db. db) k ts o s ≡ ok (tt, t)
    → (x : Round) × (s.db.rounds k ≡ some x)
      × (t.db.rounds ≡ put k (some (record x { result = some (join comma ts) })) s.db.rounds)
result_found-rows k ts none s t e = cc
result_found-rows k ts (some y) s t e = elim (Bool-cases (is_scored y.status)) [
  | inl a ↦ absurd (ground arith)
  | inr a ↦ with_row-rows k ts s t s.db (s.db.rounds k) (rw a at e)
]

set_normalized-IsClosed :
    (r k : ℕ) (n : Result (List Text)) (s t : Season)
    → set_normalized (λ db. db) k n s ≡ ok (tt, t)
    → IsClosed r s
    → IsClosed r t
set_normalized-IsClosed r k (err x) s t e h = cc
set_normalized-IsClosed r k (ok ts) s t e h =
    let (x, found, rows) = result_found-rows k ts (s.db.rounds k) s t e in
    put-IsClosed r k (record x { result = some (join comma ts) }) s t rows
      (row_status r k x s h found) h

-- What else is done to the rounds: any of them is opened, closed or given a result.
pub data Later (s : Season) : Season → Type 0 where
  now_closed : Later s s
  then_opens :
      {t u : Season} (now k : ℕ) (users : List User)
      → Later s t
      → open_round now k users t ≡ ok (tt, u)
      → Later s u
  then_closes :
      {t : Season} (k : ℕ) (db : Db)
      → Later s t
      → close_round k t.db ≡ ok (tt, db)
      → Later s (record t { db = db })
  then_results :
      {t u : Season} (k : ℕ) (result : Text)
      → Later s t
      → set_round_result (λ db. db) k result t ≡ ok (tt, u)
      → Later s u

Later-IsClosed : {s t : Season} (r : ℕ) → Later s t → IsClosed r s → IsClosed r t
unfolding close_round set_round_result
Later-IsClosed r now_closed h = h
Later-IsClosed r (then_opens {t} {u} now k users before e) h =
    open_round-IsClosed now r k users t u e (Later-IsClosed r before h)
Later-IsClosed r (then_closes {t} k db before e) h =
    let (x, found, rows) = close_found-ok k (t.db.rounds k) t.db db refl e in
    put-IsClosed r k (record x { status = closed }) t (record t { db = db }) rows (λ _. refl)
      (Later-IsClosed r before h)
Later-IsClosed r (then_results {t} {u} k result before e) h =
    set_normalized-IsClosed r k (normalize_round_result result) t u e (Later-IsClosed r before h)

-- A submission that begins after its round has been closed is refused, whatever is sent and at
-- whatever time, also when since then rounds, this one included, were opened, closed and given
-- results with success. It says nothing of a submission that has read the round before.
pub closed_round_takes_no_ticket :
    (f g f' g' : Db → Db) (u r now : ℕ) (prediction : Text) (ms : List ℕ) (s v : Season) (db : Db)
    → close_round r s.db ≡ ok (tt, db)
    → Later (record s { db = db }) v
    → (t : Ticket) (db' : Db) → create_ticket f g f' g' u r now prediction ms v.db ≢ ok (t, db')
closed_round_takes_no_ticket f g f' g' u r now prediction ms s v db e later t db' k =
    let ((x, _, _, shut), _, _) = close_round_outcome r s.db db u none_type r e in
    let (y, row, is_closed) = Later-IsClosed r later (record x { status = closed }, shut, refl) in
    let ((z, found, opened, _), _, _, _, _, _) =
      create_ticket_accepts f g f' g' u r now prediction ms v.db k in
    ground arith
