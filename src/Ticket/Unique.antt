-- ===== src/Ticket/Unique.antt =====
-- A user has at most one ticket in a round (create-ticket.service.ts).
use boteco12_api.Prelude.{
  ℕ, zero, suc, ◌≡◌, ◌≤◌, refl, true, false, ◌&&◌, List, [], ◌∷◌, ◌==◌, if◌then◌else◌, arith,
}
use boteco12_api.Prelude.Text.{Text}
use boteco12_api.Errors.{ok, err, conflict, ticket_already_exists}
use boteco12_api.Transaction.{>>=-eq-ok}
use boteco12_api.Db.{Db, BetType, double, super_double, Ticket}
use boteco12_api.Prediction.{normalize_ticket_prediction}
use boteco12_api.Benefit.Consume.{Consumption, consume, consume_free, consume_rest}
use boteco12_api.Ticket.{
  has_ticket, consume_doubles, consume_supers, create_ticket, validate_round, validate_choices,
  count_benefits, submit_choices,
}
use boteco12_api.Ticket.Acceptance.{
  consume_doubles-ok, consume_supers-ok, submit-ok, submit_choices-ok, create_ticket-ok,
  create_ticket_accepts,
}

abbrev count_tickets : ℕ → ℕ → List Ticket → ℕ
count_tickets u r [] = 0
count_tickets u r (t ∷ ts) =
    if t.user == u && t.round == r then suc (count_tickets u r ts) else count_tickets u r ts

-- No user has two tickets in a round.
abbrev pub IsUnique : Db → Type 0
IsUnique db = (u r : ℕ) → count_tickets u r db.tickets ≤ 1

abbrev Keeps : (Db → Db) → Type 0
Keeps f = (s : Db) → IsUnique s → IsUnique (f s)

has_ticket-count_tickets :
    (u r : ℕ) (ts : List Ticket) → has_ticket u r ts ≡ false → count_tickets u r ts ≡ 0
has_ticket-count_tickets u r [] h = refl
has_ticket-count_tickets u r (t ∷ ts) h = ground (arith, has_ticket-count_tickets u r ts)

module _ (f g : Db → Db) (keeps_f : Keeps f) (keeps_g : Keeps g) (u r : ℕ) (type : BetType) where
  consume_free-IsUnique :
      (q : ℕ) (db : Db) {n : ℕ} {db' : Db}
      → IsUnique db
      → consume_free f g u r type q db ≡ ok (n, db')
      → IsUnique db'
  unfolding consume_free
  consume_free-IsUnique q db h e v s = ground (arith, h v s, keeps_f db h v s)

  consume_rest-IsUnique :
      (q n : ℕ) (db : Db) {c : Consumption} {db' : Db}
      → IsUnique db
      → consume_rest f g u r type q n db ≡ ok (c, db')
      → IsUnique db'
  unfolding consume_rest
  consume_rest-IsUnique q n db h e v s = ground (arith, h v s, keeps_g db h v s)

  consume-IsUnique :
      (q : ℕ) (db : Db) {c : Consumption} {db' : Db}
      → IsUnique db
      → consume f g u r type q db ≡ ok (c, db')
      → IsUnique db'
  unfolding consume
  consume-IsUnique q db h e =
      let (n, mid, first, rest) = >>=-eq-ok (consume_free f g u r type q) _ db e in
      consume_rest-IsUnique q n mid (consume_free-IsUnique q db h first) rest

module _ (f g f' g' : Db → Db) (keeps_f : Keeps f) (keeps_g : Keeps g) (keeps_f' : Keeps f')
    (keeps_g' : Keeps g') (u r : ℕ) where
  consume_doubles-IsUnique :
      (n : ℕ) (db : Db) {db' : Db}
      → IsUnique db
      → consume_doubles f g f' g' u r n db ≡ ok (tt, db')
      → IsUnique db'
  unfolding consume_doubles
  consume_doubles-IsUnique zero db h e = λ v s. ground (arith, h v s)
  consume_doubles-IsUnique (suc n) db h e =
      let (_, run) = consume_doubles-ok f g f' g' u r n db e in
      consume-IsUnique f g keeps_f keeps_g u r double (suc n) db h run

  consume_supers-IsUnique :
      (n : ℕ) (db : Db) {db' : Db}
      → IsUnique db
      → consume_supers f g f' g' u r n db ≡ ok (tt, db')
      → IsUnique db'
  unfolding consume_supers
  consume_supers-IsUnique zero db h e = λ v s. ground (arith, h v s)
  consume_supers-IsUnique (suc n) db h e =
      let (_, run) = consume_supers-ok f g f' g' u r n db e in
      consume-IsUnique f' g' keeps_f' keeps_g' u r super_double (suc n) db h run

  create_ticket-IsUnique :
      (now : ℕ) (prediction : Text) (ms : List ℕ) (db : Db) {t : Ticket} {db' : Db}
      → IsUnique db
      → create_ticket f g f' g' u r now prediction ms db ≡ ok (t, db')
      → IsUnique db'
  create_ticket-IsUnique now prediction ms db h e v s =
      let (_, rest) = create_ticket-ok f g f' g' u r now prediction ms db e in
      let p = normalize_ticket_prediction prediction in
      let (c, _, _, _, run) = submit_choices-ok f g f' g' u r p ms db rest in
      let (mid, last, first, second, absent, _, same) = submit-ok f g f' g' u r p ms c db run in
      let h₁ : IsUnique mid = consume_doubles-IsUnique c.0 db h first in
      let h₂ : IsUnique last = consume_supers-IsUnique c.1 mid h₁ second in
      rw same (ground (arith, h₂ v s, has_ticket-count_tickets u r last.tickets absent))

-- A submission that passes every other check is refused if the user has a ticket already.
existing_is_refused :
    (f g f' g' : Db → Db) (u r now : ℕ) (prediction : Text) (ms : List ℕ) (db : Db) {c : ℕ × ℕ}
    → validate_round now (db.rounds r) ≡ ok tt
    → validate_choices (normalize_ticket_prediction prediction) ms ≡ ok tt
    → count_benefits ms 0 0 ≡ ok c
    → has_ticket u r db.tickets ≡ true
    → create_ticket f g f' g' u r now prediction ms db ≡ err (conflict ticket_already_exists)
unfolding create_ticket submit_choices
existing_is_refused f g f' g' u r now prediction ms db opened valid counted h =
    rw (opened, valid, counted, h) refl

-- After a ticket has been accepted, among transactions that keep it so, no user has two tickets in a
-- round. And whatever the user sends next for the round, at any time at which it passes the checks of
-- the round, of the prediction and of the multipliers, is refused as TICKET_ALREADY_EXISTS.
pub no_second_ticket :
    (f g f' g' : Db → Db) (keeps_f : Keeps f) (keeps_g : Keeps g) (keeps_f' : Keeps f')
    (keeps_g' : Keeps g') (u r now : ℕ) (prediction : Text) (ms : List ℕ) (db : Db) {t : Ticket}
    {db' : Db}
    → IsUnique db
    → create_ticket f g f' g' u r now prediction ms db ≡ ok (t, db')
    → (a b a' b' : Db → Db) (later : ℕ) (sent : Text) (ns : List ℕ) {c : ℕ × ℕ}
    → validate_round later (db'.rounds r) ≡ ok tt
    → validate_choices (normalize_ticket_prediction sent) ns ≡ ok tt
    → count_benefits ns 0 0 ≡ ok c
    → IsUnique db'
      × (create_ticket a b a' b' u r later sent ns db' ≡ err (conflict ticket_already_exists))
no_second_ticket f g f' g' kf kg kf' kg' u r now prediction ms db {t = t} h e a b a' b' later sent
      ns opened valid counted =
    let (_, is_new, _, _, _, (ts, rows, _)) =
      create_ticket_accepts f g f' g' u r now prediction ms db e in
    let has : has_ticket u r (t ∷ ts) ≡ true = rw is_new (ground arith) in
    (
      create_ticket-IsUnique f g f' g' kf kg kf' kg' u r now prediction ms db h e,
      existing_is_refused a b a' b' u r later sent ns _ opened valid counted (rw rows has),
    )
