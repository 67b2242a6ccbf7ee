-- ===== src/Ticket/Acceptance.antt =====
-- What a ticket that was accepted (create-ticket.service.ts) looks like, and that it can be scored.
use boteco12_api.Prelude.{
  ℕ, suc, ◌+◌, ◌≡◌, refl, sym, subst, true, false, Option, none, some, List, [], ◌∷◌, length, all,
  ◌==◌, if◌then◌else◌, arith,
}
use boteco12_api.Prelude.Text.{Text, split, comma}
use boteco12_api.Errors.{Result, ok, err}
use boteco12_api.Transaction.{>>=-eq-ok, lift-eq-ok, throw_if-eq-ok}
use boteco12_api.Db.{Db, Round, Ticket, open_status, double, super_double, ticket_submitted}
use boteco12_api.Prediction.{normalize_ticket_prediction, is_valid_ticket_prediction}
use boteco12_api.Score.{Breakdown, is_multiplier, detail}
use boteco12_api.Score.Defined.{detail_defined_iff}
use boteco12_api.Benefit.Consume.{Consumption, consume}
use boteco12_api.Ticket.{
  consume_doubles, consume_supers, insert_ticket, has_passed, validate_round, validate_choices,
  count_benefits, new_ticket, has_ticket, submit, submit_choices, create_ticket,
}

count_benefits-multipliers :
    (ms : List ℕ) (x y : ℕ) {c : ℕ × ℕ} → count_benefits ms x y ≡ ok c → all is_multiplier ms ≡ true
unfolding count_benefits
count_benefits-multipliers [] x y e = refl
count_benefits-multipliers (m ∷ ms) x y {c} e = ground (
  arith,
  count_benefits-multipliers ms (if m == 2 then x + 1 else x) (if m == 4 then y + 1 else y) {c = c},
)

validate_choices-ok :
    (p : Text) (ms : List ℕ)
    → validate_choices p ms ≡ ok tt
    → (length (split comma p) ≡ 12) × (is_valid_ticket_prediction p ≡ true) × (length ms ≡ 12)
unfolding validate_choices
validate_choices-ok p ms e = ground arith

validate_round-ok :
    (now : ℕ) (o : Option Round)
    → validate_round now o ≡ ok tt
    → (x : Round) × (o ≡ some x) × (x.status ≡ open_status) × (has_passed now x.close_at ≡ false)
unfolding validate_round
validate_round-ok now none e = cc
validate_round-ok now (some x) e = (x, refl, ground arith, ground arith)

module _ (f g f' g' : Db → Db) (u r : ℕ) where
  -- A consumption that is not empty was a successful call of `consume`.
  pub consume_doubles-ok :
      (n : ℕ) (db : Db) {db' : Db}
      → consume_doubles f g f' g' u r (suc n) db ≡ ok (tt, db')
      → (c : Consumption) × (consume f g u r double (suc n) db ≡ ok (c, db'))
  unfolding consume_doubles
  consume_doubles-ok n db {db'} e = go (consume f g u r double (suc n) db) refl
    where
      go :
          (m : Result (Consumption × Db))
          → consume f g u r double (suc n) db ≡ m
          → (c : Consumption) × (consume f g u r double (suc n) db ≡ ok (c, db'))
      go (ok (c, mid)) k = (c, ground arith)
      go (err x) k = absurd (ground arith)

  pub consume_supers-ok :
      (n : ℕ) (db : Db) {db' : Db}
      → consume_supers f g f' g' u r (suc n) db ≡ ok (tt, db')
      → (c : Consumption) × (consume f' g' u r super_double (suc n) db ≡ ok (c, db'))
  unfolding consume_supers
  consume_supers-ok n db {db'} e = go (consume f' g' u r super_double (suc n) db) refl
    where
      go :
          (m : Result (Consumption × Db))
          → consume f' g' u r super_double (suc n) db ≡ m
          → (c : Consumption) × (consume f' g' u r super_double (suc n) db ≡ ok (c, db'))
      go (ok (c, mid)) k = (c, ground arith)
      go (err x) k = absurd (ground arith)

  -- The stages of a submission that went through.
  pub submit-ok :
      (p : Text) (ms : List ℕ) (c : ℕ × ℕ) (db : Db) {t : Ticket} {db' : Db}
      → submit f g f' g' u r p ms c db ≡ ok (t, db')
      → (mid last : Db) × (consume_doubles f g f' g' u r c.0 db ≡ ok (tt, mid))
        × (consume_supers f g f' g' u r c.1 mid ≡ ok (tt, last))
        × (has_ticket u r last.tickets ≡ false)
        × (t ≡ new_ticket u r p ms)
        × (db' ≡ record last {
          tickets = new_ticket u r p ms ∷ last.tickets;
          audit = ticket_submitted u r c.0 c.1 ∷ last.audit;
        })
  unfolding submit insert_ticket
  submit-ok p ms c db e =
      let (_, mid, first, rest) = >>=-eq-ok (consume_doubles f g f' g' u r c.0) _ db e in
      let (_, last, second, rest') = >>=-eq-ok (consume_supers f g f' g' u r c.1) _ mid rest in
      (mid, last, first, second, ground arith, ground arith, ground arith)

  -- What an accepted submission has gone through.
  pub submit_choices-ok :
      (p : Text) (ms : List ℕ) (db : Db) {t : Ticket} {db' : Db}
      → submit_choices f g f' g' u r p ms db ≡ ok (t, db')
      → (c : ℕ × ℕ) × (validate_choices p ms ≡ ok tt)
        × (count_benefits ms 0 0 ≡ ok c)
        × (has_ticket u r db.tickets ≡ false)
        × (submit f g f' g' u r p ms c db ≡ ok (t, db'))
  unfolding submit_choices
  submit_choices-ok p ms db e =
      let (_, valid, rest) = lift-eq-ok (validate_choices p ms) _ db e in
      let (c, counted, rest') = lift-eq-ok (count_benefits ms 0 0) _ db rest in
      let (new, rest'') = throw_if-eq-ok (has_ticket u r db.tickets) _ _ db rest' in
      (c, valid, counted, new, rest'')

  -- What an accepted ticket has gone through.
  pub create_ticket-ok :
      (now : ℕ) (prediction : Text) (ms : List ℕ) (db : Db) {t : Ticket} {db' : Db}
      → create_ticket f g f' g' u r now prediction ms db ≡ ok (t, db')
      → (validate_round now (db.rounds r) ≡ ok tt)
        × (submit_choices f g f' g' u r (normalize_ticket_prediction prediction) ms db
            ≡ ok (t, db'))
  unfolding create_ticket
  create_ticket-ok now prediction ms db e =
      let (_, open_round, rest) = lift-eq-ok (validate_round now (db.rounds r)) _ db e in
      (open_round, rest)

  -- An accepted ticket came while its round was OPEN and before its closing time. It is written to the
  -- tickets, as the only one of the user in the round, with the normalized prediction, which is valid,
  -- and with twelve multipliers, each 1, 2 or 4.
  pub create_ticket_accepts :
      (now : ℕ) (prediction : Text) (ms : List ℕ) (db : Db) {t : Ticket} {db' : Db}
      → create_ticket f g f' g' u r now prediction ms db ≡ ok (t, db')
      → ((x : Round) × (db.rounds r ≡ some x)
          × (x.status ≡ open_status)
          × (has_passed now x.close_at ≡ false))
        × (t ≡ new_ticket u r (normalize_ticket_prediction prediction) ms)
        × (is_valid_ticket_prediction t.prediction ≡ true)
        × (length t.multipliers ≡ 12)
        × (all is_multiplier t.multipliers ≡ true)
        × ((ts : List Ticket) × (db'.tickets ≡ t ∷ ts) × (has_ticket u r ts ≡ false))
  create_ticket_accepts now prediction ms db e =
      let (opened, rest) = create_ticket-ok now prediction ms db e in
      let p = normalize_ticket_prediction prediction in
      let (c, valid, counted, _, run) = submit_choices-ok p ms db rest in
      let (_, last, _, _, absent, is_new, left) = submit-ok p ms c db run in
      let (_, choices, twelve) = validate_choices-ok p ms valid in
      (
        validate_round-ok now (db.rounds r) opened,
        is_new,
        rw is_new choices,
        rw is_new twelve,
        rw is_new (count_benefits-multipliers ms 0 0 counted),
        (last.tickets, rw (left, is_new) refl, absent),
      )

  -- Whatever a user sends: a ticket that was accepted can be scored against every result of twelve
  -- matches.
  pub accepted_ticket_has_score :
      (now : ℕ) (prediction result : Text) (ms : List ℕ) (db : Db) {t : Ticket} {db' : Db}
      → create_ticket f g f' g' u r now prediction ms db ≡ ok (t, db')
      → length (split comma result) ≡ 12
      → (b : Breakdown) × (detail t.prediction result t.multipliers ≡ ok b)
  accepted_ticket_has_score now prediction result ms db e l =
      let (_, rest) = create_ticket-ok now prediction ms db e in
      let p = normalize_ticket_prediction prediction in
      let (c, valid, counted, _, run) = submit_choices-ok p ms db rest in
      let (_, _, _, _, _, is_new, _) = submit-ok p ms c db run in
      let (size, _, twelve) = validate_choices-ok p ms valid in
      subst (λ x. (b : Breakdown) × (detail x.prediction result x.multipliers ≡ ok b)) (sym is_new)
        ((detail_defined_iff p result ms).1
          (size, l, twelve, count_benefits-multipliers ms 0 0 counted))
