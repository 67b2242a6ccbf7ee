-- ===== src/Ticket.antt =====
-- src/services/ticket/create-ticket.service.ts: a user sends the choices for a round.
pub mod Acceptance
pub mod Charge
pub mod Unique
mod Tests
use boteco12_api.Prelude.{
  ℕ, ◌+◌, Bool, true, false, ◌&&◌, Option, none, some, List, [], ◌∷◌, length, ◌==◌, ltb, leb, not,
  if◌then◌else◌,
}
use boteco12_api.Prelude.Int.{pos}
use boteco12_api.Prelude.Text.{Text, split, comma}
use boteco12_api.Errors.{
  Result, ok, err, bad_request, conflict, database, unique_violation, round_not_open,
  round_not_open_yet, round_predictions_closed, invalid_prediction_size, invalid_prediction,
  invalid_multiplier_size, invalid_multiplier, ticket_already_exists,
}
use boteco12_api.Transaction.{Tx, ◌>>=◌, ◌>>◌, pure, throw, throw_if, gets, modify, lift}
use boteco12_api.Db.{
  Db, Round, RoundStatus, open_status, Ticket, TicketStatus, double, super_double, ticket_submitted,
  log_audit,
}
use boteco12_api.Prediction.{normalize_ticket_prediction, is_valid_ticket_prediction}
use boteco12_api.Score.{is_multiplier}
use boteco12_api.Benefit.Consume.{consume}

abbrev pub is_open : RoundStatus → Bool
is_open open_status = true
is_open _ = false

-- `date && now < date`
abbrev is_before : ℕ → Option ℕ → Bool
is_before now none = false
is_before now (some d) = ltb now d

-- `date && now >= date`
abbrev pub has_passed : ℕ → Option ℕ → Bool
has_passed now none = false
has_passed now (some d) = leb d now

-- Step 1: the round takes choices at the time `now`.
unfoldable pub validate_round : ℕ → Option Round → Result (Unit {0})
validate_round now none = err (bad_request round_not_open)
validate_round now (some x) =
    if not (is_open x.status)
    then if is_before now x.open_at
      then err (bad_request round_not_open_yet)
      else err (bad_request round_not_open)
    else if has_passed now x.close_at
    then err (bad_request round_predictions_closed)
    else ok tt

-- Steps 2 and 3: the prediction and the number of multipliers.
unfoldable pub validate_choices : Text → List ℕ → Result (Unit {0})
validate_choices prediction multipliers =
    if not (length (split comma prediction) == 12)
    then err (bad_request invalid_prediction_size)
    else if not (is_valid_ticket_prediction prediction)
    then err (bad_request invalid_prediction)
    else if not (length multipliers == 12)
    then err (bad_request invalid_multiplier_size)
    else ok tt

-- Step 4: the loop that counts doubles and super doubles.
unfoldable pub count_benefits : List ℕ → ℕ → ℕ → Result (ℕ × ℕ)
count_benefits [] doubles supers = ok (doubles, supers)
count_benefits (m ∷ ms) doubles supers =
    if is_multiplier m
    then count_benefits ms (if m == 2 then doubles + 1 else doubles)
        (if m == 4 then supers + 1 else supers)
    else err (bad_request invalid_multiplier)

abbrev pub has_ticket : ℕ → ℕ → List Ticket → Bool
has_ticket u r [] = false
has_ticket u r (t ∷ ts) = if t.user == u && t.round == r then true else has_ticket u r ts

abbrev pub new_ticket : ℕ → ℕ → Text → List ℕ → Ticket
new_ticket u r prediction multipliers = record {
  user = u;
  round = r;
  prediction = prediction;
  multipliers = multipliers;
  status = TicketStatus.pending;
  score_round = pos 0;
}

-- `ticket.create`, under the unique index on user and round; the answer is the row.
unfoldable pub insert_ticket : Ticket → Tx Db Ticket
insert_ticket t db =
    if has_ticket t.user t.round db.tickets
    then err (database unique_violation)
    else ok (t, record db { tickets = t ∷ db.tickets })

-- Before the guarded updates of the two consumptions, the functions stand for what other
-- transactions committed.
module _ (f g f' g' : Db → Db) (u r : ℕ) where
  -- Step 5: one consumption for each type that is used.
  unfoldable pub consume_doubles : ℕ → Tx Db (Unit {0})
  consume_doubles n db = if ltb 0 n then (consume f g u r double n >> pure tt) db else ok (tt, db)

  unfoldable pub consume_supers : ℕ → Tx Db (Unit {0})
  consume_supers n db =
      if ltb 0 n then (consume f' g' u r super_double n >> pure tt) db else ok (tt, db)

  -- Steps 5 and 6: the benefits are consumed and the ticket is written. The answer stands for the row
  -- that was created, of which the service tells the generated id, the round and the time.
  unfoldable pub submit : Text → List ℕ → ℕ × ℕ → Tx Db Ticket
  submit prediction multipliers (doubles, supers) = do
    consume_doubles doubles
    consume_supers supers
    ticket ← insert_ticket (new_ticket u r prediction multipliers)
    log_audit (ticket_submitted u r doubles supers)
    pure ticket

  -- The part after the round has been found open.
  unfoldable pub submit_choices : Text → List ℕ → Tx Db Ticket
  submit_choices prediction multipliers = do
    lift (validate_choices prediction multipliers)
    counts ← lift (count_benefits multipliers 0 0)
    existing ← gets (λ db. has_ticket u r db.tickets)
    throw_if existing (conflict ticket_already_exists)
    submit prediction multipliers counts

  -- `CreateTicketService.execute` at the time `now`
  unfoldable pub create_ticket : ℕ → Text → List ℕ → Tx Db Ticket
  create_ticket now prediction multipliers = do
    round ← gets (λ db. db.rounds r)
    lift (validate_round now round)
    submit_choices (normalize_ticket_prediction prediction) multipliers
