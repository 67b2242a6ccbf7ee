-- ===== src/Ticket/Tests.antt =====
-- Tickets at concrete databases.
use boteco12_api.Prelude.{
  ℕ, ◌≡◌, ◌+◌, refl, true, false, none, some, List, [], ◌∷◌, if◌then◌else◌, length, all, arith,
}
use boteco12_api.Prelude.Text.{Text, split, join, upper, is_space, trim}
use boteco12_api.Errors.{
  ok, err, conflict, bad_request, ticket_already_exists, round_predictions_closed,
}
use boteco12_api.Transaction.{committed}
use boteco12_api.Db.{Db, Round, Ticket, open_status, closed, double, super_double, bet_eq, empty_db}
use boteco12_api.Prediction.{clean, normalize_ticket_prediction, is_valid_ticket_prediction}
use boteco12_api.Score.{Breakdown, is_multiplier, detail}
use boteco12_api.Benefit.Consume.{consume, consume_free, consume_rest}
use boteco12_api.Benefit.Accounting.{quiet}
use boteco12_api.Ticket.{
  has_passed, validate_round, validate_choices, count_benefits, insert_ticket, consume_doubles,
  consume_supers, submit, submit_choices, new_ticket, has_ticket, create_ticket,
}
use boteco12_api.Ticket.Acceptance.{create_ticket_accepts, accepted_ticket_has_score}
use boteco12_api.Ticket.Charge.{usable, create_ticket_charge}
use boteco12_api.Ticket.Unique.{no_second_ticket}

-- Twelve times "1", the first written with a space.
abbrev choices : Text
choices =
    32 ∷ 49 ∷ 44 ∷ 49 ∷ 44 ∷ 49 ∷ 44 ∷ 49 ∷ 44 ∷ 49 ∷ 44 ∷ 49 ∷ 44 ∷ 49 ∷ 44 ∷ 49 ∷ 44 ∷ 49 ∷ 44
    ∷ 49 ∷ 44 ∷ 49 ∷ 44 ∷ 49 ∷ []

abbrev bets : List ℕ
bets = 2 ∷ 1 ∷ 1 ∷ 1 ∷ 1 ∷ 1 ∷ 2 ∷ 1 ∷ 1 ∷ 1 ∷ 1 ∷ 2 ∷ []

abbrev start : Db
start = record empty_db {
  rounds = λ r. some (record {
    number = 2;
    status = open_status;
    open_at = none;
    close_at = some 100;
    result = none;
  });
  round_benefits = λ u r. some (record { free_doubles = 2; free_super_doubles = 0 });
  inventory = λ u t. if bet_eq t double then some 3 else none;
}

abbrev after : Db
after = committed start (create_ticket quiet quiet quiet quiet 7 5 60 choices bets start)

abbrev sent : Ticket
sent = new_ticket 7 5 (normalize_ticket_prediction choices) bets

accepted : create_ticket quiet quiet quiet quiet 7 5 60 choices bets start ≡ ok (sent, after)
unfolding create_ticket validate_round submit_choices validate_choices count_benefits submit
    insert_ticket consume_doubles consume_supers consume consume_free consume_rest
    is_valid_ticket_prediction normalize_ticket_prediction clean split join upper is_space trim
accepted = refl

-- The round is closed before the first consumption of a submission that has found it OPEN.
abbrev closing : Db → Db
closing db = record db {
  rounds = λ r.
      some (record {
        number = 2;
        status = closed;
        open_at = none;
        close_at = some 100;
        result = none;
      });
}

late_ticket_is_written :
    (committed start (create_ticket closing quiet quiet quiet 7 5 60 choices bets start)).tickets
    ≡ sent ∷ []
unfolding create_ticket validate_round submit_choices validate_choices count_benefits submit
    insert_ticket consume_doubles consume_supers consume consume_free consume_rest
    is_valid_ticket_prediction normalize_ticket_prediction clean split join upper is_space trim
late_ticket_is_written = refl

too_late :
    create_ticket quiet quiet quiet quiet 7 5 100 choices bets start
    ≡ err (bad_request round_predictions_closed)
unfolding create_ticket validate_round
too_late = refl

second_ticket :
    create_ticket quiet quiet quiet quiet 7 5 61 choices bets after
    ≡ err (conflict ticket_already_exists)
unfolding create_ticket validate_round submit_choices validate_choices count_benefits submit
    insert_ticket consume_doubles consume_supers consume consume_free consume_rest
    is_valid_ticket_prediction normalize_ticket_prediction clean split join upper is_space trim
second_ticket = refl

create_ticket_accepts_example :
    ((x : Round) × (start.rounds 5 ≡ some x)
      × (x.status ≡ open_status)
      × (has_passed 60 x.close_at ≡ false))
    × (sent ≡ new_ticket 7 5 (normalize_ticket_prediction choices) bets)
    × (is_valid_ticket_prediction sent.prediction ≡ true)
    × (length sent.multipliers ≡ 12)
    × (all is_multiplier sent.multipliers ≡ true)
    × ((ts : List Ticket) × (after.tickets ≡ sent ∷ ts) × (has_ticket 7 5 ts ≡ false))
create_ticket_accepts_example =
    create_ticket_accepts quiet quiet quiet quiet 7 5 60 choices bets start accepted

accepted_ticket_has_score_example :
    (b : Breakdown) × (detail sent.prediction choices sent.multipliers ≡ ok b)
unfolding split
accepted_ticket_has_score_example =
    accepted_ticket_has_score quiet quiet quiet quiet 7 5 60 choices choices bets start accepted
      refl

create_ticket_charge_example :
    (3 + usable after 7 5 double ≡ 5) × (0 + usable after 7 5 super_double ≡ 0)
create_ticket_charge_example = create_ticket_charge 7 5 60 choices bets start accepted

no_second_ticket_example :
    create_ticket quiet quiet quiet quiet 7 5 61 choices bets after
    ≡ err (conflict ticket_already_exists)
unfolding create_ticket validate_round submit_choices validate_choices count_benefits submit
    insert_ticket consume_doubles consume_supers consume consume_free consume_rest
    is_valid_ticket_prediction normalize_ticket_prediction clean split join upper is_space trim
no_second_ticket_example =
    (no_second_ticket quiet quiet quiet quiet (λ s h. h) (λ s h. h) (λ s h. h) (λ s h. h) 7 5 60
      choices bets start (λ u r. omega arith) accepted quiet quiet quiet quiet 61 choices bets refl
      refl refl).1
