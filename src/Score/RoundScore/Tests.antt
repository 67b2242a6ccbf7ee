-- ===== src/Score/RoundScore/Tests.antt =====
-- Scoring a round at a concrete database.
use boteco12_api.Prelude.{ℕ, ◌≡◌, ◌≢◌, refl, true, none, some, [], ◌∷◌, ◌==◌, if◌then◌else◌}
use boteco12_api.Prelude.Int.{pos, ◌+ℤ◌}
use boteco12_api.Prelude.Text.{Text, split, join, upper, is_space, trim}
use boteco12_api.Errors.{ok, err, failure, only_closed_can_score}
use boteco12_api.Transaction.{committed}
use boteco12_api.Prediction.{clean, normalize_ticket_prediction}
use boteco12_api.Db.{Db, Round, Ticket, TicketStatus, closed, open_status, scored, empty_db}
use boteco12_api.Score.{detail, detail_tokens, count_matches, count_match}
use boteco12_api.Score.RoundScore.{
  score_round, score_found, score_closed, score_tickets, score_ticket, record_score, update_status,
  result_text, tickets_of,
}
use boteco12_api.Score.RoundScore.Totals.{
  IsAccounted, score_round-IsAccounted, score_round_effect, round_points,
}
use boteco12_api.Score.RoundScore.Once.{no_double_scoring}

abbrev all_home : Text
all_home =
    49 ∷ 44 ∷ 49 ∷ 44 ∷ 49 ∷ 44 ∷ 49 ∷ 44 ∷ 49 ∷ 44 ∷ 49 ∷ 44 ∷ 49 ∷ 44 ∷ 49 ∷ 44 ∷ 49 ∷ 44 ∷ 49
    ∷ 44 ∷ 49 ∷ 44 ∷ 49 ∷ []

abbrev round_two : Round
round_two = record {
  number = 2;
  status = closed;
  open_at = none;
  close_at = none;
  result = some all_home;
}

abbrev ticket : Ticket
ticket = record {
  user = 7;
  round = 5;
  prediction = all_home;
  multipliers = 2 ∷ 1 ∷ 1 ∷ 1 ∷ 1 ∷ 1 ∷ 1 ∷ 1 ∷ 1 ∷ 1 ∷ 1 ∷ 4 ∷ [];
  status = TicketStatus.pending;
  score_round = pos 0;
}

abbrev start : Db
start = record empty_db {
  rounds = λ r. if r == 5 then some round_two else none;
  tickets = ticket ∷ [];
}

abbrev after : Db
after = committed start (score_round (λ s. s) 5 start)

scoring_runs : score_round (λ s. s) 5 start ≡ ok (true, after)
unfolding score_round score_found score_closed score_tickets score_ticket record_score update_status
    detail detail_tokens count_matches count_match normalize_ticket_prediction clean split join
    upper is_space trim ◌+ℤ◌
scoring_runs = refl

score_round-IsAccounted_example : IsAccounted after
score_round-IsAccounted_example = score_round-IsAccounted (λ s. s) 5 start (λ u. refl) scoring_runs

score_round_effect_example :
    (x : Round) × (y : Round) × (result : Text) × (start.rounds 5 ≡ some x)
    × (result_text x.result ≡ some result)
    × (after.rounds 5 ≡ some (record y { status = scored }))
    × ((u : ℕ)
        → after.user_scores u
          ≡ start.user_scores u +ℤ round_points u result (tickets_of 5 start.tickets))
score_round_effect_example = score_round_effect (λ s. s) 5 start scoring_runs

no_double_scoring_example : score_round (λ _. after) 5 start ≢ ok (true, after)
no_double_scoring_example = no_double_scoring 5 start refl scoring_runs

open_round_refused :
    score_round
      (λ s. s)
      5
      (record start { rounds = λ _. some (record round_two { status = open_status }) })
    ≡ err (failure only_closed_can_score)
unfolding score_round score_found
open_round_refused = refl
