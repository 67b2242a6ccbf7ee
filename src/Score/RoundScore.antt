-- ===== src/Score/RoundScore.antt =====
-- src/services/score/score-round.service.ts: the points of a round's tickets reach the users.
-- The recalculation of rankings and the snapshot that follow the transaction are not modelled; the
-- answer tells whether they run. `others` is what other transactions committed between the read of
-- the round and the first write.
pub mod Runs
pub mod Totals
pub mod Once
mod Tests
use boteco12_api.Prelude.{
  ℕ, ◌+◌, Bool, true, false, ◌&&◌, Option, none, some, List, [], ◌∷◌, map, ◌==◌, ltb, if◌then◌else◌,
  not,
}
use boteco12_api.Prelude.Int.{ℤ, pos, ◌+ℤ◌, ltb_ℤ}
use boteco12_api.Prelude.Text.{Text}
use boteco12_api.Errors.{
  Result, ok, err, failure, database, unique_violation, record_not_found, round_not_found,
  only_closed_can_score, result_missing,
}
use boteco12_api.Transaction.{Tx, ◌>>=◌, ◌>>◌, pure, throw, throw_if, gets, modify, lift}
use boteco12_api.Db.{
  Db, Round, RoundStatus, draft, pending, open_status, closed, scored, cancelled, Ticket,
  TicketStatus, won, lost, ScoreHistory, put,
}
use boteco12_api.Score.{Breakdown, detail}

-- `round.tickets`
abbrev pub tickets_of : ℕ → List Ticket → List Ticket
tickets_of r [] = []
tickets_of r (t ∷ ts) = if t.round == r then t ∷ tickets_of r ts else tickets_of r ts

-- `ticket.update`
abbrev mark_ticket : ℕ → ℕ → ℤ → TicketStatus → List Ticket → List Ticket
mark_ticket u r s status [] = []
mark_ticket u r s status (t ∷ ts) =
    (if t.user == u && t.round == r then record t { status = status; score_round = s } else t)
    ∷ mark_ticket u r s status ts

abbrev round_number : Db → ℕ → ℕ
round_number db r = elim (db.rounds r) [ none ↦ 0 | some x ↦ x.number ]

abbrev later_of : (ℕ → ℕ) → ScoreHistory → Option ScoreHistory → ScoreHistory
later_of number h none = h
later_of number h (some k) = if ltb (number h.round) (number k.round) then k else h

-- `findFirst` by round number, then by time of creation, the latest first: the history of the user
-- with the greatest round number, and of those the newest, which stands first in the list.
abbrev last_history : (ℕ → ℕ) → ℕ → List ScoreHistory → Option ScoreHistory
last_history number u [] = none
last_history number u (h ∷ hs) =
    let rest = last_history number u hs in
    if h.user == u then some (later_of number h rest) else rest

-- `lastHistory?.totalDoubles ?? 0`
abbrev doubles_so_far : Option ScoreHistory → ℕ
doubles_so_far none = 0
doubles_so_far (some h) = h.total_doubles

abbrev super_doubles_so_far : Option ScoreHistory → ℕ
super_doubles_so_far none = 0
super_doubles_so_far (some h) = h.total_super_doubles

abbrev pub has_history : ℕ → ℕ → List ScoreHistory → Bool
has_history u r [] = false
has_history u r (h ∷ hs) = if h.user == u && h.round == r then true else has_history u r hs

-- `userScoreHistory.create`, under the unique index on user and round
abbrev create_history : ScoreHistory → Tx Db (Unit {0})
create_history h db =
    if has_history h.user h.round db.histories
    then err (database unique_violation)
    else ok (tt, record db { histories = h ∷ db.histories })

abbrev ticket_status : ℤ → TicketStatus
ticket_status s = if ltb_ℤ (pos 0) s then won else lost

-- The statements for one ticket with its breakdown.
unfoldable pub record_score : ℕ → Ticket → Breakdown → Tx Db (Unit {0})
record_score r t b = do
  modify (λ db. record db {
    user_scores = put t.user (db.user_scores t.user +ℤ b.total) db.user_scores;
    tickets = mark_ticket t.user r b.total (ticket_status b.total) db.tickets;
  })
  last ← gets (λ db. last_history (round_number db) t.user db.histories)
  total ← gets (λ db. db.user_scores t.user)
  create_history (record {
    user = t.user;
    round = r;
    score_round = b.total;
    score_total = total;
    total_doubles = doubles_so_far last + b.tally.double_hits;
    total_super_doubles = super_doubles_so_far last + b.tally.super_double_hits;
  })

-- The body of the loop.
unfoldable pub score_ticket : ℕ → Text → Ticket → Tx Db (Unit {0})
score_ticket r result t = do b ← lift (detail t.prediction result t.multipliers); record_score r t b

unfoldable pub score_tickets : ℕ → Text → List Ticket → Tx Db (Unit {0})
score_tickets r result [] = pure tt
score_tickets r result (t ∷ ts) = score_ticket r result t >> score_tickets r result ts

abbrev set_status : RoundStatus → ℕ → Option Round → Tx Db (Unit {0})
set_status s r none db = err (database record_not_found)
set_status s r (some x) db =
    ok (tt, record db { rounds = put r (some (record x { status = s })) db.rounds })

-- `round.update` of the status
unfoldable pub update_status : ℕ → RoundStatus → Tx Db (Unit {0})
update_status r s db = set_status s r (db.rounds r) db

abbrev pub is_closed : RoundStatus → Bool
is_closed closed = true
is_closed _ = false

abbrev pub is_scored : RoundStatus → Bool
is_scored scored = true
is_scored _ = false

-- `!round.result`: no result, or the empty text
abbrev pub result_text : Option Text → Option Text
result_text none = none
result_text (some []) = none
result_text (some (c ∷ s)) = some (c ∷ s)

module _ (others : Db → Db) where
  unfoldable pub score_closed : ℕ → List Ticket → Option Text → Tx Db Bool
  score_closed r ts none = throw (failure result_missing)
  score_closed r ts (some result) = do
    modify others
    score_tickets r result ts
    update_status r scored
    pure true

  unfoldable pub score_found : ℕ → List Ticket → Option Round → Tx Db Bool
  score_found r ts none db = err (failure round_not_found)
  score_found r ts (some x) db =
      if is_scored x.status
      then ok (false, db)
      else if not (is_closed x.status)
      then err (failure only_closed_can_score)
      else score_closed r ts (result_text x.result) db

  -- `execute`; false where the round was scored before
  unfoldable pub score_round : ℕ → Tx Db Bool
  score_round r db = score_found r (tickets_of r db.tickets) (db.rounds r) db
