-- ===== src/Score/RoundScore/Totals.antt =====
-- What scoring a round (score-round.service.ts) does to the totals of the users.
use boteco12_api.Prelude.{ℕ, ◌≡◌, refl, true, some, List, [], ◌∷◌, ◌==◌, if◌then◌else◌, arith}
use boteco12_api.Prelude.Int.{ℤ, pos, ◌+ℤ◌, +ℤ_assoc, +ℤ_comm, +ℤ_zero}
use boteco12_api.Prelude.Text.{Text}
use boteco12_api.Errors.{Result, ok, err}
use boteco12_api.Transaction.{>>=-eq-ok}
use boteco12_api.Db.{Db, Ticket, ScoreHistory, Round, scored}
use boteco12_api.Score.{Breakdown, detail}
use boteco12_api.Score.RoundScore.Runs.{score_round-ok}
use boteco12_api.Score.RoundScore.{
  record_score, score_ticket, score_tickets, score_round, tickets_of, result_text,
}

-- The points of all histories of a user.
abbrev history_points : ℕ → List ScoreHistory → ℤ
history_points u [] = pos 0
history_points u (h ∷ hs) =
    if h.user == u then h.score_round +ℤ history_points u hs else history_points u hs

-- Every user's total is the sum of the user's histories.
abbrev pub IsAccounted : Db → Type 0
IsAccounted db = (u : ℕ) → db.user_scores u ≡ history_points u db.histories

record_score-IsAccounted :
    (r : ℕ) (t : Ticket) (b : Breakdown) (db : Db) {db' : Db}
    → IsAccounted db
    → record_score r t b db ≡ ok (tt, db')
    → IsAccounted db'
unfolding record_score
record_score-IsAccounted r t b db h e u =
    ground (arith, h u, +ℤ_comm (history_points u db.histories) b.total)

score_ticket-IsAccounted :
    (r : ℕ) (result : Text) (t : Ticket) (db : Db) {db' : Db}
    → IsAccounted db
    → score_ticket r result t db ≡ ok (tt, db')
    → IsAccounted db'
unfolding score_ticket
score_ticket-IsAccounted r result t db {db'} h e =
    go (detail t.prediction result t.multipliers) refl
  where
    go : (d : Result Breakdown) → detail t.prediction result t.multipliers ≡ d → IsAccounted db'
    go (ok b) f = record_score-IsAccounted r t b db h (rw f at e)
    go (err x) f = cc

score_tickets-IsAccounted :
    (r : ℕ) (result : Text) (ts : List Ticket) (db : Db) {db' : Db}
    → IsAccounted db
    → score_tickets r result ts db ≡ ok (tt, db')
    → IsAccounted db'
unfolding score_tickets
score_tickets-IsAccounted r result [] db h e = λ u. ground (arith, h u)
score_tickets-IsAccounted r result (t ∷ ts) db {db'} h e =
    let (_, mid, first, rest) =
      >>=-eq-ok (score_ticket r result t) (λ _. score_tickets r result ts) db e in
    score_tickets-IsAccounted r result ts mid (score_ticket-IsAccounted r result t db h first) rest

-- Scoring keeps every user's total equal to the sum of the user's histories.
pub score_round-IsAccounted :
    (others : Db → Db) (r : ℕ) (db : Db) {db' : Db}
    → IsAccounted (others db)
    → score_round others r db ≡ ok (true, db')
    → IsAccounted db'
score_round-IsAccounted others r db h e =
    let (x, y, result, mid, _, _, _, run, _, same) = score_round-ok others r db e in
    rw same (score_tickets-IsAccounted r result (tickets_of r db.tickets) (others db) h run)

-- What the tickets of a list are worth to a user.
abbrev points_of : Result Breakdown → ℤ
points_of (ok b) = b.total
points_of (err e) = pos 0

abbrev pub round_points : ℕ → Text → List Ticket → ℤ
round_points u result [] = pos 0
round_points u result (t ∷ ts) =
    if t.user == u
    then points_of (detail t.prediction result t.multipliers) +ℤ round_points u result ts
    else round_points u result ts

score_ticket-user_scores :
    (r : ℕ) (result : Text) (t : Ticket) (db : Db) (u : ℕ) {db' : Db}
    → score_ticket r result t db ≡ ok (tt, db')
    → db'.user_scores u ≡ (
        if t.user == u
        then db.user_scores u +ℤ points_of (detail t.prediction result t.multipliers)
        else db.user_scores u)
unfolding score_ticket record_score
score_ticket-user_scores r result t db u e = ground arith

score_tickets-user_scores :
    (r : ℕ) (result : Text) (ts : List Ticket) (db : Db) (u : ℕ) {db' : Db}
    → score_tickets r result ts db ≡ ok (tt, db')
    → db'.user_scores u ≡ db.user_scores u +ℤ round_points u result ts
unfolding score_tickets
score_tickets-user_scores r result [] db u e = ground (arith, +ℤ_zero (db.user_scores u))
score_tickets-user_scores r result (t ∷ ts) db u e =
    let (_, mid, first, rest) =
      >>=-eq-ok (score_ticket r result t) (λ _. score_tickets r result ts) db e in
    let p = points_of (detail t.prediction result t.multipliers) in
    ground (
      arith,
      score_tickets-user_scores r result ts mid u rest,
      score_ticket-user_scores r result t db u first,
      +ℤ_assoc (db.user_scores u) p (round_points u result ts),
    )

-- A scoring that is done raises each user's total by what the user's tickets of the round are worth,
-- on top of what other transactions left there, and ends with the round SCORED.
pub score_round_effect :
    (others : Db → Db) (r : ℕ) (db : Db) {db' : Db}
    → score_round others r db ≡ ok (true, db')
    → (x : Round) × (y : Round) × (result : Text) × (db.rounds r ≡ some x)
      × (result_text x.result ≡ some result)
      × (db'.rounds r ≡ some (record y { status = scored }))
      × ((u : ℕ)
          → db'.user_scores u
            ≡ (others db).user_scores u +ℤ round_points u result (tickets_of r db.tickets))
score_round_effect others r db e =
    let (x, y, result, mid, found, _, has_result, run, _, same) = score_round-ok others r db e in
    (
      x,
      y,
      result,
      found,
      has_result,
      rw same (ground arith),
      λ u. rw same (score_tickets-user_scores r result (tickets_of r db.tickets) (others db) u run),
    )
