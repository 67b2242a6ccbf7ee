-- ===== src/Score/RoundScore/Once.antt =====
-- A round is scored once (score-round.service.ts): a second run finds it SCORED, and one that read
-- the round before the first committed is stopped by the unique index of the histories.
use boteco12_api.Prelude.{ℕ, ◌≡◌, ◌≢◌, Bool, true, false, some, List, [], ◌∷◌, if◌then◌else◌, arith}
use boteco12_api.Prelude.Text.{Text}
use boteco12_api.Errors.{ok}
use boteco12_api.Transaction.{>>=-eq-ok}
use boteco12_api.Db.{Db, Ticket, scored}
use boteco12_api.Score.RoundScore.{
  score_ticket, record_score, score_tickets, score_found, score_round, tickets_of, has_history,
}
use boteco12_api.Score.RoundScore.Runs.{score_round-ok}

-- A ticket is scored if its user has no history of the round yet, and then there is one.
score_ticket-has_history :
    (r : ℕ) (result : Text) (t : Ticket) (db : Db) {db' : Db}
    → score_ticket r result t db ≡ ok (tt, db')
    → (has_history t.user r db.histories ≡ false) × (has_history t.user r db'.histories ≡ true)
unfolding score_ticket record_score
score_ticket-has_history r result t db e = ground arith

score_ticket-keeps :
    (r : ℕ) (result : Text) (t : Ticket) (db : Db) (u s : ℕ) {db' : Db}
    → score_ticket r result t db ≡ ok (tt, db')
    → has_history u s db.histories ≡ true
    → has_history u s db'.histories ≡ true
unfolding score_ticket record_score
score_ticket-keeps r result t db u s e h = ground arith

score_tickets-keeps :
    (r : ℕ) (result : Text) (ts : List Ticket) (db : Db) (u s : ℕ) {db' : Db}
    → score_tickets r result ts db ≡ ok (tt, db')
    → has_history u s db.histories ≡ true
    → has_history u s db'.histories ≡ true
unfolding score_tickets
score_tickets-keeps r result [] db u s e h = ground arith
score_tickets-keeps r result (t ∷ ts) db u s e h =
    let (_, mid, first, rest) =
      >>=-eq-ok (score_ticket r result t) (λ _. score_tickets r result ts) db e in
    score_tickets-keeps r result ts mid u s rest (score_ticket-keeps r result t db u s first h)

-- Whether one of the tickets has a history in the round.
abbrev some_scored : ℕ → List Ticket → Db → Bool
some_scored r [] db = false
some_scored r (t ∷ ts) db = if has_history t.user r db.histories then true else some_scored r ts db

some_scored-keeps :
    (r : ℕ) (result : Text) (t : Ticket) (ts : List Ticket) (db : Db) {db' : Db}
    → score_ticket r result t db ≡ ok (tt, db')
    → some_scored r ts db ≡ true
    → some_scored r ts db' ≡ true
some_scored-keeps r result t [] db e h = cc
some_scored-keeps r result t (u ∷ ts) db e h =
    ground
      (arith, score_ticket-keeps r result t db u.user r e, some_scored-keeps r result t ts db e)

score_tickets-refused :
    (r : ℕ) (result : Text) (ts : List Ticket) (db : Db) {db' : Db}
    → some_scored r ts db ≡ true
    → score_tickets r result ts db ≢ ok (tt, db')
unfolding score_tickets
score_tickets-refused r result [] db h e = cc
score_tickets-refused r result (t ∷ ts) db h e =
    let (_, mid, first, rest) =
      >>=-eq-ok (score_ticket r result t) (λ _. score_tickets r result ts) db e in
    score_tickets-refused r result ts mid
      (some_scored-keeps r result t ts db first
        (ground (arith, score_ticket-has_history r result t db first)))
      rest

-- A scoring is not done if at its writes another transaction has left a history of the round for one
-- of the tickets that it read.
score_round_refused :
    (others : Db → Db) (r : ℕ) (db : Db) {db' : Db}
    → some_scored r (tickets_of r db.tickets) (others db) ≡ true
    → score_round others r db ≢ ok (true, db')
score_round_refused others r db h e =
    let (_, _, result, _, _, _, _, run, _, _) = score_round-ok others r db e in
    score_tickets-refused r result (tickets_of r db.tickets) (others db) h run

score_tickets-head :
    (r : ℕ) (result : Text) (t : Ticket) (ts : List Ticket) (db : Db) {db' : Db}
    → score_tickets r result (t ∷ ts) db ≡ ok (tt, db')
    → has_history t.user r db'.histories ≡ true
unfolding score_tickets
score_tickets-head r result t ts db e =
    let (_, mid, first, rest) =
      >>=-eq-ok (score_ticket r result t) (λ _. score_tickets r result ts) db e in
    score_tickets-keeps r result ts mid t.user r rest
      (score_ticket-has_history r result t db first).1

-- Of two transactions that both read a CLOSED round with tickets, at most one scores it.
pub no_double_scoring :
    (r : ℕ) (db : Db) {t : Ticket} {ts : List Ticket} {db₁ db₂ : Db}
    → tickets_of r db.tickets ≡ t ∷ ts
    → score_round (λ s. s) r db ≡ ok (true, db₁)
    → score_round (λ _. db₁) r db ≢ ok (true, db₂)
no_double_scoring r db {t} {ts} {db₁} some_ticket first =
    let (_, _, result, mid, _, _, _, run, _, same) = score_round-ok (λ s. s) r db first in
    let there : has_history t.user r db₁.histories ≡ true =
      rw same (score_tickets-head r result t ts db (rw some_ticket at run)) in
    score_round_refused (λ _. db₁) r db (rw some_ticket (rw there))

-- Scoring again after a scoring that was done answers false and changes nothing.
pub score_round_idem :
    (others others' : Db → Db) (r : ℕ) (db : Db) {db' : Db}
    → score_round others r db ≡ ok (true, db')
    → score_round others' r db' ≡ ok (false, db')
unfolding score_round score_found
score_round_idem others others' r db {db'} e =
    let (_, y, _, _, _, _, _, _, _, same) = score_round-ok others r db e in
    let found : db'.rounds r ≡ some (record y { status = scored }) = rw same (ground arith) in
    rw found
