-- ===== src/Score/RoundScore/Runs.antt =====
-- What a scoring of a round (score-round.service.ts) that was done has gone through.
use boteco12_api.Prelude.{ℕ, ◌≡◌, refl, sym, true, Option, none, some, List, arith}
use boteco12_api.Prelude.Text.{Text}
use boteco12_api.Errors.{Result, ok, err}
use boteco12_api.Db.{Db, Ticket, Round, RoundStatus, closed, scored, put}
use boteco12_api.Score.RoundScore.{
  score_tickets, score_closed, score_found, score_round, tickets_of, result_text, update_status,
}

module _ (others : Db → Db) (r : ℕ) (ts : List Ticket) (db : Db) where
  score_found-ok :
      (o : Option Round) {db' : Db}
      → score_found others r ts o db ≡ ok (true, db')
      → (x : Round) × (o ≡ some x)
        × (x.status ≡ closed)
        × (score_closed others r ts (result_text x.result) db ≡ ok (true, db'))
  unfolding score_found
  score_found-ok none e = cc
  score_found-ok (some x) e = (x, refl, ground arith, ground arith)

  score_closed-ok :
      (o : Option Text) {db' : Db}
      → score_closed others r ts o db ≡ ok (true, db')
      → (result : Text) × (mid : Db) × (o ≡ some result)
        × (score_tickets r result ts (others db) ≡ ok (tt, mid))
        × (update_status r scored mid ≡ ok (tt, db'))
  unfolding score_closed
  score_closed-ok none e = cc
  score_closed-ok (some result) {db'} e = go (score_tickets r result ts (others db)) refl
    where
      go :
          (m : Result (Unit {0} × Db))
          → score_tickets r result ts (others db) ≡ m
          → (result' : Text) × (mid : Db) × (some result ≡ some result')
            × (score_tickets r result' ts (others db) ≡ ok (tt, mid))
            × (update_status r scored mid ≡ ok (tt, db'))
      go (ok (_, mid)) f = (result, mid, refl, f, ground arith)
      go (err x) f = cc

update_status-ok :
    (r : ℕ) (s : RoundStatus) (db : Db) (o : Option Round) {db' : Db}
    → db.rounds r ≡ o
    → update_status r s db ≡ ok (tt, db')
    → (y : Round) × (db.rounds r ≡ some y)
      × (db' ≡ record db { rounds = put r (some (record y { status = s })) db.rounds })
unfolding update_status
update_status-ok r s db none f e = cc (f, e)
update_status-ok r s db (some y) f e = (y, f, sym (ground arith))

-- What a scoring that was done has gone through.
pub score_round-ok :
    (others : Db → Db) (r : ℕ) (db : Db) {db' : Db}
    → score_round others r db ≡ ok (true, db')
    → (x : Round) × (y : Round) × (result : Text) × (mid : Db) × (db.rounds r ≡ some x)
      × (x.status ≡ closed)
      × (result_text x.result ≡ some result)
      × (score_tickets r result (tickets_of r db.tickets) (others db) ≡ ok (tt, mid))
      × (mid.rounds r ≡ some y)
      × (db' ≡ record mid { rounds = put r (some (record y { status = scored })) mid.rounds })
unfolding score_round
score_round-ok others r db {db'} e =
    let ts = tickets_of r db.tickets in
    let (x, found, is_closed', rest) = score_found-ok others r ts db (db.rounds r) e in
    let (result, mid, has_result, run, last) =
      score_closed-ok others r ts db (result_text x.result) rest in
    let (y, there, same) = update_status-ok r scored mid (mid.rounds r) refl last in
    (x, y, result, mid, found, is_closed', has_result, run, there, same)
