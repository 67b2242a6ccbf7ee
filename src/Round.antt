-- ===== src/Round.antt =====
-- src/services/round: close-round.service.ts, open-round.service.ts, set-round-result.service.ts
-- (with `RoundRepository.findById`, `updateStatus`) and `normalizeRoundResult` of
-- round-match.types.ts: how a round opens, closes and gets its result.
pub mod Single
pub mod Closing
pub mod Results
pub mod Matches
pub mod Process
mod Tests
use boteco12_api.Prelude.{
  ℕ, suc, zero, Bool, true, false, not, ◌||◌, ◌&&◌, Option, none, some, List, [], ◌∷◌, map, ◌==◌,
  length, all, get_elem?, if◌then◌else◌,
}
use boteco12_api.Prelude.Text.{Text, text_eq, split, join, comma}
use boteco12_api.Errors.{
  Result, ok, err, failure, round_not_found, only_open_can_close, only_draft_can_open,
  needs_twelve_matches, another_round_open, result_frozen, invalid_result_size, invalid_result,
  database, record_not_found,
}
use boteco12_api.Transaction.{Tx, continue}
use boteco12_api.Db.{Db, Round, RoundBenefit, RoundStatus, draft, open_status, closed, put}
use boteco12_api.Prediction.{clean, home_win, draw_text, away_win}
use boteco12_api.Score.{cancelled_text}
use boteco12_api.Score.RoundScore.{update_status, is_scored}
use boteco12_api.Benefit.Grant.{User, grant_round_benefits}
use boteco12_api.Ticket.{is_open}

-- A row of `round_matches`, what the result is written to.
pub record RoundMatch : Type 0 where
  pub round : ℕ
  pub position : ℕ
  pub cancelled : Bool
  pub result : Option Text

-- The database with the matches, and the keys of the table `rounds`.
pub record Season : Type 0 where
  pub db : Db
  pub round_ids : List ℕ
  pub matches : List RoundMatch

abbrev on_db : {A : Type 0} → Tx Db A → Tx Season A
on_db m s = elim (m s.db) [ ok (a, db) ↦ ok (a, record s { db = db }) | err e ↦ err e ]

abbrev pub matches_of : ℕ → List RoundMatch → List RoundMatch
matches_of r [] = []
matches_of r (m ∷ ms) = let rest = matches_of r ms in if m.round == r then m ∷ rest else rest

abbrev pub emptied : Option RoundBenefit → Option RoundBenefit
emptied none = none
emptied (some b) = some (record { free_doubles = 0; free_super_doubles = 0 })

-- `roundBenefit.updateMany` over the rows of a round
unfoldable pub expire_benefits : ℕ → Db → Db
expire_benefits r db = record db {
  round_benefits = λ u k. if k == r then emptied (db.round_benefits u k) else db.round_benefits u k;
}

abbrev pub close_found : ℕ → Option Round → Tx Db (Unit {0})
close_found r none db = err (failure round_not_found)
close_found r (some x) db =
    if not (is_open x.status)
    then err (failure only_open_can_close)
    else continue (update_status r closed db) (λ _ db'. ok (tt, expire_benefits r db'))

-- `CloseRoundService.execute`: two statements, of which the second cannot be refused.
unfoldable pub close_round : ℕ → Tx Db (Unit {0})
unfolding expire_benefits
close_round r db = close_found r (db.rounds r) db

abbrev pub is_open_round : Option Round → Bool
is_open_round none = false
is_open_round (some x) = is_open x.status

abbrev is_draft : RoundStatus → Bool
is_draft draft = true
is_draft _ = false

-- Whether `round.findFirst` finds an OPEN round with another key.
unfoldable pub open_elsewhere : ℕ → List ℕ → Db → Bool
open_elsewhere r [] db = false
open_elsewhere r (j ∷ js) db =
    (not (j == r) && is_open_round (db.rounds j)) || open_elsewhere r js db

abbrev pub open_found : ℕ → Option Round → Tx Season (Unit {0})
open_found r none s = err (failure round_not_found)
open_found r (some x) s =
    if is_open x.status
    then ok (tt, s)
    else if not (is_draft x.status)
    then err (failure only_draft_can_open)
    else if not (length (matches_of r s.matches) == 12)
    then err (failure needs_twelve_matches)
    else if open_elsewhere r s.round_ids s.db
    then err (failure another_round_open)
    else on_db (update_status r open_status) s

-- The transaction of `OpenRoundService.execute`.
unfoldable pub open_status_of : ℕ → Tx Season (Unit {0})
open_status_of r s = open_found r (s.db.rounds r) s

-- `OpenRoundService.execute`, with the users that the grant reads.
unfoldable pub open_round : ℕ → ℕ → List User → Tx Season (Unit {0})
unfolding open_status_of
open_round now r users s =
    continue (open_status_of r s)
      (λ _ t. ok (tt, record t { db = grant_round_benefits now r users t.db }))

-- `VALID_MATCH_RESULTS.includes(value)`
abbrev pub is_match_result : Text → Bool
is_match_result t =
    text_eq t home_win || text_eq t draw_text || text_eq t away_win || text_eq t cancelled_text

abbrev pub check_result : List Text → Result (List Text)
check_result ts =
    if not (length ts == 12)
    then err (failure invalid_result_size)
    else if not (all is_match_result ts)
    then err (failure invalid_result)
    else ok ts

unfoldable pub normalize_round_result : Text → Result (List Text)
normalize_round_result result = check_result (map clean (split comma result))

-- `normalizedResult[position - 1]`
abbrev pub value_at : ℕ → List Text → Option Text
value_at zero ts = none
value_at (suc i) ts = get_elem? ts i

-- The data of `roundMatch.update`; an undefined `result` leaves the column as it is.
abbrev pub write_value : Option Text → RoundMatch → RoundMatch
write_value none m = record m { cancelled = false }
write_value (some v) m =
    if text_eq v cancelled_text
    then record m { cancelled = true; result = none }
    else record m { cancelled = false; result = some v }

unfoldable pub write_results : ℕ → List Text → List RoundMatch → List RoundMatch
write_results r ts [] = []
write_results r ts (m ∷ ms) =
    let rest = write_results r ts ms in
    (if m.round == r then write_value (value_at m.position ts) m else m) ∷ rest

abbrev put_result : ℕ → Round → Text → Db → Db
put_result r x text db = record db {
  rounds = put r (some (record x { result = some text })) db.rounds;
}

-- The transaction, with the row of the round as it finds it; the matches are those that were read.
abbrev pub with_row : ℕ → List Text → Season → Db → Option Round → Result (Unit {0} × Season)
with_row r ts s db none = err (database record_not_found)
with_row r ts s db (some y) =
    if length (matches_of r s.matches) == 0
    then ok (tt, record s { db = put_result r y (join comma ts) db })
    else if not (length (matches_of r s.matches) == 12)
    then err (failure needs_twelve_matches)
    else ok (
      tt,
      record s { db = put_result r y (join comma ts) db; matches = write_results r ts s.matches },
    )

-- `others` is what other transactions committed, matches apart, between the read of the round and
-- the transaction.
module _ (others : Db → Db) where
  abbrev pub result_found : ℕ → List Text → Option Round → Tx Season (Unit {0})
  result_found r ts none s = err (failure round_not_found)
  result_found r ts (some x) s =
      if is_scored x.status
      then err (failure result_frozen)
      else with_row r ts s (others s.db) ((others s.db).rounds r)

  abbrev pub set_normalized : ℕ → Result (List Text) → Tx Season (Unit {0})
  set_normalized r (err e) s = err e
  set_normalized r (ok ts) s = result_found r ts (s.db.rounds r) s

  -- `SetRoundResultService.execute`
  unfoldable pub set_round_result : ℕ → Text → Tx Season (Unit {0})
  unfolding normalize_round_result write_results
  set_round_result r result s = set_normalized r (normalize_round_result result) s
