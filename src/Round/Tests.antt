-- ===== src/Round/Tests.antt =====
-- A season of two rounds: the first is opened, closed and gets its result.
use boteco12_api.Prelude.{
  ℕ, ◌≡◌, ◌≢◌, refl, true, false, some, none, List, [], ◌∷◌, map, ◌==◌, length, all, if◌then◌else◌,
  arith,
}
use boteco12_api.Prelude.Text.{
  Text, split, join, comma, upper, is_space, trim, trim_start, trim_end,
}
use boteco12_api.Errors.{ok, err, failure, another_round_open, invalid_result_size}
use boteco12_api.Transaction.{committed}
use boteco12_api.Db.{Db, scored, Ticket, Round, draft, open_status, closed, empty_db, put}
use boteco12_api.Score.RoundScore.{update_status}
use boteco12_api.Benefit.Grant.{grant_round_benefits}
use boteco12_api.Ticket.{create_ticket, new_ticket}
use boteco12_api.Prediction.{clean}
use boteco12_api.Round.{
  RoundMatch, Season, is_match_result, normalize_round_result, close_round, open_round,
  open_status_of, open_elsewhere, expire_benefits, set_round_result, write_results,
}
use boteco12_api.Round.Results.{LeavesRow, stored_result_is_read_back}
use boteco12_api.Round.Matches.{outcome, expected, matches_show_result}
use boteco12_api.Round.Single.{IsSingle, here, opens, one_open_round}
use boteco12_api.Round.Closing.{then_results, now_closed, closed_round_takes_no_ticket}

abbrev plain_round : Round
plain_round = record { number = 1; status = draft; open_at = none; close_at = none; result = none }

abbrev two_drafts : Db
two_drafts = record empty_db {
  rounds = put 1 (some plain_round) (put 2 (some plain_round) (λ _. none));
}

abbrev a_match : ℕ → ℕ → RoundMatch
a_match r p = record { round = r; position = p; cancelled = false; result = none }

abbrev idle : Db → Db
idle db = db

abbrev positions : List ℕ
positions = 1 ∷ 2 ∷ 3 ∷ 4 ∷ 5 ∷ 6 ∷ 7 ∷ 8 ∷ 9 ∷ 10 ∷ 11 ∷ 12 ∷ []

abbrev two_rounds : Season
two_rounds = record { db = two_drafts; round_ids = 1 ∷ 2 ∷ []; matches = map (a_match 1) positions }

-- " x,c,1,2,x,1,2,x,1,2,x,1"
abbrev typed_result : Text
typed_result =
    b' ' ∷ b'x' ∷ b',' ∷ b'c' ∷ b',' ∷ b'1' ∷ b',' ∷ b'2' ∷ b',' ∷ b'x' ∷ b',' ∷ b'1' ∷ b',' ∷ b'2'
    ∷ b',' ∷ b'x' ∷ b',' ∷ b'1' ∷ b',' ∷ b'2' ∷ b',' ∷ b'x' ∷ b',' ∷ b'1' ∷ []

abbrev tokens : List Text
tokens =
    (b'X' ∷ [])
    ∷ (b'C' ∷ [])
    ∷ (b'1' ∷ [])
    ∷ (b'2' ∷ [])
    ∷ (b'X' ∷ [])
    ∷ (b'1' ∷ [])
    ∷ (b'2' ∷ [])
    ∷ (b'X' ∷ [])
    ∷ (b'1' ∷ [])
    ∷ (b'2' ∷ [])
    ∷ (b'X' ∷ [])
    ∷ (b'1' ∷ [])
    ∷ []

typed_normalizes : normalize_round_result typed_result ≡ ok tokens
unfolding normalize_round_result split upper is_space trim trim_start trim_end clean
typed_normalizes = refl

short_result : normalize_round_result [] ≡ err (failure invalid_result_size)
unfolding normalize_round_result split upper is_space trim trim_start trim_end clean
short_result = refl

abbrev opened : Season
opened = record two_rounds {
  db = record two_drafts {
    rounds = put 1 (some (record plain_round { status = open_status })) two_drafts.rounds;
  };
}

first_opens : open_round 50 1 [] two_rounds ≡ ok (tt, opened)
unfolding open_round open_status_of open_elsewhere grant_round_benefits update_status
first_opens = refl

second_is_refused :
    open_round 50 2 [] (record opened { matches = map (a_match 2) positions })
    ≡ err (failure another_round_open)
unfolding open_round open_status_of open_elsewhere update_status
second_is_refused = refl

drafts-IsSingle : IsSingle two_rounds
drafts-IsSingle = record { listed = λ j {x} e. ground arith; single = λ j k a b. ground arith }

one_open_round_example : IsSingle opened
one_open_round_example =
    one_open_round (opens 50 1 [] (here {s = two_rounds}) first_opens) drafts-IsSingle

abbrev resulted : Season
resulted = record opened {
  db = record two_drafts {
    rounds =
        put 1
          (some (record plain_round { status = open_status; result = some (join comma tokens) }))
          opened.db.rounds;
  };
  matches = write_results 1 tokens opened.matches;
}

result_is_set : set_round_result idle 1 typed_result opened ≡ ok (tt, resulted)
unfolding set_round_result normalize_round_result split upper is_space trim trim_start trim_end
    clean
result_is_set = refl

-- A round that is scored while its result is being set
abbrev scoring : Db → Db
scoring db = record db { rounds = put 1 (some (record plain_round { status = scored })) db.rounds }

abbrev resulted_late : Season
resulted_late = committed opened (set_round_result scoring 1 typed_result opened)

scored_result_is_replaced :
    resulted_late.db.rounds 1
    ≡ some (record plain_round { status = scored; result = some (join comma tokens) })
unfolding set_round_result normalize_round_result split upper is_space trim trim_start trim_end
    clean
scored_result_is_replaced = refl

second_is_cancelled :
    map (λ m. m.cancelled) resulted.matches
    ≡ false ∷ true ∷ false ∷ false ∷ false ∷ false ∷ false ∷ false ∷ false ∷ false ∷ false ∷ false
      ∷ []
unfolding write_results
second_is_cancelled = refl

stored_result_is_read_back_example :
    (ts : List Text) × LeavesRow idle 1 opened resulted ts
    × (split comma (join comma ts) ≡ ts)
    × (length ts ≡ 12)
    × (all is_match_result ts ≡ true)
stored_result_is_read_back_example =
    stored_result_is_read_back idle 1 typed_result opened resulted result_is_set

-- The open round, with two free doubles of user 7.
abbrev with_grant : Db
with_grant = record opened.db {
  round_benefits =
      λ u k. if u == 7 then some (record { free_doubles = 2; free_super_doubles = 0 }) else none;
}

abbrev closed_db : Db
closed_db = expire_benefits 1 (record with_grant {
  rounds = put 1 (some (record plain_round { status = closed })) opened.db.rounds;
})

first_closes : close_round 1 with_grant ≡ ok (tt, closed_db)
unfolding close_round update_status
first_closes = refl

abbrev no_ticket : Ticket
no_ticket = new_ticket 7 1 [] []

abbrev closed_season : Season
closed_season = record opened { db = closed_db }

abbrev closed_resulted : Season
closed_resulted = record resulted {
  db = record closed_db {
    rounds =
        put 1 (some (record plain_round { status = closed; result = some (join comma tokens) }))
          closed_db.rounds;
  };
}

closed_result_is_set : set_round_result idle 1 typed_result closed_season ≡ ok (tt, closed_resulted)
unfolding set_round_result normalize_round_result split upper is_space trim trim_start trim_end
    clean expire_benefits
closed_result_is_set = refl

closed_round_takes_no_ticket_example :
    create_ticket idle idle idle idle 7 1 60 [] [] closed_resulted.db
    ≢ ok (no_ticket, closed_resulted.db)
closed_round_takes_no_ticket_example =
    closed_round_takes_no_ticket idle idle idle idle 7 1 60 [] []
      (record opened { db = with_grant }) closed_resulted closed_db first_closes
      (then_results {t = closed_season} 1 typed_result now_closed closed_result_is_set) no_ticket
      closed_resulted.db

matches_show_result_example : map outcome resulted.matches ≡ map (expected 1 tokens) opened.matches
matches_show_result_example =
    matches_show_result idle 1 typed_result tokens opened resulted typed_normalizes result_is_set
