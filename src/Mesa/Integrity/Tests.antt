-- ===== src/Mesa/Integrity/Tests.antt =====
-- A Mesa without issues is joined.
use boteco12_api.Prelude.{◌≡◌, refl, true, false, Option, none, some, List, [], ◌∷◌}
use boteco12_api.Prelude.Int.{pos, ◌-ℤ◌}
use boteco12_api.Errors.{ok}
use boteco12_api.Transaction.{committed}
use boteco12_api.Db.{Db, empty_db}
use boteco12_api.Wallet.{integer, debit_entry}
use boteco12_api.Mesa.Terms.{
  paid, sponsored_free, capacity, assert_capacity, is_paid, is_sponsored, is_free, category_of,
}
use boteco12_api.Mesa.Registration.{assert_open}
use boteco12_api.Mesa.Prize.{Json, array, validate_distribution, validate_items, calculate_pool}
use boteco12_api.Mesa.Entry.{
  MesaRow, Participant, Lobby, active, all, pending, assert_may_join, assert_eligibility,
}
use boteco12_api.Mesa.Entry.Join.{join_bolao}
use boteco12_api.Mesa.Entry.Review.{review_bolao_request, assert_may_review}
use boteco12_api.Mesa.Integrity.{Issue, approved_entry_not_paid, report, inspect}
use boteco12_api.Mesa.Integrity.Kept.{join_keeps_integrity}

abbrev one_winner : Json
one_winner = array (record { position = integer (pos 1); percentage = integer (pos 100) } ∷ [])

abbrev two_seats : MesaRow
two_seats = record {
  is_bolao = true;
  status = active;
  entry_fee = 10;
  access_cost = some 10;
  category = some paid;
  eligibility = some all;
  close_mode = some capacity;
  sponsor_prize_pool = 0;
  max_participants = some 2;
  current_participants = 0;
  created_by = some 9;
  window = record { start_date = none; entry_end_date = none; end_date = none };
  registration_closed_at = none;
  reference_round = none;
  initialization = none;
  captured_at = none;
  gross_collected = 0;
  platform_fee = 0;
  prize_pool = 0;
  reward_pool = some 0;
}

-- The same with a sponsor
abbrev sponsored : MesaRow
sponsored = record two_seats {
  category = some sponsored_free;
  sponsor_prize_pool = 50;
  prize_pool = 50;
  reward_pool = some 50;
}

abbrev asked : Participant
asked = record {
  user = 3;
  standing = pending;
  score_initial = pos 0;
  entry_fee_paid = 0;
  entry_paid_at = none;
}

abbrev lobby : MesaRow → Lobby
lobby m = record {
  db = record empty_db { wallets = λ u. some (pos 25) };
  mesa = some m;
  participants = asked ∷ [];
  invite = none;
  open_round_id = some 7;
  log = [];
}

abbrev unchanged : Db → Db
unchanged db = db

abbrev joined : Lobby
joined =
    committed (lobby two_seats)
      (join_bolao (λ s. s) unchanged false 5 100 (ok tt) 1 (lobby two_seats))

join_keeps_integrity_example :
    (r : MesaRow) × (joined.mesa ≡ some r) × (inspect true one_winner r joined.participants ≡ [])
unfolding inspect report is_paid is_sponsored is_free category_of validate_distribution
    validate_items calculate_pool join_bolao assert_may_join assert_eligibility assert_open
    assert_capacity debit_entry ◌-ℤ◌
join_keeps_integrity_example =
    join_keeps_integrity true one_winner unchanged false 5 100 (ok tt) 1 two_seats (lobby two_seats)
      joined refl refl refl refl

-- A request for a sponsored Mesa that costs something is approved without a payment, and then the
-- Mesa cannot be settled.
abbrev reviewed : Lobby
reviewed =
    committed (lobby sponsored)
      (review_bolao_request (λ s. s) unchanged true 5 9 100 3 (lobby sponsored))

abbrev issues_of : Option MesaRow → List Participant → List Issue
issues_of none ps = []
issues_of (some r) ps = inspect true one_winner r ps

sponsored_review_blocks :
    issues_of reviewed.mesa reviewed.participants ≡ approved_entry_not_paid ∷ []
unfolding inspect report is_paid is_sponsored is_free category_of validate_distribution
    validate_items calculate_pool review_bolao_request assert_may_review assert_open assert_capacity
    debit_entry ◌-ℤ◌
sponsored_review_blocks = refl
