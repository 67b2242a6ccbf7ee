-- ===== src/Mesa/Entry/Tests.antt =====
-- A Mesa of two seats: two joins fill it, a third one is refused, and a request is rejected.
use boteco12_api.Prelude.{◌≡◌, refl, true, false, none, some, [], ◌∷◌}
use boteco12_api.Prelude.Int.{pos, ◌-ℤ◌}
use boteco12_api.Errors.{ok, err, failure, mesa_full}
use boteco12_api.Transaction.{committed}
use boteco12_api.Db.{Db, empty_db}
use boteco12_api.Wallet.{debit_entry}
use boteco12_api.Mesa.Terms.{paid, capacity, assert_capacity, is_sponsored, is_paid, category_of}
use boteco12_api.Mesa.Registration.{Window, assert_open, reserve_bolao_invite_use}
use boteco12_api.Mesa.Prize.{calculate_pool}
use boteco12_api.Mesa.Entry.{
  MesaRow, Participant, Lobby, active, all, pending, waiting_for_reference_round, assert_may_join,
  assert_eligibility,
}
use boteco12_api.Mesa.Entry.Join.{join_bolao}
use boteco12_api.Mesa.Entry.Review.{review_bolao_request, assert_may_review}
use boteco12_api.Mesa.Entry.Invited.{use_bolao_invite}
use boteco12_api.Mesa.Entry.Laws.{HasBooks}
use boteco12_api.Mesa.Entry.Capacity.{HasTaken, join_never_overbooks}
use boteco12_api.Mesa.Entry.History.{joins, reviews, uses_invite, here, next, mesa_books_stay_right}

abbrev always : Window
always = record { start_date = none; entry_end_date = none; end_date = none }

abbrev two_seats : MesaRow
two_seats = record {
  is_bolao = true;
  status = active;
  entry_fee = 10;
  access_cost = none;
  category = some paid;
  eligibility = some all;
  close_mode = some capacity;
  sponsor_prize_pool = 0;
  max_participants = some 2;
  current_participants = 0;
  created_by = some 9;
  window = always;
  registration_closed_at = none;
  reference_round = none;
  initialization = none;
  captured_at = none;
  gross_collected = 0;
  platform_fee = 0;
  prize_pool = 0;
  reward_pool = some 0;
}

abbrev asked : Participant
asked = record {
  user = 3;
  standing = pending;
  score_initial = pos 0;
  entry_fee_paid = 0;
  entry_paid_at = none;
}

abbrev lobby : Lobby
lobby = record {
  db = record empty_db { wallets = λ u. some (pos 25) };
  mesa = some two_seats;
  participants = asked ∷ [];
  invite = some (record { is_active = true; expires_at = none; max_uses = some 1; used_count = 0 });
  open_round_id = some 7;
  log = [];
}

abbrev unchanged : Db → Db
unchanged db = db

abbrev one_in : Lobby
one_in = committed lobby (join_bolao (λ s. s) unchanged false 5 100 (ok tt) 1 lobby)

abbrev none_asks : Lobby
none_asks = committed one_in (review_bolao_request (λ s. s) unchanged false 5 9 100 3 one_in)

abbrev full : Lobby
full = committed none_asks (use_bolao_invite (λ s. s) unchanged 5 100 (ok tt) 2 none_asks)

full_closes :
    (full.mesa
      ≡ some (record two_seats {
        current_participants = 2;
        registration_closed_at = some 100;
        reference_round = some 7;
        initialization = some waiting_for_reference_round;
        gross_collected = 20;
        platform_fee = 2;
        prize_pool = 18;
        reward_pool = some 18;
      }))
unfolding join_bolao review_bolao_request use_bolao_invite assert_may_join assert_eligibility
    assert_open assert_capacity debit_entry ◌-ℤ◌ assert_may_review reserve_bolao_invite_use
    calculate_pool is_sponsored category_of is_paid
full_closes = refl

third_is_refused :
    join_bolao (λ s. s) unchanged false 5 100 (ok tt) 4 full ≡ err (failure mesa_full)
unfolding join_bolao review_bolao_request use_bolao_invite assert_may_join assert_eligibility
    assert_open assert_capacity debit_entry ◌-ℤ◌ assert_may_review reserve_bolao_invite_use
    calculate_pool is_sponsored category_of is_paid
third_is_refused = refl

mesa_books_stay_right_example : HasBooks full.mesa full.participants
unfolding is_sponsored category_of
mesa_books_stay_right_example =
    mesa_books_stay_right {s = lobby} {t = full}
      (record { seats = refl; paid_in = refl; room = refl; pool = refl })
      (next
        (next (next here (joins lobby unchanged false 5 100 (ok tt) 1))
          (reviews one_in unchanged false 5 9 100 3))
        (uses_invite none_asks unchanged 5 100 (ok tt) 2))

abbrev both_in : Lobby
both_in = committed lobby (join_bolao (λ _. one_in) unchanged false 5 100 (ok tt) 2 lobby)

join_never_overbooks_example : HasTaken 2 one_in.mesa both_in.mesa
unfolding join_bolao assert_may_join assert_eligibility assert_open assert_capacity debit_entry ◌-ℤ◌
join_never_overbooks_example =
    join_never_overbooks (λ _. one_in) unchanged false 5 100 (ok tt) 2 2 two_seats lobby both_in
      refl refl refl refl
