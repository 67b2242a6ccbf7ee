-- ===== src/Mesa/Schedule/Tests.antt =====
-- The schedule rules on concrete schedules.
use boteco12_api.Prelude.{◌≡◌, refl, some, none}
use boteco12_api.Prelude.Int.{pos}
use boteco12_api.Errors.{err, bad_request, mesa_entry_end_not_allowed}
use boteco12_api.Mesa.Terms.{date}
use boteco12_api.Mesa.Schedule.{Schedule, assert_mesa_schedule_rules}

abbrev by_date : Schedule
by_date = record {
  registration_close_mode = some date;
  duration_mode = none;
  entry_end_date = some 100;
  end_date = none;
  max_participants = none;
  duration_rounds = some (pos 4);
}

places_and_date :
    assert_mesa_schedule_rules
      (record by_date { registration_close_mode = none; max_participants = some (pos 2) })
    ≡ err (bad_request mesa_entry_end_not_allowed)
unfolding assert_mesa_schedule_rules
places_and_date = refl
