-- ===== src/Mesa/Schedule.antt =====
-- src/services/bolao/mesa-schedule-rules.ts: when the registrations and the Mesa itself end. The
-- numbers are integers, as the columns are.
mod Tests
use boteco12_api.Prelude.{
  ℕ, ◌≡◌, ◌↔◌, refl, Bool, true, false, Option, none, some, ltb, if◌then◌else◌, arith,
}
use boteco12_api.Prelude.Int.{ℤ, pos, ltb_ℤ, eqb_ℤ, ◌≤ℤ◌}
use boteco12_api.Errors.{
  Result, ok, err, bad_request, Code, mesa_capacity_required, mesa_entry_end_not_allowed,
  mesa_capacity_not_allowed, mesa_entry_end_required, mesa_round_duration_required,
  mesa_end_date_not_allowed, mesa_end_date_required, mesa_round_duration_not_allowed,
}
use boteco12_api.Mesa.Terms.{CloseMode, capacity, date, or_else}

pub data DurationMode : Type 0 where
  rounds until_date : DurationMode

pub record Schedule : Type 0 where
  pub registration_close_mode : Option CloseMode
  pub duration_mode : Option DurationMode
  pub entry_end_date : Option ℕ
  pub end_date : Option ℕ
  pub max_participants : Option ℤ
  pub duration_rounds : Option ℤ

-- `!n || n < 2`, and `!n`
abbrev is_below_two : Option ℤ → Bool
is_below_two none = true
is_below_two (some n) = ltb_ℤ n (pos 2)

abbrev is_missing : Option ℤ → Bool
is_missing none = true
is_missing (some n) = eqb_ℤ n (pos 0)

abbrev is_some {ℓ} : {A : Type ℓ} → Option A → Bool
is_some none = false
is_some (some a) = true

-- The first block of the checks.
abbrev check_registration : CloseMode → Option ℤ → Option ℕ → Option Code
check_registration capacity max entry_end =
    if is_below_two max
    then some mesa_capacity_required
    else if is_some entry_end
    then some mesa_entry_end_not_allowed
    else none
check_registration date max entry_end =
    if is_some max
    then some mesa_capacity_not_allowed
    else if is_some entry_end
    then none
    else some mesa_entry_end_required

-- The second block.
abbrev check_duration : DurationMode → Option ℤ → Option ℕ → Option Code
check_duration rounds count end_date =
    if is_missing count
    then some mesa_round_duration_required
    else if is_some end_date
    then some mesa_end_date_not_allowed
    else none
check_duration until_date count end_date =
    if is_some end_date
    then if is_some count then some mesa_round_duration_not_allowed else none
    else some mesa_end_date_required

abbrev first_code : Option Code → Option Code → Result (Unit {0})
first_code (some c) d = err (bad_request c)
first_code none (some d) = err (bad_request d)
first_code none none = ok tt

-- `assertMesaScheduleRules`
unfoldable pub assert_mesa_schedule_rules : Schedule → Result (Unit {0})
assert_mesa_schedule_rules s =
    first_code
      (check_registration (or_else s.registration_close_mode capacity) s.max_participants
        s.entry_end_date)
      (check_duration (or_else s.duration_mode rounds) s.duration_rounds s.end_date)

-- Registrations close by capacity or by date, with the data of that way and none of the other.
abbrev RegistrationFits : CloseMode → Option ℤ → Option ℕ → Type 0
RegistrationFits capacity max entry_end = (is_below_two max ≡ false) × (entry_end ≡ none)
RegistrationFits date max entry_end = (max ≡ none) × (is_some entry_end ≡ true)

-- A Mesa lasts for a number of rounds or until a date, with the data of that way and none of the
-- other.
abbrev DurationFits : DurationMode → Option ℤ → Option ℕ → Type 0
DurationFits rounds count end_date = (is_missing count ≡ false) × (end_date ≡ none)
DurationFits until_date count end_date = (count ≡ none) × (is_some end_date ≡ true)

registration_iff :
    (m : CloseMode) (max : Option ℤ) (entry_end : Option ℕ)
    → (check_registration m max entry_end ≡ none) ↔ RegistrationFits m max entry_end
registration_iff capacity max entry_end = ground arith
registration_iff date max entry_end = ground arith

duration_iff :
    (m : DurationMode) (count : Option ℤ) (end_date : Option ℕ)
    → (check_duration m count end_date ≡ none) ↔ DurationFits m count end_date
duration_iff rounds count end_date = ground arith
duration_iff until_date count end_date = ground arith

first_code-ok : (c d : Option Code) → (first_code c d ≡ ok tt) ↔ ((c ≡ none) × (d ≡ none))
first_code-ok c d = ground arith

-- A schedule is accepted exactly when registrations close either by capacity, with at least two
-- places and no final date, or by a final date and no limit of places, and the Mesa lasts either a
-- number of rounds, with no end date, or until an end date, with no number of rounds.
pub assert_mesa_schedule_rules_iff :
    (s : Schedule)
    → (assert_mesa_schedule_rules s ≡ ok tt) ↔ (
        RegistrationFits
          (or_else s.registration_close_mode capacity)
          s.max_participants
          s.entry_end_date
        × DurationFits (or_else s.duration_mode rounds) s.duration_rounds s.end_date)
unfolding assert_mesa_schedule_rules
assert_mesa_schedule_rules_iff s =
    let (both, back) =
      first_code-ok
        (check_registration (or_else s.registration_close_mode capacity) s.max_participants
          s.entry_end_date)
        (check_duration (or_else s.duration_mode rounds) s.duration_rounds s.end_date) in
    let (fits, fits_back) =
      registration_iff (or_else s.registration_close_mode capacity) s.max_participants
        s.entry_end_date in
    let (lasts, lasts_back) =
      duration_iff (or_else s.duration_mode rounds) s.duration_rounds s.end_date in
    ((λ e. (fits (both e).0, lasts (both e).1)), (λ h. back (fits_back h.0, lasts_back h.1)))
