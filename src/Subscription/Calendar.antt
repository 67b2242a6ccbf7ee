-- ===== src/Subscription/Calendar.antt =====
-- `addSubscriptionValidityMonths` of src/services/subscription/renew-subscription-from-payment.service.ts.
-- A date is given by its UTC fields; `setUTCMonth` carries whole years, and day 0 of a month is the
-- last day of the month before.
use boteco12_api.Prelude.{
  ℕ, zero, suc, ◌+◌, ◌-◌, ◌*◌, ◌/◌, ◌%◌, ◌≡◌, ◌≤◌, ◌<◌, ◌∙◌, Bool, ◌||◌, ◌&&◌, not, ◌==◌, min,
  if◌then◌else◌, arith,
}

pub record UtcDate : Type 0 where
  pub year : ℕ
  pub month : ℕ
  pub day : ℕ
  pub time : ℕ

unfoldable pub is_leap : ℕ → Bool
is_leap y = y % 4 == 0 && (not (y % 100 == 0) || y % 400 == 0)

-- The days of a month, by its number since the year 0.
unfoldable pub month_length : ℕ → ℕ
unfolding is_leap
month_length n =
    let m = n % 12 in
    if m == 1
    then (if is_leap (n / 12) then 29 else 28)
    else if m == 3 || m == 5 || m == 8 || m == 10
    then 30
    else 31

abbrev pub month_of : UtcDate → ℕ
month_of d = 12 * d.year + d.month

-- `addSubscriptionValidityMonths`
unfoldable pub add_validity_months : UtcDate → ℕ → UtcDate
unfolding month_length
add_validity_months d months =
    let n = month_of d + months in
    record { year = n / 12; month = n % 12; day = min d.day (month_length n); time = d.time }

-- The milliseconds of a day.
abbrev pub day_ms : ℕ
day_ms = 86_400_000

abbrev pub IsDate : UtcDate → Type 0
IsDate d = (d.month < 12) × (1 ≤ d.day) × (d.day ≤ month_length (month_of d)) × (d.time < day_ms)

-- The days of all months before this one.
unfoldable pub days_before : ℕ → ℕ
days_before zero = 0
days_before (suc n) = days_before n + month_length n

-- `getTime`, counted from the year 0.
unfoldable pub get_time : UtcDate → ℕ
get_time d = (days_before (month_of d) + (d.day - 1)) * day_ms + d.time

month_length-positive : (n : ℕ) → 28 ≤ month_length n
unfolding month_length
month_length-positive n = ground arith

days_before_mono : (n k : ℕ) → days_before n + month_length n ≤ days_before (suc (k + n))
unfolding days_before
days_before_mono n zero = ground arith
days_before_mono n (suc k) =
    let e : suc k + n ≡ suc (k + n) = omega arith in rw e (omega (arith, days_before_mono n k))

month_of-add_validity_months :
    (d : UtcDate) (months : ℕ) → month_of (add_validity_months d months) ≡ month_of d + months
unfolding add_validity_months
month_of-add_validity_months d months = omega arith

-- The date months later is a date: a day that the month does not have becomes its last day.
pub add_validity_months-IsDate :
    (d : UtcDate) (months : ℕ) → IsDate d → IsDate (add_validity_months d months)
unfolding add_validity_months
add_validity_months-IsDate d months (_, first, _, time) =
    let e : month_of (add_validity_months d months) ≡ month_of d + months =
      month_of-add_validity_months d months in
    let p = month_length-positive (month_of d + months) in
    (omega arith, omega arith, rw e (omega arith), time)

get_time_lt :
    (m k x y t u : ℕ)
    → 1 ≤ x
    → x ≤ month_length m
    → t < day_ms
    → (days_before m + (x - 1)) * day_ms + t < (days_before (suc (k + m)) + (y - 1)) * day_ms + u
get_time_lt m k x y t u a b c = omega (arith, days_before_mono m k)

-- A validity of at least one month ends later than it begins.
pub add_validity_months-later :
    (d : UtcDate) (months : ℕ)
    → IsDate d
    → 1 ≤ months
    → get_time d < get_time (add_validity_months d months)
unfolding get_time
add_validity_months-later d months (_, first, last, time) h =
    let e : month_of (add_validity_months d months) ≡ suc ((months - 1) + month_of d) =
      month_of-add_validity_months d months ∙ omega arith in
    rw e (
      get_time_lt (month_of d) (months - 1) d.day (add_validity_months d months).day d.time _ first
        last time)
