-- ===== src/Mesa/Prize.antt =====
-- src/services/bolao/bolao-prize.service.ts: how a pool is split, `validateDistribution`,
-- `validateInputDistribution`, `fromJson` and `calculatePool`. An item is given by what `Number`
-- reads in its two fields. The amounts are the 32-bit integers of the columns, for which
-- `Math.floor(gross * 0.1)` is the quotient by ten.
mod Tests
use boteco12_api.Prelude.{
  ℕ, suc, ◌+◌, ◌-◌, ◌*◌, ◌/◌, ◌≡◌, ◌≢◌, ◌≤◌, ◌<◌, Bool, true, false, not, List, [], ◌∷◌, all, ◌==◌,
  if◌then◌else◌, arith,
}
use boteco12_api.Prelude.Int.{ℤ, pos, negsuc, eqb_ℤ, ltb_ℤ, ◌+ℤ◌, ◌≤ℤ◌}
use boteco12_api.Wallet.{JsNumber, integer, not_integer}
use boteco12_api.Errors.{
  Error, Result, ok, err, failure, bad_request, mesa_prize_distribution_invalid, empty_distribution,
  positions_not_sequential, invalid_percentage, percentages_not_100,
}

-- An item of the array, with `Number(item?.position)` and `Number(item?.percentage)`.
pub record RawItem : Type 0 where
  pub position : JsNumber
  pub percentage : JsNumber

pub data Json : Type 0 where
  not_array : Json
  array : List RawItem → Json

-- `PrizeDistributionItem`
pub record PrizeItem : Type 0 where
  pub position : ℕ
  pub percentage : ℕ

-- `Number.isInteger(position) && position === index + 1`
abbrev is_position : JsNumber → ℕ → Bool
is_position not_integer index = false
is_position (integer n) index = eqb_ℤ n (pos (suc index))

abbrev valid_percentage : JsNumber → ℕ
valid_percentage not_integer = 0
valid_percentage (integer (pos n)) = n
valid_percentage (integer (negsuc n)) = 0

abbrev add_item : ℕ → JsNumber → Result (List PrizeItem) → Result (List PrizeItem)
add_item index percentage (err e) = err e
add_item index percentage (ok items) =
    ok (record { position = suc index; percentage = valid_percentage percentage } ∷ items)

abbrev is_positive_number : JsNumber → Bool
is_positive_number not_integer = false
is_positive_number (integer n) = ltb_ℤ (pos 0) n

-- The callback of `value.map`, from this index on; the first item that is refused throws.
unfoldable pub validate_items : ℕ → List RawItem → Result (List PrizeItem)
validate_items index [] = ok []
validate_items index (x ∷ xs) =
    let rest = validate_items (suc index) xs in
    if not (is_position x.position index)
    then err (failure positions_not_sequential)
    else if not (is_positive_number x.percentage)
    then err (failure invalid_percentage)
    else add_item index x.percentage rest

-- `distribution.reduce((sum, item) => sum + item.percentage, 0)`
abbrev pub total_percentage : List PrizeItem → ℕ
total_percentage [] = 0
total_percentage (x ∷ xs) = x.percentage + total_percentage xs

abbrev check_total : Result (List PrizeItem) → Result (List PrizeItem)
check_total (err e) = err e
check_total (ok items) =
    if total_percentage items == 100 then ok items else err (failure percentages_not_100)

-- `validateDistribution`, which `fromJson` calls
unfoldable pub validate_distribution : Json → Result (List PrizeItem)
unfolding validate_items
validate_distribution not_array = err (failure empty_distribution)
validate_distribution (array []) = err (failure empty_distribution)
validate_distribution (array (x ∷ xs)) = check_total (validate_items 0 (x ∷ xs))

-- Every error of `validateDistribution` is an InvalidPrizeDistributionError.
abbrev as_bad_request : Result (List PrizeItem) → Result (List PrizeItem)
as_bad_request (ok items) = ok items
as_bad_request (err e) = err (bad_request mesa_prize_distribution_invalid)

-- `validateInputDistribution`
unfoldable pub validate_input_distribution : Json → Result (List PrizeItem)
unfolding validate_distribution
validate_input_distribution v = as_bad_request (validate_distribution v)

pub record Pool : Type 0 where
  pub gross_collected : ℕ
  pub platform_fee : ℕ
  pub prize_pool : ℕ

-- `calculatePool`
unfoldable pub calculate_pool : ℕ → Pool
calculate_pool gross = record {
  gross_collected = gross;
  platform_fee = gross / 10;
  prize_pool = gross - gross / 10;
}

-- The positions go up by one from this one, and every share is at least one per cent.
abbrev pub IsSequential : ℕ → List PrizeItem → Type 0
IsSequential n [] = Unit
IsSequential n (x ∷ xs) = (x.position ≡ n) × (1 ≤ x.percentage) × IsSequential (suc n) xs

-- The fee and the pool make up what was collected, and the fee is a tenth of it, rounded down.
pub calculate_pool-conserves :
    (gross : ℕ)
    → ((calculate_pool gross).platform_fee + (calculate_pool gross).prize_pool ≡ gross)
      × (10 * (calculate_pool gross).platform_fee ≤ gross)
      × (gross < 10 * (calculate_pool gross).platform_fee + 10)
unfolding calculate_pool
calculate_pool-conserves gross = (omega arith, omega arith, omega arith)
