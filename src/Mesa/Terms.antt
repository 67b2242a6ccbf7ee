-- ===== src/Mesa/Terms.antt =====
-- src/services/bolao/mesa-category-rules.ts and mesa-financial-names.ts: which terms a Mesa may have.
-- A field that a caller leaves out and one that is null are both `none`; a name is given as whether
-- its trimmed text is not empty.
pub mod Rules
mod Tests
use boteco12_api.Prelude.{
  ℕ, suc, Bool, true, false, ◌||◌, ◌&&◌, not, Option, none, some, if◌then◌else◌,
}
use boteco12_api.Prelude.Int.{ℤ, pos, leb_ℤ, ltb_ℤ, eqb_ℤ}
use boteco12_api.Wallet.{JsNumber, integer, not_integer}
use boteco12_api.Errors.{
  Result, ok, err, failure, Failure, invalid_category, capacity_missing, paid_not_capacity,
  access_not_positive, paid_with_sponsor_pool, sponsor_name_missing, sponsor_pool_missing,
  access_negative, free_with_money, free_not_date, free_with_capacity, capacity_invalid, mesa_full,
}

pub data Category : Type 0 where
  paid free sponsored_free unknown_category : Category

pub data CloseMode : Type 0 where
  capacity date : CloseMode

-- `MesaCategoryTerms`
pub record MesaTerms : Type 0 where
  pub category : Option Category
  pub access_cost : Option JsNumber
  pub entry_fee : Option JsNumber
  pub sponsor_prize_pool : Option JsNumber
  pub has_sponsor_name : Bool
  pub max_participants : Option JsNumber
  pub registration_close_mode : Option CloseMode

-- `a ?? b`
abbrev pub or_else {ℓ} : {A : Type ℓ} → Option A → A → A
or_else none b = b
or_else (some a) b = a

abbrev pub first_of_both {ℓ} : {A : Type ℓ} → Option A → Option A → Option A
first_of_both none b = b
first_of_both (some a) b = some a

unfoldable pub category_of : MesaTerms → Category
category_of v = or_else v.category paid

abbrev is_paid_category : Category → Bool
is_paid_category paid = true
is_paid_category _ = false

abbrev is_sponsored_category : Category → Bool
is_sponsored_category sponsored_free = true
is_sponsored_category _ = false

abbrev is_free_category : Category → Bool
is_free_category free = true
is_free_category _ = false

-- `isPaid`, `isSponsored`, `isFree`
unfoldable pub is_paid : MesaTerms → Bool
unfolding category_of
is_paid v = is_paid_category (category_of v)

unfoldable pub is_sponsored : MesaTerms → Bool
unfolding category_of
is_sponsored v = is_sponsored_category (category_of v)

unfoldable pub is_free : MesaTerms → Bool
unfolding category_of
is_free v = is_free_category (category_of v)

-- `value.accessCost ?? value.entryFee ?? 0`
unfoldable pub access_cost_of : MesaTerms → JsNumber
access_cost_of v = or_else (first_of_both v.access_cost v.entry_fee) (integer (pos 0))

-- `Number.isInteger(n) && n > 0`, `Number.isInteger(n) && n >= 0`, and `n === 0`
abbrev pub is_positive : JsNumber → Bool
is_positive not_integer = false
is_positive (integer n) = ltb_ℤ (pos 0) n

abbrev pub is_nonneg : JsNumber → Bool
is_nonneg not_integer = false
is_nonneg (integer n) = leb_ℤ (pos 0) n

abbrev pub is_zero : JsNumber → Bool
is_zero not_integer = false
is_zero (integer n) = eqb_ℤ n (pos 0)

abbrev pub is_capacity : CloseMode → Bool
is_capacity capacity = true
is_capacity date = false

-- An absent number is not an integer.
abbrev pub is_positive_option : Option JsNumber → Bool
is_positive_option none = false
is_positive_option (some n) = is_positive n

abbrev is_absent : Option JsNumber → Bool
is_absent none = true
is_absent (some n) = false

-- What `validate` returns.
pub record ValidTerms : Type 0 where
  pub category : Category
  pub access_cost : JsNumber
  pub sponsor_prize_pool : JsNumber
  pub max_participants : Option JsNumber
  pub registration_close_mode : CloseMode

-- The checks on the number of participants.
abbrev pub check_capacity : CloseMode → Option JsNumber → Option Failure
check_capacity mode max =
    if is_capacity mode && not (is_positive_option max)
    then some capacity_missing
    else if not (is_absent max) && not (is_positive_option max)
    then some capacity_missing
    else none

-- The checks of each category: the first that fails.
abbrev pub check_category :
    Category → CloseMode → JsNumber → JsNumber → Bool → Option JsNumber → Option Failure
check_category paid mode access pool name max =
    if not (is_capacity mode)
    then some paid_not_capacity
    else if not (is_positive access)
    then some access_not_positive
    else if not (is_zero pool)
    then some paid_with_sponsor_pool
    else none
check_category sponsored_free mode access pool name max =
    if not name
    then some sponsor_name_missing
    else if not (is_nonneg access)
    then some access_negative
    else if not (is_positive pool)
    then some sponsor_pool_missing
    else none
check_category free mode access pool name max =
    if not (is_zero access) || not (is_zero pool)
    then some free_with_money
    else if is_capacity mode
    then some free_not_date
    else if not (is_absent max)
    then some free_with_capacity
    else none
check_category unknown_category mode access pool name max = some invalid_category

abbrev pub first_failure : Option Failure → Option Failure → ValidTerms → Result ValidTerms
first_failure (some f) g v = err (failure f)
first_failure none (some g) v = err (failure g)
first_failure none none v = ok v

abbrev pub is_known : Category → Bool
is_known unknown_category = false
is_known _ = true

-- `validate`
unfoldable pub validate_terms : MesaTerms → Result ValidTerms
unfolding category_of access_cost_of
validate_terms v =
    let category = category_of v in
    let access = access_cost_of v in
    let pool = or_else v.sponsor_prize_pool (integer (pos 0)) in
    let mode = or_else v.registration_close_mode capacity in
    if not (is_known category)
    then err (failure invalid_category)
    else first_failure (check_capacity mode v.max_participants)
        (check_category category mode access pool v.has_sponsor_name v.max_participants)
        (record {
          category = category;
          access_cost = access;
          sponsor_prize_pool = pool;
          max_participants = v.max_participants;
          registration_close_mode = mode;
        })

-- `hasCapacity`
unfoldable pub has_capacity : MesaTerms → Bool
has_capacity v = not (is_absent v.max_participants)

abbrev capacity_left : ℤ → Option JsNumber → Result (Unit {0})
capacity_left current none = err (failure capacity_invalid)
capacity_left current (some not_integer) = err (failure capacity_invalid)
capacity_left current (some (integer n)) =
    if leb_ℤ n (pos 0)
    then err (failure capacity_invalid)
    else if leb_ℤ n current
    then err (failure mesa_full)
    else ok tt

-- `assertCapacity`
unfoldable pub assert_capacity : MesaTerms → ℤ → Result (Unit {0})
assert_capacity v current = capacity_left current v.max_participants
