-- ===== src/Errors.antt =====
-- src/errors/AppError.ts and the plain `Error`s of the services, by kind and code; messages for
-- people are not modelled. `database` is what PostgreSQL refuses: the CHECK constraints of
-- prisma/constraints/non-negative-balances.sql and the unique indexes of prisma/schema.prisma.
use boteco12_api.Prelude.{ℕ}
use boteco12_api.Prelude.Int.{ℤ}

-- `code` of an AppError, with its details where it has some.
pub data Code : Type 0 where
  invalid_wallet_amount : Code
  insufficient_wallet_balance : ℤ → ℤ → Code
  insufficient_balance invalid_benefit_package : Code
  insufficient_benefit_balance : ℕ → ℕ → Code
  round_not_open round_not_open_yet round_predictions_closed : Code
  invalid_prediction_size invalid_prediction invalid_multiplier_size invalid_multiplier : Code
  ticket_already_exists : Code
  mesa_prize_distribution_invalid : Code
  mesa_capacity_required mesa_entry_end_not_allowed mesa_capacity_not_allowed : Code
  mesa_entry_end_required mesa_round_duration_required mesa_end_date_not_allowed : Code
  mesa_end_date_required mesa_round_duration_not_allowed : Code
  user_not_found pro_subscription_required : Code
  subscription_not_found subscription_already_cancelled : Code
  mp_access_token_missing invalid_payment_package mp_checkout_url_missing : Code

-- `message` of a plain `Error`.
pub data Failure : Type 0 where
  bad_quantity : Failure
  round_not_found only_open_can_close only_draft_can_open : Failure
  only_closed_can_score result_missing needs_twelve_matches another_round_open : Failure
  result_frozen invalid_result_size invalid_result : Failure
  prediction_size result_size multipliers_size invalid_multiplier_value : Failure
  empty_distribution positions_not_sequential invalid_percentage percentages_not_100 : Failure
  invalid_category capacity_missing paid_not_capacity access_not_positive : Failure
  paid_with_sponsor_pool sponsor_name_missing sponsor_pool_missing access_negative : Failure
  free_with_money free_not_date free_with_capacity capacity_invalid mesa_full : Failure
  registration_closed registration_not_started : Failure
  token_missing provider_failed payment_without_plan invalid_validity package_mismatch : Failure
  mesa_not_found not_a_mesa mesa_not_active already_participates access_already_debited : Failure
  no_open_round only_without_subscription not_creator request_not_found already_reviewed : Failure
  invite_not_found invite_not_active invite_expired invite_limit_reached : Failure
  invite_not_available round_being_processed participant_changed : Failure

pub data Violation : Type 0 where
  check_violation unique_violation record_not_found : Violation

pub data Error : Type 0 where
  bad_request conflict not_found forbidden internal : Code → Error
  failure : Failure → Error
  database : Violation → Error

pub data Result {ℓ} (A : Type ℓ) : Type ℓ where
  ok : A → Result A
  err : Error → Result A
