-- ===== src/Benefit/Config.antt =====
-- src/services/benefits/benefits.config.ts and src/domain/subscription.ts: what benefits cost, and
-- what a user is granted in each round.
use boteco12_api.Prelude.{ℕ, Bool, true, false, ◌&&◌, Option, none, some, ltb, if◌then◌else◌}
use boteco12_api.Prelude.Int.{ℤ, pos}
use boteco12_api.Db.{BetType, double, super_double, RoundBenefit}

-- `BenefitPurchasePackageId`; a text that is no key of the table is `unknown_package`.
pub data PackageId : Type 0 where
  double_single double_combo double_total super_single super_master unknown_package : PackageId

pub record Package : Type 0 where
  pub type : BetType
  pub quantity : ℕ
  pub cost : ℤ

-- `BENEFIT_PURCHASE_PACKAGES[packageId]`
abbrev pub package_of : PackageId → Option Package
package_of double_single = some (record { type = double; quantity = 1; cost = pos 4 })
package_of double_combo = some (record { type = double; quantity = 3; cost = pos 10 })
package_of double_total = some (record { type = double; quantity = 10; cost = pos 20 })
package_of super_single = some (record { type = super_double; quantity = 1; cost = pos 5 })
package_of super_master = some (record { type = super_double; quantity = 4; cost = pos 20 })
package_of unknown_package = none

-- `ROUND_BENEFIT_GRANTS`
abbrev grant_free : RoundBenefit
grant_free = record { free_doubles = 2; free_super_doubles = 0 }

abbrev grant_pro_monthly : RoundBenefit
grant_pro_monthly = record { free_doubles = 4; free_super_doubles = 2 }

abbrev grant_pro_annual : RoundBenefit
grant_pro_annual = record { free_doubles = 4; free_super_doubles = 2 }

-- `getRoundBenefitGrant`
abbrev pub get_round_benefit_grant : Bool → Bool → RoundBenefit
get_round_benefit_grant is_pro is_annual_pro =
    if is_pro then if is_annual_pro then grant_pro_annual else grant_pro_monthly else grant_free

pub data SubscriptionStatus : Type 0 where
  active expired cancelled : SubscriptionStatus

pub data Plan : Type 0 where
  monthly annual : Plan

pub record Subscription : Type 0 where
  pub status : SubscriptionStatus
  pub plan : Option Plan
  pub start_at : Option ℕ
  pub end_at : Option ℕ

abbrev is_expired : SubscriptionStatus → Bool
is_expired expired = true
is_expired _ = false

-- `date && date > at`
abbrev is_after : Option ℕ → ℕ → Bool
is_after none at = false
is_after (some d) at = ltb at d

-- `!date || date > at`
abbrev is_open_until : Option ℕ → ℕ → Bool
is_open_until none at = true
is_open_until (some d) at = ltb at d

-- `hasActiveProSubscriptionAt`
unfoldable pub has_active_pro_subscription_at : Option Subscription → ℕ → Bool
has_active_pro_subscription_at none at = false
has_active_pro_subscription_at (some s) at =
    if is_expired s.status
    then false
    else if is_after s.start_at at
    then false
    else is_open_until s.end_at at

abbrev is_annual : Option Plan → Bool
is_annual (some annual) = true
is_annual _ = false

-- `hasAnnualProSubscription`, at the time `now` of `hasActiveProSubscription`
unfoldable pub has_annual_pro_subscription : Option Subscription → ℕ → Bool
unfolding has_active_pro_subscription_at
has_annual_pro_subscription none now = false
has_annual_pro_subscription (some s) now =
    has_active_pro_subscription_at (some s) now && is_annual s.plan
