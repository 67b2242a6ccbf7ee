-- ===== src/Benefit/Grant/Laws.antt =====
-- The grants of a round (grant-round-benefits.service.ts, round-benefit.service.ts) and the balance
-- that a user is shown (get-benefit-balance.service.ts).
use boteco12_api.Prelude.{
  ◌↔◌, ◌+◌, Bool-cases, leb, leb→le, inl, inr, ℕ, ◌≤◌, ◌≡◌, ◌≢◌, false, Option, none, some, List,
  [], ◌∷◌, ◌==◌, if◌then◌else◌, arith,
}
use boteco12_api.Errors.{ok}
use boteco12_api.Transaction.{>>=-eq-ok}
use boteco12_api.Db.{Db, double, RoundBenefit}
use boteco12_api.Benefit.Config.{Subscription}
use boteco12_api.Benefit.Consume.{Consumption, consume}
use boteco12_api.Benefit.Accounting.{quiet, free_of, inventory_of, consume_covered, consume_missing}
use boteco12_api.Benefit.Grant.{
  User, grant_of, ensure_grant, grant_round_benefits, create_grant, grant_for_round,
  get_benefit_balance,
}

-- The subscription of the first row of a user.
abbrev pub subscription_in : ℕ → List User → Option (Option Subscription)
subscription_in u [] = none
subscription_in u ((v, s) ∷ xs) = if u == v then some s else subscription_in u xs

-- The row of a user after the grants of the round `r`.
abbrev pub granted : ℕ → Option (Option Subscription) → Option RoundBenefit → Option RoundBenefit
granted now s (some b) = some b
granted now none none = none
granted now (some s) none = some (grant_of now s)

-- After the grants of a round, a user who had a row keeps it as it was, a listed user who had none
-- has the grant of the subscription, and no other row changes.
pub grant_round_benefits_lem :
    (now r : ℕ) (xs : List User) (db : Db) (u s : ℕ)
    → (grant_round_benefits now r xs db).round_benefits u s ≡ (
        if s == r
        then granted now (subscription_in u xs) (db.round_benefits u s)
        else db.round_benefits u s)
unfolding grant_round_benefits
grant_round_benefits_lem now r [] db u s = ground arith
grant_round_benefits_lem now r ((v, sub) ∷ xs) db u s =
    ground (arith, grant_round_benefits_lem now r xs (ensure_grant now r (v, sub) db) u s)

-- Granting a second time, at any later time and whatever was used meanwhile, restores nothing: every
-- row that is there stays as it is.
pub grant_restores_nothing :
    (now r : ℕ) (xs : List User) (db : Db) (u : ℕ) {b : RoundBenefit}
    → db.round_benefits u r ≡ some b
    → (grant_round_benefits now r xs db).round_benefits u r ≡ some b
grant_restores_nothing now r xs db u h = ground (arith, grant_round_benefits_lem now r xs db u r)

-- The total of doubles that a user is shown for a round is exactly what the user can bet: with nobody
-- else at work, a consumption of `q` doubles succeeds if and only if the total is at least `q`.
pub shown_doubles_are_usable :
    (u r q : ℕ) (db : Db)
    → ((c : Consumption) × (db' : Db) × (consume quiet quiet u r double q db ≡ ok (c, db')))
      ↔ (q ≤ (get_benefit_balance u (some r) db).total_doubles)
unfolding get_benefit_balance
shown_doubles_are_usable u r q db = (enough, consume_covered u r double q db)
  where
    enough :
        (c : Consumption) × (db' : Db) × (consume quiet quiet u r double q db ≡ ok (c, db'))
        → q ≤ free_of db u r double + inventory_of db u double
    enough (c, db', e) =
        elim (Bool-cases (leb q (free_of db u r double + inventory_of db u double))) [
          | inl h ↦ leb→le _ _ h
          | inr h ↦ cc (e, consume_missing u r double q db (ground arith))
        ]

create_grant-ok :
    (v r : ℕ) (g : RoundBenefit) (db : Db) (u : ℕ) {b : RoundBenefit} {mid : Db}
    → db.round_benefits u r ≡ some b
    → create_grant v r g db ≡ ok (tt, mid)
    → ((u == v) ≡ false) × (mid.round_benefits u r ≡ some b)
create_grant-ok v r g db u h e = ground arith

-- `RoundBenefitService.grantForRound` is not repeatable: once a listed user has a row, it throws.
pub grant_for_round_once :
    (now r : ℕ) (xs : List User) (db : Db) (u : ℕ) {s : Option Subscription} {b : RoundBenefit}
    {db' : Db}
    → subscription_in u xs ≡ some s
    → db.round_benefits u r ≡ some b
    → grant_for_round now r xs db ≢ ok (tt, db')
unfolding grant_for_round
grant_for_round_once now r [] db u l h e = cc
grant_for_round_once now r ((v, s) ∷ xs) db u {b = b} l h e =
    let (_, mid, first, rest) =
      >>=-eq-ok (create_grant v r (grant_of now s)) (λ _. grant_for_round now r xs) db e in
    let (other, kept) = create_grant-ok v r (grant_of now s) db u h first in
    grant_for_round_once now r xs mid u (rw other at l) kept rest
