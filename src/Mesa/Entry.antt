-- ===== src/Mesa/Entry.antt =====
-- src/services/bolao/join-bolao.service.ts: a user enters a Mesa, with the rows of `rankings` and
-- `ranking_participants` of one Mesa. Amounts are natural numbers; the texts for people, the ids of
-- participants and the reviewer are not modelled.
pub mod Join
pub mod Review
pub mod Invited
pub mod Coherent
pub mod Joined
pub mod Laws
pub mod Capacity
pub mod Approval
pub mod Books
pub mod History
mod Tests
use boteco12_api.Prelude.{
  ℕ, suc, ◌+◌, Bool, true, false, not, ◌&&◌, ◌||◌, Option, none, some, List, [], ◌∷◌, ◌==◌, ltb,
  leb, if◌then◌else◌,
}
use boteco12_api.Prelude.Int.{ℤ, pos}
use boteco12_api.Errors.{
  Result, ok, err, Error, Code, forbidden, pro_subscription_required, failure, mesa_full,
  mesa_not_found, not_a_mesa, mesa_not_active, already_participates, access_already_debited,
  no_open_round, only_without_subscription,
}
use boteco12_api.Transaction.{Tx, continue}
use boteco12_api.Db.{Db, Round, ScoreHistory}
use boteco12_api.Wallet.{JsNumber, integer, debit_entry}
use boteco12_api.Mesa.Terms.{
  Category, paid, sponsored_free, CloseMode, is_capacity, capacity, date, MesaTerms, or_else,
  is_sponsored, assert_capacity,
}
use boteco12_api.Mesa.Registration.{Window, Invite, assert_open, baseline_at}
use boteco12_api.Mesa.Prize.{calculate_pool}

pub data RankingStatus : Type 0 where
  draft active closed : RankingStatus

pub data Standing : Type 0 where
  pending approved rejected : Standing

pub data Eligibility : Type 0 where
  all subscribers_only free_only : Eligibility

pub data Initialization : Type 0 where
  waiting_for_registration_close waiting_for_reference_round : Initialization
  waiting_for_baseline_capture ready : Initialization

-- The row of `rankings`
pub record MesaRow : Type 0 where
  pub is_bolao : Bool
  pub status : RankingStatus
  pub entry_fee : ℕ
  pub access_cost : Option ℕ
  pub category : Option Category
  pub eligibility : Option Eligibility
  pub close_mode : Option CloseMode
  pub sponsor_prize_pool : ℕ
  pub max_participants : Option ℕ
  pub current_participants : ℕ
  pub created_by : Option ℕ
  pub window : Window
  pub registration_closed_at : Option ℕ
  pub reference_round : Option ℕ
  pub initialization : Option Initialization
  pub captured_at : Option ℕ
  pub gross_collected : ℕ
  pub platform_fee : ℕ
  pub prize_pool : ℕ
  pub reward_pool : Option ℕ

-- A row of `ranking_participants`, by the user
pub record Participant : Type 0 where
  pub user : ℕ
  pub standing : Standing
  pub score_initial : ℤ
  pub entry_fee_paid : ℕ
  pub entry_paid_at : Option ℕ

pub data EntryLog : Type 0 where
  join_approved join_rejected invite_reused invite_used : ℕ → EntryLog

-- The tables, with the rows of one Mesa, the invite of one code and the round that is OPEN.
pub record Lobby : Type 0 where
  pub db : Db
  pub mesa : Option MesaRow
  pub participants : List Participant
  pub invite : Option Invite
  pub open_round_id : Option ℕ
  pub log : List EntryLog

abbrev pub number_of : Option ℕ → Option JsNumber
number_of none = none
number_of (some n) = some (integer (pos n))

abbrev pub terms_of : MesaRow → MesaTerms
terms_of m = record {
  category = m.category;
  access_cost = number_of m.access_cost;
  entry_fee = some (integer (pos m.entry_fee));
  sponsor_prize_pool = some (integer (pos m.sponsor_prize_pool));
  has_sponsor_name = false;
  max_participants = number_of m.max_participants;
  registration_close_mode = m.close_mode;
}

-- `bolao.accessCost ?? bolao.entryFee`
abbrev pub cost_of : MesaRow → ℕ
cost_of m = or_else m.access_cost m.entry_fee

-- `MesaCategoryRules.hasPaidEntry`
abbrev pub has_paid_entry : MesaRow → Bool
has_paid_entry m = ltb 0 (cost_of m)

-- `(bolao.registrationCloseMode ?? 'CAPACITY') === 'CAPACITY'`
abbrev pub by_capacity : MesaRow → Bool
by_capacity m = is_capacity (or_else m.close_mode capacity)

abbrev pub is_active_ranking : RankingStatus → Bool
is_active_ranking active = true
is_active_ranking _ = false

abbrev is_pro_required : Error → Bool
is_pro_required (forbidden pro_subscription_required) = true
is_pro_required _ = false

-- The `catch` of `assertEligibility`
abbrev only_free : Result (Unit {0}) → Result (Unit {0})
only_free (ok _) = err (failure only_without_subscription)
only_free (err e) = if is_pro_required e then ok tt else err e

-- `assertEligibility`, with the answer of `AssertActiveProUserService.execute`
unfoldable pub assert_eligibility : Option Eligibility → Result (Unit {0}) → Result (Unit {0})
assert_eligibility none pro = pro
assert_eligibility (some all) pro = ok tt
assert_eligibility (some subscribers_only) pro = pro
assert_eligibility (some free_only) pro = only_free pro

abbrev pub find_participant : ℕ → List Participant → Option Participant
find_participant u [] = none
find_participant u (p ∷ ps) = if p.user == u then some p else find_participant u ps

abbrev pub is_approved_standing : Standing → Bool
is_approved_standing approved = true
is_approved_standing _ = false

abbrev pub has_paid : Option ℕ → Bool
has_paid none = false
has_paid (some t) = true

abbrev pub assert_new : Option Participant → Result (Unit {0})
assert_new none = ok tt
assert_new (some p) =
    if is_approved_standing p.standing
    then err (failure already_participates)
    else if has_paid p.entry_paid_at
    then err (failure access_already_debited)
    else ok tt

-- `a; b` of two checks
abbrev pub both : Result (Unit {0}) → Result (Unit {0}) → Result (Unit {0})
both (ok _) r = r
both (err e) r = err e

-- The guards of `executeInTransaction`, in their order; `creator` is `creatorPublication`.
unfoldable pub assert_may_join :
    Bool → ℕ → Result (Unit {0}) → MesaRow → Option Participant → Result (Unit {0})
assert_may_join creator now pro m existing =
    if not m.is_bolao
    then err (failure not_a_mesa)
    else if not (is_active_ranking m.status)
    then err (failure mesa_not_active)
    else both (if creator then ok tt else assert_eligibility m.eligibility pro) (
        both (if creator then ok tt else assert_open m.window now) (
          both
            (if by_capacity m
              then assert_capacity (terms_of m) (pos m.current_participants)
              else ok tt)
            (assert_new existing)))
