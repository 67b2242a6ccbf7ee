-- ===== src/Mesa/Integrity.antt =====
-- src/services/bolao/mesa-integrity.service.ts: what must hold of a Mesa before it is settled, over
-- the rows of the participation. Of the description only whether its trimmed text is empty is read.
pub mod Clean
pub mod Kept
mod Tests
use boteco12_api.Prelude.{
  ℕ, suc, ◌+◌, Bool, true, false, not, ◌&&◌, ◌||◌, Option, none, some, List, [], ◌∷◌, ◌++◌, ◌==◌,
  ltb, if◌then◌else◌,
}
use boteco12_api.Errors.{Result, ok, err}
use boteco12_api.Mesa.Terms.{or_else, is_paid, is_free, is_sponsored}
use boteco12_api.Mesa.Prize.{Json, PrizeItem, Pool, validate_distribution, calculate_pool}
use boteco12_api.Mesa.Entry.{
  MesaRow, Participant, terms_of, cost_of, has_paid_entry, by_capacity, is_approved_standing,
  has_paid,
}

-- `code` of a MesaIntegrityIssue
pub data Issue : Type 0 where
  invalid_paid_access_cost invalid_paid_sponsor_pool invalid_sponsored_prize_pool : Issue
  invalid_free_financial_terms missing_participant_limit invalid_participant_limit : Issue
  participant_count_mismatch capacity_exceeded access_cost_compatibility_mismatch : Issue
  reward_pool_compatibility_mismatch missing_prize_rules invalid_prize_distribution : Issue
  approved_entry_not_paid gross_collected_mismatch prize_totals_mismatch : Issue

-- `if (c) issues.push(issue)`
unfoldable pub report : Bool → Issue → List Issue → List Issue
report true issue rest = issue ∷ rest
report false issue rest = rest

abbrev pub is_paid_row : MesaRow → Bool
is_paid_row r = is_paid (terms_of r)

abbrev pub is_sponsored_row : MesaRow → Bool
is_sponsored_row r = is_sponsored (terms_of r)

abbrev pub is_free_row : MesaRow → Bool
is_free_row r = is_free (terms_of r)

-- `maxParticipants == null`, `maxParticipants <= 0` and `currentParticipants > maxParticipants`
abbrev pub has_no_limit : Option ℕ → Bool
has_no_limit none = true
has_no_limit (some n) = false

abbrev pub is_limit_zero : Option ℕ → Bool
is_limit_zero none = false
is_limit_zero (some n) = n == 0

abbrev pub exceeds : ℕ → Option ℕ → Bool
exceeds k none = false
exceeds k (some n) = ltb n k

abbrev pub mismatches : Option ℕ → ℕ → Bool
mismatches none n = false
mismatches (some k) n = not (k == n)

abbrev pub is_accepted : Result (List PrizeItem) → Bool
is_accepted (ok items) = true
is_accepted (err e) = false

-- `item.entryPaidAt && item.entryFeePaid === accessCost`
abbrev pub has_paid_all : ℕ → Participant → Bool
has_paid_all cost p = has_paid p.entry_paid_at && p.entry_fee_paid == cost

-- `approved.length`
abbrev pub approved_length : List Participant → ℕ
approved_length [] = 0
approved_length (p ∷ ps) =
    let rest = approved_length ps in if is_approved_standing p.standing then suc rest else rest

-- `unpaid.length > 0`, where the entry is paid
abbrev pub any_unpaid : ℕ → List Participant → Bool
any_unpaid cost [] = false
any_unpaid cost (p ∷ ps) =
    (is_approved_standing p.standing && not (has_paid_all cost p)) || any_unpaid cost ps

-- `expectedGross`, where the entry is paid
abbrev pub expected_gross : ℕ → List Participant → ℕ
expected_gross cost [] = 0
expected_gross cost (p ∷ ps) =
    let rest = expected_gross cost ps in
    if is_approved_standing p.standing && has_paid_all cost p then p.entry_fee_paid + rest else rest

-- `totals`
abbrev pub expected_totals : MesaRow → Pool
expected_totals r =
    let entry_totals = calculate_pool r.gross_collected in
    if is_sponsored_row r
    then record entry_totals { prize_pool = r.sponsor_prize_pool + entry_totals.prize_pool }
    else if is_free_row r
    then record { gross_collected = 0; platform_fee = 0; prize_pool = 0 }
    else entry_totals

-- The issues of the category and of the limit of participants
abbrev pub term_issues : MesaRow → List Issue → List Issue
term_issues r rest = report (is_paid_row r && cost_of r == 0) invalid_paid_access_cost (
    report (is_paid_row r && not (r.sponsor_prize_pool == 0)) invalid_paid_sponsor_pool (
      report (not (is_paid_row r) && (is_sponsored_row r && r.sponsor_prize_pool == 0))
        invalid_sponsored_prize_pool
        (report
          (not (is_paid_row r)
            && (not (is_sponsored_row r)
                && (not (cost_of r == 0) || not (r.sponsor_prize_pool == 0))))
          invalid_free_financial_terms
          (report (by_capacity r && has_no_limit r.max_participants) missing_participant_limit
            (report (is_limit_zero r.max_participants) invalid_participant_limit rest)))))

abbrev pub seat_issues : MesaRow → List Participant → List Issue → List Issue
seat_issues r ps rest =
    report (not (r.current_participants == approved_length ps)) participant_count_mismatch
      (report (exceeds r.current_participants r.max_participants) capacity_exceeded rest)

-- The issues of single fields
abbrev pub field_issues : Bool → Json → MesaRow → List Issue → List Issue
field_issues described distribution r rest =
    report (mismatches r.access_cost r.entry_fee) access_cost_compatibility_mismatch (
      report (mismatches r.reward_pool r.prize_pool) reward_pool_compatibility_mismatch (
        report (not described) missing_prize_rules (
          report (not (is_free_row r) && not (is_accepted (validate_distribution distribution)))
            invalid_prize_distribution rest)))

abbrev pub money_issues : MesaRow → List Participant → List Issue
money_issues r ps = report (has_paid_entry r && any_unpaid (cost_of r) ps) approved_entry_not_paid (
    report
      (not (r.gross_collected == (if has_paid_entry r then expected_gross (cost_of r) ps else 0)))
      gross_collected_mismatch
      (report
        (not (r.platform_fee == (expected_totals r).platform_fee)
          || not (or_else r.reward_pool r.prize_pool == (expected_totals r).prize_pool))
        prize_totals_mismatch []))

-- `inspect`. Amounts are natural numbers here, so INVALID_SPONSORED_ACCESS_COST, a negative cost,
-- does not occur.
unfoldable pub inspect : Bool → Json → MesaRow → List Participant → List Issue
inspect described distribution r ps =
    term_issues r (seat_issues r ps (field_issues described distribution r (money_issues r ps)))
