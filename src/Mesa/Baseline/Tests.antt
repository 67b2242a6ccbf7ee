-- ===== src/Mesa/Baseline/Tests.antt =====
-- A Mesa of two, captured after its reference round.
use boteco12_api.Prelude.{ℕ, ◌≡◌, refl, true, false, Option, none, some, List, [], ◌∷◌, map, ltb}
use boteco12_api.Prelude.Int.{ℤ, pos}
use boteco12_api.Errors.{ok}
use boteco12_api.Transaction.{committed}
use boteco12_api.Mesa.Entry.{active, approved, pending, waiting_for_reference_round}
use boteco12_api.Mesa.Baseline.{
  Contender, MesaStart, PastScore, PastTicket, ScoreTables, Reference, mark_waiting, capture,
  capture_pending,
}
use boteco12_api.Mesa.Baseline.Again.{capture_runs_once}

abbrev contender : ℕ → Contender
contender u = record {
  id = u;
  user_id = u;
  standing = approved;
  score_initial = pos 0;
  captured_at = none;
}

abbrev mesa : MesaStart
mesa = record {
  is_bolao = true;
  status = active;
  reference_round_id = some 7;
  initialization = some waiting_for_reference_round;
  captured_at = none;
  registration_closed_at = some 50;
  current_participants = 2;
  participants = contender 1 ∷ record (contender 3) { standing = pending } ∷ contender 2 ∷ [];
  log = [];
}

abbrev past : ℕ → ℕ → ℕ → PastScore
past u round total = record {
  user_id = u;
  round_id = round;
  number = round;
  round_scored = true;
  score_total = pos total;
}

abbrev played : ℕ → ℕ → PastTicket
played u round = record { user_id = u; round_id = round; number = round; round_cancelled = false }

abbrev scored_round : ℕ → Option Reference
scored_round id = some (record { number = id; is_round_scored = ltb id 8 })

-- User 2 did not play in round 7.
abbrev tables : ScoreTables
tables = record {
  rounds = scored_round;
  histories = past 1 6 20 ∷ past 2 6 12 ∷ past 1 7 26 ∷ past 2 8 40 ∷ [];
  tickets = played 1 6 ∷ played 2 6 ∷ played 1 7 ∷ played 2 8 ∷ [];
}

-- The history of user 2 in round 6 is still missing.
abbrev behind : ScoreTables
behind = record tables { histories = past 1 7 26 ∷ past 1 6 20 ∷ [] }

abbrev initial_scores : MesaStart → List ℤ
initial_scores s = map (λ p. p.score_initial) s.participants

abbrev captured : MesaStart
captured = committed mesa (capture 100 tables mesa)

-- The last total up to the reference round; a request that is not approved is left alone.
baselines : initial_scores captured ≡ pos 26 ∷ pos 0 ∷ pos 12 ∷ []
unfolding capture
baselines = refl

waits_for_histories :
    capture_pending 100 behind (mesa ∷ mesa ∷ []) ≡ mark_waiting mesa ∷ mark_waiting mesa ∷ []
unfolding capture_pending capture
waits_for_histories = refl

capture_runs_once_example : capture 200 tables captured ≡ ok (tt, captured)
unfolding capture
capture_runs_once_example = capture_runs_once 100 200 tables mesa captured refl
