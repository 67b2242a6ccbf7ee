-- ===== src/Mesa/Baseline.antt =====
-- src/services/bolao/mesa-initial-score.service.ts: the initial scores of a Mesa are captured after its
-- reference round. The row of a Mesa stands with its participants; an id is never 0.
pub mod Again
mod Tests
use boteco12_api.Prelude.{
  ℕ, suc, Bool, true, false, not, ◌&&◌, ◌||◌, Option, none, some, List, [], ◌∷◌, ◌==◌, ltb, leb,
  if◌then◌else◌,
}
use boteco12_api.Prelude.Int.{ℤ, pos}
use boteco12_api.Errors.{Result, ok, err, failure, participant_changed}
use boteco12_api.Transaction.{Tx, continue}
use boteco12_api.Mesa.Entry.{
  Standing, is_approved_standing, RankingStatus, is_active_ranking, Initialization,
  waiting_for_reference_round, waiting_for_baseline_capture, ready,
}

-- A row of `ranking_participants`
pub record Contender : Type 0 where
  pub id : ℕ
  pub user_id : ℕ
  pub standing : Standing
  pub score_initial : ℤ
  pub captured_at : Option ℕ

-- The row of `rankings`, with its participants and the metadata of its entries
-- MESA_INITIAL_SCORE_CAPTURED
pub record MesaStart : Type 0 where
  pub is_bolao : Bool
  pub status : RankingStatus
  pub reference_round_id : Option ℕ
  pub initialization : Option Initialization
  pub captured_at : Option ℕ
  pub registration_closed_at : Option ℕ
  pub current_participants : ℕ
  pub participants : List Contender
  pub log : List (Option ℕ × ℕ)

-- A row of `user_score_history`, with its round
pub record PastScore : Type 0 where
  pub user_id : ℕ
  pub round_id : ℕ
  pub number : ℕ
  pub round_scored : Bool
  pub score_total : ℤ

-- A row of `tickets`, with its round
pub record PastTicket : Type 0 where
  pub user_id : ℕ
  pub round_id : ℕ
  pub number : ℕ
  pub round_cancelled : Bool

-- `reference`: the number of the round, and whether it is SCORED
pub record Reference : Type 0 where
  pub number : ℕ
  pub is_round_scored : Bool

-- The tables that are only read
pub record ScoreTables : Type 0 where
  pub rounds : ℕ → Option Reference
  pub histories : List PastScore
  pub tickets : List PastTicket

abbrev pub given {ℓ} : {A : Type ℓ} → Option A → Bool
given none = false
given (some a) = true

abbrev pub is_ready_start : Option Initialization → Bool
is_ready_start (some ready) = true
is_ready_start _ = false

abbrev pub waits_for_capture : Option Initialization → Bool
waits_for_capture (some waiting_for_reference_round) = true
waits_for_capture (some waiting_for_baseline_capture) = true
waits_for_capture _ = false

-- The `where` of `pending`
abbrev pub is_awaiting_capture : MesaStart → Bool
is_awaiting_capture s =
    s.is_bolao
    && (is_active_ranking s.status
        && (given s.reference_round_id
            && (not (given s.captured_at) && waits_for_capture s.initialization)))

-- The first early return
abbrev pub is_not_due : MesaStart → Bool
is_not_due s =
    not (is_active_ranking s.status)
    || (not (given s.reference_round_id)
        || (not (given s.registration_closed_at)
            || (given s.captured_at || is_ready_start s.initialization)))

-- `mesa.participants`
abbrev pub approved_contenders : List Contender → List Contender
approved_contenders [] = []
approved_contenders (p ∷ ps) =
    let rest = approved_contenders ps in if is_approved_standing p.standing then p ∷ rest else rest

abbrev pub count_contenders : List Contender → ℕ
count_contenders [] = 0
count_contenders (p ∷ ps) = suc (count_contenders ps)

-- `userIds` has this user
abbrev pub has_user : ℕ → List Contender → Bool
has_user u [] = false
has_user u (p ∷ ps) = p.user_id == u || has_user u ps

-- `histories`, by number, the last first
abbrev insert_past : PastScore → List PastScore → List PastScore
insert_past h [] = h ∷ []
insert_past h (g ∷ gs) =
    let rest = insert_past h gs in if ltb h.number g.number then g ∷ rest else h ∷ g ∷ gs

abbrev pub past_scores : ℕ → List Contender → List PastScore → List PastScore
past_scores number ps [] = []
past_scores number ps (h ∷ hs) =
    let rest = past_scores number ps hs in
    if has_user h.user_id ps && (leb h.number number && h.round_scored)
    then insert_past h rest
    else rest

-- `historyKeys.has`
abbrev pub is_in_histories : ℕ → ℕ → List PastScore → Bool
is_in_histories u round [] = false
is_in_histories u round (h ∷ hs) =
    (h.user_id == u && h.round_id == round) || is_in_histories u round hs

-- `tickets.some`, over the tickets that the query selects
abbrev pub any_unscored : ℕ → List Contender → List PastScore → List PastTicket → Bool
any_unscored number ps hs [] = false
any_unscored number ps hs (t ∷ ts) =
    ((has_user t.user_id ps && (leb t.number number && not t.round_cancelled))
      && not (is_in_histories t.user_id t.round_id hs))
    || any_unscored number ps hs ts

-- `baseline`
abbrev pub baseline_of : ℕ → List PastScore → ℤ
baseline_of u [] = pos 0
baseline_of u (h ∷ hs) = if h.user_id == u then h.score_total else baseline_of u hs

-- The `where` of `updateMany`, its count and its effect
abbrev pub is_capturable : ℕ → Contender → Bool
is_capturable id p = p.id == id && (is_approved_standing p.standing && not (given p.captured_at))

abbrev pub count_capturable : ℕ → List Contender → ℕ
count_capturable id [] = 0
count_capturable id (p ∷ ps) =
    let rest = count_capturable id ps in if is_capturable id p then suc rest else rest

abbrev pub write_baseline : ℕ → ℕ → ℤ → List Contender → List Contender
write_baseline at id baseline [] = []
write_baseline at id baseline (p ∷ ps) =
    let rest = write_baseline at id baseline ps in
    if is_capturable id p
    then record p { score_initial = baseline; captured_at = some at } ∷ rest
    else p ∷ rest

abbrev pub capture_one : ℕ → List PastScore → Contender → Tx (List Contender) (Unit {0})
capture_one at hs p cs =
    if given p.captured_at
    then ok (tt, cs)
    else if count_capturable p.id cs == 1
    then ok (tt, write_baseline at p.id (baseline_of p.user_id hs) cs)
    else err (failure participant_changed)

-- The loop over the participants
abbrev pub capture_each : ℕ → List PastScore → List Contender → Tx (List Contender) (Unit {0})
capture_each at hs [] cs = ok (tt, cs)
capture_each at hs (p ∷ ps) cs =
    continue (capture_one at hs p cs) (λ _ cs'. capture_each at hs ps cs')

abbrev pub mark_waiting : MesaStart → MesaStart
mark_waiting s = record s { initialization = some waiting_for_baseline_capture }

-- READY, with the entry of the log
abbrev pub mark_ready : ℕ → MesaStart → List Contender → MesaStart
mark_ready at s cs = record s {
  initialization = some ready;
  captured_at = some at;
  participants = cs;
  log = (s.reference_round_id, count_contenders (approved_contenders s.participants)) ∷ s.log;
}

abbrev pub finish_capture :
    ℕ → MesaStart → Result (Unit {0} × List Contender) → Result (Unit {0} × MesaStart)
finish_capture at s (err e) = err e
finish_capture at s (ok (_, cs)) = ok (tt, mark_ready at s cs)

abbrev pub write_all : ℕ → List PastScore → Tx MesaStart (Unit {0})
write_all at hs s =
    finish_capture at s (capture_each at hs (approved_contenders s.participants) s.participants)

-- The returns that leave the Mesa waiting
abbrev pub is_incomplete : ScoreTables → ℕ → MesaStart → Bool
is_incomplete w number s =
    let ps = approved_contenders s.participants in
    count_contenders ps == 0
    || (not (count_contenders ps == s.current_participants)
        || any_unscored number ps (past_scores number ps w.histories) w.tickets)

abbrev pub with_number : ℕ → ScoreTables → ℕ → Tx MesaStart (Unit {0})
with_number at w number s =
    if is_incomplete w number s
    then ok (tt, s)
    else write_all at (past_scores number (approved_contenders s.participants) w.histories) s

abbrev pub with_reference : ℕ → ScoreTables → Option Reference → Tx MesaStart (Unit {0})
with_reference at w none s = ok (tt, s)
with_reference at w (some r) s =
    if r.is_round_scored then with_number at w r.number (mark_waiting s) else ok (tt, s)

abbrev pub reference_of : ScoreTables → Option ℕ → Option Reference
reference_of w none = none
reference_of w (some id) = w.rounds id

-- The transaction of one Mesa
unfoldable pub capture : ℕ → ScoreTables → Tx MesaStart (Unit {0})
capture at w s =
    if is_not_due s then ok (tt, s) else with_reference at w (reference_of w s.reference_round_id) s

abbrev pub after_capture :
    MesaStart → List MesaStart → Result (Unit {0} × MesaStart) → List MesaStart → List MesaStart
after_capture s ss (err e) rest = s ∷ ss
after_capture s ss (ok (_, s')) rest = s' ∷ rest

-- `capturePending`, over the Mesas in the order of their ids: a throw ends the loop.
unfoldable pub capture_pending : ℕ → ScoreTables → List MesaStart → List MesaStart
capture_pending at w [] = []
capture_pending at w (s ∷ ss) =
    let rest = capture_pending at w ss in
    if is_awaiting_capture s then after_capture s ss (capture at w s) rest else s ∷ rest
