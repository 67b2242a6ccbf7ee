-- ===== src/Ranking/Window.antt =====
-- `buildRows` of src/services/ranking/ranking-window-score.service.ts: the rows of a ranking over its
-- window, scored and in their order. The participants are the approved ones, in the order of
-- creation; a history has the columns of its round.
pub mod Live
mod Tests
use boteco12_api.Prelude.{
  ℕ, Bool, true, false, not, ◌&&◌, ◌||◌, Option, none, some, List, [], ◌∷◌, map, ◌==◌, ltb, leb,
  if◌then◌else◌,
}
use boteco12_api.Prelude.Int.{ℤ, pos, ◌-ℤ◌}
use boteco12_api.Ranking.Tiebreak.{Metrics, AccumulatedHits, rank, calculate_window_hits}
use boteco12_api.Mesa.Entry.{Initialization, ready}

-- `RankingWindow`, with the number of the reference round
pub record RankingWindow : Type 0 where
  pub start_date : Option ℕ
  pub end_date : Option ℕ
  pub reference_round_id : Option ℕ
  pub reference_round : Option ℕ
  pub initialization_status : Option Initialization
  pub score_initial_captured_at : Option ℕ

-- What `rankingParticipant.findMany` selects
pub record Entrant : Type 0 where
  pub id : ℕ
  pub user_id : ℕ
  pub score : ℤ
  pub score_initial : ℤ
  pub score_initial_captured_at : Option ℕ
  pub position : Option ℕ
  pub approved_at : Option ℕ
  pub score_total : ℤ
  pub user_created_at : ℕ

-- What `userScoreHistory.findMany` reads
pub record History : Type 0 where
  pub user_id : ℕ
  pub score_total : ℤ
  pub score_round : ℤ
  pub total_doubles : ℤ
  pub total_super_doubles : ℤ
  pub created_at : ℕ
  pub close_at : Option ℕ
  pub number : ℕ
  pub round_scored : Bool

-- `RankingWindowRow`, before and after the positions
pub record RankingWindowRow : Type 0 where
  pub participant_id : ℕ
  pub user_id : ℕ
  pub score : ℤ
  pub score_round : ℤ
  pub score_initial : ℤ
  pub score_total_current : ℤ
  pub super_double_hits : ℤ
  pub double_hits : ℤ
  pub user_created_at : ℕ
  pub previous_score : ℤ
  pub previous_position : Option ℕ

-- `calculateScoreFromBaseline`
abbrev pub calculate_score_from_baseline : ℤ → ℤ → ℤ
calculate_score_from_baseline score_total_current score_initial =
    score_total_current -ℤ score_initial

abbrev pub is_given {ℓ} : {A : Type ℓ} → Option A → Bool
is_given none = false
is_given (some a) = true

abbrev pub is_ready : Option Initialization → Bool
is_ready (some ready) = true
is_ready _ = false

-- `referenceLifecycle`
abbrev pub reference_lifecycle : RankingWindow → Bool
reference_lifecycle r = is_given r.reference_round_id || is_given r.initialization_status

abbrev pub any_uncaptured : List Entrant → Bool
any_uncaptured [] = false
any_uncaptured (p ∷ ps) = not (is_given p.score_initial_captured_at) || any_uncaptured ps

-- Whether the initial scores are still awaited
abbrev pub is_waiting : RankingWindow → List Entrant → Bool
is_waiting r ps =
    reference_lifecycle r
    && (not (is_ready r.initialization_status)
        || (not (is_given r.score_initial_captured_at)
            || (not (is_given r.reference_round) || any_uncaptured ps)))

abbrev pub waiting_row : Entrant → RankingWindowRow
waiting_row p = record {
  participant_id = p.id;
  user_id = p.user_id;
  score = pos 0;
  score_round = pos 0;
  score_initial = p.score_initial;
  score_total_current = p.score_initial;
  super_double_hits = pos 0;
  double_hits = pos 0;
  user_created_at = p.user_created_at;
  previous_score = p.score;
  previous_position = p.position;
}

abbrev at_most : Option ℕ → ℕ → Bool
at_most none date = false
at_most (some t) date = leb t date

-- The `where` of the histories; `end` is `ranking.endDate ?? new Date()`.
abbrev pub is_in_window : Bool → ℕ → History → Bool
is_in_window reference end h = (not reference || h.round_scored) && at_most h.close_at end

abbrev pub select_rows : Bool → ℕ → List History → List History
select_rows reference end [] = []
select_rows reference end (h ∷ hs) =
    let rest = select_rows reference end hs in
    if is_in_window reference end h then h ∷ rest else rest

abbrev time_of_closing : Option ℕ → ℕ
time_of_closing none = 0
time_of_closing (some t) = t

-- The `orderBy`: by number, or by close date and then by creation, the last first.
abbrev comes_after : Bool → History → History → Bool
comes_after true a b = ltb a.number b.number
comes_after false a b =
    ltb (time_of_closing a.close_at) (time_of_closing b.close_at)
    || (time_of_closing a.close_at == time_of_closing b.close_at && ltb a.created_at b.created_at)

abbrev insert_history : Bool → History → List History → List History
insert_history reference h [] = h ∷ []
insert_history reference h (g ∷ gs) =
    let rest = insert_history reference h gs in
    if comes_after reference h g then g ∷ rest else h ∷ g ∷ gs

abbrev order_rows : Bool → List History → List History
order_rows reference [] = []
order_rows reference (h ∷ hs) = insert_history reference h (order_rows reference hs)

-- `historyRows`
abbrev pub history_rows : Bool → ℕ → List History → List History
history_rows reference end hs = order_rows reference (select_rows reference end hs)

abbrev pub find_row : (History → Bool) → List History → Option History
find_row f [] = none
find_row f (h ∷ hs) = if f h then some h else find_row f hs

abbrev is_above : Option ℕ → ℕ → Bool
is_above none n = false
is_above (some k) n = ltb k n

-- `latestHistory`
abbrev pub latest_history : RankingWindow → Entrant → List History → Option History
latest_history r p = find_row (λ h.
    h.user_id == p.user_id && (not (reference_lifecycle r) || is_above r.reference_round h.number))

abbrev before_start : Option ℕ → Option ℕ → Bool
before_start (some t) (some start) = ltb t start
before_start _ _ = false

abbrev not_above : Option ℕ → ℕ → Bool
not_above none n = false
not_above (some k) n = leb n k

-- `baselineHistory`
abbrev pub baseline_history : RankingWindow → Entrant → List History → Option History
baseline_history r p = find_row (λ h.
    h.user_id == p.user_id
    && (if reference_lifecycle r
        then not_above r.reference_round h.number
        else before_start h.close_at r.start_date))

-- `joinedBeforeStart`, `rankingNotStarted` and `rankingEnded`
abbrev joined_before_start : RankingWindow → Entrant → Bool
joined_before_start r p = before_start p.approved_at r.start_date

abbrev pub ranking_not_started : RankingWindow → ℕ → Bool
ranking_not_started r now = before_start (some now) r.start_date

abbrev pub ranking_ended : RankingWindow → ℕ → Bool
ranking_ended r now = before_start r.end_date (some now)

abbrev total_or : ℤ → Option History → ℤ
total_or n none = n
total_or n (some h) = h.score_total

abbrev pub score_initial_of : RankingWindow → Entrant → Option History → ℤ
score_initial_of r p baseline =
    if not (reference_lifecycle r) && joined_before_start r p
    then total_or p.score_initial baseline
    else p.score_initial

abbrev pub score_total_of : RankingWindow → ℕ → Entrant → Option History → ℤ → ℤ
score_total_of r now p latest score_initial =
    if reference_lifecycle r
    then total_or score_initial latest
    else if ranking_not_started r now
    then score_initial
    else if ranking_ended r now
    then total_or score_initial latest
    else p.score_total

abbrev since_start : Option ℕ → Option ℕ → Bool
since_start none start = false
since_start (some t) none = true
since_start (some t) (some start) = leb start t

abbrev score_round_of : RankingWindow → Option History → ℤ
score_round_of r none = pos 0
score_round_of r (some h) = if since_start h.close_at r.start_date then h.score_round else pos 0

abbrev hits_of : Option History → Option AccumulatedHits
hits_of none = none
hits_of (some h) =
    some (record { total_super_doubles = h.total_super_doubles; total_doubles = h.total_doubles })

abbrev or_history : Option History → Option History → Option History
or_history none b = b
or_history (some a) b = some a

-- The callback of `participants.map`
abbrev pub row_of : RankingWindow → ℕ → List History → Entrant → RankingWindowRow
row_of r now hs p =
    let latest = latest_history r p hs in
    let baseline = baseline_history r p hs in
    let score_initial = score_initial_of r p baseline in
    let score_total_current = score_total_of r now p latest score_initial in
    let (supers, doubles) =
      calculate_window_hits
        (hits_of (if reference_lifecycle r then or_history latest baseline else latest))
        (hits_of baseline) in
    record {
      participant_id = p.id;
      user_id = p.user_id;
      score = calculate_score_from_baseline score_total_current score_initial;
      score_round = score_round_of r latest;
      score_initial = score_initial;
      score_total_current = score_total_current;
      super_double_hits = supers;
      double_hits = doubles;
      user_created_at = p.user_created_at;
      previous_score = p.score;
      previous_position = p.position;
    }

abbrev pub metrics_of : RankingWindowRow → Metrics
metrics_of row = record {
  user_id = row.user_id;
  score_ranking = row.score;
  super_double_hits = row.super_double_hits;
  double_hits = row.double_hits;
  user_created_at = row.user_created_at;
}

abbrev pub end_or_now : Option ℕ → ℕ → ℕ
end_or_now none today = today
end_or_now (some t) today = t

-- `buildRows`; the position 0 stands in rows that wait. `today` is `new Date()`.
unfoldable pub build_rows :
    ℕ → RankingWindow → ℕ → List Entrant → List History → List (RankingWindowRow × ℕ)
build_rows today r now ps histories =
    if is_waiting r ps
    then map (λ p. (waiting_row p, 0)) ps
    else rank metrics_of (
        map
          (row_of r now
            (history_rows (reference_lifecycle r) (end_or_now r.end_date today) histories))
          ps)
