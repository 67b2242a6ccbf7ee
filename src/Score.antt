-- ===== src/Score.antt =====
-- src/services/score/calculate-ticket-score.service.ts: the points of a ticket.
-- A multiplier is a number; what is none of 1, 2 and 4 is refused.
pub mod Points
pub mod Bounds
pub mod Defined
pub mod RoundScore
mod Tests
use boteco12_api.Prelude.{ℕ, ◌+◌, Bool, ◌||◌, List, [], ◌∷◌, map, length, ◌==◌, not, if◌then◌else◌}
use boteco12_api.Prelude.Int.{ℤ, sub_ℕ}
use boteco12_api.Prelude.Text.{Text, text_eq, split, comma}
use boteco12_api.Errors.{
  Result, ok, err, failure, prediction_size, result_size, multipliers_size,
  invalid_multiplier_value,
}
use boteco12_api.Prediction.{clean, normalize_ticket_prediction}

-- The counters of the loop of `detail`.
pub record Tally : Type 0 where
  pub hits : ℕ
  pub misses : ℕ
  pub double_hits : ℕ
  pub double_misses : ℕ
  pub super_double_hits : ℕ
  pub super_double_misses : ℕ
  pub base_points : ℕ
  pub multiplier_bonus : ℕ
  pub multiplier_penalty : ℕ

abbrev pub zero_tally : Tally
zero_tally = record {
  hits = 0;
  misses = 0;
  double_hits = 0;
  double_misses = 0;
  super_double_hits = 0;
  super_double_misses = 0;
  base_points = 0;
  multiplier_bonus = 0;
  multiplier_penalty = 0;
}

-- `TicketScoreBreakdown`
pub record Breakdown : Type 0 where
  pub tally : Tally
  pub total : ℤ

abbrev match_count : ℕ
match_count = 12

-- `[1,2,4].includes(multiplier)`
abbrev pub is_multiplier : ℕ → Bool
is_multiplier m = m == 1 || m == 2 || m == 4

abbrev pub cancelled_text : Text
cancelled_text = b'C' ∷ []

-- The branch of a hit, multiplier by multiplier.
abbrev count_hit : ℕ → Tally → Tally
count_hit m t =
    let t = record t { hits = t.hits + 1; base_points = t.base_points + 1 } in
    let t =
      if m == 2
      then record t { double_hits = t.double_hits + 1; multiplier_bonus = t.multiplier_bonus + 1 }
      else t in
    if m == 4
    then record t {
      super_double_hits = t.super_double_hits + 1;
      multiplier_bonus = t.multiplier_bonus + 3;
    }
    else t

abbrev count_miss : ℕ → Tally → Tally
count_miss m t =
    let t = record t { misses = t.misses + 1 } in
    let t =
      if m == 2
      then record t {
        double_misses = t.double_misses + 1;
        multiplier_penalty = t.multiplier_penalty + 2;
      }
      else t in
    if m == 4
    then record t {
      super_double_misses = t.super_double_misses + 1;
      multiplier_penalty = t.multiplier_penalty + 4;
    }
    else t

-- The body of the loop, after the check of the multiplier.
unfoldable pub count_match : Text → Text → ℕ → Tally → Tally
count_match pred res m t =
    if text_eq res cancelled_text
    then t
    else if text_eq pred res
    then count_hit m t
    else count_miss m t

-- The loop, over the three arrays at once; it ends with the shortest.
unfoldable pub count_matches : List Text → List Text → List ℕ → Tally → Result Tally
count_matches (p ∷ ps) (r ∷ rs) (m ∷ ms) t =
    if is_multiplier m
    then count_matches ps rs ms (count_match p r m t)
    else err (failure invalid_multiplier_value)
count_matches _ _ _ t = ok t

abbrev with_total : Result Tally → Result Breakdown
with_total (err e) = err e
with_total (ok t) =
    ok (record {
      tally = t;
      total = sub_ℕ (t.base_points + t.multiplier_bonus) t.multiplier_penalty;
    })

-- `detail`, on the arrays
unfoldable pub detail_tokens : List Text → List Text → List ℕ → Result Breakdown
detail_tokens predictions results multipliers =
    if not (length predictions == match_count)
    then err (failure prediction_size)
    else if not (length results == match_count)
    then err (failure result_size)
    else if not (length multipliers == match_count)
    then err (failure multipliers_size)
    else with_total (count_matches predictions results multipliers zero_tally)

-- `detail`
unfoldable pub detail : Text → Text → List ℕ → Result Breakdown
detail prediction result multipliers =
    detail_tokens (split comma (normalize_ticket_prediction prediction))
      (map clean (split comma result)) multipliers

abbrev total_of : Result Breakdown → Result ℤ
total_of (ok b) = ok b.total
total_of (err e) = err e

-- `execute`
unfoldable pub calculate_ticket_score : Text → Text → List ℕ → Result ℤ
unfolding detail
calculate_ticket_score prediction result multipliers =
    total_of (detail prediction result multipliers)
