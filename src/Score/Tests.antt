-- ===== src/Score/Tests.antt =====
-- Scores at concrete inputs.
use boteco12_api.Prelude.{ℕ, ◌≡◌, refl, true, List, [], ◌∷◌, map, length, all}
use boteco12_api.Prelude.Int.{pos, sub_ℕ, ◌≤ℤ◌}
use boteco12_api.Prelude.Text.{Text, split, join, comma, upper, is_space, trim}
use boteco12_api.Errors.{ok}
use boteco12_api.Prediction.{clean, normalize_ticket_prediction}
use boteco12_api.Score.{
  Breakdown, detail, detail_tokens, count_matches, count_match, is_multiplier,
  calculate_ticket_score,
}
use boteco12_api.Score.Points.{points, detail-total}
use boteco12_api.Score.Bounds.{IsCounted, cancelled_count, detail-IsCounted}
use boteco12_api.Score.Defined.{detail_defined_iff}

-- "1,X,2" four times.
abbrev guess : Text
guess =
    b'1' ∷ 44 ∷ b'X' ∷ 44 ∷ b'2' ∷ 44 ∷ b'1' ∷ 44 ∷ b'x' ∷ 44 ∷ b'2' ∷ 44 ∷ b'1' ∷ 44 ∷ b'X' ∷ 44
    ∷ b'2' ∷ 44 ∷ b'1' ∷ 44 ∷ b'X' ∷ 44 ∷ b'2' ∷ []

-- Six hits, one cancelled match and five misses.
abbrev outcome : Text
outcome =
    b'1' ∷ 44 ∷ b'X' ∷ 44 ∷ b'2' ∷ 44 ∷ b'1' ∷ 44 ∷ b'X' ∷ 44 ∷ b'2' ∷ 44 ∷ b'C' ∷ 44 ∷ b'1' ∷ 44
    ∷ b'1' ∷ 44 ∷ b'2' ∷ 44 ∷ b'1' ∷ 44 ∷ b'1' ∷ []

abbrev bets : List ℕ
bets = 2 ∷ 4 ∷ 1 ∷ 1 ∷ 1 ∷ 1 ∷ 4 ∷ 2 ∷ 4 ∷ 1 ∷ 1 ∷ 1 ∷ []

abbrev scored : Breakdown
scored = record {
  tally = record {
    hits = 6;
    misses = 5;
    double_hits = 1;
    double_misses = 1;
    super_double_hits = 1;
    super_double_misses = 1;
    base_points = 6;
    multiplier_bonus = 4;
    multiplier_penalty = 6;
  };
  total = pos 4;
}

detail_runs : detail guess outcome bets ≡ ok scored
unfolding detail detail_tokens count_matches count_match normalize_ticket_prediction clean split
    join upper is_space trim
detail_runs = refl

score_runs : calculate_ticket_score guess outcome bets ≡ ok (pos 4)
unfolding calculate_ticket_score detail detail_tokens count_matches count_match
    normalize_ticket_prediction clean split join upper is_space trim
score_runs = refl

detail-total_example :
    pos 4 ≡ points (map clean (split comma guess)) (map clean (split comma outcome)) bets
detail-total_example = detail-total guess outcome bets {b = scored} detail_runs

detail-IsCounted_example :
    IsCounted 12 (cancelled_count (map clean (split comma outcome))) scored.tally
    × (sub_ℕ 0 48 ≤ℤ pos 4)
    × (pos 4 ≤ℤ pos 48)
detail-IsCounted_example = detail-IsCounted guess outcome bets {b = scored} detail_runs

detail_defined_example :
    (length (split comma guess) ≡ 12)
    × (length (split comma outcome) ≡ 12)
    × (length bets ≡ 12)
    × (all is_multiplier bets ≡ true)
detail_defined_example = (detail_defined_iff guess outcome bets).0 (scored, detail_runs)
