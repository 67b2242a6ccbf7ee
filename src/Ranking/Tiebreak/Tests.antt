-- ===== src/Ranking/Tiebreak/Tests.antt =====
-- A ranking of four rows: two share the first position, so that the next has the third.
use mathlib.Core.List.{Perm}
use boteco12_api.Prelude.{ℕ, ◌≡◌, refl, List, [], ◌∷◌, map, some, none}
use boteco12_api.Prelude.Int.{ℤ, pos, negsuc, ◌-ℤ◌}
use boteco12_api.Ranking.Tiebreak.{
  Metrics, compare_metrics, same_official_position, insert_row, sort_rows, number_rows, rank,
  calculate_window_hits,
}
use boteco12_api.Ranking.Tiebreak.Sorting.{IsSorted}
use boteco12_api.Ranking.Tiebreak.Positions.{HavePositions, rank_positions}

abbrev row : ℕ → ℤ → Metrics
row u score = record {
  user_id = u;
  score_ranking = score;
  super_double_hits = pos 1;
  double_hits = pos 2;
  user_created_at = 50;
}

abbrev rows : List Metrics
rows = row 3 (negsuc 4) ∷ row 2 (pos 10) ∷ row 4 (pos 0) ∷ row 1 (pos 10) ∷ []

ranked :
    rank (λ r. r) rows
    ≡ (row 1 (pos 10), 1) ∷ (row 2 (pos 10), 1) ∷ (row 4 (pos 0), 3) ∷ (row 3 (negsuc 4), 4) ∷ []
unfolding rank sort_rows insert_row number_rows compare_metrics same_official_position ◌-ℤ◌
ranked = refl

window_hits :
    calculate_window_hits
      (some (record { total_super_doubles = pos 5; total_doubles = pos 1 }))
      none
    ≡ (pos 5, pos 1)
unfolding calculate_window_hits ◌-ℤ◌
window_hits = refl

rank_positions_example :
    Perm (map (λ e. e.0) (rank (λ (r : Metrics). r) rows)) rows
    × IsSorted (λ (r : Metrics). r) (map (λ e. e.0) (rank (λ (r : Metrics). r) rows))
    × HavePositions (λ (r : Metrics). r) rows (rank (λ (r : Metrics). r) rows)
rank_positions_example = rank_positions (λ r. r) rows
