-- ===== src/Ranking/Window/Tests.antt =====
-- A ranking over two rounds, that has ended.
use boteco12_api.Prelude.{ℕ, ◌≡◌, refl, true, none, some, List, [], ◌∷◌, map}
use boteco12_api.Prelude.Int.{ℤ, pos, ◌-ℤ◌}
use boteco12_api.Ranking.Tiebreak.{
  rank, calculate_window_hits, sort_rows, insert_row, number_rows, compare_metrics,
  same_official_position,
}
use boteco12_api.Ranking.Window.{RankingWindow, Entrant, History, RankingWindowRow, build_rows}
use boteco12_api.Ranking.Window.Live.{with_totals, fixed_rows_ignore_live_totals}

abbrev january : RankingWindow
january = record {
  start_date = some 100;
  end_date = some 200;
  reference_round_id = none;
  reference_round = none;
  initialization_status = none;
  score_initial_captured_at = none;
}

abbrev entrant : ℕ → Entrant
entrant u = record {
  id = u;
  user_id = u;
  score = pos 0;
  score_initial = pos 10;
  score_initial_captured_at = none;
  position = none;
  approved_at = some 50;
  score_total = pos 99;
  user_created_at = u;
}

abbrev history : ℕ → ℕ → ℕ → ℕ → History
history u number close total = record {
  user_id = u;
  score_total = pos total;
  score_round = pos 3;
  total_doubles = pos 0;
  total_super_doubles = pos 0;
  created_at = close;
  close_at = some close;
  number = number;
  round_scored = true;
}

abbrev histories : List History
histories =
    history 1 1 90 20
    ∷ history 2 1 90 12
    ∷ history 1 2 150 26
    ∷ history 2 2 150 31
    ∷ history 1 3 250 70
    ∷ []

abbrev score_and_place : RankingWindowRow × ℕ → ℕ × ℤ × ℕ
score_and_place (row, place) = (row.user_id, row.score, place)

-- User 2 won 19 points in the window, user 1 won 6.
places :
    map score_and_place (build_rows 300 january 300 (entrant 1 ∷ entrant 2 ∷ []) histories)
    ≡ (2, pos 19, 1) ∷ (1, pos 6, 2) ∷ []
unfolding build_rows rank calculate_window_hits sort_rows insert_row number_rows compare_metrics
    same_official_position ◌-ℤ◌
places = refl

fixed_rows_ignore_live_totals_example :
    build_rows 300 january 300 (with_totals (λ u. pos 7) (entrant 1 ∷ entrant 2 ∷ [])) histories
    ≡ build_rows 300 january 300 (entrant 1 ∷ entrant 2 ∷ []) histories
fixed_rows_ignore_live_totals_example =
    fixed_rows_ignore_live_totals 300 january 300 (entrant 1 ∷ entrant 2 ∷ []) histories
      (λ u. pos 7) refl
