-- ===== src/Ranking/Tiebreak.antt =====
-- src/services/ranking/ranking-tiebreak.service.ts: the official order of a ranking and its
-- positions. User ids are numbers in the order of `localeCompare`; a date is its milliseconds.
pub mod Order
pub mod Sorting
pub mod Positions
mod Tests
use boteco12_api.Prelude.{
  ℕ, suc, ◌+◌, Bool, true, false, ◌&&◌, not, Option, none, some, List, [], ◌∷◌, ◌==◌, ltb,
  if◌then◌else◌,
}
use boteco12_api.Prelude.Int.{ℤ, pos, sub_ℕ, ◌-ℤ◌, leb_ℤ, ltb_ℤ, eqb_ℤ}

-- `RankingTiebreakMetrics`
pub record Metrics : Type 0 where
  pub user_id : ℕ
  pub score_ranking : ℤ
  pub super_double_hits : ℤ
  pub double_hits : ℤ
  pub user_created_at : ℕ

-- `compare`: below 0 where `a` comes first.
unfoldable pub compare_metrics : Metrics → Metrics → ℤ
compare_metrics a b =
    if not (eqb_ℤ b.score_ranking a.score_ranking)
    then b.score_ranking -ℤ a.score_ranking
    else if not (eqb_ℤ b.super_double_hits a.super_double_hits)
    then b.super_double_hits -ℤ a.super_double_hits
    else if not (eqb_ℤ b.double_hits a.double_hits)
    then b.double_hits -ℤ a.double_hits
    else if not (a.user_created_at == b.user_created_at)
    then sub_ℕ a.user_created_at b.user_created_at
    else sub_ℕ a.user_id b.user_id

-- `sameOfficialPosition`
unfoldable pub same_official_position : Metrics → Metrics → Bool
same_official_position a b =
    eqb_ℤ a.score_ranking b.score_ranking
    && (eqb_ℤ a.super_double_hits b.super_double_hits
        && (eqb_ℤ a.double_hits b.double_hits && a.user_created_at == b.user_created_at))

module _ {A : Type 0} (metrics_for : A → Metrics) where
  -- `Array.prototype.sort`, which is stable, by `compare`
  unfoldable pub insert_row : A → List A → List A
  insert_row x [] = x ∷ []
  insert_row x (y ∷ ys) =
      if leb_ℤ (compare_metrics (metrics_for x) (metrics_for y)) (pos 0)
      then x ∷ y ∷ ys
      else y ∷ insert_row x ys

  unfoldable pub sort_rows : List A → List A
  sort_rows [] = []
  sort_rows (x ∷ xs) = insert_row x (sort_rows xs)

  -- The position of a row, from the row before it, its index and the position so far.
  abbrev pub next_position : Option A → A → ℕ → ℕ → ℕ
  next_position none row index position = position
  next_position (some previous) row index position =
      if not (same_official_position (metrics_for row) (metrics_for previous))
      then index + 1
      else position

  -- The callback of `sorted.map`, from the row before, the index and the position so far.
  unfoldable pub number_rows : Option A → ℕ → ℕ → List A → List (A × ℕ)
  number_rows previous index position [] = []
  number_rows previous index position (row ∷ rest) =
      let position' = next_position previous row index position in
      (row, position') ∷ number_rows (some row) (index + 1) position' rest

  -- `rank`: the rows in their order, each with its position.
  unfoldable pub rank : List A → List (A × ℕ)
  rank rows = number_rows none 0 1 (sort_rows rows)

-- `totalSuperDoubles` and `totalDoubles` of a history
pub record AccumulatedHits : Type 0 where
  pub total_super_doubles : ℤ
  pub total_doubles : ℤ

abbrev supers_or_zero : Option AccumulatedHits → ℤ
supers_or_zero none = pos 0
supers_or_zero (some h) = h.total_super_doubles

abbrev doubles_or_zero : Option AccumulatedHits → ℤ
doubles_or_zero none = pos 0
doubles_or_zero (some h) = h.total_doubles

-- `calculateWindowHits`: super doubles and doubles
unfoldable pub calculate_window_hits : Option AccumulatedHits → Option AccumulatedHits → ℤ × ℤ
calculate_window_hits current baseline = (
  supers_or_zero current -ℤ supers_or_zero baseline,
  doubles_or_zero current -ℤ doubles_or_zero baseline,
)
