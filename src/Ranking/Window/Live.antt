-- ===== src/Ranking/Window/Live.antt =====
-- Which rankings read the live totals of the users (ranking-window-score.service.ts).
use boteco12_api.Prelude.{
  ℕ, ◌≡◌, refl, ap, Bool, true, ◌||◌, Option, List, [], ◌∷◌, map, Bool-cases, inl, inr,
}
use boteco12_api.Prelude.Int.{ℤ}
use boteco12_api.Ranking.Window.{
  RankingWindow, Entrant, History, RankingWindowRow, reference_lifecycle, any_uncaptured,
  waiting_row, row_of, history_rows, ranking_not_started, ranking_ended, end_or_now, build_rows,
  latest_history, score_initial_of, baseline_history, score_total_of,
}

-- The entrants with other live totals
abbrev pub with_totals : (ℕ → ℤ) → List Entrant → List Entrant
with_totals f [] = []
with_totals f (p ∷ ps) = record p { score_total = f p.id } ∷ with_totals f ps

-- The scores of the ranking no longer depend on the live totals, or not yet.
abbrev pub is_fixed : RankingWindow → ℕ → Bool
is_fixed r now = reference_lifecycle r || (ranking_not_started r now || ranking_ended r now)

abbrev waiting : Entrant → RankingWindowRow × ℕ
waiting p = (waiting_row p, 0)

waiting-with_totals :
    (f : ℕ → ℤ) (ps : List Entrant) → map waiting (with_totals f ps) ≡ map waiting ps
waiting-with_totals f [] = refl
waiting-with_totals f (p ∷ ps) = ap (λ rows. waiting p ∷ rows) (waiting-with_totals f ps)

uncaptured-with_totals :
    (f : ℕ → ℤ) (ps : List Entrant) → any_uncaptured (with_totals f ps) ≡ any_uncaptured ps
uncaptured-with_totals f [] = refl
uncaptured-with_totals f (p ∷ ps) = rw (uncaptured-with_totals f ps) refl

total-fixed :
    (r : RankingWindow) (now : ℕ) (p : Entrant) (n : ℤ) (latest : Option History) (initial : ℤ)
    → is_fixed r now ≡ true
    → score_total_of r now (record p { score_total = n }) latest initial
      ≡ score_total_of r now p latest initial
total-fixed r now p n latest initial h = elim (Bool-cases (reference_lifecycle r)) [
  | inl a ↦ rw a refl
  | inr a ↦ elim (Bool-cases (ranking_not_started r now)) [
    | inl b ↦ rw (a, b) refl
    | inr b ↦ let ended : ranking_ended r now ≡ true = rw (a, b) at h in rw (a, b, ended) refl
  ]
]

row-fixed :
    (r : RankingWindow) (now : ℕ) (hs : List History) (p : Entrant) (n : ℤ)
    → is_fixed r now ≡ true
    → row_of r now hs (record p { score_total = n }) ≡ row_of r now hs p
row-fixed r now hs p n h =
    rw
      (total-fixed r now p n (latest_history r p hs)
        (score_initial_of r p (baseline_history r p hs)) h)
      refl

rows-fixed :
    (r : RankingWindow) (now : ℕ) (hs : List History) (f : ℕ → ℤ) (ps : List Entrant)
    → is_fixed r now ≡ true
    → map (row_of r now hs) (with_totals f ps) ≡ map (row_of r now hs) ps
rows-fixed r now hs f [] h = refl
rows-fixed r now hs f (p ∷ ps) h =
    rw (row-fixed r now hs p (f p.id) h, rows-fixed r now hs f ps h) refl

-- A Mesa with a reference round, a ranking that has not begun and one that has ended do not depend on
-- the users' live totals: whatever these become, the rows, scores and positions stay the same.
pub fixed_rows_ignore_live_totals :
    (today : ℕ) (r : RankingWindow) (now : ℕ) (ps : List Entrant) (histories : List History)
    (f : ℕ → ℤ)
    → is_fixed r now ≡ true
    → build_rows today r now (with_totals f ps) histories ≡ build_rows today r now ps histories
unfolding build_rows
fixed_rows_ignore_live_totals today r now ps histories f h =
    rw
      (
        uncaptured-with_totals f ps,
        waiting-with_totals f ps,
        rows-fixed r now
            (history_rows (reference_lifecycle r) (end_or_now r.end_date today) histories) f ps h,
      )
      refl
