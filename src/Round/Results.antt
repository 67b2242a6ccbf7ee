-- ===== src/Round/Results.antt =====
-- What a stored result (set-round-result.service.ts) is when it is read again.
use boteco12_api.Prelude.{
  ℕ, ◌≡◌, refl, sym, ap, subst, ◌∙◌, true, false, Option, some, none, List, map, length, all, arith,
  Bool-cases, inl, inr,
}
use boteco12_api.Prelude.Text.{Text, split, join, comma}
use boteco12_api.Prelude.Text.Laws.{split-Lacks, split-ne-nil}
use boteco12_api.Errors.{Result, ok, err}
use boteco12_api.Prediction.{clean}
use boteco12_api.Prediction.Laws.{split-join-clean, map-clean_idem}
use boteco12_api.Db.{Db, Round}
use boteco12_api.Round.{
  Season, is_match_result, check_result, normalize_round_result, with_row, result_found,
  set_normalized, set_round_result,
}
use boteco12_api.Score.RoundScore.{is_scored}

check_result-ok :
    (ts : List Text) {us : List Text}
    → check_result ts ≡ ok us
    → (us ≡ ts) × (length ts ≡ 12) × (all is_match_result ts ≡ true)
check_result-ok ts e = ground arith

check_result_run :
    (ts : List Text) → length ts ≡ 12 → all is_match_result ts ≡ true → check_result ts ≡ ok ts
check_result_run ts size valid = ground arith

-- A result that is accepted has twelve tokens, each 1, X, 2 or C, and written with commas between
-- them it is read again as the same tokens.
pub normalize_round_result_round_trip :
    (result : Text) (ts : List Text)
    → normalize_round_result result ≡ ok ts
    → (length ts ≡ 12)
      × (all is_match_result ts ≡ true)
      × (split comma (join comma ts) ≡ ts)
      × (normalize_round_result (join comma ts) ≡ ok ts)
unfolding normalize_round_result
normalize_round_result_round_trip result ts e =
    let (same, size, valid) = check_result-ok (map clean (split comma result)) e in
    let back =
      split-join-clean (split comma result) (split-ne-nil comma result)
        (split-Lacks comma result) in
    subst
      (λ us.
        (length us ≡ 12)
        × (all is_match_result us ≡ true)
        × (split comma (join comma us) ≡ us)
        × (normalize_round_result (join comma us) ≡ ok us))
      (sym same)
      (
        size,
        valid,
        back,
        ap check_result (ap (map clean) back ∙ map-clean_idem (split comma result))
            ∙ check_result_run _ size valid,
      )

with_row-ok :
    (r : ℕ) (ts : List Text) (s t : Season) (db : Db) (o : Option Round)
    → with_row r ts s db o ≡ ok (tt, t)
    → (y : Round) × (o ≡ some y)
      × (t.db.rounds r ≡ some (record y { result = some (join comma ts) }))
with_row-ok r ts s t db none e = cc
with_row-ok r ts s t db (some y) e = (y, refl, ground arith)

module _ (others : Db → Db) (r : ℕ) (s t : Season) where
  -- What a result that was set has found and left.
  abbrev pub LeavesRow : List Text → Type 0
  LeavesRow ts =
      (x y : Round) × (s.db.rounds r ≡ some x)
      × (is_scored x.status ≡ false)
      × ((others s.db).rounds r ≡ some y)
      × (t.db.rounds r ≡ some (record y { result = some (join comma ts) }))

  result_found-ok :
      (ts : List Text) (o : Option Round)
      → s.db.rounds r ≡ o
      → result_found others r ts o s ≡ ok (tt, t)
      → LeavesRow ts
  result_found-ok ts none q e = cc
  result_found-ok ts (some x) q e = elim (Bool-cases (is_scored x.status)) [
    | inl a ↦ absurd (ground arith)
    | inr a ↦
        let (y, row, stored) =
          with_row-ok r ts s t (others s.db) ((others s.db).rounds r) (rw a at e) in
        (x, y, q, a, row, stored)
  ]

  set_normalized-ok :
      (result : Text) (n : Result (List Text))
      → normalize_round_result result ≡ n
      → set_normalized others r n s ≡ ok (tt, t)
      → (ts : List Text) × LeavesRow ts
        × (split comma (join comma ts) ≡ ts)
        × (length ts ≡ 12)
        × (all is_match_result ts ≡ true)
  set_normalized-ok result (err x) n k = cc
  set_normalized-ok result (ok ts) n k =
      let (size, valid, back, _) = normalize_round_result_round_trip result ts n in
      (ts, result_found-ok ts (s.db.rounds r) refl k, back, size, valid)

-- After a result has been set, the round was not SCORED when it was read, and its row, as the
-- transactions in between left it, has the result, while the status and the dates are as they left
-- them. The result is twelve valid tokens, which the scoring reads back one for one.
pub stored_result_is_read_back :
    (others : Db → Db) (r : ℕ) (result : Text) (s t : Season)
    → set_round_result others r result s ≡ ok (tt, t)
    → (ts : List Text) × LeavesRow others r s t ts
      × (split comma (join comma ts) ≡ ts)
      × (length ts ≡ 12)
      × (all is_match_result ts ≡ true)
unfolding set_round_result
stored_result_is_read_back others r result s t e =
    set_normalized-ok others r s t result (normalize_round_result result) refl e
