-- ===== src/Score/Defined.antt =====
-- For which inputs there is a score (calculate-ticket-score.service.ts), and for which `detail`
-- throws.
use boteco12_api.Prelude.{
  ℕ, ◌≡◌, ◌↔◌, refl, sym, ◌∙◌, true, List, [], ◌∷◌, map, length, all, arith, Bool-cases, inl, inr,
  length-map,
}
use boteco12_api.Prelude.Text.{Text, split, comma}
use boteco12_api.Errors.{ok}
use boteco12_api.Prediction.{clean}
use boteco12_api.Score.{
  Tally, zero_tally, Breakdown, is_multiplier, count_match, count_matches, detail_tokens, detail,
}
use boteco12_api.Score.Points.{tally_total, detail_tokens-ok, detail-eq-detail_tokens}

count_matches_defined :
    (ps rs : List Text) (ms : List ℕ) (t : Tally)
    → length ps ≡ length ms
    → length rs ≡ length ms
    → all is_multiplier ms ≡ true
    → (t' : Tally) × (count_matches ps rs ms t ≡ ok t')
unfolding count_matches
count_matches_defined (p ∷ ps) (r ∷ rs) (m ∷ ms) t l k v =
    let v' : is_multiplier m ≡ true = ground arith in
    rw v' (
      count_matches_defined ps rs ms (count_match p r m t) (omega arith) (omega arith)
        (ground arith))
count_matches_defined [] [] [] t l k v = (t, refl)
count_matches_defined ps rs ms t l k v = absurd (omega arith)

count_matches-multipliers :
    (ps rs : List Text) (ms : List ℕ) (t : Tally) {t' : Tally}
    → length ps ≡ length ms
    → length rs ≡ length ms
    → count_matches ps rs ms t ≡ ok t'
    → all is_multiplier ms ≡ true
unfolding count_matches
count_matches-multipliers (p ∷ ps) (r ∷ rs) (m ∷ ms) t l k e = elim (Bool-cases (is_multiplier m)) [
  | inl v ↦ rw v (
      count_matches-multipliers ps rs ms (count_match p r m t) (omega arith) (omega arith)
        (rw v at e))
  | inr v ↦ cc (v, e)
]
count_matches-multipliers [] [] [] t l k e = refl
count_matches-multipliers ps rs ms t l k e = absurd (omega arith)

detail_tokens_run :
    (ps rs : List Text) (ms : List ℕ) (t : Tally)
    → length ps ≡ 12
    → length rs ≡ 12
    → length ms ≡ 12
    → count_matches ps rs ms zero_tally ≡ ok t
    → detail_tokens ps rs ms ≡ ok (record { tally = t; total = tally_total t })
unfolding detail_tokens
detail_tokens_run ps rs ms t l k j run = ground arith

-- A ticket has a score exactly when its prediction, the result and the multipliers have twelve
-- positions each and every multiplier is 1, 2 or 4.
pub detail_defined_iff :
    (prediction result : Text) (multipliers : List ℕ)
    → ((b : Breakdown) × (detail prediction result multipliers ≡ ok b)) ↔ (
        (length (split comma prediction) ≡ 12)
        × (length (split comma result) ≡ 12)
        × (length multipliers ≡ 12)
        × (all is_multiplier multipliers ≡ true))
detail_defined_iff prediction result multipliers = (to, from)
  where
    to :
        (b : Breakdown) × (detail prediction result multipliers ≡ ok b)
        → (length (split comma prediction) ≡ 12)
          × (length (split comma result) ≡ 12)
          × (length multipliers ≡ 12)
          × (all is_multiplier multipliers ≡ true)
    to (b, e) =
        let (run, _, l, k, j) =
          detail_tokens-ok _ _ multipliers
            (rw (detail-eq-detail_tokens prediction result multipliers) at e) in
        (
          sym (length-map (split comma prediction) clean) ∙ l,
          sym (length-map (split comma result) clean) ∙ k,
          j,
          count_matches-multipliers _ _ multipliers zero_tally (l ∙ sym j) (k ∙ sym j) run,
        )

    from :
        (length (split comma prediction) ≡ 12)
          × (length (split comma result) ≡ 12)
          × (length multipliers ≡ 12)
          × (all is_multiplier multipliers ≡ true)
        → (b : Breakdown) × (detail prediction result multipliers ≡ ok b)
    from (l, k, j, v) =
        let l' : length (map clean (split comma prediction)) ≡ 12 = length-map _ clean ∙ l in
        let k' : length (map clean (split comma result)) ≡ 12 = length-map _ clean ∙ k in
        let (t, run) =
          count_matches_defined (map clean (split comma prediction))
            (map clean (split comma result)) multipliers zero_tally (l' ∙ sym j) (k' ∙ sym j) v in
        (
          record { tally = t; total = tally_total t },
          detail-eq-detail_tokens prediction result multipliers
              ∙ detail_tokens_run _ _ multipliers t l' k' j run,
        )
