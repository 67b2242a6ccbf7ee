-- ===== src/Score/Points.antt =====
-- The total of a ticket (calculate-ticket-score.service.ts) against the rules of the game: each
-- match that was played is worth its multiplier if it was hit, and costs it if it was missed, but a
-- miss without a multiplier costs nothing.
use boteco12_api.Prelude.{
  ℕ, ◌+◌, ◌≡◌, ◌∙◌, true, List, ◌∷◌, map, length, ◌==◌, arith, if◌then◌else◌, Bool-cases, inl, inr,
}
use boteco12_api.Prelude.Int.{ℤ, pos, sub_ℕ, ◌+ℤ◌, int_laws, +ℤ_zero, +ℤ_assoc}
use boteco12_api.Prelude.Text.{Text, text_eq, split, comma}
use boteco12_api.Errors.{ok}
use boteco12_api.Prediction.{clean}
use boteco12_api.Prediction.Laws.{split-normalize_ticket_prediction}
use boteco12_api.Score.{
  Tally, zero_tally, Breakdown, is_multiplier, cancelled_text, count_match, count_matches,
  detail_tokens, detail,
}

-- What one match is worth.
abbrev match_points : Text → Text → ℕ → ℤ
match_points pred res m =
    if text_eq res cancelled_text
    then pos 0
    else if text_eq pred res
    then pos m
    else if m == 1
    then pos 0
    else sub_ℕ 0 m

abbrev pub points : List Text → List Text → List ℕ → ℤ
points (p ∷ ps) (r ∷ rs) (m ∷ ms) = match_points p r m +ℤ points ps rs ms
points _ _ _ = pos 0

abbrev pub tally_total : Tally → ℤ
tally_total t = sub_ℕ (t.base_points + t.multiplier_bonus) t.multiplier_penalty

count_match-total :
    (p r : Text) (m : ℕ) (t : Tally)
    → is_multiplier m ≡ true
    → tally_total (count_match p r m t) ≡ tally_total t +ℤ match_points p r m
unfolding count_match ◌+ℤ◌
count_match-total p r m t h = ground arith

count_matches-total :
    (ps rs : List Text) (ms : List ℕ) (t : Tally) {t' : Tally}
    → count_matches ps rs ms t ≡ ok t'
    → tally_total t' ≡ tally_total t +ℤ points ps rs ms
unfolding count_matches
count_matches-total (p ∷ ps) (r ∷ rs) (m ∷ ms) t e = elim (Bool-cases (is_multiplier m)) [
  | inl h ↦
      rw
        (
          count_matches-total ps rs ms (count_match p r m t) (rw h at e),
          count_match-total p r m t h,
        )
        (+ℤ_assoc (tally_total t) (match_points p r m) (points ps rs ms))
  | inr h ↦ cc (h, e)
]
count_matches-total ps rs ms t e = ground (arith, +ℤ_zero (tally_total t))

-- What a successful run of `detail_tokens` has computed.
pub detail_tokens-ok :
    (ps rs : List Text) (ms : List ℕ) {b : Breakdown}
    → detail_tokens ps rs ms ≡ ok b
    → (count_matches ps rs ms zero_tally ≡ ok b.tally)
      × (b.total ≡ tally_total b.tally)
      × (length ps ≡ 12)
      × (length rs ≡ 12)
      × (length ms ≡ 12)
unfolding detail_tokens
detail_tokens-ok ps rs ms e = ground arith

detail_tokens-total :
    (ps rs : List Text) (ms : List ℕ) {b : Breakdown}
    → detail_tokens ps rs ms ≡ ok b
    → b.total ≡ points ps rs ms
detail_tokens-total ps rs ms {b} e =
    let (run, total, _, _, _) = detail_tokens-ok ps rs ms e in
    total ∙ count_matches-total ps rs ms zero_tally run ∙ omega int_laws

-- The tokens that the loop of `detail` sees.
pub detail-eq-detail_tokens :
    (prediction result : Text) (multipliers : List ℕ)
    → detail prediction result multipliers
      ≡ detail_tokens
          (map clean (split comma prediction))
          (map clean (split comma result))
          multipliers
unfolding detail
detail-eq-detail_tokens prediction result multipliers =
    rw (split-normalize_ticket_prediction prediction)

-- The total of a ticket is the sum of what its matches are worth: a hit is worth its multiplier, a
-- miss costs its multiplier unless that is 1, and a cancelled match is worth nothing.
pub detail-total :
    (prediction result : Text) (multipliers : List ℕ) {b : Breakdown}
    → detail prediction result multipliers ≡ ok b
    → b.total
      ≡ points (map clean (split comma prediction)) (map clean (split comma result)) multipliers
detail-total prediction result multipliers e =
    detail_tokens-total _ _ multipliers
      (rw (detail-eq-detail_tokens prediction result multipliers) at e)
