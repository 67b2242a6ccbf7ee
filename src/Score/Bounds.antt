-- ===== src/Score/Bounds.antt =====
-- The counters and the range of a ticket's score (calculate-ticket-score.service.ts), and for which
-- inputs there is a score.
use boteco12_api.Prelude.{
  ℕ, suc, ◌+◌, ◌*◌, ◌≤◌, ◌≡◌, true, List, [], ◌∷◌, map, length, arith, if◌then◌else◌, Bool-cases,
  inl, inr,
}
use boteco12_api.Prelude.Int.{pos, sub_ℕ, ◌≤ℤ◌}
use boteco12_api.Prelude.Text.{Text, text_eq, split, comma}
use boteco12_api.Errors.{ok}
use boteco12_api.Prediction.{clean}
use boteco12_api.Score.{
  Tally, zero_tally, Breakdown, is_multiplier, cancelled_text, count_match, count_matches,
  detail_tokens, detail,
}
use boteco12_api.Score.Points.{tally_total, detail_tokens-ok, detail-eq-detail_tokens}

-- How many of the matches were cancelled.
abbrev pub cancelled_count : List Text → ℕ
cancelled_count [] = 0
cancelled_count (r ∷ rs) =
    if text_eq r cancelled_text then suc (cancelled_count rs) else cancelled_count rs

-- How the counters hang together after `n` matches of which `c` were cancelled.
pub record IsCounted (n c : ℕ) (t : Tally) : Type 0 where
  pub matches : t.hits + t.misses + c ≡ n
  pub base : t.base_points ≡ t.hits
  pub bonus : t.multiplier_bonus ≡ t.double_hits + 3 * t.super_double_hits
  pub penalty : t.multiplier_penalty ≡ 2 * t.double_misses + 4 * t.super_double_misses
  pub multiplied_hits : t.double_hits + t.super_double_hits ≤ t.hits
  pub multiplied_misses : t.double_misses + t.super_double_misses ≤ t.misses

count_match-IsCounted :
    (p r : Text) (m n c : ℕ) (t : Tally)
    → is_multiplier m ≡ true
    → IsCounted n c t
    → IsCounted (suc n) (if text_eq r cancelled_text then suc c else c) (count_match p r m t)
unfolding count_match
count_match-IsCounted p r m n c t valid h = ground arith

IsCounted-cast :
    {n c : ℕ} (n' c' : ℕ) {t : Tally} → n ≡ n' → c ≡ c' → IsCounted n c t → IsCounted n' c' t
IsCounted-cast n' c' p q h = omega arith

count_matches-IsCounted :
    (ps rs : List Text) (ms : List ℕ) (n c : ℕ) (t : Tally) {t' : Tally}
    → length ps ≡ length rs
    → length rs ≡ length ms
    → IsCounted n c t
    → count_matches ps rs ms t ≡ ok t'
    → IsCounted (length rs + n) (cancelled_count rs + c) t'
unfolding count_matches
count_matches-IsCounted (p ∷ ps) (r ∷ rs) (m ∷ ms) n c t l k h e =
    elim (Bool-cases (is_multiplier m)) [
      | inl v ↦ IsCounted-cast _ _ (omega arith) (ground arith) (
          count_matches-IsCounted ps rs ms (suc n) (if text_eq r cancelled_text then suc c else c)
            (count_match p r m t) (omega arith) (omega arith)
            (count_match-IsCounted p r m n c t v h) (rw v at e))
      | inr v ↦ cc (v, e)
    ]
count_matches-IsCounted [] [] [] n c t l k h e = ground arith
count_matches-IsCounted ps rs ms n c t l k h e = absurd (omega arith)

zero_tally-IsCounted : IsCounted 0 0 zero_tally
zero_tally-IsCounted = omega arith

detail_tokens-IsCounted :
    (ps rs : List Text) (ms : List ℕ) {b : Breakdown}
    → detail_tokens ps rs ms ≡ ok b
    → IsCounted 12 (cancelled_count rs) b.tally × (b.total ≡ tally_total b.tally)
detail_tokens-IsCounted ps rs ms {b} e =
    let (run, total, l, k, j) = detail_tokens-ok ps rs ms e in
    (
      IsCounted-cast 12 (cancelled_count rs) (omega arith) (omega arith) (
          count_matches-IsCounted ps rs ms 0 0 zero_tally (omega arith) (omega arith)
            zero_tally-IsCounted run),
      total,
    )

IsCounted-total :
    (c : ℕ) (t : Tally)
    → IsCounted 12 c t
    → (sub_ℕ 0 48 ≤ℤ tally_total t) × (tally_total t ≤ℤ pos 48)
IsCounted-total c t h = ground arith

-- The counters of a score fit together: hits, misses and cancelled matches are the twelve; every hit
-- is one base point; bonus and penalty are those of the doubles and super doubles, of which there are
-- no more than hits and misses; and the total lies between -48 and 48.
pub detail-IsCounted :
    (prediction result : Text) (multipliers : List ℕ) {b : Breakdown}
    → detail prediction result multipliers ≡ ok b
    → IsCounted 12 (cancelled_count (map clean (split comma result))) b.tally
      × (sub_ℕ 0 48 ≤ℤ b.total)
      × (b.total ≤ℤ pos 48)
detail-IsCounted prediction result multipliers {b} e =
    let (counted, total) =
      detail_tokens-IsCounted _ _ multipliers
        (rw (detail-eq-detail_tokens prediction result multipliers) at e) in
    let (low, high) = IsCounted-total _ b.tally counted in (counted, rw total low, rw total high)
