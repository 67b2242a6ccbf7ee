-- ===== src/Round/Matches.antt =====
-- The rows of the matches and the text of the result (set-round-result.service.ts).
use boteco12_api.Prelude.{
  ℕ, ◌≡◌, refl, sym, ap, ◌∙◌, Option, some, none, List, [], ◌∷◌, map, length, ◌==◌, Bool-cases, inl,
  inr, if◌then◌else◌, arith,
}
use boteco12_api.Prelude.Text.{Text, text_eq, text_eq-eq}
use boteco12_api.Errors.{ok}
use boteco12_api.Score.RoundScore.{is_scored}
use boteco12_api.Score.{cancelled_text}
use boteco12_api.Db.{Db, Round}
use boteco12_api.Round.{
  RoundMatch, Season, matches_of, value_at, write_value, write_results, with_row, result_found,
  set_normalized, normalize_round_result, set_round_result,
}

-- The token that a row stands for: C if the match is cancelled, and its result otherwise.
abbrev pub outcome : RoundMatch → Option Text
outcome m = if m.cancelled then some cancelled_text else m.result

abbrev or_result : Option Text → RoundMatch → Option Text
or_result none m = m.result
or_result (some v) m = some v

-- What a row should stand for once a round has these tokens.
abbrev pub expected : ℕ → List Text → RoundMatch → Option Text
expected r ts m = if m.round == r then or_result (value_at m.position ts) m else outcome m

write_value-outcome : (o : Option Text) (m : RoundMatch) → outcome (write_value o m) ≡ or_result o m
write_value-outcome none m = refl
write_value-outcome (some v) m = elim (Bool-cases (text_eq v cancelled_text)) [
  | inl e ↦ rw e (ap some (sym (text_eq-eq v cancelled_text e)))
  | inr e ↦ rw e refl
]

write_results-outcome :
    (r : ℕ) (ts : List Text) (ms : List RoundMatch)
    → map outcome (write_results r ts ms) ≡ map (expected r ts) ms
unfolding write_results
write_results-outcome r ts [] = refl
write_results-outcome r ts (m ∷ ms) = elim (Bool-cases (m.round == r)) [
  | inl e ↦
      rw e (cc (write_value-outcome (value_at m.position ts) m, write_results-outcome r ts ms))
  | inr e ↦ rw e (cc (write_results-outcome r ts ms))
]

-- A round without matches leaves every row as it is.
no_matches-outcome :
    (r : ℕ) (ts : List Text) (ms : List RoundMatch)
    → length (matches_of r ms) ≡ 0
    → map outcome ms ≡ map (expected r ts) ms
no_matches-outcome r ts [] h = refl
no_matches-outcome r ts (m ∷ ms) h = elim (Bool-cases (m.round == r)) [
  | inl e ↦ absurd (ground arith)
  | inr e ↦ rw e (ap (λ l. outcome m ∷ l) (no_matches-outcome r ts ms (ground arith)))
]

with_row-outcome :
    (r : ℕ) (ts : List Text) (s t : Season) (db : Db) (o : Option Round)
    → with_row r ts s db o ≡ ok (tt, t)
    → map outcome t.matches ≡ map (expected r ts) s.matches
with_row-outcome r ts s t db none e = cc
with_row-outcome r ts s t db (some y) e = elim (Bool-cases (length (matches_of r s.matches) == 0)) [
  | inl z ↦
      let same : t.matches ≡ s.matches = ground arith in
      rw same (no_matches-outcome r ts s.matches (ground arith))
  | inr z ↦
      let same : t.matches ≡ write_results r ts s.matches = ground arith in
      rw same (write_results-outcome r ts s.matches)
]

result_found-outcome :
    (others : Db → Db) (r : ℕ) (ts : List Text) (o : Option Round) (s t : Season)
    → result_found others r ts o s ≡ ok (tt, t)
    → map outcome t.matches ≡ map (expected r ts) s.matches
result_found-outcome others r ts none s t e = cc
result_found-outcome others r ts (some x) s t e = elim (Bool-cases (is_scored x.status)) [
  | inl a ↦ absurd (ground arith)
  | inr a ↦ with_row-outcome r ts s t (others s.db) ((others s.db).rounds r) (rw a at e)
]

-- After a result has been set, with the tokens that it was normalized to, every match of the round
-- stands for the token at its position, cancelled for C, and every match of another round for what
-- it stood for before; a match of the round at a position without a token keeps its result.
pub matches_show_result :
    (others : Db → Db) (r : ℕ) (result : Text) (ts : List Text) (s t : Season)
    → normalize_round_result result ≡ ok ts
    → set_round_result others r result s ≡ ok (tt, t)
    → map outcome t.matches ≡ map (expected r ts) s.matches
unfolding set_round_result
matches_show_result others r result ts s t n e =
    result_found-outcome others r ts (s.db.rounds r) s t
      (ap (λ k. set_normalized others r k s) (sym n) ∙ e)
