-- ===== src/Mesa/Baseline/Again.antt =====
-- What a second capture of the initial scores does (mesa-initial-score.service.ts).
use boteco12_api.Prelude.{
  ◌⊎◌, ℕ, ◌≡◌, refl, sym, ◌∙◌, Bool, true, false, not, ◌||◌, Option, none, some, List, arith,
  Bool-cases, inl, inr,
}
use boteco12_api.Errors.{Result, ok, err}
use boteco12_api.Mesa.Entry.{is_active_ranking}
use boteco12_api.Mesa.Baseline.{
  Contender, MesaStart, ScoreTables, Reference, given, is_not_due, is_incomplete, mark_waiting,
  mark_ready, finish_capture, write_all, capture_each, approved_contenders, with_number,
  with_reference, reference_of, past_scores, capture,
}

or_true : (a b c : Bool) → (a || (b || (c || true))) ≡ true
or_true true b c = refl
or_true false true c = refl
or_true false false true = refl
or_true false false false = refl

or_drop :
    (a b c d e : Bool)
    → (a || (b || (c || (d || e)))) ≡ false
    → (a || (b || (c || (d || false)))) ≡ false
or_drop a b c d e h = ground arith

waiting_is_due : (s : MesaStart) → is_not_due s ≡ false → is_not_due (mark_waiting s) ≡ false
waiting_is_due s h =
    or_drop (not (is_active_ranking s.status)) (not (given s.reference_round_id))
      (not (given s.registration_closed_at)) (given s.captured_at) _ h

ready_is_not_due :
    (at : ℕ) (s : MesaStart) (cs : List Contender) → is_not_due (mark_ready at s cs) ≡ true
ready_is_not_due at s cs =
    or_true (not (is_active_ranking s.status)) (not (given s.reference_round_id))
      (not (given s.registration_closed_at))

-- A Mesa that is not due is left as it is.
capture-not_due :
    (at : ℕ) (w : ScoreTables) (s : MesaStart) → is_not_due s ≡ true → capture at w s ≡ ok (tt, s)
unfolding capture
capture-not_due at w s h = rw h refl

finish-not_due :
    (at : ℕ) (s s' : MesaStart) (r : Result (Unit {0} × List Contender))
    → finish_capture at s r ≡ ok (tt, s')
    → is_not_due s' ≡ true
finish-not_due at s s' (err e) h = ground arith
finish-not_due at s s' (ok (_, cs)) h =
    let same : s' ≡ mark_ready at s cs = ground arith in rw same (ready_is_not_due at s cs)

-- From a Mesa that waits: either it is captured, or it stays as it is and so would be again.
with_number-again :
    (at at' : ℕ) (w : ScoreTables) (number : ℕ) (s s' : MesaStart)
    → with_number at w number s ≡ ok (tt, s')
    → (is_not_due s' ≡ true) ⊎ ((s' ≡ s) × (with_number at' w number s ≡ ok (tt, s)))
with_number-again at at' w number s s' h = elim (Bool-cases (is_incomplete w number s)) [
  | inl a ↦
      let stays : with_number at w number s ≡ ok (tt, s) = rw a refl in
      inr (ok_state (sym h ∙ stays), rw a refl)
  | inr a ↦
      let hs = past_scores number (approved_contenders s.participants) w.histories in
      let g : write_all at hs s ≡ ok (tt, s') = rw a at h in
      inl (
        finish-not_due at s s'
          (capture_each at hs (approved_contenders s.participants) s.participants) g)
]
  where
    ok_state :
        {x y : MesaStart} → Path (Result (Unit {0} × MesaStart)) (ok (tt, x)) (ok (tt, y)) → x ≡ y
    ok_state e = ground arith

with_reference-again :
    (at at' : ℕ) (w : ScoreTables) (o : Option Reference) (s s' : MesaStart)
    → with_reference at w o s ≡ ok (tt, s')
    → (is_not_due s' ≡ true)
      ⊎ ((s' ≡ s) × (with_reference at' w o s ≡ ok (tt, s)))
      ⊎ ((s' ≡ mark_waiting s)
          × (with_reference at' w o (mark_waiting s) ≡ ok (tt, mark_waiting s)))
with_reference-again at at' w none s s' h = inr (inl (ground arith, refl))
with_reference-again at at' w (some r) s s' h = elim (Bool-cases r.is_round_scored) [
  | inl a ↦
      let g : with_number at w r.number (mark_waiting s) ≡ ok (tt, s') = rw a at h in
      elim (with_number-again at at' w r.number (mark_waiting s) s' g) [
        | inl d ↦ inl d
        | inr (same, again) ↦ inr (inr (same, rw a again))
      ]
  | inr a ↦
      let g : Path (Result (Unit {0} × MesaStart)) (ok (tt, s)) (ok (tt, s')) = rw a at h in
      inr (inl (ground arith, rw a refl))
]

-- A capture that went through is not repeated: whenever the job runs again on the tables it left, at
-- whatever time, it changes nothing, whether the Mesa became READY, waits for its reference round
-- or waits for the histories of its participants.
pub capture_runs_once :
    (at at' : ℕ) (w : ScoreTables) (s s' : MesaStart)
    → capture at w s ≡ ok (tt, s')
    → capture at' w s' ≡ ok (tt, s')
unfolding capture
capture_runs_once at at' w s s' h = elim (Bool-cases (is_not_due s)) [
  | inl a ↦
      let g : Path (Result (Unit {0} × MesaStart)) (ok (tt, s)) (ok (tt, s')) = rw a at h in
      let same : s' ≡ s = ground arith in rw (same, a) refl
  | inr a ↦
      let o = reference_of w s.reference_round_id in
      let g : with_reference at w o s ≡ ok (tt, s') = rw a at h in
      elim (with_reference-again at at' w o s s' g) [
        | inl d ↦ rw d refl
        | inr (inl (same, again)) ↦ rw (same, a) again
        | inr (inr (same, again)) ↦ rw (same, waiting_is_due s a) again
      ]
]
