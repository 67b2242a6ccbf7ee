-- ===== src/Mesa/Integrity/Kept.antt =====
-- That a join keeps the integrity of a Mesa (join-bolao.service.ts, mesa-integrity.service.ts).
use boteco12_api.Prelude.{
  ℕ, suc, ◌+◌, ◌≡◌, refl, sym, ap, subst, ◌∙◌, Bool, true, false, Option, some, List, [],
  if◌then◌else◌, arith, Bool-cases, inl, inr,
}
use boteco12_api.Prelude.Int.{ℤ}
use boteco12_api.Errors.{Result, ok}
use boteco12_api.Db.{Db}
use boteco12_api.Mesa.Prize.{Json, calculate_pool}
use boteco12_api.Mesa.Entry.{
  MesaRow, Initialization, Participant, Lobby, cost_of, has_paid_entry, by_capacity,
  find_participant,
}
use boteco12_api.Mesa.Entry.Join.{
  seated, upsert_participant, sponsor_part, write_totals, approved_participant, join_bolao,
}
use boteco12_api.Mesa.Entry.Joined.{Joined, join_bolao-Joined}
use boteco12_api.Mesa.Entry.Coherent.{within_seats, is_admitted}
use boteco12_api.Mesa.Integrity.{
  is_sponsored_row, has_paid_all, approved_length, any_unpaid, expected_gross, expected_totals,
  inspect,
}
use boteco12_api.Mesa.Integrity.Clean.{
  upsert-approved_length, upsert-any_unpaid, upsert-expected_gross, clean_next, IsClean,
  inspect-IsClean, room-exceeds, paid_entry-free, ==-same,
}

module _ (m : MesaRow) (a c d : Option ℕ) (b : Option Initialization) where
  -- The totals that a paid join writes are the expected ones.
  paid-pool :
      (ps : List Participant) (g : ℕ)
      → IsClean m ps
      → has_paid_entry m ≡ true
      → ((calculate_pool g).platform_fee
          ≡ (expected_totals (record m { gross_collected = g })).platform_fee)
        × ((calculate_pool g).prize_pool + sponsor_part m
            ≡ (expected_totals (record m { gross_collected = g })).prize_pool)
  paid-pool ps g h e = elim (Bool-cases (is_sponsored_row m)) [
    | inl s ↦ rw s (refl, omega arith)
    | inr s ↦ rw (s, paid_entry-free m ps h e s) (refl, omega arith)
  ]

  abbrev row_after : MesaRow
  row_after = record (if by_capacity m then seated m m else m) {
    registration_closed_at = a;
    reference_round = c;
    initialization = b;
    captured_at = d;
  }

  joined-clean :
      (pays : Bool) (described : Bool) (distribution : Json) (ps : List Participant) (now u : ℕ)
      (initial : ℤ)
      → has_paid_entry m ≡ pays
      → by_capacity m ≡ true
      → within_seats (suc m.current_participants) m.max_participants ≡ true
      → inspect described distribution m ps ≡ []
      → is_admitted (find_participant u ps) ≡ false
      → inspect described distribution
          (write_totals m row_after)
          (upsert_participant (approved_participant now pays (cost_of m) u initial) ps)
        ≡ []
  joined-clean true described distribution ps now u initial e mode room h new =
      let clean = inspect-IsClean described distribution m ps h in
      let p : Participant = approved_participant now true (cost_of m) u initial in
      let count : suc m.current_participants ≡ approved_length (upsert_participant p ps) =
        ap suc clean.seats ∙ sym (upsert-approved_length p ps refl new) in
      let fits = room-exceeds (suc m.current_participants) m.max_participants room in
      let g = m.gross_collected + cost_of m in
      let full : has_paid_all (cost_of m) p ≡ true = ==-same (cost_of m) in
      let none_unpaid : any_unpaid (cost_of m) ps ≡ false = rw e at clean.all_paid in
      let before : m.gross_collected ≡ expected_gross (cost_of m) ps = rw e at clean.gross in
      let gross : g ≡ expected_gross (cost_of m) (upsert_participant p ps) =
        ap (λ n. n + cost_of m) before
        ∙ sym (upsert-expected_gross (cost_of m) p ps refl full new) in
      let (fee, pool) = paid-pool ps g clean e in
      rw (mode, e)
        (clean_next m (suc m.current_participants) g (calculate_pool g).platform_fee
          ((calculate_pool g).prize_pool + sponsor_part m)
          (some ((calculate_pool g).prize_pool + sponsor_part m)) a c d b described distribution ps
          (upsert_participant p ps) h count fits
          (rw (==-same ((calculate_pool g).prize_pool + sponsor_part m)) refl)
          (rw e (upsert-any_unpaid (cost_of m) p ps full none_unpaid)) (rw e gross) fee pool)
  joined-clean false described distribution ps now u initial e mode room h new =
      let clean = inspect-IsClean described distribution m ps h in
      let p : Participant = approved_participant now false (cost_of m) u initial in
      let count : suc m.current_participants ≡ approved_length (upsert_participant p ps) =
        ap suc clean.seats ∙ sym (upsert-approved_length p ps refl new) in
      let fits = room-exceeds (suc m.current_participants) m.max_participants room in
      let before : m.gross_collected ≡ 0 = rw e at clean.gross in
      rw (mode, e)
        (clean_next m (suc m.current_participants) m.gross_collected m.platform_fee m.prize_pool
          m.reward_pool a c d b described distribution ps (upsert_participant p ps) h count fits
          clean.pools (rw e refl) (rw e before) clean.fee clean.pool)

-- A Mesa that closes by capacity and shows no integrity issue, so that it could be settled, shows none
-- after a join that nobody interrupts: the join does all that the settlement later asks of it.
pub join_keeps_integrity :
    (described : Bool) (distribution : Json) (others_db : Db → Db) (creator : Bool)
    (ranking now : ℕ) (pro : Result (Unit {0})) (u : ℕ) (m : MesaRow) (s t : Lobby)
    → s.mesa ≡ some m
    → by_capacity m ≡ true
    → inspect described distribution m s.participants ≡ []
    → join_bolao (λ s. s) others_db creator ranking now pro u s ≡ ok (tt, t)
    → (r : MesaRow) × (t.mesa ≡ some r) × (inspect described distribution r t.participants ≡ [])
join_keeps_integrity described distribution others_db creator ranking now pro u m s t row mode h e =
    let j : Joined now u m s.participants t =
      join_bolao-Joined others_db creator ranking now pro u m s t row e in
    let p : Participant = approved_participant now (has_paid_entry m) (cost_of m) u j.initial in
    let room : within_seats (suc m.current_participants) m.max_participants ≡ true =
      rw mode at j.room in
    let clean =
      joined-clean m j.row.registration_closed_at j.row.reference_round j.row.captured_at
        j.row.initialization (has_paid_entry m) described distribution s.participants now u
        j.initial refl mode room h j.fresh in
    let kept =
      subst
        (λ y.
          inspect described distribution (write_totals m y) (upsert_participant p s.participants)
          ≡ [])
        (sym j.shape) clean in
    (
      write_totals m j.row,
      j.mesa,
      subst (λ ps. inspect described distribution (write_totals m j.row) ps ≡ [])
          (sym j.participants) kept,
    )
