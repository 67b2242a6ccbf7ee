-- ===== src/Mesa/Entry/Capacity.antt =====
-- Joins of the same Mesa at the same time (join-bolao.service.ts, the guarded reservation).
use boteco12_api.Prelude.{
  ℕ, suc, ◌≡◌, ◌≤◌, refl, ap, subst, ◌∙◌, Bool, true, Option, some, ltb, arith,
}
use boteco12_api.Prelude.Int.{ℤ}
use boteco12_api.Errors.{Result, ok, err}
use boteco12_api.Transaction.{continue, >>=-eq-ok}
use boteco12_api.Db.{Db}
use boteco12_api.Mesa.Registration.{baseline_at}
use boteco12_api.Mesa.Entry.{
  MesaRow, Participant, Lobby, cost_of, has_paid_entry, by_capacity, find_participant,
  assert_may_join,
}
use boteco12_api.Mesa.Entry.Join.{
  pay_access, take_seat, reserve_seat, seated, enter, write_entry, is_found, update_mesa,
  write_participant, write_totals, approved_participant, checked, get_score_total_before, join_mesa,
  join_bolao,
}
use boteco12_api.Mesa.Entry.Coherent.{same_but_closing}
use boteco12_api.Mesa.Entry.Joined.{paid-same, reserve_seat-ok}

-- The Mesa has one seat taken more than before, no more than `n`, and its limit is as before.
abbrev pub HasTaken : ℕ → Option MesaRow → Option MesaRow → Type 0
HasTaken n before after =
    (r r' : MesaRow) × (before ≡ some r)
    × (after ≡ some r')
    × (r'.current_participants ≡ suc r.current_participants)
    × (r'.current_participants ≤ n)
    × (r'.max_participants ≡ r.max_participants)

module _ (others : Lobby → Lobby) (others_db : Db → Db) (ranking now u : ℕ) (m : MesaRow)
    (n : ℕ) where
  seat-HasTaken :
      (p : Participant) (a v t : Lobby)
      → by_capacity m ≡ true
      → m.max_participants ≡ some n
      → take_seat others others_db now m a ≡ ok (tt, v)
      → t ≡ update_mesa (write_totals m) (write_participant p v)
      → HasTaken n a.mesa t.mesa
  seat-HasTaken p a v t c max seat last =
      let tried : reserve_seat now m m.max_participants a.mesa a ≡ ok (tt, v) = rw c at seat in
      taken (reserve_seat-ok now m m.max_participants a.mesa a v tried)
    where
      taken :
          ((k : ℕ) × (r y : MesaRow) × (m.max_participants ≡ some k)
            × (a.mesa ≡ some r)
            × (ltb r.current_participants k ≡ true)
            × (y ≡ same_but_closing y (seated m r))
            × (v.mesa ≡ some y)
            × (v.participants ≡ a.participants))
          → HasTaken n a.mesa t.mesa
      taken (k, r, y, max', found, room, shape, row, _) =
          let kn : k ≡ n = ground arith in
          let one : y.current_participants ≡ suc r.current_participants =
            ap (λ z. z.current_participants) shape in
          let final : (write_totals m y).current_participants ≡ y.current_participants =
            rw c (ground arith) in
          let limit : y.max_participants ≡ r.max_participants =
            ap (λ z. z.max_participants) shape in
          let final_limit : (write_totals m y).max_participants ≡ y.max_participants =
            rw c (ground arith) in
          (
            r,
            write_totals m y,
            found,
            rw (last, row) refl,
            final ∙ one,
            rw (final, one) (ground arith),
            final_limit ∙ limit,
          )

  enter-HasTaken :
      (known : Bool) (initial : ℤ) (s t : Lobby)
      → by_capacity m ≡ true
      → m.max_participants ≡ some n
      → enter others others_db ranking now m u known initial s ≡ ok (tt, t)
      → HasTaken n s.mesa t.mesa
  enter-HasTaken known initial s t c max e =
      let p : Participant = approved_participant now (has_paid_entry m) (cost_of m) u initial in
      let (_, a, pay, rest) =
        >>=-eq-ok (pay_access others others_db ranking m u)
          (λ _ t. continue (take_seat others others_db now m t) (λ _ v. write_entry m known p v)) s
          e in
      let (_, v, seat, last) =
        >>=-eq-ok (take_seat others others_db now m) (λ _ v. write_entry m known p v) a rest in
      let (row_a, _) = paid-same (has_paid_entry m) _ s a pay in
      subst (λ o. HasTaken n o t.mesa) row_a (seat-HasTaken p a v t c max seat (ground arith))

  checked-HasTaken :
      (r : Result (Unit {0})) (known : Lobby → Bool) (initial : Lobby → ℤ) (s t : Lobby)
      → by_capacity m ≡ true
      → m.max_participants ≡ some n
      → checked others others_db r
          (λ s. enter others others_db ranking now m u (known s) (initial s) (others s))
          s
        ≡ ok (tt, t)
      → HasTaken n (others s).mesa t.mesa
  checked-HasTaken (err x) known initial s t c max e = cc
  checked-HasTaken (ok _) known initial s t c max e =
      enter-HasTaken (known s) (initial s) (others s) t c max e

-- Whatever other transactions commit between its reads and its writes, even if they took the last
-- seat: when a join by capacity succeeds, the Mesa has one seat taken more than the others left, no
-- more than the limit that the join has read, and the limit that the others left. So a Mesa whose
-- limit the others did not lower is not overbooked.
pub join_never_overbooks :
    (others : Lobby → Lobby) (others_db : Db → Db) (creator : Bool) (ranking now : ℕ)
    (pro : Result (Unit {0})) (u n : ℕ) (m : MesaRow) (s t : Lobby)
    → s.mesa ≡ some m
    → by_capacity m ≡ true
    → m.max_participants ≡ some n
    → join_bolao others others_db creator ranking now pro u s ≡ ok (tt, t)
    → HasTaken n (others s).mesa t.mesa
unfolding join_bolao
join_never_overbooks others others_db creator ranking now pro u n m s t row c max e =
    let e' : join_mesa others others_db creator ranking now pro u (some m) s ≡ ok (tt, t) =
      subst (λ o. join_mesa others others_db creator ranking now pro u o s ≡ ok (tt, t)) row e in
    checked-HasTaken others others_db ranking now u m n
      (assert_may_join creator now pro m (find_participant u s.participants))
      (λ s. is_found (find_participant u s.participants))
      (λ s. get_score_total_before u (baseline_at m.window now) s.db) s t c max e'
