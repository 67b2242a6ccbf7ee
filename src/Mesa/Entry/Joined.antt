-- ===== src/Mesa/Entry/Joined.antt =====
-- What a join that went through has done to the row and the participants (join-bolao.service.ts).
use boteco12_api.Prelude.{
  ℕ, suc, ◌≡◌, ◌≢◌, refl, ap, subst, ◌∙◌, Bool, true, false, Option, none, some, List, ltb,
  if◌then◌else◌, arith, Bool-cases, inl, inr,
}
use boteco12_api.Errors.{Result, ok, err}
use boteco12_api.Prelude.Int.{ℤ}
use boteco12_api.Transaction.{continue, >>=-eq-ok}
use boteco12_api.Db.{Db}
use boteco12_api.Mesa.Registration.{baseline_at}
use boteco12_api.Mesa.Entry.{
  MesaRow, Participant, Lobby, cost_of, has_paid_entry, by_capacity, find_participant,
  assert_may_join,
}
use boteco12_api.Mesa.Entry.Join.{
  seated, close_if_full, put_mesa, reserve_seat, update_mesa, write_participant, pay_access,
  take_seat, enter, write_entry, is_found, with_wallets, upsert_participant, write_totals,
  approved_participant, checked, get_score_total_before, join_mesa, join_bolao,
}
use boteco12_api.Mesa.Entry.Coherent.{
  within_seats, is_admitted, same_but_closing, close_if_full-same,
}

with_wallets-same :
    (s t : Lobby) (x : Result (Unit {0} × Db))
    → with_wallets s x ≡ ok (tt, t)
    → (t.mesa ≡ s.mesa) × (t.participants ≡ s.participants)
with_wallets-same s t (err e) q = cc
with_wallets-same s t (ok (_, db)) q = (ground arith, ground arith)

-- A debit, if there is one, changes only the wallets and the ledger.
pub paid-same :
    (pays : Bool) (x : Result (Unit {0} × Db)) (s t : Lobby)
    → (if pays then with_wallets s x else ok (tt, s)) ≡ ok (tt, t)
    → (t.mesa ≡ s.mesa) × (t.participants ≡ s.participants)
paid-same true x s t h = with_wallets-same s t x h
paid-same false x s t h = (ground arith, ground arith)

put_mesa-ok :
    (s t : Lobby) (x : Result MesaRow)
    → put_mesa s x ≡ ok (tt, t)
    → (y : MesaRow) × (x ≡ ok y) × (t.mesa ≡ some y) × (t.participants ≡ s.participants)
put_mesa-ok s t (err e) h = cc
put_mesa-ok s t (ok y) h = (y, refl, ground arith, ground arith)

-- A seat that was taken by capacity: there was room, and the row has one seat more.
pub reserve_seat-ok :
    (now : ℕ) (m : MesaRow) (max : Option ℕ) (o : Option MesaRow) (s t : Lobby)
    → reserve_seat now m max o s ≡ ok (tt, t)
    → (n : ℕ) × (r y : MesaRow) × (max ≡ some n)
      × (o ≡ some r)
      × (ltb r.current_participants n ≡ true)
      × (y ≡ same_but_closing y (seated m r))
      × (t.mesa ≡ some y)
      × (t.participants ≡ s.participants)
reserve_seat-ok now m none o s t h = cc
reserve_seat-ok now m (some n) none s t h = cc
reserve_seat-ok now m (some n) (some r) s t h = elim (Bool-cases (ltb r.current_participants n)) [
  | inl e ↦
      let (y, closing, row, rest) =
        put_mesa-ok s t (close_if_full now n s.open_round_id (seated m r)) (rw e at h) in
      (
        n,
        r,
        y,
        refl,
        refl,
        e,
        close_if_full-same now n s.open_round_id (seated m r) closing,
        row,
        rest,
      )
  | inr e ↦ ground arith
]

-- The seat, from the states after the debit and after the seat
seat-shape :
    (others_db : Db → Db) (now : ℕ) (m : MesaRow) (a v : Lobby)
    → a.mesa ≡ some m
    → take_seat (λ s. s) others_db now m a ≡ ok (tt, v)
    → (y : MesaRow) × ((if by_capacity m
          then within_seats (suc m.current_participants) m.max_participants
          else true)
        ≡ true)
      × (y ≡ same_but_closing y (if by_capacity m then seated m m else m))
      × (v.mesa ≡ some y)
      × (v.participants ≡ a.participants)
seat-shape others_db now m a v row seat = by_mode (by_capacity m) refl
  where
    full_or_free :
        (n : ℕ) (r y : MesaRow) (max : Option ℕ)
        → max ≡ some n
        → ltb r.current_participants n ≡ true
        → within_seats (suc r.current_participants) max ≡ true
    full_or_free n r y max q room = rw q (ground arith)

    by_mode :
        (b : Bool)
        → by_capacity m ≡ b
        → (y : MesaRow) × ((if by_capacity m
              then within_seats (suc m.current_participants) m.max_participants
              else true)
            ≡ true)
          × (y ≡ same_but_closing y (if by_capacity m then seated m m else m))
          × (v.mesa ≡ some y)
          × (v.participants ≡ a.participants)
    by_mode true c =
        let tried : reserve_seat now m m.max_participants a.mesa a ≡ ok (tt, v) = rw c at seat in
        let seat' : reserve_seat now m m.max_participants (some m) a ≡ ok (tt, v) =
          subst (λ o. reserve_seat now m m.max_participants o a ≡ ok (tt, v)) row tried in
        let (n, r, y, max, found, room, shape, row_v, rows_v) =
          reserve_seat-ok now m m.max_participants (some m) a v seat' in
        let same : r ≡ m = ground arith in
        (
          y,
          rw c (
              full_or_free n m y m.max_participants max
                (subst (λ z. ltb z.current_participants n ≡ true) same room)),
          rw c (subst (λ z. y ≡ same_but_closing y (seated m z)) same shape),
          row_v,
          rows_v,
        )
    by_mode false c =
        let stay : ◌≡◌ {A = Result (Unit {0} × Lobby)} (ok (tt, a)) (ok (tt, v)) = rw c at seat in
        let same : v ≡ a = ground arith in
        (m, rw c refl, rw c refl, ap (λ z. z.mesa) same ∙ row, ap (λ z. z.participants) same)

pub assert_new-admitted :
    (creator : Bool) (now : ℕ) (pro : Result (Unit {0})) (m : MesaRow) (o : Option Participant)
    → assert_may_join creator now pro m o ≡ ok tt
    → is_admitted o ≡ false
unfolding assert_may_join
assert_new-admitted creator now pro m none h = refl
assert_new-admitted creator now pro m (some p) h = ground arith

-- A join of the Mesa `m` with these participants led to these tables.
pub record Joined (now u : ℕ) (m : MesaRow) (ps : List Participant) (t : Lobby) : Type 0 where
  pub initial : ℤ
  pub row : MesaRow
  pub fresh : is_admitted (find_participant u ps) ≡ false
  pub room :
      (if by_capacity m then within_seats (suc m.current_participants) m.max_participants else true)
      ≡ true
  pub shape : row ≡ same_but_closing row (if by_capacity m then seated m m else m)
  pub mesa : t.mesa ≡ some (write_totals m row)
  pub participants :
      t.participants
      ≡ upsert_participant (approved_participant now (has_paid_entry m) (cost_of m) u initial) ps

written-Joined :
    (now u : ℕ) (initial : ℤ) (m y : MesaRow) (ps : List Participant) (v t : Lobby)
    → is_admitted (find_participant u ps) ≡ false
    → (if by_capacity m then within_seats (suc m.current_participants) m.max_participants else true)
      ≡ true
    → y ≡ same_but_closing y (if by_capacity m then seated m m else m)
    → v.mesa ≡ some y
    → v.participants ≡ ps
    → t
      ≡ update_mesa
          (write_totals m)
          (write_participant (approved_participant now (has_paid_entry m) (cost_of m) u initial) v)
    → Joined now u m ps t
written-Joined now u initial m y ps v t new room shape row rows last = record {
  initial = initial;
  row = y;
  fresh = new;
  room = room;
  shape = shape;
  mesa = rw (last, row) refl;
  participants = rw (last, rows) refl;
}

enter-Joined :
    (others_db : Db → Db) (ranking now u : ℕ) (known : Bool) (initial : ℤ) (m : MesaRow)
    (s t : Lobby)
    → s.mesa ≡ some m
    → is_admitted (find_participant u s.participants) ≡ false
    → enter (λ s. s) others_db ranking now m u known initial s ≡ ok (tt, t)
    → Joined now u m s.participants t
enter-Joined others_db ranking now u known initial m s t row new e =
    let p : Participant = approved_participant now (has_paid_entry m) (cost_of m) u initial in
    let (_, a, pay, rest) =
      >>=-eq-ok (pay_access (λ s. s) others_db ranking m u)
        (λ _ t. continue (take_seat (λ s. s) others_db now m t) (λ _ v. write_entry m known p v)) s
        e in
    let (_, v, seat, last) =
      >>=-eq-ok (take_seat (λ s. s) others_db now m) (λ _ v. write_entry m known p v) a rest in
    let (row_a, rows_a) = paid-same (has_paid_entry m) _ s a pay in
    let last' : t ≡ update_mesa (write_totals m) (write_participant p v) = ground arith in
    let (y, room, shape, row_v, rows_v) = seat-shape others_db now m a v (row_a ∙ row) seat in
    written-Joined now u initial m y s.participants v t new room shape row_v (rows_v ∙ rows_a) last'

join_mesa-Joined :
    (others_db : Db → Db) (creator : Bool) (ranking now : ℕ) (pro : Result (Unit {0})) (u : ℕ)
    (m : MesaRow) (s t : Lobby) (r : Result (Unit {0}))
    → s.mesa ≡ some m
    → assert_may_join creator now pro m (find_participant u s.participants) ≡ r
    → checked
        (λ s. s)
        others_db
        r
        (λ s.
          enter
            (λ s. s)
            others_db
            ranking
            now
            m
            u
            (is_found (find_participant u s.participants))
            (get_score_total_before u (baseline_at m.window now) s.db)
            s)
        s
      ≡ ok (tt, t)
    → Joined now u m s.participants t
join_mesa-Joined others_db creator ranking now pro u m s t (err x) row q k = cc
join_mesa-Joined others_db creator ranking now pro u m s t (ok _) row q k =
    enter-Joined others_db ranking now u (is_found (find_participant u s.participants))
      (get_score_total_before u (baseline_at m.window now) s.db) m s t row
      (assert_new-admitted creator now pro m (find_participant u s.participants) q) k

-- The parts of a join that nobody interrupted
pub join_bolao-Joined :
    (others_db : Db → Db) (creator : Bool) (ranking now : ℕ) (pro : Result (Unit {0})) (u : ℕ)
    (m : MesaRow) (s t : Lobby)
    → s.mesa ≡ some m
    → join_bolao (λ s. s) others_db creator ranking now pro u s ≡ ok (tt, t)
    → Joined now u m s.participants t
unfolding join_bolao
join_bolao-Joined others_db creator ranking now pro u m s t row e =
    let e' : join_mesa (λ s. s) others_db creator ranking now pro u (some m) s ≡ ok (tt, t) =
      subst (λ o. join_mesa (λ s. s) others_db creator ranking now pro u o s ≡ ok (tt, t)) row e in
    join_mesa-Joined others_db creator ranking now pro u m s t
      (assert_may_join creator now pro m (find_participant u s.participants)) row refl e'

pub join_bolao-none :
    (others_db : Db → Db) (creator : Bool) (ranking now : ℕ) (pro : Result (Unit {0})) (u : ℕ)
    (s t : Lobby)
    → s.mesa ≡ none
    → join_bolao (λ s. s) others_db creator ranking now pro u s ≢ ok (tt, t)
unfolding join_bolao
join_bolao-none others_db creator ranking now pro u s t row e =
    let e' : join_mesa (λ s. s) others_db creator ranking now pro u none s ≡ ok (tt, t) =
      subst (λ o. join_mesa (λ s. s) others_db creator ranking now pro u o s ≡ ok (tt, t)) row e in
    cc
