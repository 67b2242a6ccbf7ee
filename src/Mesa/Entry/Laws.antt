-- ===== src/Mesa/Entry/Laws.antt =====
-- What joining a Mesa does to its books (join-bolao.service.ts).
use boteco12_api.Prelude.{
  ℕ, suc, ◌+◌, ◌≡◌, refl, sym, ap, subst, ◌∙◌, Bool, true, Option, none, some, List, if◌then◌else◌,
  arith, Bool-cases, inl, inr,
}
use boteco12_api.Errors.{Result, ok}
use boteco12_api.Db.{Db}
use boteco12_api.Mesa.Prize.{calculate_pool}
use boteco12_api.Mesa.Entry.{
  MesaRow, Initialization, Participant, Lobby, cost_of, has_paid_entry, by_capacity,
}
use boteco12_api.Mesa.Entry.Join.{
  seated, upsert_participant, write_totals, approved_participant, join_bolao,
}
use boteco12_api.Mesa.Entry.Joined.{Joined, join_bolao-Joined, join_bolao-none}
use boteco12_api.Mesa.Entry.Coherent.{
  approved_count, fees, within_seats, IsCoherent, upsert-count, upsert-fees,
}

pub pool_shared :
    (g s : ℕ) → (calculate_pool g).platform_fee + ((calculate_pool g).prize_pool + s) ≡ g + s
unfolding calculate_pool
pool_shared g s = omega arith

module _ (r : MesaRow) (a c d : Option ℕ) (b : Option Initialization) where
  abbrev after : MesaRow
  after = record (if by_capacity r then seated r r else r) {
    registration_closed_at = a;
    reference_round = c;
    initialization = b;
    captured_at = d;
  }

  -- A row after one more seat
  totals-IsCoherent :
      (ps ps' : List Participant)
      → IsCoherent r ps
      → (if by_capacity r
          then within_seats (suc r.current_participants) r.max_participants
          else true)
        ≡ true
      → approved_count ps' ≡ suc (approved_count ps)
      → fees ps' ≡ fees ps + (if has_paid_entry r then cost_of r else 0)
      → IsCoherent (write_totals r after) ps'
  totals-IsCoherent ps ps' h fit count sum = elim (Bool-cases (by_capacity r)) [
    | inl e ↦ elim (Bool-cases (has_paid_entry r)) [
      | inl f ↦
          rw (e, f)
            (record {
              seats = rw count (ap suc h.seats);
              paid_in = rw sum (rw f (ap (λ g. g + cost_of r) h.paid_in));
              room = rw e (rw e at fit);
              pool = pool_shared _ _;
            })
      | inr f ↦
          rw (e, f)
            (record {
              seats = rw count (ap suc h.seats);
              paid_in = rw sum (rw f (h.paid_in ∙ omega arith));
              room = rw e (rw e at fit);
              pool = h.pool;
            })
    ]
    | inr e ↦ elim (Bool-cases (has_paid_entry r)) [
      | inl f ↦
          rw (e, f)
            (record {
              seats = rw count (ap suc h.seats);
              paid_in = rw sum (rw f (ap (λ g. g + cost_of r) h.paid_in));
              room = rw e (rw e at fit);
              pool = pool_shared _ _;
            })
      | inr f ↦
          rw (e, f)
            (record {
              seats = rw count (ap suc h.seats);
              paid_in = rw sum (rw f (h.paid_in ∙ omega arith));
              room = rw e (rw e at fit);
              pool = h.pool;
            })
    ]
  ]

-- The books of the Mesa of these tables
abbrev pub HasBooks : Option MesaRow → List Participant → Type 0
HasBooks none ps = Unit
HasBooks (some r) ps = IsCoherent r ps

Joined-HasBooks :
    (now u : ℕ) (m : MesaRow) (ps : List Participant) (t : Lobby)
    → IsCoherent m ps
    → Joined now u m ps t
    → HasBooks t.mesa t.participants
Joined-HasBooks now u m ps t h j =
    let p : Participant = approved_participant now (has_paid_entry m) (cost_of m) u j.initial in
    let coherent =
      totals-IsCoherent m j.row.registration_closed_at j.row.reference_round j.row.captured_at
        j.row.initialization ps (upsert_participant p ps) h j.room (upsert-count p ps refl j.fresh)
        (upsert-fees p ps refl j.fresh) in
    rw (j.mesa, j.participants)
      (subst (λ z. IsCoherent (write_totals m z) (upsert_participant p ps)) (sym j.shape) coherent)

-- A join that nobody interrupts keeps the books of the Mesa: its seats are its approved
-- participants, its money is what they paid, and it is within its capacity.
pub join_bolao-HasBooks :
    (others_db : Db → Db) (creator : Bool) (ranking now : ℕ) (pro : Result (Unit {0})) (u : ℕ)
    (s t : Lobby)
    → HasBooks s.mesa s.participants
    → join_bolao (λ s. s) others_db creator ranking now pro u s ≡ ok (tt, t)
    → HasBooks t.mesa t.participants
join_bolao-HasBooks others_db creator ranking now pro u s t h e = go s.mesa refl h
  where
    go :
        (o : Option MesaRow)
        → s.mesa ≡ o
        → HasBooks o s.participants
        → HasBooks t.mesa t.participants
    go none row h = absurd (join_bolao-none others_db creator ranking now pro u s t row e)
    go (some m) row h =
        Joined-HasBooks now u m s.participants t h
          (join_bolao-Joined others_db creator ranking now pro u m s t row e)
