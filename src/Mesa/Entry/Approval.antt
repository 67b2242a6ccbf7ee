-- ===== src/Mesa/Entry/Approval.antt =====
-- What an approval does to the books of a Mesa (review-bolao-request.service.ts).
use boteco12_api.Prelude.{
  ℕ, suc, ◌+◌, ◌≡◌, refl, sym, ap, subst, ◌∙◌, Bool, true, false, Option, none, some, List, ltb,
  if◌then◌else◌, arith, Bool-cases, inl, inr,
}
use boteco12_api.Errors.{ok}
use boteco12_api.Transaction.{continue, >>=-eq-ok}
use boteco12_api.Db.{Db}
use boteco12_api.Mesa.Terms.{is_paid, is_sponsored, category_of}
use boteco12_api.Mesa.Registration.{baseline_at}
use boteco12_api.Mesa.Entry.{
  MesaRow, Participant, Lobby, cost_of, by_capacity, is_approved_standing, find_participant,
}
use boteco12_api.Mesa.Entry.Join.{
  upsert_participant, approved_participant, write_participant, update_mesa, sponsor_part,
  get_score_total_before,
}
use boteco12_api.Mesa.Entry.Review.{
  is_paid_mesa, one_more, review_seat, review_totals, pay_review, admit,
}
use boteco12_api.Mesa.Entry.Coherent.{
  approved_count, fees, within_seats, IsCoherent, is_admitted, upsert-count, upsert-fees,
}
use boteco12_api.Mesa.Entry.Joined.{paid-same}
use boteco12_api.Mesa.Entry.Laws.{pool_shared, HasBooks}

paid-sponsor_part : (m : MesaRow) → is_paid_mesa m ≡ true → sponsor_part m ≡ 0
unfolding is_paid is_sponsored category_of
paid-sponsor_part m h = ground arith

more-fits :
    (b : Bool) (k n : ℕ) (max : Option ℕ)
    → max ≡ some n
    → ltb k n ≡ true
    → (if b then within_seats (suc k) max else true) ≡ true
more-fits true k n max q room = rw q (ground arith)
more-fits false k n max q room = refl

-- The row after an approval
review_totals-IsCoherent :
    (m : MesaRow) (n : ℕ) (ps ps' : List Participant)
    → IsCoherent m ps
    → m.max_participants ≡ some n
    → ltb m.current_participants n ≡ true
    → approved_count ps' ≡ suc (approved_count ps)
    → fees ps' ≡ fees ps + (if is_paid_mesa m then cost_of m else 0)
    → IsCoherent (review_totals m (one_more m)) ps'
review_totals-IsCoherent m n ps ps' h max room count sum = elim (Bool-cases (is_paid_mesa m)) [
  | inl e ↦
      let none_sponsored = paid-sponsor_part m e in
      rw e (record {
        seats = rw count (ap suc h.seats);
        paid_in = rw sum (rw e (ap (λ g. g + cost_of m) h.paid_in));
        room = more-fits (by_capacity m) m.current_participants n m.max_participants max room;
        pool =
            pool_shared (m.gross_collected + cost_of m) 0
            ∙ ap (λ x. m.gross_collected + cost_of m + x) (sym none_sponsored);
      })
  | inr e ↦ rw e (record {
    seats = rw count (ap suc h.seats);
    paid_in = rw sum (rw e (h.paid_in ∙ omega arith));
    room = more-fits (by_capacity m) m.current_participants n m.max_participants max room;
    pool = h.pool;
  })
]

review_seat-ok :
    (max : Option ℕ) (m : MesaRow) (o : Option MesaRow) (a v : Lobby)
    → o ≡ some m
    → review_seat max o a ≡ ok (tt, v)
    → (n : ℕ) × (max ≡ some n)
      × (ltb m.current_participants n ≡ true)
      × (v.mesa ≡ some (one_more m))
      × (v.participants ≡ a.participants)
review_seat-ok none m o a v q h = cc
review_seat-ok (some n) m none a v q h = cc
review_seat-ok (some n) m (some r) a v q h =
    let same : r ≡ m = ground arith in
    elim (Bool-cases (ltb r.current_participants n)) [
      | inl e ↦
          let row : v.mesa ≡ some (one_more r) = ground arith in
          let rows : v.participants ≡ a.participants = ground arith in
          (
            n,
            refl,
            subst (λ z. ltb z.current_participants n ≡ true) same e,
            subst (λ z. v.mesa ≡ some (one_more z)) same row,
            rows,
          )
      | inr e ↦ ground arith
    ]

approved-HasBooks :
    (m : MesaRow) (n : ℕ) (p : Participant) (ps : List Participant) (v t : Lobby)
    → IsCoherent m ps
    → is_approved_standing p.standing ≡ true
    → p.entry_fee_paid ≡ (if is_paid_mesa m then cost_of m else 0)
    → is_admitted (find_participant p.user ps) ≡ false
    → m.max_participants ≡ some n
    → ltb m.current_participants n ≡ true
    → v.mesa ≡ some (one_more m)
    → v.participants ≡ ps
    → t ≡ update_mesa (review_totals m) (write_participant p v)
    → HasBooks t.mesa t.participants
approved-HasBooks m n p ps v t h a fee new max room row same last =
    let count = upsert-count p ps a new in
    let sum = upsert-fees p ps a new ∙ ap (λ x. fees ps + x) fee in
    let coherent = review_totals-IsCoherent m n ps (upsert_participant p ps) h max room count sum in
    let row' : t.mesa ≡ some (review_totals m (one_more m)) = rw (last, row) refl in
    let rows : t.participants ≡ upsert_participant p ps = rw (last, same) refl in
    rw (row', rows) coherent

pub admit-HasBooks :
    (others_db : Db → Db) (ranking now : ℕ) (m : MesaRow) (u : ℕ) (s t : Lobby)
    → s.mesa ≡ some m
    → IsCoherent m s.participants
    → is_admitted (find_participant u s.participants) ≡ false
    → admit (λ s. s) others_db ranking now m u s ≡ ok (tt, t)
    → HasBooks t.mesa t.participants
admit-HasBooks others_db ranking now m u s t row h new e =
    let p : Lobby → Participant = λ v.
      approved_participant now (is_paid_mesa m) (cost_of m) u
        (get_score_total_before u (baseline_at m.window now) v.db) in
    let (_, a, pay, rest) =
      >>=-eq-ok (pay_review (λ s. s) others_db ranking m u)
        (λ _ t.
          continue (review_seat m.max_participants t.mesa t)
            (λ _ v. ok (tt, update_mesa (review_totals m) (write_participant (p v) v))))
        s e in
    let (_, v, seat, last) =
      >>=-eq-ok (λ a. review_seat m.max_participants a.mesa a)
        (λ _ v. ok (tt, update_mesa (review_totals m) (write_participant (p v) v))) a rest in
    let (row_a, rows_a) = paid-same (is_paid_mesa m) _ s a pay in
    let (n, max, room, row_v, rows_v) =
      review_seat-ok m.max_participants m a.mesa a v (row_a ∙ row) seat in
    approved-HasBooks m n (p v) s.participants v t h refl refl new max room row_v (rows_v ∙ rows_a)
      (ground arith)
