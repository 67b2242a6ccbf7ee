-- ===== src/Mesa/Entry/Books.antt =====
-- What reviews and invites do to the books of a Mesa (review-bolao-request,
-- use-bolao-invite.service.ts).
use boteco12_api.Prelude.{
  ℕ, ◌≡◌, refl, Bool, true, false, Option, none, some, List, [], ◌∷◌, ◌==◌, arith, Bool-cases, inl,
  inr,
}
use boteco12_api.Errors.{Result, ok, err, failure, access_already_debited}
use boteco12_api.Transaction.{>>=-eq-ok}
use boteco12_api.Db.{Db}
use boteco12_api.Mesa.Registration.{Invite, reserve_bolao_invite_use}
use boteco12_api.Mesa.Entry.{
  MesaRow, Participant, Lobby, rejected, invite_used, invite_reused, is_approved_standing,
  find_participant,
}
use boteco12_api.Mesa.Entry.Join.{join_bolao, checked, upsert_participant}
use boteco12_api.Mesa.Entry.Review.{
  assert_may_review, unpaid, reject_row, review_found, review_mesa,
}
use boteco12_api.Mesa.Entry.Invited.{
  participates, assert_usable, with_reservation, reserve, join_and_log, with_invite,
}
use boteco12_api.Mesa.Entry.Coherent.{approved_count, fees, IsCoherent, is_admitted}
use boteco12_api.Mesa.Entry.Laws.{HasBooks, join_bolao-HasBooks}
use boteco12_api.Mesa.Entry.Approval.{admit-HasBooks}

-- A participant that is not approved, before and after, changes nothing.
upsert-unapproved :
    (p : Participant) (ps : List Participant)
    → is_approved_standing p.standing ≡ false
    → is_admitted (find_participant p.user ps) ≡ false
    → (approved_count (upsert_participant p ps) ≡ approved_count ps)
      × (fees (upsert_participant p ps) ≡ fees ps)
upsert-unapproved p [] a h = (rw a refl, rw a refl)
upsert-unapproved p (q ∷ qs) a h = elim (Bool-cases (q.user == p.user)) [
  | inl e ↦ (ground arith, ground arith)
  | inr e ↦ let ih = upsert-unapproved p qs a (ground arith) in (ground arith, ground arith)
]

find-user :
    (u : ℕ) (ps : List Participant) (p : Participant)
    → find_participant u ps ≡ some p
    → find_participant p.user ps ≡ some p
find-user u [] p h = cc
find-user u (q ∷ qs) p h = elim (Bool-cases (q.user == u)) [
  | inl e ↦ ground arith
  | inr e ↦
      let found : find_participant u qs ≡ some p = ground arith in
      ground (arith, find-user u qs p found, find-is u qs p found)
]
  where
    find-is :
        (u : ℕ) (ps : List Participant) (p : Participant)
        → find_participant u ps ≡ some p
        → p.user ≡ u
    find-is u [] p h = cc
    find-is u (q ∷ qs) p h = ground (arith, find-is u qs p)

rejected-HasBooks :
    (u : ℕ) (m : MesaRow) (o : Option Participant) (s : Lobby)
    → s.mesa ≡ some m
    → IsCoherent m s.participants
    → find_participant u s.participants ≡ o
    → is_admitted o ≡ false
    → HasBooks (reject_row o s).mesa (reject_row o s).participants
rejected-HasBooks u m none s row h q new = rw row h
rejected-HasBooks u m (some p) s row h q new =
    let here = find-user u s.participants p q in
    let (count, sum) =
      upsert-unapproved (record p { standing = rejected }) s.participants refl (rw here new) in
    rw row (record {
      seats = rw count h.seats;
      paid_in = rw sum h.paid_in;
      room = h.room;
      pool = h.pool;
    })

reviewed-new :
    (approves : Bool) (reviewer now : ℕ) (m : MesaRow) (o : Option Participant)
    → assert_may_review approves reviewer now m o ≡ ok tt
    → is_admitted o ≡ false
unfolding assert_may_review
reviewed-new approves reviewer now m none h = refl
reviewed-new approves reviewer now m (some p) h = ground arith

module _ (others_db : Db → Db) (ranking now : ℕ) where
  review_found-HasBooks :
      (approves : Bool) (m : MesaRow) (u : ℕ) (o : Option Participant) (s t : Lobby)
      → s.mesa ≡ some m
      → IsCoherent m s.participants
      → find_participant u s.participants ≡ o
      → is_admitted o ≡ false
      → review_found (λ s. s) others_db approves ranking now m u o s ≡ ok (tt, t)
      → HasBooks t.mesa t.participants
  review_found-HasBooks false m u o s t row h q new e =
      let e' : ◌≡◌ {A = Result (Unit {0} × Lobby)} (ok (tt, reject_row o s)) (ok (tt, t)) = e in
      let same : t ≡ reject_row o s = ground arith in
      rw same (rejected-HasBooks u m o s row h q new)
  review_found-HasBooks true m u o s t row h q new e = elim (Bool-cases (unpaid o)) [
    | inl c ↦ admit-HasBooks others_db ranking now m u s t row h (rw q new) (rw c at e)
    | inr c ↦ absurd_of (rw c at e)
  ]
    where
      absurd_of :
          ◌≡◌ {A = Result (Unit {0} × Lobby)} (err (failure access_already_debited)) (ok (tt, t))
          → HasBooks t.mesa t.participants
      absurd_of k = cc

  pub review_mesa-HasBooks :
      (approves : Bool) (reviewer u : ℕ) (o : Option MesaRow) (s t : Lobby)
      → s.mesa ≡ o
      → HasBooks o s.participants
      → review_mesa (λ s. s) others_db approves ranking reviewer now u o s ≡ ok (tt, t)
      → HasBooks t.mesa t.participants
  review_mesa-HasBooks approves reviewer u none s t row h e = cc
  review_mesa-HasBooks approves reviewer u (some m) s t row h e =
      go (assert_may_review approves reviewer now m (find_participant u s.participants)) refl e
    where
      go :
          (r : Result (Unit {0}))
          → assert_may_review approves reviewer now m (find_participant u s.participants) ≡ r
          → checked
              (λ s. s)
              others_db
              r
              (λ s.
                review_found
                  (λ s. s)
                  others_db
                  approves
                  ranking
                  now
                  m
                  u
                  (find_participant u s.participants)
                  s)
              s
            ≡ ok (tt, t)
          → HasBooks t.mesa t.participants
      go (err x) q k = cc
      go (ok _) q k =
          review_found-HasBooks approves m u (find_participant u s.participants) s t row h refl
            (reviewed-new approves reviewer now m (find_participant u s.participants) q) k

  reserved-HasBooks :
      (pro : Result (Unit {0})) (u : ℕ) (o : Option ℕ × Invite) (s t : Lobby)
      → HasBooks s.mesa s.participants
      → with_reservation o (join_and_log (λ s. s) others_db ranking now pro u) s ≡ ok (tt, t)
      → HasBooks t.mesa t.participants
  reserved-HasBooks pro u (none, i) s t h e = cc
  reserved-HasBooks pro u (some used, i) s t h e =
      let (_, v, join, last) =
        >>=-eq-ok (join_bolao (λ s. s) others_db false ranking now pro u)
          (λ _ t. ok (tt, record t { log = invite_used u ∷ t.log })) (record s { invite = some i })
          e in
      let h' =
        join_bolao-HasBooks others_db false ranking now pro u (record s { invite = some i }) v h
          join in
      let row : t.mesa ≡ v.mesa = ground arith in
      let rows : t.participants ≡ v.participants = ground arith in rw (row, rows) h'

  reserve-HasBooks :
      (pro : Result (Unit {0})) (u : ℕ) (o : Option Invite) (s t : Lobby)
      → HasBooks s.mesa s.participants
      → reserve now o (join_and_log (λ s. s) others_db ranking now pro u) s ≡ ok (tt, t)
      → HasBooks t.mesa t.participants
  reserve-HasBooks pro u none s t h e = cc
  reserve-HasBooks pro u (some i) s t h e =
      reserved-HasBooks pro u (reserve_bolao_invite_use now i) s t h e

  usable-HasBooks :
      (pro : Result (Unit {0})) (u : ℕ) (r : Result (Unit {0})) (s t : Lobby)
      → HasBooks s.mesa s.participants
      → checked
          (λ s. s)
          others_db
          r
          (λ s. reserve now s.invite (join_and_log (λ s. s) others_db ranking now pro u) s)
          s
        ≡ ok (tt, t)
      → HasBooks t.mesa t.participants
  usable-HasBooks pro u (err x) s t h e = cc
  usable-HasBooks pro u (ok _) s t h e = reserve-HasBooks pro u s.invite s t h e

  pub with_invite-HasBooks :
      (pro : Result (Unit {0})) (u : ℕ) (o : Option Invite) (s t : Lobby)
      → HasBooks s.mesa s.participants
      → with_invite (λ s. s) others_db ranking now pro u o s ≡ ok (tt, t)
      → HasBooks t.mesa t.participants
  with_invite-HasBooks pro u none s t h e = cc
  with_invite-HasBooks pro u (some i) s t h e =
      elim (Bool-cases (participates (find_participant u s.participants))) [
        | inl c ↦
            let e' : ◌≡◌ {A = Result (Unit {0} × Lobby)}
                (ok (tt, record s { log = invite_reused u ∷ s.log })) (ok (tt, t)) =
              rw c at e in
            let row : t.mesa ≡ s.mesa = ground arith in
            let rows : t.participants ≡ s.participants = ground arith in rw (row, rows) h
        | inr c ↦ usable-HasBooks pro u (assert_usable now i) s t h (rw c at e)
      ]
