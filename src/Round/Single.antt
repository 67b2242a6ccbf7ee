-- ===== src/Round/Single.antt =====
-- At most one round is OPEN (open-round.service.ts, close-round.service.ts).
use boteco12_api.Prelude.{
  ℕ, ◌≡◌, refl, sym, ap, subst, ◌∙◌, true, false, Option, some, none, List, [], ◌∷◌, Bool-cases,
  inl, inr, ◌⊎◌, ◌==◌, ==_iff, arith, any,
}
use boteco12_api.Errors.{Result, ok}
use boteco12_api.Transaction.{>>=-eq-ok}
use boteco12_api.Db.{Db, Round, open_status, closed, put}
use boteco12_api.Score.RoundScore.{update_status}
use boteco12_api.Benefit.Grant.{User, grant_round_benefits}
use boteco12_api.Ticket.{is_open}
use boteco12_api.Round.{
  Season, is_open_round, open_elsewhere, open_found, open_status_of, open_round, expire_benefits,
  close_found, close_round,
}

-- The keys of the rounds are listed, and no two rounds are OPEN.
pub record IsSingle (s : Season) : Type 0 where
  pub listed : (j : ℕ) {x : Round} → s.db.rounds j ≡ some x → any (λ i. i == j) s.round_ids ≡ true
  pub single :
      (j k : ℕ)
      → is_open_round (s.db.rounds j) ≡ true
      → is_open_round (s.db.rounds k) ≡ true
      → j ≡ k

-- No other round is OPEN if none is found.
open_elsewhere-none :
    (r j : ℕ) (ids : List ℕ) (db : Db)
    → open_elsewhere r ids db ≡ false
    → any (λ i. i == j) ids ≡ true
    → is_open_round (db.rounds j) ≡ true
    → j ≡ r
unfolding open_elsewhere
open_elsewhere-none r j [] db e h o = absurd (ground arith)
open_elsewhere-none r j (i ∷ ids) db e h o = elim (Bool-cases (i == j)) [
  | inl q ↦
      let same = (==_iff i j).0 q in
      let o' : is_open_round (db.rounds i) ≡ true =
        ap (λ k. is_open_round (db.rounds k)) same ∙ o in
      let here : (i == r) ≡ true = ground arith in sym same ∙ (==_iff i r).0 here
  | inr q ↦ open_elsewhere-none r j ids db (ground arith) (ground arith) o
]

pub grant-rounds :
    (now r : ℕ) (users : List User) (db : Db)
    → (grant_round_benefits now r users db).rounds ≡ db.rounds
unfolding grant_round_benefits
grant-rounds now r [] db = refl
grant-rounds now r (u ∷ us) db = grant-rounds now r us _

is_open_round-some : (o : Option Round) → is_open_round o ≡ true → (x : Round) × (o ≡ some x)
is_open_round-some none h = cc
is_open_round-some (some x) h = (x, refl)

-- What a successful opening did: nothing, or it made the round OPEN while no other was.
pub open_found-ok :
    (r : ℕ) (o : Option Round) (s t : Season)
    → s.db.rounds r ≡ o
    → open_found r o s ≡ ok (tt, t)
    → (t ≡ s)
      ⊎ ((x : Round) × (o ≡ some x)
          × (open_elsewhere r s.round_ids s.db ≡ false)
          × (t.round_ids ≡ s.round_ids)
          × (t.db.rounds ≡ put r (some (record x { status = open_status })) s.db.rounds))
unfolding update_status
open_found-ok r none s t q e = cc
open_found-ok r (some x) s t q e = elim (Bool-cases (is_open x.status)) [
  | inl a ↦ inl (ground arith)
  | inr a ↦ inr (x, refl, ground arith, ground arith, ground arith)
]

pub after_ok :
    (s t : Season) → ◌≡◌ {A = Result (Unit {0} × Season)} (ok (tt, s)) (ok (tt, t)) → s ≡ t
after_ok s t e = ground arith

granted-IsSingle :
    (r now : ℕ) (users : List User) (s : Season)
    → IsSingle s
    → IsSingle (record s { db = grant_round_benefits now r users s.db })
granted-IsSingle r now users s h = record {
  listed = λ j {x = y} e. h.listed j (rw (grant-rounds now r users s.db) at e);
  single = λ j k a b.
      h.single j k (rw (grant-rounds now r users s.db) at a)
        (rw (grant-rounds now r users s.db) at b);
}

-- What a successful closing did to the rounds.
pub close_found-ok :
    (r : ℕ) (o : Option Round) (db db' : Db)
    → db.rounds r ≡ o
    → close_found r o db ≡ ok (tt, db')
    → (x : Round) × (o ≡ some x)
      × (db'.rounds ≡ put r (some (record x { status = closed })) db.rounds)
unfolding update_status expire_benefits
close_found-ok r none db db' q e = cc
close_found-ok r (some x) db db' q e = (x, refl, ground arith)

module _ (r : ℕ) (s : Season) (h : IsSingle s) where
  opened-IsSingle :
      (x : Round) (t : Season)
      → s.db.rounds r ≡ some x
      → open_elsewhere r s.round_ids s.db ≡ false
      → t.round_ids ≡ s.round_ids
      → t.db.rounds ≡ put r (some (record x { status = open_status })) s.db.rounds
      → IsSingle t
  opened-IsSingle x t found other ids rows = record {
    listed = λ j {x = y} e. rw ids (listed_before j (rw rows at e));
    single = λ j k a b. only j (rw rows at a) ∙ sym (only k (rw rows at b));
  }
    where
      listed_before :
          (j : ℕ) {y : Round}
          → put r (some (record x { status = open_status })) s.db.rounds j ≡ some y
          → any (λ i. i == j) s.round_ids ≡ true
      listed_before j {y} e = elim (Bool-cases (j == r)) [
        | inl q ↦ h.listed j (ap s.db.rounds ((==_iff j r).0 q) ∙ found)
        | inr q ↦ h.listed j (rw q at e)
      ]

      only :
          (j : ℕ)
          → is_open_round (put r (some (record x { status = open_status })) s.db.rounds j) ≡ true
          → j ≡ r
      only j a = elim (Bool-cases (j == r)) [
        | inl q ↦ (==_iff j r).0 q
        | inr q ↦
            let a' : is_open_round (s.db.rounds j) ≡ true = rw q at a in
            let (y, e) = is_open_round-some (s.db.rounds j) a' in
            open_elsewhere-none r j s.round_ids s.db other (h.listed j e) a'
      ]

  open_status_of-IsSingle : (t : Season) → open_status_of r s ≡ ok (tt, t) → IsSingle t
  unfolding open_status_of
  open_status_of-IsSingle t e = elim (open_found-ok r (s.db.rounds r) s t refl e) [
    | inl same ↦ subst IsSingle (sym same) h
    | inr (x, found, other, ids, rows) ↦ opened-IsSingle x t found other ids rows
  ]

  -- Opening a round, with its grants, when at most one round was OPEN leaves at most one round OPEN.
  open_round-IsSingle :
      (now : ℕ) (users : List User) (t : Season)
      → open_round now r users s ≡ ok (tt, t)
      → IsSingle t
  unfolding open_round
  open_round-IsSingle now users t e =
      let (_, mid, first, rest) =
        >>=-eq-ok (open_status_of r)
          (λ _ u. ok (tt, record u { db = grant_round_benefits now r users u.db })) s e in
      subst IsSingle (after_ok _ t rest)
        (granted-IsSingle r now users mid (open_status_of-IsSingle mid first))

  -- Closing a round when at most one round was OPEN leaves at most one round OPEN.
  close_round-IsSingle :
      (db : Db) → close_round r s.db ≡ ok (tt, db) → IsSingle (record s { db = db })
  unfolding close_round
  close_round-IsSingle db e =
      let (x, found, rows) = close_found-ok r (s.db.rounds r) s.db db refl e in
      record {
        listed = λ j {x = y} q. elim (Bool-cases (j == r)) [
          | inl p ↦ h.listed j (ap s.db.rounds ((==_iff j r).0 p) ∙ found)
          | inr p ↦ h.listed j (rw p at (rw rows at q))
        ];
        single = λ j k a b. h.single j k (still j r x (rw rows at a)) (still k r x (rw rows at b));
      }
    where
      still :
          (j r : ℕ) (x : Round)
          → is_open_round (put r (some (record x { status = closed })) s.db.rounds j) ≡ true
          → is_open_round (s.db.rounds j) ≡ true
      still j r x a = elim (Bool-cases (j == r)) [
        | inl p ↦ absurd (ground arith)
        | inr p ↦ rw p at a
      ]

-- The rounds are opened and closed, in any order and with any users and times; a call that throws
-- changes nothing.
pub data Reaches : Season → Season → Type 0 where
  here : {s : Season} → Reaches s s
  opens :
      {s t u : Season} (now r : ℕ) (users : List User)
      → Reaches s t
      → open_round now r users t ≡ ok (tt, u)
      → Reaches s u
  closes :
      {s t : Season} (r : ℕ) (db : Db)
      → Reaches s t
      → close_round r t.db ≡ ok (tt, db)
      → Reaches s (record t { db = db })

-- From a table in which at most one round is OPEN, no sequence of openings and closings leads to one
-- in which two are.
pub one_open_round : {s t : Season} → Reaches s t → IsSingle s → IsSingle t
one_open_round here h = h
one_open_round (opens {s} {t} {u} now r users before e) h =
    open_round-IsSingle r t (one_open_round before h) now users u e
one_open_round (closes {s} {t} r db before e) h =
    close_round-IsSingle r t (one_open_round before h) db e
