-- ===== src/Benefit/Accounting.antt =====
-- What a consumption of benefits (consume-benefits.service.ts) takes, and when it is refused.
use boteco12_api.Prelude.{
  ℕ, ◌+◌, ◌-◌, ◌≤◌, ◌<◌, ◌≡◌, ◌≢◌, ◌∙◌, refl, ap, min, ltb, arith, Bool-cases, ◌⊎◌, inl, inr,
}
use boteco12_api.Errors.{Error, ok, err, bad_request, insufficient_benefit_balance}
use boteco12_api.Transaction.{Result-cases, >>=-eq-ok}
use boteco12_api.Db.{Db, BetType, none_type}
use boteco12_api.Benefit.Consume.{
  Consumption, free_or_zero, quantity_or_zero, consume_free, consume_rest, consume,
}

-- What a user can use of a type in a round.
abbrev pub free_of : Db → ℕ → ℕ → BetType → ℕ
free_of db u r type = free_or_zero type (db.round_benefits u r)

abbrev pub inventory_of : Db → ℕ → BetType → ℕ
inventory_of db u type = quantity_or_zero (db.inventory u type)

consume_free-le :
    (f g : Db → Db) (u r : ℕ) (type : BetType) (q : ℕ) (db : Db) {n : ℕ} {db' : Db}
    → consume_free f g u r type q db ≡ ok (n, db')
    → n ≤ q
unfolding consume_free
consume_free-le f g u r type q db e = ground arith

consume_rest-sum :
    (f g : Db → Db) (u r : ℕ) (type : BetType) (q n : ℕ) (db : Db) {c : Consumption} {db' : Db}
    → n ≤ q
    → consume_rest f g u r type q n db ≡ ok (c, db')
    → c.free_used + c.inventory_used ≡ q
unfolding consume_rest
consume_rest-sum f g u r type q n db h e = ground arith

-- `now` is the database that was read, or what the others left of it.
abbrev pub IsOneOf : Db → Db → Db → Type 0
IsOneOf now read left = (now ≡ read) ⊎ (now ≡ left)

-- From `s` to `t`, the free benefits of the user fell by `n`, and only the benefits changed.
abbrev pub TookFree : ℕ → ℕ → BetType → ℕ → Db → Db → Type 0
TookFree u r type n s t =
    (n + free_of t u r type ≡ free_of s u r type)
    × (t ≡ record s { round_benefits = t.round_benefits })

abbrev pub TookBought : ℕ → BetType → ℕ → Db → Db → Type 0
TookBought u type n s t =
    (n + inventory_of t u type ≡ inventory_of s u type) × (t ≡ record s { inventory = t.inventory })

consume_free-took :
    (f g : Db → Db) (u r : ℕ) (type : BetType) (q : ℕ) (db : Db) {n : ℕ} {mid : Db}
    → consume_free f g u r type q db ≡ ok (n, mid)
    → (s : Db) × IsOneOf s db (f db) × TookFree u r type n s mid
unfolding consume_free
consume_free-took f g u r none_type q db e = (db, inl refl, (ground arith, ground arith))
consume_free-took f g u r type q db e = elim (Bool-cases (ltb 0 (free_of db u r type))) [
  | inl a ↦ (f db, inr refl, (ground arith, ground arith))
  | inr a ↦ (db, inl refl, (ground arith, ground arith))
]

consume_rest-took :
    (f g : Db → Db) (u r : ℕ) (type : BetType) (q n : ℕ) (db : Db) {c : Consumption} {db' : Db}
    → consume_rest f g u r type q n db ≡ ok (c, db')
    → (c.free_used ≡ n)
      × ((s : Db) × IsOneOf s db (g db) × TookBought u type c.inventory_used s db')
unfolding consume_rest
consume_rest-took f g u r type q n db e = elim (Bool-cases (ltb 0 (q - n))) [
  | inl a ↦ (ground arith, (g db, inr refl, (ground arith, ground arith)))
  | inr a ↦ (ground arith, (db, inl refl, (ground arith, ground arith)))
]

pub consume-sum :
    (f g : Db → Db) (u r : ℕ) (type : BetType) (q : ℕ) (db : Db) {c : Consumption} {db' : Db}
    → consume f g u r type q db ≡ ok (c, db')
    → (s m v : Db) × IsOneOf s db (f db)
      × TookFree u r type c.free_used s m
      × IsOneOf v m (g m)
      × TookBought u type c.inventory_used v db'
      × (c.free_used + c.inventory_used ≡ q)
unfolding consume
consume-sum f g u r type q db {c = c} e =
    let (n, m, first, rest) =
      >>=-eq-ok (consume_free f g u r type q) (λ n. consume_rest f g u r type q n) db e in
    let (s, from, (less, only)) = consume_free-took f g u r type q db first in
    let (is_n, (v, from', bought)) = consume_rest-took f g u r type q n m rest in
    (
      s,
      m,
      v,
      from,
      (rw is_n less, only),
      from',
      bought,
      consume_rest-sum f g u r type q n m (consume_free-le f g u r type q db first) rest,
    )

abbrev pub quiet : Db → Db
quiet s = s

-- With nobody else at work, the first part takes what there is, up to the quantity.
consume_free-alone :
    (u r : ℕ) (type : BetType) (q : ℕ) (db : Db) {n : ℕ} {mid : Db}
    → consume_free quiet quiet u r type q db ≡ ok (n, mid)
    → (n ≡ min (free_of db u r type) q)
      × (n + free_of mid u r type ≡ free_of db u r type)
      × (inventory_of mid u type ≡ inventory_of db u type)
unfolding consume_free
consume_free-alone u r none_type q db e = ground arith
consume_free-alone u r type q db e = ground arith

consume_free-ne-err :
    (u r : ℕ) (type : BetType) (q : ℕ) (db : Db) (x : Error)
    → consume_free quiet quiet u r type q db ≢ err x
unfolding consume_free
consume_free-ne-err u r type q db x e = ground arith

consume_rest-alone :
    (u r : ℕ) (type : BetType) (q n : ℕ) (db : Db) {c : Consumption} {db' : Db}
    → consume_rest quiet quiet u r type q n db ≡ ok (c, db')
    → (c.free_used ≡ n)
      × (c.inventory_used + inventory_of db' u type ≡ inventory_of db u type)
      × (free_of db' u r type ≡ free_of db u r type)
unfolding consume_rest
consume_rest-alone u r none_type q n db e = ground arith
consume_rest-alone u r type q n db e = ground arith

consume_rest-refused :
    (u r : ℕ) (type : BetType) (q n : ℕ) (db : Db)
    → n ≤ q
    → n + inventory_of db u type < q
    → consume_rest quiet quiet u r type q n db
      ≡ err (bad_request (insufficient_benefit_balance q (q - n - inventory_of db u type)))
unfolding consume_rest
consume_rest-refused u r type q n db h k = ground arith

consume_rest-ne-err :
    (u r : ℕ) (type : BetType) (q n : ℕ) (db : Db) (x : Error)
    → q ≤ n + inventory_of db u type
    → consume_rest quiet quiet u r type q n db ≢ err x
unfolding consume_rest
consume_rest-ne-err u r type q n db x h e = ground arith

-- With nobody else at work, a consumption that succeeds uses the free benefits of the round first
-- and takes only the rest from the inventory, and both counters fall by just what it reports.
pub consume_takes_free_first :
    (u r : ℕ) (type : BetType) (q : ℕ) (db : Db) {c : Consumption} {db' : Db}
    → consume quiet quiet u r type q db ≡ ok (c, db')
    → (c.free_used ≡ min (free_of db u r type) q)
      × (c.free_used + free_of db' u r type ≡ free_of db u r type)
      × (c.inventory_used + inventory_of db' u type ≡ inventory_of db u type)
unfolding consume
consume_takes_free_first u r type q db e =
    let (n, mid, first, rest) =
      >>=-eq-ok (consume_free quiet quiet u r type q) (λ n. consume_rest quiet quiet u r type q n)
        db e in
    let (n_is, free_falls, inventory_stays) = consume_free-alone u r type q db first in
    let (free_is, inventory_falls, free_stays) = consume_rest-alone u r type q n mid rest in
    (omega arith, omega arith, omega arith)

-- With nobody else at work, a consumption succeeds if the free benefits and the inventory together
-- cover the quantity, and otherwise is refused with the number that is missing.
consume_outcome :
    (u r : ℕ) (type : BetType) (q : ℕ) (db : Db)
    → let demand = free_of db u r type + inventory_of db u type in
      (q ≤ demand
        → (c : Consumption) × (db' : Db) × (consume quiet quiet u r type q db ≡ ok (c, db')))
      × (demand < q
          → consume quiet quiet u r type q db
            ≡ err (bad_request (insufficient_benefit_balance q (q - demand))))
unfolding consume
consume_outcome u r type q db = elim (Result-cases (consume_free quiet quiet u r type q db)) [
  | inl (x, e) ↦ absurd (consume_free-ne-err u r type q db x e)
  | inr (n, mid, e) ↦
      let (n_is, free_falls, inventory_stays) = consume_free-alone u r type q db e in
      (
        λ h. elim (Result-cases (consume_rest quiet quiet u r type q n mid)) [
          | inl (x, f) ↦ absurd (consume_rest-ne-err u r type q n mid x (omega arith) f)
          | inr (c, db', f) ↦ (c, db', rw e f)
        ],
        λ h. rw e (
            consume_rest-refused u r type q n mid (omega arith) (omega arith)
            ∙ ap (λ k. err (bad_request (insufficient_benefit_balance q k))) (omega arith)),
      )
]

-- With nobody else at work, a consumption succeeds if the free benefits and the inventory together
-- cover the quantity.
pub consume_covered :
    (u r : ℕ) (type : BetType) (q : ℕ) (db : Db)
    → q ≤ free_of db u r type + inventory_of db u type
    → (c : Consumption) × (db' : Db) × (consume quiet quiet u r type q db ≡ ok (c, db'))
consume_covered u r type q db h = (consume_outcome u r type q db).0 h

-- With nobody else at work, a consumption of more than the free benefits and the inventory together
-- is refused, with the number that is missing.
pub consume_missing :
    (u r : ℕ) (type : BetType) (q : ℕ) (db : Db)
    → free_of db u r type + inventory_of db u type < q
    → consume quiet quiet u r type q db
      ≡ err (
          bad_request
            (insufficient_benefit_balance q (q - (free_of db u r type + inventory_of db u type))))
consume_missing u r type q db h = (consume_outcome u r type q db).1 h
