-- ===== src/Ticket/Charge.antt =====
-- What an accepted ticket costs (create-ticket.service.ts): a double for each multiplier 2, a super
-- double for each multiplier 4.
use boteco12_api.Prelude.{
  ℕ, zero, suc, ◌∙◌, ◌+◌, ◌≡◌, refl, false, List, [], ◌∷◌, ◌==◌, if◌then◌else◌, arith,
}
use boteco12_api.Prelude.Text.{Text}
use boteco12_api.Errors.{ok}
use boteco12_api.Transaction.{>>=-eq-ok}
use boteco12_api.Db.{Db, BetType, double, super_double, bet_eq, Ticket}
use boteco12_api.Prediction.{normalize_ticket_prediction}
use boteco12_api.Benefit.Consume.{Consumption, consume, consume_free, consume_rest}
use boteco12_api.Benefit.Accounting.{
  quiet, free_of, inventory_of, consume-sum, consume_takes_free_first,
}
use boteco12_api.Ticket.{count_benefits, consume_doubles, consume_supers, create_ticket}
use boteco12_api.Ticket.Acceptance.{
  consume_doubles-ok, consume_supers-ok, submit-ok, submit_choices-ok, create_ticket-ok,
}

abbrev count_of : ℕ → List ℕ → ℕ
count_of m [] = 0
count_of m (x ∷ xs) = if x == m then suc (count_of m xs) else count_of m xs

count_benefits-count_of :
    (ms : List ℕ) (x y : ℕ) {c : ℕ × ℕ}
    → count_benefits ms x y ≡ ok c
    → (c.0 ≡ x + count_of 2 ms) × (c.1 ≡ y + count_of 4 ms)
unfolding count_benefits
count_benefits-count_of [] x y e = ground arith
count_benefits-count_of (m ∷ ms) x y {c} e = ground (
  arith,
  count_benefits-count_of ms (if m == 2 then x + 1 else x) (if m == 4 then y + 1 else y) {c = c},
)

-- What a user can use of a type.
abbrev pub usable : Db → ℕ → ℕ → BetType → ℕ
usable db u r type = free_of db u r type + inventory_of db u type

-- A consumption of one type leaves the other alone.
consume_free-other :
    (u r : ℕ) (type other : BetType) (q : ℕ) (db : Db) {n : ℕ} {db' : Db}
    → bet_eq other type ≡ false
    → consume_free quiet quiet u r type q db ≡ ok (n, db')
    → usable db' u r other ≡ usable db u r other
unfolding consume_free
consume_free-other u r type other q db h e = ground arith

consume_rest-other :
    (u r : ℕ) (type other : BetType) (q n : ℕ) (db : Db) {c : Consumption} {db' : Db}
    → bet_eq other type ≡ false
    → consume_rest quiet quiet u r type q n db ≡ ok (c, db')
    → usable db' u r other ≡ usable db u r other
unfolding consume_rest
consume_rest-other u r type other q n db h e = ground arith

consume-usable :
    (u r : ℕ) (type other : BetType) (q : ℕ) (db : Db) {c : Consumption} {db' : Db}
    → bet_eq other type ≡ false
    → consume quiet quiet u r type q db ≡ ok (c, db')
    → (q + usable db' u r type ≡ usable db u r type) × (usable db' u r other ≡ usable db u r other)
unfolding consume
consume-usable u r type other q db h e =
    let (n, mid, first, rest) = >>=-eq-ok (consume_free quiet quiet u r type q) _ db e in
    let (_, free_falls, inventory_falls) = consume_takes_free_first u r type q db e in
    (
      omega (arith, consume-sum quiet quiet u r type q db e),
      consume_rest-other u r type other q n mid h rest
          ∙ consume_free-other u r type other q db h first,
    )

module _ (u r : ℕ) where
  consume_doubles-usable :
      (n : ℕ) (db : Db) {db' : Db}
      → consume_doubles quiet quiet quiet quiet u r n db ≡ ok (tt, db')
      → (n + usable db' u r double ≡ usable db u r double)
        × (usable db' u r super_double ≡ usable db u r super_double)
  unfolding consume_doubles
  consume_doubles-usable zero db e = ground arith
  consume_doubles-usable (suc n) db e =
      let (_, run) = consume_doubles-ok quiet quiet quiet quiet u r n db e in
      consume-usable u r double super_double (suc n) db refl run

  consume_supers-usable :
      (n : ℕ) (db : Db) {db' : Db}
      → consume_supers quiet quiet quiet quiet u r n db ≡ ok (tt, db')
      → (n + usable db' u r super_double ≡ usable db u r super_double)
        × (usable db' u r double ≡ usable db u r double)
  unfolding consume_supers
  consume_supers-usable zero db e = ground arith
  consume_supers-usable (suc n) db e =
      let (_, run) = consume_supers-ok quiet quiet quiet quiet u r n db e in
      consume-usable u r super_double double (suc n) db refl run

  -- With nobody else at work, an accepted ticket costs the user exactly one double for each
  -- multiplier 2 and one super double for each multiplier 4, free and bought ones together.
  pub create_ticket_charge :
      (now : ℕ) (prediction : Text) (ms : List ℕ) (db : Db) {t : Ticket} {db' : Db}
      → create_ticket quiet quiet quiet quiet u r now prediction ms db ≡ ok (t, db')
      → (count_of 2 ms + usable db' u r double ≡ usable db u r double)
        × (count_of 4 ms + usable db' u r super_double ≡ usable db u r super_double)
  create_ticket_charge now prediction ms db e =
      let (_, rest) = create_ticket-ok quiet quiet quiet quiet u r now prediction ms db e in
      let p = normalize_ticket_prediction prediction in
      let (c, _, counted, _, run) = submit_choices-ok quiet quiet quiet quiet u r p ms db rest in
      let (mid, last, first, second, _, _, same) =
        submit-ok quiet quiet quiet quiet u r p ms c db run in
      let (doubles, supers) = count_benefits-count_of ms 0 0 counted in
      let (d, ds) = consume_doubles-usable c.0 db first in
      let (s, sd) = consume_supers-usable c.1 mid second in rw same (omega arith, omega arith)
