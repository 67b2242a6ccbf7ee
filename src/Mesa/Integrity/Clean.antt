-- ===== src/Mesa/Integrity/Clean.antt =====
-- What a Mesa without issues says, and when another row has none (mesa-integrity.service.ts).
use boteco12_api.Prelude.{
  ℕ, suc, ◌+◌, ◌≡◌, refl, Bool, true, false, not, ◌&&◌, ◌||◌, Option, none, some, List, [], ◌∷◌,
  ◌==◌, if◌then◌else◌, arith, Bool-cases, inl, inr,
}
use boteco12_api.Mesa.Terms.{or_else, is_paid, is_free, is_sponsored, category_of}
use boteco12_api.Mesa.Prize.{Json}
use boteco12_api.Mesa.Entry.{
  MesaRow, Initialization, Participant, cost_of, has_paid_entry, is_approved_standing,
  find_participant,
}
use boteco12_api.Mesa.Entry.Join.{upsert_participant}
use boteco12_api.Mesa.Entry.Coherent.{within_seats, is_admitted}
use boteco12_api.Mesa.Integrity.{
  Issue, report, is_paid_row, is_sponsored_row, is_free_row, exceeds, mismatches, has_paid_all,
  approved_length, any_unpaid, expected_gross, expected_totals, inspect,
}

-- A report that is empty found nothing.
nothing : (b : Bool) (i : Issue) {x : List Issue} → report b i x ≡ [] → (b ≡ false) × (x ≡ [])
unfolding report
nothing true i h = cc
nothing false i h = (refl, h)

quiet : (i : Issue) {x : List Issue} → x ≡ [] → report false i x ≡ []
unfolding report
quiet i h = h

pub upsert-approved_length :
    (p : Participant) (ps : List Participant)
    → is_approved_standing p.standing ≡ true
    → is_admitted (find_participant p.user ps) ≡ false
    → approved_length (upsert_participant p ps) ≡ suc (approved_length ps)
upsert-approved_length p [] a h = rw a refl
upsert-approved_length p (q ∷ qs) a h = elim (Bool-cases (q.user == p.user)) [
  | inl e ↦ ground arith
  | inr e ↦ ground (arith, upsert-approved_length p qs a)
]

pub upsert-any_unpaid :
    (cost : ℕ) (p : Participant) (ps : List Participant)
    → has_paid_all cost p ≡ true
    → any_unpaid cost ps ≡ false
    → any_unpaid cost (upsert_participant p ps) ≡ false
upsert-any_unpaid cost p [] a h = ground arith
upsert-any_unpaid cost p (q ∷ qs) a h = elim (Bool-cases (q.user == p.user)) [
  | inl e ↦ ground arith
  | inr e ↦ ground (arith, upsert-any_unpaid cost p qs a)
]

pub upsert-expected_gross :
    (cost : ℕ) (p : Participant) (ps : List Participant)
    → is_approved_standing p.standing ≡ true
    → has_paid_all cost p ≡ true
    → is_admitted (find_participant p.user ps) ≡ false
    → expected_gross cost (upsert_participant p ps) ≡ expected_gross cost ps + p.entry_fee_paid
upsert-expected_gross cost p [] a b h = rw (a, b) (omega arith)
upsert-expected_gross cost p (q ∷ qs) a b h = elim (Bool-cases (q.user == p.user)) [
  | inl e ↦ ground arith
  | inr e ↦ ground (arith, upsert-expected_gross cost p qs a b)
]

same-not : {a b : ℕ} → a ≡ b → not (a == b) ≡ false
same-not h = ground arith

-- A row with other seats and other money
module _ (r : MesaRow) (k g f p : ℕ) (q closed_at round captured : Option ℕ)
    (i : Option Initialization) where
  abbrev next_row : MesaRow
  next_row = record r {
    current_participants = k;
    gross_collected = g;
    platform_fee = f;
    prize_pool = p;
    reward_pool = q;
    registration_closed_at = closed_at;
    reference_round = round;
    captured_at = captured;
    initialization = i;
  }

  pub clean_next :
      (described : Bool) (distribution : Json) (ps ps' : List Participant)
      → inspect described distribution r ps ≡ []
      → k ≡ approved_length ps'
      → exceeds k r.max_participants ≡ false
      → mismatches q p ≡ false
      → has_paid_entry r && any_unpaid (cost_of r) ps' ≡ false
      → g ≡ (if has_paid_entry r then expected_gross (cost_of r) ps' else 0)
      → f ≡ (expected_totals (record r { gross_collected = g })).platform_fee
      → or_else q p ≡ (expected_totals (record r { gross_collected = g })).prize_pool
      → inspect described distribution next_row ps' ≡ []
  unfolding inspect
  clean_next described distribution ps ps' h count room pools unpaid gross fee pool =
      let (a, h) = nothing _ _ h in
      let (b, h) = nothing _ _ h in
      let (c, h) = nothing _ _ h in
      let (d, h) = nothing _ _ h in
      let (e, h) = nothing _ _ h in
      let (l, h) = nothing _ _ h in
      let (_, h) = nothing _ _ h in
      let (_, h) = nothing _ _ h in
      let (m, h) = nothing _ _ h in
      let (_, h) = nothing _ _ h in
      let (n, h) = nothing _ _ h in
      let (o, h) = nothing _ _ h in
      rw
        (
          a,
          b,
          c,
          d,
          e,
          l,
          same-not count,
          room,
          m,
          pools,
          n,
          o,
          unpaid,
          same-not gross,
          same-not fee,
          same-not pool,
        )
        (quiet _ (
          quiet _ (
            quiet _ (
              quiet _ (
                quiet _ (
                  quiet _ (
                    quiet _ (
                      quiet _ (
                        quiet _ (
                          quiet _ (quiet _ (quiet _ (quiet _ (quiet _ (quiet _ (refl))))))))))))))))

not-same : {a b : ℕ} → not (a == b) ≡ false → a ≡ b
not-same h = ground arith

-- What a Mesa without issues says
pub record IsClean (r : MesaRow) (ps : List Participant) : Type 0 where
  pub terms :
      not (is_paid_row r)
        && (not (is_sponsored_row r) && (not (cost_of r == 0) || not (r.sponsor_prize_pool == 0)))
      ≡ false
  pub seats : r.current_participants ≡ approved_length ps
  pub pools : mismatches r.reward_pool r.prize_pool ≡ false
  pub all_paid : has_paid_entry r && any_unpaid (cost_of r) ps ≡ false
  pub gross : r.gross_collected ≡ (if has_paid_entry r then expected_gross (cost_of r) ps else 0)
  pub fee : r.platform_fee ≡ (expected_totals r).platform_fee
  pub pool : or_else r.reward_pool r.prize_pool ≡ (expected_totals r).prize_pool

pub inspect-IsClean :
    (described : Bool) (distribution : Json) (r : MesaRow) (ps : List Participant)
    → inspect described distribution r ps ≡ []
    → IsClean r ps
unfolding inspect
inspect-IsClean described distribution r ps h =
    let (_, h) = nothing _ _ h in
    let (_, h) = nothing _ _ h in
    let (_, h) = nothing _ _ h in
    let (terms, h) = nothing _ _ h in
    let (_, h) = nothing _ _ h in
    let (_, h) = nothing _ _ h in
    let (seats, h) = nothing _ _ h in
    let (_, h) = nothing _ _ h in
    let (_, h) = nothing _ _ h in
    let (pools, h) = nothing _ _ h in
    let (_, h) = nothing _ _ h in
    let (_, h) = nothing _ _ h in
    let (unpaid, h) = nothing _ _ h in
    let (gross, h) = nothing _ _ h in
    let (totals, h) = nothing _ _ h in
    record {
      terms = terms;
      seats = not-same seats;
      pools = pools;
      all_paid = unpaid;
      gross = not-same gross;
      fee = ground arith;
      pool = ground arith;
    }

pub ==-same : (n : ℕ) → (n == n) ≡ true
==-same n = ground arith

pub room-exceeds : (k : ℕ) (max : Option ℕ) → within_seats k max ≡ true → exceeds k max ≡ false
room-exceeds k none h = refl
room-exceeds k (some n) h = ground arith

-- A category that costs something is paid or sponsored.
pub paid_entry-free :
    (r : MesaRow) (ps : List Participant)
    → IsClean r ps
    → has_paid_entry r ≡ true
    → is_sponsored_row r ≡ false
    → is_free_row r ≡ false
unfolding is_paid is_free is_sponsored category_of
paid_entry-free r ps h e s = ground (arith, h.terms)
