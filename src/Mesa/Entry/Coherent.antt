-- ===== src/Mesa/Entry/Coherent.antt =====
-- The books of a Mesa: its row says what its participants say (join-bolao.service.ts).
use boteco12_api.Prelude.{
  ℕ, suc, ◌+◌, ◌≡◌, refl, Bool, true, false, Option, none, some, List, [], ◌∷◌, ◌==◌, leb,
  if◌then◌else◌, arith, Bool-cases, inl, inr,
}
use boteco12_api.Errors.{ok}
use boteco12_api.Mesa.Entry.{
  MesaRow, Participant, by_capacity, find_participant, is_approved_standing,
}
use boteco12_api.Mesa.Entry.Join.{close_if_full, upsert_participant, sponsor_part}

-- The approved participants, and what they paid
abbrev pub approved_count : List Participant → ℕ
approved_count [] = 0
approved_count (p ∷ ps) =
    if is_approved_standing p.standing then suc (approved_count ps) else approved_count ps

abbrev pub fees : List Participant → ℕ
fees [] = 0
fees (p ∷ ps) = if is_approved_standing p.standing then fees ps + p.entry_fee_paid else fees ps

abbrev pub within_seats : ℕ → Option ℕ → Bool
within_seats k none = true
within_seats k (some n) = leb k n

abbrev pub fits : MesaRow → Bool
fits r = if by_capacity r then within_seats r.current_participants r.max_participants else true

-- The seats are the approved participants, the money collected is what they paid, a Mesa that closes
-- by its capacity is within it, and the fee and the pool share what was collected and the sponsor's
-- part.
pub record IsCoherent (r : MesaRow) (ps : List Participant) : Type 0 where
  pub seats : r.current_participants ≡ approved_count ps
  pub paid_in : r.gross_collected ≡ fees ps
  pub room : fits r ≡ true
  pub pool : r.platform_fee + r.prize_pool ≡ r.gross_collected + sponsor_part r

abbrev pub is_admitted : Option Participant → Bool
is_admitted none = false
is_admitted (some p) = is_approved_standing p.standing

pub upsert-count :
    (p : Participant) (ps : List Participant)
    → is_approved_standing p.standing ≡ true
    → is_admitted (find_participant p.user ps) ≡ false
    → approved_count (upsert_participant p ps) ≡ suc (approved_count ps)
upsert-count p [] a h = rw a refl
upsert-count p (q ∷ qs) a h = elim (Bool-cases (q.user == p.user)) [
  | inl e ↦ ground arith
  | inr e ↦ ground (arith, upsert-count p qs a)
]

pub upsert-fees :
    (p : Participant) (ps : List Participant)
    → is_approved_standing p.standing ≡ true
    → is_admitted (find_participant p.user ps) ≡ false
    → fees (upsert_participant p ps) ≡ fees ps + p.entry_fee_paid
upsert-fees p [] a h = rw a refl
upsert-fees p (q ∷ qs) a h = elim (Bool-cases (q.user == p.user)) [
  | inl e ↦ ground arith
  | inr e ↦ ground (arith, upsert-fees p qs a)
]

-- The row apart from what the close of the registrations writes
abbrev pub same_but_closing : MesaRow → MesaRow → MesaRow
same_but_closing x y = record y {
  registration_closed_at = x.registration_closed_at;
  reference_round = x.reference_round;
  initialization = x.initialization;
  captured_at = x.captured_at;
}

pub close_if_full-same :
    (now n : ℕ) (o : Option ℕ) (y : MesaRow) {x : MesaRow}
    → close_if_full now n o y ≡ ok x
    → x ≡ same_but_closing x y
close_if_full-same now n none y h = ground arith
close_if_full-same now n (some k) y h = ground arith
