-- ===== src/Mesa/Entry/Join.antt =====
-- src/services/bolao/join-bolao.service.ts, from the baseline of the score to the totals, with
-- `getScoreTotalBefore` of src/services/ranking/ranking-window-score.service.ts.
use boteco12_api.Prelude.{
  ℕ, suc, ◌+◌, Bool, true, false, ◌&&◌, Option, none, some, List, [], ◌∷◌, ◌==◌, ltb, leb,
  if◌then◌else◌,
}
use boteco12_api.Prelude.Int.{ℤ, pos}
use boteco12_api.Errors.{
  Result, ok, err, failure, mesa_full, mesa_not_found, no_open_round, database, unique_violation,
  record_not_found,
}
use boteco12_api.Transaction.{Tx, continue}
use boteco12_api.Db.{Db, Round, ScoreHistory}
use boteco12_api.Wallet.{debit_entry}
use boteco12_api.Mesa.Terms.{is_sponsored}
use boteco12_api.Mesa.Registration.{baseline_at}
use boteco12_api.Mesa.Prize.{calculate_pool}
use boteco12_api.Mesa.Entry.{
  MesaRow, Participant, Lobby, terms_of, cost_of, has_paid_entry, by_capacity, find_participant,
  assert_may_join, approved, waiting_for_reference_round, join_approved,
}

-- The close date of the round of a history, if it has one before this date
abbrev closed_before : ℕ → Option Round → Option ℕ
closed_before before none = none
closed_before before (some r) = elim r.close_at [
  | none ↦ none
  | some t ↦ if ltb t before then some t else none
]

abbrev newer_of : Option ℕ → ℤ → Option (ℕ × ℤ) → Option (ℕ × ℤ)
newer_of none total rest = rest
newer_of (some t) total none = some (t, total)
newer_of (some t) total (some (d, best)) = if leb d t then some (t, total) else some (d, best)

-- The history of the user in the round that closed last before this date; of histories of rounds
-- that closed together the newest, which comes first.
abbrev latest_before : ℕ → ℕ → (ℕ → Option Round) → List ScoreHistory → Option (ℕ × ℤ)
latest_before u before rounds [] = none
latest_before u before rounds (h ∷ hs) =
    let rest = latest_before u before rounds hs in
    if h.user == u
    then newer_of (closed_before before (rounds h.round)) h.score_total rest
    else rest

abbrev total_or_zero : Option (ℕ × ℤ) → ℤ
total_or_zero none = pos 0
total_or_zero (some (t, total)) = total

-- `RankingWindowScoreService.getScoreTotalBefore`
unfoldable pub get_score_total_before : ℕ → ℕ → Db → ℤ
get_score_total_before u before db = total_or_zero (latest_before u before db.rounds db.histories)

abbrev pub with_wallets : Lobby → Result (Unit {0} × Db) → Result (Unit {0} × Lobby)
with_wallets s (err e) = err e
with_wallets s (ok (_, db)) = ok (tt, record s { db = db })

-- One seat more, and what was paid for it
abbrev pub seated : MesaRow → MesaRow → MesaRow
seated m r = record r {
  current_participants = suc r.current_participants;
  gross_collected = if has_paid_entry m then r.gross_collected + cost_of m else r.gross_collected;
}

abbrev is_null : Option ℕ → Bool
is_null none = true
is_null (some n) = false

-- The last seat closes the registrations, with the OPEN round as the reference.
abbrev pub close_if_full : ℕ → ℕ → Option ℕ → MesaRow → Result MesaRow
close_if_full now n open_round_id r =
    if r.current_participants == n && is_null r.registration_closed_at
    then elim open_round_id [
      | none ↦ err (failure no_open_round)
      | some round ↦
          if is_null r.reference_round
          then ok (record r {
            registration_closed_at = some now;
            reference_round = some round;
            initialization = some waiting_for_reference_round;
            captured_at = none;
          })
          else ok r
    ]
    else ok r

abbrev pub put_mesa : Lobby → Result MesaRow → Result (Unit {0} × Lobby)
put_mesa s (err e) = err e
put_mesa s (ok r) = ok (tt, record s { mesa = some r })

-- The guarded `updateMany` of the seats on the row as it is now, and what follows it
abbrev pub reserve_seat : ℕ → MesaRow → Option ℕ → Option MesaRow → Tx Lobby (Unit {0})
reserve_seat now m none r s = err (failure mesa_full)
reserve_seat now m (some n) none s = err (failure mesa_full)
reserve_seat now m (some n) (some r) s =
    if ltb r.current_participants n
    then put_mesa s (close_if_full now n s.open_round_id (seated m r))
    else err (failure mesa_full)

abbrev pub upsert_participant : Participant → List Participant → List Participant
upsert_participant p [] = p ∷ []
upsert_participant p (q ∷ qs) =
    let rest = upsert_participant p qs in if q.user == p.user then p ∷ qs else q ∷ rest

abbrev pub approved_participant : ℕ → Bool → ℕ → ℕ → ℤ → Participant
approved_participant now pays cost u initial = record {
  user = u;
  standing = approved;
  score_initial = initial;
  entry_fee_paid = if pays then cost else 0;
  entry_paid_at = if pays then some now else none;
}

abbrev pub write_participant : Participant → Lobby → Lobby
write_participant p s = record s {
  participants = upsert_participant p s.participants;
  log = join_approved p.user ∷ s.log;
}

-- The totals of a Mesa with this sponsor's part
abbrev pub with_pool : ℕ → MesaRow → MesaRow
with_pool sponsor r =
    let totals = calculate_pool r.gross_collected in
    record r {
      platform_fee = totals.platform_fee;
      prize_pool = totals.prize_pool + sponsor;
      reward_pool = some (totals.prize_pool + sponsor);
    }

abbrev pub sponsor_part : MesaRow → ℕ
sponsor_part m = if is_sponsored (terms_of m) then m.sponsor_prize_pool else 0

abbrev pub update_mesa : (MesaRow → MesaRow) → Lobby → Lobby
update_mesa f s = record s { mesa = elim s.mesa [ none ↦ none | some r ↦ some (f r) ] }

abbrev pub write_totals : MesaRow → MesaRow → MesaRow
write_totals m r =
    let r' = if by_capacity m then r else seated m r in
    if has_paid_entry m then with_pool (sponsor_part m) r' else r'

abbrev pub is_found : Option Participant → Bool
is_found none = false
is_found (some p) = true

-- The participant and the totals are written. A user who had a row when it was read has it updated,
-- any other has one created, under the unique index on the Mesa and the user.
abbrev pub write_entry : MesaRow → Bool → Participant → Tx Lobby (Unit {0})
write_entry m known p s =
    if is_found (find_participant p.user s.participants)
    then if known
      then ok (tt, update_mesa (write_totals m) (write_participant p s))
      else err (database unique_violation)
    else if known
    then err (database record_not_found)
    else ok (tt, update_mesa (write_totals m) (write_participant p s))

module _ (others : Lobby → Lobby) (others_db : Db → Db) where
  -- `BolaoEntryPaymentService.debit`, if the access costs something
  abbrev pub pay_access : ℕ → MesaRow → ℕ → Tx Lobby (Unit {0})
  pay_access ranking m u s =
      if has_paid_entry m
      then with_wallets s (debit_entry others_db ranking u (pos (cost_of m)) s.db)
      else ok (tt, s)

  abbrev pub take_seat : ℕ → MesaRow → Tx Lobby (Unit {0})
  take_seat now m s =
      if by_capacity m then reserve_seat now m m.max_participants s.mesa s else ok (tt, s)

  -- From the debit on
  abbrev pub enter : ℕ → ℕ → MesaRow → ℕ → Bool → ℤ → Tx Lobby (Unit {0})
  enter ranking now m u known initial s = continue (pay_access ranking m u s) (λ _ t.
      continue (take_seat now m t) (λ _ v.
        write_entry m known (approved_participant now (has_paid_entry m) (cost_of m) u initial) v))

  abbrev pub checked : Result (Unit {0}) → Tx Lobby (Unit {0}) → Tx Lobby (Unit {0})
  checked (err e) f s = err e
  checked (ok _) f s = f s

  abbrev pub join_mesa : Bool → ℕ → ℕ → Result (Unit {0}) → ℕ → Option MesaRow → Tx Lobby (Unit {0})
  join_mesa creator ranking now pro u none s = err (failure mesa_not_found)
  join_mesa creator ranking now pro u (some m) s =
      checked (assert_may_join creator now pro m (find_participant u s.participants))
        (λ s.
          enter ranking now m u (is_found (find_participant u s.participants))
            (get_score_total_before u (baseline_at m.window now) s.db) (others s))
        s

  -- `JoinBolaoService.execute`
  unfoldable pub join_bolao : Bool → ℕ → ℕ → Result (Unit {0}) → ℕ → Tx Lobby (Unit {0})
  join_bolao creator ranking now pro u s = join_mesa creator ranking now pro u s.mesa s
