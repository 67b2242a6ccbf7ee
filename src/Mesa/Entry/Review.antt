-- ===== src/Mesa/Entry/Review.antt =====
-- src/services/bolao/review-bolao-request.service.ts: the creator of a Mesa approves or rejects a
-- request. A participant is given by the user.
use boteco12_api.Prelude.{
  ℕ, suc, ◌+◌, Bool, true, false, not, Option, none, some, ◌∷◌, ◌==◌, ltb, if◌then◌else◌,
}
use boteco12_api.Prelude.Int.{pos}
use boteco12_api.Errors.{
  Result, ok, err, failure, mesa_full, mesa_not_found, not_a_mesa, mesa_not_active, not_creator,
  request_not_found, already_reviewed, access_already_debited,
}
use boteco12_api.Transaction.{Tx, continue}
use boteco12_api.Db.{Db}
use boteco12_api.Wallet.{debit_entry}
use boteco12_api.Mesa.Terms.{is_paid, assert_capacity}
use boteco12_api.Mesa.Registration.{assert_open, baseline_at}
use boteco12_api.Mesa.Entry.{
  MesaRow, Participant, Lobby, Standing, pending, rejected, join_rejected, terms_of, cost_of,
  has_paid, is_active_ranking, find_participant, both,
}
use boteco12_api.Mesa.Entry.Join.{
  with_wallets, with_pool, put_mesa, update_mesa, write_participant, upsert_participant,
  approved_participant, get_score_total_before, checked,
}

abbrev pub is_paid_mesa : MesaRow → Bool
is_paid_mesa m = is_paid (terms_of m)

abbrev is_user : Option ℕ → ℕ → Bool
is_user none u = false
is_user (some k) u = k == u

abbrev is_pending : Standing → Bool
is_pending pending = true
is_pending _ = false

abbrev assert_pending : Option Participant → Result (Unit {0})
assert_pending none = err (failure request_not_found)
assert_pending (some p) = if is_pending p.standing then ok tt else err (failure already_reviewed)

-- The guards before the answer is looked at
unfoldable pub assert_may_review : Bool → ℕ → ℕ → MesaRow → Option Participant → Result (Unit {0})
assert_may_review approves reviewer now m found =
    if not m.is_bolao
    then err (failure not_a_mesa)
    else if not (is_user m.created_by reviewer)
    then err (failure not_creator)
    else if not (is_active_ranking m.status)
    then err (failure mesa_not_active)
    else both
        (if approves
          then both (assert_open m.window now)
              (assert_capacity (terms_of m) (pos m.current_participants))
          else ok tt)
        (assert_pending found)

abbrev pub reject_row : Option Participant → Lobby → Lobby
reject_row none s = s
reject_row (some p) s = record s {
  participants = upsert_participant (record p { standing = rejected }) s.participants;
  log = join_rejected p.user ∷ s.log;
}

abbrev pub unpaid : Option Participant → Bool
unpaid none = true
unpaid (some p) = not (has_paid p.entry_paid_at)

abbrev pub one_more : MesaRow → MesaRow
one_more r = record r { current_participants = suc r.current_participants }

-- The guarded `updateMany` of the seats
abbrev pub review_seat : Option ℕ → Option MesaRow → Tx Lobby (Unit {0})
review_seat none o s = err (failure mesa_full)
review_seat (some n) none s = err (failure mesa_full)
review_seat (some n) (some r) s =
    if ltb r.current_participants n then put_mesa s (ok (one_more r)) else err (failure mesa_full)

abbrev pub review_totals : MesaRow → MesaRow → MesaRow
review_totals m r =
    if is_paid_mesa m
    then with_pool 0 (record r { gross_collected = r.gross_collected + cost_of m })
    else r

module _ (others : Lobby → Lobby) (others_db : Db → Db) where
  abbrev pub pay_review : ℕ → MesaRow → ℕ → Tx Lobby (Unit {0})
  pay_review ranking m u s =
      if is_paid_mesa m
      then with_wallets s (debit_entry others_db ranking u (pos (cost_of m)) s.db)
      else ok (tt, s)

  -- The approval, from the debit on
  abbrev pub admit : ℕ → ℕ → MesaRow → ℕ → Tx Lobby (Unit {0})
  admit ranking now m u s = continue (pay_review ranking m u s) (λ _ t.
      continue (review_seat m.max_participants t.mesa t) (λ _ v. ok (
        tt,
        update_mesa (review_totals m) (
            write_participant
              (approved_participant now (is_paid_mesa m) (cost_of m) u
                (get_score_total_before u (baseline_at m.window now) v.db))
              v),
      )))

  abbrev pub review_found : Bool → ℕ → ℕ → MesaRow → ℕ → Option Participant → Tx Lobby (Unit {0})
  review_found approves ranking now m u found s =
      if not approves
      then ok (tt, reject_row found s)
      else if not (unpaid found)
      then err (failure access_already_debited)
      else admit ranking now m u (others s)

  abbrev pub review_mesa : Bool → ℕ → ℕ → ℕ → ℕ → Option MesaRow → Tx Lobby (Unit {0})
  review_mesa approves ranking reviewer now u none s = err (failure mesa_not_found)
  review_mesa approves ranking reviewer now u (some m) s =
      checked others others_db
        (assert_may_review approves reviewer now m (find_participant u s.participants))
        (λ s. review_found approves ranking now m u (find_participant u s.participants) s) s

  -- `ReviewBolaoRequestService.execute`
  unfoldable pub review_bolao_request : Bool → ℕ → ℕ → ℕ → ℕ → Tx Lobby (Unit {0})
  review_bolao_request approves ranking reviewer now u s =
      review_mesa approves ranking reviewer now u s.mesa s
