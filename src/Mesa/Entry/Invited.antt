-- ===== src/Mesa/Entry/Invited.antt =====
-- src/services/bolao/use-bolao-invite.service.ts: a user enters a Mesa with an invite.
use boteco12_api.Prelude.{ℕ, Bool, false, not, Option, none, some, ◌∷◌, leb, if◌then◌else◌}
use boteco12_api.Errors.{
  Result, ok, err, failure, invite_not_found, invite_not_active, invite_expired,
  invite_limit_reached, invite_not_available,
}
use boteco12_api.Transaction.{Tx, continue}
use boteco12_api.Db.{Db}
use boteco12_api.Mesa.Registration.{Invite, reserve_bolao_invite_use}
use boteco12_api.Mesa.Entry.{
  Participant, Lobby, invite_reused, invite_used, is_approved_standing, find_participant,
}
use boteco12_api.Mesa.Entry.Join.{checked, join_bolao}

abbrev pub participates : Option Participant → Bool
participates none = false
participates (some p) = is_approved_standing p.standing

abbrev has_expired : Option ℕ → ℕ → Bool
has_expired none now = false
has_expired (some d) now = leb d now

abbrev is_used_up : Option ℕ → ℕ → Bool
is_used_up none used = false
is_used_up (some n) used = leb n used

-- The three guards on the invite
abbrev pub assert_usable : ℕ → Invite → Result (Unit {0})
assert_usable now i =
    if not i.is_active
    then err (failure invite_not_active)
    else if has_expired i.expires_at now
    then err (failure invite_expired)
    else if is_used_up i.max_uses i.used_count
    then err (failure invite_limit_reached)
    else ok tt

abbrev pub with_reservation : Option ℕ × Invite → Tx Lobby (Unit {0}) → Tx Lobby (Unit {0})
with_reservation (none, i) join s = err (failure invite_not_available)
with_reservation (some used, i) join s = join (record s { invite = some i })

-- The `UPDATE` of the invite as it is now
abbrev pub reserve : ℕ → Option Invite → Tx Lobby (Unit {0}) → Tx Lobby (Unit {0})
reserve now none join s = err (failure invite_not_available)
reserve now (some i) join s = with_reservation (reserve_bolao_invite_use now i) join s

module _ (others : Lobby → Lobby) (others_db : Db → Db) where
  abbrev pub join_and_log : ℕ → ℕ → Result (Unit {0}) → ℕ → Tx Lobby (Unit {0})
  join_and_log ranking now pro u s =
      continue (join_bolao others others_db false ranking now pro u s)
        (λ _ t. ok (tt, record t { log = invite_used u ∷ t.log }))

  abbrev pub with_invite : ℕ → ℕ → Result (Unit {0}) → ℕ → Option Invite → Tx Lobby (Unit {0})
  with_invite ranking now pro u none s = err (failure invite_not_found)
  with_invite ranking now pro u (some i) s =
      if participates (find_participant u s.participants)
      then ok (tt, record s { log = invite_reused u ∷ s.log })
      else checked others others_db (assert_usable now i)
          (λ s. reserve now s.invite (join_and_log ranking now pro u) s) s

  -- `UseBolaoInviteService.execute`
  unfoldable pub use_bolao_invite : ℕ → ℕ → Result (Unit {0}) → ℕ → Tx Lobby (Unit {0})
  use_bolao_invite ranking now pro u s = with_invite ranking now pro u s.invite s
