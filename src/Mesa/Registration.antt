-- ===== src/Mesa/Registration.antt =====
-- src/services/bolao/bolao-registration-window.service.ts and bolao-invite-reservation.ts: when a
-- user may enter a Mesa, and how often an invite can be used.
mod Tests
use boteco12_api.Prelude.{
  ℕ, suc, ◌+◌, ◌≡◌, ◌↔◌, ◌≤◌, ◌<◌, refl, sym, ◌∙◌, Bool, true, false, ◌&&◌, not, Option, none, some,
  List, [], ◌∷◌, ltb, leb, length, if◌then◌else◌, arith,
}
use boteco12_api.Errors.{Result, ok, err, failure, registration_closed, registration_not_started}
use boteco12_api.Mesa.Terms.{or_else, first_of_both}

-- `BolaoRegistrationWindow`
pub record Window : Type 0 where
  pub start_date : Option ℕ
  pub entry_end_date : Option ℕ
  pub end_date : Option ℕ

-- `bolao.entryEndDate ?? bolao.endDate`
abbrev closes_at : Window → Option ℕ
closes_at w = first_of_both w.entry_end_date w.end_date

abbrev is_due : Option ℕ → ℕ → Bool
is_due none now = false
is_due (some d) now = leb d now

abbrev is_later : Option ℕ → ℕ → Bool
is_later none now = false
is_later (some d) now = ltb now d

-- `assertNotClosed`
unfoldable assert_not_closed : Window → ℕ → Result (Unit {0})
assert_not_closed w now =
    if is_due (closes_at w) now then err (failure registration_closed) else ok tt

-- `assertOpen`
unfoldable pub assert_open : Window → ℕ → Result (Unit {0})
unfolding assert_not_closed
assert_open w now =
    if is_later w.start_date now
    then err (failure registration_not_started)
    else assert_not_closed w now

-- `baselineAt`
abbrev pub baseline_at : Window → ℕ → ℕ
baseline_at w now = or_else w.start_date now

-- A row of `bolao_invites`.
pub record Invite : Type 0 where
  pub is_active : Bool
  pub expires_at : Option ℕ
  pub max_uses : Option ℕ
  pub used_count : ℕ

abbrev is_unexpired : Option ℕ → ℕ → Bool
is_unexpired none now = true
is_unexpired (some d) now = ltb now d

abbrev has_uses : Option ℕ → ℕ → Bool
has_uses none used = true
has_uses (some n) used = ltb used n

-- `reserveBolaoInviteUse`: one `UPDATE … RETURNING` on the row; the answer is the new count.
unfoldable pub reserve_bolao_invite_use : ℕ → Invite → Option ℕ × Invite
reserve_bolao_invite_use now i =
    if i.is_active && (is_unexpired i.expires_at now && has_uses i.max_uses i.used_count)
    then (some (i.used_count + 1), record i { used_count = i.used_count + 1 })
    else (none, i)

-- Any number of attempts on one invite, one after the other, at these times: how many succeed, and
-- the row after them.
unfoldable pub reserve_all : List ℕ → Invite → ℕ × Invite
reserve_all [] i = (0, i)
reserve_all (now ∷ later) i =
    let (answer, i') = reserve_bolao_invite_use now i in
    let (n, last) = reserve_all later i' in (elim answer [ none ↦ n | some _ ↦ suc n ], last)

-- The number of uses is within the limit, if there is one.
abbrev pub within : ℕ → Option ℕ → Bool
within used none = true
within used (some n) = leb used n

-- One attempt: it counts one use or none, and keeps within the limit.
reserve_once :
    (now : ℕ) (i : Invite) (n : ℕ)
    → within i.used_count i.max_uses ≡ true
    → ((reserve_bolao_invite_use now i).1.used_count + n
        ≡ i.used_count + (elim (reserve_bolao_invite_use now i).0 [ none ↦ n | some _ ↦ suc n ]))
      × (within
            (reserve_bolao_invite_use now i).1.used_count
            (reserve_bolao_invite_use now i).1.max_uses
          ≡ true)
unfolding reserve_bolao_invite_use
reserve_once now i n h = ground arith

-- On an invite whose uses are within its limit, however many attempts are made, and at whatever
-- times, every success counts once, and the uses never pass the limit.
pub reserve_all-within :
    (times : List ℕ) (i : Invite)
    → within i.used_count i.max_uses ≡ true
    → (i.used_count + (reserve_all times i).0 ≡ (reserve_all times i).1.used_count)
      × (within (reserve_all times i).1.used_count (reserve_all times i).1.max_uses ≡ true)
unfolding reserve_all
reserve_all-within [] i h = (omega arith, h)
reserve_all-within (now ∷ later) i h =
    let (counted, kept) =
      reserve_once now i (reserve_all later (reserve_bolao_invite_use now i).1).0 h in
    let (sums, fits) = reserve_all-within later (reserve_bolao_invite_use now i).1 kept in
    (sym counted ∙ sums, fits)

-- The registrations have begun, and have not ended: a window without a start has begun, and one
-- without any final date does not end.
abbrev HasBegun : Option ℕ → ℕ → Type 0
HasBegun none now = Unit
HasBegun (some d) now = d ≤ now

abbrev HasNotEnded : Option ℕ → ℕ → Type 0
HasNotEnded none now = Unit
HasNotEnded (some d) now = now < d

window_iff :
    (start closing : Option ℕ) (now : ℕ)
    → ((if is_later start now
          then err (failure registration_not_started)
          else if is_due closing now
          then err (failure registration_closed)
          else ok tt)
        ≡ ok (tt {0}))
      ↔ (HasBegun start now × HasNotEnded closing now)
window_iff none none now = ground arith
window_iff none (some c) now = ground arith
window_iff (some s) none now = ground arith
window_iff (some s) (some c) now = ground arith

-- Registrations are open exactly from the start, if there is one, and before the final date of the
-- entries or, without one, the end date, if there is any.
pub assert_open_iff :
    (w : Window) (now : ℕ)
    → (assert_open w now ≡ ok tt) ↔ (HasBegun w.start_date now × HasNotEnded (closes_at w) now)
unfolding assert_open
assert_open_iff w now = window_iff w.start_date (closes_at w) now
