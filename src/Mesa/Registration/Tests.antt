-- ===== src/Mesa/Registration/Tests.antt =====
-- The registration window and an invite with two uses, on concrete times.
use boteco12_api.Prelude.{◌≡◌, refl, true, some, none, List, [], ◌∷◌, ℕ}
use boteco12_api.Mesa.Registration.{
  Window, Invite, reserve_bolao_invite_use, reserve_all, baseline_at,
}

abbrev window : Window
window = record { start_date = some 10; entry_end_date = none; end_date = some 20 }

baseline_is_start : baseline_at window 15 ≡ 10
baseline_is_start = refl

abbrev two_uses : Invite
two_uses = record { is_active = true; expires_at = some 50; max_uses = some 2; used_count = 0 }

abbrev four_times : List ℕ
four_times = 1 ∷ 2 ∷ 3 ∷ 60 ∷ []

two_succeed : (reserve_all four_times two_uses).0 ≡ 2
unfolding reserve_all reserve_bolao_invite_use
two_succeed = refl
