-- ===== src/Mesa/Prize/Tests.antt =====
-- A distribution over two positions, and one whose shares do not make a hundred.
use boteco12_api.Prelude.{ℕ, ◌≡◌, refl, [], ◌∷◌}
use boteco12_api.Prelude.Int.{pos}
use boteco12_api.Wallet.{integer}
use boteco12_api.Errors.{err, bad_request, mesa_prize_distribution_invalid}
use boteco12_api.Mesa.Prize.{
  RawItem, array, PrizeItem, validate_items, validate_distribution, validate_input_distribution,
}

abbrev raw_item : ℕ → ℕ → RawItem
raw_item n p = record { position = integer (pos n); percentage = integer (pos p) }

abbrev item : ℕ → ℕ → PrizeItem
item n p = record { position = n; percentage = p }

not_a_hundred :
    validate_input_distribution (array (raw_item 1 70 ∷ raw_item 2 20 ∷ []))
    ≡ err (bad_request mesa_prize_distribution_invalid)
unfolding validate_input_distribution validate_distribution validate_items
not_a_hundred = refl
