-- ===== src/Mesa/Payout/Fraction.antt =====
-- Fractions, as numbers on which the payouts of bolao-prize.service.ts can be run.
use boteco12_api.Prelude.{ℕ, ◌+◌, ◌-◌, ◌*◌, ◌/◌, ◌==◌, ltb}
use boteco12_api.Mesa.Payout.{Number}

pub record Fraction : Type 0 where
  pub above : ℕ
  pub below : ℕ

instance abbrev pub fraction_number : Number Fraction
fraction_number = record {
  of_nat = λ n. record { above = n; below = 1 };
  add = λ a b. record { above = a.above * b.below + b.above * a.below; below = a.below * b.below };
  sub = λ a b. record { above = a.above * b.below - b.above * a.below; below = a.below * b.below };
  mul = λ a b. record { above = a.above * b.above; below = a.below * b.below };
  div = λ a b. record { above = a.above * b.below; below = a.below * b.above };
  floor = λ a. a.above / a.below;
  lt = λ a b. ltb (a.above * b.below) (b.above * a.below);
  is_nought = λ a. a.above == 0;
}
