-- ===== src/Mesa/Payout/Total.antt =====
-- What the payouts of a Mesa come to (bolao-prize.service.ts).
use boteco12_api.Prelude.{
  ℕ, zero, suc, ◌+◌, ◌-◌, ◌≡◌, ◌≤◌, refl, sym, ap, ◌∙◌, Bool, true, false, ◌||◌, List, [], ◌∷◌, map,
  ◌==◌, if◌then◌else◌, arith, Bool-cases, inl, inr,
}
use boteco12_api.Mesa.Prize.{PrizeItem}
use boteco12_api.Mesa.Payout.{
  Number, PrizeRow, Payout, Weighted, Share, bump, distribute, allotted, insert_share, sort_shares,
  orders, weighted_of, allocated, share_out, to_payout, is_empty, total_weight, calculate_payouts,
}

abbrev pub total_paid : List Payout → ℕ
total_paid [] = 0
total_paid (p ∷ ps) = p.amount + total_paid ps

abbrev has_order : {W : Type 0} → ℕ → List (Share W) → Bool
has_order i [] = false
has_order i (s ∷ ss) = if s.order == i then true else has_order i ss

abbrev AllIn : {W : Type 0} → List ℕ → List (Share W) → Type 0
AllIn [] ss = Unit
AllIn (i ∷ is) ss = (has_order i ss ≡ true) × AllIn is ss

bump-allotted :
    {W : Type 0} (i : ℕ) (ss : List (Share W))
    → has_order i ss ≡ true
    → allotted (bump i ss) ≡ suc (allotted ss)
bump-allotted i [] h = cc
bump-allotted i (s ∷ ss) h = elim (Bool-cases (s.order == i)) [
  | inl e ↦ ground arith
  | inr e ↦ ground (arith, bump-allotted i ss)
]

bump-has_order :
    {W : Type 0} (i j : ℕ) (ss : List (Share W)) → has_order j (bump i ss) ≡ has_order j ss
bump-has_order i j [] = refl
bump-has_order i j (s ∷ ss) = elim (Bool-cases (s.order == i)) [
  | inl e ↦ rw e refl
  | inr e ↦ rw (e, bump-has_order i j ss) refl
]

bump-AllIn :
    {W : Type 0} (i : ℕ) (is : List ℕ) (ss : List (Share W)) → AllIn is ss → AllIn is (bump i ss)
bump-AllIn i [] ss h = tt
bump-AllIn i (j ∷ js) ss (a, h) = (bump-has_order i j ss ∙ a, bump-AllIn i js ss h)

distribute-allotted :
    {W : Type 0} (n : ℕ) (queue : List ℕ) (i : ℕ) (is : List ℕ) (ss : List (Share W))
    → AllIn queue ss
    → AllIn (i ∷ is) ss
    → allotted (distribute n queue (i ∷ is) ss) ≡ n + allotted ss
distribute-allotted zero queue i is ss q w = omega arith
distribute-allotted (suc n) [] i is ss q (a, w) =
    let ih =
      distribute-allotted n is i is (bump i ss) (bump-AllIn i is ss w)
        (bump-AllIn i (i ∷ is) ss (a, w)) in
    let more = bump-allotted i ss a in omega arith
distribute-allotted (suc n) (j ∷ js) i is ss (a, q) w =
    let ih =
      distribute-allotted n js i is (bump j ss) (bump-AllIn j js ss q)
        (bump-AllIn j (i ∷ is) ss w) in
    let more = bump-allotted j ss a in omega arith

to_payout-total : {W : Type 0} (ss : List (Share W)) → total_paid (map to_payout ss) ≡ allotted ss
to_payout-total [] = refl
to_payout-total (s ∷ ss) = ap (λ n. s.amount + n) (to_payout-total ss)

has_order-more :
    {W : Type 0} (i : ℕ) (s : Share W) (ss : List (Share W))
    → has_order i ss ≡ true
    → has_order i (s ∷ ss) ≡ true
has_order-more i s ss h = ground arith

AllIn-more :
    {W : Type 0} (is : List ℕ) (s : Share W) (ss : List (Share W)) → AllIn is ss → AllIn is (s ∷ ss)
AllIn-more [] s ss h = tt
AllIn-more (i ∷ is) s ss (a, h) = (has_order-more i s ss a, AllIn-more is s ss h)

module _ {W : Type 0} ⦃number : Number W⦄ where
  insert-AllIn :
      (s : Share W) (ts ss : List (Share W))
      → has_order s.order ss ≡ true
      → AllIn (orders ts) ss
      → AllIn (orders (insert_share s ts)) ss
  insert-AllIn s [] ss a h = (a, tt)
  insert-AllIn s (t ∷ ts) ss a (b, h) = elim (Bool-cases (number.lt s.remainder t.remainder)) [
    | inl e ↦ rw e (b, insert-AllIn s ts ss a h)
    | inr e ↦ rw e (a, (b, h))
  ]

  sort-AllIn : (ss : List (Share W)) → AllIn (orders (sort_shares ss)) ss
  sort-AllIn [] = tt
  sort-AllIn (s ∷ ss) =
      insert-AllIn s (sort_shares ss) (s ∷ ss) (ground arith)
        (AllIn-more (orders (sort_shares ss)) s ss (sort-AllIn ss))

  insert-orders :
      (s : Share W) (ts : List (Share W)) → is_empty (orders (insert_share s ts)) ≡ false
  insert-orders s [] = refl
  insert-orders s (t ∷ ts) = elim (Bool-cases (number.lt s.remainder t.remainder)) [
    | inl e ↦ rw e refl
    | inr e ↦ rw e refl
  ]

  cycle-allotted :
      (n : ℕ) (is : List ℕ) (ss : List (Share W))
      → is_empty is ≡ false
      → AllIn is ss
      → allotted (distribute n [] is ss) ≡ n + allotted ss
  cycle-allotted n [] ss e h = cc
  cycle-allotted n (i ∷ is) ss e h = distribute-allotted n [] i is ss tt h

  -- What is left of the pool is given out to the last unit.
  share_out-allotted :
      (pool : ℕ) (ss : List (Share W))
      → is_empty ss ≡ false
      → allotted (share_out pool ss) ≡ pool - allotted ss + allotted ss
  share_out-allotted pool [] e = cc
  share_out-allotted pool (s ∷ ss) e =
      cycle-allotted (pool - allotted (s ∷ ss)) (orders (sort_shares (s ∷ ss))) (s ∷ ss)
        (insert-orders s (sort_shares ss)) (sort-AllIn (s ∷ ss))

  allocated-is_empty :
      (pool : ℕ) (ws : List (Weighted W)) → is_empty (allocated pool ws) ≡ is_empty ws
  allocated-is_empty pool [] = refl
  allocated-is_empty pool (w ∷ ws) = refl

  -- Payouts that are not empty are the shares.
  payouts-shares :
      (b c : Bool) (ss : List (Share W)) {p : Payout} {ps : List Payout}
      → (if b then [] else if c then [] else map to_payout ss) ≡ p ∷ ps
      → (c ≡ false) × (total_paid (p ∷ ps) ≡ allotted ss)
  payouts-shares true c ss h = cc
  payouts-shares false true ss h = cc
  payouts-shares false false ss h = (refl, sym (ap total_paid h) ∙ to_payout-total ss)

module _ (W : Type 0) ⦃number : Number W⦄ where
  rewarded-total :
      (pool : ℕ) (items : List PrizeItem) (rows : List PrizeRow) {p : Payout} {ps : List Payout}
      → calculate_payouts W pool items rows ≡ p ∷ ps
      → total_paid (p ∷ ps)
        ≡ pool
          - allotted (allocated pool (weighted_of {W = W} items rows))
          + allotted (allocated pool (weighted_of {W = W} items rows))
  unfolding calculate_payouts
  rewarded-total pool items rows h =
      let ws : List (Weighted W) = weighted_of items rows in
      let (some_rows, total) =
        payouts-shares (pool == 0 || is_empty rows)
          (is_empty ws || number.is_nought (total_weight (number.of_nat 0) ws))
          (share_out pool (allocated pool ws)) h in
      let filled : is_empty ws ≡ false = or_false (is_empty ws) _ some_rows in
      total ∙ share_out-allotted pool (allocated pool ws) (allocated-is_empty pool ws ∙ filled)
    where
      or_false : (a b : Bool) → a || b ≡ false → a ≡ false
      or_false a b h = ground arith

  -- As soon as anyone is rewarded, all of the pool is: the payouts come to it exactly, to the last
  -- unit, if the shares rounded down do not already exceed it.
  pub payouts_pay_the_pool :
      (pool : ℕ) (items : List PrizeItem) (rows : List PrizeRow) {p : Payout} {ps : List Payout}
      → allotted (allocated pool (weighted_of {W = W} items rows)) ≤ pool
      → calculate_payouts W pool items rows ≡ p ∷ ps
      → total_paid (p ∷ ps) ≡ pool
  payouts_pay_the_pool pool items rows h e = rewarded-total pool items rows e ∙ omega arith
