-- ===== src/Mesa/Payout.antt =====
-- `calculatePayouts` of src/services/bolao/bolao-prize.service.ts: what each row of a Mesa's ranking
-- gets of the pool. The numbers that are not integers are an interface.
pub mod Total
pub mod Fraction
use boteco12_api.Prelude.{
  ℕ, zero, suc, ◌+◌, ◌-◌, Bool, true, false, ◌||◌, Option, none, some, List, [], ◌∷◌, ◌++◌, map,
  length, ◌==◌, if◌then◌else◌,
}
use boteco12_api.Mesa.Prize.{PrizeItem}

-- What the code does with floating point numbers; `floor` is asked of no negative one.
pub record Number (W : Type 0) : Type 0 where
  pub of_nat : ℕ → W
  pub add : W → W → W
  pub sub : W → W → W
  pub mul : W → W → W
  pub div : W → W → W
  pub floor : W → ℕ
  pub lt : W → W → Bool
  pub is_nought : W → Bool

pub record PrizeRow : Type 0 where
  pub user : ℕ
  pub position : ℕ

pub record Payout : Type 0 where
  pub user : ℕ
  pub position : ℕ
  pub amount : ℕ

-- An entry of the map `groups`, in the order of insertion
pub record Group : Type 0 where
  pub position : ℕ
  pub rows : List PrizeRow

abbrev pub add_row : PrizeRow → List Group → List Group
add_row r [] = record { position = r.position; rows = r ∷ [] } ∷ []
add_row r (g ∷ gs) =
    let rest = add_row r gs in
    if g.position == r.position then record g { rows = g.rows ++ (r ∷ []) } ∷ gs else g ∷ rest

abbrev pub groups_of : List PrizeRow → List Group → List Group
groups_of [] gs = gs
groups_of (r ∷ rs) gs = groups_of rs (add_row r gs)

abbrev first_some : Option ℕ → Bool → ℕ → Option ℕ
first_some (some n) here percentage = some n
first_some none here percentage = if here then some percentage else none

-- `percentages.get(position)`: of two items of one position the map holds the later.
abbrev pub percentage_at : ℕ → List PrizeItem → Option ℕ
percentage_at p [] = none
percentage_at p (x ∷ xs) = first_some (percentage_at p xs) (x.position == p) x.percentage

abbrev or_zero : Option ℕ → ℕ
or_zero none = 0
or_zero (some n) = n

-- `groupPercentage`: the percentages of the positions that this many tied rows occupy
abbrev pub occupied : List PrizeItem → ℕ → ℕ → ℕ
occupied items zero p = 0
occupied items (suc n) p = or_zero (percentage_at p items) + occupied items n (suc p)

pub record Weighted (W : Type 0) : Type 0 where
  pub user : ℕ
  pub position : ℕ
  pub weight : W

-- A row of `allocated`
pub record Share (W : Type 0) : Type 0 where
  pub order : ℕ
  pub user : ℕ
  pub position : ℕ
  pub amount : ℕ
  pub remainder : W

abbrev pub bump : {W : Type 0} → ℕ → List (Share W) → List (Share W)
bump i [] = []
bump i (s ∷ ss) =
    let rest = bump i ss in
    if s.order == i then record s { amount = suc s.amount } ∷ ss else s ∷ rest

-- The last loop: one more to each row in turn, by the order of the remainders.
abbrev pub distribute : {W : Type 0} → ℕ → List ℕ → List ℕ → List (Share W) → List (Share W)
distribute zero queue whole shares = shares
distribute (suc n) [] [] shares = shares
distribute (suc n) [] (i ∷ is) shares = distribute n is (i ∷ is) (bump i shares)
distribute (suc n) (i ∷ is) whole shares = distribute n is whole (bump i shares)

-- `allocated.reduce((sum, row) => sum + row.amount, 0)`
abbrev pub allotted : {W : Type 0} → List (Share W) → ℕ
allotted [] = 0
allotted (s ∷ ss) = s.amount + allotted ss

abbrev pub is_empty {ℓ} : {A : Type ℓ} → List A → Bool
is_empty [] = true
is_empty (x ∷ xs) = false

abbrev pub to_payout : {W : Type 0} → Share W → Payout
to_payout s = record { user = s.user; position = s.position; amount = s.amount }

module _ {W : Type 0} ⦃number : Number W⦄ where
  abbrev pub weigh : W → List PrizeRow → List (Weighted W)
  weigh weight [] = []
  weigh weight (r ∷ rs) =
      record { user = r.user; position = r.position; weight = weight } ∷ weigh weight rs

  abbrev pub weighted_group : List PrizeItem → Group → List (Weighted W)
  weighted_group items g =
      let count = length g.rows in
      let percentage = occupied items count g.position in
      if percentage == 0
      then []
      else weigh (number.div (number.of_nat percentage) (number.of_nat count)) g.rows

  abbrev pub weighted_rows : List PrizeItem → List Group → List (Weighted W)
  weighted_rows items [] = []
  weighted_rows items (g ∷ gs) = weighted_group items g ++ weighted_rows items gs

  abbrev pub total_weight : W → List (Weighted W) → W
  total_weight total [] = total
  total_weight total (w ∷ ws) = total_weight (number.add total w.weight) ws

  abbrev pub share_of : ℕ → W → ℕ → Weighted W → Share W
  share_of pool total order w =
      let exact_amount = number.div (number.mul (number.of_nat pool) w.weight) total in
      let amount = number.floor exact_amount in
      record {
        order = order;
        user = w.user;
        position = w.position;
        amount = amount;
        remainder = number.sub exact_amount (number.of_nat amount);
      }

  abbrev pub allocate : ℕ → W → ℕ → List (Weighted W) → List (Share W)
  allocate pool total order [] = []
  allocate pool total order (w ∷ ws) =
      share_of pool total order w ∷ allocate pool total (suc order) ws

  -- By the remainder, the greatest first; equal ones keep their order.
  abbrev pub insert_share : Share W → List (Share W) → List (Share W)
  insert_share s [] = s ∷ []
  insert_share s (t ∷ ts) =
      let rest = insert_share s ts in
      if number.lt s.remainder t.remainder then t ∷ rest else s ∷ t ∷ ts

  abbrev pub sort_shares : List (Share W) → List (Share W)
  sort_shares [] = []
  sort_shares (s ∷ ss) = insert_share s (sort_shares ss)

  abbrev pub orders : List (Share W) → List ℕ
  orders [] = []
  orders (s ∷ ss) = s.order ∷ orders ss

  abbrev pub weighted_of : List PrizeItem → List PrizeRow → List (Weighted W)
  weighted_of items rows = weighted_rows items (groups_of rows [])

  abbrev pub allocated : ℕ → List (Weighted W) → List (Share W)
  allocated pool ws = allocate pool (total_weight (number.of_nat 0) ws) 0 ws

  abbrev pub share_out : ℕ → List (Share W) → List (Share W)
  share_out pool shares =
      distribute (pool - allotted shares) [] (orders (sort_shares shares)) shares

-- `calculatePayouts`
unfoldable pub calculate_payouts :
    (W : Type 0) ⦃number : Number W⦄ → ℕ → List PrizeItem → List PrizeRow → List Payout
calculate_payouts W ⦃number⦄ pool items rows =
    let ws : List (Weighted W) = weighted_of items rows in
    if pool == 0 || is_empty rows
    then []
    else if is_empty ws || number.is_nought (total_weight (number.of_nat 0) ws)
    then []
    else map to_payout (share_out pool (allocated pool ws))
