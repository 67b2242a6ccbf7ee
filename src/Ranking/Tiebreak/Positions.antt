-- ===== src/Ranking/Tiebreak/Positions.antt =====
-- The positions of a ranking (ranking-tiebreak.service.ts): one more than the number of rows that are
-- officially ahead, so that rows level on all official criteria share a position.
use mathlib.Core.List.{Perm}
use boteco12_api.Prelude.{
  ℕ, ◌+◌, ◌≡◌, refl, ap, ◌∙◌, true, false, Option, none, some, List, [], ◌∷◌, length, map, arith,
  Bool-cases, inl, inr,
}
use boteco12_api.Ranking.Tiebreak.{
  Metrics, same_official_position, next_position, number_rows, sort_rows, rank,
}
use boteco12_api.Ranking.Tiebreak.Order.{
  not_ahead_trans, is_ahead_irrefl, not_same-is_ahead, same-is_ahead,
}
use boteco12_api.Ranking.Tiebreak.Sorting.{
  ahead, NoneAhead, IsSorted, count_ahead, sort_rows-IsSorted, sort_rows-perm,
  count_ahead-sort_rows,
}

module _ {A : Type 0} (metrics_for : A → Metrics) where
  -- Each row stands with one more than the number of rows of `all_rows` that are ahead of it.
  abbrev pub HavePositions : List A → List (A × ℕ) → Type 0
  HavePositions all_rows [] = Unit
  HavePositions all_rows ((x, n) ∷ es) =
      (n ≡ count_ahead metrics_for x all_rows + 1) × HavePositions all_rows es

  NoneAhead-count_ahead :
      (x : A) (ys : List A) → NoneAhead metrics_for x ys → count_ahead metrics_for x ys ≡ 0
  NoneAhead-count_ahead x [] h = refl
  NoneAhead-count_ahead x (y ∷ ys) h = rw h.0 (NoneAhead-count_ahead x ys h.1)

  -- The row `p` is ahead of none of the list.
  abbrev AheadOfNone : A → List A → Type 0
  AheadOfNone p [] = Unit
  AheadOfNone p (y ∷ ys) = (ahead metrics_for p y ≡ false) × AheadOfNone p ys

  -- A row that `p` is not ahead of is ahead of whatever `p` is ahead of.
  ahead_of_next :
      (p x y : A)
      → ahead metrics_for p y ≡ false
      → ahead metrics_for p x ≡ true
      → ahead metrics_for y x ≡ true
  ahead_of_next p x y h k = elim (Bool-cases (ahead metrics_for y x)) [
    | inl e ↦ e
    | inr e ↦ cc (k, not_ahead_trans (metrics_for x) (metrics_for y) (metrics_for p) e h)
  ]

  AheadOfNone-count_ahead :
      (p x : A) (ys : List A)
      → AheadOfNone p ys
      → ahead metrics_for p x ≡ true
      → count_ahead metrics_for x ys ≡ length ys
  AheadOfNone-count_ahead p x [] h k = refl
  AheadOfNone-count_ahead p x (y ∷ ys) h k =
      rw (ahead_of_next p x y h.0 k, AheadOfNone-count_ahead p x ys h.1 k)

  AheadOfNone-trans :
      (p x : A) (ys : List A) → AheadOfNone p ys → ahead metrics_for x p ≡ false → AheadOfNone x ys
  AheadOfNone-trans p x [] h k = tt
  AheadOfNone-trans p x (y ∷ ys) h k = (
    not_ahead_trans (metrics_for y) (metrics_for p) (metrics_for x) h.0 k,
    AheadOfNone-trans p x ys h.1 k,
  )

  count_ahead-same :
      (p x : A) (ys : List A)
      → same_official_position (metrics_for x) (metrics_for p) ≡ true
      → count_ahead metrics_for x ys ≡ count_ahead metrics_for p ys
  count_ahead-same p x [] h = refl
  count_ahead-same p x (y ∷ ys) h =
      rw
        (same-is_ahead (metrics_for y) (metrics_for p) (metrics_for x) h, count_ahead-same p x ys h)

  -- The loop has numbered the rows `before`, the last of them `p` with `position`; `rest` is to come.
  record Numbered (all_rows : List A) (p : A) (index position : ℕ) (before rest : List A)
      : Type 0 where
    so_far : index ≡ length before
    place : position ≡ count_ahead metrics_for p all_rows + 1
    behind : AheadOfNone p before
    sorted : NoneAhead metrics_for p rest × IsSorted metrics_for rest
    split :
        (z : A)
        → count_ahead metrics_for z all_rows
          ≡ count_ahead metrics_for z before + count_ahead metrics_for z rest

  next_place :
      (all_rows : List A) (p x : A) (index position : ℕ) (before rest : List A)
      → Numbered all_rows p index position before (x ∷ rest)
      → next_position metrics_for (some p) x index position ≡ count_ahead metrics_for x all_rows + 1
  next_place all_rows p x index position before rest h =
      elim (Bool-cases (same_official_position (metrics_for x) (metrics_for p))) [
        | inl e ↦ rw e (omega (arith, h.place, count_ahead-same p x all_rows e))
        | inr e ↦
            let first : ahead metrics_for p x ≡ true =
              not_same-is_ahead (metrics_for p) (metrics_for x) e h.sorted.0.0 in
            let none_left : count_ahead metrics_for x (x ∷ rest) ≡ 0 =
              rw (is_ahead_irrefl (metrics_for x)) (NoneAhead-count_ahead x rest h.sorted.1.0) in
            rw e (
              omega (
                arith,
                h.so_far,
                h.split x,
                none_left,
                AheadOfNone-count_ahead p x before h.behind first,
              ))
      ]

  Numbered-next :
      (all_rows : List A) (p x : A) (index position : ℕ) (before rest : List A)
      → Numbered all_rows p index position before (x ∷ rest)
      → Numbered all_rows x
          (index + 1)
          (next_position metrics_for (some p) x index position)
          (x ∷ before)
          rest
  Numbered-next all_rows p x index position before rest h = record {
    so_far = omega (arith, h.so_far);
    place = next_place all_rows p x index position before rest h;
    behind = (is_ahead_irrefl (metrics_for x), AheadOfNone-trans p x before h.behind h.sorted.0.0);
    sorted = h.sorted.1;
    split = λ z. h.split z ∙ ground arith;
  }

  number_rows-HavePositions :
      (all_rows : List A) (p : A) (index position : ℕ) (before rest : List A)
      → Numbered all_rows p index position before rest
      → HavePositions all_rows (number_rows metrics_for (some p) index position rest)
  unfolding number_rows
  number_rows-HavePositions all_rows p index position before [] h = tt
  number_rows-HavePositions all_rows p index position before (x ∷ rest) h = (
    next_place all_rows p x index position before rest h,
    number_rows-HavePositions all_rows x (index + 1) _ (x ∷ before) rest
        (Numbered-next all_rows p x index position before rest h),
  )

  number_sorted :
      (xs : List A)
      → IsSorted metrics_for xs
      → HavePositions xs (number_rows metrics_for none 0 1 xs)
  unfolding number_rows
  number_sorted [] h = tt
  number_sorted (x ∷ rest) h =
      let none_ahead : count_ahead metrics_for x (x ∷ rest) ≡ 0 =
        rw (is_ahead_irrefl (metrics_for x)) (NoneAhead-count_ahead x rest h.0) in
      (
        omega (arith, none_ahead),
        number_rows-HavePositions (x ∷ rest) x 1 1 (x ∷ []) rest (record {
          so_far = refl;
          place = omega (arith, none_ahead);
          behind = (is_ahead_irrefl (metrics_for x), tt);
          sorted = h;
          split = λ z. ground arith;
        }),
      )

  HavePositions-perm :
      (xs ys : List A) (es : List (A × ℕ))
      → ((z : A) → count_ahead metrics_for z xs ≡ count_ahead metrics_for z ys)
      → HavePositions xs es
      → HavePositions ys es
  HavePositions-perm xs ys [] same h = tt
  HavePositions-perm xs ys ((x, n) ∷ es) same h =
      (omega (arith, h.0, same x), HavePositions-perm xs ys es same h.1)

  rows_of :
      (p : Option A) (index position : ℕ) (xs : List A)
      → map (λ e. e.0) (number_rows metrics_for p index position xs) ≡ xs
  unfolding number_rows
  rows_of p index position [] = refl
  rows_of p index position (x ∷ xs) =
      ap (λ l. x ∷ l)
        (rows_of (some x) (index + 1) (next_position metrics_for p x index position) xs)

  -- The ranking of any rows holds each of them once, none behind a row that it is officially ahead of,
  -- and the position of every row is one more than the number of rows that are officially ahead of it:
  -- rows level on score, super double hits, double hits and age of the account share a position.
  pub rank_positions :
      (rows : List A)
      → Perm (map (λ e. e.0) (rank metrics_for rows)) rows
        × IsSorted metrics_for (map (λ e. e.0) (rank metrics_for rows))
        × HavePositions rows (rank metrics_for rows)
  unfolding rank
  rank_positions rows =
      let sorted = sort_rows metrics_for rows in
      let e : map (λ e. e.0) (number_rows metrics_for none 0 1 sorted) ≡ sorted =
        rows_of none 0 1 sorted in
      (
        rw e (sort_rows-perm metrics_for rows),
        rw e (sort_rows-IsSorted metrics_for rows),
        HavePositions-perm sorted rows (number_rows metrics_for none 0 1 sorted)
            (λ z. count_ahead-sort_rows metrics_for z rows)
            (number_sorted sorted (sort_rows-IsSorted metrics_for rows)),
      )
