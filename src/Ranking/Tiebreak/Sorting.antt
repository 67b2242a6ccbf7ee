-- ===== src/Ranking/Tiebreak/Sorting.antt =====
-- The sorted rows of a ranking (ranking-tiebreak.service.ts): the same rows, none behind a row that
-- it is ahead of.
use mathlib.Core.List.{Perm}
use mathlib.Core.List.Perm
use boteco12_api.Prelude.{
  ℕ, suc, ◌≡◌, refl, Bool, false, List, [], ◌∷◌, if◌then◌else◌, arith, Bool-cases, inl, inr,
}
use boteco12_api.Prelude.Int.{pos, leb_ℤ}
use boteco12_api.Ranking.Tiebreak.{Metrics, compare_metrics, insert_row, sort_rows}
use boteco12_api.Ranking.Tiebreak.Order.{
  is_ahead, is_ahead-compare_le, is_ahead-compare_gt, not_ahead_trans,
}

module _ {A : Type 0} (metrics_for : A → Metrics) where
  abbrev pub ahead : A → A → Bool
  ahead x y = is_ahead (metrics_for x) (metrics_for y)

  -- No row of the list is ahead of `x`.
  abbrev pub NoneAhead : A → List A → Type 0
  NoneAhead x [] = Unit
  NoneAhead x (y ∷ ys) = (ahead y x ≡ false) × NoneAhead x ys

  abbrev pub IsSorted : List A → Type 0
  IsSorted [] = Unit
  IsSorted (x ∷ xs) = NoneAhead x xs × IsSorted xs

  NoneAhead-trans : (x y : A) (ys : List A) → ahead y x ≡ false → NoneAhead y ys → NoneAhead x ys
  NoneAhead-trans x y [] h k = tt
  NoneAhead-trans x y (z ∷ zs) h k = (
    not_ahead_trans (metrics_for x) (metrics_for y) (metrics_for z) h k.0,
    NoneAhead-trans x y zs h k.1,
  )

  NoneAhead-insert_row :
      (x y : A) (ys : List A)
      → ahead x y ≡ false
      → NoneAhead y ys
      → NoneAhead y (insert_row metrics_for x ys)
  unfolding insert_row
  NoneAhead-insert_row x y [] h k = (h, tt)
  NoneAhead-insert_row x y (z ∷ zs) h k =
      elim (Bool-cases (leb_ℤ (compare_metrics (metrics_for x) (metrics_for z)) (pos 0))) [
        | inl e ↦ rw e (h, k)
        | inr e ↦ rw e (k.0, NoneAhead-insert_row x y zs h k.1)
      ]

  insert_row-IsSorted : (x : A) (ys : List A) → IsSorted ys → IsSorted (insert_row metrics_for x ys)
  unfolding insert_row
  insert_row-IsSorted x [] h = (tt, tt)
  insert_row-IsSorted x (y ∷ ys) h =
      elim (Bool-cases (leb_ℤ (compare_metrics (metrics_for x) (metrics_for y)) (pos 0))) [
        | inl e ↦
            let first : ahead y x ≡ false = is_ahead-compare_le (metrics_for x) (metrics_for y) e in
            rw e ((first, NoneAhead-trans x y ys first h.0), h)
        | inr e ↦ rw e (
          NoneAhead-insert_row x y ys (is_ahead-compare_gt (metrics_for x) (metrics_for y) e) h.0,
          insert_row-IsSorted x ys h.1,
        )
      ]

  pub sort_rows-IsSorted : (xs : List A) → IsSorted (sort_rows metrics_for xs)
  unfolding sort_rows
  sort_rows-IsSorted [] = tt
  sort_rows-IsSorted (x ∷ xs) =
      insert_row-IsSorted x (sort_rows metrics_for xs) (sort_rows-IsSorted xs)

  insert_row-perm : (x : A) (ys : List A) → Perm (insert_row metrics_for x ys) (x ∷ ys)
  unfolding insert_row
  insert_row-perm x [] = Perm.refl (x ∷ [])
  insert_row-perm x (y ∷ ys) =
      elim (Bool-cases (leb_ℤ (compare_metrics (metrics_for x) (metrics_for y)) (pos 0))) [
        | inl e ↦ rw e (Perm.refl (x ∷ y ∷ ys))
        | inr e ↦ rw e (Perm.trans (Perm.cons y (insert_row-perm x ys)) (Perm.swap x y ys))
      ]

  pub sort_rows-perm : (xs : List A) → Perm (sort_rows metrics_for xs) xs
  unfolding sort_rows
  sort_rows-perm [] = Perm.refl []
  sort_rows-perm (x ∷ xs) =
      Perm.trans (insert_row-perm x (sort_rows metrics_for xs)) (Perm.cons x (sort_rows-perm xs))

  -- How many rows of the list are ahead of `x`.
  abbrev pub count_ahead : A → List A → ℕ
  count_ahead x [] = 0
  count_ahead x (y ∷ ys) = if ahead y x then suc (count_ahead x ys) else count_ahead x ys

  count_ahead-insert_row :
      (z x : A) (ys : List A) → count_ahead z (insert_row metrics_for x ys) ≡ count_ahead z (x ∷ ys)
  unfolding insert_row
  count_ahead-insert_row z x [] = refl
  count_ahead-insert_row z x (y ∷ ys) = ground (arith, count_ahead-insert_row z x ys)

  pub count_ahead-sort_rows :
      (z : A) (xs : List A) → count_ahead z (sort_rows metrics_for xs) ≡ count_ahead z xs
  unfolding sort_rows
  count_ahead-sort_rows z [] = refl
  count_ahead-sort_rows z (x ∷ xs) =
      ground
        (arith, count_ahead-insert_row z x (sort_rows metrics_for xs), count_ahead-sort_rows z xs)
