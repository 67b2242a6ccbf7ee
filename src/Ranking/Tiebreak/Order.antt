-- ===== src/Ranking/Tiebreak/Order.antt =====
-- The official order (ranking-tiebreak.service.ts): the greater score, then the more super double
-- hits, then the more double hits, then the older account.
use boteco12_api.Prelude.{
  ◌≡◌, refl, Bool, true, false, ◌&&◌, ◌||◌, ltb, if◌then◌else◌, arith, not, Bool-cases, inl, inr,
}
use boteco12_api.Prelude.Int.{ℤ, pos, ltb_ℤ, leb_ℤ, eqb_ℤ, ◌-ℤ◌, -ℤ_parts}
use boteco12_api.Ranking.Tiebreak.{Metrics, compare_metrics, same_official_position}

-- Ahead by this number, or level on it and ahead by the rest.
unfoldable pub ahead_by : ℤ → ℤ → Bool → Bool
ahead_by x y rest = ltb_ℤ y x || (eqb_ℤ x y && rest)

-- `a` is officially ahead of `b`.
unfoldable pub is_ahead : Metrics → Metrics → Bool
is_ahead a b = ahead_by a.score_ranking b.score_ranking (
    ahead_by a.super_double_hits b.super_double_hits
      (ahead_by a.double_hits b.double_hits (ltb a.user_created_at b.user_created_at)))

-- One level of `compare`.
abbrev compare_by : ℤ → ℤ → ℤ → ℤ
compare_by x y rest = if not (eqb_ℤ y x) then y -ℤ x else rest

module _ (x y : ℤ) where
  ahead_by-compare_le :
      (c : ℤ) (p : Bool)
      → leb_ℤ (compare_by x y c) (pos 0) ≡ true
      → (leb_ℤ c (pos 0) ≡ true → p ≡ false)
      → ahead_by y x p ≡ false
  unfolding ahead_by
  ahead_by-compare_le c p h k = elim (Bool-cases (eqb_ℤ y x)) [
    | inl e ↦ rw (e, k (rw e at h)) (ground (arith, e))
    | inr e ↦ ground (arith, rw e at h, -ℤ_parts y x)
  ]

  ahead_by-compare_gt :
      (c : ℤ) (p : Bool)
      → leb_ℤ (compare_by x y c) (pos 0) ≡ false
      → (leb_ℤ c (pos 0) ≡ false → p ≡ false)
      → ahead_by x y p ≡ false
  unfolding ahead_by
  ahead_by-compare_gt c p h k = elim (Bool-cases (eqb_ℤ y x)) [
    | inl e ↦ rw (k (rw e at h)) (ground (arith, e))
    | inr e ↦ ground (arith, rw e at h, -ℤ_parts y x)
  ]

  ahead_by_trans :
      (z : ℤ) (p q r : Bool)
      → ahead_by y x p ≡ false
      → ahead_by z y q ≡ false
      → (p ≡ false → q ≡ false → r ≡ false)
      → ahead_by z x r ≡ false
  unfolding ahead_by
  ahead_by_trans z p q false h k l = ground arith
  ahead_by_trans z false false true h k l = absurd (ground (arith, l refl refl))
  ahead_by_trans z false true true h k l = ground arith
  ahead_by_trans z true q true h k l = ground arith

  ahead_by-level : (z : ℤ) (p q : Bool) → eqb_ℤ y x ≡ true → p ≡ q → ahead_by z y p ≡ ahead_by z x q
  unfolding ahead_by
  ahead_by-level z p q h e = ground arith

  ahead_by_total :
      (s p q : Bool)
      → (eqb_ℤ y x && s) ≡ false
      → ahead_by y x p ≡ false
      → (s ≡ false → p ≡ false → q ≡ true)
      → ahead_by x y q ≡ true
  unfolding ahead_by
  ahead_by_total s p true h k l = ground arith
  ahead_by_total false false false h k l = absurd (ground (arith, l refl refl))
  ahead_by_total true p false h k l = ground arith
  ahead_by_total false true false h k l = ground arith

pub is_ahead-compare_le :
    (a b : Metrics) → leb_ℤ (compare_metrics a b) (pos 0) ≡ true → is_ahead b a ≡ false
unfolding is_ahead compare_metrics
is_ahead-compare_le a b h = ahead_by-compare_le a.score_ranking b.score_ranking _ _ h λ h₁.
    ahead_by-compare_le a.super_double_hits b.super_double_hits _ _ h₁
      λ h₂. ahead_by-compare_le a.double_hits b.double_hits _ _ h₂ λ h₃. ground arith

pub is_ahead-compare_gt :
    (a b : Metrics) → leb_ℤ (compare_metrics a b) (pos 0) ≡ false → is_ahead a b ≡ false
unfolding is_ahead compare_metrics
is_ahead-compare_gt a b h = ahead_by-compare_gt a.score_ranking b.score_ranking _ _ h λ h₁.
    ahead_by-compare_gt a.super_double_hits b.super_double_hits _ _ h₁
      λ h₂. ahead_by-compare_gt a.double_hits b.double_hits _ _ h₂ λ h₃. ground arith

pub not_ahead_trans :
    (a b c : Metrics) → is_ahead b a ≡ false → is_ahead c b ≡ false → is_ahead c a ≡ false
unfolding is_ahead
not_ahead_trans a b c h k =
    ahead_by_trans a.score_ranking b.score_ranking c.score_ranking _ _ _ h k λ h₁ k₁.
      ahead_by_trans a.super_double_hits b.super_double_hits c.super_double_hits _ _ _ h₁ k₁
        λ h₂ k₂.
          ahead_by_trans a.double_hits b.double_hits c.double_hits _ _ _ h₂ k₂ λ h₃ k₃. ground arith

pub is_ahead_irrefl : (a : Metrics) → is_ahead a a ≡ false
unfolding is_ahead ahead_by
is_ahead_irrefl a = ground arith

pub not_same-is_ahead :
    (a b : Metrics)
    → same_official_position b a ≡ false
    → is_ahead b a ≡ false
    → is_ahead a b ≡ true
unfolding is_ahead same_official_position
not_same-is_ahead a b h k = ahead_by_total a.score_ranking b.score_ranking _ _ _ h k λ h₁ k₁.
    ahead_by_total a.super_double_hits b.super_double_hits _ _ _ h₁ k₁
      λ h₂ k₂. ahead_by_total a.double_hits b.double_hits _ _ _ h₂ k₂ λ h₃ k₃. ground arith

same_parts :
    (a b : Metrics)
    → same_official_position b a ≡ true
    → (eqb_ℤ b.score_ranking a.score_ranking ≡ true)
      × (eqb_ℤ b.super_double_hits a.super_double_hits ≡ true)
      × (eqb_ℤ b.double_hits a.double_hits ≡ true)
      × (b.user_created_at ≡ a.user_created_at)
unfolding same_official_position
same_parts a b h = ground arith

pub same-is_ahead :
    (r a b : Metrics) → same_official_position b a ≡ true → is_ahead r b ≡ is_ahead r a
unfolding is_ahead
same-is_ahead r a b h =
    let (s, d, e, t) = same_parts a b h in
    ahead_by-level a.score_ranking b.score_ranking r.score_ranking _ _ s (
      ahead_by-level a.super_double_hits b.super_double_hits r.super_double_hits _ _ d
        (ahead_by-level a.double_hits b.double_hits r.double_hits _ _ e (rw t)))
