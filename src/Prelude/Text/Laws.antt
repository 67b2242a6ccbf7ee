-- ===== src/Prelude/Text/Laws.antt =====
-- Laws of `split`, `join`, `trim` and `toUpperCase`: the round trip of splitting and joining, and
-- that trimming and raising a token again changes nothing.
use boteco12_api.Prelude.Tests.{◌==◌, if◌then◌else◌, Bool-cases}
use Prim.Native.Nat.{ℕ}
use mathlib.Core.Path.{◌≡◌, refl, ap, ◌∙◌}
use mathlib.Core.Logic.{◌≢◌, inl, inr}
use mathlib.Core.Bool.{false}
use mathlib.Core.List.{List, [], ◌∷◌, ◌++◌}
use native.Mathlib.Omega.{arith}
use boteco12_api.Prelude.Text.{
  Text, is_space, upper, to_upper, trim_start, before_end, trim_end, trim, first_longer, split,
  join, comma,
}

abbrev Lacks : ℕ → Text → Type 0
Lacks sep [] = Unit
Lacks sep (c ∷ s) = ((c == sep) ≡ false) × Lacks sep s

abbrev pub AllLack : ℕ → List Text → Type 0
AllLack sep [] = Unit
AllLack sep (t ∷ ts) = Lacks sep t × AllLack sep ts

pub split-Lacks : (sep : ℕ) (s : Text) → AllLack sep (split sep s)
unfolding split
split-Lacks sep [] = (tt, tt)
split-Lacks sep (c ∷ s) = elim (Bool-cases (c == sep)) [
  | inl e ↦ rw e (tt, split-Lacks sep s)
  | inr e ↦ rw e (longer (split sep s) (split-Lacks sep s) e)
]
  where
    longer :
        (ts : List Text) → AllLack sep ts → (c == sep) ≡ false → AllLack sep (first_longer c ts)
    longer [] h e = ((e, tt), tt)
    longer (t ∷ ts) h e = ((e, h.0), h.1)

split-single : (sep : ℕ) (t : Text) → Lacks sep t → split sep t ≡ t ∷ []
unfolding split
split-single sep [] h = refl
split-single sep (c ∷ t) h = rw (h.0, split-single sep t h.1)

split-append : (sep : ℕ) (t s : Text) → Lacks sep t → split sep (t ++ (sep ∷ s)) ≡ t ∷ split sep s
unfolding split
split-append sep [] s h = ground arith
split-append sep (c ∷ t) s h = rw (h.0, split-append sep t s h.1)

-- Splitting what was joined gives the tokens back.
pub split-join :
    (sep : ℕ) (t : Text) (ts : List Text)
    → AllLack sep (t ∷ ts)
    → split sep (join sep (t ∷ ts)) ≡ t ∷ ts
unfolding join
split-join sep t [] h = split-single sep t h.0
split-join sep t (u ∷ us) h =
    split-append sep t (join sep (u ∷ us)) h.0 ∙ ap (λ r. t ∷ r) (split-join sep u us h.1)

upper_idem : (c : ℕ) → upper (upper c) ≡ upper c
unfolding upper
upper_idem c = ground arith

is_space-upper : (c : ℕ) → is_space (upper c) ≡ is_space c
unfolding upper is_space
is_space-upper c = ground arith

pub to_upper_idem : (s : Text) → to_upper (to_upper s) ≡ to_upper s
to_upper_idem [] = refl
to_upper_idem (c ∷ s) = cc (upper_idem c, to_upper_idem s)

trim_start-to_upper : (s : Text) → trim_start (to_upper s) ≡ to_upper (trim_start s)
unfolding trim_start
trim_start-to_upper [] = refl
trim_start-to_upper (c ∷ s) = elim (Bool-cases (is_space c)) [
  | inl e ↦ rw (is_space-upper c, e) (trim_start-to_upper s)
  | inr e ↦ rw (is_space-upper c, e)
]

before_end-to_upper :
    (c : ℕ) (r : Text) → before_end (upper c) (to_upper r) ≡ to_upper (before_end c r)
unfolding before_end
before_end-to_upper c [] = ground (arith, is_space-upper c)
before_end-to_upper c (d ∷ r) = refl

trim_end-to_upper : (s : Text) → trim_end (to_upper s) ≡ to_upper (trim_end s)
unfolding trim_end
trim_end-to_upper [] = refl
trim_end-to_upper (c ∷ s) = rw (trim_end-to_upper s) (before_end-to_upper c (trim_end s))

pub trim-to_upper : (s : Text) → trim (to_upper s) ≡ to_upper (trim s)
unfolding trim
trim-to_upper s = rw (trim_start-to_upper s) (trim_end-to_upper (trim_start s))

trim_start_idem : (s : Text) → trim_start (trim_start s) ≡ trim_start s
unfolding trim_start
trim_start_idem [] = refl
trim_start_idem (c ∷ s) = ground (arith, trim_start_idem s)

before_end_trimmed :
    (c : ℕ) (r : Text) → trim_end r ≡ r → trim_end (before_end c r) ≡ before_end c r
unfolding trim_end
before_end_trimmed c [] h = ground arith
before_end_trimmed c (d ∷ r) h = rw h

trim_end_idem : (s : Text) → trim_end (trim_end s) ≡ trim_end s
unfolding trim_end
trim_end_idem [] = refl
trim_end_idem (c ∷ s) = before_end_trimmed c (trim_end s) (trim_end_idem s)

trim_start-before_end :
    (c : ℕ) (r : Text)
    → trim_start (before_end c r) ≡ (if is_space c then trim_start r else before_end c r)
unfolding trim_start before_end
trim_start-before_end c [] = ground arith
trim_start-before_end c (d ∷ r) = ground arith

trim_start-trim_end : (s : Text) → trim_start (trim_end s) ≡ trim_end (trim_start s)
unfolding trim_start trim_end
trim_start-trim_end [] = refl
trim_start-trim_end (c ∷ s) = elim (Bool-cases (is_space c)) [
  | inl e ↦ rw (trim_start-before_end c (trim_end s), e) (trim_start-trim_end s)
  | inr e ↦ rw (trim_start-before_end c (trim_end s), e)
]

pub trim_idem : (s : Text) → trim (trim s) ≡ trim s
unfolding trim
trim_idem s =
    rw (trim_start-trim_end (trim_start s), trim_start_idem s) (trim_end_idem (trim_start s))

Lacks-trim_start : (sep : ℕ) (s : Text) → Lacks sep s → Lacks sep (trim_start s)
unfolding trim_start
Lacks-trim_start sep [] h = tt
Lacks-trim_start sep (c ∷ s) h = elim (Bool-cases (is_space c)) [
  | inl e ↦ rw e (Lacks-trim_start sep s h.1)
  | inr e ↦ rw e h
]

Lacks-before_end :
    (sep c : ℕ) (r : Text) → (c == sep) ≡ false → Lacks sep r → Lacks sep (before_end c r)
unfolding before_end
Lacks-before_end sep c [] e h = ground arith
Lacks-before_end sep c (d ∷ r) e h = (e, h)

Lacks-trim_end : (sep : ℕ) (s : Text) → Lacks sep s → Lacks sep (trim_end s)
unfolding trim_end
Lacks-trim_end sep [] h = tt
Lacks-trim_end sep (c ∷ s) h = Lacks-before_end sep c (trim_end s) h.0 (Lacks-trim_end sep s h.1)

pub Lacks-trim : (sep : ℕ) (s : Text) → Lacks sep s → Lacks sep (trim s)
unfolding trim
Lacks-trim sep s h = Lacks-trim_end sep (trim_start s) (Lacks-trim_start sep s h)

pub Lacks-to_upper : (s : Text) → Lacks comma s → Lacks comma (to_upper s)
unfolding upper
Lacks-to_upper [] h = tt
Lacks-to_upper (c ∷ s) h = (ground arith, Lacks-to_upper s h.1)

join-first_longer :
    (sep c : ℕ) (ts : List Text) → ts ≢ [] → join sep (first_longer c ts) ≡ c ∷ join sep ts
unfolding join
join-first_longer sep c [] h = absurd (h refl)
join-first_longer sep c (t ∷ []) h = refl
join-first_longer sep c (t ∷ u ∷ us) h = refl

pub split-ne-nil : (sep : ℕ) (s : Text) → split sep s ≢ []
unfolding split
split-ne-nil sep [] h = cc
split-ne-nil sep (c ∷ s) h = ground (arith, first_longer-ne-nil c (split sep s))
  where
    first_longer-ne-nil : (c : ℕ) (ts : List Text) → first_longer c ts ≢ []
    first_longer-ne-nil c [] h = cc
    first_longer-ne-nil c (t ∷ ts) h = cc

join-cons : (sep : ℕ) (ts : List Text) → ts ≢ [] → join sep ([] ∷ ts) ≡ sep ∷ join sep ts
unfolding join
join-cons sep [] h = absurd (h refl)
join-cons sep (t ∷ ts) h = refl

-- Joining what was split gives the text back.
pub join-split : (sep : ℕ) (s : Text) → join sep (split sep s) ≡ s
unfolding split
join-split sep [] = unfold join in refl
join-split sep (c ∷ s) = elim (Bool-cases (c == sep)) [
  | inl e ↦
      rw e (join-cons sep (split sep s) (split-ne-nil sep s) ∙ ground (arith, join-split sep s))
  | inr e ↦ rw e (
      join-first_longer sep c (split sep s) (split-ne-nil sep s)
      ∙ ap (λ r. c ∷ r) (join-split sep s))
]
