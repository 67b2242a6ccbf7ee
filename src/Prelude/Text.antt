-- ===== src/Prelude/Text.antt =====
-- JavaScript's `split`, `join`, `trim` and `toUpperCase`, as the services use them. A text is the
-- list of its UTF-16 code units; `toUpperCase` is modelled on the letters a to z.
pub mod Laws
use boteco12_api.Prelude.Tests.{ltb, leb, ◌==◌, if◌then◌else◌, Bool-cases}
use Prim.Native.Nat.{ℕ, ◌-◌}
use mathlib.Core.Path.{◌≡◌, refl}
use mathlib.Core.Logic.{◌↔◌, inl, inr}
use mathlib.Core.Bool.{Bool, true, false, ◌&&◌, ◌||◌}
use mathlib.Core.List.{List, [], ◌∷◌, ◌++◌, map}
use native.Mathlib.Omega.{arith}

abbrev pub Text : Type 0
Text = List ℕ

abbrev pub text_eq : Text → Text → Bool
text_eq [] [] = true
text_eq (x ∷ s) (y ∷ t) = x == y && text_eq s t
text_eq _ _ = false

pub text_eq-eq : (s t : Text) → text_eq s t ≡ true → s ≡ t
text_eq-eq [] [] h = refl
text_eq-eq [] (y ∷ t) h = cc
text_eq-eq (x ∷ s) [] h = cc
text_eq-eq (x ∷ s) (y ∷ t) h = ground (arith, text_eq-eq s t)

text_eq_refl : (s : Text) → text_eq s s ≡ true
text_eq_refl [] = refl
text_eq_refl (x ∷ s) = ground (arith, text_eq_refl s)

-- The code units that `trim` drops: white space and line terminators.
unfoldable pub is_space : ℕ → Bool
is_space c =
    (leb 9 c && leb c 13)
    || c == 32
    || c == 160
    || c == 0x1680
    || (leb 0x2000 c && leb c 0x200a)
    || c == 0x2028
    || c == 0x2029
    || c == 0x202f
    || c == 0x205f
    || c == 0x3000
    || c == 0xfeff

abbrev is_lower : ℕ → Bool
is_lower c = leb b'a' c && leb c b'z'

unfoldable pub upper : ℕ → ℕ
upper c = if is_lower c then c - 32 else c

abbrev pub to_upper : Text → Text
to_upper = map upper

unfoldable pub trim_start : Text → Text
trim_start [] = []
trim_start (c ∷ s) = let rest = trim_start s in if is_space c then rest else c ∷ s

-- One step of `trimEnd`: the code unit before an already trimmed rest.
unfoldable pub before_end : ℕ → Text → Text
before_end c [] = if is_space c then [] else c ∷ []
before_end c (d ∷ s) = c ∷ d ∷ s

unfoldable pub trim_end : Text → Text
unfolding before_end
trim_end [] = []
trim_end (c ∷ s) = before_end c (trim_end s)

unfoldable pub trim : Text → Text
unfolding trim_start trim_end
trim s = trim_end (trim_start s)

abbrev pub first_longer : ℕ → List Text → List Text
first_longer c [] = (c ∷ []) ∷ []
first_longer c (t ∷ ts) = (c ∷ t) ∷ ts

-- `s.split(separator)`, for a separator of one code unit
unfoldable pub split : ℕ → Text → List Text
split sep [] = [] ∷ []
split sep (c ∷ s) = let rest = split sep s in if c == sep then [] ∷ rest else first_longer c rest

-- `tokens.join(separator)`
unfoldable pub join : ℕ → List Text → Text
join sep [] = []
join sep (t ∷ []) = t
join sep (t ∷ u ∷ us) = t ++ (sep ∷ join sep (u ∷ us))

abbrev pub comma : ℕ
comma = 44
