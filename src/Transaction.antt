-- ===== src/Transaction.antt =====
-- A Prisma interactive transaction: state passing with exceptions. A throw rolls the database back,
-- so an error carries no state; `transact` is `prisma.$transaction`, seen from outside.
use boteco12_api.Prelude.{◌≡◌, refl, ◌⊎◌, inl, inr, Bool, true, false}
use boteco12_api.Errors.{Error, Result, ok, err}

abbrev pub Tx : Type 0 → Type 0 → Type 0
Tx S A = S → Result (A × S)

abbrev pub continue : {S A B : Type 0} → Result (A × S) → (A → Tx S B) → Result (B × S)
continue (ok (a, s)) f = f a s
continue (err e) f = err e

infixl 5 ◌>>=◌ ◌>>◌
abbrev pub ◌>>=◌ : {S A B : Type 0} → Tx S A → (A → Tx S B) → Tx S B
◌>>=◌ m f s = continue (m s) f

abbrev pub ◌>>◌ : {S A B : Type 0} → Tx S A → Tx S B → Tx S B
m >> k = m >>= λ _. k

module _ {S A : Type 0} where
  abbrev pub pure : A → Tx S A
  pure a s = ok (a, s)

  abbrev pub throw : Error → Tx S A
  throw e s = err e

  abbrev pub gets : (S → A) → Tx S A
  gets f s = ok (f s, s)

  abbrev pub lift : Result A → Tx S A
  lift (ok a) s = ok (a, s)
  lift (err e) s = err e

-- `if (c) throw e`
abbrev pub throw_if : {S : Type 0} → Bool → Error → Tx S (Unit {0})
throw_if true e s = err e
throw_if false e s = ok (tt, s)

abbrev pub modify : {S : Type 0} → (S → S) → Tx S (Unit {0})
modify f s = ok (tt, f s)

-- The state after a call of `prisma.$transaction`: unchanged if the callback threw.
abbrev pub committed : {S A : Type 0} → S → Result (A × S) → S
committed s (ok (a, s')) = s'
committed s (err e) = s

-- What a transaction that began in `s` is: it threw, or it returned a value and a state.
pub Result-cases :
    {S A : Type 0} (r : Result (A × S))
    → ((e : Error) × (r ≡ err e)) ⊎ ((a : A) × (s : S) × (r ≡ ok (a, s)))
Result-cases (ok (a, s)) = inr (a, s, refl)
Result-cases (err e) = inl (e, refl)

-- A successful sequence has successful parts.
pub >>=-eq-ok :
    {S A B : Type 0} (m : Tx S A) (f : A → Tx S B) (s : S) {b : B} {u : S}
    → (m >>= f) s ≡ ok (b, u)
    → (a : A) × (t : S) × (m s ≡ ok (a, t)) × (f a t ≡ ok (b, u))
>>=-eq-ok {S} {A} {B} m f s {b} {u} h = go (m s) refl h
  where
    go :
        (r : Result (A × S))
        → m s ≡ r
        → continue r f ≡ ok (b, u)
        → (a : A) × (t : S) × (m s ≡ ok (a, t)) × (f a t ≡ ok (b, u))
    go (ok (a, t)) e k = (a, t, e, k)
    go (err x) e k = cc

-- The same where the first part is a value that may be an error, and where it is a guard.
pub lift-eq-ok :
    {S A B : Type 0} (r : Result A) (f : A → Tx S B) (s : S) {b : B} {u : S}
    → (lift r >>= f) s ≡ ok (b, u)
    → (a : A) × (r ≡ ok a) × (f a s ≡ ok (b, u))
lift-eq-ok (ok a) f s h = (a, refl, h)
lift-eq-ok (err x) f s h = cc

pub throw_if-eq-ok :
    {S B : Type 0} (c : Bool) (x : Error) (m : Tx S B) (s : S) {b : B} {u : S}
    → (throw_if c x >> m) s ≡ ok (b, u)
    → (c ≡ false) × (m s ≡ ok (b, u))
throw_if-eq-ok true x m s h = cc
throw_if-eq-ok false x m s h = (refl, h)
