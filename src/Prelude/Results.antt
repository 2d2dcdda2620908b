-- ===== src/Prelude/Results.antt =====
-- `(T, error)` of Go: a value, or an error of the type `E`.
use mathlib.Core.Path.{◌≡◌, refl}
use mathlib.Core.Logic.{◌⊎◌, inl, inr}
use mathlib.Core.Bool.{Bool, true, false}
use native.Mathlib.Omega.{arith}
use vuln4shift_backend.Prelude.Tests.{if◌then◌else◌}

pub data Result (E A : Type 0) : Type 0 where
  ok : A → Result E A
  err : E → Result E A

infixl 5 ◌>>=◌ ◌>>◌
abbrev pub ◌>>=◌ : {E A B : Type 0} → Result E A → (A → Result E B) → Result E B
ok a >>= f = f a
err e >>= f = err e

abbrev pub ◌>>◌ : {E B : Type 0} → Result E (Unit {0}) → Result E B → Result E B
m >> k = m >>= λ _. k

-- Inversion of a successful chain.
pub >>=-eq-ok :
    {E A B : Type 0} {y : B} (r : Result E A) (next : A → Result E B)
    → (r >>= next) ≡ ok y
    → (x : A) × (r ≡ ok x) × (next x ≡ ok y)
>>=-eq-ok (err x) next same = ground arith
>>=-eq-ok (ok x) next same = (x, refl, same)

-- What a result promises on success and on failure.
abbrev pub Ensures : {E A : Type 0} → (A → Type 0) → (E → Type 0) → Result E A → Type 0
Ensures P Q (ok a) = P a
Ensures P Q (err e) = Q e

module _ {E A : Type 0} (P : A → Type 0) (Q : E → Type 0) where
  pub Ensures-if :
      (b : Bool) (x y : Result E A)
      → (b ≡ true → Ensures P Q x)
      → (b ≡ false → Ensures P Q y)
      → Ensures P Q (if b then x else y)
  Ensures-if true x y hx hy = hx refl
  Ensures-if false x y hx hy = hy refl

  pub Ensures-eq-ok : (r : Result E A) {a : A} → Ensures P Q r → r ≡ ok a → P a
  Ensures-eq-ok r h e = rw e at h

  pub Ensures-eq-err : (r : Result E A) {x : E} → Ensures P Q r → r ≡ err x → Q x
  Ensures-eq-err r h e = rw e at h

  pub Ensures-bind :
      {B : Type 0} (R : B → Type 0) (m : Result E B) (f : B → Result E A)
      → Ensures R Q m
      → ((b : B) → R b → Ensures P Q (f b))
      → Ensures P Q (m >>= f)
  Ensures-bind R (ok b) f hm hf = hf b hm
  Ensures-bind R (err e) f hm hf = hm

-- To split on a computed result and keep the equation.
pub Result-cases :
    {E A : Type 0} (r : Result E A) → ((a : A) × (r ≡ ok a)) ⊎ ((e : E) × (r ≡ err e))
Result-cases (ok a) = inl (a, refl)
Result-cases (err e) = inr (e, refl)
