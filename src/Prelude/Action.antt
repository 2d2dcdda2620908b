-- ===== src/Prelude/Action.antt =====
-- Code that changes a state and returns `(T, error)`. What was changed before an error stays
-- changed, so the state comes back beside the error too.
use mathlib.Core.Path.{◌≡◌, refl}
use mathlib.Core.Bool.{Bool, true, false}
use vuln4shift_backend.Prelude.Tests.{if◌then◌else◌}
use mathlib.Core.List.{List, [], ◌∷◌}
use native.Mathlib.Omega.{arith}
use vuln4shift_backend.Prelude.Results.{Result, ok, err}

abbrev pub Action : Type 0 → Type 0 → Type 0 → Type 0
Action S E A = S → S × Result E A

module _ {S E A : Type 0} where
  abbrev pub pure : A → Action S E A
  pure a s = (s, ok a)

  abbrev pub fail : E → Action S E A
  fail e s = (s, err e)

module _ {S E A B : Type 0} where
  abbrev pub continue : (A → Action S E B) → S × Result E A → S × Result E B
  continue f (s, ok a) = f a s
  continue f (s, err e) = (s, err e)

  infixl 5 ◌>>=◌ ◌>>◌
  abbrev pub ◌>>=◌ : Action S E A → (A → Action S E B) → Action S E B
  m >>= f = λ s. continue f (m s)

  abbrev pub ◌>>◌ : Action S E A → Action S E B → Action S E B
  m >> n = m >>= λ _. n

module _ {S E : Type 0} where
  -- `for _, x := range xs { if err := f(x); err != nil { return err } }`
  unfoldable pub each : {A : Type 0} → (A → Action S E (Unit {0})) → List A → Action S E (Unit {0})
  each f [] = pure tt
  each f (x ∷ xs) = f x >>= λ _. each f xs

module _ {S E A B : Type 0} where
  -- Inversion of a successful chain.
  pub bind-eq-ok :
      (r : S × Result E A) (f : A → Action S E B) (s' : S) (b : B)
      → continue f r ≡ (s', ok b)
      → (a : A) × (r ≡ (r.0, ok a)) × (f a r.0 ≡ (s', ok b))
  bind-eq-ok (s, ok a) f s' b e = (a, refl, e)
  bind-eq-ok (s, err x) f s' b e = ground arith

-- What holds of an outcome: a predicate of the value and the state, or one of the error.
abbrev pub Outcome : {S E A : Type 0} → (A → S → Type 0) → (E → Type 0) → S × Result E A → Type 0
Outcome Q X (s, ok a) = Q a s
Outcome Q X (s, err e) = X e

-- A Hoare triple: from a state of `P` the action ends with `Q`, or with an error of `X`.
abbrev pub Holds :
    {S E A : Type 0} → (S → Type 0) → Action S E A → (A → S → Type 0) → (E → Type 0) → Type 0
Holds P m Q X = (s : _) → P s → Outcome Q X (m s)

module _ {S E A B : Type 0} (X : E → Type 0) where
  Outcome-continue :
      (Q : A → S → Type 0) (R : B → S → Type 0) (f : A → Action S E B) (r : S × Result E A)
      → Outcome Q X r
      → ((a : A) → Holds (Q a) (f a) R X)
      → Outcome R X (continue f r)
  Outcome-continue Q R f (s, ok a) h k = k a s h
  Outcome-continue Q R f (s, err e) h k = h

  pub Holds-bind :
      (P : S → Type 0) (Q : A → S → Type 0) (R : B → S → Type 0) (m : Action S E A)
      (f : A → Action S E B)
      → Holds P m Q X
      → ((a : A) → Holds (Q a) (f a) R X)
      → Holds P (m >>= f) R X
  Holds-bind P Q R m f h k s p = Outcome-continue Q R f (m s) (h s p) k

module _ {S E A : Type 0} (X : E → Type 0) (Q R : A → S → Type 0) where
  pub Outcome-map :
      (r : S × Result E A) → ((a : A) (s : S) → Q a s → R a s) → Outcome Q X r → Outcome R X r
  Outcome-map (s, ok a) k h = k a s h
  Outcome-map (s, err e) k h = h

module _ {S E A : Type 0} (X : E → Type 0) (P : S → Type 0) (Q : A → S → Type 0) where
  pub Holds-if :
      (b : Bool) (m n : Action S E A)
      → (b ≡ true → Holds P m Q X)
      → (b ≡ false → Holds P n Q X)
      → Holds P (if b then m else n) Q X
  Holds-if true m n h k = h refl
  Holds-if false m n h k = k refl

-- A triple of the successful runs only.
abbrev pub Any : {E : Type 0} → E → Type 0
Any e = Unit

module _ {S E A : Type 0} (P : S → Type 0) (Q : A → S → Type 0) (m : Action S E A) where
  Outcome-ok :
      (s : S) (r : S × Result E A)
      → m s ≡ r
      → ((t : S) (a : A) → m s ≡ (t, ok a) → Q a t)
      → Outcome Q Any r
  Outcome-ok s (t, ok a) e k = k t a e
  Outcome-ok s (t, err x) e k = tt

  pub Holds-ok : ((s t : S) (a : A) → P s → m s ≡ (t, ok a) → Q a t) → Holds P m Q Any
  Holds-ok k s p = Outcome-ok s (m s) refl λ t a. k s t a p
