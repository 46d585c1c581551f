-- ===== src/Prelude/Outcomes.antt =====
-- Results of the fallible code: `failed` is a C function that returns false or NULL, and `fault`
-- is a read through a NULL pointer or past an array, which C leaves undefined.
use mathlib.Core.Bool.{Bool, true, false}
use mathlib.Core.Option.{Option, none, some}
use morphl.Prelude.Tests.{if◌then◌else◌}
use mathlib.Core.Path.{◌≡◌, refl, subst}

pub data Outcome {ℓ} (A : Type ℓ) : Type ℓ where
  ok : A → Outcome A
  failed : Outcome A
  fault : Outcome A

-- What follows a step runs only on its value.
module _ {ℓ κ} {A : Type ℓ} {B : Type κ} where
  infixl 5 ◌>>=◌
  abbrev pub ◌>>=◌ : Outcome A → (A → Outcome B) → Outcome B
  ok value >>= next = next value
  failed >>= next = failed
  fault >>= next = fault

  -- A sequence that ends well has a first step that ends well.
  pub >>=-eq-ok :
      (first : Outcome A) (next : A → Outcome B) {end : B}
      → (first >>= next) ≡ ok end
      → (mid : A) × (first ≡ ok mid) × (next mid ≡ ok end)
  >>=-eq-ok (ok value) next h = (value, refl, h)
  >>=-eq-ok failed next h = cc
  >>=-eq-ok fault next h = cc

module _ {ℓ} {A : Type ℓ} where
  pub ok-injective : {a b : A} → ok a ≡ ok b → a ≡ b
  ok-injective h = cc

  pub some-injective : {a b : A} → some a ≡ some b → a ≡ b
  some-injective h = cc

-- A value that must be there.
abbrev pub required {ℓ} : {A : Type ℓ} → Option A → Outcome A
required none = failed
required (some a) = ok a

-- What follows an attempt that failed, and what follows one that did not.
module _ {ℓ κ} {A : Type ℓ} {B : Type κ} where
  abbrev pub attempt : Outcome A → Outcome B → (A → Outcome B) → Outcome B
  attempt (ok a) instead next = next a
  attempt failed instead next = instead
  attempt fault instead next = fault

-- `P` holds of the value, and `E` of a fault.
pub data Post {ℓ} {A : Type ℓ} (P : A → Type ℓ) (E : Type ℓ) : Outcome A → Type ℓ where
  returns : {a : A} → P a → Post P E (ok a)
  fails : Post P E failed
  faults : E → Post P E fault

module _ {ℓ} {A B : Type ℓ} {P : A → Type ℓ} {Q : B → Type ℓ} {E : Type ℓ} where
  pub Post-bind :
      {r : Outcome A} {f : A → Outcome B}
      → Post P E r
      → ((a : A) → P a → Post Q E (f a))
      → Post Q E (r >>= f)
  Post-bind (returns h) k = k _ h
  Post-bind fails k = fails
  Post-bind (faults e) k = faults e

  pub Post-attempt :
      {r : Outcome A} {instead : Outcome B} {next : A → Outcome B}
      → Post P E r
      → Post Q E instead
      → ((a : A) → P a → Post Q E (next a))
      → Post Q E (attempt r instead next)
  Post-attempt (returns h) i k = k _ h
  Post-attempt fails i k = i
  Post-attempt (faults e) i k = faults e

module _ {ℓ} {A : Type ℓ} {P : A → Type ℓ} {E : Type ℓ} where
  pub Post-required : (o : Option A) → ((a : A) → o ≡ some a → P a) → Post P E (required o)
  Post-required none h = fails
  Post-required (some a) h = returns (h a refl)

  pub Post-if :
      (b : Bool) {x y : Outcome A}
      → (b ≡ true → Post P E x)
      → (b ≡ false → Post P E y)
      → Post P E (if b then x else y)
  Post-if true f g = f refl
  Post-if false f g = g refl

  pub Post-weaken :
      {Q : A → Type ℓ} {r : Outcome A} → ((a : A) → P a → Q a) → Post P E r → Post Q E r
  Post-weaken f (returns h) = returns (f _ h)
  Post-weaken f fails = fails
  Post-weaken f (faults e) = faults e

  pub of_ok : {r : Outcome A} {a : A} → Post P E r → r ≡ ok a → P a
  of_ok (returns h) e = subst P (ok-injective e) h
  of_ok fails e = cc
  of_ok (faults _) e = cc

-- A result that no fault can be.
pub of_fault {ℓ} :
    {A : Type ℓ} {P : A → Type ℓ} {E : Type ℓ} {r : Outcome A} → Post P E r → r ≡ fault → E
of_fault (returns h) e = cc
of_fault fails e = cc
of_fault (faults h) e = h
