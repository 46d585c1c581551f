-- ===== src/Parser/Grammar/Attempts.antt =====
-- C functions of src/parser/parser.c that return false or NULL and leave their state changed all the
-- same: `none` is that result, beside the state after the call. Where the source would go on with memory
-- that it has freed, the outcome is `failed`, and nothing more is said.
use morphl.Prelude.{
  Bool, true, false, Option, none, some, Outcome, ok, failed, fault, attempt, if◌then◌else◌, ◌≡◌,
  refl, ◌⊎◌, inl, inr,
}

abbrev pub Try : Type 0 → Type 0 → Type 0
Try S A = S → Outcome (Option A × S)

module _ {S A : Type 0} where
  abbrev pub give : A → Try S A
  give a s = ok (some a, s)

  abbrev pub give_up : Try S A
  give_up s = ok (none, s)

  abbrev pub out_of_fuel : Try S A
  out_of_fuel s = fault

module _ {S A B : Type 0} where
  abbrev pub after : Try S B → (A → Try S B) → Option A → Try S B
  after instead next none = instead
  after instead next (some a) = next a

  -- A call, what is done if it gives nothing, and what is done with its result.
  abbrev pub tried : Try S A → Try S B → (A → Try S B) → Try S B
  tried first instead next s = attempt (first s) failed (λ (r, s'). after instead next r s')

  infixl 5 ◌>>=◌
  abbrev pub ◌>>=◌ : Try S A → (A → Try S B) → Try S B
  first >>= next = tried first give_up next

abbrev pub Found : {A : Type 0} → (A → Type 0) → Option A → Type 0
Found P none = Unit
Found P (some a) = P a

-- The call returns. It keeps `I` of the state, and what it gives, if anything, satisfies `P`. Or it is
-- `failed`, where the source would use memory that it has freed, and `F` says how that comes.
module _ {S : Type 0} (F : Type 0) (I : S → Type 0) where
  abbrev pub Returns : {A : Type 0} → (A → Type 0) → Outcome (Option A × S) → Type 0
  Returns {A = A} P o =
      (F × (o ≡ failed)) ⊎ ((r : Option A) × (s : S) × (o ≡ ok (r, s)) × I s × Found P r)

  abbrev pub Holds : {A : Type 0} → (A → Type 0) → Try S A → Type 0
  Holds P x = (s : S) → I s → Returns P (x s)

module _ {S : Type 0} {F : Type 0} (I : S → Type 0) where
  module _ {A : Type 0} {P : A → Type 0} where
    pub Holds-give : (a : A) → P a → Holds F I P (give a)
    Holds-give a p s i = inr (some a, s, refl, i, p)

    pub Holds-give_up : Holds F I P give_up
    Holds-give_up s i = inr (none, s, refl, i, tt)

    pub Holds-failed : F → Holds F I P (λ s. failed)
    Holds-failed f s i = inl (f, refl)

    pub Holds-if :
        (b : Bool) {x y : Try S A}
        → (b ≡ true → Holds F I P x)
        → (b ≡ false → Holds F I P y)
        → Holds F I P (if b then x else y)
    Holds-if true f g = f refl
    Holds-if false f g = g refl

  module _ {A B : Type 0} {P : A → Type 0} {Q : B → Type 0} where
    pub Holds-tried :
        (x : Try S A) {instead : Try S B} {next : A → Try S B}
        → Holds F I P x
        → Holds F I Q instead
        → ((a : A) → P a → Holds F I Q (next a))
        → Holds F I Q (tried x instead next)
    Holds-tried x {instead} {next} h i k s inv = elim (h s inv) [
      | inl (f, e) ↦ inl (f, rw e refl)
      | inr (r, s', e, inv', p) ↦ rw e (go r s' inv' p)
    ]
      where
        go : (r : Option A) (s' : S) → I s' → Found P r → Returns F I Q (after instead next r s')
        go none s' inv' p = i s' inv'
        go (some a) s' inv' p = k a p s' inv'

    pub Holds-bind :
        (x : Try S A) {next : A → Try S B}
        → Holds F I P x
        → ((a : A) → P a → Holds F I Q (next a))
        → Holds F I Q (x >>= next)
    Holds-bind x h k = Holds-tried x h Holds-give_up k

  pub Holds-weaken :
      {A : Type 0} {P Q : A → Type 0} (x : Try S A)
      → ((a : A) → P a → Q a)
      → Holds F I P x
      → Holds F I Q x
  Holds-weaken {A = A} {P = P} {Q = Q} x f h s inv = elim (h s inv) [
    | inl doom ↦ inl doom
    | inr (r, s', e, inv', p) ↦ inr (r, s', e, inv', go r p)
  ]
    where
      go : (r : Option A) → Found P r → Found Q r
      go none p = tt
      go (some a) p = f a p
