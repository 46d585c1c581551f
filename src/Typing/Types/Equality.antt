-- ===== src/Typing/Types/Equality.antt =====
-- `morphl_type_equals` of src/typing/typing.c decides whether two types have the same structure.
use morphl.Prelude.{
  ℕ, ◌≡◌, refl, sym, ap, ap₂, subst, ◌∙◌, ◌↔◌, Bool, true, false, ◌&&◌, &&-eq_true, ◌==◌, ==_iff,
  ==_refl, if◌then◌else◌, arith,
}
use morphl.Typing.Types.{
  PlainKind, unknown, void, int, float, string, ident, bool, primitive, trait, plain_code,
  MorphlType, MorphlTypes, Fields, no_type, plain, func, ref, block, group, no_types, more_types,
  no_fields, field, type_count, field_count, same_flag, type_equals, types_equal, fields_equal,
}

same_flag-eq : (a b : Bool) → same_flag a b ≡ true → a ≡ b
same_flag-eq true b h = sym h
same_flag-eq false true h = cc
same_flag-eq false false h = refl

same_flag_refl : (a : Bool) → same_flag a a ≡ true
same_flag_refl true = refl
same_flag_refl false = refl

-- The kind with this code.
kind_of : ℕ → PlainKind
kind_of n =
    if n == 0
    then unknown
    else if n == 1
    then void
    else if n == 2
    then int
    else if n == 3
    then float
    else if n == 4
    then string
    else if n == 5
    then ident
    else if n == 6
    then bool
    else if n == 9
    then primitive
    else trait

kind_of-plain_code : (k : PlainKind) → kind_of (plain_code k) ≡ k
unfolding kind_of plain_code
kind_of-plain_code unknown = refl
kind_of-plain_code void = refl
kind_of-plain_code int = refl
kind_of-plain_code float = refl
kind_of-plain_code string = refl
kind_of-plain_code ident = refl
kind_of-plain_code bool = refl
kind_of-plain_code primitive = refl
kind_of-plain_code trait = refl

pub plain_code-injective : (k l : PlainKind) → plain_code k ≡ plain_code l → k ≡ l
plain_code-injective k l h = sym (kind_of-plain_code k) ∙ ap kind_of h ∙ kind_of-plain_code l

mutual
  unfolding type_equals types_equal fields_equal

  equals_same : (t u : MorphlType) → type_equals t u ≡ true → t ≡ u
  equals_same no_type no_type h = refl
  equals_same (plain k) (plain l) h = ap plain (plain_code-injective k l ((==_iff _ _).0 h))
  equals_same (func ps r) (func qs s) h =
      let (h₁, result) =
        &&-eq_true (type_count ps == type_count qs && types_equal ps qs) (type_equals r s) h in
      let (counts, params) = &&-eq_true (type_count ps == type_count qs) (types_equal ps qs) h₁ in
      ap₂ func (types_same ps qs ((==_iff _ _).0 counts) params) (equals_same r s result)
  equals_same (ref t m i) (ref u n j) h =
      let (h₁, target) = &&-eq_true (same_flag m n && same_flag i j) (type_equals t u) h in
      let (mutable, inline) = &&-eq_true (same_flag m n) (same_flag i j) h₁ in
      let same = equals_same t u target in
      rw (same, same_flag-eq m n mutable, same_flag-eq i j inline) refl
  equals_same (block fs) (block gs) h =
      let (counts, same) = &&-eq_true (field_count fs == field_count gs) (fields_equal fs gs) h in
      ap block (fields_same fs gs ((==_iff _ _).0 counts) same)
  equals_same (group ts) (group us) h =
      let (counts, same) = &&-eq_true (type_count ts == type_count us) (types_equal ts us) h in
      ap group (types_same ts us ((==_iff _ _).0 counts) same)
  equals_same _ _ h = cc

  types_same :
      (ts us : MorphlTypes) → type_count ts ≡ type_count us → types_equal ts us ≡ true → ts ≡ us
  types_same no_types no_types c h = refl
  types_same no_types (more_types u us) c h = absurd (omega (arith, c))
  types_same (more_types t ts) no_types c h = cc
  types_same (more_types t ts) (more_types u us) c h =
      let (head, tail) = &&-eq_true (type_equals t u) (types_equal ts us) h in
      ap₂ more_types (equals_same t u head) (types_same ts us (omega (arith, c)) tail)

  fields_same :
      (fs gs : Fields) → field_count fs ≡ field_count gs → fields_equal fs gs ≡ true → fs ≡ gs
  fields_same no_fields no_fields c h = refl
  fields_same no_fields (field n u gs) c h = absurd (omega (arith, c))
  fields_same (field m t fs) no_fields c h = cc
  fields_same (field m t fs) (field n u gs) c h =
      let (h₁, rest) = &&-eq_true (m == n && type_equals t u) (fields_equal fs gs) h in
      let (name, type) = &&-eq_true (m == n) (type_equals t u) h₁ in
      let names : m ≡ n = (==_iff m n).0 name in
      ap (λ x. field x t fs) names
      ∙ ap₂ (field n) (equals_same t u type) (fields_same fs gs (omega (arith, c)) rest)

mutual
  unfolding type_equals types_equal fields_equal

  equals_self : (t : MorphlType) → type_equals t t ≡ true
  equals_self no_type = refl
  equals_self (plain k) = ==_refl (plain_code k)
  equals_self (func ps r) = rw (==_refl (type_count ps), types_self ps) (equals_self r)
  equals_self (ref t m i) = rw (same_flag_refl m, same_flag_refl i) (equals_self t)
  equals_self (block fs) = rw (==_refl (field_count fs)) (fields_self fs)
  equals_self (group ts) = rw (==_refl (type_count ts)) (types_self ts)

  types_self : (ts : MorphlTypes) → types_equal ts ts ≡ true
  types_self no_types = refl
  types_self (more_types t ts) = rw (equals_self t) (types_self ts)

  fields_self : (fs : Fields) → fields_equal fs fs ≡ true
  fields_self no_fields = refl
  fields_self (field n t fs) = rw (==_refl n, equals_self t) (fields_self fs)

-- Two types are equal for the checker exactly if they are the same structure: the same kind, with
-- the same flags, field names and order, and the same types within.
pub type_equals_iff : (t u : MorphlType) → (type_equals t u ≡ true) ↔ (t ≡ u)
type_equals_iff t u = (equals_same t u, λ e. subst (λ x. type_equals t x ≡ true) e (equals_self t))
