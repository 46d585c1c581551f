-- ===== src/Typing/Types.antt =====
-- src/typing/typing.c: types, their construction, equality, and copies. `size` and `align` depend on the
-- constructor only, and `details` is never set. Printing a type is left out.
pub mod Equality
pub mod Clone
pub mod Make
use morphl.Prelude.{ℕ, suc, ◌*◌, Bool, true, false, ◌&&◌, Option, none, some, ◌==◌, if◌then◌else◌}
use morphl.Util.Arena.{Arena, arena_push}

-- The kinds of types that hold no other type.
pub data PlainKind : Type 0 where
  unknown void int float string ident bool primitive trait : PlainKind

-- The values of the C enumeration.
unfoldable pub plain_code : PlainKind → ℕ
plain_code unknown = 0
plain_code void = 1
plain_code int = 2
plain_code float = 3
plain_code string = 4
plain_code ident = 5
plain_code bool = 6
plain_code primitive = 9
plain_code trait = 12

-- `no_type` is a NULL pointer; `ref` has its flags `is_mutable` and `is_inline`.
mutual
  pub data MorphlType : Type 0 where
    no_type : MorphlType
    plain : PlainKind → MorphlType
    func : MorphlTypes → MorphlType → MorphlType
    ref : MorphlType → Bool → Bool → MorphlType
    block : Fields → MorphlType
    group : MorphlTypes → MorphlType

  pub data MorphlTypes : Type 0 where
    no_types : MorphlTypes
    more_types : MorphlType → MorphlTypes → MorphlTypes

  pub data Fields : Type 0 where
    no_fields : Fields
    field : ℕ → MorphlType → Fields → Fields

-- The tests of a pointer for NULL.
abbrev pub is_null : MorphlType → Bool
is_null no_type = true
is_null _ = false

abbrev pub type_count : MorphlTypes → ℕ
type_count no_types = 0
type_count (more_types t ts) = suc (type_count ts)

abbrev pub field_count : Fields → ℕ
field_count no_fields = 0
field_count (field name t fs) = suc (field_count fs)

abbrev pub same_flag : Bool → Bool → Bool
same_flag true b = b
same_flag false true = false
same_flag false false = true

-- `morphl_type_equals`, and its loops over elements and fields, entered with equal counts.
unfoldable mutual
  pub type_equals : MorphlType → MorphlType → Bool
  type_equals no_type no_type = true
  type_equals (plain k) (plain l) = plain_code k == plain_code l
  type_equals (func ps r) (func qs s) =
      type_count ps == type_count qs && types_equal ps qs && type_equals r s
  type_equals (ref t m i) (ref u n j) = same_flag m n && same_flag i j && type_equals t u
  type_equals (block fs) (block gs) = field_count fs == field_count gs && fields_equal fs gs
  type_equals (group ts) (group us) = type_count ts == type_count us && types_equal ts us
  type_equals _ _ = false

  pub types_equal : MorphlTypes → MorphlTypes → Bool
  types_equal no_types us = true
  types_equal (more_types t ts) no_types = false
  types_equal (more_types t ts) (more_types u us) = type_equals t u && types_equal ts us

  pub fields_equal : Fields → Fields → Bool
  fields_equal no_fields gs = true
  fields_equal (field m t fs) no_fields = false
  fields_equal (field m t fs) (field n u gs) = m == n && type_equals t u && fields_equal fs gs

-- `arena_alloc`: nothing is allocated for a size of 0.
unfoldable pub arena_alloc : Arena → ℕ → Option Arena
arena_alloc a size =
    if size == 0 then none else elim (arena_push a size) [ none ↦ none | some (_, a') ↦ some a' ]

-- `sizeof` of a type, a pointer and a symbol on a 64-bit machine.
abbrev pub type_size : ℕ
type_size = 56

abbrev pub pointer_size : ℕ
pointer_size = 8

abbrev pub sym_size : ℕ
sym_size = 4

-- What follows an allocation or a copy, if it succeeded.
infixl 5 ◌>=>◌
abbrev pub ◌>=>◌ {ℓ κ} : {A : Type ℓ} {B : Type κ} → Option A → (A → Option B) → Option B
none >=> next = none
some a >=> next = next a

-- The array of a list of pointers; none is allocated for an empty list.
abbrev pub alloc_array : Arena → ℕ → ℕ → Option Arena
alloc_array a count size = if count == 0 then some a else arena_alloc a (count * size)

-- A return type or a target is copied unless it is NULL.
abbrev pub unless_null :
    MorphlType → Arena → Option (MorphlType × Arena) → Option (MorphlType × Arena)
unless_null no_type a copied = some (no_type, a)
unless_null _ a copied = copied

-- `morphl_type_clone`, with the arena that a copy leaves. What a copy that fails has used up of the
-- arena is left out.
unfoldable mutual
  pub type_clone : Arena → MorphlType → Option (MorphlType × Arena)
  type_clone a no_type = none
  type_clone a (plain k) = arena_alloc a type_size >=> λ a₁. some (plain k, a₁)
  type_clone a (func ps r) = arena_alloc a type_size >=> λ a₁.
      alloc_array a₁ (type_count ps) pointer_size >=> λ a₂. clone_types a₂ ps >=> λ c.
      (let copied = type_clone c.1 r in unless_null r c.1 copied) >=> λ d. some (func c.0 d.0, d.1)
  type_clone a (ref t m i) = arena_alloc a type_size >=> λ a₁.
      (let copied = type_clone a₁ t in unless_null t a₁ copied) >=> λ d. some (ref d.0 m i, d.1)
  type_clone a (block fs) = arena_alloc a type_size >=> λ a₁.
      alloc_array a₁ (field_count fs) sym_size >=> λ a₂.
      alloc_array a₂ (field_count fs) pointer_size >=> λ a₃.
      clone_fields a₃ fs >=> λ c. some (block c.0, c.1)
  type_clone a (group ts) = arena_alloc a type_size >=> λ a₁.
      alloc_array a₁ (type_count ts) pointer_size >=> λ a₂.
      clone_types a₂ ts >=> λ c. some (group c.0, c.1)

  pub clone_types : Arena → MorphlTypes → Option (MorphlTypes × Arena)
  clone_types a no_types = some (no_types, a)
  clone_types a (more_types t ts) =
      type_clone a t >=> λ c. clone_types c.1 ts >=> λ d. some (more_types c.0 d.0, d.1)

  pub clone_fields : Arena → Fields → Option (Fields × Arena)
  clone_fields a no_fields = some (no_fields, a)
  clone_fields a (field n t fs) =
      type_clone a t >=> λ c. clone_fields c.1 fs >=> λ d. some (field n c.0 d.0, d.1)
