-- ===== src/Typing/Types/Make.antt =====
-- The constructors of src/typing/typing.c that allocate a type. Each gives the type and the arena
-- after it. What one that fails has used up of the arena is left out.
use morphl.Prelude.{
  ◌≡◌, refl, sym, ap, ap₂, ◌∙◌, ◌↔◌, Bool, true, Option, none, some, Option-cases, Bool-cases,
  if◌then◌else◌, inl, inr, some-injective,
}
use morphl.Util.Arena.{Arena}
use morphl.Typing.Types.{
  PlainKind, MorphlType, MorphlTypes, Fields, no_type, is_null, plain, func, ref, block, group,
  no_types, more_types, no_fields, type_count, field_count, type_equals, arena_alloc, alloc_array,
  type_size, pointer_size, sym_size, ◌>=>◌,
}
use morphl.Typing.Types.Equality.{type_equals_iff}

abbrev pub Made : Type 0
Made = Option (MorphlType × Arena)

-- `morphl_type_unknown`, `_void`, `_int`, `_float`, `_string`, `_ident` and `_bool`.
unfoldable pub morphl_type_plain : Arena → PlainKind → Made
morphl_type_plain a k = arena_alloc a type_size >=> λ a₁. some (plain k, a₁)

-- The array of parameters: of one, unless it is NULL.
unfoldable pub param_types : Arena → MorphlType → Option (MorphlTypes × Arena)
param_types a param =
    if is_null param
    then some (no_types, a)
    else arena_alloc a pointer_size >=> λ a₁. some (more_types param no_types, a₁)

unfoldable pub morphl_type_func : Arena → MorphlType → MorphlType → Made
morphl_type_func a param result =
    if is_null result
    then none
    else arena_alloc a type_size >=> λ a₁. param_types a₁ param >=> λ c. some (func c.0 result, c.1)

unfoldable pub morphl_type_ref : Arena → MorphlType → Bool → Bool → Made
morphl_type_ref a target is_mutable is_inline =
    if is_null target
    then none
    else arena_alloc a type_size >=> λ a₁. some (ref target is_mutable is_inline, a₁)

-- The elements are `none` for a NULL array.
unfoldable pub morphl_type_group : Arena → Option MorphlTypes → Made
morphl_type_group a none = arena_alloc a type_size >=> λ a₁. some (group no_types, a₁)
morphl_type_group a (some elems) = arena_alloc a type_size >=> λ a₁.
    alloc_array a₁ (type_count elems) pointer_size >=> λ a₂. some (group elems, a₂)

-- The fields are `none` if one of the arrays is NULL.
unfoldable pub morphl_type_block : Arena → Option Fields → Made
morphl_type_block a none = arena_alloc a type_size >=> λ a₁. some (block no_fields, a₁)
morphl_type_block a (some fields) = arena_alloc a type_size >=> λ a₁.
    alloc_array a₁ (field_count fields) sym_size >=> λ a₂.
    alloc_array a₂ (field_count fields) pointer_size >=> λ a₃. some (block fields, a₃)

-- The parameters of a function that takes this one.
abbrev params : MorphlType → MorphlTypes
params t = if is_null t then no_types else more_types t no_types

param_types-params :
    (a : Arena) (param : MorphlType) {ps : MorphlTypes} {a' : Arena}
    → param_types a param ≡ some (ps, a')
    → ps ≡ params param
unfolding param_types
param_types-params a param {ps} h = elim (Bool-cases (is_null param)) [
  | inl null ↦
      rw null
        (sym (ap (λ (x : MorphlTypes × Arena). x.0) (some-injective (rw (null, param_types) at h))))
  | inr given ↦ elim (Option-cases (arena_alloc a pointer_size)) [
    | inl full ↦ cc (rw (given, full, param_types) at h)
    | inr (a₁, e) ↦ rw given (
        sym (
          ap (λ (x : MorphlTypes × Arena). x.0) (some-injective (rw (given, e, param_types) at h))))
  ]
]

-- The types that stand in the parameters and the result of a function.
abbrev ends : MorphlType → MorphlType × MorphlType
ends (func no_types r) = (no_type, r)
ends (func (more_types p ps) r) = (p, r)
ends _ = (no_type, no_type)

is_null-no_type : (t : MorphlType) → is_null t ≡ true → t ≡ no_type
is_null-no_type no_type h = refl
is_null-no_type _ h = cc

ends-func : (p r : MorphlType) → ends (func (params p) r) ≡ (p, r)
ends-func p r = elim (Bool-cases (is_null p)) [
  | inl null ↦ rw null (ap (λ x. (x, r)) (sym (is_null-no_type p null)))
  | inr given ↦ rw given refl
]

func_is :
    (a : Arena) (p r : MorphlType) {t : MorphlType} {a' : Arena}
    → morphl_type_func a p r ≡ some (t, a')
    → t ≡ func (params p) r
unfolding morphl_type_func
func_is a p r h = elim (Bool-cases (is_null r)) [
  | inl null ↦ cc (rw (null, morphl_type_func) at h)
  | inr given ↦ elim (Option-cases (arena_alloc a type_size)) [
    | inl full ↦ cc (rw (given, full, morphl_type_func) at h)
    | inr (a₁, e) ↦ elim (Option-cases (param_types a₁ p)) [
      | inl full ↦ cc (rw (given, e, full, morphl_type_func) at h)
      | inr ((ps, a₂), e') ↦
          let made =
            ap (λ (x : MorphlType × Arena). x.0)
              (some-injective (rw (given, e, e', morphl_type_func) at h)) in
          sym made ∙ ap (λ x. func x r) (param_types-params a₁ p e')
    ]
  ]
]

-- Two function types that were made are equal for the checker exactly if they were made of the same
-- parameter type, or both of none, and the same return type.
pub morphl_type_func-type_equals :
    (a b : Arena) (p r q s : MorphlType) {t u : MorphlType} {a' b' : Arena}
    → morphl_type_func a p r ≡ some (t, a')
    → morphl_type_func b q s ≡ some (u, b')
    → (type_equals t u ≡ true) ↔ ((p ≡ q) × (r ≡ s))
morphl_type_func-type_equals a b p r q s {t} {u} made made' =
    let t_is = func_is a p r made in
    let u_is = func_is b q s made' in
    (
      λ h.
          let same = (type_equals_iff t u).0 h in
          let parts = sym (ends-func p r) ∙ ap ends (sym t_is ∙ same ∙ u_is) ∙ ends-func q s in
          (ap (λ x. x.0) parts, ap (λ x. x.1) parts),
      λ (params_same, results_same).
          (type_equals_iff t u).1
            (t_is ∙ ap₂ (λ x y. func (params x) y) params_same results_same ∙ sym u_is),
    )
