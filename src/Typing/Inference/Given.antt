-- ===== src/Typing/Inference/Given.antt =====
-- The types that each group of operators gives in `morphl_infer_type_for_op` of
-- src/typing/inference.c, when the arena has room.
use morphl.Prelude.{
  ◌≡◌, refl, sym, inl, inr, Bool, true, false, Bool-cases, none, some, [], ◌∷◌, ==_refl,
  if◌then◌else◌, Outcome, ok, ◌>>=◌,
}
use morphl.Util.Arena.{Arena}
use morphl.Typing.Types.{
  PlainKind, MorphlType, MorphlTypes, no_type, plain, func, ref, block, group, no_types, more_types,
  unknown, void, bool, plain_code, is_null, type_equals, arena_alloc, type_size, pointer_size,
}
use morphl.Typing.Types.Equality.{type_equals_iff}
use morphl.Typing.Types.Make.{morphl_type_plain, morphl_type_func, morphl_type_ref, param_types}
use morphl.Typing.Context.{TypeContext}
use morphl.Typing.Context.Bindings.{type_context_get_current_func, type_context_set_return_type}
use morphl.Typing.Inference.{
  unwrap_ref, types_comparable, has_kind, Inferred, plain_type, infer_ref, infer_comparison,
  infer_two, infer_one, infer_func, infer_ret, is_func, infer_call, infer_if,
}
use morphl.Typing.Inference.Rules.{Gives}
use morphl.Typing.Inference.Typed.{Returns, unknown_returned, first_return, same_return, is_group}

-- The arena has room for a type and a pointer.
pub record HasRoom (a : Arena) : Type 0 where
  pub after_type : Arena
  pub type_fits : arena_alloc a type_size ≡ some after_type
  pub after_pointer : Arena
  pub pointer_fits : arena_alloc after_type pointer_size ≡ some after_pointer

-- The call returns with this type.
abbrev pub Results : MorphlType → Outcome Inferred → Type 0
Results u o = Gives (λ r. r.result ≡ u) o

unwrap_ref-given : (t : MorphlType) → is_null t ≡ false → is_null (unwrap_ref t) ≡ false
unfolding unwrap_ref
unwrap_ref-given no_type given = given
unwrap_ref-given (plain k) given = refl
unwrap_ref-given (func ps r) given = refl
unwrap_ref-given (block fs) given = refl
unwrap_ref-given (group ts) given = refl
unwrap_ref-given (ref t m i) given = elim (Bool-cases (is_null t)) [
  | inl null ↦ rw null refl
  | inr given' ↦ rw given' (unwrap_ref-given t given')
]

types_comparable_same : (t : MorphlType) → is_null t ≡ false → types_comparable t t ≡ true
types_comparable_same t given = rw given ((type_equals_iff t t).1 refl)

has_kind_same : (k : PlainKind) {t : MorphlType} → t ≡ plain k → has_kind k t ≡ true
has_kind_same k e = rw e (==_refl (plain_code k))

returned_same :
    {e t : MorphlType}
    → has_kind unknown t ≡ false
    → has_kind unknown e ≡ false
    → Returns e t
    → type_equals (unwrap_ref t) (unwrap_ref e) ≡ true
unfolding plain_code
returned_same known later unknown_returned = cc
returned_same known later first_return = cc
returned_same {e} {t} known later (same_return same) =
    (type_equals_iff (unwrap_ref t) (unwrap_ref e)).1 same

module _ (ctx : TypeContext) (room : HasRoom ctx.arena) where
  pub plain_type-Results : (k : PlainKind) → Results (plain k) (plain_type ctx k)
  unfolding morphl_type_plain
  plain_type-Results k = rw room.type_fits (_, refl, refl)

  pub infer_ref-Results :
      (t : MorphlType) (m i : Bool)
      → is_null t ≡ false
      → Results (ref t m i) (infer_ref m i (t ∷ []) ctx)
  unfolding morphl_type_ref
  infer_ref-Results t m i given = rw (given, room.type_fits) (_, refl, refl)

  pub infer_comparison-Results :
      (t u : MorphlType)
      → is_null t ≡ false
      → unwrap_ref t ≡ unwrap_ref u
      → Results (plain bool) (infer_comparison (t ∷ (u ∷ [])) ctx)
  infer_comparison-Results t u given same =
      rw (sym same, types_comparable_same (unwrap_ref t) (unwrap_ref-given t given))
        (plain_type-Results bool)

  pub infer_two-Results :
      (k : PlainKind) (t u : MorphlType)
      → unwrap_ref t ≡ plain k
      → unwrap_ref u ≡ plain k
      → Results (plain k) (infer_two k (t ∷ (u ∷ [])) ctx)
  infer_two-Results k t u e e' = rw (has_kind_same k e, has_kind_same k e') (plain_type-Results k)

  pub infer_one-Results :
      (k : PlainKind) (t : MorphlType)
      → unwrap_ref t ≡ plain k
      → Results (plain k) (infer_one k (t ∷ []) ctx)
  infer_one-Results k t e = rw (has_kind_same k e) (plain_type-Results k)

  pub infer_func-Results :
      (t u : MorphlType)
      → is_null t ≡ false
      → is_null u ≡ false
      → Results (func (more_types t no_types) u) (infer_func (t ∷ (u ∷ [])) ctx)
  unfolding morphl_type_func param_types
  infer_func-Results t u given given' =
      rw (given, given', room.type_fits, room.pointer_fits) (_, refl, refl)

  pub infer_call-Results :
      (t u : MorphlType) {ps : MorphlTypes} {r : MorphlType}
      → unwrap_ref t ≡ func ps r
      → Results r (infer_call (t ∷ (u ∷ [])) ctx)
  infer_call-Results t u e = rw e (_, refl, refl)

  pub infer_ret-Results :
      (t : MorphlType)
      → is_null ctx.expected_return_type ≡ false
      → is_null t ≡ false
      → Returns ctx.expected_return_type t
      → Results (plain void) (infer_ret (t ∷ []) ctx)
  unfolding morphl_type_plain
  infer_ret-Results t in_function given fits =
      rw (in_function, given)
        (elim (Bool-cases (has_kind unknown t)) [
          | inl not_known ↦ rw not_known (plain_type-Results void)
          | inr known ↦ rw known (elim (Bool-cases (has_kind unknown ctx.expected_return_type)) [
            | inl first ↦ rw first (set_return room)
            | inr later ↦ rw (later, returned_same known later fits) (plain_type-Results void)
          ])
        ])
    where
      set_return :
          HasRoom ctx.arena
          → Results (plain void) (
              plain_type (type_context_set_return_type ctx t) void >>= λ r. ok (record r {
                written = if is_func (type_context_get_current_func ctx) then some t else none;
              }))
      set_return room = rw room.type_fits (_, refl, refl)

  pub infer_if-Results :
      (c t : MorphlType)
      → unwrap_ref c ≡ plain bool
      → is_null t ≡ false
      → is_group t ≡ false
      → Results t (infer_if (c ∷ (t ∷ [])) ctx)
  infer_if-Results c no_type is_bool given single = cc
  infer_if-Results c (group ts) is_bool given single = cc
  infer_if-Results c (plain k) is_bool given single =
      rw (has_kind_same bool is_bool) (_, refl, refl)
  infer_if-Results c (func ps r) is_bool given single =
      rw (has_kind_same bool is_bool) (_, refl, refl)
  infer_if-Results c (ref t m i) is_bool given single =
      rw (has_kind_same bool is_bool) (_, refl, refl)
  infer_if-Results c (block fs) is_bool given single =
      rw (has_kind_same bool is_bool) (_, refl, refl)

  pub both_branches-Results :
      (c t : MorphlType)
      → unwrap_ref c ≡ plain bool
      → is_null t ≡ false
      → Results t (infer_if (c ∷ (group (more_types t (more_types t no_types)) ∷ [])) ctx)
  both_branches-Results c t is_bool given =
      rw (has_kind_same bool is_bool, types_comparable_same t given) (_, refl, refl)
