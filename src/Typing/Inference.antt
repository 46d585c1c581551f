-- ===== src/Typing/Inference.antt =====
-- src/typing/inference.c: the types of operators, `morphl_infer_type_for_op`. Messages are left out.
-- A type is a value here, so a write into the type of the current function, which is shared, is
-- part of the result. `morphl_infer_type_of_ast` is not modelled.
pub mod Rules
pub mod Typed
pub mod Followed
pub mod Owner
pub mod Given
pub mod Complete
pub mod Sound
use morphl.Prelude.{
  ℕ, Bool, true, false, not, ◌&&◌, ◌||◌, Option, none, some, List, [], ◌∷◌, length, Bytes, codes,
  ltb, ◌==◌, if◌then◌else◌, Outcome, ok, fault, ◌>>=◌,
}
use morphl.Util.Intern.{InternTable, interns_intern}
use morphl.Parser.Operators.{Registered, operator_info_lookup}
use morphl.Typing.Types.{
  PlainKind, MorphlType, no_type, plain, func, ref, group, no_types, more_types, unknown, void, int,
  float, bool, plain_code, is_null, type_equals,
}
use morphl.Typing.Types.Make.{Made, morphl_type_plain, morphl_type_func, morphl_type_ref}
use morphl.Typing.Context.{TypeContext}
use morphl.Typing.Context.Bindings.{
  type_context_get_this, type_context_get_current_func, type_context_set_return_type,
}

-- References are followed to what they refer to.
unfoldable pub unwrap_ref : MorphlType → MorphlType
unwrap_ref (ref t m i) = let target = unwrap_ref t in if is_null t then ref t m i else target
unwrap_ref t = t

abbrev pub types_comparable : MorphlType → MorphlType → Bool
types_comparable a b = not (is_null a) && not (is_null b) && type_equals a b

abbrev pub has_kind : PlainKind → MorphlType → Bool
has_kind k (plain l) = plain_code l == plain_code k
has_kind k _ = false

-- The type, NULL for an error, the context, and the return type that is written into the type of the
-- current function, if any.
pub record Inferred : Type 0 where
  pub result : MorphlType
  pub context : TypeContext
  pub written : Option MorphlType

abbrev pub gives : TypeContext → MorphlType → Outcome Inferred
gives ctx t = ok (record { result = t; context = ctx; written = none })

abbrev pub no_result : TypeContext → Outcome Inferred
no_result ctx = gives ctx no_type

-- A type that is allocated.
abbrev pub allocated : TypeContext → Made → Outcome Inferred
allocated ctx none = no_result ctx
allocated ctx (some (t, a)) = gives (record ctx { arena = a }) t

abbrev pub plain_type : TypeContext → PlainKind → Outcome Inferred
plain_type ctx k = allocated ctx (morphl_type_plain ctx.arena k)

-- What is inferred for a group of operators from the types of the arguments.
abbrev pub Rule : Type 0
Rule = List MorphlType → TypeContext → Outcome Inferred

abbrev pub infer_ref : Bool → Bool → Rule
infer_ref is_mutable is_inline (t ∷ []) ctx =
    allocated ctx (morphl_type_ref ctx.arena t is_mutable is_inline)
infer_ref is_mutable is_inline _ ctx = no_result ctx

abbrev pub infer_forward : Rule
infer_forward (func ps r ∷ []) ctx = gives ctx (func ps r)
infer_forward _ ctx = no_result ctx

abbrev pub infer_comparison : Rule
infer_comparison (t ∷ (u ∷ [])) ctx =
    if types_comparable (unwrap_ref t) (unwrap_ref u) then plain_type ctx bool else no_result ctx
infer_comparison _ ctx = no_result ctx

-- Two arguments of one plain kind, or one.
abbrev pub infer_two : PlainKind → Rule
infer_two k (t ∷ (u ∷ [])) ctx =
    if has_kind k (unwrap_ref t) && has_kind k (unwrap_ref u)
    then plain_type ctx k
    else no_result ctx
infer_two k _ ctx = no_result ctx

abbrev pub infer_one : PlainKind → Rule
infer_one k (t ∷ []) ctx = if has_kind k (unwrap_ref t) then plain_type ctx k else no_result ctx
infer_one k _ ctx = no_result ctx

abbrev pub infer_func : Rule
infer_func (param ∷ (result ∷ [])) ctx =
    if is_null param || is_null result
    then no_result ctx
    else allocated ctx (morphl_type_func ctx.arena param result)
infer_func _ ctx = no_result ctx

abbrev pub is_func : MorphlType → Bool
is_func (func ps r) = true
is_func _ = false

-- The first `$ret` of a function sets its return type, and the others must have it.
abbrev pub infer_ret : Rule
infer_ret (t ∷ []) ctx =
    if is_null ctx.expected_return_type
    then no_result ctx
    else if is_null t || has_kind unknown t
    then plain_type ctx void
    else if has_kind unknown ctx.expected_return_type
    then (plain_type (type_context_set_return_type ctx t) void >>= λ r. ok (record r {
      written = if is_func (type_context_get_current_func ctx) then some t else none;
    }))
    else if type_equals (unwrap_ref t) (unwrap_ref ctx.expected_return_type)
    then plain_type ctx void
    else no_result ctx
infer_ret _ ctx = no_result ctx

abbrev pub result_of : TypeContext → MorphlType → Outcome Inferred
result_of ctx (func ps r) = gives ctx r
result_of ctx _ = no_result ctx

abbrev pub infer_call : Rule
infer_call (t ∷ (u ∷ [])) ctx = result_of ctx (unwrap_ref t)
infer_call _ ctx = no_result ctx

-- A group stands for the two branches, and one of one element has no type for the other branch.
abbrev pub branch_type : TypeContext → MorphlType → Outcome Inferred
branch_type ctx no_type = fault
branch_type ctx (group (more_types t no_types)) =
    if types_comparable t no_type then gives ctx t else no_result ctx
branch_type ctx (group (more_types t (more_types u no_types))) =
    if types_comparable t u then gives ctx t else no_result ctx
branch_type ctx (group _) = no_result ctx
branch_type ctx t = gives ctx t

abbrev pub infer_if : Rule
infer_if (cond_type ∷ (branches ∷ [])) ctx =
    let chosen = branch_type ctx branches in
    if has_kind bool (unwrap_ref cond_type) then chosen else no_result ctx
infer_if _ ctx = no_result ctx

-- The groups of operators, in the order in which the function tells them apart.
pub data OpGroup : Type 0 where
  references this_type file_type global_type forwards comparisons logic negation int_arithmetic
        float_arithmetic bitwise bitwise_not structure functions returns_op calls branches :
      OpGroup

abbrev pub group_names : List (OpGroup × List Bytes)
group_names =
    (references, codes "$mut" ∷ codes "$const" ∷ codes "$inline" ∷ [])
    ∷ (this_type, codes "$this" ∷ [])
    ∷ (file_type, codes "$file" ∷ [])
    ∷ (global_type, codes "$global" ∷ [])
    ∷ (forwards, codes "$forward" ∷ [])
    ∷ (
      comparisons,
      codes "$eq" ∷ codes "$neq" ∷ codes "$lt" ∷ codes "$gt" ∷ codes "$lte" ∷ codes "$gte" ∷ [],
    )
    ∷ (logic, codes "$and" ∷ codes "$or" ∷ [])
    ∷ (negation, codes "$not" ∷ [])
    ∷ (int_arithmetic, codes "$add" ∷ codes "$sub" ∷ codes "$mul" ∷ codes "$div" ∷ [])
    ∷ (float_arithmetic, codes "$fadd" ∷ codes "$fsub" ∷ codes "$fmul" ∷ codes "$fdiv" ∷ [])
    ∷ (
      bitwise,
      codes "$band" ∷ codes "$bor" ∷ codes "$bxor" ∷ codes "$lshift" ∷ codes "$rshift" ∷ [],
    )
    ∷ (bitwise_not, codes "$bnot" ∷ [])
    ∷ (structure, codes "$group" ∷ codes "$block" ∷ [])
    ∷ (functions, codes "$func" ∷ [])
    ∷ (returns_op, codes "$ret" ∷ [])
    ∷ (calls, codes "$call" ∷ [])
    ∷ (branches, codes "$if" ∷ [])
    ∷ []

-- The operator is the one of that name.
abbrev pub is_op : ℕ → Bytes → InternTable → Outcome (Bool × InternTable)
is_op op name t = interns_intern t (some name) >>= λ (sym, t'). ok (op == sym, t')

unfoldable pub is_one_of : ℕ → List Bytes → InternTable → Outcome (Bool × InternTable)
is_one_of op [] t = ok (false, t)
is_one_of op (name ∷ names) t = is_op op name t >>= λ (same, t').
    let rest = is_one_of op names t' in if same then ok (true, t') else rest

unfoldable pub group_of :
    ℕ → List (OpGroup × List Bytes) → InternTable → Outcome (Option OpGroup × InternTable)
group_of op [] t = ok (none, t)
group_of op ((g, names) ∷ others) t = is_one_of op names t >>= λ (found, t').
    let rest = group_of op others t' in if found then ok (some g, t') else rest

abbrev pub infer_group : OpGroup → Bool → Bool → Rule
infer_group references is_mutable is_inline args ctx = infer_ref is_mutable is_inline args ctx
infer_group this_type m i args ctx = gives ctx (type_context_get_this ctx)
infer_group file_type m i args ctx = gives ctx ctx.file_type
infer_group global_type m i args ctx = gives ctx ctx.global_type
infer_group forwards m i args ctx = infer_forward args ctx
infer_group comparisons m i args ctx = infer_comparison args ctx
infer_group logic m i args ctx = infer_two bool args ctx
infer_group negation m i args ctx = infer_one bool args ctx
infer_group int_arithmetic m i args ctx = infer_two int args ctx
infer_group float_arithmetic m i args ctx = infer_two float args ctx
infer_group bitwise m i args ctx = infer_two int args ctx
infer_group bitwise_not m i args ctx = infer_one int args ctx
infer_group structure m i args ctx = plain_type ctx void
infer_group functions m i args ctx = infer_func args ctx
infer_group returns_op m i args ctx = infer_ret args ctx
infer_group calls m i args ctx = infer_call args ctx
infer_group branches m i args ctx = infer_if args ctx

abbrev pub one_given : List MorphlType → Bool
one_given (t ∷ []) = not (is_null t)
one_given _ = false

-- `$mut` and `$inline` are told from `$const` by their names; other groups do not look.
abbrev pub infer_in :
    ℕ
    → Option OpGroup
    → List MorphlType
    → TypeContext
    → InternTable
    → Outcome (Inferred × InternTable)
infer_in op (some references) args ctx t =
    let inferred = is_op op (codes "$mut") t >>= λ (is_mutable, t').
    is_op op (codes "$inline") t' >>= λ (is_inline, t'').
    infer_group references is_mutable is_inline args ctx >>= λ r. ok (r, t'') in
    if one_given args then inferred else (no_result ctx >>= λ r. ok (r, t))
infer_in op (some g) args ctx t = infer_group g false false args ctx >>= λ r. ok (r, t)
infer_in op none args ctx t = plain_type ctx void >>= λ r. ok (r, t)

unfoldable pub morphl_infer_type_for_op :
    List Registered
    → TypeContext
    → InternTable
    → ℕ
    → List MorphlType
    → Outcome (Inferred × InternTable)
morphl_infer_type_for_op registry ctx t op args =
    let inferred = group_of op group_names t >>= λ (g, t'). infer_in op g args ctx t' in
    elim (operator_info_lookup registry op) [
      | none ↦ no_result ctx >>= λ r. ok (r, t)
      | some info ↦
          if ltb (length args) info.min_args || ltb info.max_args (length args)
          then (no_result ctx >>= λ r. ok (r, t))
          else inferred
    ]
