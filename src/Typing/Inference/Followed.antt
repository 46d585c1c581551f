-- ===== src/Typing/Inference/Followed.antt =====
-- Each group of operators in `morphl_infer_type_for_op` of src/typing/inference.c follows its rule.
use morphl.Prelude.{
  ◌≡◌, refl, sym, ap, subst, ◌⊎◌, inl, inr, Bool, true, false, Bool-cases, ◌&&◌, &&-eq_true, not,
  none, Option-cases, List, [], ◌∷◌, Bytes, bytes_eq, codes, ==_iff, if◌then◌else◌, Outcome,
}
use morphl.Typing.Types.{
  PlainKind, MorphlType, no_type, plain, func, ref, block, group, no_types, more_types, unknown,
  void, bool, is_null, type_equals, arena_alloc, type_size, pointer_size,
}
use morphl.Typing.Types.Equality.{type_equals_iff, plain_code-injective}
use morphl.Typing.Types.Make.{morphl_type_plain, morphl_type_func, morphl_type_ref, param_types}
use morphl.Typing.Context.{TypeContext}
use morphl.Typing.Context.Bindings.{type_context_set_return_type}
use morphl.Typing.Inference.{
  unwrap_ref, types_comparable, has_kind, Inferred, no_result, gives, plain_type, infer_ref,
  infer_forward, infer_comparison, infer_two, infer_one, infer_func, infer_ret, infer_call,
  branch_type, result_of, infer_if, OpGroup, references, forwards, comparisons, functions,
  returns_op, calls, branches,
}
use morphl.Typing.Inference.Rules.{Gives, Gives-bind}
use morphl.Typing.Inference.Typed.{
  OnTwo, OnOne, Returns, unknown_returned, first_return, same_return, GroupTyped, qualified,
  forwarded, compared, two_operands, one_operand, function, returned, called, two_branches,
  one_branch, AllGiven,
}

-- The call returns, with NULL or with a type of which `P` holds.
abbrev pub Yields : (MorphlType → Type 0) → Outcome Inferred → Type 0
Yields P o = Gives (λ r. (r.result ≡ no_type) ⊎ P r.result) o

pub no_result-Yields : (P : MorphlType → Type 0) (ctx : TypeContext) → Yields P (no_result ctx)
no_result-Yields P ctx =
    (record { result = no_type; context = ctx; written = none }, refl, inl refl)

pub gives-Yields :
    (P : MorphlType → Type 0) (ctx : TypeContext) (t : MorphlType) → P t → Yields P (gives ctx t)
gives-Yields P ctx t p = (record { result = t; context = ctx; written = none }, refl, inr p)

if_true-Yields :
    (P : MorphlType → Type 0) (ctx : TypeContext) (b : Bool) {o : Outcome Inferred}
    → (b ≡ true → Yields P o)
    → Yields P (if b then o else no_result ctx)
if_true-Yields P ctx true h = h refl
if_true-Yields P ctx false h = no_result-Yields P ctx

if_false-Yields :
    (P : MorphlType → Type 0) (ctx : TypeContext) (b : Bool) {o : Outcome Inferred}
    → (b ≡ false → Yields P o)
    → Yields P (if b then no_result ctx else o)
if_false-Yields P ctx true h = no_result-Yields P ctx
if_false-Yields P ctx false h = h refl

pub plain_type-Yields :
    (P : MorphlType → Type 0) (ctx : TypeContext) (k : PlainKind)
    → P (plain k)
    → Yields P (plain_type ctx k)
unfolding morphl_type_plain
plain_type-Yields P ctx k p = elim (Option-cases (arena_alloc ctx.arena type_size)) [
  | inl full ↦ rw full (no_result-Yields P ctx)
  | inr (a, e) ↦ rw e (gives-Yields P (record ctx { arena = a }) (plain k) p)
]

has_kind-plain : (k : PlainKind) (t : MorphlType) → has_kind k t ≡ true → t ≡ plain k
has_kind-plain k (plain l) h = ap plain (plain_code-injective l k ((==_iff _ _).0 h))
has_kind-plain k no_type h = cc
has_kind-plain k (func ps r) h = cc
has_kind-plain k (ref t m i) h = cc
has_kind-plain k (block fs) h = cc
has_kind-plain k (group ts) h = cc

types_comparable-eq : (t u : MorphlType) → types_comparable t u ≡ true → t ≡ u
types_comparable-eq t u h =
    (type_equals_iff t u).0 (&&-eq_true (not (is_null t) && not (is_null u)) _ h).1

types_comparable-given : (t u : MorphlType) → types_comparable t u ≡ true → is_null t ≡ false
types_comparable-given t u h = elim (Bool-cases (is_null t)) [
  | inl null ↦ cc (rw null at h)
  | inr given ↦ given
]

module _ (ctx : TypeContext) (s : Bytes) where
  pub infer_ref-Yields :
      (ts : List MorphlType)
      → Yields
          (GroupTyped ctx s references ts)
          (infer_ref (bytes_eq s (codes "$mut")) (bytes_eq s (codes "$inline")) ts ctx)
  unfolding morphl_type_ref
  infer_ref-Yields [] = no_result-Yields (GroupTyped ctx s references []) ctx
  infer_ref-Yields (t ∷ (u ∷ ts)) =
      no_result-Yields (GroupTyped ctx s references (t ∷ (u ∷ ts))) ctx
  infer_ref-Yields (t ∷ []) = elim (Bool-cases (is_null t)) [
    | inl null ↦ rw null (no_result-Yields (GroupTyped ctx s references (t ∷ [])) ctx)
    | inr given ↦ elim (Option-cases (arena_alloc ctx.arena type_size)) [
      | inl full ↦ rw (given, full) (no_result-Yields (GroupTyped ctx s references (t ∷ [])) ctx)
      | inr (a, e) ↦
          rw (given, e)
            (gives-Yields (GroupTyped ctx s references (t ∷ [])) (record ctx { arena = a }) _
              qualified)
    ]
  ]

  pub infer_forward-Yields :
      (ts : List MorphlType) → Yields (GroupTyped ctx s forwards ts) (infer_forward ts ctx)
  infer_forward-Yields [] = no_result-Yields _ ctx
  infer_forward-Yields (no_type ∷ ts) = no_result-Yields _ ctx
  infer_forward-Yields (plain k ∷ ts) = no_result-Yields _ ctx
  infer_forward-Yields (ref t m i ∷ ts) = no_result-Yields _ ctx
  infer_forward-Yields (block fs ∷ ts) = no_result-Yields _ ctx
  infer_forward-Yields (group us ∷ ts) = no_result-Yields _ ctx
  infer_forward-Yields (func ps r ∷ []) = gives-Yields _ ctx (func ps r) forwarded
  infer_forward-Yields (func ps r ∷ (t ∷ ts)) = no_result-Yields _ ctx

  pub infer_comparison-Yields :
      (ts : List MorphlType) → Yields (GroupTyped ctx s comparisons ts) (infer_comparison ts ctx)
  infer_comparison-Yields [] = no_result-Yields _ ctx
  infer_comparison-Yields (t ∷ []) = no_result-Yields _ ctx
  infer_comparison-Yields (t ∷ (u ∷ (v ∷ ts))) = no_result-Yields _ ctx
  infer_comparison-Yields (t ∷ (u ∷ [])) =
      if_true-Yields _ ctx (types_comparable (unwrap_ref t) (unwrap_ref u)) λ same.
        plain_type-Yields _ ctx bool
          (compared (types_comparable-eq (unwrap_ref t) (unwrap_ref u) same))

  pub infer_two-Yields :
      (g : OpGroup) (k : PlainKind) (ts : List MorphlType)
      → OnTwo g k
      → Yields (GroupTyped ctx s g ts) (infer_two k ts ctx)
  infer_two-Yields g k [] on = no_result-Yields _ ctx
  infer_two-Yields g k (t ∷ []) on = no_result-Yields _ ctx
  infer_two-Yields g k (t ∷ (u ∷ (v ∷ ts))) on = no_result-Yields _ ctx
  infer_two-Yields g k (t ∷ (u ∷ [])) on =
      if_true-Yields _ ctx (has_kind k (unwrap_ref t) && has_kind k (unwrap_ref u)) λ both.
        let (of_left, of_right) = &&-eq_true (has_kind k (unwrap_ref t)) _ both in
        plain_type-Yields _ ctx k
          (two_operands on (has_kind-plain k _ of_left) (has_kind-plain k _ of_right))

  pub infer_one-Yields :
      (g : OpGroup) (k : PlainKind) (ts : List MorphlType)
      → OnOne g k
      → Yields (GroupTyped ctx s g ts) (infer_one k ts ctx)
  infer_one-Yields g k [] on = no_result-Yields _ ctx
  infer_one-Yields g k (t ∷ (u ∷ ts)) on = no_result-Yields _ ctx
  infer_one-Yields g k (t ∷ []) on =
      if_true-Yields _ ctx (has_kind k (unwrap_ref t))
        λ is_k. plain_type-Yields _ ctx k (one_operand on (has_kind-plain k _ is_k))

  pub infer_func-Yields :
      (ts : List MorphlType) → Yields (GroupTyped ctx s functions ts) (infer_func ts ctx)
  unfolding morphl_type_func param_types
  infer_func-Yields [] = no_result-Yields _ ctx
  infer_func-Yields (t ∷ []) = no_result-Yields _ ctx
  infer_func-Yields (t ∷ (u ∷ (v ∷ ts))) = no_result-Yields _ ctx
  infer_func-Yields (t ∷ (u ∷ [])) = elim (Bool-cases (is_null t)) [
    | inl null ↦ rw null (no_result-Yields _ ctx)
    | inr given ↦ elim (Bool-cases (is_null u)) [
      | inl null ↦ rw (given, null) (no_result-Yields _ ctx)
      | inr given' ↦ elim (Option-cases (arena_alloc ctx.arena type_size)) [
        | inl full ↦ rw (given, given', full) (no_result-Yields _ ctx)
        | inr (a, e) ↦ elim (Option-cases (arena_alloc a pointer_size)) [
          | inl full ↦ rw (given, given', e, full) (no_result-Yields _ ctx)
          | inr (a', e') ↦
              rw (given, given', e, e')
                (gives-Yields (GroupTyped ctx s functions (t ∷ (u ∷ [])))
                  (record ctx { arena = a' }) _ function)
        ]
      ]
    ]
  ]

  pub infer_ret-Yields :
      (ts : List MorphlType)
      → AllGiven ts
      → Yields (GroupTyped ctx s returns_op ts) (infer_ret ts ctx)
  unfolding AllGiven
  infer_ret-Yields [] all_given = no_result-Yields _ ctx
  infer_ret-Yields (t ∷ (u ∷ ts)) all_given = no_result-Yields _ ctx
  infer_ret-Yields (t ∷ []) (given, _) =
      if_false-Yields _ ctx (is_null ctx.expected_return_type) λ in_function.
        let settled : Returns ctx.expected_return_type t
            → GroupTyped ctx s returns_op (t ∷ []) (plain void) =
          λ fits. returned in_function fits in
        rw given (elim (Bool-cases (has_kind unknown t)) [
          | inl not_known ↦ rw not_known (
              plain_type-Yields _ ctx void (
                settled (
                  subst (Returns ctx.expected_return_type)
                    (sym (has_kind-plain unknown t not_known)) unknown_returned)))
          | inr known ↦ rw known (elim (Bool-cases (has_kind unknown ctx.expected_return_type)) [
            | inl first ↦ rw first (
                Gives-bind (plain_type (type_context_set_return_type ctx t) void)
                  (plain_type-Yields (GroupTyped ctx s returns_op (t ∷ []))
                    (type_context_set_return_type ctx t) void
                    (settled (
                      subst (λ e. Returns e t)
                        (sym (has_kind-plain unknown ctx.expected_return_type first))
                        first_return)))
                  λ r fits. (_, refl, fits))
            | inr later ↦ rw later (
                if_true-Yields _ ctx
                  (type_equals (unwrap_ref t) (unwrap_ref ctx.expected_return_type))
                  λ same. plain_type-Yields _ ctx void (
                    settled (
                      same_return (
                        (type_equals_iff (unwrap_ref t) (unwrap_ref ctx.expected_return_type)).0
                          same))))
          ])
        ])

  pub infer_call-Yields :
      (ts : List MorphlType) → Yields (GroupTyped ctx s calls ts) (infer_call ts ctx)
  infer_call-Yields [] = no_result-Yields _ ctx
  infer_call-Yields (t ∷ []) = no_result-Yields _ ctx
  infer_call-Yields (t ∷ (u ∷ (v ∷ ts))) = no_result-Yields _ ctx
  infer_call-Yields (t ∷ (u ∷ [])) = result_of-Yields (unwrap_ref t) refl
    where
      result_of-Yields :
          (f : MorphlType)
          → unwrap_ref t ≡ f
          → Yields (GroupTyped ctx s calls (t ∷ (u ∷ []))) (result_of ctx f)
      result_of-Yields no_type e = no_result-Yields _ ctx
      result_of-Yields (plain k) e = no_result-Yields _ ctx
      result_of-Yields (ref r m i) e = no_result-Yields _ ctx
      result_of-Yields (block fs) e = no_result-Yields _ ctx
      result_of-Yields (group us) e = no_result-Yields _ ctx
      result_of-Yields (func ps r) e = gives-Yields _ ctx r (called e)

  -- The branches of `$if`, once the condition is known to be a Boolean.
  branch_type-Yields :
      (c t : MorphlType)
      → unwrap_ref c ≡ plain bool
      → is_null t ≡ false
      → Yields (GroupTyped ctx s branches (c ∷ (t ∷ []))) (branch_type ctx t)
  branch_type-Yields c no_type is_bool given = cc
  branch_type-Yields c (plain k) is_bool given =
      gives-Yields _ ctx (plain k) (one_branch is_bool refl)
  branch_type-Yields c (func ps r) is_bool given =
      gives-Yields _ ctx (func ps r) (one_branch is_bool refl)
  branch_type-Yields c (ref t m i) is_bool given =
      gives-Yields _ ctx (ref t m i) (one_branch is_bool refl)
  branch_type-Yields c (block fs) is_bool given =
      gives-Yields _ ctx (block fs) (one_branch is_bool refl)
  branch_type-Yields c (group no_types) is_bool given = no_result-Yields _ ctx
  branch_type-Yields c (group (more_types t no_types)) is_bool given =
      if_true-Yields _ ctx (types_comparable t no_type) λ same. elim (Bool-cases (is_null t)) [
        | inl null ↦ cc (rw null at same)
        | inr some_type ↦ cc (rw some_type at same)
      ]
  branch_type-Yields c (group (more_types t (more_types u (more_types v us)))) is_bool given =
      no_result-Yields _ ctx
  branch_type-Yields c (group (more_types t (more_types u no_types))) is_bool given =
      if_true-Yields _ ctx (types_comparable t u) λ same. gives-Yields _ ctx t (
        subst
          (λ v.
            GroupTyped ctx s branches (c ∷ (group (more_types t (more_types v no_types)) ∷ [])) t)
          (types_comparable-eq t u same) (two_branches is_bool (types_comparable-given t u same)))

  pub infer_if-Yields :
      (ts : List MorphlType) → AllGiven ts → Yields (GroupTyped ctx s branches ts) (infer_if ts ctx)
  unfolding AllGiven
  infer_if-Yields [] all_given = no_result-Yields _ ctx
  infer_if-Yields (c ∷ []) all_given = no_result-Yields _ ctx
  infer_if-Yields (c ∷ (t ∷ (u ∷ ts))) all_given = no_result-Yields _ ctx
  infer_if-Yields (c ∷ (t ∷ [])) (_, (given, _)) =
      if_true-Yields _ ctx (has_kind bool (unwrap_ref c))
        λ is_bool. branch_type-Yields c t (has_kind-plain bool (unwrap_ref c) is_bool) given
