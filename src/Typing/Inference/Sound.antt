-- ===== src/Typing/Inference/Sound.antt =====
-- `morphl_infer_type_for_op` of src/typing/inference.c follows the typing rules.
use morphl.Prelude.{
  ℕ, ◌≡◌, refl, ◌⊎◌, inl, inr, Bool-cases, ◌||◌, ltb, length, Option, none, some, Option-cases,
  List, Bytes, codes, Outcome, ok, ◌>>=◌,
}
use morphl.Util.Intern.{InternTable, interns_lookup}
use morphl.Util.Intern.Invariant.{WellFormed}
use morphl.Parser.Operators.{Registered, operator_info_lookup}
use morphl.Typing.Types.{MorphlType, no_type, void, int, float, bool}
use morphl.Typing.Context.{TypeContext}
use morphl.Typing.Inference.{
  Inferred, no_result, plain_type, infer_ref, OpGroup, references, this_type, file_type,
  global_type, forwards, comparisons, logic, negation, int_arithmetic, float_arithmetic, bitwise,
  bitwise_not, structure, functions, returns_op, calls, branches, group_names, group_of, infer_in,
  one_given, is_op, morphl_infer_type_for_op,
}
use morphl.Typing.Inference.Rules.{
  Gives, Gives-bind, In, Later, Later-refl, Later-then, is_op-bytes_eq, Rows, GroupFits,
  group_of-GroupFits,
}
use morphl.Typing.Inference.Typed.{
  logic_two, int_two, float_two, bits_two, negated, bits_one, GroupTyped, this_scope, file_scope,
  global_scope, structured, AllGiven, names_of, OpTyped, listed, unlisted,
}
use morphl.Typing.Inference.Followed.{
  Yields, no_result-Yields, gives-Yields, plain_type-Yields, infer_ref-Yields, infer_forward-Yields,
  infer_comparison-Yields, infer_two-Yields, infer_one-Yields, infer_func-Yields, infer_ret-Yields,
  infer_call-Yields, infer_if-Yields,
}

group_names-Rows : (s : Bytes) → Rows (λ g s. In s (names_of g)) s group_names
unfolding Rows names_of
group_names-Rows s = (
  λ h. h,
  (
    λ h. h,
    (
      λ h. h,
      (
        λ h. h,
        (
          λ h. h,
          (
            λ h. h,
            (
              λ h. h,
              (
                λ h. h,
                (
                  λ h. h,
                  (
                    λ h. h,
                    (λ h. h, (λ h. h, (λ h. h, (λ h. h, (λ h. h, (λ h. h, (λ h. h, tt))))))),
                  ),
                ),
              ),
            ),
          ),
        ),
      ),
    ),
  ),
)

-- The call returns; the table is a later one, and the type, unless it is NULL, follows the rules.
abbrev pub InfersBy :
    TypeContext
    → ℕ
    → Bytes
    → List MorphlType
    → InternTable
    → Outcome (Inferred × InternTable)
    → Type 0
InfersBy ctx op s ts t o =
    Gives (λ (r, t'). ((r.result ≡ no_type) ⊎ OpTyped ctx s ts r.result) × Later op s t t') o

module _ (ctx : TypeContext) (op : ℕ) (s : Bytes) (t : InternTable) (w : WellFormed t)
    (at : interns_lookup t op ≡ some s) where
  with_table :
      (ts : List MorphlType) (t' : InternTable) (o : Outcome Inferred)
      → Later op s t t'
      → Yields (OpTyped ctx s ts) o
      → InfersBy ctx op s ts t (o >>= λ r. ok (r, t'))
  with_table ts t' o later h = Gives-bind o h λ r fits. ((r, t'), refl, (fits, later))

  by_rule :
      (g : OpGroup) (ts : List MorphlType) {o : Outcome Inferred}
      → In s (names_of g)
      → Yields (GroupTyped ctx s g ts) o
      → Yields (OpTyped ctx s ts) o
  by_rule g ts is_in (r, e, inl null) = (r, e, inl null)
  by_rule g ts is_in (r, e, inr fits) = (r, e, inr (listed is_in fits))

  followed :
      (g : OpGroup) (ts : List MorphlType) {o : Outcome Inferred}
      → In s (names_of g)
      → Yields (GroupTyped ctx s g ts) o
      → InfersBy ctx op s ts t (o >>= λ r. ok (r, t))
  followed g ts {o} is_in h = with_table ts t o (Later-refl op s t w at) (by_rule g ts is_in h)

  references-OpTyped :
      (ts : List MorphlType)
      → In s (names_of references)
      → InfersBy ctx op s ts t (infer_in op (some references) ts ctx t)
  references-OpTyped ts is_in = elim (Bool-cases (one_given ts)) [
    | inl given ↦ rw given (
        Gives-bind (is_op op (codes "$mut") t) (is_op-bytes_eq op s (codes "$mut") t w at)
          λ (is_mutable, t') (m, (w', keeps, at')).
            Gives-bind (is_op op (codes "$inline") t')
              (is_op-bytes_eq op s (codes "$inline") t' w' at')
              λ (is_inline, t'') (i, later).
                with_table ts t'' (infer_ref is_mutable is_inline ts ctx)
                  (Later-then op s t t' t'' (w', keeps, at') later)
                  (rw (m, i) (by_rule references ts is_in (infer_ref-Yields ctx s ts))))
    | inr other ↦ rw other (
        with_table ts t (no_result ctx) (Later-refl op s t w at)
          (no_result-Yields (OpTyped ctx s ts) ctx))
  ]

  infer_in-OpTyped :
      (g : Option OpGroup) (ts : List MorphlType)
      → AllGiven ts
      → GroupFits (λ g s. In s (names_of g)) s group_names g
      → InfersBy ctx op s ts t (infer_in op g ts ctx t)
  infer_in-OpTyped (some references) ts all_given is_in = references-OpTyped ts is_in
  infer_in-OpTyped (some this_type) ts all_given is_in =
      followed this_type ts is_in (gives-Yields _ ctx _ this_scope)
  infer_in-OpTyped (some file_type) ts all_given is_in =
      followed file_type ts is_in (gives-Yields _ ctx _ file_scope)
  infer_in-OpTyped (some global_type) ts all_given is_in =
      followed global_type ts is_in (gives-Yields _ ctx _ global_scope)
  infer_in-OpTyped (some forwards) ts all_given is_in =
      followed forwards ts is_in (infer_forward-Yields ctx s ts)
  infer_in-OpTyped (some comparisons) ts all_given is_in =
      followed comparisons ts is_in (infer_comparison-Yields ctx s ts)
  infer_in-OpTyped (some logic) ts all_given is_in =
      followed logic ts is_in (infer_two-Yields ctx s logic bool ts logic_two)
  infer_in-OpTyped (some negation) ts all_given is_in =
      followed negation ts is_in (infer_one-Yields ctx s negation bool ts negated)
  infer_in-OpTyped (some int_arithmetic) ts all_given is_in =
      followed int_arithmetic ts is_in (infer_two-Yields ctx s int_arithmetic int ts int_two)
  infer_in-OpTyped (some float_arithmetic) ts all_given is_in =
      followed float_arithmetic ts is_in
        (infer_two-Yields ctx s float_arithmetic float ts float_two)
  infer_in-OpTyped (some bitwise) ts all_given is_in =
      followed bitwise ts is_in (infer_two-Yields ctx s bitwise int ts bits_two)
  infer_in-OpTyped (some bitwise_not) ts all_given is_in =
      followed bitwise_not ts is_in (infer_one-Yields ctx s bitwise_not int ts bits_one)
  infer_in-OpTyped (some structure) ts all_given is_in =
      followed structure ts is_in (plain_type-Yields _ ctx void structured)
  infer_in-OpTyped (some functions) ts all_given is_in =
      followed functions ts is_in (infer_func-Yields ctx s ts)
  infer_in-OpTyped (some returns_op) ts all_given is_in =
      followed returns_op ts is_in (infer_ret-Yields ctx s ts all_given)
  infer_in-OpTyped (some calls) ts all_given is_in =
      followed calls ts is_in (infer_call-Yields ctx s ts)
  infer_in-OpTyped (some branches) ts all_given is_in =
      followed branches ts is_in (infer_if-Yields ctx s ts all_given)
  infer_in-OpTyped none ts all_given not_in =
      with_table ts t (plain_type ctx void) (Later-refl op s t w at)
        (plain_type-Yields _ ctx void (unlisted not_in))

-- The typing of operators is sound and total: for the id of an operator's name and arguments of
-- which no type is NULL, the call returns, the intern table stays well formed and keeps its
-- strings, and the type is NULL or the one that the rule for that name gives to the types of the
-- arguments.
pub morphl_infer_type_for_op_sound :
    (registry : List Registered) (ctx : TypeContext) (op : ℕ) (s : Bytes) (ts : List MorphlType)
    (t : InternTable)
    → WellFormed t
    → interns_lookup t op ≡ some s
    → AllGiven ts
    → InfersBy ctx op s ts t (morphl_infer_type_for_op registry ctx t op ts)
unfolding morphl_infer_type_for_op
morphl_infer_type_for_op_sound registry ctx op s ts t w at all_given =
    elim (Option-cases (operator_info_lookup registry op)) [
      | inl not_known ↦ rw (not_known, morphl_infer_type_for_op) refused
      | inr (info, known) ↦
          rw (known, morphl_infer_type_for_op)
            (elim (Bool-cases (ltb (length ts) info.min_args || ltb info.max_args (length ts))) [
              | inl wrong_count ↦ rw wrong_count refused
              | inr fits_count ↦ rw fits_count (
                  Gives-bind (group_of op group_names t)
                    (group_of-GroupFits (λ g s. In s (names_of g)) op s group_names t
                      (group_names-Rows s) w at)
                    λ (g, t') (fits, (w', keeps, at')).
                      later_InfersBy (w', keeps, at')
                        (infer_in-OpTyped ctx op s t' w' at' g ts all_given fits))
            ])
    ]
  where
    refused : InfersBy ctx op s ts t (no_result ctx >>= λ r. ok (r, t))
    refused =
        with_table ctx op s t w at ts t (no_result ctx) (Later-refl op s t w at)
          (no_result-Yields (OpTyped ctx s ts) ctx)

    later_InfersBy :
        {t' : InternTable} {o : Outcome (Inferred × InternTable)}
        → Later op s t t'
        → InfersBy ctx op s ts t' o
        → InfersBy ctx op s ts t o
    later_InfersBy {t'} later ((r, t''), runs, (fits, later')) =
        ((r, t''), runs, (fits, Later-then op s t t' t'' later later'))
