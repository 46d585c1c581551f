-- ===== src/Typing/Inference/Complete.antt =====
-- `morphl_infer_type_for_op` of src/typing/inference.c gives every type that the rules give.
use morphl.Prelude.{
  ℕ, ◌≡◌, refl, ◌∙◌, false, ◌||◌, ltb, length, Option, some, List, [], ◌∷◌, Bytes, bytes_eq, codes,
  Outcome, ok, ◌>>=◌,
}
use morphl.Util.Intern.{InternTable, interns_lookup}
use morphl.Util.Intern.Invariant.{WellFormed}
use morphl.Parser.Operators.{OperatorRow, Registered, operator_info_lookup}
use morphl.Typing.Types.{MorphlType, ref, void, int, float, bool, is_null}
use morphl.Typing.Context.{TypeContext}
use morphl.Typing.Inference.{
  Inferred, plain_type, infer_ref, OpGroup, references, group_names, group_of, infer_in, is_op,
  morphl_infer_type_for_op,
}
use morphl.Typing.Inference.Rules.{Gives, Gives-bind, is_op-bytes_eq}
use morphl.Typing.Inference.Typed.{
  logic_two, int_two, float_two, bits_two, negated, bits_one, GroupTyped, qualified, this_scope,
  file_scope, global_scope, forwarded, compared, two_operands, one_operand, structured, function,
  returned, called, two_branches, one_branch, AllGiven, OpTyped, listed, unlisted,
}
use morphl.Typing.Inference.Owner.{owner, group_of-owner, owner-names_of, owner-Unlisted}
use morphl.Typing.Inference.Given.{
  HasRoom, Results, plain_type-Results, infer_ref-Results, infer_comparison-Results,
  infer_two-Results, infer_one-Results, infer_func-Results, infer_call-Results, infer_ret-Results,
  infer_if-Results, both_branches-Results,
}

-- The call gives this type.
abbrev pub Infers : MorphlType → Outcome (Inferred × InternTable) → Type 0
Infers u o = Gives (λ (r, t). r.result ≡ u) o

module _ (ctx : TypeContext) (room : HasRoom ctx.arena) (op : ℕ) (s : Bytes) (t : InternTable)
    (w : WellFormed t) (at : interns_lookup t op ≡ some s) where
  then_table :
      {u : MorphlType} (o : Outcome Inferred) → Results u o → Infers u (o >>= λ r. ok (r, t))
  then_table o h = Gives-bind o h λ r e. ((r, t), refl, e)

  references-Infers :
      (u : MorphlType)
      → is_null u ≡ false
      → Infers
          (ref u (bytes_eq s (codes "$mut")) (bytes_eq s (codes "$inline")))
          (infer_in op (some references) (u ∷ []) ctx t)
  references-Infers u given = rw given (
      Gives-bind (is_op op (codes "$mut") t) (is_op-bytes_eq op s (codes "$mut") t w at)
        λ (is_mutable, t') (m, (w', _, at')).
          Gives-bind (is_op op (codes "$inline") t')
            (is_op-bytes_eq op s (codes "$inline") t' w' at')
            λ (is_inline, t'') (i, _).
              Gives-bind (infer_ref is_mutable is_inline (u ∷ []) ctx)
                (infer_ref-Results ctx room u is_mutable is_inline given)
                λ r e. ((r, t''), refl, e ∙ rw (m, i) refl))

  infer_in-GroupTyped :
      {g : OpGroup} {ts : List MorphlType} {u : MorphlType}
      → GroupTyped ctx s g ts u
      → AllGiven ts
      → Infers u (infer_in op (some g) ts ctx t)
  unfolding AllGiven
  infer_in-GroupTyped (qualified {t = u}) (given, _) = references-Infers u given
  infer_in-GroupTyped this_scope _ = (_, refl, refl)
  infer_in-GroupTyped file_scope _ = (_, refl, refl)
  infer_in-GroupTyped global_scope _ = (_, refl, refl)
  infer_in-GroupTyped forwarded _ = (_, refl, refl)
  infer_in-GroupTyped (compared {t = u} {u = v} same) (given, _) =
      then_table _ (infer_comparison-Results ctx room u v given same)
  infer_in-GroupTyped (two_operands {t = u} {u = v} logic_two e e') _ =
      then_table _ (infer_two-Results ctx room bool u v e e')
  infer_in-GroupTyped (two_operands {t = u} {u = v} int_two e e') _ =
      then_table _ (infer_two-Results ctx room int u v e e')
  infer_in-GroupTyped (two_operands {t = u} {u = v} float_two e e') _ =
      then_table _ (infer_two-Results ctx room float u v e e')
  infer_in-GroupTyped (two_operands {t = u} {u = v} bits_two e e') _ =
      then_table _ (infer_two-Results ctx room int u v e e')
  infer_in-GroupTyped (one_operand {t = u} negated e) _ =
      then_table _ (infer_one-Results ctx room bool u e)
  infer_in-GroupTyped (one_operand {t = u} bits_one e) _ =
      then_table _ (infer_one-Results ctx room int u e)
  infer_in-GroupTyped structured _ = then_table _ (plain_type-Results ctx room void)
  infer_in-GroupTyped (function {t = u} {u = v}) (given, (given', _)) =
      then_table _ (infer_func-Results ctx room u v given given')
  infer_in-GroupTyped (returned {t = u} in_function fits) (given, _) =
      then_table _ (infer_ret-Results ctx room u in_function given fits)
  infer_in-GroupTyped (called {t = u} {u = v} e) _ =
      then_table _ (infer_call-Results ctx room u v e)
  infer_in-GroupTyped (two_branches {c = c} {t = u} is_bool given) _ =
      then_table _ (both_branches-Results ctx room c u is_bool given)
  infer_in-GroupTyped (one_branch {c = c} {t = u} is_bool single) (_, (given, _)) =
      then_table _ (infer_if-Results ctx room c u is_bool given single)

  infer_in-OpTyped_owner :
      {g : Option OpGroup} {ts : List MorphlType} {u : MorphlType}
      → g ≡ owner s group_names
      → OpTyped ctx s ts u
      → AllGiven ts
      → Infers u (infer_in op g ts ctx t)
  infer_in-OpTyped_owner is_owner (listed {g = h} is_in fits) all_given =
      rw (is_owner ∙ owner-names_of h s is_in) (infer_in-GroupTyped fits all_given)
  infer_in-OpTyped_owner is_owner (unlisted not_in) all_given =
      rw (is_owner ∙ owner-Unlisted s group_names not_in)
        (then_table (plain_type ctx void) (plain_type-Results ctx room void))

-- The typing of operators is complete: for the id of a known operator's name, as many arguments as
-- the operator takes, none of a NULL type, and an arena with room for a type and a pointer, the call
-- gives every type that the rule for that name gives to the types of the arguments.
pub morphl_infer_type_for_op_complete :
    (registry : List Registered) (ctx : TypeContext) (op : ℕ) (s : Bytes) (ts : List MorphlType)
    (t : InternTable) {info : OperatorRow} {u : MorphlType}
    → WellFormed t
    → interns_lookup t op ≡ some s
    → operator_info_lookup registry op ≡ some info
    → (ltb (length ts) info.min_args || ltb info.max_args (length ts)) ≡ false
    → AllGiven ts
    → HasRoom ctx.arena
    → OpTyped ctx s ts u
    → Infers u (morphl_infer_type_for_op registry ctx t op ts)
unfolding morphl_infer_type_for_op
morphl_infer_type_for_op_complete registry ctx op s ts t {info} {u} w at known fits_count all_given
      room typed =
    rw (known, fits_count, morphl_infer_type_for_op)
      (Gives-bind (group_of op group_names t) (group_of-owner op s group_names t w at)
        λ (g, t') (is_owner, (w', _, at')).
          infer_in-OpTyped_owner ctx room op s t' w' at' is_owner typed all_given)
