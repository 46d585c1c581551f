-- ===== src/Typing/Inference/Typed.antt =====
-- The typing rules of the operators, which `morphl_infer_type_for_op` of src/typing/inference.c
-- follows.
use morphl.Prelude.{◌≡◌, Bool, true, false, List, [], ◌∷◌, Bytes, bytes_eq, codes}
use morphl.Typing.Types.{
  PlainKind, MorphlType, plain, func, ref, group, no_types, more_types, unknown, void, int, float,
  bool, is_null, MorphlTypes,
}
use morphl.Typing.Context.{TypeContext}
use morphl.Typing.Context.Bindings.{type_context_get_this}
use morphl.Typing.Inference.{
  unwrap_ref, OpGroup, references, this_type, file_type, global_type, forwards, comparisons, logic,
  negation, int_arithmetic, float_arithmetic, bitwise, bitwise_not, structure, functions,
  returns_op, calls, branches, group_names,
}
use morphl.Typing.Inference.Rules.{In, Unlisted}

-- Operators on operands of one kind, which is also the kind of what they give.
pub data OnTwo : OpGroup → PlainKind → Type 0 where
  logic_two : OnTwo logic bool
  int_two : OnTwo int_arithmetic int
  float_two : OnTwo float_arithmetic float
  bits_two : OnTwo bitwise int

pub data OnOne : OpGroup → PlainKind → Type 0 where
  negated : OnOne negation bool
  bits_one : OnOne bitwise_not int

-- `$ret` of this type stands in a function that gives this type, or whose type is not known yet.
pub data Returns : MorphlType → MorphlType → Type 0 where
  unknown_returned : {e : MorphlType} → Returns e (plain unknown)
  first_return : {t : MorphlType} → Returns (plain unknown) t
  same_return : {e t : MorphlType} → unwrap_ref t ≡ unwrap_ref e → Returns e t

abbrev pub is_group : MorphlType → Bool
is_group (group ts) = true
is_group _ = false

-- The typing rules.
pub data GroupTyped (ctx : TypeContext) (s : Bytes)
    : OpGroup → List MorphlType → MorphlType → Type 0 where
  qualified :
      {t : MorphlType}
      → GroupTyped ctx s references
          (t ∷ [])
          (ref t (bytes_eq s (codes "$mut")) (bytes_eq s (codes "$inline")))
  this_scope : {ts : List MorphlType} → GroupTyped ctx s this_type ts (type_context_get_this ctx)
  file_scope : {ts : List MorphlType} → GroupTyped ctx s file_type ts ctx.file_type
  global_scope : {ts : List MorphlType} → GroupTyped ctx s global_type ts ctx.global_type
  forwarded :
      {ps : MorphlTypes} {r : MorphlType} → GroupTyped ctx s forwards (func ps r ∷ []) (func ps r)
  compared :
      {t u : MorphlType}
      → unwrap_ref t ≡ unwrap_ref u
      → GroupTyped ctx s comparisons (t ∷ (u ∷ [])) (plain bool)
  two_operands :
      {g : OpGroup} {k : PlainKind} {t u : MorphlType}
      → OnTwo g k
      → unwrap_ref t ≡ plain k
      → unwrap_ref u ≡ plain k
      → GroupTyped ctx s g (t ∷ (u ∷ [])) (plain k)
  one_operand :
      {g : OpGroup} {k : PlainKind} {t : MorphlType}
      → OnOne g k
      → unwrap_ref t ≡ plain k
      → GroupTyped ctx s g (t ∷ []) (plain k)
  structured : {ts : List MorphlType} → GroupTyped ctx s structure ts (plain void)
  function :
      {t u : MorphlType}
      → GroupTyped ctx s functions (t ∷ (u ∷ [])) (func (more_types t no_types) u)
  returned :
      {t : MorphlType}
      → is_null ctx.expected_return_type ≡ false
      → Returns ctx.expected_return_type t
      → GroupTyped ctx s returns_op (t ∷ []) (plain void)
  called :
      {t u : MorphlType} {ps : MorphlTypes} {r : MorphlType}
      → unwrap_ref t ≡ func ps r
      → GroupTyped ctx s calls (t ∷ (u ∷ [])) r
  two_branches :
      {c t : MorphlType}
      → unwrap_ref c ≡ plain bool
      → is_null t ≡ false
      → GroupTyped ctx s branches (c ∷ (group (more_types t (more_types t no_types)) ∷ [])) t
  one_branch :
      {c t : MorphlType}
      → unwrap_ref c ≡ plain bool
      → is_group t ≡ false
      → GroupTyped ctx s branches (c ∷ (t ∷ [])) t

-- No type is NULL.
unfoldable pub AllGiven : List MorphlType → Type 0
AllGiven [] = Unit
AllGiven (t ∷ ts) = (is_null t ≡ false) × AllGiven ts

-- The names of a group, as they stand in `group_names`.
unfoldable pub names_of : OpGroup → List Bytes
names_of references = codes "$mut" ∷ (codes "$const" ∷ (codes "$inline" ∷ []))
names_of this_type = codes "$this" ∷ []
names_of file_type = codes "$file" ∷ []
names_of global_type = codes "$global" ∷ []
names_of forwards = codes "$forward" ∷ []
names_of comparisons =
    codes "$eq" ∷ codes "$neq" ∷ codes "$lt" ∷ codes "$gt" ∷ codes "$lte" ∷ codes "$gte" ∷ []
names_of logic = codes "$and" ∷ codes "$or" ∷ []
names_of negation = codes "$not" ∷ []
names_of int_arithmetic = codes "$add" ∷ codes "$sub" ∷ codes "$mul" ∷ codes "$div" ∷ []
names_of float_arithmetic = codes "$fadd" ∷ codes "$fsub" ∷ codes "$fmul" ∷ codes "$fdiv" ∷ []
names_of bitwise =
    codes "$band" ∷ codes "$bor" ∷ codes "$bxor" ∷ codes "$lshift" ∷ codes "$rshift" ∷ []
names_of bitwise_not = codes "$bnot" ∷ []
names_of structure = codes "$group" ∷ codes "$block" ∷ []
names_of functions = codes "$func" ∷ []
names_of returns_op = codes "$ret" ∷ []
names_of calls = codes "$call" ∷ []
names_of branches = codes "$if" ∷ []

-- The rule of the operator's group, and `void` for an operator of no group.
pub data OpTyped (ctx : TypeContext) (s : Bytes) (ts : List MorphlType) : MorphlType → Type 0 where
  listed :
      {g : OpGroup} {u : MorphlType}
      → In s (names_of g)
      → GroupTyped ctx s g ts u
      → OpTyped ctx s ts u
  unlisted : Unlisted s group_names → OpTyped ctx s ts (plain void)
