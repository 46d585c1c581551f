-- ===== src/Parser/Operators.antt =====
-- src/parser/operators.c: the table of builtin operators and its symbols. The function that an
-- operator runs during preprocessing belongs to type inference and is left out, as is the enumeration.
pub mod Registry
use morphl.Prelude.{
  ℕ, ◌-◌, ◌^◌, Bool, true, false, Option, none, some, List, [], ◌∷◌, Bytes, codes, ◌==◌,
  if◌then◌else◌, Outcome, ok, failed, ◌>>=◌,
}
use morphl.Util.Intern.{InternTable, interns_intern}
use morphl.Ast.{AstKind, group, block, call, func, if_kind, builtin, set, decl, prop}

pub record OperatorRow : Type 0 where
  pub name : Bytes
  pub ast_kind : AstKind
  pub is_preprocessor : Bool
  pub min_args : ℕ
  pub max_args : ℕ
  pub drops_node : Bool

abbrev pub operator_row : Bytes → AstKind → Bool → ℕ → ℕ → Bool → OperatorRow
operator_row name kind preprocessor least most drops = record {
  name = name;
  ast_kind = kind;
  is_preprocessor = preprocessor;
  min_args = least;
  max_args = most;
  drops_node = drops;
}

-- `(size_t)-1`.
abbrev pub unbounded : ℕ
unbounded = 2 ^ 64 - 1

-- `kBuiltinOps`.
abbrev pub builtin_ops : List OperatorRow
builtin_ops =
    operator_row (codes "$group") group false 0 unbounded false
    ∷ operator_row (codes "$block") block false 0 unbounded false
    ∷ operator_row (codes "$call") call false 2 2 false
    ∷ operator_row (codes "$func") func false 2 2 false
    ∷ operator_row (codes "$if") if_kind false 2 2 false
    ∷ operator_row (codes "$while") builtin false 2 2 false
    ∷ operator_row (codes "$set") set false 2 2 false
    ∷ operator_row (codes "$decl") decl true 2 2 false
    ∷ operator_row (codes "$import") builtin true 1 1 false
    ∷ operator_row (codes "$syntax") builtin true 1 1 true
    ∷ operator_row (codes "$prop") prop true 2 2 false
    ∷ operator_row (codes "$ret") builtin false 1 1 false
    ∷ operator_row (codes "$member") builtin false 2 2 false
    ∷ operator_row (codes "$mut") builtin false 1 1 false
    ∷ operator_row (codes "$const") builtin false 1 1 false
    ∷ operator_row (codes "$inline") builtin false 1 1 false
    ∷ operator_row (codes "$this") builtin false 0 0 false
    ∷ operator_row (codes "$file") builtin false 0 0 false
    ∷ operator_row (codes "$global") builtin false 0 0 false
    ∷ operator_row (codes "$idtstr") builtin false 1 1 false
    ∷ operator_row (codes "$strtid") builtin false 1 1 false
    ∷ operator_row (codes "$forward") builtin false 1 1 false
    ∷ operator_row (codes "$break") builtin false 0 0 false
    ∷ operator_row (codes "$continue") builtin false 0 0 false
    ∷ operator_row (codes "$add") builtin false 2 2 false
    ∷ operator_row (codes "$sub") builtin false 2 2 false
    ∷ operator_row (codes "$mul") builtin false 2 2 false
    ∷ operator_row (codes "$div") builtin false 2 2 false
    ∷ operator_row (codes "$mod") builtin false 2 2 false
    ∷ operator_row (codes "$rem") builtin false 2 2 false
    ∷ operator_row (codes "$fadd") builtin false 2 2 false
    ∷ operator_row (codes "$fsub") builtin false 2 2 false
    ∷ operator_row (codes "$fmul") builtin false 2 2 false
    ∷ operator_row (codes "$fdiv") builtin false 2 2 false
    ∷ operator_row (codes "$eq") builtin false 2 2 false
    ∷ operator_row (codes "$neq") builtin false 2 2 false
    ∷ operator_row (codes "$lt") builtin false 2 2 false
    ∷ operator_row (codes "$gt") builtin false 2 2 false
    ∷ operator_row (codes "$lte") builtin false 2 2 false
    ∷ operator_row (codes "$gte") builtin false 2 2 false
    ∷ operator_row (codes "$and") builtin false 2 2 false
    ∷ operator_row (codes "$or") builtin false 2 2 false
    ∷ operator_row (codes "$not") builtin false 1 1 false
    ∷ operator_row (codes "$band") builtin false 2 2 false
    ∷ operator_row (codes "$bor") builtin false 2 2 false
    ∷ operator_row (codes "$bxor") builtin false 2 2 false
    ∷ operator_row (codes "$bnot") builtin false 1 1 false
    ∷ operator_row (codes "$lshift") builtin false 2 2 false
    ∷ operator_row (codes "$rshift") builtin false 2 2 false
    ∷ operator_row (codes "$syntax") builtin true 1 1 true
    ∷ operator_row (codes "$import") builtin true 1 1 false
    ∷ []

-- A row with its symbol, which the C table holds in place.
pub record Registered : Type 0 where
  pub row : OperatorRow
  pub sym : ℕ

-- The loop of `operator_registry_init`.
unfoldable pub register_rows :
    List OperatorRow → InternTable → Outcome (List Registered × InternTable)
register_rows [] interns = ok ([], interns)
register_rows (r ∷ rows) interns = do
  s ← interns_intern interns (some r.name)
  named ← (if s.0 == 0 then failed else ok s)
  others ← register_rows rows named.1
  ok (record { row = r; sym = named.0 } ∷ others.0, others.1)

unfoldable pub operator_registry_init : InternTable → Outcome (List Registered × InternTable)
operator_registry_init interns = register_rows builtin_ops interns

-- The loop of `operator_info_lookup`.
unfoldable pub find_operator : List Registered → ℕ → Option OperatorRow
find_operator [] op = none
find_operator (r ∷ rs) op = if r.sym == op then some r.row else find_operator rs op

unfoldable pub operator_info_lookup : List Registered → ℕ → Option OperatorRow
operator_info_lookup registry op = if op == 0 then none else find_operator registry op
