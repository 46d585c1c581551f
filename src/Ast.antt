-- ===== src/Ast.antt =====
-- src/ast/ast.c and include/ast/ast.h: the syntax tree. The source position of a node (`filename`,
-- `row`, `col`) is left out: it goes to diagnostics only. `child_count` is the number of children,
-- and the allocated capacity has no observable effect.
use morphl.Prelude.{ℕ, zero, suc, Option, none, some}
use morphl.Util.{Str}

pub data AstKind : Type 0 where
  literal ident call func if_kind block group decl prop set builtin overload file unknown : AstKind

-- `null` is a NULL `AstNode*`.
mutual
  pub data AstNode : Type 0 where
    null : AstNode
    node : AstKind → ℕ → Str → Children → AstNode

  pub data Children : Type 0 where
    nil : Children
    cons : AstNode → Children → Children

-- The values of the C enumeration.
unfoldable pub kind_code : AstKind → ℕ
kind_code literal = 0
kind_code ident = 1
kind_code call = 2
kind_code func = 3
kind_code if_kind = 4
kind_code block = 5
kind_code group = 6
kind_code decl = 7
kind_code prop = 8
kind_code set = 9
kind_code builtin = 10
kind_code overload = 11
kind_code file = 12
kind_code unknown = 13

abbrev pub child_count : Children → ℕ
child_count nil = 0
child_count (cons c cs) = suc (child_count cs)

-- `children[i]`, where `child_count > i`.
abbrev pub child? : Children → ℕ → Option AstNode
child? nil i = none
child? (cons c cs) zero = some c
child? (cons c cs) (suc i) = child? cs i

-- `ast_append_child` on a node that is not NULL; a NULL child is refused.
abbrev pub snoc : Children → AstNode → Children
snoc nil c = cons c nil
snoc (cons d ds) c = cons d (snoc ds c)
