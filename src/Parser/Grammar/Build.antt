-- ===== src/Parser/Grammar/Build.antt =====
-- src/parser/parser.c: the captures of a production, and the trees that its templates build of them.
-- Nodes are allocated and arrays grow without failing. A capture holds the nodes themselves in the
-- source, and the clones made for one of several templates are trees like them. What a failed template
-- frees is modelled where the parser goes on to use it or to free it again. A template that names a
-- capture twice makes a tree with shared nodes; freeing such a tree is not modelled.
use morphl.Prelude.{
  ℕ, zero, suc, Bool, true, false, not, ◌&&◌, ◌||◌, none, some, List, [], ◌∷◌, length, Bytes,
  bytes_eq, codes, leb, ◌==◌, if◌then◌else◌, failed, ok, attempt,
}
use morphl.Util.{Str, text}
use morphl.Util.Intern.{InternTable, interns_intern}
use morphl.Ast.{AstNode, Children, null, node, nil, cons, snoc, group, overload}
use morphl.Lexer.{span}
use morphl.Parser.Operators.{Registered}
use morphl.Parser.Builtin.{op_kind}
use morphl.Parser.Grammar.Attempts.{Try, give, give_up, out_of_fuel, tried, ◌>>=◌}

pub record Capture : Type 0 where
  pub name : ℕ
  pub nodes : Children

-- The captures of a production, the intern table, and the names of the captures whose nodes the root of
-- the template that is built has for children.
pub record Matching : Type 0 where
  pub captures : List Capture
  pub names : InternTable
  pub taken : List ℕ

abbrev pub intern : Str → Try Matching ℕ
intern s m =
    attempt (interns_intern m.names s) failed λ (id, t). ok (some id, record m { names = t })

-- The nodes of `find_capture`; a name without a capture has none.
unfoldable pub find_capture : List Capture → ℕ → Children
find_capture [] name = nil
find_capture (c ∷ cs) name = if c.name == name then c.nodes else find_capture cs name

-- `ensure_capture` and `capture_append`.
unfoldable pub capture_append : List Capture → ℕ → AstNode → List Capture
capture_append [] name n = record { name = name; nodes = cons n nil } ∷ []
capture_append (c ∷ cs) name n =
    if c.name == name
    then record c { nodes = snoc c.nodes n } ∷ cs
    else c ∷ capture_append cs name n

abbrev pub is_null : AstNode → Bool
is_null null = true
is_null _ = false

abbrev pub ast_group_from_list : Children → AstNode
ast_group_from_list nodes = node group 0 none nodes

-- One captured node stands for itself, and several are a group.
abbrev pub one_or_group : Children → AstNode
one_or_group (cons n nil) = n
one_or_group nodes = ast_group_from_list nodes

abbrev pub append : Children → Children → Children
append nil ds = ds
append (cons c cs) ds = cons c (append cs ds)

-- What `flatten_and_append` appends for a node, and for some.
unfoldable mutual
  pub flattened : AstNode → Children
  flattened null = nil
  flattened (node group op value children) = flattened_all children
  flattened n = cons n nil

  pub flattened_all : Children → Children
  flattened_all nil = nil
  flattened_all (cons n ns) = append (flattened n) (flattened_all ns)

-- `isspace` in the C locale.
abbrev pub isspace : ℕ → Bool
isspace c = c == 32 || (leb 9 c && leb c 13)

abbrev pub not_space : ℕ → Bool
not_space c = not (isspace c)

-- `NEXT_TOKEN`: the word, and what stands behind it and its white space.
abbrev pub next_token : Bytes → Bytes × Bytes
next_token text = ((span not_space text).0, (span isspace (span not_space text).1).1)

abbrev pub is_empty : Bytes → Bool
is_empty [] = true
is_empty (c ∷ cs) = false

abbrev pub has_no_child : Children → Bool
has_no_child nil = true
has_no_child (cons c cs) = false

-- The symbol of a name that a template gives.
unfoldable pub capture_symbol : Bytes → Try Matching ℕ
capture_symbol name =
    if is_empty name
    then give_up
    else intern (some name) >>= λ sym. if sym == 0 then give_up else give sym

unfoldable pub captured_nodes : ℕ → Try Matching Children
captured_nodes sym m = give (find_capture m.captures sym) m

-- The nodes captured under a name, as children of the root.
unfoldable pub taken_nodes : ℕ → Try Matching Children
taken_nodes sym m =
    give (find_capture m.captures sym)
      (if has_no_child (find_capture m.captures sym) then m else record m { taken = sym ∷ m.taken })

abbrev pub some_nodes : Children → Try Matching Children
some_nodes nodes = if has_no_child nodes then give_up else give nodes

-- The children for one word of a template, and the rest of the template.
unfoldable pub template_argument : Bytes → Bytes → Try Matching (Children × Bytes)
template_argument word rem =
    if bytes_eq word (codes "$$spread") || bytes_eq word (codes "$spread")
    then (capture_symbol (next_token rem).0 >>= λ sym. taken_nodes sym >>= λ nodes.
        some_nodes nodes >>= λ found. give (flattened_all found, (next_token rem).1))
    else if bytes_eq word (codes "$$maybe")
    then (capture_symbol (next_token rem).0 >>= λ sym. taken_nodes sym >>= λ nodes.
        give
          (if has_no_child nodes then nil else cons (one_or_group nodes) nil, (next_token rem).1))
    else if bytes_eq word (codes "$$delim")
    then give (nil, rem)
    else (capture_symbol word >>= λ sym. taken_nodes sym >>= λ nodes.
        some_nodes nodes >>= λ found. give (cons (one_or_group found) nil, rem))

-- The loop over the words, which are no more than the characters.
unfoldable pub template_arguments : ℕ → Bytes → Try Matching Children
template_arguments zero rem = out_of_fuel
template_arguments (suc fuel) rem =
    let others = template_argument (next_token rem).0 (next_token rem).1 >>= λ (nodes, rem').
    template_arguments fuel rem' >>= λ more. give (append nodes more) in
    if is_empty rem then give nil else others

abbrev pub value_of : AstNode → Str
value_of null = none
value_of (node kind op value children) = value

-- `$$op` and a name: the one node captured names the operator.
abbrev pub captured_operator : Children → Try Matching ℕ
captured_operator (cons n nil) = intern (value_of n)
captured_operator _ = give_up

unfoldable pub template_operator : Bytes → Try Matching (ℕ × Bytes)
template_operator template =
    if is_empty (next_token template).0
    then give_up
    else intern (some (next_token template).0) >>= λ sym.
        if sym == 0
        then give_up
        else if bytes_eq (next_token template).0 (codes "$$op")
        then (capture_symbol (next_token (next_token template).1).0 >>= λ name.
            captured_nodes name >>= λ nodes.
            captured_operator nodes >>= λ op. give (op, (next_token (next_token template).1).1))
        else give (sym, (next_token template).1)

-- The root has no child at first.
abbrev pub no_child_yet : {A : Type 0} → Try Matching A → Try Matching A
no_child_yet x m = x (record m { taken = [] })

unfoldable pub build_template_ast : List Registered → Bytes → Try Matching AstNode
build_template_ast registry template = no_child_yet (
    template_operator template >>= λ (op, rem).
    template_arguments (suc (length rem)) rem >>= λ children.
    give (node (op_kind registry op) op none children))

-- A template of one word.
unfoldable pub template_is_leaf : List Bytes → Bool
template_is_leaf [] = false
template_is_leaf (template ∷ templates) =
    not (is_empty (next_token (span isspace template).1).0)
    && is_empty (next_token (span isspace template).1).1

abbrev pub is_among : ℕ → List ℕ → Bool
is_among sym [] = false
is_among sym (x ∷ xs) = x == sym || is_among sym xs

abbrev pub is_nil : List ℕ → Bool
is_nil [] = true
is_nil (x ∷ xs) = false

-- A template that fails frees its root with the children. If the expression that the production
-- extends, captured as `operand` if that is not 0, is one of them, the parser goes on with it all the same.
abbrev pub frees_operand : ℕ → Try Matching AstNode
frees_operand operand m =
    if not (operand == 0) && is_among operand m.taken then failed else give_up m

-- The clones made for one of several templates are freed with its root, and once more with the captures.
abbrev pub frees_twice : {A : Type 0} → Try Matching A
frees_twice m = if is_nil m.taken then give_up m else failed

-- A candidate for each template.
unfoldable pub build_candidates : List Registered → List Bytes → Try Matching Children
build_candidates registry [] = give nil
build_candidates registry (template ∷ templates) =
    tried (build_template_ast registry template) frees_twice
      λ n. build_candidates registry templates >>= λ ns. give (cons n ns)

unfoldable pub build_prod_result : List Registered → List Bytes → ℕ → AstNode → Try Matching AstNode
build_prod_result registry [] operand first = give_up
build_prod_result registry (template ∷ []) operand first =
    if template_is_leaf (template ∷ []) && not (is_null first)
    then give first
    else tried (build_template_ast registry template) (frees_operand operand) give
build_prod_result registry (template ∷ (next ∷ templates)) operand first =
    build_candidates registry (template ∷ (next ∷ templates)) >>= λ candidates.
    give (node overload 0 none candidates)
