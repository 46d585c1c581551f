-- ===== src/Parser/Grammar/Tree.antt =====
-- src/parser/parser.c: `grammar_parse_ast`, which matches as the recogniser does and builds a tree.
-- `null` is an atom that produces no node. The captures that a round adds before it fails stay.
use morphl.Prelude.{
  ℕ, zero, suc, ◌+◌, Bool, true, false, not, ◌&&◌, ◌||◌, Option, none, some, List, [], ◌∷◌, length,
  Bytes, codes, ltb, leb, ◌==◌, if◌then◌else◌, ok, failed, attempt,
}
use morphl.Util.Intern.{InternTable, interns_intern}
use morphl.Ast.{AstNode, Children, null, node, nil, snoc, literal, ident}
use morphl.Lexer.{Token}
use morphl.Parser.Operators.{Registered}
use morphl.Parser.Grammar.{
  GrammarAtom, Atoms, Production, GrammarRule, Grammar, atom_literal, atom_token_kind, atom_rule,
  atom_repeat, no_atoms, more_atoms, atom_count, parser_max_depth, find_rule, is_literal,
  atoms_to_match, is_candidate, drop_end, all_read, starting,
}
use morphl.Parser.Grammar.Attempts.{Try, give, give_up, out_of_fuel, tried, ◌>>=◌}
use morphl.Parser.Grammar.Build.{
  Capture, Matching, intern, capture_append, is_null, ast_group_from_list, template_is_leaf,
  build_prod_result,
}

-- A node, and the tokens behind it.
abbrev pub Match : Type 0
Match = AstNode × List Token

-- The field `capture`, 0 for none.
abbrev pub capture_of : GrammarAtom → ℕ
capture_of (atom_literal s capture) = capture
capture_of (atom_token_kind kind capture) = capture
capture_of (atom_rule symbol bp capture) = capture
capture_of (atom_repeat body least most capture) = capture

abbrev pub add_capture : ℕ → AstNode → List Token → Try Matching Match
add_capture name n rest m =
    ok (some (n, rest), record m { captures = capture_append m.captures name n })

-- A node that is produced, under the capture if there is one.
abbrev pub captured : ℕ → AstNode → List Token → Try Matching Match
captured name n rest = if name == 0 then give (n, rest) else add_capture name n rest

abbrev pub kept_leaf : Token → AstNode
kept_leaf tok = node literal tok.kind tok.lexeme nil

unfoldable pub match_literal : Bytes → ℕ → Bool → List Token → Try Matching Match
match_literal s capture wanted [] = give_up
match_literal s capture wanted (tok ∷ toks) =
    if is_literal s tok
    then (if wanted && not (capture == 0)
        then add_capture capture (kept_leaf tok) toks
        else give (null, toks))
    else give_up

-- A number is also read from a token of the kind of floats.
abbrev pub is_kind_of : ℕ → ℕ → ℕ → Token → Bool
is_kind_of number number_float kind tok =
    tok.kind == kind
    || (not (number == 0) && not (number_float == 0) && kind == number && tok.kind == number_float)

abbrev pub kind_leaf : ℕ → Token → AstNode
kind_leaf ident_kind tok =
    if not (ident_kind == 0) && tok.kind == ident_kind
    then node ident 0 tok.lexeme nil
    else kept_leaf tok

unfoldable pub match_token_kind : ℕ → ℕ → Bool → List Token → Try Matching Match
match_token_kind kind capture wanted [] = give_up
match_token_kind kind capture wanted (tok ∷ toks) = intern (some (codes "NUMBER")) >>= λ number.
    intern (some (codes "FLOAT")) >>= λ number_float.
    if is_kind_of number number_float kind tok
    then (if wanted
        then (intern (some (codes "IDENT")) >>= λ ident_kind.
            captured capture (kind_leaf ident_kind tok) toks)
        else give (null, toks))
    else give_up

-- A rule matches with captures of its own.
abbrev pub nested : {A : Type 0} → Try InternTable A → Try Matching A
nested x m = attempt (x m.names) failed λ (r, t). ok (r, record m { names = t })

abbrev pub on_captures : {A : Type 0} → List Capture → Try Matching A → Try InternTable A
on_captures captures x t =
    attempt (x (record { captures = captures; names = t; taken = [] })) failed
      λ (r, m). ok (r, m.names)

-- What is kept of a rule's node, and of a repeated group.
abbrev pub keep_rule : ℕ → Bool → Match → Try Matching Match
keep_rule capture wanted (n, rest) = if wanted then captured capture n rest else give (null, rest)

abbrev pub keep_group : ℕ → Bool → Children × List Token → Try Matching Match
keep_group capture wanted (groups, rest) =
    captured capture (ast_group_from_list groups) rest >>= λ _.
    give (if wanted then ast_group_from_list groups else null, rest)

abbrev pub enough_groups : ℕ → ℕ → Children → List Token → Try Matching (Children × List Token)
enough_groups least count groups toks = if ltb count least then give_up else give (groups, toks)

abbrev pub with_node : Children → AstNode → Children
with_node nodes null = nodes
with_node nodes n = snoc nodes n

abbrev pub first_of : Bool → AstNode → AstNode → AstNode
first_of collect first n = if collect && is_null first then n else first

abbrev pub make_progress : Production → Bool → List Token → Match → Try Matching Match
make_progress prod consume_leading toks (first, rest) =
    if consume_leading && leb (atom_count prod.atoms) 1
    then give_up
    else if length rest == length toks
    then give_up
    else give (first, rest)

-- The captures that an extension starts with: the expression that it extends, if it is captured.
abbrev pub leading_capture : Atoms → AstNode → List Capture
leading_capture no_atoms lhs = []
leading_capture (more_atoms a more) lhs =
    if capture_of a == 0 then [] else capture_append [] (capture_of a) lhs

-- The name of that capture; no capture has the name 0.
abbrev pub leading_name : Atoms → ℕ
leading_name no_atoms = 0
leading_name (more_atoms a more) = capture_of a

abbrev pub operand_of : Bool → Production → ℕ
operand_of extending prod = if extending then leading_name prod.atoms else 0

abbrev pub starting_captures : Bool → Production → AstNode → List Capture
starting_captures extending prod lhs = if extending then leading_capture prod.atoms lhs else []

-- Only a production that does not extend an expression needs its first node.
abbrev pub wants_first : Bool → Production → Bool
wants_first extending prod = not extending && template_is_leaf prod.templates

abbrev pub or_fail : {S A : Type 0} → Option A → Try S A
or_fail none = give_up
or_fail (some a) = give a

module _ (g : Grammar) (registry : List Registered) where
  -- `match_atom_ast` with its loops over rounds and the atoms of a round, `match_pattern_ast` with
  -- its loop over atoms, and `parse_rule_internal_ast` with its loops.
  unfoldable mutual
    pub match_atom_ast : ℕ → GrammarAtom → List Token → ℕ → Bool → Try Matching Match
    match_atom_ast zero a toks depth wanted = out_of_fuel
    match_atom_ast (suc fuel) (atom_literal s capture) toks depth wanted =
        match_literal s capture wanted toks
    match_atom_ast (suc fuel) (atom_token_kind kind capture) toks depth wanted =
        match_token_kind kind capture wanted toks
    match_atom_ast (suc fuel) (atom_rule symbol bp capture) toks depth wanted =
        or_fail (find_rule g.rules symbol) >>= λ target.
        nested (parse_rule_internal_ast fuel target bp toks (depth + 1))
        >>= keep_rule capture wanted
    match_atom_ast (suc fuel) (atom_repeat body least most capture) toks depth wanted =
        match_rounds_ast fuel body least most 0 toks depth nil >>= keep_group capture wanted

    pub match_rounds_ast :
        ℕ → Atoms → ℕ → ℕ → ℕ → List Token → ℕ → Children → Try Matching (Children × List Token)
    match_rounds_ast zero body least most count toks depth groups = out_of_fuel
    match_rounds_ast (suc fuel) body least most count toks depth groups =
        let round =
          tried (match_round_ast fuel body toks (depth + 1) nil)
            (enough_groups least count groups toks)
            λ (nodes, rest).
              match_rounds_ast fuel body least most (suc count) rest depth
                (snoc groups (ast_group_from_list nodes)) in
        if ltb count most then round else enough_groups least count groups toks

    pub match_round_ast :
        ℕ → Atoms → List Token → ℕ → Children → Try Matching (Children × List Token)
    match_round_ast zero atoms toks depth nodes = out_of_fuel
    match_round_ast (suc fuel) no_atoms toks depth nodes = give (nodes, toks)
    match_round_ast (suc fuel) (more_atoms a more) toks depth nodes =
        match_atom_ast fuel a toks depth true >>= λ (n, rest).
        match_round_ast fuel more rest depth (with_node nodes n)

    pub match_atoms_ast : ℕ → Atoms → List Token → ℕ → Bool → AstNode → Try Matching Match
    match_atoms_ast zero atoms toks depth collect first = out_of_fuel
    match_atoms_ast (suc fuel) no_atoms toks depth collect first = give (first, toks)
    match_atoms_ast (suc fuel) (more_atoms a more) toks depth collect first =
        match_atom_ast fuel a toks depth (collect || not (capture_of a == 0)) >>= λ (n, rest).
        match_atoms_ast fuel more rest depth collect (first_of collect first n)

    pub match_pattern_ast : ℕ → Production → List Token → ℕ → Bool → ℕ → Bool → Try Matching Match
    match_pattern_ast zero prod toks bp consume_leading depth collect = out_of_fuel
    match_pattern_ast (suc fuel) prod toks bp consume_leading depth collect =
        let matched = or_fail (atoms_to_match prod bp consume_leading) >>= λ more.
        match_atoms_ast fuel more toks depth collect null
        >>= make_progress prod consume_leading toks in
        if ltb parser_max_depth depth then give_up else matched

    pub match_any_ast :
        ℕ → Bool → List Production → AstNode → List Token → ℕ → ℕ → Try InternTable Match
    match_any_ast zero extending prods lhs toks bp depth = out_of_fuel
    match_any_ast (suc fuel) extending [] lhs toks bp depth = give_up
    match_any_ast (suc fuel) extending (prod ∷ prods) lhs toks bp depth =
        let others = match_any_ast fuel extending prods lhs toks bp depth in
        let this_one =
          tried
            (on_captures (starting_captures extending prod lhs) (
              match_pattern_ast fuel prod toks bp extending (depth + 1) (wants_first extending prod)
              >>= λ (first, rest).
                  build_prod_result registry prod.templates (operand_of extending prod) first
                  >>= λ n. give (n, rest)))
            others give in
        if is_candidate extending prod then this_one else others

    pub extend_ast : ℕ → GrammarRule → ℕ → AstNode → List Token → ℕ → Try InternTable Match
    extend_ast zero rule bp lhs toks depth = out_of_fuel
    extend_ast (suc fuel) rule bp lhs toks depth =
        tried (match_any_ast fuel true rule.productions lhs toks bp depth) (give (lhs, toks))
          λ (n, rest). extend_ast fuel rule bp n rest depth

    pub parse_rule_internal_ast : ℕ → GrammarRule → ℕ → List Token → ℕ → Try InternTable Match
    parse_rule_internal_ast zero rule bp toks depth = out_of_fuel
    parse_rule_internal_ast (suc fuel) rule bp toks depth =
        let parsed = match_any_ast fuel false rule.productions null toks bp depth >>= λ (n, rest).
        extend_ast fuel rule bp n rest depth in
        if ltb parser_max_depth depth then give_up else parsed

abbrev pub if_all_read : Match → Try InternTable AstNode
if_all_read (root, rest) = if all_read rest then give root else give_up

-- `none` is a parse that is refused.
unfoldable pub grammar_parse_ast :
    ℕ → Grammar → List Registered → ℕ → List Token → Try InternTable AstNode
grammar_parse_ast fuel g registry start_rule tokens =
    let parsed = (λ (t : InternTable).
      attempt (interns_intern t (some (codes "EOF"))) failed λ (eof, t').
        (or_fail (find_rule g.rules (starting g start_rule)) >>= λ rule.
        parse_rule_internal_ast g registry fuel rule 0 (drop_end eof tokens) 0 >>= if_all_read)
          t') in
    if length g.rules == 0 then give_up else parsed
