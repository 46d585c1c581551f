-- ===== src/Parser/Grammar/Trees.antt =====
-- The tree-building parser of src/parser/parser.c ends, and the trees have the texts of the tokens.
use morphl.Prelude.{
  ℕ, zero, suc, ◌+◌, ◌≤◌, ◌<◌, ◌≡◌, refl, Bool, true, false, ◌&&◌, &&-eq_true, Bool-cases, inl, inr,
  some, List, [], ◌∷◌, length, get_elem?, ltb, leb, ◌==◌, arith,
}
use morphl.Util.{Str}
use morphl.Util.Intern.{InternTable}
use morphl.Ast.{AstNode, null}
use morphl.Lexer.{Token}
use morphl.Parser.Operators.{Registered}
use morphl.Parser.Grammar.{
  Atoms, Production, GrammarRule, Grammar, no_atoms, more_atoms, atom_count, parser_max_depth,
  find_rule, atoms_to_match, is_candidate,
}
use morphl.Parser.Grammar.Derives.{Has, Rule}
use morphl.Parser.Grammar.Matches.{Matches, MatchesAny, to_prefix, to_extended}
use morphl.Parser.Grammar.Productive.{
  are_productive, productions_productive, atoms_fuel, productions_fuel,
}
use morphl.Parser.Grammar.Enough.{atoms_to_match-fuel}
use morphl.Parser.Grammar.Attempts.{
  Holds, Holds-give, Holds-give_up, Holds-if, Holds-bind, Holds-tried,
}
use morphl.Parser.Grammar.Build.{Matching, build_prod_result}
use morphl.Parser.Grammar.Known.{
  Known, CapturesKnown, may_free, capture_append-CapturesKnown, build_prod_result-Holds,
}
use morphl.Parser.Grammar.Tree.{
  Match, capture_of, is_kind_of, leading_capture, starting_captures, operand_of, wants_first,
  or_fail, match_atoms_ast, match_pattern_ast, match_any_ast, extend_ast, parse_rule_internal_ast,
}
use morphl.Parser.Grammar.Leaves.{
  NamesFine, Names-fine, Names-keep, Fine, TokensKnown, Result, on_captures-Holds,
}
use morphl.Parser.Grammar.AtomTrees.{or_fail-Holds, match_atoms_ast-Holds}

-- The rule has a production that may free nodes in use.
abbrev pub MayFree : GrammarRule → Type 0
MayFree rule =
    (prod : Production) × Has rule prod
    × (may_free prod.templates (operand_of prod.starts_with_expr prod) ≡ true)

candidate_starts :
    (extending : Bool) (prod : Production)
    → is_candidate extending prod ≡ true
    → prod.starts_with_expr ≡ extending
candidate_starts true prod h = h
candidate_starts false prod h = elim (Bool-cases prod.starts_with_expr) [
  | inl e ↦ cc (rw e at h)
  | inr e ↦ e
]

module _ (Q : Str → Type 0) where
  leading_capture-CapturesKnown :
      (whole : Atoms) (lhs : AstNode) → Known Q lhs → CapturesKnown Q (leading_capture whole lhs)
  unfolding CapturesKnown
  leading_capture-CapturesKnown no_atoms lhs h = tt
  leading_capture-CapturesKnown (more_atoms a more) lhs h = elim (Bool-cases (capture_of a == 0)) [
    | inl e ↦ rw e tt
    | inr e ↦ rw e (capture_append-CapturesKnown Q [] (capture_of a) lhs tt h)
  ]

  starting_captures-CapturesKnown :
      (extending : Bool) (prod : Production) (lhs : AstNode)
      → Known Q lhs
      → CapturesKnown Q (starting_captures extending prod lhs)
  unfolding CapturesKnown
  starting_captures-CapturesKnown true prod lhs h = leading_capture-CapturesKnown prod.atoms lhs h
  starting_captures-CapturesKnown false prod lhs h = tt

module _ (number number_float : ℕ) (Q : Str → Type 0) (F : Type 0) (g : Grammar)
    (registry : List Registered) (k n r : ℕ)
    (rule_holds : (fuel symbol : ℕ) (rule : GrammarRule) (bp : ℕ) (ts : List Token) (depth : ℕ)
      → find_rule g.rules symbol ≡ some rule
      → TokensKnown number number_float Q F ts
      → 129 ≤ depth + n
      → length ts ≤ k
      → r ≤ fuel
      → Holds F
          (NamesFine number number_float Q F)
          (Result number number_float Q F (Rule g (is_kind_of number number_float) rule bp) true ts)
          (parse_rule_internal_ast g registry fuel rule bp ts depth))
    (some_tokens : 1 ≤ k) where
  abbrev I : Matching → Type 0
  I = Fine number number_float Q F

  abbrev J : InternTable → Type 0
  J = NamesFine number number_float Q F

  abbrev accepts : ℕ → Token → Bool
  accepts = is_kind_of number number_float

  abbrev Res : (List Token → List Token → Type 0) → List Token → Match → Type 0
  Res R ts = Result number number_float Q F R true ts

  match_pattern_ast-Holds :
      (fuel : ℕ) (prod : Production) (ts : List Token) (bp : ℕ) (extending : Bool) (depth : ℕ)
      (collect : Bool)
      → are_productive prod.atoms ≡ true
      → TokensKnown number number_float Q F ts
      → 128 ≤ depth + n
      → length ts ≤ k
      → suc (atoms_fuel k r prod.atoms) ≤ fuel
      → Holds F I
          (Res (Matches g accepts prod bp extending) ts)
          (match_pattern_ast g registry fuel prod ts bp extending depth collect)
  unfolding match_pattern_ast Known
  match_pattern_ast-Holds zero prod ts bp extending depth collect p known d l f =
      absurd (omega arith)
  match_pattern_ast-Holds (suc fuel) prod ts bp extending depth collect p known d l f =
      Holds-if I (ltb parser_max_depth depth) (λ _. Holds-give_up I)
        λ _.
          Holds-bind I (or_fail (atoms_to_match prod bp extending))
            (or_fail-Holds I (atoms_to_match prod bp extending))
            λ more e.
              let (p', f') = atoms_to_match-fuel k r prod bp extending e p in
              Holds-bind I (match_atoms_ast g registry fuel more ts depth collect null)
                (match_atoms_ast-Holds number number_float Q F g registry k n r rule_holds
                  some_tokens fuel more ts depth collect null p' known tt d l (omega arith))
                λ (first, us) (s, h, known', (fewer, _)).
                  Holds-if I (extending && leb (atom_count prod.atoms) 1) (λ _. Holds-give_up I)
                    λ enough.
                      Holds-if I (length us == length ts) (λ _. Holds-give_up I)
                        λ moved.
                          Holds-give I (first, us)
                            ((more, e, s, enough), h, known', (fewer, λ _. ground (arith, moved)))

  match_any_ast-Holds :
      (fuel : ℕ) (rule : GrammarRule) (extending : Bool) (prods : List Production) (lhs : AstNode)
      (ts : List Token) (bp depth : ℕ)
      → ((i : ℕ) (prod : Production) → get_elem? prods i ≡ some prod → Has rule prod)
      → productions_productive prods ≡ true
      → (MayFree rule → F)
      → Known Q lhs
      → TokensKnown number number_float Q F ts
      → 127 ≤ depth + n
      → length ts ≤ k
      → productions_fuel k r prods ≤ fuel
      → Holds F J
          (Res (MatchesAny g accepts rule bp extending) ts)
          (match_any_ast g registry fuel extending prods lhs ts bp depth)
  unfolding match_any_ast productions_productive productions_fuel
  match_any_ast-Holds zero rule extending [] lhs ts bp depth within p dooms h known d l f =
      absurd (omega arith)
  match_any_ast-Holds zero rule extending (prod ∷ prods) lhs ts bp depth within p dooms h known d l
        f =
      absurd (omega arith)
  match_any_ast-Holds (suc fuel) rule extending [] lhs ts bp depth within p dooms h known d l f =
      Holds-give_up J
  match_any_ast-Holds (suc fuel) rule extending (prod ∷ prods) lhs ts bp depth within p dooms h
        known d l f =
      let (this, rest) = &&-eq_true (are_productive prod.atoms) (productions_productive prods) p in
      let others =
        match_any_ast-Holds fuel rule extending prods lhs ts bp depth (λ i q e. within (suc i) q e)
          rest dooms h known d l (omega arith) in
      Holds-if J (is_candidate extending prod)
        (λ candidate.
          Holds-tried J _
            (on_captures-Holds number number_float Q F (starting_captures extending prod lhs) _
              (starting_captures-CapturesKnown Q extending prod lhs h)
              (Holds-bind I
                (match_pattern_ast g registry fuel prod ts bp extending (depth + 1)
                  (wants_first extending prod))
                (match_pattern_ast-Holds fuel prod ts bp extending (depth + 1)
                  (wants_first extending prod) this known (omega arith) l (omega arith))
                λ (first, us) (m, h', known', read).
                  Holds-bind I
                    (build_prod_result registry prod.templates (operand_of extending prod) first)
                    (build_prod_result-Holds Q F J (Names-fine number number_float Q F)
                      (Names-keep number number_float Q F) registry prod.templates
                      (operand_of extending prod) first
                      (λ e. dooms (
                        prod,
                        within 0 prod refl,
                        (rw (candidate_starts extending prod candidate) e),
                      ))
                      h')
                    λ built h''.
                      Holds-give I (built, us)
                        ((prod, within 0 prod refl, candidate, m), h'', known', read)))
            others λ (built, us) result. Holds-give J (built, us) result)
        (λ _. others)

  extend_ast-Holds :
      (fuel : ℕ) (rule : GrammarRule) (bp : ℕ) (lhs : AstNode) (start ts : List Token) (depth : ℕ)
      → productions_productive rule.productions ≡ true
      → (MayFree rule → F)
      → Rule g accepts rule bp start ts
      → length ts < length start
      → Known Q lhs
      → TokensKnown number number_float Q F ts
      → 127 ≤ depth + n
      → length ts ≤ k
      → suc (length ts + productions_fuel k r rule.productions) ≤ fuel
      → Holds F J
          (Res (Rule g accepts rule bp) start)
          (extend_ast g registry fuel rule bp lhs ts depth)
  unfolding extend_ast
  extend_ast-Holds zero rule bp lhs start ts depth p dooms derived read h known d l f =
      absurd (omega arith)
  extend_ast-Holds (suc fuel) rule bp lhs start ts depth p dooms derived read h known d l f =
      Holds-tried J (match_any_ast g registry fuel true rule.productions lhs ts bp depth)
        (match_any_ast-Holds fuel rule true rule.productions lhs ts bp depth (λ i q e. (i, e)) p
          dooms h known d l (omega arith))
        (Holds-give J (lhs, ts) (derived, h, known, (omega arith, λ _. read)))
        λ (built, us) (m, h', known', (_, less)).
          let fewer : length us < length ts = less refl in
          extend_ast-Holds fuel rule bp built start us depth p dooms
            (to_extended g accepts rule bp start ts us derived m) (omega arith) h' known' d
            (omega arith) (omega arith)

  pub step_down :
      (fuel : ℕ) (rule : GrammarRule) (bp : ℕ) (ts : List Token) (depth : ℕ)
      → productions_productive rule.productions ≡ true
      → (MayFree rule → F)
      → TokensKnown number number_float Q F ts
      → 128 ≤ depth + n
      → length ts ≤ k
      → suc (suc (k + productions_fuel k r rule.productions)) ≤ fuel
      → Holds F J
          (Res (Rule g accepts rule bp) ts)
          (parse_rule_internal_ast g registry fuel rule bp ts depth)
  unfolding parse_rule_internal_ast Known
  step_down zero rule bp ts depth p dooms known d l f = absurd (omega arith)
  step_down (suc fuel) rule bp ts depth p dooms known d l f =
      Holds-if J (ltb parser_max_depth depth) (λ _. Holds-give_up J)
        λ _.
          Holds-bind J (match_any_ast g registry fuel false rule.productions null ts bp depth)
            (match_any_ast-Holds fuel rule false rule.productions null ts bp depth (λ i q e. (i, e))
              p dooms tt known (omega arith) l (omega arith))
            λ (built, us) (m, h, known', (_, less)).
              let fewer : length us < length ts = less refl in
              extend_ast-Holds fuel rule bp built ts us depth p dooms
                (to_prefix g accepts rule bp ts us m) fewer h known' (omega arith) (omega arith)
                (omega arith)
