-- ===== src/Parser/Grammar/AtomTrees.antt =====
-- The loops over atoms and rounds of src/parser/parser.c that build trees: they end, and what they
-- match is derived, if the rules do and are.
use morphl.Prelude.{
  ℕ, zero, suc, ◌+◌, ◌-◌, ◌≤◌, ◌<◌, ◌≡◌, refl, ◌⊎◌, inl, inr, Bool, true, false, ◌&&◌, ◌||◌, not,
  &&-eq_true, Bool-cases, Option, none, some, List, length, ltb, leb, ◌==◌, ltb→lt, leb→le,
  if◌then◌else◌, arith,
}
use morphl.Util.{Str}
use morphl.Ast.{AstNode, Children, null, nil, snoc}
use morphl.Lexer.{Token}
use morphl.Parser.Operators.{Registered}
use morphl.Parser.Grammar.{
  GrammarAtom, Atoms, GrammarRule, Grammar, atom_literal, atom_token_kind, atom_rule, atom_repeat,
  no_atoms, more_atoms, find_rule,
}
use morphl.Parser.Grammar.Derives.{
  Atom, Rounds, Sequence, Rule, rule, repeat, no_round, stop, then_atom,
}
use morphl.Parser.Grammar.Matches.{snoc_round}
use morphl.Parser.Grammar.Productive.{
  reads, reads_some, is_productive, are_productive, atom_fuel, atoms_fuel, atom_fuel-pos,
  atoms_fuel-pos,
}
use morphl.Parser.Grammar.AtomsEnd.{Left}
use morphl.Parser.Grammar.Attempts.{
  give, Holds, Holds-give, Holds-give_up, Holds-if, Holds-bind, Holds-tried, Holds-weaken,
}
use morphl.Parser.Grammar.Build.{Matching, is_null, ast_group_from_list}
use morphl.Parser.Grammar.Known.{Known, AllKnown, snoc-AllKnown, group-Known}
use morphl.Parser.Grammar.Tree.{
  Match, capture_of, captured, is_kind_of, nested, keep_rule, keep_group, enough_groups, with_node,
  first_of, or_fail, match_atom_ast, match_rounds_ast, match_round_ast, match_atoms_ast,
  parse_rule_internal_ast,
}
use morphl.Parser.Grammar.Leaves.{
  NamesFine, Fine, TokensKnown, Result, captured-Holds, nested-Holds, match_literal-Holds,
  match_token_kind-Holds,
}

pub or_fail-Holds :
    {S A : Type 0} {F : Type 0} (I : S → Type 0) (o : Option A)
    → Holds F I (λ a. o ≡ some a) (or_fail o)
or_fail-Holds I none = Holds-give_up I
or_fail-Holds I (some a) = Holds-give I a refl

Left-then : (a b : Bool) (ts us vs : List Token) → Left a ts us → Left b us vs → Left (a || b) ts vs
Left-then true b ts us vs (fewer, strictly) (fewer', _) =
    (omega arith, λ _. omega (arith, strictly refl))
Left-then false b ts us vs (fewer, _) (fewer', strictly) =
    (omega arith, λ reading. omega (arith, strictly reading))

-- What bounds the rounds that may follow: the tokens, or the number of rounds that are left.
abbrev Bounded : Atoms → ℕ → ℕ → List Token → ℕ → Type 0
Bounded body most count ts left =
    ((reads_some body ≡ true) × (length ts ≤ left)) ⊎ (most ≤ count + left)

one_less :
    (body : Atoms) (most count left : ℕ) (ts us : List Token)
    → ltb count most ≡ true
    → Left (reads_some body) ts us
    → Bounded body most count ts left
    → Bounded body most (suc count) us (left - 1) × (1 ≤ left)
one_less body most count left ts us again (fewer, strictly) (inl (reading, short)) =
    let less : length us < length ts = strictly reading in (inl (reading, omega arith), omega arith)
one_less body most count left ts us again (fewer, strictly) (inr few) =
    let one_left : 1 ≤ left = omega (arith, ltb→lt count most again) in
    (inr (omega arith), one_left)

module _ (number number_float : ℕ) (Q : Str → Type 0) (F : Type 0) (g : Grammar)
    (registry : List Registered) (k n r : ℕ) where
  abbrev I : Matching → Type 0
  I = Fine number number_float Q F

  abbrev accepts : ℕ → Token → Bool
  accepts = is_kind_of number number_float

  with_node-AllKnown :
      (nodes : Children) (m : AstNode)
      → AllKnown Q nodes
      → Known Q m
      → AllKnown Q (with_node nodes m)
  with_node-AllKnown nodes null ks h = ks
  with_node-AllKnown nodes m ks h = snoc-AllKnown Q nodes m ks h

  first_of-Known :
      (collect : Bool) (first m : AstNode)
      → Known Q first
      → Known Q m
      → Known Q (first_of collect first m)
  first_of-Known collect first m h h' = elim (Bool-cases (collect && is_null first)) [
    | inl e ↦ rw e h'
    | inr e ↦ rw e h
  ]

  keep_rule-Holds :
      (P : Match → Type 0) (capture : ℕ) (wanted : Bool) (m : AstNode) (us : List Token)
      → Known Q m
      → P (m, us)
      → P (null, us)
      → Holds F I P (keep_rule capture wanted (m, us))
  keep_rule-Holds P capture wanted m us h p p' =
      Holds-if I wanted (λ _. captured-Holds number number_float Q F P capture m us h p)
        (λ _. Holds-give I (null, us) p')

  keep_group-Holds :
      (P : Match → Type 0) (capture : ℕ) (wanted : Bool) (groups : Children) (us : List Token)
      → AllKnown Q groups
      → P (ast_group_from_list groups, us)
      → P (null, us)
      → Holds F I P (keep_group capture wanted (groups, us))
  keep_group-Holds P capture wanted groups us h p p' =
      Holds-bind I (captured capture (ast_group_from_list groups) us)
        (captured-Holds number number_float Q F (λ _. Unit) capture (ast_group_from_list groups) us
          (group-Known Q groups h) tt)
        λ _ _. given wanted
    where
      given : (b : Bool) → Holds F I P (give (if b then ast_group_from_list groups else null, us))
      given true = Holds-give I (ast_group_from_list groups, us) p
      given false = Holds-give I (null, us) p'

  -- The nodes of a round.
  abbrev NodesRead :
      (List Token → List Token → Type 0) → Bool → List Token → Children × List Token → Type 0
  NodesRead R reading ts (nodes, us) =
      R ts us × AllKnown Q nodes × TokensKnown number number_float Q F us × Left reading ts us

  -- The groups of all rounds from `start`, of which `count` end before `ts`.
  abbrev RoundsRead : Atoms → ℕ → ℕ → ℕ → List Token → List Token → Children × List Token → Type 0
  RoundsRead body least most count start ts (groups, us) =
      ((m : ℕ) × (least ≤ m) × (m ≤ most) × Rounds g accepts body m start us)
      × AllKnown Q groups
      × TokensKnown number number_float Q F us
      × (length us ≤ length ts)
      × (count < least → reads_some body ≡ true → length us < length ts)

  enough_groups-Holds :
      (body : Atoms) (least most count : ℕ) (start ts : List Token) (groups : Children)
      → Rounds g accepts body count start ts
      → count ≤ most
      → AllKnown Q groups
      → TokensKnown number number_float Q F ts
      → Holds F I (RoundsRead body least most count start ts) (enough_groups least count groups ts)
  enough_groups-Holds body least most count start ts groups made in_range ks known =
      Holds-if I (ltb count least) (λ _. Holds-give_up I)
        λ enough.
          Holds-give I (groups, ts)
            (
              (count, ground (arith, enough), in_range, made),
              ks,
              known,
              omega arith,
              λ few _. absurd (ground (arith, enough, few)),
            )

  module _
      (rule_holds : (fuel symbol : ℕ) (rule : GrammarRule) (bp : ℕ) (ts : List Token) (depth : ℕ)
        → find_rule g.rules symbol ≡ some rule
        → TokensKnown number number_float Q F ts
        → 129 ≤ depth + n
        → length ts ≤ k
        → r ≤ fuel
        → Holds F
            (NamesFine number number_float Q F)
            (Result number number_float Q F (Rule g accepts rule bp) true ts)
            (parse_rule_internal_ast g registry fuel rule bp ts depth))
      (some_tokens : 1 ≤ k) where
    mutual
      unfolding match_atom_ast match_rounds_ast match_round_ast match_atoms_ast reads reads_some
          is_productive are_productive atom_fuel atoms_fuel AllKnown

      match_atom_ast-Holds :
          (fuel : ℕ) (a : GrammarAtom) (ts : List Token) (depth : ℕ) (wanted : Bool)
          → is_productive a ≡ true
          → TokensKnown number number_float Q F ts
          → 128 ≤ depth + n
          → length ts ≤ k
          → atom_fuel k r a ≤ fuel
          → Holds F I
              (Result number number_float Q F (Atom g accepts a) (reads a) ts)
              (match_atom_ast g registry fuel a ts depth wanted)
      match_atom_ast-Holds zero a ts depth wanted p known d l f =
          absurd (omega (arith, atom_fuel-pos k r a))
      match_atom_ast-Holds (suc fuel) (atom_literal s c) ts depth wanted p known d l f =
          match_literal-Holds number number_float Q F g s c wanted ts known
      match_atom_ast-Holds (suc fuel) (atom_token_kind kind c) ts depth wanted p known d l f =
          match_token_kind-Holds number number_float Q F g kind c wanted ts known
      match_atom_ast-Holds (suc fuel) (atom_rule symbol bp c) ts depth wanted p known d l f =
          Holds-bind I (or_fail (find_rule g.rules symbol))
            (or_fail-Holds I (find_rule g.rules symbol))
            λ target found.
              Holds-bind I
                (nested (parse_rule_internal_ast g registry fuel target bp ts (depth + 1)))
                (nested-Holds number number_float Q F
                  (parse_rule_internal_ast g registry fuel target bp ts (depth + 1))
                  (rule_holds fuel symbol target bp ts (depth + 1) found known (omega arith) l
                    (omega arith)))
                λ (m, us) (derived, h, known', left).
                  keep_rule-Holds _ c wanted m us h (rule found derived, h, known', left)
                    (rule found derived, tt, known', left)
      match_atom_ast-Holds (suc fuel) (atom_repeat body least most c) ts depth wanted p known d l
            f =
          let (ends, inner) = &&-eq_true (reads_some body || leb most 1) (are_productive body) p in
          Holds-bind I (match_rounds_ast g registry fuel body least most 0 ts depth nil)
            (match_rounds_ast-Holds fuel body least most 0 ts ts depth k nil inner
              (elim (Bool-cases (reads_some body)) [
                | inl reading ↦ inl (reading, l)
                | inr idle ↦ inr (omega (arith, leb→le most 1 (rw idle at ends)))
              ])
              known tt no_round (omega arith) d l (omega arith))
            λ (groups, us) ((m, low, high, made), ks, known', fewer, strictly).
              let read : Left (ltb 0 least && reads_some body) ts us = (
                fewer,
                λ both.
                    let (once, reading) = &&-eq_true (ltb 0 least) (reads_some body) both in
                    strictly (ltb→lt 0 least once) reading,
              ) in
              keep_group-Holds _ c wanted groups us ks
                (repeat low high made, group-Known Q groups ks, known', read)
                (repeat low high made, tt, known', read)

      match_rounds_ast-Holds :
          (fuel : ℕ) (body : Atoms) (least most count : ℕ) (start ts : List Token) (depth left : ℕ)
          (groups : Children)
          → are_productive body ≡ true
          → Bounded body most count ts left
          → TokensKnown number number_float Q F ts
          → AllKnown Q groups
          → Rounds g accepts body count start ts
          → count ≤ most
          → 128 ≤ depth + n
          → length ts ≤ k
          → suc (left + atoms_fuel k r body) ≤ fuel
          → Holds F I
              (RoundsRead body least most count start ts)
              (match_rounds_ast g registry fuel body least most count ts depth groups)
      match_rounds_ast-Holds zero body least most count start ts depth left groups p b known ks made
            in_range d l f =
          absurd (omega arith)
      match_rounds_ast-Holds (suc fuel) body least most count start ts depth left groups p b known
            ks made in_range d l f =
          let done =
            enough_groups-Holds body least most count start ts groups made in_range ks known in
          Holds-if I (ltb count most)
            (λ again.
              Holds-tried I (match_round_ast g registry fuel body ts (depth + 1) nil)
                (match_round_ast-Holds fuel body ts (depth + 1) nil p known tt (omega arith) l
                  (omega arith))
                done
                λ (nodes, us) (s, ks', known', read).
                  let (b', less) = one_less body most count left ts us again read b in
                  Holds-weaken I
                    (match_rounds_ast g registry fuel body least most (suc count) us depth
                      (snoc groups (ast_group_from_list nodes)))
                    (λ (groups', vs) (made', ks'', known'', fewer', strictly'). (
                      made',
                      ks'',
                      known'',
                      omega (arith, read.0),
                      λ _ reading. omega (arith, read.1 reading),
                    ))
                    (match_rounds_ast-Holds fuel body least most (suc count) start us depth
                      (left - 1) (snoc groups (ast_group_from_list nodes)) p b' known'
                      (snoc-AllKnown Q groups (ast_group_from_list nodes) ks
                        (group-Known Q nodes ks'))
                      (snoc_round g accepts made s) (ground (arith, again)) d
                      (omega (arith, read.0)) (omega (arith, less))))
            (λ _. done)

      match_round_ast-Holds :
          (fuel : ℕ) (more : Atoms) (ts : List Token) (depth : ℕ) (nodes : Children)
          → are_productive more ≡ true
          → TokensKnown number number_float Q F ts
          → AllKnown Q nodes
          → 128 ≤ depth + n
          → length ts ≤ k
          → atoms_fuel k r more ≤ fuel
          → Holds F I
              (NodesRead (Sequence g accepts more) (reads_some more) ts)
              (match_round_ast g registry fuel more ts depth nodes)
      match_round_ast-Holds zero more ts depth nodes p known ks d l f =
          absurd (omega (arith, atoms_fuel-pos k r more))
      match_round_ast-Holds (suc fuel) no_atoms ts depth nodes p known ks d l f =
          Holds-give I (nodes, ts) (stop, ks, known, (omega arith, λ h. cc))
      match_round_ast-Holds (suc fuel) (more_atoms a more) ts depth nodes p known ks d l f =
          let (first, others) = &&-eq_true (is_productive a) (are_productive more) p in
          Holds-bind I (match_atom_ast g registry fuel a ts depth true)
            (match_atom_ast-Holds fuel a ts depth true first known d l (omega arith))
            λ (m, us) (derived, h, known', (fewer, strictly)).
              Holds-weaken I (match_round_ast g registry fuel more us depth (with_node nodes m))
                (λ (nodes', vs) (s, ks', known'', (fewer', strictly')). (
                  then_atom derived s,
                  ks',
                  known'',
                  Left-then (reads a) (reads_some more) ts us vs (fewer, strictly)
                      (fewer', strictly'),
                ))
                (match_round_ast-Holds fuel more us depth (with_node nodes m) others known'
                  (with_node-AllKnown nodes m ks h) d (omega arith) (omega arith))

      pub match_atoms_ast-Holds :
          (fuel : ℕ) (more : Atoms) (ts : List Token) (depth : ℕ) (collect : Bool) (first : AstNode)
          → are_productive more ≡ true
          → TokensKnown number number_float Q F ts
          → Known Q first
          → 128 ≤ depth + n
          → length ts ≤ k
          → atoms_fuel k r more ≤ fuel
          → Holds F I
              (Result number number_float Q F (Sequence g accepts more) (reads_some more) ts)
              (match_atoms_ast g registry fuel more ts depth collect first)
      match_atoms_ast-Holds zero more ts depth collect first p known h d l f =
          absurd (omega (arith, atoms_fuel-pos k r more))
      match_atoms_ast-Holds (suc fuel) no_atoms ts depth collect first p known h d l f =
          Holds-give I (first, ts) (stop, h, known, (omega arith, λ e. cc))
      match_atoms_ast-Holds (suc fuel) (more_atoms a more) ts depth collect first p known h d l f =
          let (this, others) = &&-eq_true (is_productive a) (are_productive more) p in
          Holds-bind I
            (match_atom_ast g registry fuel a ts depth (collect || not (capture_of a == 0)))
            (match_atom_ast-Holds fuel a ts depth (collect || not (capture_of a == 0)) this known d
              l (omega arith))
            λ (m, us) (derived, h', known', read).
              Holds-weaken I
                (match_atoms_ast g registry fuel more us depth collect (first_of collect first m))
                (λ (m', vs) (s, h'', known'', read'). (
                  then_atom derived s,
                  h'',
                  known'',
                  Left-then (reads a) (reads_some more) ts us vs read read',
                ))
                (match_atoms_ast-Holds fuel more us depth collect (first_of collect first m) others
                  known' (first_of-Known collect first m h h') d (omega (arith, read.0))
                  (omega arith))
