-- ===== src/Parser/Grammar/Sound.antt =====
-- What the recogniser of src/parser/parser.c accepts is derived by the grammar.
use morphl.Prelude.{
  ℕ, zero, suc, ◌+◌, codes, ◌≤◌, ◌≡◌, refl, subst, Bool, true, false, ◌&&◌, some, List, [], ◌∷◌,
  length, get_elem?, ltb, leb, ◌==◌, Outcome, ok, failed, fault, Post, returns, fails, faults,
  Post-bind, Post-attempt, Post-required, Post-if, Post-weaken, of_ok, arith,
}
use morphl.Util.Intern.{InternTable, interns_intern}
use morphl.Lexer.{Token}
use morphl.Parser.Grammar.{
  GrammarAtom, Atoms, Production, GrammarRule, Grammar, atom_literal, atom_token_kind, atom_rule,
  atom_repeat, no_atoms, more_atoms, atom_count, parser_max_depth, find_rule, one_token, is_literal,
  is_kind, atoms_to_match, is_candidate, enough_rounds, match_atom, match_rounds, match_atoms,
  match_pattern, match_any, extend, parse_rule_internal, all_read, drop_end, starting,
  grammar_parse,
}
use morphl.Parser.Grammar.Derives.{
  Has, Atom, Rounds, Sequence, Rule, literal, token_kind, rule, repeat, no_round, stop, then_atom,
}
use morphl.Parser.Grammar.Matches.{Matches, MatchesAny, snoc_round, to_prefix, to_extended}

abbrev Ensures {ℓ} : {A : Type ℓ} → (A → Type ℓ) → Outcome A → Type ℓ
Ensures P = Post P Unit

one_token_sound :
    (test : Token → Bool) (P : List Token → List Token → Type 0) (toks : List Token)
    → ((t : Token) (ts : List Token) → test t ≡ true → P (t ∷ ts) ts)
    → Ensures (P toks) (one_token test toks)
one_token_sound test P [] h = fails
one_token_sound test P (t ∷ ts) h = Post-if (test t) (λ e. returns (h t ts e)) (λ _. fails)

module _ (g : Grammar) where
  mutual
    unfolding match_atom match_rounds match_atoms match_pattern match_any extend parse_rule_internal

    match_atom_sound :
        (fuel : ℕ) (a : GrammarAtom) (ts : List Token) (depth : ℕ)
        → Ensures (Atom g is_kind a ts) (match_atom g fuel a ts depth)
    match_atom_sound zero a ts depth = faults tt
    match_atom_sound (suc fuel) (atom_literal s c) ts depth =
        one_token_sound (is_literal s) (Atom g is_kind (atom_literal s c)) ts (λ t us e. literal e)
    match_atom_sound (suc fuel) (atom_token_kind k c) ts depth =
        one_token_sound (is_kind k) (Atom g is_kind (atom_token_kind k c)) ts
          (λ t us e. token_kind e)
    match_atom_sound (suc fuel) (atom_rule symbol bp c) ts depth =
        Post-bind (Post-required (find_rule g.rules symbol) (λ r e. e)) λ r found.
          Post-weaken (λ us d. rule found d) (parse_rule_internal_sound fuel r bp ts (depth + 1))
    match_atom_sound (suc fuel) (atom_repeat body least most c) ts depth =
        Post-weaken (λ us (n, low, high, made). repeat low high made)
          (match_rounds_sound fuel body least most 0 ts ts depth no_round (omega arith))

    match_rounds_sound :
        (fuel : ℕ) (body : Atoms) (least most count : ℕ) (ts us : List Token) (depth : ℕ)
        → Rounds g is_kind body count ts us
        → count ≤ most
        → Ensures
            (λ vs. (n : ℕ) × (least ≤ n) × (n ≤ most) × Rounds g is_kind body n ts vs)
            (match_rounds g fuel body least most count us depth)
    match_rounds_sound zero body least most count ts us depth made in_range = faults tt
    match_rounds_sound (suc fuel) body least most count ts us depth made in_range =
        let done : Ensures
            (λ vs. (n : ℕ) × (least ≤ n) × (n ≤ most) × Rounds g is_kind body n ts vs)
            (enough_rounds least count us) =
          Post-if (ltb count least) (λ _. fails)
            (λ e. returns (count, ground (arith, e), in_range, made)) in
        Post-if (ltb count most)
          (λ e. Post-attempt (match_atoms_sound fuel body us (depth + 1)) done λ vs s.
            match_rounds_sound fuel body least most (suc count) ts vs depth
              (snoc_round g is_kind made s) (ground (arith, e)))
          (λ _. done)

    match_atoms_sound :
        (fuel : ℕ) (as' : Atoms) (ts : List Token) (depth : ℕ)
        → Ensures (Sequence g is_kind as' ts) (match_atoms g fuel as' ts depth)
    match_atoms_sound zero more ts depth = faults tt
    match_atoms_sound (suc fuel) no_atoms ts depth = returns stop
    match_atoms_sound (suc fuel) (more_atoms a more) ts depth =
        Post-bind (match_atom_sound fuel a ts depth) λ us first.
          Post-weaken (λ vs others. then_atom first others) (match_atoms_sound fuel more us depth)

    match_pattern_sound :
        (fuel : ℕ) (prod : Production) (ts : List Token) (bp : ℕ) (extending : Bool) (depth : ℕ)
        → Ensures
            (Matches g is_kind prod bp extending ts)
            (match_pattern g fuel prod ts bp extending depth)
    match_pattern_sound zero prod ts bp extending depth = faults tt
    match_pattern_sound (suc fuel) prod ts bp extending depth =
        Post-if (ltb parser_max_depth depth) (λ _. fails)
          λ _. Post-bind (Post-required (atoms_to_match prod bp extending) (λ more e. e)) λ more e.
            Post-bind (match_atoms_sound fuel more ts depth) λ us s.
              Post-if (extending && leb (atom_count prod.atoms) 1) (λ _. fails)
                λ enough.
                  Post-if (length us == length ts) (λ _. fails) λ _. returns (more, e, s, enough)

    match_any_sound :
        (fuel : ℕ) (r : GrammarRule) (extending : Bool) (prods : List Production) (ts : List Token)
        (bp depth : ℕ)
        → ((i : ℕ) (prod : Production) → get_elem? prods i ≡ some prod → Has r prod)
        → Ensures
            (MatchesAny g is_kind r bp extending ts)
            (match_any g fuel extending prods ts bp depth)
    match_any_sound zero r extending prods ts bp depth within = faults tt
    match_any_sound (suc fuel) r extending [] ts bp depth within = fails
    match_any_sound (suc fuel) r extending (prod ∷ prods) ts bp depth within =
        let others =
          match_any_sound fuel r extending prods ts bp depth (λ i p h. within (suc i) p h) in
        Post-if (is_candidate extending prod)
          (λ candidate.
            Post-attempt (match_pattern_sound fuel prod ts bp extending (depth + 1)) others
              λ us m. returns (prod, within 0 prod refl, candidate, m))
          (λ _. others)

    extend_sound :
        (fuel : ℕ) (r : GrammarRule) (bp : ℕ) (start ts : List Token) (depth : ℕ)
        → Rule g is_kind r bp start ts
        → Ensures (Rule g is_kind r bp start) (extend g fuel r bp ts depth)
    extend_sound zero r bp start ts depth d = faults tt
    extend_sound (suc fuel) r bp start ts depth d =
        Post-attempt (match_any_sound fuel r true r.productions ts bp depth (λ i p h. (i, h)))
          (returns d)
          λ us m. extend_sound fuel r bp start us depth (to_extended g is_kind r bp start ts us d m)

    parse_rule_internal_sound :
        (fuel : ℕ) (r : GrammarRule) (bp : ℕ) (ts : List Token) (depth : ℕ)
        → Ensures (Rule g is_kind r bp ts) (parse_rule_internal g fuel r bp ts depth)
    parse_rule_internal_sound zero r bp ts depth = faults tt
    parse_rule_internal_sound (suc fuel) r bp ts depth =
        Post-if (ltb parser_max_depth depth) (λ _. fails)
          λ _.
            Post-bind (match_any_sound fuel r false r.productions ts bp depth (λ i p h. (i, h)))
              λ us m. extend_sound fuel r bp ts us depth (to_prefix g is_kind r bp ts us m)

itself {ℓ} : {A : Type ℓ} (r : Outcome A) → Ensures (λ a. r ≡ ok a) r
itself (ok a) = returns refl
itself failed = fails
itself fault = faults tt

pub all_read-nil : (toks : List Token) → all_read toks ≡ true → toks ≡ []
all_read-nil [] h = refl
all_read-nil (t ∷ ts) h = cc

abbrev Accepted : Grammar → ℕ → List Token → InternTable → InternTable → Type 0
Accepted g start_rule tokens names names' =
    (eof : ℕ) × (r : GrammarRule) × (interns_intern names (some (codes "EOF")) ≡ ok (eof, names'))
    × (find_rule g.rules (starting g start_rule) ≡ some r)
    × Rule g is_kind r 0 (drop_end eof tokens) []

-- An accepted input is derived: the tokens, less the end token, are an expression of the start rule.
pub grammar_parse-Rule :
    (fuel : ℕ) (g : Grammar) (start_rule : ℕ) (tokens : List Token) (names names' : InternTable)
    → grammar_parse fuel g start_rule tokens names ≡ ok names'
    → (eof : ℕ) × (r : GrammarRule) × (interns_intern names (some (codes "EOF")) ≡ ok (eof, names'))
      × (find_rule g.rules (starting g start_rule) ≡ some r)
      × Rule g is_kind r 0 (drop_end eof tokens) []
unfolding grammar_parse
grammar_parse-Rule fuel g start_rule tokens names names' accepted =
    of_ok {P = Accepted g start_rule tokens names}
      (Post-if (length g.rules == 0) (λ _. fails)
        λ _.
          Post-bind (itself (interns_intern names (some (codes "EOF")))) λ (eof, names'') interned.
            Post-bind (Post-required (find_rule g.rules (starting g start_rule)) (λ r e. e))
              λ r found.
                Post-bind (parse_rule_internal_sound g fuel r 0 (drop_end eof tokens) 0) λ rest d.
                  Post-if (all_read rest)
                    (λ e. returns (
                      eof,
                      r,
                      interned,
                      found,
                      subst (Rule g is_kind r 0 (drop_end eof tokens)) (all_read-nil rest e) d,
                    ))
                    (λ _. fails))
      accepted
