-- ===== src/Parser/Grammar/AtomsEnd.antt =====
-- The loops over atoms and rounds of src/parser/parser.c end, if the rules do.
use morphl.Prelude.{
  ℕ, zero, suc, ◌+◌, ◌-◌, ◌≤◌, ◌<◌, ◌≡◌, ◌⊎◌, inl, inr, Bool, true, ◌||◌, &&-eq_true, Bool-cases,
  some, List, [], ◌∷◌, length, ltb, leb, ltb→lt, leb→le, Outcome, Post, returns, fails, Post-bind,
  Post-attempt, Post-required, Post-if, Post-weaken, arith,
}
use morphl.Lexer.{Token}
use morphl.Parser.Grammar.{
  GrammarAtom, Atoms, GrammarRule, Grammar, atom_literal, atom_token_kind, atom_rule, atom_repeat,
  no_atoms, more_atoms, find_rule, one_token, is_literal, is_kind, enough_rounds, match_atom,
  match_rounds, match_atoms, parse_rule_internal,
}
use morphl.Parser.Grammar.Productive.{
  reads, reads_some, is_productive, are_productive, atom_fuel, atoms_fuel, atom_fuel-pos,
  atoms_fuel-pos,
}

abbrev pub Ends : {A : Type 0} → (A → Type 0) → Outcome A → Type 0
Ends P = Post P ⊥

one_token-Ends :
    (test : Token → Bool) (toks : List Token)
    → Ends (λ us. length us < length toks) (one_token test toks)
one_token-Ends test [] = fails
one_token-Ends test (t ∷ ts) = Post-if (test t) (λ _. returns (omega arith)) (λ _. fails)

enough_rounds-Ends :
    (least count : ℕ) (reading : Bool) (ts : List Token)
    → Ends
        (λ us. (length us ≤ length ts) × (count < least → reading ≡ true → length us < length ts))
        (enough_rounds least count ts)
enough_rounds-Ends least count reading ts =
    Post-if (ltb count least) (λ _. fails)
      (λ enough. returns (omega arith, λ few _. absurd (ground (arith, enough, few))))

-- No more tokens are left, and fewer if the atoms read some.
abbrev pub Left : Bool → List Token → List Token → Type 0
Left reading ts us = (length us ≤ length ts) × (reading ≡ true → length us < length ts)

module _ (g : Grammar) (k n r : ℕ)
    (rule_ends : (fuel symbol : ℕ) (rule : GrammarRule) (bp : ℕ) (ts : List Token) (depth : ℕ)
      → find_rule g.rules symbol ≡ some rule
      → 129 ≤ depth + n
      → length ts ≤ k
      → r ≤ fuel
      → Ends (λ us. length us < length ts) (parse_rule_internal g fuel rule bp ts depth))
    (some_tokens : 1 ≤ k) where
  mutual
    unfolding match_atom match_rounds match_atoms reads reads_some is_productive are_productive
        atom_fuel atoms_fuel

    match_atom-Ends :
        (fuel : ℕ) (a : GrammarAtom) (ts : List Token) (depth : ℕ)
        → is_productive a ≡ true
        → 128 ≤ depth + n
        → length ts ≤ k
        → atom_fuel k r a ≤ fuel
        → Ends (Left (reads a) ts) (match_atom g fuel a ts depth)
    match_atom-Ends zero a ts depth p d l f = absurd (omega (arith, atom_fuel-pos k r a))
    match_atom-Ends (suc fuel) (atom_literal s c) ts depth p d l f =
        Post-weaken (λ us h. (omega arith, λ _. h)) (one_token-Ends (is_literal s) ts)
    match_atom-Ends (suc fuel) (atom_token_kind kind c) ts depth p d l f =
        Post-weaken (λ us h. (omega arith, λ _. h)) (one_token-Ends (is_kind kind) ts)
    match_atom-Ends (suc fuel) (atom_rule symbol bp c) ts depth p d l f =
        Post-bind (Post-required (find_rule g.rules symbol) (λ rule e. e)) λ rule found.
          Post-weaken (λ us h. (omega arith, λ _. h))
            (rule_ends fuel symbol rule bp ts (depth + 1) found (omega arith) l (omega arith))
    match_atom-Ends (suc fuel) (atom_repeat body least most c) ts depth p d l f =
        let (ends, inner) = &&-eq_true (reads_some body || leb most 1) (are_productive body) p in
        Post-weaken
          (λ us h. (
            h.0,
            λ both.
                let (once, reading) = &&-eq_true (ltb 0 least) (reads_some body) both in
                h.1 (ltb→lt 0 least once) reading,
          ))
          (match_rounds-Ends fuel body least most 0 ts depth k inner
            (elim (Bool-cases (reads_some body)) [
              | inl reading ↦ inl (reading, l)
              | inr idle ↦ inr (omega (arith, leb→le most 1 (rw idle at ends)))
            ])
            d l (omega arith))

    match_rounds-Ends :
        (fuel : ℕ) (body : Atoms) (least most count : ℕ) (ts : List Token) (depth left : ℕ)
        → are_productive body ≡ true
        → ((reads_some body ≡ true) × (length ts ≤ left)) ⊎ (most ≤ count + left)
        → 128 ≤ depth + n
        → length ts ≤ k
        → suc (left + atoms_fuel k r body) ≤ fuel
        → Ends
            (λ us.
              (length us ≤ length ts)
              × (count < least → reads_some body ≡ true → length us < length ts))
            (match_rounds g fuel body least most count ts depth)
    match_rounds-Ends zero body least most count ts depth left p b d l f = absurd (omega arith)
    match_rounds-Ends (suc fuel) body least most count ts depth left p b d l f =
        Post-if (ltb count most)
          (λ again.
            Post-attempt (match_atoms-Ends fuel body ts (depth + 1) p (omega arith) l (omega arith))
              (enough_rounds-Ends least count (reads_some body) ts)
              λ us (fewer, strictly). elim b [
                | inl (reading, short) ↦
                    let less : length us < length ts = strictly reading in
                    Post-weaken (λ vs (fewer', _). (omega arith, λ _ _. omega arith))
                      (match_rounds-Ends fuel body least most (suc count) us depth (left - 1) p
                        (inl (reading, omega arith)) d (omega arith) (omega arith))
                | inr few ↦
                    let one_left : 1 ≤ left = omega (arith, ltb→lt count most again) in
                    Post-weaken
                      (λ vs (fewer', _).
                        (omega arith, λ _ reading. omega (arith, strictly reading)))
                      (match_rounds-Ends fuel body least most (suc count) us depth (left - 1) p
                        (inr (omega arith)) d (omega arith) (omega arith))
              ])
          (λ _. (enough_rounds-Ends least count (reads_some body) ts))

    pub match_atoms-Ends :
        (fuel : ℕ) (more : Atoms) (ts : List Token) (depth : ℕ)
        → are_productive more ≡ true
        → 128 ≤ depth + n
        → length ts ≤ k
        → atoms_fuel k r more ≤ fuel
        → Ends (Left (reads_some more) ts) (match_atoms g fuel more ts depth)
    match_atoms-Ends zero more ts depth p d l f = absurd (omega (arith, atoms_fuel-pos k r more))
    match_atoms-Ends (suc fuel) no_atoms ts depth p d l f = returns (omega arith, λ h. cc)
    match_atoms-Ends (suc fuel) (more_atoms a more) ts depth p d l f =
        let (first, others) = &&-eq_true (is_productive a) (are_productive more) p in
        Post-bind (match_atom-Ends fuel a ts depth first d l (omega arith)) λ us (fewer, strictly).
          Post-weaken
            (λ vs (fewer', strictly'). (
              omega arith,
              λ h. elim (Bool-cases (reads a)) [
                | inl reading ↦ omega (arith, strictly reading)
                | inr idle ↦ omega (arith, strictly' (rw idle at h))
              ],
            ))
            (match_atoms-Ends fuel more us depth others d (omega arith) (omega arith))
