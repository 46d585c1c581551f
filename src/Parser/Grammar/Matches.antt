-- ===== src/Parser/Grammar/Matches.antt =====
-- Steps of the parser of src/parser/parser.c as derivations.
use morphl.Prelude.{
  ℕ, suc, ◌≡◌, sym, ap, subst, Bool, true, false, ◌&&◌, Bool-cases, inl, inr, some, some-injective,
  List, ltb, leb, arith,
}
use morphl.Lexer.{Token}
use morphl.Parser.Grammar.{
  GrammarAtom, Atoms, Production, GrammarRule, Grammar, no_atoms, more_atoms, atom_count, min_bp,
  skip_leading, atoms_to_match, is_candidate,
}
use morphl.Parser.Grammar.Derives.{Has, Rounds, Sequence, Rule, no_round, round, prefix, extended}

module _ (g : Grammar) (accepts : ℕ → Token → Bool) where
  -- Rounds that have been made, and those that follow.
  pub snoc_round :
      {body : Atoms} {n : ℕ} {ts us vs : List Token}
      → Rounds g accepts body n ts us
      → Sequence g accepts body us vs
      → Rounds g accepts body (suc n) ts vs
  snoc_round no_round s = round s no_round
  snoc_round (round t r) s = round t (snoc_round r s)

  pub leading_atom :
      (whole : Atoms) (bp : ℕ) {more : Atoms}
      → skip_leading whole bp ≡ some more
      → leb (atom_count whole) 1 ≡ false
      → (a : GrammarAtom) × (whole ≡ more_atoms a more) × (ltb (min_bp a) bp ≡ false)
  leading_atom no_atoms bp e enough = cc
  leading_atom (more_atoms a others) bp e enough = elim (Bool-cases (ltb (min_bp a) bp)) [
    | inl weak ↦ cc (rw weak at e)
    | inr tight ↦ (a, ap (more_atoms a) (some-injective (rw tight at e)), tight)
  ]

  -- What a production matches.
  abbrev pub Matches : Production → ℕ → Bool → List Token → List Token → Type 0
  Matches prod bp extending ts us =
      (more : Atoms) × (atoms_to_match prod bp extending ≡ some more)
      × Sequence g accepts more ts us
      × ((extending && leb (atom_count prod.atoms) 1) ≡ false)

  abbrev pub MatchesAny : GrammarRule → ℕ → Bool → List Token → List Token → Type 0
  MatchesAny r bp extending ts us =
      (prod : Production) × Has r prod
      × (is_candidate extending prod ≡ true)
      × Matches prod bp extending ts us

  pub to_prefix :
      (r : GrammarRule) (bp : ℕ) (ts us : List Token)
      → MatchesAny r bp false ts us
      → Rule g accepts r bp ts us
  to_prefix r bp ts us (prod, has, fresh, (more, e, s, _)) =
      let fresh' : prod.starts_with_expr ≡ false = ground (arith, fresh) in
      let same : prod.atoms ≡ more = some-injective (rw fresh' at e) in
      prefix has fresh' (subst (λ x. Sequence g accepts x ts us) (sym same) s)

  pub to_extended :
      (r : GrammarRule) (bp : ℕ) (start ts us : List Token)
      → Rule g accepts r bp start ts
      → MatchesAny r bp true ts us
      → Rule g accepts r bp start us
  to_extended r bp start ts us d (prod, has, leading, (more, e, s, enough)) =
      let leading' : prod.starts_with_expr ≡ true = leading in
      let (a, whole, tight) = leading_atom prod.atoms bp (rw leading' at e) enough in
      extended d has leading' whole tight s
