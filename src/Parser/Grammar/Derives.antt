-- ===== src/Parser/Grammar/Derives.antt =====
-- What a grammar of src/parser/parser.c derives, whatever the order in which the parser tries the
-- productions, and however deep it goes.
use morphl.Prelude.{
  ℕ, zero, suc, ◌≤◌, ◌≡◌, true, false, some, List, ◌∷◌, get_elem?, Bytes, ltb, Bool,
}
use morphl.Lexer.{Token}
use morphl.Parser.Grammar.{
  GrammarAtom, Atoms, Production, GrammarRule, Grammar, atom_literal, atom_token_kind, atom_rule,
  atom_repeat, no_atoms, more_atoms, min_bp, find_rule, is_literal,
}

-- The production is one of the rule's.
abbrev pub Has : GrammarRule → Production → Type 0
Has rule prod = (i : ℕ) × (get_elem? rule.productions i ≡ some prod)

-- A derivation reads the tokens `ts` and leaves `us`. A token is accepted for a kind by `accepts`.
module _ (g : Grammar) (accepts : ℕ → Token → Bool) where
  mutual
    pub data Atom : GrammarAtom → List Token → List Token → Type 0 where
      literal :
          {s : Bytes} {capture : ℕ} {t : Token} {ts : List Token}
          → is_literal s t ≡ true
          → Atom (atom_literal s capture) (t ∷ ts) ts
      token_kind :
          {kind capture : ℕ} {t : Token} {ts : List Token}
          → accepts kind t ≡ true
          → Atom (atom_token_kind kind capture) (t ∷ ts) ts
      rule :
          {symbol bp capture : ℕ} {r : GrammarRule} {ts us : List Token}
          → find_rule g.rules symbol ≡ some r
          → Rule r bp ts us
          → Atom (atom_rule symbol bp capture) ts us
      repeat :
          {body : Atoms} {least most capture n : ℕ} {ts us : List Token}
          → least ≤ n
          → n ≤ most
          → Rounds body n ts us
          → Atom (atom_repeat body least most capture) ts us

    pub data Rounds : Atoms → ℕ → List Token → List Token → Type 0 where
      no_round : {body : Atoms} {ts : List Token} → Rounds body zero ts ts
      round :
          {body : Atoms} {n : ℕ} {ts us vs : List Token}
          → Sequence body ts us
          → Rounds body n us vs
          → Rounds body (suc n) ts vs

    pub data Sequence : Atoms → List Token → List Token → Type 0 where
      stop : {ts : List Token} → Sequence no_atoms ts ts
      then_atom :
          {a : GrammarAtom} {more : Atoms} {ts us vs : List Token}
          → Atom a ts us
          → Sequence more us vs
          → Sequence (more_atoms a more) ts vs

    -- An expression of a rule, whose operands bind at least as tightly as `bp`: one of a production
    -- that does not start with an expression, then extended by productions that do.
    pub data Rule : GrammarRule → ℕ → List Token → List Token → Type 0 where
      prefix :
          {r : GrammarRule} {bp : ℕ} {prod : Production} {ts us : List Token}
          → Has r prod
          → prod.starts_with_expr ≡ false
          → Sequence prod.atoms ts us
          → Rule r bp ts us
      extended :
          {r : GrammarRule} {bp : ℕ} {prod : Production} {a : GrammarAtom} {more : Atoms}
          {ts us vs : List Token}
          → Rule r bp ts us
          → Has r prod
          → prod.starts_with_expr ≡ true
          → prod.atoms ≡ more_atoms a more
          → ltb (min_bp a) bp ≡ false
          → Sequence more us vs
          → Rule r bp ts vs
