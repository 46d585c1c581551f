-- ===== src/Parser/Grammar/PatternLoads.antt =====
-- The pattern of a production as src/parser/parser.c reads it.
use morphl.Prelude.{
  ℕ, zero, suc, ◌+◌, ◌*◌, ◌≤◌, ◌<◌, ◌≡◌, refl, inl, inr, false, not, ◌&&◌, Bool-cases, Option, none,
  some, List, [], ◌∷◌, length, Bytes, ◌==◌, arith, subst,
}
use morphl.Util.Intern.{InternTable}
use morphl.Lexer.{span}
use morphl.Parser.Grammar.{
  GrammarAtom, Atoms, atom_literal, atom_token_kind, atom_rule, atom_repeat, no_atoms, more_atoms,
}
use morphl.Parser.Grammar.Build.{is_empty}
use morphl.Parser.Grammar.Tree.{capture_of}
use morphl.Parser.Grammar.Text.{trim_whitespace, group_body, ident_like, parse_literal}
use morphl.Parser.Grammar.Load.{
  Stores, quantifier, binding_power, rule_atom, literal_atom, atom_for, with_capture, snoc_atom,
  attach, group_start, parse_atoms, parse_group, parse_word, parse_pattern,
}
use morphl.Parser.Grammar.Shorter.{
  FitsBelow, LeavesLess, Behind, trim_whitespace_le, group_body-FitsBelow, parse_literal-LeavesLess,
  quantifier_le, group_start-Behind,
}
use morphl.Parser.Grammar.Loads.{
  IsNamed, CaptureNamed, AtomLoaded, AtomsLoaded, ProductionLoaded, CaptureNamed-keep,
  AtomsLoaded-keep, Loads, Loads-done, Loads-refuse, Loads-if, Loads-bind, given-Loads,
  symbol_of-Loads, stored-Loads,
}
use morphl.Parser.Grammar.Powers.{small_power, quantifier-IsQuantifier}

module _ (t : InternTable) where
  with_capture-AtomLoaded :
      (name : ℕ) (a : GrammarAtom)
      → IsNamed t name
      → AtomLoaded t a
      → AtomLoaded t (with_capture name a)
  unfolding AtomLoaded
  with_capture-AtomLoaded name (atom_literal s c) named h = inr named
  with_capture-AtomLoaded name (atom_token_kind kind c) named (h, _) = (h, inr named)
  with_capture-AtomLoaded name (atom_rule symbol bp c) named (h, small, _) = (h, small, inr named)
  with_capture-AtomLoaded name (atom_repeat body least most c) named (h, q, _) = (h, q, inr named)

  snoc_atom-AtomsLoaded :
      (more : Atoms) (a : GrammarAtom)
      → AtomsLoaded t more
      → AtomLoaded t a
      → AtomsLoaded t (snoc_atom more a)
  unfolding snoc_atom AtomsLoaded
  snoc_atom-AtomsLoaded no_atoms a hs h = (h, tt)
  snoc_atom-AtomsLoaded (more_atoms b more) a (h', hs) h = (h', snoc_atom-AtomsLoaded more a hs h)

  attach-AtomsLoaded :
      (more : Atoms) (name pending : ℕ)
      → AtomsLoaded t more
      → IsNamed t name
      → CaptureNamed t pending
      → AtomsLoaded t (attach more name pending).0 × CaptureNamed t (attach more name pending).1
  unfolding attach AtomsLoaded
  attach-AtomsLoaded no_atoms name pending hs named waits = (tt, inr named)
  attach-AtomsLoaded (more_atoms a no_atoms) name pending (h, hs) named waits =
      elim (Bool-cases (capture_of a == 0)) [
        | inl e ↦ rw e ((with_capture-AtomLoaded name a named h, tt), waits)
        | inr e ↦ rw e ((h, tt), inr named)
      ]
  attach-AtomsLoaded (more_atoms a (more_atoms b more)) name pending (h, hs) named waits =
      let (hs', waits') = attach-AtomsLoaded (more_atoms b more) name pending hs named waits in
      ((h, hs'), waits')

module _ {E : Type 0} where
  literal_atom-Loads :
      (s : Stores) (raw : Bytes) (capture : ℕ)
      → CaptureNamed s.names capture
      → Loads E AtomLoaded (literal_atom raw capture) s
  unfolding AtomLoaded
  literal_atom-Loads s raw capture waits =
      Loads-bind s (stored-Loads s raw)
        λ text s' keeps _. Loads-done s' _ (CaptureNamed-keep s.names s'.names keeps capture waits)

  rule_atom-Loads :
      (s : Stores) (text : Bytes) (capture : ℕ)
      → CaptureNamed s.names capture
      → Loads E AtomLoaded (rule_atom text capture) s
  unfolding AtomLoaded
  rule_atom-Loads s text capture waits =
      Loads-if s (is_empty (span (λ c. not (c == 91)) text).0) (λ _. Loads-refuse s)
        λ _.
          Loads-bind s (given-Loads s (binding_power (span (λ c. not (c == 91)) text).1))
            λ bp s' keeps e.
              Loads-bind s' (symbol_of-Loads s' (span (λ c. not (c == 91)) text).0)
                λ sym s'' keeps' named. Loads-done s'' _ (
                  named,
                  small_power (span (λ c. not (c == 91)) text).1 e,
                  CaptureNamed-keep s'.names s''.names keeps' capture
                      (CaptureNamed-keep s.names s'.names keeps capture waits),
                )

  atom_for-Loads :
      (s : Stores) (raw : Bytes) (capture : ℕ)
      → CaptureNamed s.names capture
      → Loads E AtomLoaded (atom_for raw capture) s
  unfolding atom_for AtomLoaded
  atom_for-Loads s [] capture waits = literal_atom-Loads s [] capture waits
  atom_for-Loads s (c ∷ cs) capture waits =
      Loads-if s (c == 36 && not (is_empty cs)) (λ _. rule_atom-Loads s cs capture waits)
        λ _.
          Loads-if s (c == 37)
            (λ _. Loads-bind s (symbol_of-Loads s cs) λ sym s' keeps named.
              Loads-done s' _ (named, CaptureNamed-keep s.names s'.names keeps capture waits))
            (λ _. literal_atom-Loads s (c ∷ cs) capture waits)

  parse_one-Loads :
      (fuel : ℕ) (text : Bytes) (atoms : Atoms) (pending : ℕ) (s : Stores)
      → Loads E AtomsLoaded (parse_word fuel text atoms pending) s
      → ((sub : Bytes)
          → length sub < length text
          → Loads E AtomsLoaded (parse_group fuel sub atoms pending) s)
      → (group : Option Bytes) → Behind (length text) group
      → Loads E AtomsLoaded
          (elim group [
            | some sub ↦ parse_group fuel sub atoms pending
            | none ↦ parse_word fuel text atoms pending
          ])
          s
  parse_one-Loads fuel text atoms pending s word grouped (some sub) less = grouped sub less
  parse_one-Loads fuel text atoms pending s word grouped none less = word

  mutual
    unfolding parse_atoms parse_group parse_word AtomsLoaded AtomLoaded

    parse_atoms-Loads :
        (fuel : ℕ) (line : Bytes) (atoms : Atoms) (pending : ℕ) (s : Stores)
        → 2 * length line + 1 ≤ fuel
        → AtomsLoaded s.names atoms
        → CaptureNamed s.names pending
        → Loads E AtomsLoaded (parse_atoms fuel line atoms pending) s
    parse_atoms-Loads zero line atoms pending s f loaded waits = absurd (omega arith)
    parse_atoms-Loads (suc fuel) line atoms pending s f loaded waits =
        Loads-if s (is_empty (trim_whitespace line)) (λ _. Loads-done s atoms loaded)
          λ some_text.
            let enough : 2 * length (trim_whitespace line) ≤ fuel =
              omega (arith, trim_whitespace_le line) in
            parse_one-Loads fuel (trim_whitespace line) atoms pending s
              (parse_word-Loads fuel (trim_whitespace line) atoms pending s enough some_text loaded
                waits)
              (λ sub less. parse_group-Loads fuel sub atoms pending s (omega arith) loaded waits)
              (group_start (trim_whitespace line)) (group_start-Behind (trim_whitespace line))

    parse_group-Loads :
        (fuel : ℕ) (sub : Bytes) (atoms : Atoms) (pending : ℕ) (s : Stores)
        → 2 * length sub + 2 ≤ fuel
        → AtomsLoaded s.names atoms
        → CaptureNamed s.names pending
        → Loads E AtomsLoaded (parse_group fuel sub atoms pending) s
    parse_group-Loads zero sub atoms pending s f loaded waits = absurd (omega arith)
    parse_group-Loads (suc fuel) sub atoms pending s f loaded waits =
        Loads-bind s (given-Loads s (group_body 1 sub)) λ (inner, behind) s' keeps e.
          let less : length inner + length behind < length sub =
            subst (FitsBelow (length sub)) e (group_body-FitsBelow 1 sub) in
          let rest = trim_whitespace behind in
          Loads-bind s' (parse_atoms-Loads fuel inner no_atoms 0 s' (omega arith) tt (inl refl))
            λ body s'' keeps' inside.
              parse_atoms-Loads fuel (quantifier rest).2
                (snoc_atom atoms (atom_repeat body (quantifier rest).0 (quantifier rest).1 pending))
                0 s'' (omega (arith, quantifier_le rest, trim_whitespace_le behind))
                (snoc_atom-AtomsLoaded s''.names atoms _
                  (AtomsLoaded-keep s'.names s''.names keeps' atoms
                    (AtomsLoaded-keep s.names s'.names keeps atoms loaded))
                  (
                    inside,
                    quantifier-IsQuantifier rest,
                    CaptureNamed-keep s'.names s''.names keeps' pending
                        (CaptureNamed-keep s.names s'.names keeps pending waits),
                  ))
                (inl refl)

    parse_word-Loads :
        (fuel : ℕ) (text : Bytes) (atoms : Atoms) (pending : ℕ) (s : Stores)
        → 2 * length text ≤ fuel
        → is_empty text ≡ false
        → AtomsLoaded s.names atoms
        → CaptureNamed s.names pending
        → Loads E AtomsLoaded (parse_word fuel text atoms pending) s
    parse_word-Loads zero [] atoms pending s f some_text loaded waits = cc
    parse_word-Loads zero (c ∷ cs) atoms pending s f some_text loaded waits = absurd (omega arith)
    parse_word-Loads (suc fuel) text atoms pending s f some_text loaded waits =
        Loads-bind s (given-Loads s (parse_literal text)) λ (was_quoted, raw, rest) s' keeps e.
          let less : length rest < length text =
            subst (LeavesLess (length text)) e (parse_literal-LeavesLess text) in
          let loaded' = AtomsLoaded-keep s.names s'.names keeps atoms loaded in
          let waits' = CaptureNamed-keep s.names s'.names keeps pending waits in
          Loads-if s' (ident_like raw && not was_quoted)
            (λ _. Loads-bind s' (symbol_of-Loads s' raw) λ name s'' keeps' named.
              let (hs, waits'') =
                attach-AtomsLoaded s''.names atoms name pending
                  (AtomsLoaded-keep s'.names s''.names keeps' atoms loaded') named
                  (CaptureNamed-keep s'.names s''.names keeps' pending waits') in
              parse_atoms-Loads fuel rest (attach atoms name pending).0
                (attach atoms name pending).1 s'' (omega arith) hs waits'')
            (λ _. Loads-bind s' (atom_for-Loads s' raw pending waits') λ a s'' keeps' h.
              parse_atoms-Loads fuel rest (snoc_atom atoms a) 0 s'' (omega arith)
                (snoc_atom-AtomsLoaded s''.names atoms a
                  (AtomsLoaded-keep s'.names s''.names keeps' atoms loaded') h)
                (inl refl))

  pub parse_pattern-Loads :
      (s : Stores) (line : Bytes) (name : ℕ) (templates : List Bytes)
      → 0 < length templates
      → Loads E (λ t. ProductionLoaded t name) (parse_pattern line name templates) s
  unfolding parse_pattern AtomsLoaded
  parse_pattern-Loads s line name templates some_template =
      Loads-bind s
        (parse_atoms-Loads (2 * length line + 1) line no_atoms 0 s (omega arith) tt (inl refl))
        λ atoms s' keeps loaded. Loads-done s' _ (some_template, refl, loaded)
