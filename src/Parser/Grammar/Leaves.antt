-- ===== src/Parser/Grammar/Leaves.antt =====
-- The leaves that src/parser/parser.c makes of tokens, and the names that it interns on the way.
use morphl.Prelude.{
  ℕ, ◌≡◌, refl, sym, ap, ◌∙◌, inl, inr, Bool, true, not, ◌&&◌, some, List, [], ◌∷◌, Bytes, codes,
  ok-injective, ◌==◌, arith, Bool-cases,
}
use morphl.Util.{Str}
use morphl.Util.Intern.{InternTable, interns_lookup}
use morphl.Util.Intern.Invariant.{WellFormed}
use morphl.Util.Intern.Ids.{Keeps, next, interns_intern-interns_lookup}
use morphl.Ast.{AstNode, null, literal}
use morphl.Lexer.{Token}
use morphl.Parser.Grammar.{atom_literal, atom_token_kind, is_literal, Grammar}
use morphl.Parser.Grammar.Derives.{Atom, literal, token_kind}
use morphl.Parser.Grammar.AtomsEnd.{Left}
use morphl.Parser.Grammar.Attempts.{Try, Holds, Holds-give, Holds-give_up, Holds-if, Holds-bind}
use morphl.Parser.Grammar.Build.{Capture, Matching, intern, capture_append}
use morphl.Parser.Grammar.Known.{
  Known, CapturesKnown, State, capture_append-CapturesKnown, intern-Holds,
}
use morphl.Parser.Grammar.Tree.{
  Match, captured, add_capture, kept_leaf, match_literal, is_kind_of, kind_leaf, match_token_kind,
  nested, on_captures,
}

-- The names that the parser goes by: two of the token kinds have these ids.
pub record Names (number number_float : ℕ) (t : InternTable) : Type 0 where
  pub fine : WellFormed t
  pub number_is : interns_lookup t number ≡ some (codes "NUMBER")
  pub float_is : interns_lookup t number_float ≡ some (codes "FLOAT")

module _ (number number_float : ℕ) (Q : Str → Type 0) (F : Type 0) where
  abbrev pub NamesFine : InternTable → Type 0
  NamesFine = Names number number_float

  pub Names-fine : (t : InternTable) → NamesFine t → WellFormed t
  Names-fine t n = n.fine

  pub Names-keep : (t t' : InternTable) → NamesFine t → WellFormed t' → Keeps t t' → NamesFine t'
  Names-keep t t' n w keeps = record {
    fine = w;
    number_is = keeps number (codes "NUMBER") n.number_is;
    float_is = keeps number_float (codes "FLOAT") n.float_is;
  }

  abbrev pub Fine : Matching → Type 0
  Fine = State Q F NamesFine Names-fine Names-keep

  abbrev pub TokensKnown : List Token → Type 0
  TokensKnown [] = Unit
  TokensKnown (t ∷ ts) = Q t.lexeme × TokensKnown ts

  -- What has been read of `ts` is derived, and the node and the tokens left are known.
  abbrev pub Result : (List Token → List Token → Type 0) → Bool → List Token → Match → Type 0
  Result R reading ts (n, us) = R ts us × Known Q n × TokensKnown us × Left reading ts us

  pub nested-Holds :
      {A : Type 0} {P : A → Type 0} (x : Try InternTable A)
      → Holds F NamesFine P x
      → Holds F Fine P (nested x)
  nested-Holds x h m (i, k) = elim (h m.names i) [
    | inl (f, e) ↦ inl (f, rw e refl)
    | inr (r, t, e, i', p) ↦ inr (r, record m { names = t }, rw e refl, (i', k), p)
  ]

  pub on_captures-Holds :
      {A : Type 0} {P : A → Type 0} (captures : List Capture) (x : Try Matching A)
      → CapturesKnown Q captures
      → Holds F Fine P x
      → Holds F NamesFine P (on_captures captures x)
  on_captures-Holds captures x k h t i =
      elim (h (record { captures = captures; names = t; taken = [] }) (i, k)) [
        | inl (f, e) ↦ inl (f, rw e refl)
        | inr (r, m, e, (i', _), p) ↦ inr (r, m.names, rw e refl, i', p)
      ]

  add_capture-Holds :
      (P : Match → Type 0) (name : ℕ) (n : AstNode) (rest : List Token)
      → Known Q n
      → P (n, rest)
      → Holds F Fine P (add_capture name n rest)
  add_capture-Holds P name n rest known p m (i, k) = inr (
    some (n, rest),
    record m { captures = capture_append m.captures name n },
    refl,
    (i, capture_append-CapturesKnown Q m.captures name n k known),
    p,
  )

  pub captured-Holds :
      (P : Match → Type 0) (name : ℕ) (n : AstNode) (rest : List Token)
      → Known Q n
      → P (n, rest)
      → Holds F Fine P (captured name n rest)
  captured-Holds P name n rest known p =
      Holds-if Fine (name == 0) (λ _. Holds-give Fine (n, rest) p)
        (λ _. add_capture-Holds P name n rest known p)

  -- A name that has an id is interned as that id.
  intern_as :
      (s : Bytes) (id : ℕ)
      → ((t : InternTable) → NamesFine t → interns_lookup t id ≡ some s)
      → Holds F Fine (λ sym. sym ≡ id) (intern (some s))
  intern_as s id named m (i, k) =
      let n = next m.names s i.fine in
      let (t', runs, _) = interns_intern-interns_lookup m.names s id i.fine (named m.names i) in
      let same : n.id ≡ id = ap (λ (x : ℕ × InternTable). x.0) (ok-injective (sym n.runs ∙ runs)) in
      inr (
        some n.id,
        record m { names = n.table },
        rw n.runs refl,
        (Names-keep m.names n.table i n.fine n.keeps, k),
        same,
      )

  module _ (g : Grammar) where
    pub match_literal-Holds :
        (s : Bytes) (capture : ℕ) (wanted : Bool) (ts : List Token)
        → TokensKnown ts
        → Holds F Fine
            (Result (Atom g (is_kind_of number number_float) (atom_literal s capture)) true ts)
            (match_literal s capture wanted ts)
    unfolding match_literal Known
    match_literal-Holds s capture wanted [] k = Holds-give_up Fine
    match_literal-Holds s capture wanted (t ∷ ts) (q, k) =
        Holds-if Fine (is_literal s t)
          (λ e.
            Holds-if Fine (wanted && not (capture == 0))
              (λ _.
                add_capture-Holds _ capture (kept_leaf t) ts (inr q, tt)
                  (literal e, (inr q, tt), k, (omega arith, λ _. omega arith)))
              (λ _. Holds-give Fine (null, ts) (literal e, tt, k, (omega arith, λ _. omega arith))))
          (λ _. Holds-give_up Fine)

    kind_leaf-Known : (ident_kind : ℕ) (t : Token) → Q t.lexeme → Known Q (kind_leaf ident_kind t)
    unfolding Known
    kind_leaf-Known ident_kind t q =
        elim (Bool-cases (not (ident_kind == 0) && t.kind == ident_kind)) [
          | inl named ↦ rw named (inr q, tt)
          | inr other ↦ rw other (inr q, tt)
        ]

    pub match_token_kind-Holds :
        (kind capture : ℕ) (wanted : Bool) (ts : List Token)
        → TokensKnown ts
        → Holds F Fine
            (Result
              (Atom g (is_kind_of number number_float) (atom_token_kind kind capture))
              true
              ts)
            (match_token_kind kind capture wanted ts)
    unfolding match_token_kind Known
    match_token_kind-Holds kind capture wanted [] k = Holds-give_up Fine
    match_token_kind-Holds kind capture wanted (t ∷ ts) (q, k) =
        Holds-bind Fine (intern (some (codes "NUMBER")))
          (intern_as (codes "NUMBER") number (λ t n. n.number_is))
          λ a same_a.
            Holds-bind Fine (intern (some (codes "FLOAT")))
              (intern_as (codes "FLOAT") number_float (λ t n. n.float_is))
              λ b same_b.
                Holds-if Fine (is_kind_of a b kind t)
                  (λ e.
                    let e' : is_kind_of number number_float kind t ≡ true =
                      rw (sym same_a, sym same_b) e in
                    Holds-if Fine wanted
                      (λ _.
                        Holds-bind Fine (intern (some (codes "IDENT")))
                          (intern-Holds Q F NamesFine Names-fine Names-keep (some (codes "IDENT")))
                          λ c _.
                            captured-Holds _ capture (kind_leaf c t) ts (kind_leaf-Known c t q) (
                              token_kind e',
                              kind_leaf-Known c t q,
                              k,
                              (omega arith, λ _. omega arith),
                            ))
                      (λ _.
                        Holds-give Fine (null, ts)
                          (token_kind e', tt, k, (omega arith, λ _. omega arith))))
                  (λ _. Holds-give_up Fine)
