-- ===== src/Parser/Builtin/Spelling.antt =====
-- What the trees of src/parser/builtin_parser.c spell.
use morphl.Prelude.{ℕ, ◌≡◌, refl, ap, none, some, List, [], ◌∷◌, ◌++◌, Bytes}
use morphl.Util.{Str}
use morphl.Util.Intern.{InternTable, interns_lookup}
use morphl.Util.Intern.Ids.{Keeps}
use morphl.Ast.{AstKind, AstNode, Children, node, nil, cons, literal, ident}
use morphl.Lexer.{Token}

-- The tree spells these lexemes: a literal or an identifier its own, and an operator the name of
-- its symbol and then what its children spell.
mutual
  pub data Spells (t : InternTable) : AstNode → List Str → Type 0 where
    spells_literal : (op : ℕ) (s : Str) → Spells t (node literal op s nil) (s ∷ [])
    spells_ident : (s : Str) → Spells t (node ident 0 s nil) (s ∷ [])
    spells_operator :
        (kind : AstKind) (op : ℕ) (name : Bytes) (cs : Children) (rest : List Str)
        → interns_lookup t op ≡ some name
        → SpellAll t cs rest
        → Spells t (node kind op none cs) (some name ∷ rest)

  pub data SpellAll (t : InternTable) : Children → List Str → Type 0 where
    spell_none : SpellAll t nil []
    spell_more :
        (c : AstNode) (cs : Children) (first rest : List Str)
        → Spells t c first
        → SpellAll t cs rest
        → SpellAll t (cons c cs) (first ++ rest)

mutual
  pub Spells-Keeps :
      {t t' : InternTable} {n : AstNode} {ls : List Str}
      → Keeps t t'
      → Spells t n ls
      → Spells t' n ls
  Spells-Keeps keeps (spells_literal op s) = spells_literal op s
  Spells-Keeps keeps (spells_ident s) = spells_ident s
  Spells-Keeps keeps (spells_operator kind op name cs rest named all) =
      spells_operator kind op name cs rest (keeps op name named) (SpellAll-Keeps keeps all)

  pub SpellAll-Keeps :
      {t t' : InternTable} {cs : Children} {ls : List Str}
      → Keeps t t'
      → SpellAll t cs ls
      → SpellAll t' cs ls
  SpellAll-Keeps keeps spell_none = spell_none
  SpellAll-Keeps keeps (spell_more c cs first rest here all) =
      spell_more c cs first rest (Spells-Keeps keeps here) (SpellAll-Keeps keeps all)

abbrev pub lexemes : List Token → List Str
lexemes [] = []
lexemes (tok ∷ toks) = tok.lexeme ∷ lexemes toks

pub lexemes-append : (xs ys : List Token) → lexemes (xs ++ ys) ≡ lexemes xs ++ lexemes ys
lexemes-append [] ys = refl
lexemes-append (x ∷ xs) ys = ap (◌∷◌ x.lexeme) (lexemes-append xs ys)
