-- ===== src/Lexer/Tokenize.antt =====
-- The token kinds that src/lexer/lexer.c interns, and the whole of `lexer_tokenize`.
use morphl.Prelude.{
  ◌+◌, ◌≡◌, refl, ◌⊎◌, inl, inr, ◌||◌, List, some, length, Bytes, codes, ◌==◌, Bool-cases, ok,
  failed, arith,
}
use morphl.Util.Intern.{InternTable, interns_lookup}
use morphl.Util.Intern.Invariant.{WellFormed}
use morphl.Util.Intern.Ids.{next}
use morphl.Lexer.{Token, Kinds, intern_kinds, lexer_tokenize}
use morphl.Lexer.Spelling.{Spelled, Unclosed, scan-Spelled}

-- The ids stand for the names of the kinds.
pub record Named (k : Kinds) (t : InternTable) : Type 0 where
  pub ident : interns_lookup t k.ident ≡ some (codes "IDENT")
  pub number : interns_lookup t k.number ≡ some (codes "NUMBER")
  pub number_float : interns_lookup t k.number_float ≡ some (codes "FLOAT")
  pub string : interns_lookup t k.string ≡ some (codes "STRING")
  pub symbol : interns_lookup t k.symbol ≡ some (codes "SYMBOL")
  pub eof : interns_lookup t k.eof ≡ some (codes "EOF")

-- The kinds are interned under their names, in a well-formed table, or one of them got no id.
pub intern_kinds-Named :
    (t : InternTable)
    → WellFormed t
    → ((k : Kinds) × (t' : InternTable) × (intern_kinds t ≡ ok (k, t'))
        × WellFormed t'
        × Named k t')
      ⊎ (intern_kinds t ≡ failed)
unfolding intern_kinds
intern_kinds-Named t w =
    let a = next t (codes "IDENT") w in
    let b = next a.table (codes "NUMBER") a.fine in
    let c = next b.table (codes "FLOAT") b.fine in
    let d = next c.table (codes "STRING") c.fine in
    let e = next d.table (codes "SYMBOL") d.fine in
    let f = next e.table (codes "EOF") e.fine in
    elim (Bool-cases (a.id == 0 || b.id == 0 || c.id == 0 || d.id == 0 || e.id == 0 || f.id == 0)) [
      | inl full ↦ inr (rw (a.runs, b.runs, c.runs, d.runs, e.runs, f.runs) (rw full refl))
      | inr all ↦ inl (
        record {
          ident = a.id;
          number = b.id;
          number_float = c.id;
          string = d.id;
          symbol = e.id;
          eof = f.id;
        },
        f.table,
        rw (a.runs, b.runs, c.runs, d.runs, e.runs, f.runs) (rw all refl),
        f.fine,
        record {
          ident = f.keeps _ _ (
              e.keeps _ _
                (d.keeps _ _ (c.keeps _ _ (b.keeps _ _ (a.named (ground (arith, all)))))));
          number =
              f.keeps _ _ (e.keeps _ _ (d.keeps _ _ (c.keeps _ _ (b.named (ground (arith, all))))));
          number_float = f.keeps _ _ (e.keeps _ _ (d.keeps _ _ (c.named (ground (arith, all)))));
          string = f.keeps _ _ (e.keeps _ _ (d.named (ground (arith, all))));
          symbol = f.keeps _ _ (e.named (ground (arith, all)));
          eof = f.named (ground (arith, all));
        },
      )
    ]

-- Tokenizing with a well-formed intern table ends. It gives tokens whose lexemes are the source less
-- white space, in order, with an end token last, each of the kind that its lexeme has by its look, where
-- the kinds are the ids of `IDENT`, `NUMBER`, `FLOAT`, `STRING`, `SYMBOL` and `EOF`; a token whose
-- lexeme has no line break has the row and column where it starts, counted from 1. Or it fails because
-- a kind got no id or because a string literal is not closed.
pub lexer_tokenize-Spelled :
    (source : Bytes) (t : InternTable)
    → WellFormed t
    → ((k : Kinds) × (ts : List Token) × (t' : InternTable) × (lexer_tokenize source t
          ≡ ok (ts, t'))
        × Spelled k 1 1 source ts
        × WellFormed t'
        × Named k t')
      ⊎ ((lexer_tokenize source t ≡ failed) × ((intern_kinds t ≡ failed) ⊎ Unclosed source))
unfolding lexer_tokenize
lexer_tokenize-Spelled source t w = elim (intern_kinds-Named t w) [
  | inr no_kinds ↦ inr (rw no_kinds refl, inl no_kinds)
  | inl (k, t', runs, fine, named) ↦
      elim (scan-Spelled (length source + 1) k source 1 1 (omega arith)) [
        | inl (ts, scans, spelled) ↦ inl (k, ts, t', rw (runs, scans) refl, spelled, fine, named)
        | inr (fails, u) ↦ inr (rw (runs, fails) refl, inr u)
      ]
]
