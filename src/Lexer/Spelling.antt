-- ===== src/Lexer/Spelling.antt =====
-- What the tokens of src/lexer/lexer.c are: their lexemes, kinds and positions.
use morphl.Prelude.{
  ℕ, zero, suc, ◌+◌, ◌<◌, ◌≡◌, refl, sym, ap, ◌∙◌, subst, ◌⊎◌, inl, inr, true, false, ◌||◌, List,
  [], ◌∷◌, ◌++◌, append_assoc, some, length, length-append, Bytes, ok, failed, arith,
}
use morphl.Lexer.{
  Token, Kinds, is_newline, is_space, Place, Round, skipped, lexed, unterminated, lex_one, scan,
}
use morphl.Lexer.Position.{place_after, has_newline}
use morphl.Lexer.Rounds.{lexeme_kind, Reads, lex_one-Reads, has_quote, string_body-none}

-- The text from this position on consists of the lexemes of the tokens, none of them empty, with
-- white space between them, and the end token stands behind it. A token has the kind that its lexeme
-- has by its look, and if the lexeme stays within its line, the position where the lexeme starts.
pub data Spelled (k : Kinds) : ℕ → ℕ → Bytes → List Token → Type 0 where
  spelled_end :
      {row col : ℕ} {t : Token}
      → t.kind ≡ k.eof
      → t.row ≡ row
      → t.col ≡ col
      → Spelled k row col [] (t ∷ [])
  spelled_skip :
      {row col c : ℕ} {bs : Bytes} {ts : List Token}
      → (is_newline c || is_space c) ≡ true
      → Spelled k (place_after (c ∷ []) row col).0 (place_after (c ∷ []) row col).1 bs ts
      → Spelled k row col (c ∷ bs) ts
  spelled_token :
      {row col : ℕ} {s bs : Bytes} {t : Token} {ts : List Token}
      → t.lexeme ≡ some s
      → t.kind ≡ lexeme_kind k s
      → 0 < length s
      → (has_newline s ≡ false → (t.row ≡ row) × (t.col ≡ col))
      → Spelled k (place_after s row col).0 (place_after s row col).1 bs ts
      → Spelled k row col (s ++ bs) (t ∷ ts)

-- A string literal that is not closed: an opening quote with no quote behind it.
pub record Unclosed (bs : Bytes) : Type 0 where
  pub before : Bytes
  pub after : Bytes
  pub splits : before ++ (34 ∷ after) ≡ bs
  pub unquoted : has_quote after ≡ false

Unclosed-behind : (s bs : Bytes) → Unclosed bs → Unclosed (s ++ bs)
Unclosed-behind s bs u = record {
  before = s ++ u.before;
  after = u.after;
  splits = append_assoc s u.before (34 ∷ u.after) ∙ ap (λ x. s ++ x) u.splits;
  unquoted = u.unquoted;
}

abbrev Scanned : ℕ → Kinds → Bytes → ℕ → ℕ → Type 0
Scanned fuel k bs row col =
    ((ts : List Token) × (scan fuel k bs row col ≡ ok ts) × Spelled k row col bs ts)
    ⊎ ((scan fuel k bs row col ≡ failed) × Unclosed bs)

scan_round :
    (fuel : ℕ) (k : Kinds) (c : ℕ) (cs : Bytes) (row col : ℕ) (r : Round)
    → lex_one k c cs row col ≡ r
    → Reads k c cs row col r
    → ((p : Place) → length p.rest < suc (length cs) → Scanned fuel k p.rest p.row p.col)
    → Scanned (suc fuel) k (c ∷ cs) row col
unfolding scan
scan_round fuel k c cs row col (skipped p) e (white, rest_is, at) later =
    elim (later p (omega (arith, ap length rest_is))) [
      | inl (ts, runs, spelled) ↦ inl (
        ts,
        rw (e, scan) runs,
        spelled_skip white (
            subst (λ x. Spelled k x.0 x.1 cs ts) (sym at)
              (subst (λ x. Spelled k p.row p.col x ts) rest_is spelled)),
      )
      | inr (fails, u) ↦
          inr (rw (e, scan) fails, Unclosed-behind (c ∷ []) cs (subst Unclosed rest_is u))
    ]
scan_round fuel k c cs row col (lexed t p) e r later =
    let shorter : length p.rest < suc (length cs) =
      omega (arith, r.nonempty, ap length r.splits, length-append {0} r.s p.rest) in
    elim (later p shorter) [
      | inl (ts, runs, spelled) ↦ inl (
        t ∷ ts,
        rw (e, scan) (rw runs refl),
        subst (λ x. Spelled k row col x (t ∷ ts)) r.splits
            (spelled_token r.lexeme_is r.kind_is r.nonempty r.position
              (subst (λ x. Spelled k x.0 x.1 p.rest ts) (sym r.moves) spelled)),
      )
      | inr (fails, u) ↦
          inr (rw (e, scan) (rw fails refl), subst Unclosed r.splits (Unclosed-behind r.s p.rest u))
    ]
scan_round fuel k c cs row col unterminated e (quote, body) later = inr (
  rw (e, scan) refl,
  record {
    before = [];
    after = cs;
    splits = ap (λ x. x ∷ cs) (sym quote);
    unquoted = string_body-none cs row (col + 1) body;
  },
)

pub scan-Spelled :
    (fuel : ℕ) (k : Kinds) (bs : Bytes) (row col : ℕ)
    → length bs < fuel
    → ((ts : List Token) × (scan fuel k bs row col ≡ ok ts) × Spelled k row col bs ts)
      ⊎ ((scan fuel k bs row col ≡ failed) × Unclosed bs)
unfolding scan
scan-Spelled zero k bs row col h = elim h [ ]
scan-Spelled (suc fuel) k [] row col h = inl (_, refl, spelled_end refl refl refl)
scan-Spelled (suc fuel) k (c ∷ cs) row col h =
    scan_round fuel k c cs row col (lex_one k c cs row col) refl (lex_one-Reads k c cs row col)
      (λ p shorter. scan-Spelled fuel k p.rest p.row p.col (omega arith))
