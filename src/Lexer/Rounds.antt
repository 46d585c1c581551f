-- ===== src/Lexer/Rounds.antt =====
-- What one round of the loop in src/lexer/lexer.c reads: a piece of the source at its position.
use morphl.Prelude.{
  ℕ, ◌+◌, ◌<◌, ◌≡◌, refl, sym, ap, ◌∙◌, subst, inl, inr, Bool, true, false, not, ◌&&◌, ◌||◌, [],
  ◌∷◌, ◌++◌, append_assoc, none, some, length, length-append, Bytes, ◌==◌, ==_iff, if◌then◌else◌,
  Bool-cases, Option-cases, some-injective, arith,
}
use morphl.Lexer.{
  Token, Kinds, is_digit, starts_word, continues_word, is_newline, is_space, span, Place, sub_size,
  Round, skipped, lexed, unterminated, make_token, line_token, has_fraction, behind_dot, lex_number,
  string_body, lex_string, is_dollar_word, lex_one,
}
use morphl.Lexer.Position.{
  place_after, has_newline, place_after-line, place_after-append, has_newline-append, span-splits,
  span-within, word_stays, digit_stays, sub_size-add,
}

abbrev pub has_dot : Bytes → Bool
has_dot [] = false
has_dot (c ∷ cs) = c == 46 || has_dot cs

abbrev pub is_alone : Bytes → Bool
is_alone [] = true
is_alone (c ∷ cs) = false

-- The kind that a lexeme has by its look: its first character, whether a number has a dot, and
-- whether anything stands behind a dollar.
abbrev pub lexeme_kind : Kinds → Bytes → ℕ
lexeme_kind k [] = 0
lexeme_kind k (c ∷ cs) =
    if starts_word c
    then k.ident
    else if is_digit c
    then (if has_dot cs then k.number_float else k.number)
    else if c == 34
    then k.string
    else if c == 36 && not (is_alone cs)
    then k.ident
    else k.symbol

-- What a round makes of the text `c ∷ cs` at this position.
module _ (k : Kinds) (c : ℕ) (cs : Bytes) (row col : ℕ) where
  pub record IsToken (t : Token) (p : Place) : Type 0 where
    pub s : Bytes
    pub lexeme_is : t.lexeme ≡ some s
    pub kind_is : t.kind ≡ lexeme_kind k s
    pub nonempty : 0 < length s
    pub splits : s ++ p.rest ≡ c ∷ cs
    pub moves : place_after s row col ≡ (p.row, p.col)
    pub position : has_newline s ≡ false → (t.row ≡ row) × (t.col ≡ col)

  abbrev pub Reads : Round → Type 0
  Reads (skipped p) =
      ((is_newline c || is_space c) ≡ true)
      × (p.rest ≡ cs)
      × (place_after (c ∷ []) row col ≡ (p.row, p.col))
  Reads (lexed t p) = IsToken t p
  Reads unterminated = (c ≡ 34) × (string_body cs row (col + 1) ≡ none)

  line_token-Reads :
      (kind : ℕ) (s rest : Bytes)
      → kind ≡ lexeme_kind k s
      → 0 < length s
      → has_newline s ≡ false
      → s ++ rest ≡ c ∷ cs
      → Reads (line_token kind s rest row col)
  line_token-Reads kind s rest is_kind h stays e = record {
    s = s;
    lexeme_is = refl;
    kind_is = is_kind;
    nonempty = h;
    splits = e;
    moves = place_after-line s row col stays;
    position = λ _. (refl, sub_size-add col (length s));
  }

fraction_splits :
    (rest : Bytes)
    → has_fraction rest ≡ true
    → (46 ∷ (span is_digit (behind_dot rest)).0) ++ (span is_digit (behind_dot rest)).1 ≡ rest
fraction_splits [] h = cc
fraction_splits (dot ∷ []) h = cc
fraction_splits (dot ∷ (d ∷ cs)) h =
    let is_dot : dot ≡ 46 = ground (arith, h) in
    rw is_dot (ap (◌∷◌ 46) (span-splits is_digit (d ∷ cs)))

span-nonempty : (p : ℕ → Bool) (c : ℕ) (cs : Bytes) → p c ≡ true → 0 < length (span p (c ∷ cs)).0
unfolding span
span-nonempty p c cs h = rw h (omega arith)

number_parts-Reads :
    (k : Kinds) (c : ℕ) (cs : Bytes) (row col : ℕ) (whole rest : Bytes)
    → ((fraction : Bytes) → k.number_float ≡ lexeme_kind k (whole ++ (46 ∷ fraction)))
    → k.number ≡ lexeme_kind k whole
    → 0 < length whole
    → has_newline whole ≡ false
    → whole ++ rest ≡ c ∷ cs
    → Reads k c cs row col (
        if has_fraction rest
        then line_token k.number_float
            (whole ++ (46 ∷ (span is_digit (behind_dot rest)).0))
            (span is_digit (behind_dot rest)).1
            row
            col
        else line_token k.number whole rest row col)
number_parts-Reads k c cs row col whole rest is_float is_number some_digit stays splits =
    elim (Bool-cases (has_fraction rest)) [
      | inl fraction ↦ rw fraction (
          line_token-Reads k c cs row col k.number_float _ (span is_digit (behind_dot rest)).1
            (is_float (span is_digit (behind_dot rest)).0)
            (omega (
              arith,
              some_digit,
              length-append {0} whole (46 ∷ (span is_digit (behind_dot rest)).0),
            ))
            (has_newline-append whole _ stays (span-within is_digit (behind_dot rest) digit_stays))
            (append_assoc whole (46 ∷ (span is_digit (behind_dot rest)).0)
                (span is_digit (behind_dot rest)).1
              ∙ ap (λ x. whole ++ x) (fraction_splits rest fraction)
              ∙ splits))
      | inr integer ↦
          rw integer
            (line_token-Reads k c cs row col k.number whole rest is_number some_digit stays splits)
    ]

has_dot-span : (cs : Bytes) → has_dot (span is_digit cs).0 ≡ false
unfolding span
has_dot-span [] = refl
has_dot-span (c ∷ cs) = elim (Bool-cases (is_digit c)) [
  | inl digit ↦
      let no_dot : (c == 46) ≡ false = ground (arith, digit) in rw (digit, no_dot) (has_dot-span cs)
  | inr other ↦ rw other refl
]

has_dot-middle : (xs ys : Bytes) → has_dot (xs ++ (46 ∷ ys)) ≡ true
has_dot-middle [] ys = refl
has_dot-middle (x ∷ xs) ys = elim (Bool-cases (x == 46)) [
  | inl e ↦ rw e refl
  | inr e ↦ rw e (has_dot-middle xs ys)
]

digit-kind :
    (k : Kinds) (c : ℕ) (cs : Bytes)
    → is_digit c ≡ true
    → lexeme_kind k (c ∷ cs) ≡ (if has_dot cs then k.number_float else k.number)
digit-kind k c cs h =
    let no_word : starts_word c ≡ false = ground (arith, h) in rw (no_word, h) refl

number-lexeme_kind :
    (k : Kinds) (c : ℕ) (cs : Bytes)
    → is_digit c ≡ true
    → ((fraction : Bytes)
        → k.number_float ≡ lexeme_kind k ((span is_digit (c ∷ cs)).0 ++ (46 ∷ fraction)))
      × (k.number ≡ lexeme_kind k (span is_digit (c ∷ cs)).0)
unfolding span
number-lexeme_kind k c cs h = rw h (
  λ fraction. sym (
      digit-kind k c ((span is_digit cs).0 ++ (46 ∷ fraction)) h
      ∙ rw (has_dot-middle (span is_digit cs).0 fraction) refl),
  sym (digit-kind k c (span is_digit cs).0 h ∙ rw (has_dot-span cs) refl),
)

number-Reads :
    (k : Kinds) (c : ℕ) (cs : Bytes) (row col : ℕ)
    → is_digit c ≡ true
    → Reads k c cs row col (lex_number k (c ∷ cs) row col)
unfolding lex_number
number-Reads k c cs row col h =
    number_parts-Reads k c cs row col (span is_digit (c ∷ cs)).0 (span is_digit (c ∷ cs)).1
      (number-lexeme_kind k c cs h).0 (number-lexeme_kind k c cs h).1
      (span-nonempty is_digit c cs h) (span-within is_digit (c ∷ cs) digit_stays)
      (span-splits is_digit (c ∷ cs))

string_body-splits :
    (cs : Bytes) (row col : ℕ) {body : Bytes} {p : Place}
    → string_body cs row col ≡ some (body, p)
    → (body ++ (34 ∷ p.rest) ≡ cs) × (place_after body row col ≡ (p.row, p.col))
unfolding string_body
string_body-splits [] row col h = cc
string_body-splits (c ∷ cs) row col {body} {p} h = elim (Bool-cases (c == 34)) [
  | inl quote ↦
      let found : ([], record { rest = cs; row = row; col = col }) ≡ (body, p) =
        some-injective (rw (quote, string_body) at h) in
      subst
        (λ (x : Bytes × Place).
          (x.0 ++ (34 ∷ x.1.rest) ≡ c ∷ cs) × (place_after x.0 row col ≡ (x.1.row, x.1.col)))
        found (ap (λ x. x ∷ cs) (sym ((==_iff c 34).0 quote)), refl)
  | inr other ↦
      elim (Option-cases (
        string_body cs (if is_newline c then row + 1 else row)
          (if is_newline c then 1 else col + 1))) [
            | inl open_end ↦ cc (rw (other, open_end, string_body) at h)
            | inr ((b, place), e) ↦
                let (splits, moves) = string_body-splits cs _ _ e in
                let found : (c ∷ b, place) ≡ (body, p) =
                  some-injective (rw (other, e, string_body) at h) in
                subst
                  (λ (x : Bytes × Place).
                    (x.0 ++ (34 ∷ x.1.rest) ≡ c ∷ cs)
                    × (place_after x.0 row col ≡ (x.1.row, x.1.col)))
                  found (ap (◌∷◌ c) splits, moves)
          ]
]

-- No quote follows.
abbrev pub has_quote : Bytes → Bool
has_quote [] = false
has_quote (c ∷ cs) = c == 34 || has_quote cs

pub string_body-none :
    (cs : Bytes) (row col : ℕ) → string_body cs row col ≡ none → has_quote cs ≡ false
unfolding string_body
string_body-none [] row col h = refl
string_body-none (c ∷ cs) row col h = elim (Bool-cases (c == 34)) [
  | inl quote ↦ cc (rw (quote, string_body) at h)
  | inr other ↦
      elim (Option-cases (
        string_body cs (if is_newline c then row + 1 else row)
          (if is_newline c then 1 else col + 1))) [
            | inl open_end ↦ rw other (string_body-none cs _ _ open_end)
            | inr ((b, place), e) ↦ cc (rw (other, e, string_body) at h)
          ]
]

string_token-IsToken :
    (k : Kinds) (cs : Bytes) (row col : ℕ) (body : Bytes) (p : Place)
    → string_body cs row (col + 1) ≡ some (body, p)
    → Reads k 34 cs row col
        (make_token k.string (34 ∷ (body ++ (34 ∷ []))) (record p { col = p.col + 1 }))
string_token-IsToken k cs row col body p e =
    let (splits, moves) = string_body-splits cs row (col + 1) e in
    let whole : place_after (34 ∷ (body ++ (34 ∷ []))) row col ≡ (p.row, p.col + 1) =
      place_after-append body (34 ∷ []) row (col + 1) ∙ rw moves refl in
    record {
      s = 34 ∷ (body ++ (34 ∷ []));
      lexeme_is = refl;
      kind_is = refl;
      nonempty = omega arith;
      splits = ap (◌∷◌ 34) (append_assoc body (34 ∷ []) p.rest ∙ splits);
      moves = whole;
      position = λ stays.
          let line = sym whole ∙ place_after-line (34 ∷ (body ++ (34 ∷ []))) row col stays in
          (
            ap (λ x. x.0) line,
            ap (λ x. sub_size x.1 (length (34 ∷ (body ++ (34 ∷ []))))) line ∙ sub_size-add col _,
          );
    }

string-Reads :
    (k : Kinds) (c : ℕ) (cs : Bytes) (row col : ℕ)
    → c ≡ 34
    → Reads k c cs row col (lex_string k cs row col)
unfolding lex_string
string-Reads k c cs row col quote = elim (Option-cases (string_body cs row (col + 1))) [
  | inl open_end ↦ rw (open_end, lex_string) (quote, open_end)
  | inr ((body, p), e) ↦ rw (e, lex_string, quote) (string_token-IsToken k cs row col body p e)
]

word-lexeme_kind :
    (k : Kinds) (c : ℕ) (cs : Bytes)
    → starts_word c ≡ true
    → k.ident ≡ lexeme_kind k (span continues_word (c ∷ cs)).0
unfolding span
word-lexeme_kind k c cs h =
    let goes_on : continues_word c ≡ true = ground (arith, h) in rw goes_on (rw h refl)

dollar-lexeme_kind :
    (k : Kinds) (c : ℕ) (cs : Bytes)
    → is_dollar_word c cs ≡ true
    → k.ident ≡ lexeme_kind k (c ∷ (span continues_word cs).0)
unfolding span
dollar-lexeme_kind k c [] h = cc
dollar-lexeme_kind k c (next ∷ cs) h =
    let is_dollar : c ≡ 36 = ground (arith, h) in
    let goes_on : continues_word next ≡ true = ground (arith, h) in rw (is_dollar, goes_on) refl

word-Reads :
    (k : Kinds) (c : ℕ) (cs : Bytes) (row col : ℕ)
    → starts_word c ≡ true
    → Reads k c cs row col (
        line_token k.ident
          (span continues_word (c ∷ cs)).0
          (span continues_word (c ∷ cs)).1
          row
          col)
word-Reads k c cs row col h =
    let goes_on : continues_word c ≡ true = ground (arith, h) in
    line_token-Reads k c cs row col k.ident _ _ (word-lexeme_kind k c cs h)
      (span-nonempty continues_word c cs goes_on) (span-within continues_word (c ∷ cs) word_stays)
      (span-splits continues_word (c ∷ cs))

dollar-Reads :
    (k : Kinds) (c : ℕ) (cs : Bytes) (row col : ℕ)
    → is_dollar_word c cs ≡ true
    → is_newline c ≡ false
    → Reads k c cs row col
        (line_token k.ident (c ∷ (span continues_word cs).0) (span continues_word cs).1 row col)
dollar-Reads k c cs row col dollar h =
    line_token-Reads k c cs row col k.ident _ _ (dollar-lexeme_kind k c cs dollar) (omega arith)
      (rw h (span-within continues_word cs word_stays)) (ap (◌∷◌ c) (span-splits continues_word cs))

symbol-alone : (k : Kinds) (c : ℕ) → k.symbol ≡ (if c == 36 && false then k.ident else k.symbol)
symbol-alone k c = elim (Bool-cases (c == 36)) [ inl e ↦ rw e refl | inr e ↦ rw e refl ]

-- A test, by its two branches.
if-Reads :
    (k : Kinds) (c : ℕ) (cs : Bytes) (row col : ℕ) (b : Bool) (x y : Round)
    → (b ≡ true → Reads k c cs row col x)
    → (b ≡ false → Reads k c cs row col y)
    → Reads k c cs row col (if b then x else y)
if-Reads k c cs row col true x y f g = f refl
if-Reads k c cs row col false x y f g = g refl

pub lex_one-Reads :
    (k : Kinds) (c : ℕ) (cs : Bytes) (row col : ℕ) → Reads k c cs row col (lex_one k c cs row col)
unfolding lex_one
lex_one-Reads k c cs row col =
    if-Reads k c cs row col (is_newline c) _ _ (λ newline. (rw newline refl, refl, rw newline refl))
      (λ line.
        if-Reads k c cs row col (is_space c) _ _
          (λ space. (rw (line, space) refl, refl, rw line refl))
          (λ _.
            if-Reads k c cs row col (is_dollar_word c cs) _ _
              (λ dollar. dollar-Reads k c cs row col dollar line)
              (λ _.
                if-Reads k c cs row col (starts_word c) _ _ (word-Reads k c cs row col) (λ no_word.
                  if-Reads k c cs row col (is_digit c) _ _ (number-Reads k c cs row col)
                    (λ no_digit.
                      if-Reads k c cs row col (c == 34) _ _
                        (λ quote. string-Reads k c cs row col ((==_iff c 34).0 quote))
                        (λ no_quote.
                          line_token-Reads k c cs row col k.symbol (c ∷ []) cs
                            (rw (no_word, no_digit, no_quote) (symbol-alone k c)) (omega arith)
                            (rw line refl) refl))))))
