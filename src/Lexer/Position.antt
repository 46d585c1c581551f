-- ===== src/Lexer/Position.antt =====
-- Positions in a source text, and the runs and words of src/lexer/lexer.c within a line.
use morphl.Prelude.{
  ℕ, ◌+◌, ◌≡◌, refl, ap, ◌∙◌, inl, inr, Bool, true, false, ◌||◌, [], ◌∷◌, ◌++◌, length, Bytes,
  if◌then◌else◌, Bool-cases, arith,
}
use morphl.Lexer.{is_digit, continues_word, is_newline, span, sub_size}

-- The position behind a text that starts at this row and column.
abbrev pub place_after : Bytes → ℕ → ℕ → ℕ × ℕ
place_after [] row col = (row, col)
place_after (c ∷ cs) row col =
    place_after cs (if is_newline c then row + 1 else row) (if is_newline c then 1 else col + 1)

abbrev pub has_newline : Bytes → Bool
has_newline [] = false
has_newline (c ∷ cs) = is_newline c || has_newline cs

pub place_after-line :
    (s : Bytes) (row col : ℕ)
    → has_newline s ≡ false
    → place_after s row col ≡ (row, col + length s)
place_after-line [] row col h = ap (λ x. (row, x)) (omega arith)
place_after-line (c ∷ cs) row col h = elim (Bool-cases (is_newline c)) [
  | inl newline ↦ cc (rw newline at h)
  | inr other ↦
      let rest = place_after-line cs row (col + 1) (rw other at h) in
      rw other (rest ∙ ap (λ x. (row, x)) (omega arith))
]

pub place_after-append :
    (s r : Bytes) (row col : ℕ)
    → place_after (s ++ r) row col
      ≡ place_after r (place_after s row col).0 (place_after s row col).1
place_after-append [] r row col = refl
place_after-append (c ∷ cs) r row col = place_after-append cs r _ _

pub has_newline-append :
    (s r : Bytes) → has_newline s ≡ false → has_newline r ≡ false → has_newline (s ++ r) ≡ false
has_newline-append [] r h h' = h'
has_newline-append (c ∷ cs) r h h' = elim (Bool-cases (is_newline c)) [
  | inl newline ↦ cc (rw newline at h)
  | inr other ↦ rw other (has_newline-append cs r (rw other at h) h')
]

pub span-splits : (p : ℕ → Bool) (bs : Bytes) → (span p bs).0 ++ (span p bs).1 ≡ bs
unfolding span
span-splits p [] = refl
span-splits p (c ∷ cs) = elim (Bool-cases (p c)) [
  | inl in_run ↦ rw in_run (ap (◌∷◌ c) (span-splits p cs))
  | inr out ↦ rw out refl
]

pub span-within :
    (p : ℕ → Bool) (bs : Bytes)
    → ((c : ℕ) → p c ≡ true → is_newline c ≡ false)
    → has_newline (span p bs).0 ≡ false
unfolding span
span-within p [] stays = refl
span-within p (c ∷ cs) stays = elim (Bool-cases (p c)) [
  | inl in_run ↦ rw in_run (rw (stays c in_run) (span-within p cs stays))
  | inr out ↦ rw out refl
]

pub word_stays : (c : ℕ) → continues_word c ≡ true → is_newline c ≡ false
word_stays c h = ground (arith, h)

pub digit_stays : (c : ℕ) → is_digit c ≡ true → is_newline c ≡ false
digit_stays c h = ground (arith, h)

pub sub_size-add : (a b : ℕ) → sub_size (a + b) b ≡ a
sub_size-add a b = ground arith
