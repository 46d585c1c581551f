-- ===== src/Parser/Grammar/Idle.antt =====
-- Repeated groups of src/parser/parser.c whose rounds read nothing.
use morphl.Prelude.{
  ℕ, zero, suc, ◌+◌, ◌≤◌, ◌≡◌, refl, ◌⊎◌, inl, inr, ◌-◌, ◌^◌, Bool-cases, false, List, ltb, lt→ltb,
  ok, failed, fault, arith,
}
use morphl.Lexer.{Token}
use morphl.Parser.Grammar.{
  Atoms, Grammar, atom_repeat, no_atoms, more_atoms, match_atom, match_rounds, match_atoms,
}

-- Rounds that read nothing go on until there have been as many as there may be.
match_rounds_idle :
    (g : Grammar) (body : Atoms) (least most : ℕ) (toks : List Token) (depth : ℕ)
    → ((fuel : ℕ)
        → (match_atoms g fuel body toks (depth + 1) ≡ ok toks)
          ⊎ (match_atoms g fuel body toks (depth + 1) ≡ fault))
    → (fuel count : ℕ) → count + fuel ≤ most
    → match_rounds g fuel body least most count toks depth ≡ fault
unfolding match_rounds
match_rounds_idle g body least most toks depth idle zero count h = refl
match_rounds_idle g body least most toks depth idle (suc fuel) count h =
    rw (lt→ltb count most (omega arith)) (elim (idle fuel) [
      | inl still ↦
          rw still
            (match_rounds_idle g body least most toks depth idle fuel (suc count) (omega arith))
      | inr out ↦ rw out refl
    ])

-- A group that may be left out and cannot be matched reads nothing.
optional_idle :
    (g : Grammar) (inner : Atoms) (most capture : ℕ) (toks : List Token) (depth : ℕ)
    → ((fuel : ℕ)
        → (match_atoms g fuel inner toks (depth + 1) ≡ failed)
          ⊎ (match_atoms g fuel inner toks (depth + 1) ≡ fault))
    → (fuel : ℕ)
    → (match_atoms g fuel (more_atoms (atom_repeat inner 0 most capture) no_atoms) toks depth
        ≡ ok toks)
      ⊎ (match_atoms g fuel (more_atoms (atom_repeat inner 0 most capture) no_atoms) toks depth
          ≡ fault)
unfolding match_atoms match_atom match_rounds
optional_idle g inner most capture toks depth absent zero = inr refl
optional_idle g inner most capture toks depth absent (suc zero) = inr refl
optional_idle g inner most capture toks depth absent (suc (suc zero)) = inr refl
optional_idle g inner most capture toks depth absent (suc (suc (suc fuel))) =
    elim (Bool-cases (ltb 0 most)) [
      | inr never ↦ rw never (inl refl)
      | inl possible ↦ elim (absent fuel) [
        | inl fails ↦ rw (possible, fails) (inl refl)
        | inr out ↦ rw (possible, out) (inr refl)
      ]
    ]

-- The rounds that are left are made, and then the loop ends where it began.
match_rounds_ends :
    (g : Grammar) (body : Atoms) (least most enough : ℕ) (toks : List Token) (depth : ℕ)
    → ((fuel : ℕ) → enough ≤ fuel → match_atoms g fuel body toks (depth + 1) ≡ ok toks)
    → least ≤ most
    → (left fuel count : ℕ) → count + left ≡ most
    → left + enough + 1 ≤ fuel
    → match_rounds g fuel body least most count toks depth ≡ ok toks
unfolding match_rounds
match_rounds_ends g body least most enough toks depth idle few left zero count e f =
    absurd (omega (arith, f))
match_rounds_ends g body least most enough toks depth idle few zero (suc fuel) count e f =
    let done : ltb count most ≡ false = ground (arith, e) in
    let reached : ltb count least ≡ false = ground (arith, e, few) in rw done (rw reached refl)
match_rounds_ends g body least most enough toks depth idle few (suc left) (suc fuel) count e f =
    rw (lt→ltb count most (omega (arith, e))) (
      rw (idle fuel (omega (arith, f))) (
        match_rounds_ends g body least most enough toks depth idle few left fuel (suc count)
          (omega (arith, e)) (omega (arith, f))))

optional_still :
    (g : Grammar) (inner : Atoms) (most capture enough : ℕ) (toks : List Token) (depth : ℕ)
    → ((fuel : ℕ) → enough ≤ fuel → match_atoms g fuel inner toks (depth + 1) ≡ failed)
    → (fuel : ℕ) → enough + 3 ≤ fuel
    → match_atoms g fuel (more_atoms (atom_repeat inner 0 most capture) no_atoms) toks depth
      ≡ ok toks
unfolding match_atoms match_atom match_rounds
optional_still g inner most capture enough toks depth absent zero f = absurd (omega (arith, f))
optional_still g inner most capture enough toks depth absent (suc zero) f =
    absurd (omega (arith, f))
optional_still g inner most capture enough toks depth absent (suc (suc zero)) f =
    absurd (omega (arith, f))
optional_still g inner most capture enough toks depth absent (suc (suc (suc fuel))) f =
    elim (Bool-cases (ltb 0 most)) [
      | inr never ↦ rw never refl
      | inl possible ↦ rw (possible, absent fuel (omega (arith, f))) refl
    ]

-- A group of an optional group is repeated without bound, that is up to 2^64 - 1 times, and the inner
-- group is not there: the parser refuses it whatever fuel it has from some amount on, and never
-- matches it. Then the loop over the rounds does not stop before it has made all of them, although
-- they read nothing: fuel for 2^64 - 1 calls is not enough, and fuel for these rounds and a last try
-- of the inner group is, after which no token has been read.
pub match_atom_idle :
    (g : Grammar) (inner : Atoms) (inner_most least inner_capture capture enough : ℕ)
    (toks : List Token) (depth : ℕ)
    → ((fuel : ℕ)
        → (match_atoms g fuel inner toks (depth + 1 + 1) ≡ failed)
          ⊎ (match_atoms g fuel inner toks (depth + 1 + 1) ≡ fault))
    → ((fuel : ℕ) → enough ≤ fuel → match_atoms g fuel inner toks (depth + 1 + 1) ≡ failed)
    → least ≤ 2 ^ 64 - 1
    → (little much : ℕ) → little ≤ 2 ^ 64 - 1
    → 2 ^ 64 + enough + 4 ≤ much
    → (match_atom g little
          (atom_repeat
            (more_atoms (atom_repeat inner 0 inner_most inner_capture) no_atoms)
            least
            (2 ^ 64 - 1)
            capture)
          toks
          depth
        ≡ fault)
      × (match_atom g much
            (atom_repeat
              (more_atoms (atom_repeat inner 0 inner_most inner_capture) no_atoms)
              least
              (2 ^ 64 - 1)
              capture)
            toks
            depth
          ≡ ok toks)
unfolding match_atom
match_atom_idle g inner inner_most least inner_capture capture enough toks depth absent refused few
      little much h h' =
    (too_little little h, plenty much h')
  where
    too_little :
        (fuel : ℕ)
        → fuel ≤ 2 ^ 64 - 1
        → match_atom g fuel
            (atom_repeat
              (more_atoms (atom_repeat inner 0 inner_most inner_capture) no_atoms)
              least
              (2 ^ 64 - 1)
              capture)
            toks
            depth
          ≡ fault
    too_little zero h = refl
    too_little (suc fuel) h =
        match_rounds_idle g (more_atoms (atom_repeat inner 0 inner_most inner_capture) no_atoms)
          least (2 ^ 64 - 1) toks depth
          (optional_idle g inner inner_most inner_capture toks (depth + 1) absent) fuel 0
          (omega arith)

    plenty :
        (fuel : ℕ)
        → 2 ^ 64 + enough + 4 ≤ fuel
        → match_atom g fuel
            (atom_repeat
              (more_atoms (atom_repeat inner 0 inner_most inner_capture) no_atoms)
              least
              (2 ^ 64 - 1)
              capture)
            toks
            depth
          ≡ ok toks
    plenty zero h = absurd (omega (arith, h))
    plenty (suc fuel) h =
        match_rounds_ends g (more_atoms (atom_repeat inner 0 inner_most inner_capture) no_atoms)
          least (2 ^ 64 - 1) (enough + 3) toks depth
          (optional_still g inner inner_most inner_capture enough toks (depth + 1) refused) few
          (2 ^ 64 - 1) fuel 0 (omega arith) (omega (arith, h))
