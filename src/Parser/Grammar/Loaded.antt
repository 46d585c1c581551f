-- ===== src/Parser/Grammar/Loaded.antt =====
-- `grammar_load_file` of src/parser/parser.c as a whole.
use morphl.Prelude.{
  ℕ, zero, suc, ◌+◌, ◌≤◌, ◌<◌, ◌≡◌, ◌≢◌, refl, ◌⊎◌, inl, inr, true, false, Bool-cases, none, [],
  ◌∷◌, ◌++◌, length, Bytes, ◌==◌, ok, fault, of_ok, of_fault, arith, some,
}
use morphl.Util.Intern.{InternTable}
use morphl.Util.Intern.Ids.{Keeps}
use morphl.Util.Intern.Invariant.{WellFormed}
use morphl.Lexer.{span}
use morphl.Parser.Grammar.{Grammar}
use morphl.Parser.Grammar.Build.{is_empty}
use morphl.Parser.Grammar.Known.{span_le}
use morphl.Parser.Grammar.Text.{trim_left, trim_whitespace}
use morphl.Parser.Grammar.Load.{Stores, Loading, tail, not_newline, load_lines, grammar_load_file}
use morphl.Parser.Grammar.Loads.{
  RulesLoaded, CanStart, Result, Loads, Loads-done, Loads-refuse, Loads-if, Loads-bind,
}
use morphl.Parser.Grammar.LinesLoad.{LoadingFine, line_is_safe, load_line-Loads}

-- In every production line of the text, an arrow that is found is in that line.
pub data LinesSafe : Bytes → Type 0 where
  no_line : LinesSafe []
  safe_line :
      {text : Bytes}
      → line_is_safe
          (trim_whitespace (span not_newline text).0)
          (trim_left (span not_newline text).0 ++ (span not_newline text).1)
        ≡ true
      → LinesSafe (tail (span not_newline text).1)
      → LinesSafe text

tail_le : (text : Bytes) → length (tail text) ≤ length text
tail_le [] = omega arith
tail_le (c ∷ cs) = omega arith

behind_lt :
    (text : Bytes) → is_empty text ≡ false → length (tail (span not_newline text).1) < length text
unfolding span
behind_lt [] h = cc
behind_lt (c ∷ cs) h = elim (Bool-cases (not_newline c)) [
  | inl inside ↦ rw inside (omega (arith, tail_le (span not_newline cs).1, span_le not_newline cs))
  | inr newline ↦ rw newline (omega arith)
]

first_line :
    (text : Bytes)
    → is_empty text ≡ false
    → LinesSafe text
    → (line_is_safe
          (trim_whitespace (span not_newline text).0)
          (trim_left (span not_newline text).0 ++ (span not_newline text).1)
        ≡ true)
      × LinesSafe (tail (span not_newline text).1)
first_line text h no_line = cc
first_line text h (safe_line now later) = (now, later)

abbrev pub Fine : InternTable → Grammar → Type 0
Fine t g = RulesLoaded t g.rules × CanStart g

module _ {E : Type 0} where
  load_lines-Loads :
      (fuel : ℕ) (l : Loading) (text : Bytes) (s : Stores)
      → length text < fuel
      → LoadingFine s.names l
      → E ⊎ LinesSafe text
      → Loads E LoadingFine (load_lines fuel l text) s
  unfolding load_lines
  load_lines-Loads zero l text s f fine safe = elim f [ ]
  load_lines-Loads (suc fuel) l text s f fine safe =
      Loads-if s (is_empty text) (λ _. Loads-done s l fine)
        λ some_text.
          let (now, later) = split some_text safe in
          Loads-bind s
            (load_line-Loads s l (trim_whitespace (span not_newline text).0)
              (trim_left (span not_newline text).0 ++ (span not_newline text).1) fine now)
            λ l' s' keeps fine'.
              load_lines-Loads fuel l' (tail (span not_newline text).1) s'
                (omega (arith, behind_lt text some_text)) fine' later
    where
      split :
          is_empty text ≡ false
          → E ⊎ LinesSafe text
          → (E
              ⊎ (line_is_safe
                    (trim_whitespace (span not_newline text).0)
                    (trim_left (span not_newline text).0 ++ (span not_newline text).1)
                  ≡ true))
            × (E ⊎ LinesSafe (tail (span not_newline text).1))
      split h (inl e) = (inl e, inl e)
      split h (inr lines) = let (now, later) = first_line text h lines in (inr now, inr later)

  pub load_file-Loads :
      (contents : Bytes) (s : Stores)
      → E ⊎ LinesSafe contents
      → Loads E Fine (grammar_load_file contents) s
  unfolding grammar_load_file RulesLoaded
  load_file-Loads contents s safe =
      Loads-bind s
        (load_lines-Loads (length contents + 1)
          (record { grammar = record { rules = []; start_rule = 0 }; current_rule = none }) contents
          s (omega arith) (tt, inl (refl, refl)) safe)
        λ l s' keeps (hs, start).
          Loads-if s' (length l.grammar.rules == 0) (λ _. Loads-refuse s')
            λ some_rule. Loads-done s' l.grammar (
              hs,
              elim start [ inl (_, nothing) ↦ cc (rw nothing at some_rule) | inr found ↦ found ],
            )

-- A grammar that is loaded has a rule to start with, the names in it are those of the table, each rule
-- is the only one of its name, each production has a template and the flag that says whether it
-- starts with its own rule, binding powers fit in 64 bits, and a group is made once or by `?`, `*` or `+`. The
-- names stay well formed, and keep what they stand for.
pub grammar_load_file-Loaded :
    (contents : Bytes) (s : Stores) {g : Grammar} {s' : Stores}
    → WellFormed s.names
    → grammar_load_file contents s ≡ ok (some g, s')
    → WellFormed s'.names × Keeps s.names s'.names × RulesLoaded s'.names g.rules × CanStart g
grammar_load_file-Loaded contents s w loaded =
    let (w', keeps, fine) =
      of_ok {P = Result Fine s.names} ((load_file-Loads {E = Unit} contents s (inl tt)).loads w)
        loaded in
    (w', keeps, fine.0, fine.1)

-- If every production line of a text that has an arrow behind its start has one in the line, the loader
-- accepts the text or rejects it.
pub grammar_load_file-ne-fault :
    (contents : Bytes) (s : Stores)
    → WellFormed s.names
    → LinesSafe contents
    → grammar_load_file contents s ≢ fault
grammar_load_file-ne-fault contents s w safe crashes =
    of_fault {P = Result Fine s.names} ((load_file-Loads {E = ⊥} contents s (inr safe)).loads w)
      crashes
