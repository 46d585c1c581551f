-- ===== src/Parser/Grammar/LinesLoad.antt =====
-- The lines of a grammar as src/parser/parser.c loads them.
use morphl.Prelude.{
  faults, ℕ, ◌+◌, ◌<◌, ◌≡◌, refl, ◌⊎◌, inl, inr, Bool, true, ◌&&◌, ◌||◌, Bool-cases, Option, none,
  some, List, [], ◌∷◌, take, drop, length, Bytes, c_string, codes, leb, ◌==◌, arith,
}
use morphl.Util.Intern.{InternTable}
use morphl.Util.Intern.Ids.{Keeps}
use morphl.Parser.Grammar.{Grammar}
use morphl.Parser.Grammar.Build.{is_empty}
use morphl.Parser.Grammar.Text.{trim_whitespace, has_prefix, strstr, segments, segment}
use morphl.Parser.Grammar.Load.{
  Stores, store_templates, split_templates, begin_rule, add_to_rule, rule_name_of, Loading,
  rule_line, production_at, production_line, is_comment, load_line,
}
use morphl.Parser.Grammar.Loads.{
  RulesLoaded, CanStart, RulesLoaded-keep, Loads, Loads-done, Loads-refuse, Loads-if, Loads-bind,
  Loads-weaken, given-Loads, symbol_of-Loads, stored-Loads,
}
use morphl.Parser.Grammar.PatternLoads.{parse_pattern-Loads}
use morphl.Parser.Grammar.RulesLoad.{
  find_rule-reset_rule, reset_rule-Found, add_to_rule-Found, reset_rule-RulesLoaded,
  add_to_rule-RulesLoaded,
}

-- The grammar so far: its rules, and where parsing starts once there is a rule.
abbrev pub LoadingFine : InternTable → Loading → Type 0
LoadingFine t l =
    RulesLoaded t l.grammar.rules
    × (((l.grammar.start_rule ≡ 0) × (l.grammar.rules ≡ [])) ⊎ CanStart l.grammar)

LoadingFine-keep :
    (t t' : InternTable) (l : Loading) → Keeps t t' → LoadingFine t l → LoadingFine t' l
LoadingFine-keep t t' l keeps (hs, start) = (RulesLoaded-keep t t' keeps l.grammar.rules hs, start)

begin_rule-CanStart :
    (g : Grammar) (name : ℕ)
    → ((g.start_rule ≡ 0) × (g.rules ≡ [])) ⊎ CanStart g
    → CanStart (begin_rule g name)
begin_rule-CanStart g name start = elim (Bool-cases (g.start_rule == 0)) [
  | inl e ↦ rw e (find_rule-reset_rule g.rules name)
  | inr e ↦ rw e (elim start [
    | inl (zero_start, _) ↦ absurd (ground (arith, e, zero_start))
    | inr found ↦ reset_rule-Found g.rules name g.start_rule found
  ])
]

segments-pos : (text : Bytes) → 0 < length (segments text)
unfolding segments
segments-pos [] = omega arith
segments-pos (c ∷ cs) = elim (Bool-cases (c == 124)) [
  | inl e ↦ rw e (omega arith)
  | inr e ↦ rw e (longer (segments cs))
]
  where
    longer : (ss : List Bytes) → 0 < length (segment c ss)
    longer [] = omega arith
    longer (s ∷ ss) = omega arith

-- A line that is no comment, `end` or `rule`, and has no arrow although one stands in the text behind
-- it.
abbrev pub arrow_in_line : Option ℕ → Bytes → Bool
arrow_in_line none line = true
arrow_in_line (some at) line = leb (at + 2) (length line)

abbrev pub line_is_safe : Bytes → Bytes → Bool
line_is_safe line text =
    is_comment line
    || has_prefix (codes "end") line
    || (leb 5 (length line) && has_prefix (codes "rule") line)
    || arrow_in_line (strstr (codes "=>") (c_string text)) line

module _ {E : Type 0} where
  store_templates-Loads :
      (s : Stores) (ts : List Bytes)
      → Loads E (λ t texts. length texts ≡ length ts) (store_templates ts) s
  unfolding store_templates
  store_templates-Loads s [] = Loads-done s [] refl
  store_templates-Loads s (x ∷ ts) =
      Loads-bind s (stored-Loads s (trim_whitespace x)) λ text s' keeps _.
        Loads-bind s' (store_templates-Loads s' ts)
          λ texts s'' keeps' same. Loads-done s'' _ (omega (arith, same))

  split_templates-Loads :
      (s : Stores) (text : Bytes) → Loads E (λ t texts. 0 < length texts) (split_templates text) s
  unfolding split_templates
  split_templates-Loads s text =
      Loads-if s (is_empty text) (λ _. Loads-refuse s)
        λ _.
          Loads-weaken s (λ t texts same. omega (arith, same, segments-pos text))
            (store_templates-Loads s (segments text))

  rule_line-Loads :
      (s : Stores) (l : Loading) (line : Bytes)
      → LoadingFine s.names l
      → Loads E LoadingFine (rule_line l line) s
  rule_line-Loads s l line (hs, start) =
      Loads-bind s (given-Loads s (rule_name_of line)) λ name s' keeps _.
        Loads-bind s' (symbol_of-Loads s' name) λ sym s'' keeps' named. Loads-done s'' _ (
          reset_rule-RulesLoaded s''.names l.grammar.rules sym
              (RulesLoaded-keep s'.names s''.names keeps' l.grammar.rules
                (RulesLoaded-keep s.names s'.names keeps l.grammar.rules hs))
              named,
          inr (begin_rule-CanStart l.grammar sym start),
        )

  production_at-Loads :
      (s : Stores) (l : Loading) (name : ℕ) (line : Bytes) (at : ℕ)
      → LoadingFine s.names l
      → Loads E LoadingFine (production_at l name line at) s
  unfolding add_to_rule
  production_at-Loads s l name line at fine =
      Loads-bind s (split_templates-Loads s (trim_whitespace (drop (at + 2) line)))
        λ templates s' keeps some_template.
          Loads-bind s'
            (parse_pattern-Loads s' (trim_whitespace (take at line)) name templates some_template)
            λ prod s'' keeps' loaded.
              let (hs, start) =
                LoadingFine-keep s'.names s''.names l keeps'
                  (LoadingFine-keep s.names s'.names l keeps fine) in
              Loads-done s'' _ (
                add_to_rule-RulesLoaded s''.names l.grammar.rules name prod hs loaded,
                elim start [
                  | inl (zero_start, nothing) ↦ inl (zero_start, rw nothing refl)
                  | inr found ↦
                      inr (add_to_rule-Found l.grammar.rules name prod l.grammar.start_rule found)
                ],
              )

  production_line-Loads :
      (s : Stores) (l : Loading) (line text : Bytes)
      → LoadingFine s.names l
      → E ⊎ (arrow_in_line (strstr (codes "=>") (c_string text)) line ≡ true)
      → Loads E LoadingFine (production_line l line text) s
  production_line-Loads s l line text fine safe =
      Loads-bind s (given-Loads s l.current_rule) λ name s' keeps _.
        Loads-bind s' (given-Loads s' (strstr (codes "=>") (c_string text))) λ at s'' keeps' e.
          let fine' =
            LoadingFine-keep s'.names s''.names l keeps'
              (LoadingFine-keep s.names s'.names l keeps fine) in
          Loads-if s'' (leb (at + 2) (length line))
            (λ _. production_at-Loads s'' l name line at fine')
            λ outside. elim safe [
              | inl crashes ↦ record { loads = λ w. faults crashes }
              | inr inside ↦ cc (rw (e, outside) at inside)
            ]

  pub load_line-Loads :
      (s : Stores) (l : Loading) (line text : Bytes)
      → LoadingFine s.names l
      → E ⊎ (line_is_safe line text ≡ true)
      → Loads E LoadingFine (load_line l line text) s
  unfolding load_line
  load_line-Loads s l line text fine safe =
      Loads-if s (is_comment line) (λ _. Loads-done s l fine)
        λ no_comment.
          Loads-if s (has_prefix (codes "end") line) (λ _. Loads-done s _ fine)
            λ no_end.
              Loads-if s (leb 5 (length line) && has_prefix (codes "rule") line)
                (λ _. rule_line-Loads s l line fine)
                (λ no_rule. production_line-Loads s l line text fine (elim safe [
                  | inl crashes ↦ inl crashes
                  | inr h ↦ inr (rw (no_comment, no_end, no_rule) at h)
                ]))
