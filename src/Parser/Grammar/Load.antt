-- ===== src/Parser/Grammar/Load.antt =====
-- src/parser/parser.c: `grammar_load_file`, on the text of the file. `fault` stands for a production
-- whose `=>` is found behind the end of its line. Arrays grow without failing, and the warning about a
-- rule's name is left out. A load that fails gives no grammar, and keeps what it has interned.
use morphl.Prelude.{
  ℕ, zero, suc, ◌+◌, ◌-◌, ◌^◌, Bool, true, false, not, ◌&&◌, Option, none, some, List, [], ◌∷◌,
  ◌++◌, take, drop, length, Bytes, c_string, codes, leb, ◌==◌, if◌then◌else◌, Outcome, ok, failed,
  fault, ◌*◌,
}
use morphl.Util.Arena.{Arena, arena_push}
use morphl.Util.Intern.{InternTable, interns_intern}
use morphl.Lexer.{span, is_newline}
use morphl.Parser.Grammar.{
  GrammarAtom, Atoms, Production, GrammarRule, Grammar, atom_literal, atom_token_kind, atom_rule,
  atom_repeat, no_atoms, more_atoms,
}
use morphl.Parser.Grammar.Attempts.{Try, give, give_up, out_of_fuel, ◌>>=◌}
use morphl.Parser.Grammar.Build.{is_empty}
use morphl.Parser.Grammar.Tree.{capture_of}
use morphl.Parser.Grammar.Text.{
  trim_left, trim_right, trim_whitespace, has_prefix, strstr, parse_literal, group_body, ident_like,
  strtoul, last_char, segments,
}

-- What a load changes beside the grammar.
pub record Stores : Type 0 where
  pub names : InternTable
  pub arena : Arena

abbrev pub Load : Type 0 → Type 0
Load A = Try Stores A

-- What must be there.
abbrev pub given : {A : Type 0} → Option A → Load A
given none = give_up
given (some a) = give a

abbrev interned : Stores → Outcome (ℕ × InternTable) → Outcome (Option ℕ × Stores)
interned s (ok (sym, t)) =
    if sym == 0 then give_up (record s { names = t }) else give sym (record s { names = t })
interned s failed = failed
interned s fault = fault

-- A symbol, which must not be 0.
abbrev pub symbol_of : Bytes → Load ℕ
symbol_of name s = interned s (interns_intern s.names (some name))

abbrev pub kept_in : Stores → Bytes → Option (ℕ × Arena) → Outcome (Option Bytes × Stores)
kept_in s text none = give_up s
kept_in s text (some (at, arena)) = give text (record s { arena = arena })

-- A copy in the arena, with a NUL behind it.
abbrev pub stored : Bytes → Load Bytes
stored text s = kept_in s text (arena_push s.arena (length text + 1))

abbrev pub rounds_max : ℕ
rounds_max = 2 ^ 64 - 1

-- The quantifier of a group, as the least and the largest number of its rounds, and what follows it.
abbrev pub quantifier : Bytes → ℕ × ℕ × Bytes
quantifier [] = (1, 1, [])
quantifier (c ∷ cs) =
    if c == 43
    then (1, rounds_max, cs)
    else if c == 42
    then (0, rounds_max, cs)
    else if c == 63
    then (0, 1, cs)
    else (1, 1, c ∷ cs)

-- The binding power behind a rule's name: a number between brackets, or none.
unfoldable pub binding_power : Bytes → Option ℕ
binding_power [] = some 0
binding_power (c ∷ cs) = elim (last_char cs) [
  | none ↦ none
  | some (digits, end) ↦ if end == 93 then strtoul digits else none
]

abbrev pub rule_atom : Bytes → ℕ → Load GrammarAtom
rule_atom text capture =
    let (name, brackets) = span (λ c. not (c == 91)) text in
    if is_empty name
    then give_up
    else given (binding_power brackets) >>= λ bp.
        symbol_of name >>= λ sym. give (atom_rule sym bp capture)

abbrev pub literal_atom : Bytes → ℕ → Load GrammarAtom
literal_atom raw capture = stored raw >>= λ text. give (atom_literal text capture)

-- The atom for a word of a pattern, quoted or not.
unfoldable pub atom_for : Bytes → ℕ → Load GrammarAtom
atom_for [] capture = literal_atom [] capture
atom_for (c ∷ cs) capture =
    if c == 36 && not (is_empty cs)
    then rule_atom cs capture
    else if c == 37
    then (symbol_of cs >>= λ sym. give (atom_token_kind sym capture))
    else literal_atom (c ∷ cs) capture

abbrev pub with_capture : ℕ → GrammarAtom → GrammarAtom
with_capture name (atom_literal s capture) = atom_literal s name
with_capture name (atom_token_kind kind capture) = atom_token_kind kind name
with_capture name (atom_rule symbol bp capture) = atom_rule symbol bp name
with_capture name (atom_repeat body least most capture) = atom_repeat body least most name

unfoldable pub snoc_atom : Atoms → GrammarAtom → Atoms
snoc_atom no_atoms a = more_atoms a no_atoms
snoc_atom (more_atoms b more) a = more_atoms b (snoc_atom more a)

-- A capture label goes to the atom before it, if that has none, and else to the atom that follows:
-- the atoms, and the label that waits.
unfoldable pub attach : Atoms → ℕ → ℕ → Atoms × ℕ
attach no_atoms name pending = (no_atoms, name)
attach (more_atoms a no_atoms) name pending =
    if capture_of a == 0
    then (more_atoms (with_capture name a) no_atoms, pending)
    else (more_atoms a no_atoms, name)
attach (more_atoms a (more_atoms b more)) name pending =
    let (more', pending') = attach (more_atoms b more) name pending in
    (more_atoms a more', pending')

-- A group opens here: what stands behind `$(`.
abbrev pub group_start : Bytes → Option Bytes
group_start (c ∷ (d ∷ cs)) = if c == 36 && d == 40 then some cs else none
group_start _ = none

-- The loop of `parse_pattern`, with the atoms so far and the label that waits. A group's pattern is
-- read by the same loop.
unfoldable mutual
  pub parse_atoms : ℕ → Bytes → Atoms → ℕ → Load Atoms
  parse_atoms zero line atoms pending = out_of_fuel
  parse_atoms (suc fuel) line atoms pending =
      let text = trim_whitespace line in
      let one : Load Atoms = elim (group_start text) [
        | some sub ↦ parse_group fuel sub atoms pending
        | none ↦ parse_word fuel text atoms pending
      ] in
      if is_empty text then give atoms else one

  pub parse_group : ℕ → Bytes → Atoms → ℕ → Load Atoms
  parse_group zero sub atoms pending = out_of_fuel
  parse_group (suc fuel) sub atoms pending = given (group_body 1 sub) >>= λ (inner, behind).
      parse_atoms fuel inner no_atoms 0 >>= λ body.
      let (least, most, rest) = quantifier (trim_whitespace behind) in
      parse_atoms fuel rest (snoc_atom atoms (atom_repeat body least most pending)) 0

  pub parse_word : ℕ → Bytes → Atoms → ℕ → Load Atoms
  parse_word zero text atoms pending = out_of_fuel
  parse_word (suc fuel) text atoms pending =
      given (parse_literal text) >>= λ (was_quoted, raw, rest).
      let labelled = symbol_of raw >>= λ name.
      parse_atoms fuel rest (attach atoms name pending).0 (attach atoms name pending).1 in
      let atom = atom_for raw pending >>= λ a. parse_atoms fuel rest (snoc_atom atoms a) 0 in
      if ident_like raw && not was_quoted then labelled else atom

-- The first atom refers to the rule itself.
abbrev pub leads_with : ℕ → Atoms → Bool
leads_with rule_name (more_atoms (atom_rule symbol bp capture) more) = symbol == rule_name
leads_with rule_name _ = false

-- Two calls for each character are enough for the loops.
unfoldable pub parse_pattern : Bytes → ℕ → List Bytes → Load Production
parse_pattern line rule_name templates =
    parse_atoms (2 * length line + 1) line no_atoms 0 >>= λ atoms.
    give (record {
      atoms = atoms;
      templates = templates;
      starts_with_expr = leads_with rule_name atoms;
    })

-- Each template is trimmed and stored.
unfoldable pub store_templates : List Bytes → Load (List Bytes)
store_templates [] = give []
store_templates (t ∷ ts) =
    stored (trim_whitespace t) >>= λ text. store_templates ts >>= λ texts. give (text ∷ texts)

unfoldable pub split_templates : Bytes → Load (List Bytes)
split_templates text = if is_empty text then give_up else store_templates (segments text)

-- The rule gets an empty list of productions, and a new one stands behind the others.
unfoldable pub reset_rule : List GrammarRule → ℕ → List GrammarRule
reset_rule [] name = record { name = name; productions = [] } ∷ []
reset_rule (r ∷ rs) name =
    if r.name == name then record { name = name; productions = [] } ∷ rs else r ∷ reset_rule rs name

-- `find_or_add_rule` and `reset_rule`: the first rule that is added is where parsing starts.
abbrev pub begin_rule : Grammar → ℕ → Grammar
begin_rule g name = record {
  rules = reset_rule g.rules name;
  start_rule = if g.start_rule == 0 then name else g.start_rule;
}

unfoldable pub add_to_rule : List GrammarRule → ℕ → Production → List GrammarRule
add_to_rule [] name prod = []
add_to_rule (r ∷ rs) name prod =
    if r.name == name
    then record { name = r.name; productions = r.productions ++ (prod ∷ []) } ∷ rs
    else r ∷ add_to_rule rs name prod

-- The name on a line `rule name:`.
unfoldable pub rule_name_of : Bytes → Option Bytes
rule_name_of line = elim (last_char (trim_whitespace (drop 4 line))) [
  | none ↦ none
  | some (name, end) ↦ if end == 58 then some (trim_right name) else none
]

-- The grammar so far, and the rule whose lines are read.
pub record Loading : Type 0 where
  pub grammar : Grammar
  pub current_rule : Option ℕ

abbrev pub rule_line : Loading → Bytes → Load Loading
rule_line l line = given (rule_name_of line) >>= λ name. symbol_of name >>= λ sym.
    give (record { grammar = begin_rule l.grammar sym; current_rule = some sym })

-- A production with its arrow at `at`, for the rule `name`.
abbrev pub production_at : Loading → ℕ → Bytes → ℕ → Load Loading
production_at l name line at =
    split_templates (trim_whitespace (drop (at + 2) line)) >>= λ templates.
    parse_pattern (trim_whitespace (take at line)) name templates >>= λ prod.
    give (record l { grammar = record l.grammar { rules = add_to_rule l.grammar.rules name prod } })

-- A read past the end of the text.
abbrev pub past_the_end : Load Loading
past_the_end s = fault

-- The arrow is searched up to the end of the text.
abbrev pub production_line : Loading → Bytes → Bytes → Load Loading
production_line l line text = given l.current_rule >>= λ name.
    given (strstr (codes "=>") (c_string text)) >>= λ at.
    if leb (at + 2) (length line) then production_at l name line at else past_the_end

abbrev pub is_comment : Bytes → Bool
is_comment [] = true
is_comment (c ∷ cs) = c == 35

-- A line without the white space at its ends, the text from its start on being `text`.
unfoldable pub load_line : Loading → Bytes → Bytes → Load Loading
load_line l line text =
    if is_comment line
    then give l
    else if has_prefix (codes "end") line
    then give (record l { current_rule = none })
    else if leb 5 (length line) && has_prefix (codes "rule") line
    then rule_line l line
    else production_line l line text

abbrev pub tail : Bytes → Bytes
tail [] = []
tail (c ∷ cs) = cs

abbrev pub not_newline : ℕ → Bool
not_newline c = not (is_newline c)

-- The loop over the lines of a text.
unfoldable pub load_lines : ℕ → Loading → Bytes → Load Loading
load_lines zero l text = out_of_fuel
load_lines (suc fuel) l text =
    let (line, behind) = span not_newline text in
    let more = load_line l (trim_whitespace line) (trim_left line ++ behind) >>= λ l'.
    load_lines fuel l' (tail behind) in
    if is_empty text then give l else more

unfoldable pub grammar_load_file : Bytes → Load Grammar
grammar_load_file contents =
    load_lines (length contents + 1)
      (record { grammar = record { rules = []; start_rule = 0 }; current_rule = none }) contents
    >>= λ l. if length l.grammar.rules == 0 then give_up else give l.grammar
