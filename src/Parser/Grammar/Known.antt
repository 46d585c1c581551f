-- ===== src/Parser/Grammar/Known.antt =====
-- Trees that the templates of src/parser/parser.c build: building them ends, and they have no texts
-- but those of the captured nodes.
use morphl.Prelude.{
  ℕ, zero, suc, ◌≤◌, ◌<◌, ◌≡◌, refl, ◌⊎◌, inl, inr, Bool, true, false, not, ◌&&◌, ◌||◌, Bool-cases,
  none, some, List, [], ◌∷◌, length, Bytes, bytes_eq, codes, ◌==◌, if◌then◌else◌, ok, arith,
}
use morphl.Util.{Str}
use morphl.Util.Intern.{InternTable, interns_intern}
use morphl.Util.Intern.Invariant.{WellFormed}
use morphl.Util.Intern.Ids.{Keeps, next}
use morphl.Ast.{AstNode, Children, null, node, nil, cons, snoc, group}
use morphl.Lexer.{span}
use morphl.Parser.Operators.{Registered}
use morphl.Parser.Grammar.Attempts.{
  Holds, Holds-give, Holds-give_up, Holds-failed, Holds-tried, Holds-if, Holds-bind,
}
use morphl.Parser.Grammar.Build.{
  Capture, Matching, intern, find_capture, capture_append, is_null, ast_group_from_list,
  one_or_group, append, flattened, flattened_all, isspace, not_space, next_token, is_empty,
  has_no_child, capture_symbol, captured_nodes, taken_nodes, is_among, is_nil, frees_operand,
  frees_twice, some_nodes, template_argument, template_arguments, value_of, captured_operator,
  template_operator, build_template_ast, template_is_leaf, build_candidates, build_prod_result,
}

pub span_le : (p : ℕ → Bool) (bs : Bytes) → length (span p bs).1 ≤ length bs
unfolding span
span_le p [] = omega arith
span_le p (c ∷ cs) = elim (Bool-cases (p c)) [
  | inl in_run ↦ rw in_run (omega (arith, span_le p cs))
  | inr out ↦ rw out (omega arith)
]

next_token_le : (text : Bytes) → length (next_token text).1 ≤ length text
next_token_le text = omega (arith, span_le isspace (span not_space text).1, span_le not_space text)

span_in : (p : ℕ → Bool) (c : ℕ) (cs : Bytes) → p c ≡ true → (span p (c ∷ cs)).1 ≡ (span p cs).1
unfolding span
span_in p c cs h = rw h refl

span_out : (p : ℕ → Bool) (c : ℕ) (cs : Bytes) → p c ≡ false → (span p (c ∷ cs)).1 ≡ c ∷ cs
unfolding span
span_out p c cs h = rw h refl

-- A text that is not empty gets shorter by a word and the white space behind it.
next_token_lt : (text : Bytes) → is_empty text ≡ false → length (next_token text).1 < length text
next_token_lt [] h = cc
next_token_lt (c ∷ cs) h = elim (Bool-cases (isspace c)) [
  | inl space ↦
      let word : not_space c ≡ false = rw space refl in
      rw (span_out not_space c cs word)
        (rw (span_in isspace c cs space) (omega (arith, span_le isspace cs)))
  | inr other ↦
      let word : not_space c ≡ true = rw other refl in
      rw (span_in not_space c cs word)
        (omega (arith, span_le isspace (span not_space cs).1, span_le not_space cs))
]

intern_none : (t : InternTable) → interns_intern t none ≡ ok (0, t)
unfolding interns_intern
intern_none t = refl

-- A production whose templates may free nodes that are still in use: it has several of them, or it
-- captures the expression that it extends.
abbrev pub may_free : List Bytes → ℕ → Bool
may_free (template ∷ (next ∷ templates)) operand = true
may_free templates operand = not (operand == 0)

-- Every text of the tree is absent or satisfies `Q`.
module _ (Q : Str → Type 0) where
  unfoldable mutual
    pub Known : AstNode → Type 0
    Known null = Unit
    Known (node kind op value children) = ((value ≡ none) ⊎ Q value) × AllKnown children

    pub AllKnown : Children → Type 0
    AllKnown nil = Unit
    AllKnown (cons n ns) = Known n × AllKnown ns

  unfoldable pub CapturesKnown : List Capture → Type 0
  unfolding AllKnown
  CapturesKnown [] = Unit
  CapturesKnown (c ∷ cs) = AllKnown c.nodes × CapturesKnown cs

  pub find_capture-AllKnown :
      (cs : List Capture) (name : ℕ) → CapturesKnown cs → AllKnown (find_capture cs name)
  unfolding find_capture CapturesKnown
  find_capture-AllKnown [] name k = tt
  find_capture-AllKnown (c ∷ cs) name k = elim (Bool-cases (c.name == name)) [
    | inl here ↦ rw here k.0
    | inr there ↦ rw there (find_capture-AllKnown cs name k.1)
  ]

  pub snoc-AllKnown : (ns : Children) (n : AstNode) → AllKnown ns → Known n → AllKnown (snoc ns n)
  unfolding AllKnown
  snoc-AllKnown nil n k h = (h, tt)
  snoc-AllKnown (cons m ms) n k h = (k.0, snoc-AllKnown ms n k.1 h)

  pub capture_append-CapturesKnown :
      (cs : List Capture) (name : ℕ) (n : AstNode)
      → CapturesKnown cs
      → Known n
      → CapturesKnown (capture_append cs name n)
  unfolding capture_append CapturesKnown
  capture_append-CapturesKnown [] name n k h = ((h, tt), tt)
  capture_append-CapturesKnown (c ∷ cs) name n k h = elim (Bool-cases (c.name == name)) [
    | inl here ↦ rw here (snoc-AllKnown c.nodes n k.0 h, k.1)
    | inr there ↦ rw there (k.0, capture_append-CapturesKnown cs name n k.1 h)
  ]

  append-AllKnown : (ms ns : Children) → AllKnown ms → AllKnown ns → AllKnown (append ms ns)
  unfolding AllKnown
  append-AllKnown nil ns k h = h
  append-AllKnown (cons m ms) ns k h = (k.0, append-AllKnown ms ns k.1 h)

  pub group-Known : (ns : Children) → AllKnown ns → Known (ast_group_from_list ns)
  unfolding Known
  group-Known ns k = (inl refl, k)

  one_or_group-Known : (ns : Children) → AllKnown ns → Known (one_or_group ns)
  unfolding Known AllKnown
  one_or_group-Known nil k = (inl refl, tt)
  one_or_group-Known (cons n nil) k = k.0
  one_or_group-Known (cons n (cons m ms)) k = (inl refl, k)

  mutual
    unfolding Known AllKnown flattened flattened_all

    flattened-AllKnown : (n : AstNode) → Known n → AllKnown (flattened n)
    flattened-AllKnown null k = tt
    flattened-AllKnown (node group op value children) k = flattened_all-AllKnown children k.1
    flattened-AllKnown n k = (k, tt)

    flattened_all-AllKnown : (ns : Children) → AllKnown ns → AllKnown (flattened_all ns)
    flattened_all-AllKnown nil k = tt
    flattened_all-AllKnown (cons n ns) k =
        append-AllKnown (flattened n) (flattened_all ns) (flattened-AllKnown n k.0)
          (flattened_all-AllKnown ns k.1)

  -- The state: well-formed names, among them those that `I` asks for, and captures that are known.
  module _ (F : Type 0) (I : InternTable → Type 0) (fine : (t : InternTable) → I t → WellFormed t)
      (keep : (t t' : InternTable) → I t → WellFormed t' → Keeps t t' → I t') where
    abbrev pub State : Matching → Type 0
    State m = I m.names × CapturesKnown m.captures

    pub intern-Holds : (s : Str) → Holds F State (λ _. Unit) (intern s)
    intern-Holds none m (i, k) = inr (some 0, m, rw (intern_none m.names) refl, (i, k), tt)
    intern-Holds (some s) m (i, k) =
        let n = next m.names s (fine m.names i) in
        inr (
          some n.id,
          record m { names = n.table },
          rw n.runs refl,
          (keep m.names n.table i n.fine n.keeps, k),
          tt,
        )

    module _ (registry : List Registered) where
      capture_symbol-Holds : (name : Bytes) → Holds F State (λ _. Unit) (capture_symbol name)
      unfolding capture_symbol
      capture_symbol-Holds name =
          Holds-if State (is_empty name) (λ _. Holds-give_up State)
            λ _. Holds-bind State (intern (some name)) (intern-Holds (some name)) λ sym _.
              Holds-if State (sym == 0) (λ _. Holds-give_up State) (λ _. Holds-give State sym tt)

      captured_nodes-Holds : (sym : ℕ) → Holds F State AllKnown (captured_nodes sym)
      unfolding captured_nodes
      captured_nodes-Holds sym m (i, k) = inr (
        some (find_capture m.captures sym),
        m,
        refl,
        (i, k),
        find_capture-AllKnown m.captures sym k,
      )

      taken_nodes-Holds : (sym : ℕ) → Holds F State AllKnown (taken_nodes sym)
      unfolding taken_nodes
      taken_nodes-Holds sym m (i, k) =
          elim (Bool-cases (has_no_child (find_capture m.captures sym))) [
            | inl e ↦ rw e (inr (_, m, refl, (i, k), find_capture-AllKnown m.captures sym k))
            | inr e ↦ rw e (
                inr (
                  _,
                  record m { taken = sym ∷ m.taken },
                  refl,
                  (i, k),
                  find_capture-AllKnown m.captures sym k,
                ))
          ]

      some_nodes-Holds :
          (nodes : Children) → AllKnown nodes → Holds F State AllKnown (some_nodes nodes)
      some_nodes-Holds nodes k =
          Holds-if State (has_no_child nodes) (λ _. Holds-give_up State)
            (λ _. Holds-give State nodes k)

      -- The nodes are known, and the rest of the template is no longer than it was.
      abbrev Argument : Bytes → Children × Bytes → Type 0
      Argument rem (nodes, rem') = AllKnown nodes × (length rem' ≤ length rem)

      maybe-AllKnown :
          (nodes : Children)
          → AllKnown nodes
          → AllKnown (if has_no_child nodes then nil else cons (one_or_group nodes) nil)
      unfolding AllKnown
      maybe-AllKnown nil k = tt
      maybe-AllKnown (cons n ns) k = (one_or_group-Known (cons n ns) k, tt)

      one-AllKnown : (nodes : Children) → AllKnown nodes → AllKnown (cons (one_or_group nodes) nil)
      unfolding AllKnown
      one-AllKnown nodes k = (one_or_group-Known nodes k, tt)

      template_argument-Holds :
          (word rem : Bytes) → Holds F State (Argument rem) (template_argument word rem)
      unfolding template_argument AllKnown
      template_argument-Holds word rem =
          Holds-if State (bytes_eq word (codes "$$spread") || bytes_eq word (codes "$spread"))
            (λ _.
              Holds-bind State (capture_symbol (next_token rem).0)
                (capture_symbol-Holds (next_token rem).0)
                λ sym _. Holds-bind State (taken_nodes sym) (taken_nodes-Holds sym) λ nodes k.
                  Holds-bind State (some_nodes nodes) (some_nodes-Holds nodes k) λ found k'.
                    Holds-give State _ (flattened_all-AllKnown found k', next_token_le rem))
            λ _.
              Holds-if State (bytes_eq word (codes "$$maybe"))
                (λ _.
                  Holds-bind State (capture_symbol (next_token rem).0)
                    (capture_symbol-Holds (next_token rem).0)
                    λ sym _.
                      Holds-bind State (taken_nodes sym) (taken_nodes-Holds sym)
                        λ nodes k. Holds-give State _ (maybe-AllKnown nodes k, next_token_le rem))
                λ _.
                  Holds-if State (bytes_eq word (codes "$$delim"))
                    (λ _. Holds-give State _ (tt, omega arith))
                    λ _. Holds-bind State (capture_symbol word) (capture_symbol-Holds word) λ sym _.
                      Holds-bind State (taken_nodes sym) (taken_nodes-Holds sym) λ nodes k.
                        Holds-bind State (some_nodes nodes) (some_nodes-Holds nodes k)
                          λ found k'. Holds-give State _ (one-AllKnown found k', omega arith)

      template_arguments-Holds :
          (fuel : ℕ) (rem : Bytes)
          → length rem < fuel
          → Holds F State AllKnown (template_arguments fuel rem)
      unfolding template_arguments AllKnown
      template_arguments-Holds zero rem h = elim h [ ]
      template_arguments-Holds (suc fuel) rem h =
          Holds-if State (is_empty rem) (λ _. Holds-give State nil tt)
            λ more.
              Holds-bind State (template_argument (next_token rem).0 (next_token rem).1)
                (template_argument-Holds (next_token rem).0 (next_token rem).1)
                λ (nodes, rem') (k, shorter).
                  Holds-bind State (template_arguments fuel rem')
                    (template_arguments-Holds fuel rem' (omega (arith, next_token_lt rem more)))
                    λ others k'. Holds-give State _ (append-AllKnown nodes others k k')

      captured_operator-Holds :
          (nodes : Children) → Holds F State (λ _. Unit) (captured_operator nodes)
      captured_operator-Holds nil = Holds-give_up State
      captured_operator-Holds (cons n nil) = intern-Holds (value_of n)
      captured_operator-Holds (cons n (cons m ms)) = Holds-give_up State

      template_operator-Holds :
          (template : Bytes) → Holds F State (λ _. Unit) (template_operator template)
      unfolding template_operator
      template_operator-Holds template =
          Holds-if State (is_empty (next_token template).0) (λ _. Holds-give_up State)
            λ _.
              Holds-bind State (intern (some (next_token template).0))
                (intern-Holds (some (next_token template).0))
                λ sym _.
                  Holds-if State (sym == 0) (λ _. Holds-give_up State)
                    λ _.
                      Holds-if State (bytes_eq (next_token template).0 (codes "$$op"))
                        (λ _.
                          Holds-bind State (capture_symbol (next_token (next_token template).1).0)
                            (capture_symbol-Holds (next_token (next_token template).1).0)
                            λ name _.
                              Holds-bind State (captured_nodes name) (captured_nodes-Holds name)
                                λ nodes k.
                                  Holds-bind State (captured_operator nodes)
                                    (captured_operator-Holds nodes) λ op _. Holds-give State _ tt)
                        (λ _. Holds-give State _ tt)

      build_template_ast-Holds :
          (template : Bytes) → Holds F State Known (build_template_ast registry template)
      unfolding build_template_ast Known
      build_template_ast-Holds template m (i, k) =
          Holds-bind State (template_operator template) (template_operator-Holds template)
            (λ (op, rem) _.
              Holds-bind State (template_arguments (suc (length rem)) rem)
                (template_arguments-Holds (suc (length rem)) rem (omega arith))
                λ children k. Holds-give State _ (inl refl, k))
            (record m { taken = [] }) (i, k)

      frees_operand-Holds :
          (operand : ℕ) → ((operand == 0) ≡ false → F) → Holds F State Known (frees_operand operand)
      frees_operand-Holds operand doom m i = elim (Bool-cases (operand == 0)) [
        | inl e ↦ rw e (Holds-give_up State m i)
        | inr e ↦ elim (Bool-cases (is_among operand m.taken)) [
          | inl e' ↦ rw (e, e') (Holds-failed State (doom e) m i)
          | inr e' ↦ rw (e, e') (Holds-give_up State m i)
        ]
      ]

      frees_twice-Holds : {A : Type 0} (P : A → Type 0) → F → Holds F State P frees_twice
      frees_twice-Holds P doom m i = elim (Bool-cases (is_nil m.taken)) [
        | inl e ↦ rw e (Holds-give_up State m i)
        | inr e ↦ rw e (Holds-failed State doom m i)
      ]

      build_candidates-Holds :
          (templates : List Bytes)
          → F
          → Holds F State AllKnown (build_candidates registry templates)
      unfolding build_candidates AllKnown
      build_candidates-Holds [] doom = Holds-give State nil tt
      build_candidates-Holds (template ∷ templates) doom =
          Holds-tried State (build_template_ast registry template)
            (build_template_ast-Holds template) (frees_twice-Holds AllKnown doom)
            λ n k.
              Holds-bind State (build_candidates registry templates)
                (build_candidates-Holds templates doom) λ ns ks. Holds-give State _ (k, ks)

      pub build_prod_result-Holds :
          (templates : List Bytes) (operand : ℕ) (first : AstNode)
          → (may_free templates operand ≡ true → F)
          → Known first
          → Holds F State Known (build_prod_result registry templates operand first)
      unfolding build_prod_result Known
      build_prod_result-Holds [] operand first doom k = Holds-give_up State
      build_prod_result-Holds (template ∷ []) operand first doom k =
          Holds-if State (template_is_leaf (template ∷ []) && not (is_null first))
            (λ _. Holds-give State first k)
            (λ _.
              Holds-tried State (build_template_ast registry template)
                (build_template_ast-Holds template)
                (frees_operand-Holds operand (λ e. doom (rw e refl))) λ n k'. Holds-give State n k')
      build_prod_result-Holds (template ∷ (next ∷ templates)) operand first doom k =
          Holds-bind State (build_candidates registry (template ∷ (next ∷ templates)))
            (build_candidates-Holds (template ∷ (next ∷ templates)) (doom refl))
            λ candidates ks. Holds-give State _ (inl refl, ks)
