-- ===== src/Vm/Correct/Total.antt =====
-- The backend of src/backend/vm.c succeeds on every tree that is not too large and whose `$ret`s have
-- an operand.
use morphl.Prelude.{
  ℕ, ◌+◌, ◌%◌, ◌^◌, ◌<◌, ◌≤◌, ◌≡◌, refl, ap, subst, Bool, true, Option, length, Bytes, codes,
  bytes_eq, Outcome, ok, ◌>>=◌, arith,
}
use morphl.Util.{Str, text}
use morphl.Util.Intern.{InternTable}
use morphl.Ast.{
  AstKind, AstNode, Children, null, node, nil, cons, child_count, kind_code, literal, ident, call,
  func, if_kind, block, group, decl, prop, set, builtin, overload, file, unknown,
}
use morphl.Vm.Op
use morphl.Vm.Emit.{
  VmEmitter, op_name_from_node, is_compile_time_operator, emit_set_slot, decl_name, emit_node_meta,
  emit_node, emit_children, emit_rhs, emit_first,
}
use morphl.Vm.Correct.Room.{
  Room, Room-le, Goes, Goes-bind, if-Goes, emit_opcode-Goes, push_u32-Goes, emit_opcode_u32-Goes,
  emit_named-Goes, string_table_add-Room,
}

module _ (interns : Option InternTable) where
  -- No more bytes than these are emitted for a tree.
  unfoldable mutual
    pub weight : AstNode → ℕ
    weight null = 1
    weight (node kind op value cs) =
        40 + length (text value) + length (text (op_name_from_node interns op)) + weights cs

    pub weights : Children → ℕ
    weights nil = 0
    weights (cons c cs) = weight c + weights cs

  abbrev pub is_ret : ℕ → Bool
  is_ret op = bytes_eq (text (op_name_from_node interns op)) (codes "$ret")

  abbrev pub HasOperand : AstKind → ℕ → Children → Type 0
  HasOperand builtin op cs = is_ret op ≡ true → 0 < child_count cs
  HasOperand _ op cs = Unit

  -- Every `$ret` in the tree has an operand.
  mutual
    pub data RetsHaveOperands : AstNode → Type 0 where
      null_returns : RetsHaveOperands null
      node_returns :
          (kind : AstKind) (op : ℕ) (value : Str) (cs : Children)
          → HasOperand kind op cs
          → AllRetsHaveOperands cs
          → RetsHaveOperands (node kind op value cs)

    pub data AllRetsHaveOperands : Children → Type 0 where
      nil_returns : AllRetsHaveOperands nil
      cons_returns :
          (c : AstNode) (cs : Children)
          → RetsHaveOperands c
          → AllRetsHaveOperands cs
          → AllRetsHaveOperands (cons c cs)

  -- The room that the initial value of a declaration takes.
  abbrev rhs_weight : Children → ℕ
  rhs_weight (cons c (cons rhs cs)) = weight rhs
  rhs_weight _ = 1

  name_le : (c : AstNode) (cs : Children) → length (decl_name (cons c cs)) ≤ weight c + 11
  unfolding weight decl_name
  name_le null cs = omega arith
  name_le (node ident op value ds) cs = omega arith
  name_le (node literal op value ds) cs = omega arith
  name_le (node call op value ds) cs = omega arith
  name_le (node func op value ds) cs = omega arith
  name_le (node if_kind op value ds) cs = omega arith
  name_le (node block op value ds) cs = omega arith
  name_le (node group op value ds) cs = omega arith
  name_le (node decl op value ds) cs = omega arith
  name_le (node prop op value ds) cs = omega arith
  name_le (node set op value ds) cs = omega arith
  name_le (node builtin op value ds) cs = omega arith
  name_le (node overload op value ds) cs = omega arith
  name_le (node file op value ds) cs = omega arith
  name_le (node unknown op value ds) cs = omega arith

  decl_le : (cs : Children) → rhs_weight cs + length (decl_name cs) ≤ weights cs + 12
  unfolding weights decl_name
  decl_le nil = omega arith
  decl_le (cons c nil) = omega (arith, name_le c nil)
  decl_le (cons c (cons rhs cs)) = omega (arith, name_le c (cons rhs cs))

  module _ (entries : ℕ) where
    abbrev R : VmEmitter → ℕ → Type 0
    R = Room interns entries

    abbrev G : Outcome VmEmitter → ℕ → Type 0
    G = Goes interns entries

    node_meta-Goes :
        (e : VmEmitter) (kind : AstKind) (op : ℕ) (cs : Children) (r : ℕ)
        → R e (14 + length (text (op_name_from_node e.interns op)) + r)
        → G (emit_node_meta e kind op cs) r
    unfolding emit_node_meta
    node_meta-Goes e kind op cs r room =
        let (i, table, added, _, room₁) =
          string_table_add-Room interns entries e (text (op_name_from_node e.interns op)) (10 + r)
            (Room-le interns entries e _ _ (omega arith) room) in
        let (e', runs, end) =
          Goes-bind interns entries _ _ (9 + r) r
            (emit_opcode-Goes interns entries (record e { strings = table }) Op.node_meta (9 + r)
              (Room-le interns entries _ _ _ (omega arith) room₁))
            (λ e₁ room₂.
              Goes-bind interns entries _ _ (8 + r) r
                (emit_opcode-Goes interns entries e₁ (kind_code kind) (8 + r)
                  (Room-le interns entries e₁ _ _ (omega arith) room₂))
                (λ e₂ room₃.
                  Goes-bind interns entries _ _ (4 + r) r
                    (push_u32-Goes interns entries e₂ i (4 + r)
                      (Room-le interns entries e₂ _ _ (omega arith) room₃))
                    (λ e₃ room₄.
                      push_u32-Goes interns entries e₃ (child_count cs % 2 ^ 32) r room₄))) in
        (e', rw added runs, end)

    set_slot-Goes :
        (e : VmEmitter) (s : Bytes) (r : ℕ) → R e (9 + length s + r) → G (emit_set_slot e s) r
    unfolding emit_set_slot
    set_slot-Goes e s r room = emit_named-Goes interns entries e Op.set_slot s r room

    -- A part of the emission, and one behind it that takes `n` bytes.
    then-Goes :
        (first : Outcome VmEmitter) (second : VmEmitter → Outcome VmEmitter) (n r : ℕ)
        → G first (n + r)
        → ((e : VmEmitter) → R e (n + r) → G (second e) r)
        → G (first >>= second) r
    then-Goes first second n r a b = Goes-bind interns entries first second (n + r) r a b

    name_length :
        (e : VmEmitter) (op r : ℕ)
        → R e r
        → length (text (op_name_from_node e.interns op))
          ≡ length (text (op_name_from_node interns op))
    name_length e op r room = ap (λ t. length (text (op_name_from_node t op))) room.same_interns

    -- A kind that is not lowered: its descriptor, and the children.
    meta-Goes :
        (kind : AstKind) (op : ℕ) (cs : Children) (e : VmEmitter) (r : ℕ)
        → R e (40 + length (text (op_name_from_node interns op)) + weights cs + r)
        → ((e₁ : VmEmitter) → R e₁ (weights cs + r) → G (emit_children e₁ cs) r)
        → G (emit_node_meta e kind op cs >>= λ e₁. emit_children e₁ cs) r
    meta-Goes kind op cs e r room later =
        then-Goes (emit_node_meta e kind op cs) _ (weights cs) r
          (node_meta-Goes e kind op cs (weights cs + r)
            (Room-le interns entries e _ _ (omega (arith, name_length e op _ room)) room))
          later

    -- A declaration, by its initial value.
    declared-Goes :
        (cs : Children) (e : VmEmitter) (r : ℕ)
        → R e (21 + weights cs + r)
        → ((r' : ℕ) → R e (rhs_weight cs + r') → G (emit_rhs e cs) r')
        → G (emit_rhs e cs >>= λ e'. emit_set_slot e' (decl_name cs)) r
    declared-Goes cs e r room initial =
        then-Goes (emit_rhs e cs) _ (9 + length (decl_name cs)) r
          (initial (9 + length (decl_name cs) + r)
            (Room-le interns entries e _ _ (omega (arith, decl_le cs)) room))
          (λ e₁ room₁. set_slot-Goes e₁ (decl_name cs) r room₁)

    mutual
      unfolding emit_node emit_children emit_rhs emit_first weight weights

      node-Goes :
          (n : AstNode) (e : VmEmitter) (r : ℕ)
          → RetsHaveOperands n
          → R e (weight n + r)
          → G (emit_node e n) r
      node-Goes null e r null_returns room = emit_opcode-Goes interns entries e Op.push_null r room
      node-Goes (node literal op value cs) e r ok_ret room =
          emit_named-Goes interns entries e Op.push_literal (text value) r
            (Room-le interns entries e _ _ (omega arith) room)
      node-Goes (node ident op value cs) e r ok_ret room =
          emit_named-Goes interns entries e Op.push_ident (text value) r
            (Room-le interns entries e _ _ (omega arith) room)
      node-Goes (node group op value cs) e r (node_returns _ _ _ _ _ all) room =
          then-Goes (emit_children e cs) _ 5 r
            (children-Goes cs e (5 + r) all (Room-le interns entries e _ _ (omega arith) room))
            (λ e₁ room₁.
              emit_opcode_u32-Goes interns entries e₁ Op.make_group (child_count cs % 2 ^ 32) r
                room₁)
      node-Goes (node call op value cs) e r (node_returns _ _ _ _ _ all) room =
          then-Goes (emit_children e cs) _ 14 r
            (children-Goes cs e (14 + r) all (Room-le interns entries e _ _ (omega arith) room))
            (λ e₁ room₁. emit_named-Goes interns entries e₁ Op.call (codes "$call") r room₁)
      node-Goes (node decl op value cs) e r (node_returns _ _ _ _ _ all) room =
          declared-Goes cs e r (Room-le interns entries e _ _ (omega arith) room)
            (λ r'. rhs-Goes cs e r' all)
      node-Goes (node set op value cs) e r (node_returns _ _ _ _ _ all) room =
          then-Goes (emit_children e cs) _ 13 r
            (children-Goes cs e (13 + r) all (Room-le interns entries e _ _ (omega arith) room))
            (λ e₁ room₁. emit_named-Goes interns entries e₁ Op.operator (codes "$set") r room₁)
      node-Goes (node builtin op value cs) e r (node_returns _ _ _ _ has all) room =
          let name = text (op_name_from_node e.interns op) in
          let same = name_length e op _ room in
          let to_ret = λ (h : bytes_eq name (codes "$ret") ≡ true). has (
            subst (λ t. bytes_eq (text (op_name_from_node t op)) (codes "$ret") ≡ true)
              room.same_interns h) in
          if-Goes interns entries (is_compile_time_operator name) _ _ r
            (λ _.
              if-Goes interns entries (bytes_eq name (codes "$decl")) _ _ r
                (λ _.
                  declared-Goes cs e r (Room-le interns entries e _ _ (omega arith) room)
                    (λ r'. rhs-Goes cs e r' all))
                (λ _. children-Goes cs e r all (Room-le interns entries e _ _ (omega arith) room)))
            (λ _.
              if-Goes interns entries (bytes_eq name (codes "$ret")) _ _ r
                (λ h.
                  then-Goes (emit_first e cs) _ 1 r
                    (first-Goes cs e (1 + r) (to_ret h) all
                      (Room-le interns entries e _ _ (omega arith) room))
                    (λ e₁ room₁. emit_opcode-Goes interns entries e₁ Op.ret r room₁))
                (λ _.
                  then-Goes (emit_children e cs) _ (9 + length name) r
                    (children-Goes cs e (9 + length name + r) all
                      (Room-le interns entries e _ _ (omega (arith, same)) room))
                    (λ e₁ room₁. emit_named-Goes interns entries e₁ Op.operator name r room₁)))
      node-Goes (node file op value cs) e r (node_returns _ _ _ _ _ all) room =
          children-Goes cs e r all (Room-le interns entries e _ _ (omega arith) room)
      node-Goes (node block op value cs) e r (node_returns _ _ _ _ _ all) room =
          children-Goes cs e r all (Room-le interns entries e _ _ (omega arith) room)
      node-Goes (node func op value cs) e r (node_returns _ _ _ _ _ all) room =
          meta-Goes func op cs e r (Room-le interns entries e _ _ (omega arith) room)
            (λ e₁. children-Goes cs e₁ r all)
      node-Goes (node if_kind op value cs) e r (node_returns _ _ _ _ _ all) room =
          meta-Goes if_kind op cs e r (Room-le interns entries e _ _ (omega arith) room)
            (λ e₁. children-Goes cs e₁ r all)
      node-Goes (node prop op value cs) e r (node_returns _ _ _ _ _ all) room =
          meta-Goes prop op cs e r (Room-le interns entries e _ _ (omega arith) room)
            (λ e₁. children-Goes cs e₁ r all)
      node-Goes (node overload op value cs) e r (node_returns _ _ _ _ _ all) room =
          meta-Goes overload op cs e r (Room-le interns entries e _ _ (omega arith) room)
            (λ e₁. children-Goes cs e₁ r all)
      node-Goes (node unknown op value cs) e r (node_returns _ _ _ _ _ all) room =
          meta-Goes unknown op cs e r (Room-le interns entries e _ _ (omega arith) room)
            (λ e₁. children-Goes cs e₁ r all)

      children-Goes :
          (cs : Children) (e : VmEmitter) (r : ℕ)
          → AllRetsHaveOperands cs
          → R e (weights cs + r)
          → G (emit_children e cs) r
      children-Goes nil e r all room = (e, refl, Room-le interns entries e _ r (omega arith) room)
      children-Goes (cons c cs) e r (cons_returns _ _ here all) room =
          then-Goes (emit_node e c) _ (weights cs) r
            (node-Goes c e (weights cs + r) here (Room-le interns entries e _ _ (omega arith) room))
            (λ e₁ room₁. children-Goes cs e₁ r all room₁)

      rhs-Goes :
          (cs : Children) (e : VmEmitter) (r : ℕ)
          → AllRetsHaveOperands cs
          → R e (rhs_weight cs + r)
          → G (emit_rhs e cs) r
      rhs-Goes nil e r all room = emit_opcode-Goes interns entries e Op.push_null r room
      rhs-Goes (cons c nil) e r all room = emit_opcode-Goes interns entries e Op.push_null r room
      rhs-Goes (cons c (cons rhs cs)) e r (cons_returns _ _ _ (cons_returns _ _ here all)) room =
          node-Goes rhs e r here room

      first-Goes :
          (cs : Children) (e : VmEmitter) (r : ℕ)
          → 0 < child_count cs
          → AllRetsHaveOperands cs
          → R e (weights cs + r)
          → G (emit_first e cs) r
      first-Goes nil e r some_child all room = absurd (omega (arith, some_child))
      first-Goes (cons c cs) e r some_child (cons_returns _ _ here all) room =
          node-Goes c e r here (Room-le interns entries e _ _ (omega arith) room)

-- The tree is emitted with bytes to spare.
pub emit_node-Room :
    (interns : Option InternTable) (entries : ℕ) (n : AstNode) (e : VmEmitter) (r : ℕ)
    → RetsHaveOperands interns n
    → Room interns entries e (weight interns n + r)
    → (e' : VmEmitter) × (emit_node e n ≡ ok e') × Room interns entries e' r
emit_node-Room interns entries n e r has room = node-Goes interns entries n e r has room
