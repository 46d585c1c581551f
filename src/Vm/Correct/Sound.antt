-- ===== src/Vm/Correct/Sound.antt =====
-- Emitted code, run from where it was emitted, goes through what the tree means.
use morphl.Prelude.{ℕ, ◌≡◌, ◌∙◌, subst, Option, Outcome, ok, >>=-eq-ok, ◌>>=◌, codes}
use morphl.Util.{text}
use morphl.Util.Intern.{InternTable}
use morphl.Ast.{
  AstKind, AstNode, Children, null, node, nil, cons, child_count, literal, ident, call, func,
  if_kind, block, group, decl, prop, set, builtin, overload, file, unknown,
}
use morphl.Vm.Op
use morphl.Vm.Emit.{
  VmEmitter, emit_node, emit_children, emit_rhs, emit_first, emit_node_meta, decl_name,
  op_name_from_node,
}
use morphl.Vm.Value.{DoubleOps}
use morphl.Vm.Machine.{error, node_meta_unsupported}
use morphl.Vm.Meaning.{Mach, Effect, stops, ◌▷◌, eval_node, eval_children, eval_rhs, eval_first}
use morphl.Vm.Correct.Steps.{literal-Runs, ident-Runs}
use morphl.Vm.Correct.Does.{
  Does, Does-bind, Does-named, Does-null, Does-ret, Does-group, Does-set_slot, Does-operator,
  Does-call, Does-meta, Does-nothing, Does-choice, emit_builtin,
}

module _ {D : Type 0} (fp : DoubleOps D) (interns : Option InternTable) where
  -- Emission in two parts.
  Does-seq :
      (e : VmEmitter) {e' : VmEmitter} (first : Outcome VmEmitter)
      (second : VmEmitter → Outcome VmEmitter) {f g : Mach → Effect}
      → e.interns ≡ interns
      → ((e₁ : VmEmitter) → first ≡ ok e₁ → Does fp e e₁ f)
      → ((e₁ : VmEmitter) → e₁.interns ≡ interns → second e₁ ≡ ok e' → Does fp e₁ e' g)
      → (first >>= second) ≡ ok e'
      → Does fp e e' (λ m. f m ▷ g)
  Does-seq e first second known run_first run_second h =
      let (e₁, emitted, rest) = >>=-eq-ok first second h in
      let a = run_first e₁ emitted in
      Does-bind fp a (run_second e₁ (a.appends.interns ∙ known) rest)

  Does-meta_tree :
      (e : VmEmitter) {e' : VmEmitter} (kind : AstKind) (op : ℕ) (cs : Children)
      → ((e₁ : VmEmitter)
          → e₁.interns ≡ interns
          → emit_children e₁ cs ≡ ok e'
          → Does fp e₁ e' (eval_children fp interns cs))
      → e.interns ≡ interns
      → (emit_node_meta e kind op cs >>= λ e₁. emit_children e₁ cs) ≡ ok e'
      → Does fp e e' (λ m. stops (error node_meta_unsupported))
  Does-meta_tree e kind op cs later known =
      Does-seq e (emit_node_meta e kind op cs) _ known (λ e₁. Does-meta fp e kind op cs) later

  mutual
    unfolding emit_node emit_children emit_rhs emit_first eval_node eval_children eval_rhs
        eval_first

    pub node_runs :
        (n : AstNode) (e : VmEmitter) {e' : VmEmitter}
        → e.interns ≡ interns
        → emit_node e n ≡ ok e'
        → Does fp e e' (eval_node fp interns n)
    node_runs null e known h = Does-null fp e h
    node_runs (node literal op value cs) e known h =
        Does-named fp e Op.push_literal (text value)
          (λ p m frames framed ip idx rest fits found f.
            literal-Runs fp p m frames framed ip fits found f)
          h
    node_runs (node ident op value cs) e known h =
        Does-named fp e Op.push_ident (text value)
          (λ p m frames framed ip idx rest fits found f.
            ident-Runs fp p m frames framed ip fits found f)
          h
    node_runs (node group op value cs) e known h =
        Does-seq e (emit_children e cs) _ known (λ e₁. children_run cs e known)
          (λ e₁ _. Does-group fp e₁ (child_count cs)) h
    node_runs (node call op value cs) e known h =
        Does-seq e (emit_children e cs) _ known (λ e₁. children_run cs e known)
          (λ e₁ _. Does-call fp e₁) h
    node_runs (node decl op value cs) e known h =
        Does-seq e (emit_rhs e cs) _ known (λ e₁. rhs_runs cs e known)
          (λ e₁ _. Does-set_slot fp e₁ (decl_name cs)) h
    node_runs (node set op value cs) e known h =
        Does-seq e (emit_children e cs) _ known (λ e₁. children_run cs e known)
          (λ e₁ _. Does-operator fp e₁ (codes "$set")) h
    node_runs (node builtin op value cs) e {e'} known h =
        Does-choice fp e (text (op_name_from_node interns op))
          (Does-seq e (emit_rhs e cs) _ known (λ e₁. rhs_runs cs e known)
            (λ e₁ _. Does-set_slot fp e₁ (decl_name cs)))
          (children_run cs e known)
          (Does-seq e (emit_first e cs) _ known (λ e₁. first_runs cs e known)
            (λ e₁ _. Does-ret fp e₁))
          (Does-seq e (emit_children e cs) _ known (λ e₁. children_run cs e known)
            (λ e₁ _. Does-operator fp e₁ (text (op_name_from_node interns op))))
          (subst (λ t. emit_builtin fp e (text (op_name_from_node t op)) cs ≡ ok e') known h)
    node_runs (node file op value cs) e known h = children_run cs e known h
    node_runs (node block op value cs) e known h = children_run cs e known h
    node_runs (node func op value cs) e known h =
        Does-meta_tree e func op cs (λ e₁. children_run cs e₁) known h
    node_runs (node if_kind op value cs) e known h =
        Does-meta_tree e if_kind op cs (λ e₁. children_run cs e₁) known h
    node_runs (node prop op value cs) e known h =
        Does-meta_tree e prop op cs (λ e₁. children_run cs e₁) known h
    node_runs (node overload op value cs) e known h =
        Does-meta_tree e overload op cs (λ e₁. children_run cs e₁) known h
    node_runs (node unknown op value cs) e known h =
        Does-meta_tree e unknown op cs (λ e₁. children_run cs e₁) known h

    children_run :
        (cs : Children) (e : VmEmitter) {e' : VmEmitter}
        → e.interns ≡ interns
        → emit_children e cs ≡ ok e'
        → Does fp e e' (eval_children fp interns cs)
    children_run nil e known h = Does-nothing fp e h
    children_run (cons c cs) e known h =
        Does-seq e (emit_node e c) _ known (λ e₁. node_runs c e known) (λ e₁. children_run cs e₁) h

    rhs_runs :
        (cs : Children) (e : VmEmitter) {e' : VmEmitter}
        → e.interns ≡ interns
        → emit_rhs e cs ≡ ok e'
        → Does fp e e' (eval_rhs fp interns cs)
    rhs_runs nil e known h = Does-null fp e h
    rhs_runs (cons c nil) e known h = Does-null fp e h
    rhs_runs (cons c (cons rhs cs)) e known h = node_runs rhs e known h

    first_runs :
        (cs : Children) (e : VmEmitter) {e' : VmEmitter}
        → e.interns ≡ interns
        → emit_first e cs ≡ ok e'
        → Does fp e e' (eval_first fp interns cs)
    first_runs nil e known h = cc
    first_runs (cons c cs) e known h = node_runs c e known h
