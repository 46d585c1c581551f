-- ===== src/Vm/Correct/Does.antt =====
-- Emitting steps of src/backend/vm.c whose code runs as a meaning says.
use morphl.Prelude.{
  ℕ, ◌+◌, ◌%◌, ◌^◌, ◌<◌, ◌≡◌, refl, sym, ap, ◌∙◌, subst, true, some, List, [], ◌∷◌, ◌++◌, length,
  get_elem?, length-append, Bytes, bytes_eq, Bool-cases, inl, inr, if◌then◌else◌, Outcome, ok,
  >>=-eq-ok, ok-injective, ◌>>=◌, codes, arith,
}
use morphl.Ast.{AstKind, Children, kind_code}
use morphl.Vm.Op
use morphl.Vm.Codec.{u32_le}
use morphl.Vm.Load.{Program}
use morphl.Vm.Load.Fields.{From}
use morphl.Vm.Emit.{
  VmEmitter, emit_children, emit_rhs, emit_first, emit_opcode, emit_opcode_u32, emit_named,
  emit_set_slot, emit_node_meta, push_u32, string_table_add, decl_name, is_compile_time_operator,
}
use morphl.Vm.Value.{DoubleOps, VmCallFrame, null_value}
use morphl.Vm.Machine.{
  make_group, assign_slot, vm_execute_operator, error, node_meta_unsupported, exit_with,
}
use morphl.Vm.Meaning.{Mach, Effect, next, stops, ◌▷◌, applied, pushes, returned}
use morphl.Vm.Correct.Emits.{
  Appends, Appends-nil, Appends-trans, emit_opcode-Appends, emit_opcode_u32-Appends,
  push_u32-Appends, emit_named-Named, string_table_add-Added, Appends-strings, Within, Within-back,
  Within-From, Within-string,
}
use morphl.Vm.Correct.Steps.{
  here, machine, Framed, Runs, Runs-bind, null-Runs, slot-Runs, operator-Runs, group-Runs,
  call-Runs, meta-Runs, ret-Runs,
}

-- Emission from `e` to `e'` that runs as `meaning` says, in every program that contains it.
pub record Does {D : Type 0} (fp : DoubleOps D) (e e' : VmEmitter) (meaning : Mach → Effect)
    : Type 0 where
  pub bytes : Bytes
  pub appends : Appends e e' bytes
  pub runs :
      (p : Program)
      → Within e' p
      → (m : Mach) (frames : List VmCallFrame) → Framed frames m.called
      → Runs fp p (machine (length e.code.bytes) m.values frames) (meaning m) (length e'.code.bytes)

module _ {D : Type 0} (fp : DoubleOps D) where
  pub Does-bind :
      {e₀ e₁ e₂ : VmEmitter} {f g : Mach → Effect}
      → Does fp e₀ e₁ f
      → Does fp e₁ e₂ g
      → Does fp e₀ e₂ (λ m. f m ▷ g)
  Does-bind {e₀} {e₁} {e₂} {f} {g} a b = record {
    bytes = a.bytes ++ b.bytes;
    appends = Appends-trans a.appends b.appends;
    runs = λ p w m frames framed.
        Runs-bind fp p _ (f m) g (length e₁.code.bytes) (length e₂.code.bytes)
          (a.runs p (Within-back b.appends w) m frames framed)
          (λ m' frames' framed'. b.runs p w m' frames' framed');
  }

  -- One instruction, by what it appends and how it runs.
  pub Does-one :
      {e e' : VmEmitter} {bs : Bytes} {meaning : Mach → Effect} (ip : ℕ)
      → Appends e e' bs
      → ip ≡ length e.code.bytes + length bs
      → ((p : Program) (w : Within e' p) (m : Mach) (frames : List VmCallFrame)
          → Framed frames m.called
          → From p.code (length e.code.bytes) (bs ++ w.later_code)
          → Runs fp p (machine (length e.code.bytes) m.values frames) (meaning m) ip)
      → Does fp e e' meaning
  Does-one {e} {e'} {bs} {meaning} ip a ip_is run = record {
    bytes = bs;
    appends = a;
    runs = λ p w m frames framed.
        subst (Runs fp p (machine (length e.code.bytes) m.values frames) (meaning m))
          (ip_is ∙ sym (ap length a.code ∙ length-append {0} e.code.bytes bs))
          (run p w m frames framed (Within-From a w));
  }

  -- An instruction that names a text.
  pub Does-named :
      (e : VmEmitter) (op : ℕ) (s : Bytes) {e' : VmEmitter} {meaning : Mach → Effect}
      → ((p : Program) (m : Mach) (frames : List VmCallFrame)
          → Framed frames m.called
          → (ip idx : ℕ) (rest : Bytes) → idx < 2 ^ 32
          → get_elem? p.strings idx ≡ some s
          → From p.code ip (op ∷ (u32_le idx ++ rest))
          → Runs fp p (machine ip m.values frames) (meaning m) (ip + 1 + 4))
      → emit_named e op s ≡ ok e'
      → Does fp e e' meaning
  Does-named e op s {e'} run h =
      let n = emit_named-Named e op s h in
      let small : n.place % 2 ^ 32 < 2 ^ 32 = omega arith in
      Does-one (length e.code.bytes + 1 + 4) n.appends (omega arith) (λ p w m frames framed f.
        run p m frames framed (length e.code.bytes) _ _ small
          (Within-string w n.place s (n.holds w.fit)) f)

  pub Does-null :
      (e : VmEmitter) {e' : VmEmitter}
      → emit_opcode e Op.push_null ≡ ok e'
      → Does fp e e' (pushes null_value)
  Does-null e h =
      Does-one (length e.code.bytes + 1) (emit_opcode-Appends e Op.push_null h) refl
        (λ p w m frames framed f. null-Runs fp p m frames framed (length e.code.bytes) f)

  pub Does-ret :
      (e : VmEmitter) {e' : VmEmitter}
      → emit_opcode e Op.ret ≡ ok e'
      → Does fp e e' (λ m. stops (returned m.called m.values.stack (exit_with fp m.values.stack)))
  Does-ret e h =
      Does-one (length e.code.bytes + 1) (emit_opcode-Appends e Op.ret h) refl
        (λ p w m frames framed f. ret-Runs fp p m frames framed (length e.code.bytes) f)

  pub Does-group :
      (e : VmEmitter) (n : ℕ) {e' : VmEmitter}
      → emit_opcode_u32 e Op.make_group (n % 2 ^ 32) ≡ ok e'
      → Does fp e e' (λ m. applied m (make_group (n % 2 ^ 32) m.values))
  Does-group e n h =
      let small : n % 2 ^ 32 < 2 ^ 32 = omega arith in
      Does-one (length e.code.bytes + 1 + 4)
        (emit_opcode_u32-Appends e Op.make_group (n % 2 ^ 32) h) (omega arith)
        (λ p w m frames framed f. group-Runs fp p m frames framed (length e.code.bytes) small f)

  pub Does-set_slot :
      (e : VmEmitter) (s : Bytes) {e' : VmEmitter}
      → emit_set_slot e s ≡ ok e'
      → Does fp e e' (λ m. applied m (assign_slot s m.values))
  unfolding emit_set_slot
  Does-set_slot e s =
      Does-named e Op.set_slot s (λ p m frames framed ip idx rest fits found f.
        slot-Runs fp p m frames framed ip fits found f)

  pub Does-operator :
      (e : VmEmitter) (s : Bytes) {e' : VmEmitter}
      → emit_named e Op.operator s ≡ ok e'
      → Does fp e e' (λ m. applied m (vm_execute_operator fp s m.values))
  Does-operator e s = Does-named e Op.operator s (λ p m frames framed ip idx rest fits found f.
      operator-Runs fp p m frames framed ip fits found f)

  pub Does-call :
      (e : VmEmitter) {e' : VmEmitter}
      → emit_named e Op.call (codes "$call") ≡ ok e'
      → Does fp e e' (λ m. next (record m { called = true }))
  Does-call e =
      Does-named e Op.call (codes "$call")
        (λ p m frames framed ip idx rest fits found f. call-Runs fp p m frames framed ip fits f)

  pub Does-meta :
      (e : VmEmitter) (kind : AstKind) (op : ℕ) (cs : Children) {e' : VmEmitter}
      → emit_node_meta e kind op cs ≡ ok e'
      → Does fp e e' (λ m. stops (error node_meta_unsupported))
  unfolding emit_node_meta
  Does-meta e kind op cs h =
      let (r, added, h₁) = >>=-eq-ok (string_table_add e.strings _) _ h in
      let (e₁, opcode, h₂) =
        >>=-eq-ok (emit_opcode (record e { strings = r.1 }) Op.node_meta) _ h₁ in
      let (e₂, kind_byte, h₃) = >>=-eq-ok (emit_opcode e₁ (kind_code kind)) _ h₂ in
      let (e₃, name_index, count) = >>=-eq-ok (push_u32 e₂ r.0) _ h₃ in
      let strings = Appends-strings e (string_table_add-Added e.strings _ added) in
      let a = Appends-trans strings (
        Appends-trans (emit_opcode-Appends _ Op.node_meta opcode) (
          Appends-trans (emit_opcode-Appends e₁ (kind_code kind) kind_byte)
            (Appends-trans (push_u32-Appends e₂ r.0 name_index) (push_u32-Appends e₃ _ count)))) in
      Does-one _ a refl
        (λ p w m frames framed f. meta-Runs fp p m frames framed (length e.code.bytes) f)

  pub Does-nothing : (e : VmEmitter) {e' : VmEmitter} → ok e ≡ ok e' → Does fp e e' next
  Does-nothing e h =
      subst (λ x. Does fp e x next) (ok-injective h)
        (record {
          bytes = [];
          appends = Appends-nil e;
          runs = λ p w m frames framed. (frames, here, framed);
        })

  -- What `emit_node` does on a builtin of this name.
  abbrev pub emit_builtin : VmEmitter → Bytes → Children → Outcome VmEmitter
  emit_builtin e name cs =
      if is_compile_time_operator name
      then (if bytes_eq name (codes "$decl")
          then (emit_rhs e cs >>= λ e'. emit_set_slot e' (decl_name cs))
          else emit_children e cs)
      else if bytes_eq name (codes "$ret")
      then (emit_first e cs >>= λ e'. emit_opcode e' Op.ret)
      else (emit_children e cs >>= λ e'. emit_named e' Op.operator name)

  -- The choice that a builtin operator's name makes.
  pub Does-choice :
      (e : VmEmitter) {e' : VmEmitter} (name : Bytes)
      {declared returned operands operator : Outcome VmEmitter} {d r o n : Mach → Effect}
      → (declared ≡ ok e' → Does fp e e' d)
      → (operands ≡ ok e' → Does fp e e' o)
      → (returned ≡ ok e' → Does fp e e' r)
      → (operator ≡ ok e' → Does fp e e' n)
      → (if is_compile_time_operator name
          then (if bytes_eq name (codes "$decl") then declared else operands)
          else if bytes_eq name (codes "$ret")
          then returned
          else operator)
        ≡ ok e'
      → Does fp e e' (λ m.
        if is_compile_time_operator name
        then (if bytes_eq name (codes "$decl") then d m else o m)
        else if bytes_eq name (codes "$ret")
        then r m
        else n m)
  Does-choice e name for_d for_o for_r for_n h = elim (Bool-cases (is_compile_time_operator name)) [
    | inl early ↦ elim (Bool-cases (bytes_eq name (codes "$decl"))) [
      | inl is_decl ↦ rw (early, is_decl) (for_d (rw (early, is_decl) at h))
      | inr other ↦ rw (early, other) (for_o (rw (early, other) at h))
    ]
    | inr late ↦ elim (Bool-cases (bytes_eq name (codes "$ret"))) [
      | inl is_ret ↦ rw (late, is_ret) (for_r (rw (late, is_ret) at h))
      | inr other ↦ rw (late, other) (for_n (rw (late, other) at h))
    ]
  ]
