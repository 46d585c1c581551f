-- ===== src/Vm/Correct/Program.antt =====
-- The whole way of a program: src/backend/vm.c emits it, src/runtime/vm_runtime.c loads and runs it.
use morphl.Prelude.{
  ℕ, zero, suc, ◌^◌, ◌≤◌, ◌<◌, ◌≡◌, refl, sym, ap, ◌∙◌, subst, false, Option, some, [], ◌∷◌,
  append-nil, length, length-append, Bytes, ok, >>=-eq-ok, ok-injective, ◌==◌, arith,
}
use morphl.Util.Intern.{InternTable}
use morphl.Ast.{AstNode}
use morphl.Vm.Op
use morphl.Vm.Codec.{VmBytes}
use morphl.Vm.Emit.{
  VmEmitter, string_table_add, metadata_add, emit_entry, emit_metadata, emit_node, emit_opcode,
  emit_program, new_emitter,
}
use morphl.Vm.Image.{backend_func_vm}
use morphl.Vm.Image.Layout.{layout, push_image-layout}
use morphl.Vm.Load.{Program, program_load}
use morphl.Vm.Load.Fields.{From}
use morphl.Vm.Load.RoundTrip.{Fits, texts, program_load-layout}
use morphl.Vm.Value.{DoubleOps}
use morphl.Vm.Machine.{
  Vm, Step, running, exited, error, step, run, execute, dispatch, vm_init_call_frame,
}
use morphl.Vm.Machine.Progress.{IsStop, execute_ends}
use morphl.Vm.Meaning.{Mach, Effect, next, stops, eval_node}
use morphl.Vm.Correct.Emits.{
  Appends, Appends-trans, Appends-strings, emit_opcode-Appends, string_table_add-Added, Within,
  Within-back, Within-From,
}
use morphl.Vm.Correct.Steps.{Steps, here, more, machine, Runs, step-From}
use morphl.Vm.Correct.Sound.{node_runs}

abbrev pub start : Mach
start = record { values = record { stack = []; slots = [] }; called = false }

-- How a run ends that went through the whole tree: at `HALT`.
unfoldable pub outcome : Effect → Step
outcome (next m) = exited 0
outcome (stops s) = s

abbrev pub program_of : VmEmitter → Program
program_of e = record {
  version_major = 1;
  version_minor = 0;
  strings = texts e.strings.items;
  code = e.code.bytes;
}

emit_entry-Appends :
    (e : VmEmitter) (key value : Bytes) {e' : VmEmitter}
    → emit_entry e key value ≡ ok e'
    → Appends e e' []
unfolding emit_entry
emit_entry-Appends e key value h =
    let (k, key_added, h₁) = >>=-eq-ok (string_table_add e.strings key) _ h in
    let (v, value_added, h₂) = >>=-eq-ok (string_table_add k.1 value) _ h₁ in
    let (m, entered, made) = >>=-eq-ok (metadata_add e.metadata k.0 v.0) _ h₂ in
    let a = Appends-strings e (string_table_add-Added e.strings key key_added) in
    let b =
      Appends-strings (record e { strings = k.1 }) (string_table_add-Added k.1 value value_added) in
    let c = Appends-trans a b in
    subst (λ x. Appends e x []) (ok-injective made)
      (record { code = c.code; more = c.more; strings = c.strings; interns = c.interns })

emit_metadata-Appends : (e : VmEmitter) {e' : VmEmitter} → emit_metadata e ≡ ok e' → Appends e e' []
unfolding emit_metadata
emit_metadata-Appends e h =
    let (e₁, first, h₁) = >>=-eq-ok (emit_entry e _ _) _ h in
    let (e₂, second, third) = >>=-eq-ok (emit_entry e₁ _ _) _ h₁ in
    Appends-trans (emit_entry-Appends e _ _ first)
      (Appends-trans (emit_entry-Appends e₁ _ _ second) (emit_entry-Appends e₂ _ _ third))

module _ {D : Type 0} (fp : DoubleOps D) (p : Program) where
  -- A run that reaches a stop ends with it.
  Steps-run :
      (fuel : ℕ) {a b : Vm} {s s' : Step}
      → run fp p fuel a ≡ some s'
      → Steps fp p a b
      → step fp p b ≡ s
      → IsStop s
      → s' ≡ s
  unfolding run
  Steps-run zero h steps end stop = cc
  Steps-run (suc fuel) {s = running vm} h here end stop = absurd stop
  Steps-run (suc fuel) {s = exited n} h here end stop = cc (rw (end, run) at h)
  Steps-run (suc fuel) {s = error w} h here end stop = cc (rw (end, run) at h)
  Steps-run (suc fuel) h (more e steps) end stop = Steps-run fuel (rw (e, run) at h) steps end stop

  -- Behind the code of the tree stands `HALT`.
  Runs-outcome :
      (vm : Vm) (eff : Effect) (ip : ℕ) (rest : Bytes)
      → Runs fp p vm eff ip
      → From p.code ip (Op.halt ∷ rest)
      → (vm' : Vm) × Steps fp p vm vm' × (step fp p vm' ≡ outcome eff) × IsStop (outcome eff)
  unfolding dispatch outcome
  Runs-outcome vm (next m) ip rest (frames, steps, framed) f =
      (machine ip m.values frames, steps, step-From fp p (machine ip m.values frames) Op.halt f, tt)
  Runs-outcome vm (stops s) ip rest r f = r

module _ {D : Type 0} (fp : DoubleOps D) (interns : Option InternTable) (tree : AstNode)
    {e : VmEmitter} where
  -- The emitted program reaches what the tree means.
  program_reaches :
      emit_program interns tree ≡ ok e
      → Fits e
      → (vm' : Vm) × Steps fp
          (program_of e)
          (vm_init_call_frame (record { ip = 0; stack = []; slots = []; call_frames = [] }))
          vm'
        × (step fp (program_of e) vm' ≡ outcome (eval_node fp interns tree start))
        × IsStop (outcome (eval_node fp interns tree start))
        × (0 < length e.code.bytes)
  unfolding emit_program vm_init_call_frame
  program_reaches h fit =
      let (e₁, emitted, h₁) = >>=-eq-ok (emit_node (new_emitter interns) tree) _ h in
      let (e₂, halted, described) = >>=-eq-ok (emit_opcode e₁ Op.halt) _ h₁ in
      let halt = emit_opcode-Appends e₁ Op.halt halted in
      let info = emit_metadata-Appends e₂ described in
      let whole : Within e (program_of e) = record {
        later_code = [];
        code = sym (append-nil e.code.bytes);
        later_strings = [];
        strings = sym (append-nil (texts e.strings.items));
        fit = fit.strings;
        count = fit.string_count;
      } in
      let w₂ = Within-back info whole in
      let nonempty : 0 < length e.code.bytes = omega (
        arith,
        ap length halt.code,
        length-append {0} e₁.code.bytes (Op.halt ∷ []),
        ap length info.code,
        length-append {0} e₂.code.bytes [],
      ) in
      let d = node_runs fp interns tree (new_emitter interns) refl emitted in
      let runs =
        d.runs (program_of e) (Within-back halt w₂) start _
          (record { some_frame = omega arith; main_only = refl }) in
      let (vm', steps, end, stop) =
        Runs-outcome fp (program_of e) _ _ _ _ runs (Within-From halt w₂) in
      (vm', steps, end, stop, nonempty)

  -- The emitted program, written, loaded and run.
  pub execute-backend_func_vm :
      (fuel : ℕ)
      → emit_program interns tree ≡ ok e
      → Fits e
      → length (layout e) ≤ 2 ^ 63
      → length e.code.bytes < fuel
      → (f : VmBytes) × (p : Program) × (backend_func_vm interns tree ≡ ok f)
        × (program_load f.bytes ≡ ok p)
        × (execute fp p fuel ≡ some (outcome (eval_node fp interns tree start)))
  unfolding backend_func_vm execute
  execute-backend_func_vm fuel h fit small enough =
      let (f, pushed, bytes_are) = push_image-layout e small in
      let (vm', steps, end, stop, nonempty) = program_reaches h fit in
      let some_code : (length e.code.bytes == 0) ≡ false = ground arith in
      let (s, ends, _) = execute_ends fp (program_of e) fuel enough in
      let same = Steps-run fp (program_of e) fuel (rw some_code at ends) steps end stop in
      (f, program_of e, rw h pushed, rw bytes_are (program_load-layout e fit), ends ∙ ap some same)
