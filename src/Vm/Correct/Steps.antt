-- ===== src/Vm/Correct/Steps.antt =====
-- Rounds of the interpreter at a known place in the code, and runs made of them.
use morphl.Prelude.{
  ℕ, ◌+◌, ◌^◌, ◌<◌, ◌≡◌, refl, ◌∙◌, subst, Bool, true, false, not, some, List, [], ◌∷◌, ◌++◌,
  length, get_elem?, get_elem?-append_middle, le→ltb, ◌==◌, if◌then◌else◌, Bytes, arith,
}
use morphl.Vm.Op
use morphl.Vm.Codec.{u32_le}
use morphl.Vm.Load.{Program}
use morphl.Vm.Load.Fields.{From, From-skip, From-length, u32_at-From}
use morphl.Vm.Value.{
  DoubleOps, null_value, literal_value, ident_value, VmCallFrame, Stack, Slots, vm_stack_pop,
}
use morphl.Vm.Machine.{
  Vm, Step, running, error, Data, Result, done, refused, resume, dispatch, step, with_payload,
  with_string, step_ret, exit_with, vm_call, node_meta_unsupported, make_group, assign_slot,
  vm_execute_operator, vm_return, after_return,
}
use morphl.Vm.Machine.Progress.{IsStop, not_running-IsStop, step_ret-stops}
use morphl.Vm.Meaning.{Mach, Effect, next, stops, pushes, ◌▷◌, applied, returned}

-- The machine at `ip` with these values and frames.
abbrev pub machine : ℕ → Data → List VmCallFrame → Vm
machine ip d frames = record { ip = ip; stack = d.stack; slots = d.slots; call_frames = frames }

-- There is a frame, and only the main one exactly if nothing has been called.
pub record Framed (frames : List VmCallFrame) (called : Bool) : Type 0 where
  pub some_frame : 0 < length frames
  pub main_only : (length frames == 1) ≡ not called

-- `RET` by the two cases of its frame.
ret_cases :
    (called : Bool) (ip : ℕ) (stack : Stack) (slots : Slots) (frames : List VmCallFrame)
    (main : Step)
    → Framed frames called
    → (if length frames == 1
        then main
        else after_return
            (vm_return (record { ip = ip; stack = stack; slots = slots; call_frames = frames })))
      ≡ returned called stack main
unfolding after_return vm_return vm_stack_pop
ret_cases false ip stack slots frames main f = rw f.main_only refl
ret_cases true ip stack slots [] main f = absurd (omega (arith, f.some_frame))
ret_cases true ip [] slots (frame ∷ frames) main f = rw f.main_only refl
ret_cases true ip (v ∷ stack) slots (frame ∷ frames) main f = rw f.main_only refl

module _ {D : Type 0} (fp : DoubleOps D) (p : Program) where
  pub data Steps : Vm → Vm → Type 0 where
    here : {vm : Vm} → Steps vm vm
    more : {vm vm' vm'' : Vm} → step fp p vm ≡ running vm' → Steps vm' vm'' → Steps vm vm''

  pub Steps-trans : {a b c : Vm} → Steps a b → Steps b c → Steps a c
  Steps-trans here s = s
  Steps-trans (more h r) s = more h (Steps-trans r s)

  -- The machine goes through what an effect says, to `ip` if it goes on.
  abbrev pub Runs : Vm → Effect → ℕ → Type 0
  Runs vm (next m) ip =
      (frames : List VmCallFrame) × Steps vm (machine ip m.values frames) × Framed frames m.called
  Runs vm (stops s) ip = (vm' : Vm) × Steps vm vm' × (step fp p vm' ≡ s) × IsStop s

  pub Runs-bind :
      (vm : Vm) (eff : Effect) (k : Mach → Effect) (mid ip : ℕ)
      → Runs vm eff mid
      → ((m : Mach) (frames : List VmCallFrame)
          → Framed frames m.called
          → Runs (machine mid m.values frames) (k m) ip)
      → Runs vm (eff ▷ k) ip
  Runs-bind vm (stops s) k mid ip r later = r
  Runs-bind vm (next m) k mid ip (frames, steps, ok_frames) later =
      after (k m) (later m frames ok_frames)
    where
      after : (e : Effect) → Runs (machine mid m.values frames) e ip → Runs vm e ip
      after (next m') (frames', steps', framed) = (frames', Steps-trans steps steps', framed)
      after (stops s) (vm', steps', end, stop) = (vm', Steps-trans steps steps', end, stop)

  -- A round at a known opcode.
  pub step-From :
      (vm : Vm) (op : ℕ) {rest : Bytes}
      → From p.code vm.ip (op ∷ rest)
      → step fp p vm ≡ dispatch fp p op (record vm { ip = vm.ip + 1 })
  unfolding step
  step-From vm op {rest} f =
      let fetched : get_elem? p.code vm.ip ≡ some op =
        rw (f.splits, f.off_is) (get_elem?-append_middle f.before rest op) in
      rw (fetched, step) refl

  pub with_payload-From :
      (vm : Vm) (v : ℕ) {rest : Bytes} (k : ℕ → Vm → Step)
      → From p.code vm.ip (u32_le v ++ rest)
      → v < 2 ^ 32
      → with_payload p vm k ≡ k v (record vm { ip = vm.ip + 4 })
  unfolding with_payload
  with_payload-From vm v {rest} k f h =
      rw (le→ltb (length p.code) (vm.ip + 4) (omega (arith, From-length f)), u32_at-From f h) refl

  pub with_string-From :
      (vm : Vm) (v : ℕ) {rest s : Bytes} (k : Bytes → Vm → Step)
      → From p.code vm.ip (u32_le v ++ rest)
      → v < 2 ^ 32
      → get_elem? p.strings v ≡ some s
      → with_string p vm k ≡ k s (record vm { ip = vm.ip + 4 })
  unfolding with_string
  with_string-From vm v k f h e = with_payload-From vm v _ f h ∙ rw e refl

  applied-Runs :
      (vm : Vm) (m : Mach) (frames : List VmCallFrame) (ip : ℕ) (r : Result)
      → step fp p vm ≡ resume (machine ip m.values frames) r
      → Framed frames m.called
      → Runs vm (applied m r) ip
  unfolding resume
  applied-Runs vm m frames ip (done d) h framed = (frames, more h here, framed)
  applied-Runs vm m frames ip (refused e) h framed = (vm, here, h, tt)

  module _ (m : Mach) (frames : List VmCallFrame) (framed : Framed frames m.called) (ip : ℕ) where
    abbrev start : Vm
    start = machine ip m.values frames

    abbrev after_op : Vm
    after_op = machine (ip + 1) m.values frames

    pub null-Runs :
        {rest : Bytes}
        → From p.code ip (Op.push_null ∷ rest)
        → Runs start (pushes null_value m) (ip + 1)
    unfolding dispatch
    null-Runs f = (frames, more (step-From start Op.push_null f) here, framed)

    -- An instruction that names a text.
    module _ {idx : ℕ} {rest s : Bytes} (fits : idx < 2 ^ 32)
        (found : get_elem? p.strings idx ≡ some s) where
      named :
          (op : ℕ) (k : Bytes → Vm → Step)
          → From p.code ip (op ∷ (u32_le idx ++ rest))
          → dispatch fp p op after_op ≡ with_string p after_op k
          → step fp p start ≡ k s (machine (ip + 1 + 4) m.values frames)
      named op k f runs =
          step-From start op f
          ∙ runs
          ∙ with_string-From after_op idx k (From-skip (op ∷ []) f) fits found

      pub literal-Runs :
          From p.code ip (Op.push_literal ∷ (u32_le idx ++ rest))
          → Runs start (pushes (literal_value s) m) (ip + 1 + 4)
      unfolding dispatch
      literal-Runs f = (frames, more (named Op.push_literal _ f refl) here, framed)

      pub ident-Runs :
          From p.code ip (Op.push_ident ∷ (u32_le idx ++ rest))
          → Runs start (pushes (ident_value s) m) (ip + 1 + 4)
      unfolding dispatch
      ident-Runs f = (frames, more (named Op.push_ident _ f refl) here, framed)

      pub slot-Runs :
          From p.code ip (Op.set_slot ∷ (u32_le idx ++ rest))
          → Runs start (applied m (assign_slot s m.values)) (ip + 1 + 4)
      unfolding dispatch
      slot-Runs f = applied-Runs start m frames (ip + 1 + 4) _ (named Op.set_slot _ f refl) framed

      pub operator-Runs :
          From p.code ip (Op.operator ∷ (u32_le idx ++ rest))
          → Runs start (applied m (vm_execute_operator fp s m.values)) (ip + 1 + 4)
      unfolding dispatch
      operator-Runs f =
          applied-Runs start m frames (ip + 1 + 4) _ (named Op.operator _ f refl) framed

    module _ {n : ℕ} {rest : Bytes} (fits : n < 2 ^ 32) where
      payload :
          (op : ℕ) (k : ℕ → Vm → Step)
          → From p.code ip (op ∷ (u32_le n ++ rest))
          → dispatch fp p op after_op ≡ with_payload p after_op k
          → step fp p start ≡ k n (machine (ip + 1 + 4) m.values frames)
      payload op k f runs =
          step-From start op f ∙ runs ∙ with_payload-From after_op n k (From-skip (op ∷ []) f) fits

      pub group-Runs :
          From p.code ip (Op.make_group ∷ (u32_le n ++ rest))
          → Runs start (applied m (make_group n m.values)) (ip + 1 + 4)
      unfolding dispatch
      group-Runs f =
          applied-Runs start m frames (ip + 1 + 4) _ (payload Op.make_group _ f refl) framed

      pub call-Runs :
          From p.code ip (Op.call ∷ (u32_le n ++ rest))
          → Runs start (next (record m { called = true })) (ip + 1 + 4)
      unfolding dispatch vm_call
      call-Runs f = (
        _,
        more (payload Op.call _ f refl) here,
        record {
          some_frame = omega (arith, framed.some_frame);
          main_only = ground (arith, framed.some_frame);
        },
      )

    pub meta-Runs :
        {rest : Bytes}
        → From p.code ip (Op.node_meta ∷ rest)
        → Runs start (stops (error node_meta_unsupported)) (ip + 1)
    unfolding dispatch
    meta-Runs f = (start, here, step-From start Op.node_meta f, tt)

    ret-step :
        step_ret fp p after_op ≡ returned m.called m.values.stack (exit_with fp m.values.stack)
    unfolding step_ret
    ret-step = ret_cases m.called (ip + 1) m.values.stack m.values.slots frames _ framed

    pub ret-Runs :
        {rest : Bytes}
        → From p.code ip (Op.ret ∷ rest)
        → Runs start
            (stops (returned m.called m.values.stack (exit_with fp m.values.stack)))
            (ip + 1)
    unfolding dispatch
    ret-Runs f = (
      start,
      here,
      step-From start Op.ret f ∙ ret-step,
      subst IsStop ret-step
          (not_running-IsStop (step_ret fp p after_op) (step_ret-stops fp p after_op)),
    )
