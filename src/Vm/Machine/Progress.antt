-- ===== src/Vm/Machine/Progress.antt =====
-- The loop of `morphl_vm_execute` ends: every round moves the instruction pointer forward.
use morphl.Prelude.{
  ℕ, zero, suc, ◌+◌, ◌≤◌, ◌<◌, ◌≡◌, ◌≢◌, refl, ◌⊎◌, inl, inr, none, some, length, get_elem?,
  get_elem?-lt, Option-cases, Bytes, ltb, ◌==◌, Bool-cases, arith,
}
use morphl.Vm.Load.{Program}
use morphl.Vm.Value.{DoubleOps, VmValue, literal_value, ident_value}
use morphl.Vm.Machine.{
  Vm, Step, RuntimeError, invalid_vm_state, running, exited, error, Result, done, refused, resume,
  make_group, assign_slot, vm_execute_operator, push_value, data_of, index_out_of_bounds,
  with_payload, with_string, exit_with, vm_return, after_return, step_ret, dispatch, step, run,
  execute, vm_call, vm_init_call_frame,
}

resume-ip : (vm : Vm) (r : Result) {vm' : Vm} → resume vm r ≡ running vm' → vm'.ip ≡ vm.ip
unfolding resume
resume-ip vm (done d) h = ground arith
resume-ip vm (refused e) h = cc

after_return-stops : (s : Step) {vm' : Vm} → after_return s ≢ running vm'
unfolding after_return
after_return-stops (running vm) h = cc
after_return-stops (exited n) h = cc
after_return-stops (error e) h = cc

abbrev pub IsStop : Step → Type 0
IsStop (running vm) = ⊥
IsStop (exited n) = Unit
IsStop (error e) = Unit

pub not_running-IsStop : (s : Step) → ((vm : Vm) → s ≢ running vm) → IsStop s
not_running-IsStop (running vm) h = h vm refl
not_running-IsStop (exited n) h = tt
not_running-IsStop (error w) h = tt

pub Step-cases :
    (s : Step)
    → ((vm : Vm) × (s ≡ running vm))
      ⊎ (((n : ℕ) × (s ≡ exited n)) ⊎ ((w : RuntimeError) × (s ≡ error w)))
Step-cases (running vm) = inl (vm, refl)
Step-cases (exited n) = inr (inl (n, refl))
Step-cases (error w) = inr (inr (w, refl))

module _ (p : Program) where
  -- A continuation that leaves the instruction pointer alone when it goes on.
  abbrev Stays : (Vm → Step) → Type 0
  Stays k = (v v' : Vm) → k v ≡ running v' → v'.ip ≡ v.ip

  with_payload-ip :
      (vm vm' : Vm) (k : ℕ → Vm → Step)
      → ((n : ℕ) → Stays (k n))
      → with_payload p vm k ≡ running vm'
      → (vm.ip < vm'.ip) × (vm'.ip ≤ length p.code)
  unfolding with_payload
  with_payload-ip vm vm' k keep h = elim (Bool-cases (ltb (length p.code) (vm.ip + 4))) [
    | inl short ↦ cc (rw short at h)
    | inr enough ↦ let e = keep _ _ vm' (rw enough at h) in (omega (arith, e), ground (arith, e))
  ]

  with_string-ip :
      (vm vm' : Vm) (k : Bytes → Vm → Step)
      → ((s : Bytes) → Stays (k s))
      → with_string p vm k ≡ running vm'
      → (vm.ip < vm'.ip) × (vm'.ip ≤ length p.code)
  unfolding with_string
  with_string-ip vm vm' k keep = with_payload-ip vm vm' _ (λ n v v' h. at_index n v v' h)
    where
      at_index :
          (n : ℕ) (v v' : Vm)
          → elim (get_elem? p.strings n) [ none ↦ error index_out_of_bounds | some s ↦ k s v ]
            ≡ running v'
          → v'.ip ≡ v.ip
      at_index n v v' h = elim (Option-cases (get_elem? p.strings n)) [
        | inl out ↦ cc (rw out at h)
        | inr (s, e) ↦ keep s v v' (rw e at h)
      ]

module _ {D : Type 0} (fp : DoubleOps D) (p : Program) where
  pub step_ret-stops : (vm vm' : Vm) → step_ret fp p vm ≢ running vm'
  unfolding step_ret exit_with
  step_ret-stops vm vm' h = elim (Bool-cases (length vm.call_frames == 1)) [
    | inl main ↦ ground (arith, main)
    | inr called ↦ after_return-stops (vm_return vm) (rw called at h)
  ]

  push-Stays : (f : Bytes → VmValue) (s : Bytes) → Stays p (λ v. running (push_value v (f s)))
  push-Stays f s v v' h = ground arith

  resume-Stays : (f : Vm → Result) → Stays p (λ v. resume v (f v))
  resume-Stays f v v' h = resume-ip v (f v) h

  call-Stays : (n : ℕ) → Stays p (λ v. running (vm_call v n))
  unfolding vm_call
  call-Stays n v v' h = ground arith

  -- Of an instruction at the byte behind its opcode.
  dispatch-ip :
      (op : ℕ) (vm vm' : Vm)
      → vm.ip ≤ length p.code
      → dispatch fp p op vm ≡ running vm'
      → (vm.ip ≤ vm'.ip) × (vm'.ip ≤ length p.code)
  unfolding dispatch
  dispatch-ip op vm vm' b h = ground (
    arith,
    step_ret-stops vm vm',
    with_string-ip p vm vm' (λ s v. running (push_value v (literal_value s)))
        (push-Stays literal_value),
    with_string-ip p vm vm' (λ s v. running (push_value v (ident_value s)))
        (push-Stays ident_value),
    with_string-ip p vm vm' (λ s v. resume v (assign_slot s (data_of v)))
        (λ s. resume-Stays (λ v. assign_slot s (data_of v))),
    with_string-ip p vm vm' (λ s v. resume v (vm_execute_operator fp s (data_of v)))
        (λ s. resume-Stays (λ v. vm_execute_operator fp s (data_of v))),
    with_payload-ip p vm vm' (λ n v. resume v (make_group n (data_of v)))
        (λ n. resume-Stays (λ v. make_group n (data_of v))),
    with_payload-ip p vm vm' (λ n v. running (vm_call v n)) call-Stays,
  )

  -- A round that goes on has moved the instruction pointer forward, within the code.
  pub step-ip :
      (vm vm' : Vm) → step fp p vm ≡ running vm' → (vm.ip < vm'.ip) × (vm'.ip ≤ length p.code)
  unfolding step
  step-ip vm vm' h = elim (Option-cases (get_elem? p.code vm.ip)) [
    | inl out ↦ cc (rw (out, step) at h)
    | inr (op, e) ↦
        let moved =
          dispatch-ip op (record vm { ip = vm.ip + 1 }) vm'
            (omega (arith, get_elem?-lt p.code vm.ip e)) (rw (e, step) at h) in
        (omega arith, moved.1)
  ]

  run_ends :
      (fuel : ℕ) (vm : Vm)
      → length p.code < fuel + vm.ip
      → vm.ip ≤ length p.code
      → (s : Step) × (run fp p fuel vm ≡ some s) × IsStop s
  unfolding run
  run_ends zero vm h b = absurd (omega arith)
  run_ends (suc fuel) vm h b = elim (Step-cases (step fp p vm)) [
    | inl (vm', e) ↦
        let moved = step-ip vm vm' e in
        let (s, ends, stop) = run_ends fuel vm' (omega arith) moved.1 in (s, rw (e, run) ends, stop)
    | inr (inl (n, e)) ↦ (exited n, rw (e, run), tt)
    | inr (inr (w, e)) ↦ (error w, rw (e, run), tt)
  ]

  -- With more fuel than the program has bytes, the interpreter ends with an exit code or an error,
  -- whatever the bytes are.
  pub execute_ends :
      (fuel : ℕ) → length p.code < fuel → (s : Step) × (execute fp p fuel ≡ some s) × IsStop s
  unfolding execute vm_init_call_frame
  execute_ends fuel h = elim (Bool-cases (length p.code == 0)) [
    | inl empty ↦ (error invalid_vm_state, rw empty, tt)
    | inr code ↦ rw code (run_ends fuel _ (omega arith) (omega arith))
  ]
