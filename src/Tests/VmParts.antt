-- ===== src/Tests/VmParts.antt =====
-- The parts of src/backend/vm.c and src/runtime/vm_runtime.c on small inputs.
use morphl.Prelude.{
  ℕ, ◌+◌, ◌<◌, ◌≤◌, ◌≡◌, refl, false, none, some, [], ◌∷◌, codes, bytes_eq, c_string, if◌then◌else◌,
  ok, ◌>>=◌, arith,
}
use morphl.Vm.Op
use morphl.Vm.Emit.{VmEmitter, truncated}
use morphl.Vm.Codec.{VmBytes}
use morphl.Vm.Image.{push_image}
use morphl.Vm.Image.Layout.{layout, push_image-layout}
use morphl.Vm.Load.{Program, program_load}
use morphl.Vm.Load.RoundTrip.{Fits, program_load-push_image}
use morphl.Vm.Value.{
  DoubleOps, null_value, literal_value, vm_value_copy, vm_set_slot, slot_value, vm_stack_push,
}
use morphl.Vm.Value.Slots.{slot_value-vm_set_slot}
use morphl.Vm.Machine.{Vm, Step, execute, dispatch, step}
use morphl.Vm.Machine.Progress.{IsStop, execute_ends, step-ip}

no_digits : DoubleOps ℕ
no_digits = record {
  strtod = λ s. (0, 0, false);
  format_g17 = λ n. none;
  add = λ a b. a + b;
  below_zero = λ n. false;
  above_255 = λ n. false;
  to_int = λ n. n;
}

-- One string, one metadata entry, and the code `PUSH_NULL; HALT`.
abbrev small_emitter : VmEmitter
small_emitter = record {
  strings = record { items = truncated (codes "ab") ∷ []; capacity = 1 };
  metadata = record { items = record { key_index = 0; value_index = 0 } ∷ []; capacity = 1 };
  code = record { bytes = Op.push_null ∷ Op.halt ∷ []; capacity = 2 };
  interns = none;
}

small_emitter-Fits : Fits small_emitter
small_emitter-Fits = record {
  string_count = omega arith;
  strings = (refl, omega arith, tt);
  metadata_count = omega arith;
  metadata = (omega arith, omega arith, tt);
  code = omega arith;
}

program_load-push_image_example :
    (push_image small_emitter >>= λ f. program_load f.bytes)
    ≡ ok (record {
      version_major = 1;
      version_minor = 0;
      strings = codes "ab" ∷ [];
      code = Op.push_null ∷ Op.halt ∷ [];
    })
program_load-push_image_example =
    program_load-push_image small_emitter small_emitter-Fits (omega arith)

push_image-layout_example :
    (f : VmBytes) × (push_image small_emitter ≡ ok f) × (f.bytes ≡ layout small_emitter)
push_image-layout_example = push_image-layout small_emitter (omega arith)

abbrev small_program : Program
small_program = record {
  version_major = 1;
  version_minor = 0;
  strings = [];
  code = Op.push_null ∷ Op.halt ∷ [];
}

execute_ends_example : (s : Step) × (execute no_digits small_program 3 ≡ some s) × IsStop s
execute_ends_example = execute_ends no_digits small_program 3 (omega arith)

abbrev at_ip : ℕ → Vm
at_ip n = record { ip = n; stack = []; slots = []; call_frames = [] }

step-ip_example : (0 < 1) × (1 ≤ 2)
unfolding step dispatch vm_stack_push vm_value_copy
step-ip_example =
    step-ip no_digits small_program (at_ip 0)
      (record { ip = 1; stack = null_value ∷ []; slots = []; call_frames = [] }) refl

abbrev main_only : Vm
main_only = record {
  ip = 1;
  stack = null_value ∷ [];
  slots = [];
  call_frames =
      record {
        func_index = 0;
        ip = 0;
        base = 0;
        local_base = 0;
        return_ip = 0;
        return_base = 0;
        return_local_base = 0;
        scope_depth = 0;
      }
      ∷ [];
}

slot_value-vm_set_slot_example :
    slot_value (vm_set_slot [] (codes "x") (literal_value (codes "4"))) (codes "x") null_value
    ≡ (if bytes_eq (codes "x") (codes "x") then literal_value (codes "4") else null_value)
unfolding bytes_eq c_string vm_value_copy slot_value
slot_value-vm_set_slot_example =
    slot_value-vm_set_slot [] (codes "x") (codes "x") (literal_value (codes "4")) null_value
