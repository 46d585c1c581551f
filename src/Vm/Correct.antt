-- ===== src/Vm/Correct.antt =====
-- The code that src/backend/vm.c emits, run by src/runtime/vm_runtime.c, does what the tree means.
pub mod Emits
pub mod Steps
pub mod Does
pub mod Sound
pub mod Room
pub mod Total
pub mod Program
pub mod Compiled
