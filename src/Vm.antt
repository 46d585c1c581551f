-- ===== src/Vm.antt =====
-- The VM backend (src/backend/vm.c) and the VM runtime (src/runtime/vm_runtime.c).
pub mod Op
pub mod Codec
pub mod Emit
pub mod Image
pub mod Load
pub mod Value
pub mod Machine
pub mod Meaning
pub mod Correct
