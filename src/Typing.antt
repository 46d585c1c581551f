-- ===== src/Typing.antt =====
-- src/typing/: types and the type context.
pub mod Types
pub mod Context
pub mod Inference
