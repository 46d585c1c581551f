-- ===== src/Tests.antt =====
-- Runs at concrete inputs.
mod VmPrograms
mod VmParts
mod Interning
mod Lexing
mod Typing
mod Parsing
mod Grammars
mod Loading
mod Scoped
mod Inference
