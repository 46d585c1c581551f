-- ===== src/Parser.antt =====
-- src/parser/: the operator registry, the parser of builtin expressions, and the parser for loaded
-- grammars.
pub mod Operators
pub mod Builtin
pub mod Grammar
pub mod Scoped
