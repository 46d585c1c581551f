-- ===== src/Util.antt =====
-- src/util/util.c and include/util/util.h: strings, the arena and the intern table.
pub mod Arena
pub mod Intern
use morphl.Prelude.{Bytes, Option, none, some, []}

-- `Str`: `none` is the NULL pointer with length 0.
abbrev pub Str : Type 0
Str = Option Bytes

-- The `len` bytes at `ptr`.
abbrev pub text : Str → Bytes
text none = []
text (some s) = s
