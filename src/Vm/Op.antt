-- ===== src/Vm/Op.antt =====
-- `enum VmOpcode` of include/backend/vm.h.
use morphl.Prelude.{ℕ}

abbrev pub halt : ℕ
halt = 0x00

abbrev pub push_null : ℕ
push_null = 0x01

abbrev pub push_literal : ℕ
push_literal = 0x02

abbrev pub push_ident : ℕ
push_ident = 0x03

abbrev pub make_group : ℕ
make_group = 0x04

abbrev pub set_slot : ℕ
set_slot = 0x05

abbrev pub operator : ℕ
operator = 0x06

abbrev pub ret : ℕ
ret = 0x10

abbrev pub call : ℕ
call = 0x11

abbrev pub node_meta : ℕ
node_meta = 0xe0
