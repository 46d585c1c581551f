-- ===== src/Vm/Codec.antt =====
-- Byte buffers and little-endian fields: `vm_grow`, `bytes_push*` (src/backend/vm.c) and
-- `read_u16`, `read_u32` (src/runtime/vm_runtime.c). `realloc` is taken to succeed.
pub mod Growth
use morphl.Prelude.{
  ℕ, zero, suc, ◌+◌, ◌-◌, ◌*◌, ◌/◌, ◌%◌, ◌^◌, [], ◌∷◌, ◌++◌, length, Bytes, ltb, ◌==◌,
  if◌then◌else◌, Outcome, ok, failed, ◌>>=◌,
}

abbrev pub size_max : ℕ
size_max = 2 ^ 64 - 1

-- The doubling loop of `vm_grow`.
unfoldable pub grow_loop : ℕ → ℕ → ℕ → Outcome ℕ
grow_loop zero new_capacity min_count = failed
grow_loop (suc fuel) new_capacity min_count =
    let rest = grow_loop fuel (new_capacity * 2) min_count in
    if ltb new_capacity min_count
    then (if ltb (size_max / 2) new_capacity then failed else rest)
    else ok new_capacity

-- 65 rounds: the capacity doubles at most 63 times before it exceeds SIZE_MAX / 2.
unfoldable pub vm_grow : ℕ → ℕ → Outcome ℕ
vm_grow capacity min_count = grow_loop 65 (if capacity == 0 then 16 else capacity) min_count

pub record VmBytes : Type 0 where
  pub bytes : Bytes
  pub capacity : ℕ

abbrev pub no_bytes : VmBytes
no_bytes = record { bytes = []; capacity = 0 }

unfoldable pub bytes_push : VmBytes → Bytes → Outcome VmBytes
bytes_push b src =
    if length src == 0
    then ok b
    else let required = (length b.bytes + length src) % 2 ^ 64 in
      if ltb b.capacity required
      then (vm_grow b.capacity required >>= λ c.
          ok (record { bytes = b.bytes ++ src; capacity = c }))
      else ok (record b { bytes = b.bytes ++ src })

abbrev pub u16_le : ℕ → Bytes
u16_le v = (v % 256) ∷ (v / 2 ^ 8 % 256) ∷ []

abbrev pub u32_le : ℕ → Bytes
u32_le v = (v % 256) ∷ (v / 2 ^ 8 % 256) ∷ (v / 2 ^ 16 % 256) ∷ (v / 2 ^ 24 % 256) ∷ []

unfoldable pub bytes_push_u8 : VmBytes → ℕ → Outcome VmBytes
bytes_push_u8 b v = bytes_push b (v ∷ [])

unfoldable pub bytes_push_u16_le : VmBytes → ℕ → Outcome VmBytes
bytes_push_u16_le b v = bytes_push b (u16_le v)

unfoldable pub bytes_push_u32_le : VmBytes → ℕ → Outcome VmBytes
bytes_push_u32_le b v = bytes_push b (u32_le v)
