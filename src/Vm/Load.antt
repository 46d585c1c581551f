-- ===== src/Vm/Load.antt =====
-- `morphl_vm_program_load` (src/runtime/vm_runtime.c) on the bytes of the file. Reading the file
-- is left out, and allocation is taken to succeed. A string's NUL terminator is not part of it.
pub mod Fields
pub mod RoundTrip
use morphl.Prelude.{
  ℕ, zero, suc, ◌+◌, ◌*◌, ◌^◌, Bool, ◌||◌, not, List, [], ◌∷◌, length, take, drop, Bytes, bytes_eq,
  ltb, if◌then◌else◌, Outcome, ok, failed, ◌>>=◌,
}
use morphl.Vm.Image.{magic}

pub record Program : Type 0 where
  pub version_major : ℕ
  pub version_minor : ℕ
  pub strings : List Bytes
  pub code : Bytes

-- `bytes[off]`, read behind a bounds test.
abbrev pub byte_at : Bytes → ℕ → ℕ
byte_at [] i = 0
byte_at (b ∷ bs) zero = b
byte_at (b ∷ bs) (suc i) = byte_at bs i

-- Bytes are below 256, so `|` of shifted bytes is a sum.
unfoldable pub u16_at : Bytes → ℕ → ℕ
u16_at bytes off = byte_at bytes off + byte_at bytes (off + 1) * 2 ^ 8

unfoldable pub u32_at : Bytes → ℕ → ℕ
u32_at bytes off =
    byte_at bytes off
    + byte_at bytes (off + 1) * 2 ^ 8
    + byte_at bytes (off + 2) * 2 ^ 16
    + byte_at bytes (off + 3) * 2 ^ 24

-- A value and the offset behind it.
unfoldable pub read_u16 : Bytes → ℕ → Outcome (ℕ × ℕ)
read_u16 bytes off = if ltb (length bytes) (off + 2) then failed else ok (u16_at bytes off, off + 2)

unfoldable pub read_u32 : Bytes → ℕ → Outcome (ℕ × ℕ)
read_u32 bytes off = if ltb (length bytes) (off + 4) then failed else ok (u32_at bytes off, off + 4)

-- One round of the loop over the strings.
unfoldable pub read_string : Bytes → ℕ → Outcome (Bytes × ℕ)
read_string bytes off = read_u32 bytes off >>= λ r.
    if ltb (length bytes) (r.1 + r.0) then failed else ok (take r.0 (drop r.1 bytes), r.1 + r.0)

unfoldable pub read_strings : ℕ → Bytes → ℕ → Outcome (List Bytes × ℕ)
read_strings zero bytes off = ok ([], off)
read_strings (suc n) bytes off =
    read_string bytes off >>= λ s. read_strings n bytes s.1 >>= λ rest. ok (s.0 ∷ rest.0, rest.1)

-- The loop that skips the metadata.
unfoldable pub skip_metadata : ℕ → Bytes → ℕ → Outcome ℕ
skip_metadata zero bytes off = ok off
skip_metadata (suc n) bytes off =
    read_u32 bytes off >>= λ key. read_u32 bytes key.1 >>= λ value. skip_metadata n bytes value.1

unfoldable pub has_magic : Bytes → Bool
has_magic bytes = not (ltb (length bytes) 4 || not (bytes_eq (take 4 bytes) magic))

-- The code section, the last one read.
unfoldable pub read_code : Bytes → ℕ → Outcome Bytes
read_code bytes off = read_u32 bytes off >>= λ n.
    if ltb (length bytes) (n.1 + n.0) then failed else ok (take n.0 (drop n.1 bytes))

unfoldable pub program_load : Bytes → Outcome Program
program_load bytes = if not (has_magic bytes) then failed else do
  major ← read_u16 bytes 4
  minor ← read_u16 bytes major.1
  reserved ← read_u32 bytes minor.1
  string_count ← read_u32 bytes reserved.1
  strings ← read_strings string_count.0 bytes string_count.1
  metadata_count ← read_u32 bytes strings.1
  off ← skip_metadata metadata_count.0 bytes metadata_count.1
  code ← read_code bytes off
  ok (record { version_major = major.0; version_minor = minor.0; strings = strings.0; code = code })
