-- ===== src/Vm/Load/RoundTrip.antt =====
-- The loader of src/runtime/vm_runtime.c reads back what the backend of src/backend/vm.c writes.
use native.Mathlib.Nat.{mod-eq_of_lt}
use morphl.Prelude.{
  ℕ, ◌+◌, ◌^◌, ◌≤◌, ◌<◌, ◌≡◌, refl, true, List, [], ◌∷◌, ◌++◌, length, take-length, append_assoc,
  bytes_eq, Bytes, ok, ◌>>=◌, arith,
}
use morphl.Vm.Codec.{u16_le, u32_le}
use morphl.Vm.Emit.{VmString, VmMetadata, VmEmitter}
use morphl.Vm.Image.{magic, push_image}
use morphl.Vm.Image.Layout.{string_bytes, metadata_bytes, layout, push_image-layout}
use morphl.Vm.Load.{read_strings, skip_metadata, has_magic, program_load}
use morphl.Vm.Load.Fields.{From, read_u16-From, read_u32-From, read_string-From, read_code-From}

abbrev pub AllFit : List VmString → Type 0
AllFit [] = Unit
AllFit (s ∷ ss) = (s.len ≡ length s.ptr) × (length s.ptr < 2 ^ 32) × AllFit ss

abbrev pub AllSmall : List VmMetadata → Type 0
AllSmall [] = Unit
AllSmall (m ∷ ms) = (m.key_index < 2 ^ 32) × (m.value_index < 2 ^ 32) × AllSmall ms

-- No count or length of the emitter's state is cut off when it is written as 32 bits.
pub record Fits (e : VmEmitter) : Type 0 where
  pub string_count : length e.strings.items < 2 ^ 32
  pub strings : AllFit e.strings.items
  pub metadata_count : length e.metadata.items < 2 ^ 32
  pub metadata : AllSmall e.metadata.items
  pub code : length e.code.bytes < 2 ^ 32

abbrev pub texts : List VmString → List Bytes
texts [] = []
texts (s ∷ ss) = s.ptr ∷ texts ss

string_bytes-cons :
    (s : VmString) (ss : List VmString) (rest : Bytes)
    → s.len ≡ length s.ptr
    → string_bytes (s ∷ ss) ++ rest ≡ u32_le (length s.ptr) ++ (s.ptr ++ (string_bytes ss ++ rest))
string_bytes-cons s ss rest e = rw (e, take-length, append_assoc) refl

read_strings-From :
    {bytes : Bytes} (ss : List VmString) (off : ℕ) (rest : Bytes)
    → From bytes off (string_bytes ss ++ rest)
    → AllFit ss
    → (off' : ℕ) × (read_strings (length ss) bytes off ≡ ok (texts ss, off')) × From bytes off' rest
unfolding read_strings
read_strings-From [] off rest f fit = (off, refl, f)
read_strings-From (s ∷ ss) off rest f fit =
    let (read, f₁) = read_string-From s.ptr (rw (string_bytes-cons s ss rest fit.0) at f) fit.1 in
    let (off', others, f₂) = read_strings-From ss (off + 4 + length s.ptr) rest f₁ fit.2 in
    (off', rw (read, others) refl, f₂)

skip_metadata-From :
    {bytes : Bytes} (ms : List VmMetadata) (off : ℕ) (rest : Bytes)
    → From bytes off (metadata_bytes ms ++ rest)
    → AllSmall ms
    → (off' : ℕ) × (skip_metadata (length ms) bytes off ≡ ok off') × From bytes off' rest
unfolding skip_metadata
skip_metadata-From [] off rest f fit = (off, refl, f)
skip_metadata-From (m ∷ ms) off rest f fit =
    let (key, f₁) = read_u32-From f fit.0 in
    let (value, f₂) = read_u32-From f₁ fit.1 in
    let (off', skipped, f₃) = skip_metadata-From ms (off + 4 + 4) rest f₂ fit.2 in
    (off', rw (key, value) skipped, f₃)

abbrev sections : List VmString → List VmMetadata → Bytes → Bytes
sections ss ms code =
    u32_le (length ss)
    ++ (string_bytes ss
        ++ (u32_le (length ms) ++ (metadata_bytes ms ++ (u32_le (length code) ++ code))))

load_sections :
    {bytes : Bytes} (ss : List VmString) (ms : List VmMetadata) (code : Bytes)
    → has_magic bytes ≡ true
    → From bytes 4 (u16_le 1 ++ (u16_le 0 ++ (u32_le 0 ++ sections ss ms code)))
    → length ss < 2 ^ 32
    → AllFit ss
    → length ms < 2 ^ 32
    → AllSmall ms
    → length code < 2 ^ 32
    → program_load bytes
      ≡ ok (record { version_major = 1; version_minor = 0; strings = texts ss; code = code })
unfolding program_load
load_sections ss ms code marked start hs fs hm fm hc =
    let (r₁, f₁) = read_u16-From {v = 1} start (omega arith) in
    let (r₂, f₂) = read_u16-From {v = 0} f₁ (omega arith) in
    let (r₃, f₃) = read_u32-From {v = 0} f₂ (omega arith) in
    let (r₄, f₄) = read_u32-From {v = length ss} f₃ hs in
    let (o₅, r₅, f₅) = read_strings-From ss _ _ f₄ fs in
    let (r₆, f₆) = read_u32-From {v = length ms} f₅ hm in
    let (o₇, r₇, f₇) = skip_metadata-From ms _ _ f₆ fm in
    let r₈ = read_code-From code f₇ hc in rw (marked, r₁, r₂, r₃, r₄, r₅, r₆, r₇, r₈) refl

-- A file with the documented layout loads as version 1.0, with the strings and the code of the
-- emitter, if no count or length in it exceeds 32 bits.
pub program_load-layout :
    (e : VmEmitter)
    → Fits e
    → program_load (layout e)
      ≡ ok (record {
        version_major = 1;
        version_minor = 0;
        strings = texts e.strings.items;
        code = e.code.bytes;
      })
unfolding has_magic bytes_eq
program_load-layout e fit =
    rw (mod-eq_of_lt fit.string_count, mod-eq_of_lt fit.metadata_count, mod-eq_of_lt fit.code)
      (load_sections e.strings.items e.metadata.items e.code.bytes (ground arith)
        (record { before = magic; splits = refl; off_is = refl }) fit.string_count fit.strings
        fit.metadata_count fit.metadata fit.code)

-- What the backend writes for an emitter's state, the loader reads back as its strings and its
-- code, if no count or length exceeds 32 bits and the file is at most 2^63 bytes long.
pub program_load-push_image :
    (e : VmEmitter)
    → Fits e
    → length (layout e) ≤ 2 ^ 63
    → (push_image e >>= λ f. program_load f.bytes)
      ≡ ok (record {
        version_major = 1;
        version_minor = 0;
        strings = texts e.strings.items;
        code = e.code.bytes;
      })
program_load-push_image e fit h =
    let (f, pushed, bytes_are) = push_image-layout e h in
    rw (pushed, bytes_are) (program_load-layout e fit)
