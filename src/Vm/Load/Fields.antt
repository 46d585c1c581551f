-- ===== src/Vm/Load/Fields.antt =====
-- Reading a field at an offset gives back what stands there.
use Prim.Native.Nat.add
use native.Mathlib.Nat.{add-zero}
use morphl.Prelude.{
  ℕ, ◌+◌, ◌^◌, ◌<◌, ◌≡◌, refl, sym, ap, ◌∙◌, false, [], ◌∷◌, ◌++◌, append_assoc, length,
  length-append, drop, take-append_length, take-length, drop-append_length, Bytes, ltb, le→ltb, ok,
  arith,
}
use morphl.Vm.Codec.{u16_le, u32_le}
use morphl.Vm.Load.{byte_at, u16_at, u32_at, read_u16, read_u32, read_string, read_code}

-- `rest` is what `bytes` holds from `off` on.
pub record From (bytes : Bytes) (off : ℕ) (rest : Bytes) : Type 0 where
  pub before : Bytes
  pub splits : bytes ≡ before ++ rest
  pub off_is : off ≡ length before

byte_at-append :
    (pre rest : Bytes) (k : ℕ) → byte_at (pre ++ rest) (length pre + k) ≡ byte_at rest k
byte_at-append [] rest k = rw add.zero
byte_at-append (x ∷ pre) rest k = rw add.suc (byte_at-append pre rest k)

module _ {bytes : Bytes} {off : ℕ} where
  pub From-skip :
      (bs : Bytes) {rest : Bytes} → From bytes off (bs ++ rest) → From bytes (off + length bs) rest
  From-skip bs {rest} f = record {
    before = f.before ++ bs;
    splits = f.splits ∙ sym (append_assoc f.before bs rest);
    off_is = omega (arith, f.off_is, length-append {0} f.before bs);
  }

  From-byte_at :
      {rest : Bytes} (k : ℕ) → From bytes off rest → byte_at bytes (off + k) ≡ byte_at rest k
  From-byte_at {rest} k f = rw (f.splits, f.off_is) (byte_at-append f.before rest k)

  pub From-length : {rest : Bytes} → From bytes off rest → length bytes ≡ off + length rest
  From-length {rest} f =
      omega (arith, f.off_is, ap length f.splits, length-append {0} f.before rest)

  pub u32_at-From :
      {v : ℕ} {rest : Bytes} → From bytes off (u32_le v ++ rest) → v < 2 ^ 32 → u32_at bytes off ≡ v
  unfolding u32_at
  u32_at-From {v} {rest} f h = omega (
    arith,
    rw add-zero at (From-byte_at 0 f),
    From-byte_at 1 f,
    From-byte_at 2 f,
    From-byte_at 3 f,
  )

  pub read_u16-From :
      {v : ℕ} {rest : Bytes}
      → From bytes off (u16_le v ++ rest)
      → v < 2 ^ 16
      → (read_u16 bytes off ≡ ok (v, off + 2)) × From bytes (off + 2) rest
  unfolding read_u16 u16_at
  read_u16-From {v} f h =
      let value : u16_at bytes off ≡ v =
        omega (arith, rw add-zero at (From-byte_at 0 f), From-byte_at 1 f) in
      (
        rw (le→ltb (length bytes) (off + 2) (omega (arith, From-length f)))
            (ap (λ x. ok (x, off + 2)) value),
        From-skip (u16_le v) f,
      )

  pub read_u32-From :
      {v : ℕ} {rest : Bytes}
      → From bytes off (u32_le v ++ rest)
      → v < 2 ^ 32
      → (read_u32 bytes off ≡ ok (v, off + 4)) × From bytes (off + 4) rest
  unfolding read_u32
  read_u32-From {v} f h = (
    rw (le→ltb (length bytes) (off + 4) (omega (arith, From-length f)))
        (ap (λ x. ok (x, off + 4)) (u32_at-From f h)),
    From-skip (u32_le v) f,
  )

  pub From-drop : {rest : Bytes} → From bytes off rest → drop off bytes ≡ rest
  From-drop {rest} f = rw (f.splits, f.off_is) (drop-append_length f.before rest)

  From-end :
      (bs rest : Bytes) → From bytes off (bs ++ rest) → ltb (length bytes) (off + length bs) ≡ false
  From-end bs rest f = le→ltb _ _ (omega (arith, From-length f, length-append {0} bs rest))

module _ {bytes : Bytes} {off : ℕ} where
  -- A length-prefixed text.
  pub read_string-From :
      (s : Bytes) {rest : Bytes}
      → From bytes off (u32_le (length s) ++ (s ++ rest))
      → length s < 2 ^ 32
      → (read_string bytes off ≡ ok (s, off + 4 + length s)) × From bytes (off + 4 + length s) rest
  unfolding read_string
  read_string-From s {rest} f h =
      let (read, f₁) = read_u32-From f h in
      (rw (read, From-end s rest f₁, From-drop f₁, take-append_length s rest) refl, From-skip s f₁)

  pub read_code-From :
      (s : Bytes)
      → From bytes off (u32_le (length s) ++ s)
      → length s < 2 ^ 32
      → read_code bytes off ≡ ok s
  unfolding read_code
  read_code-From s f h =
      let (read, f₁) = read_u32-From f h in
      rw
        (
          read,
          le→ltb (length bytes) (off + 4 + length s) (omega (arith, From-length f₁)),
          From-drop f₁,
          take-length s,
        )
        refl
