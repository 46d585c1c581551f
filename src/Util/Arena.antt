-- ===== src/Util/Arena.antt =====
-- The arena of src/util/util.c. An address is an offset from `base`. What is stored behind an
-- address is kept by value in the structures that hold the pointer. `arena_push` also reads the `n`
-- bytes that it copies: that they may be read is the caller's affair, and is not modelled.
use morphl.Prelude.{
  ℕ, ◌+◌, ◌%◌, ◌^◌, ◌<◌, ◌≤◌, ◌≡◌, ap, Option, none, some, ltb, if◌then◌else◌, arith,
}
use native.Mathlib.Nat.{mod-eq_of_lt}

pub record Arena : Type 0 where
  pub cap : ℕ
  pub off : ℕ

-- The sum is one of sizes of objects, which are below 2^63, so it does not wrap in a `size_t`.
unfoldable pub arena_push : Arena → ℕ → Option (ℕ × Arena)
arena_push a n = if ltb a.cap (a.off + n) then none else some (a.off, record a { off = a.off + n })

-- The test of the source, with the sum in a `size_t`, is the one above for sizes of objects.
arena_push-size_t :
    (a : Arena) (n : ℕ)
    → a.off ≤ a.cap
    → a.cap < 2 ^ 63
    → n < 2 ^ 63
    → ltb a.cap ((a.off + n) % 2 ^ 64) ≡ ltb a.cap (a.off + n)
arena_push-size_t a n within small size =
    ap (ltb a.cap) (mod-eq_of_lt (omega (arith, within, small, size)))

unfoldable pub arena_init : ℕ → Arena
arena_init cap = record { cap = cap; off = 0 }
