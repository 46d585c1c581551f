-- ===== src/Util/Intern.antt =====
-- The intern table of src/util/util.c: an open-addressing table of strings (`slots`) beside the
-- strings in order of arrival (`index`). `cap` is the length of `slots`, and `len` that of `index`.
-- A slot whose `ptr` is NULL is `none`. `calloc` and `realloc` are taken to succeed; the arena's
-- fixed capacity is modelled, and running out of it is an interning failure (symbol 0). To store a string
-- the source copies the byte behind it as well, and puts a NUL in its place; here that byte is taken
-- to be readable.
pub mod Probing
pub mod Rehash
pub mod Invariant
pub mod Ids
use Prim.Native.Nat.{bit_xor}
use morphl.Prelude.{
  ℕ, zero, suc, ◌+◌, ◌*◌, ◌%◌, ◌^◌, Bool, List, [], ◌∷◌, ◌++◌, Option, none, some, length,
  get_elem?, set, replicate, Bytes, bytes_eq, leb, ◌==◌, if◌then◌else◌, Outcome, ok, fault, ◌>>=◌,
}
use morphl.Util.Arena.{Arena, arena_init, arena_push}

pub record InternTable : Type 0 where
  pub slots : List (Option Bytes)
  pub arena : Arena
  pub index : List Bytes

-- `hash_str`, with the constants of the source.
hash_onto : ℕ → Bytes → ℕ
hash_onto h [] = h
hash_onto h (c ∷ cs) = hash_onto (bit_xor h c * 1099511628211 % 2 ^ 64) cs

pub hash_str : Bytes → ℕ
hash_str = hash_onto 1469598103934665603

-- `h & (cap - 1)`; the capacity is a power of two.
abbrev pub bucket : ℕ → ℕ → ℕ
bucket h cap = h % cap

-- The loop of `intern_table_grow` that looks for a free slot. `cap` rounds visit every slot.
pub free_slot : ℕ → List (Option Bytes) → ℕ → Outcome ℕ
free_slot zero slots idx = fault
free_slot (suc fuel) slots idx = elim (get_elem? slots idx) [
  | none ↦ fault
  | some none ↦ ok idx
  | some (some _) ↦ free_slot fuel slots ((idx + 1) % length slots)
]

-- The loop of `intern_table_grow` over the old slots.
pub rehash : List (Option Bytes) → List (Option Bytes) → Outcome (List (Option Bytes))
rehash [] fresh = ok fresh
rehash (none ∷ old) fresh = rehash old fresh
rehash (some s ∷ old) fresh =
    free_slot (length fresh) fresh (bucket (hash_str s) (length fresh)) >>= λ idx.
    rehash old (set fresh idx (some s))

abbrev pub grown_cap : ℕ → ℕ
grown_cap cap = if cap == 0 then 64 else cap * 2

unfoldable pub intern_table_grow : InternTable → Outcome InternTable
unfolding rehash free_slot
intern_table_grow t = do
  slots ← rehash t.slots (replicate (grown_cap (length t.slots)) none)
  ok (record t { slots = slots })

unfoldable pub interns_new : Outcome InternTable
unfolding intern_table_grow arena_init
interns_new = intern_table_grow (record { slots = []; arena = arena_init 65536; index = [] })

-- The two ways out of the probing loop of `interns_intern`.
pub data Probe : Type 0 where
  vacant : ℕ → Probe
  found : ℕ → Probe

pub probe : ℕ → List (Option Bytes) → Bytes → ℕ → Outcome Probe
probe zero slots s idx = fault
probe (suc fuel) slots s idx = elim (get_elem? slots idx) [
  | none ↦ fault
  | some none ↦ ok (vacant idx)
  | some (some held) ↦
      let next = probe fuel slots s ((idx + 1) % length slots) in
      if bytes_eq held s then ok (found idx) else next
]

-- A symbol has 32 bits.
abbrev pub sym_of : ℕ → ℕ
sym_of id = id % 2 ^ 32

-- The scan of `index` for the stable id; 0 when it is not there.
pub stable_id : List Bytes → ℕ → Bytes → ℕ
stable_id [] i s = 0
stable_id (x ∷ xs) i s = if bytes_eq x s then sym_of (i + 1) else stable_id xs (i + 1) s

-- What `interns_intern` does at the slot where the probing loop ends.
pub settle : InternTable → Bytes → Probe → ℕ × InternTable
settle t s (vacant idx) = elim (arena_push t.arena (length s + 1)) [
  | none ↦ (0, t)
  | some (_, arena) ↦ (
    sym_of (length t.index + 1),
    record { slots = set t.slots idx (some s); arena = arena; index = t.index ++ (s ∷ []) },
  )
]
settle t s (found idx) = elim (get_elem? t.slots idx) [
  | some (some held) ↦ (stable_id t.index 0 held, t)
  | _ ↦ (0, t)
]

abbrev pub needs_growth : InternTable → Bool
needs_growth t = leb (length t.slots) (length t.index * 2)

pub intern_text : InternTable → Bytes → Outcome (ℕ × InternTable)
intern_text t s = do
  room ← (if needs_growth t then intern_table_grow t else ok t)
  end ← probe (length room.slots) room.slots s (bucket (hash_str s) (length room.slots))
  ok (settle room s end)

unfoldable pub interns_intern : InternTable → Option Bytes → Outcome (ℕ × InternTable)
unfolding intern_text intern_table_grow probe settle stable_id hash_str hash_onto
interns_intern t none = ok (0, t)
interns_intern t (some s) = intern_text t s

-- `sym - 1` is in range exactly if `index` has it.
unfoldable pub interns_lookup : InternTable → ℕ → Option Bytes
interns_lookup t zero = none
interns_lookup t (suc id) = get_elem? t.index id
