-- ===== src/Vm/Codec/Growth.antt =====
-- `vm_grow` gives enough room up to 2^63 elements, so that a push appends.
use native.Mathlib.Nat.{pow-suc}
use morphl.Prelude.{
  ℕ, zero, suc, ◌+◌, ◌*◌, ◌%◌, ◌^◌, ◌≤◌, ◌≡◌, inl, inr, [], ◌∷◌, ◌++◌, append-nil, length, Bytes,
  ltb, le→ltb, Bool-cases, ok, arith,
}
use morphl.Vm.Codec.{grow_loop, vm_grow, VmBytes, bytes_push}

double-pow : (c f : ℕ) → c * 2 ^ suc f ≡ c * 2 * 2 ^ f
double-pow c f = rw pow-suc (omega arith)

grow_loop_lem :
    (f c m : ℕ)
    → m ≤ 2 ^ 63
    → 2 ^ 63 ≤ c * 2 ^ f
    → (c' : ℕ) × (grow_loop (suc f) c m ≡ ok c') × (m ≤ c')
unfolding grow_loop
grow_loop_lem zero c m h k = (c, rw (le→ltb c m (omega arith)), omega arith)
grow_loop_lem (suc f) c m h k =
    let (c', e, le) = grow_loop_lem f (c * 2) m h (omega (arith, double-pow c f)) in
    elim (Bool-cases (ltb c m)) [
      | inl small ↦ (c', ground arith, le)
      | inr enough ↦ (c, rw enough, ground arith)
    ]

-- Starting from any capacity, growth to at most 2^63 elements ends with enough room.
pub vm_grow_lem : (capacity m : ℕ) → m ≤ 2 ^ 63 → (c : ℕ) × (vm_grow capacity m ≡ ok c) × (m ≤ c)
unfolding vm_grow
vm_grow_lem capacity m h = grow_loop_lem 64 _ m h (ground arith)

pub bytes_push-eq :
    (b : VmBytes) (src : Bytes)
    → length b.bytes + length src ≤ 2 ^ 63
    → (c : ℕ) × (bytes_push b src ≡ ok (record { bytes = b.bytes ++ src; capacity = c }))
unfolding bytes_push
bytes_push-eq b [] h = (b.capacity, rw append-nil)
bytes_push-eq b (x ∷ xs) h =
    let required : ℕ = (length b.bytes + suc (length xs)) % 2 ^ 64 in
    let (c, e, _) = vm_grow_lem b.capacity required (omega arith) in
    elim (Bool-cases (ltb b.capacity required)) [
      | inl small ↦ (c, ground arith)
      | inr enough ↦ (b.capacity, ground arith)
    ]

pub bytes_push-bytes :
    (b : VmBytes) (src : Bytes) {b' : VmBytes}
    → bytes_push b src ≡ ok b'
    → b'.bytes ≡ b.bytes ++ src
unfolding bytes_push
bytes_push-bytes b [] h = rw append-nil (ground arith)
bytes_push-bytes b (x ∷ xs) h = ground arith
