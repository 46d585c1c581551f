-- ===== src/Vm/Correct/Room.antt =====
-- The emitting functions of src/backend/vm.c succeed while there is room below 2^32.
use native.Mathlib.Nat.{mod-eq_of_lt}
use morphl.Prelude.{
  ℕ, suc, ◌+◌, ◌%◌, ◌^◌, ◌<◌, ◌≤◌, ◌≡◌, refl, Bool, true, false, Option, Option-cases, Bool-cases,
  inl, inr, List, [], ◌∷◌, ◌++◌, length, length-append, Bytes, ◌==◌, if◌then◌else◌, Outcome, ok,
  ◌>>=◌, arith,
}
use morphl.Util.Intern.{InternTable}
use morphl.Vm.Codec.{bytes_push, bytes_push_u8, bytes_push_u32_le, u32_le}
use morphl.Vm.Codec.Growth.{vm_grow_lem, bytes_push-eq}
use morphl.Vm.Emit.{
  VmString, VmStringTable, VmMetadata, VmEmitter, find_string, truncated, table_capacity,
  string_table_add, metadata_add, emit_opcode, push_u32, emit_opcode_u32, emit_named, emit_entry,
}
use morphl.Vm.Load.RoundTrip.{AllFit, AllSmall}

-- The bytes that a string table takes in the file.
abbrev pub strings_size : List VmString → ℕ
strings_size [] = 0
strings_size (s ∷ ss) = 4 + length s.ptr + strings_size ss

-- The emitter has `entries` metadata entries, and `r` more bytes keep all its sizes below 2^32.
pub record Room (interns : Option InternTable) (entries : ℕ) (e : VmEmitter) (r : ℕ) : Type 0 where
  pub size : length e.code.bytes + strings_size e.strings.items + r < 2 ^ 32
  pub fit : AllFit e.strings.items
  pub small : AllSmall e.metadata.items
  pub count : length e.metadata.items ≡ entries
  pub same_interns : e.interns ≡ interns

strings_size-append :
    (xs ys : List VmString) → strings_size (xs ++ ys) ≡ strings_size xs + strings_size ys
strings_size-append [] ys = omega arith
strings_size-append (x ∷ xs) ys = omega (arith, strings_size-append xs ys)

pub length-strings_size : (xs : List VmString) → length xs ≤ strings_size xs
length-strings_size [] = omega arith
length-strings_size (x ∷ xs) = omega (arith, length-strings_size xs)

AllFit-snoc :
    (xs : List VmString) (s : Bytes)
    → AllFit xs
    → length s < 2 ^ 32
    → AllFit (xs ++ (truncated s ∷ []))
AllFit-snoc [] s fit h = (mod-eq_of_lt h, h, tt)
AllFit-snoc (x ∷ xs) s fit h = (fit.0, fit.1, AllFit-snoc xs s fit.2 h)

AllSmall-snoc :
    (xs : List VmMetadata) (m : VmMetadata)
    → AllSmall xs
    → m.key_index < 2 ^ 32
    → m.value_index < 2 ^ 32
    → AllSmall (xs ++ (m ∷ []))
AllSmall-snoc [] m small h h' = (h, h', tt)
AllSmall-snoc (x ∷ xs) m small h h' = (small.0, small.1, AllSmall-snoc xs m small.2 h h')

table_capacity_ok :
    (count capacity : ℕ) → count < 2 ^ 32 → (c : ℕ) × (table_capacity count capacity ≡ ok c)
unfolding table_capacity
table_capacity_ok count capacity h = elim (Bool-cases (count == capacity)) [
  | inl full ↦
      let (c, grown, _) = vm_grow_lem capacity (count + 1) (omega (arith, h)) in (c, rw full grown)
  | inr free ↦ (capacity, rw free refl)
]

module _ (interns : Option InternTable) (entries : ℕ) where
  -- The emission goes on, with `r` bytes of room left.
  abbrev pub Goes : Outcome VmEmitter → ℕ → Type 0
  Goes m r = (e : VmEmitter) × (m ≡ ok e) × Room interns entries e r

  pub Goes-bind :
      (m : Outcome VmEmitter) (f : VmEmitter → Outcome VmEmitter) (mid r : ℕ)
      → Goes m mid
      → ((e : VmEmitter) → Room interns entries e mid → Goes (f e) r)
      → Goes (m >>= f) r
  Goes-bind m f mid r (e, runs, room) later =
      let (e', runs', room') = later e room in (e', rw runs runs', room')

  pub if-Goes :
      (b : Bool) (x y : Outcome VmEmitter) (r : ℕ)
      → (b ≡ true → Goes x r)
      → (b ≡ false → Goes y r)
      → Goes (if b then x else y) r
  if-Goes true x y r f g = f refl
  if-Goes false x y r f g = g refl

  pub Room-le :
      (e : VmEmitter) (m r : ℕ) → r ≤ m → Room interns entries e m → Room interns entries e r
  Room-le e m r h room = record {
    size = omega (arith, h, room.size);
    fit = room.fit;
    small = room.small;
    count = room.count;
    same_interns = room.same_interns;
  }

  pub Goes-le : (x : Outcome VmEmitter) (m r : ℕ) → r ≤ m → Goes x m → Goes x r
  Goes-le x m r h (e, runs, room) = (e, runs, Room-le e m r h room)

  code-Goes :
      (e : VmEmitter) (bs : Bytes) (r : ℕ)
      → Room interns entries e (length bs + r)
      → Goes (bytes_push e.code bs >>= λ c. ok (record e { code = c })) r
  code-Goes e bs r room =
      let (c, pushed) = bytes_push-eq e.code bs (omega (arith, room.size)) in
      (
        record e { code = record { bytes = e.code.bytes ++ bs; capacity = c } },
        rw pushed refl,
        record {
          size = omega (arith, room.size, length-append {0} e.code.bytes bs);
          fit = room.fit;
          small = room.small;
          count = room.count;
          same_interns = room.same_interns;
        },
      )

  pub emit_opcode-Goes :
      (e : VmEmitter) (op r : ℕ) → Room interns entries e (1 + r) → Goes (emit_opcode e op) r
  unfolding emit_opcode bytes_push_u8
  emit_opcode-Goes e op r room = code-Goes e (op ∷ []) r room

  pub push_u32-Goes :
      (e : VmEmitter) (v r : ℕ) → Room interns entries e (4 + r) → Goes (push_u32 e v) r
  unfolding push_u32 bytes_push_u32_le
  push_u32-Goes e v r room = code-Goes e (u32_le v) r room

  pub emit_opcode_u32-Goes :
      (e : VmEmitter) (op v r : ℕ)
      → Room interns entries e (5 + r)
      → Goes (emit_opcode_u32 e op v) r
  unfolding emit_opcode_u32
  emit_opcode_u32-Goes e op v r room =
      Goes-bind (emit_opcode e op) _ (4 + r) r
        (emit_opcode-Goes e op (4 + r) (Room-le e (5 + r) (1 + (4 + r)) (omega arith) room))
        (λ e' room'. push_u32-Goes e' v r room')

  -- Adding a text keeps the room but for its length and four bytes, and gives a 32-bit index.
  pub string_table_add-Room :
      (e : VmEmitter) (s : Bytes) (r : ℕ)
      → Room interns entries e (4 + length s + r)
      → (i : ℕ) × (table : VmStringTable) × (string_table_add e.strings s ≡ ok (i, table))
        × (i < 2 ^ 32)
        × Room interns entries (record e { strings = table }) r
  unfolding string_table_add
  string_table_add-Room e s r room = elim (Option-cases (find_string e.strings.items 0 s)) [
    | inr (i, there) ↦ (
      i % 2 ^ 32,
      e.strings,
      rw (there, string_table_add) refl,
      omega arith,
      Room-le e (4 + length s + r) r (omega arith) room,
    )
    | inl new ↦
        let few : length e.strings.items < 2 ^ 32 =
          omega (arith, room.size, length-strings_size e.strings.items) in
        let (c, roomy) = table_capacity_ok (length e.strings.items) e.strings.capacity few in
        (
          length e.strings.items % 2 ^ 32,
          record { items = e.strings.items ++ (truncated s ∷ []); capacity = c },
          rw (new, roomy, string_table_add) refl,
          omega arith,
          record {
            size = omega (arith, room.size, strings_size-append e.strings.items (truncated s ∷ []));
            fit = AllFit-snoc e.strings.items s room.fit (omega (arith, room.size));
            small = room.small;
            count = room.count;
            same_interns = room.same_interns;
          },
        )
  ]

  pub emit_named-Goes :
      (e : VmEmitter) (op : ℕ) (s : Bytes) (r : ℕ)
      → Room interns entries e (9 + length s + r)
      → Goes (emit_named e op s) r
  unfolding emit_named
  emit_named-Goes e op s r room =
      let (i, table, added, _, room') =
        string_table_add-Room e s (5 + r)
          (Room-le e (9 + length s + r) (4 + length s + (5 + r)) (omega arith) room) in
      let (e', runs, room'') = emit_opcode_u32-Goes (record e { strings = table }) op i r room' in
      (e', rw added runs, room'')

-- A metadata entry.
pub emit_entry-Goes :
    (interns : Option InternTable) (entries : ℕ) (e : VmEmitter) (key value : Bytes) (r : ℕ)
    → entries < 2 ^ 32
    → Room interns entries e (4 + length key + (4 + length value + r))
    → Goes interns (suc entries) (emit_entry e key value) r
unfolding emit_entry metadata_add
emit_entry-Goes interns entries e key value r few room =
    let (k, table, key_added, small_k, room₁) =
      string_table_add-Room interns entries e key (4 + length value + r) room in
    let (v, table', value_added, small_v, room₂) =
      string_table_add-Room interns entries (record e { strings = table }) value r room₁ in
    let (c, roomy) =
      table_capacity_ok (length e.metadata.items) e.metadata.capacity
        (omega (arith, few, room.count)) in
    let entry : VmMetadata = record { key_index = k; value_index = v } in
    (
      record e {
        strings = table';
        metadata = record { items = e.metadata.items ++ (entry ∷ []); capacity = c };
      },
      rw (key_added, value_added, roomy) refl,
      record {
        size = room₂.size;
        fit = room₂.fit;
        small = AllSmall-snoc e.metadata.items entry room.small small_k small_v;
        count = omega (arith, room.count, length-append {0} e.metadata.items (entry ∷ []));
        same_interns = room.same_interns;
      },
    )
