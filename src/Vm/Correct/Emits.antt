-- ===== src/Vm/Correct/Emits.antt =====
-- What each emitting function appends to the code and to the string table.
use native.Mathlib.Nat.{mod-eq_of_lt}
use morphl.Prelude.{
  ℕ, suc, ◌+◌, ◌%◌, ◌^◌, ◌<◌, ◌≡◌, refl, sym, ap, ◌∙◌, subst, true, List, [], ◌∷◌, ◌++◌, append-nil,
  append_assoc, length, get_elem?, some, length-append, get_elem?-append_left, take, take-length,
  Bytes, bytes_eq, bytes_eq_iff, Option-cases, ok, >>=-eq-ok, ok-injective, Bool-cases, inl, inr,
  arith,
}
use morphl.Vm.Codec.{VmBytes, bytes_push_u8, bytes_push_u32_le, u32_le}
use morphl.Vm.Codec.Growth.{bytes_push-bytes}
use morphl.Vm.Emit.{
  VmString, VmStringTable, VmEmitter, same_string, find_string, truncated, table_capacity,
  string_table_add, emit_opcode, push_u32, emit_opcode_u32, emit_named,
}
use morphl.Vm.Load.{Program}
use morphl.Vm.Load.Fields.{From}
use morphl.Vm.Load.RoundTrip.{AllFit, texts}

-- `e'` continues `e` by the code `bs`, and has at least its strings.
pub record Appends (e e' : VmEmitter) (bs : Bytes) : Type 0 where
  pub code : e'.code.bytes ≡ e.code.bytes ++ bs
  pub more : List VmString
  pub strings : e'.strings.items ≡ e.strings.items ++ more
  pub interns : e'.interns ≡ e.interns

pub Appends-nil : (e : VmEmitter) → Appends e e []
Appends-nil e = record {
  code = sym (append-nil e.code.bytes);
  more = [];
  strings = sym (append-nil e.strings.items);
  interns = refl;
}

pub Appends-trans :
    {e₀ e₁ e₂ : VmEmitter} {bs cs : Bytes}
    → Appends e₀ e₁ bs
    → Appends e₁ e₂ cs
    → Appends e₀ e₂ (bs ++ cs)
Appends-trans {e₀} {bs = bs} {cs = cs} a b = record {
  code = b.code ∙ rw a.code (append_assoc e₀.code.bytes bs cs);
  more = a.more ++ b.more;
  strings = b.strings ∙ rw a.strings (append_assoc e₀.strings.items a.more b.more);
  interns = b.interns ∙ a.interns;
}

-- Only the code has changed, by a push.
Appends-code :
    (e : VmEmitter) {c : VmBytes} {bs : Bytes} {e' : VmEmitter}
    → c.bytes ≡ e.code.bytes ++ bs
    → ok (record e { code = c }) ≡ ok e'
    → Appends e e' bs
Appends-code e {c} {bs} pushed same =
    subst (λ x. Appends e x bs) (ok-injective same)
      (record {
        code = pushed;
        more = [];
        strings = sym (append-nil e.strings.items);
        interns = refl;
      })

pub emit_opcode-Appends :
    (e : VmEmitter) (op : ℕ) {e' : VmEmitter} → emit_opcode e op ≡ ok e' → Appends e e' (op ∷ [])
unfolding emit_opcode bytes_push_u8
emit_opcode-Appends e op h =
    let (c, pushed, same) = >>=-eq-ok (bytes_push_u8 e.code op) _ h in
    Appends-code e (bytes_push-bytes e.code (op ∷ []) pushed) same

pub push_u32-Appends :
    (e : VmEmitter) (v : ℕ) {e' : VmEmitter} → push_u32 e v ≡ ok e' → Appends e e' (u32_le v)
unfolding push_u32 bytes_push_u32_le
push_u32-Appends e v h =
    let (c, pushed, same) = >>=-eq-ok (bytes_push_u32_le e.code v) _ h in
    Appends-code e (bytes_push-bytes e.code (u32_le v) pushed) same

pub emit_opcode_u32-Appends :
    (e : VmEmitter) (op v : ℕ) {e' : VmEmitter}
    → emit_opcode_u32 e op v ≡ ok e'
    → Appends e e' (op ∷ u32_le v)
unfolding emit_opcode_u32
emit_opcode_u32-Appends e op v h =
    let (e₁, pushed, rest) = >>=-eq-ok (emit_opcode e op) _ h in
    Appends-trans (emit_opcode-Appends e op pushed) (push_u32-Appends e₁ v rest)

-- The table holds `s` at `i`, and this index fits 32 bits if the table's size does.
pub record Holds (table : List VmString) (i : ℕ) (s : Bytes) : Type 0 where
  pub at : get_elem? (texts table) i ≡ some s
  pub within : i < length table

-- `string_table_add` gives the index of the text in the new table, which extends the old one.
pub record Added (table table' : VmStringTable) (idx : ℕ) (s : Bytes) : Type 0 where
  pub more : List VmString
  pub strings : table'.items ≡ table.items ++ more
  pub place : ℕ
  pub idx_is : idx ≡ place % 2 ^ 32
  pub holds : AllFit table'.items → Holds table'.items place s

-- Only the string table has changed.
pub Appends-strings :
    (e : VmEmitter) {table : VmStringTable} {idx : ℕ} {s : Bytes}
    → Added e.strings table idx s
    → Appends e (record e { strings = table }) []
Appends-strings e a = record {
  code = sym (append-nil e.code.bytes);
  more = a.more;
  strings = a.strings;
  interns = refl;
}

same_string-ptr :
    (item : VmString) (s : Bytes)
    → same_string item s ≡ true
    → item.len ≡ length item.ptr
    → item.ptr ≡ s
same_string-ptr item s h e =
    let lengths : item.len ≡ length s = ground arith in
    let equal : bytes_eq (take (length s) item.ptr) s ≡ true = ground arith in
    let whole : take (length s) item.ptr ≡ item.ptr = rw (sym lengths ∙ e) (take-length item.ptr) in
    sym whole ∙ (bytes_eq_iff _ s).0 equal

find_string-Holds :
    (items : List VmString) (k i : ℕ) (s : Bytes)
    → find_string items k s ≡ some i
    → AllFit items
    → (j : ℕ) × (i ≡ k + j) × Holds items j s
unfolding find_string
find_string-Holds [] k i s h fit = cc
find_string-Holds (item ∷ items) k i s h fit = elim (Bool-cases (same_string item s)) [
  | inl same ↦
      let found = rw (same, find_string) at h in
      (
        0,
        ground arith,
        record { at = ap some (same_string-ptr item s same fit.0); within = omega arith },
      )
  | inr other ↦
      let (j, e, there) =
        find_string-Holds items (k + 1) i s (rw (other, find_string) at h) fit.2 in
      (suc j, omega arith, record { at = there.at; within = omega (arith, there.within) })
]

texts-append-length : (xs : List VmString) (x : VmString) → Holds (xs ++ (x ∷ [])) (length xs) x.ptr
texts-append-length [] x = record { at = refl; within = omega arith }
texts-append-length (y ∷ xs) x =
    let there = texts-append-length xs x in
    record { at = there.at; within = omega (arith, there.within) }

pub string_table_add-Added :
    (table : VmStringTable) (s : Bytes) {idx : ℕ} {table' : VmStringTable}
    → string_table_add table s ≡ ok (idx, table')
    → Added table table' idx s
unfolding string_table_add
string_table_add-Added table s {idx} {table'} h =
    elim (Option-cases (find_string table.items 0 s)) [
      | inl missing ↦
          let (c, _, made) =
            >>=-eq-ok (table_capacity (length table.items) table.capacity) _
              (rw (missing, string_table_add) at h) in
          let new = ok-injective made in
          let items = ap (λ x. x.1.items) new in
          record {
            more = truncated s ∷ [];
            strings = sym items;
            place = length table.items;
            idx_is = sym (ap (λ x. x.0) new);
            holds = λ _.
                subst (λ x. Holds x (length table.items) s) items
                  (texts-append-length table.items (truncated s));
          }
      | inr (i, e) ↦
          let old = ok-injective (rw (e, string_table_add) at h) in
          let items = ap (λ x. x.1.items) old in
          record {
            more = [];
            strings = sym items ∙ sym (append-nil table.items);
            place = i;
            idx_is = sym (ap (λ x. x.0) old);
            holds = λ fit.
                let (j, from_zero, there) =
                  find_string-Holds table.items 0 i s e (subst AllFit (sym items) fit) in
                let same : i ≡ j = omega arith in subst (λ x. Holds x i s) items (rw same there);
          }
    ]

texts-append : (xs ys : List VmString) → texts (xs ++ ys) ≡ texts xs ++ texts ys
texts-append [] ys = refl
texts-append (x ∷ xs) ys = ap (◌∷◌ x.ptr) (texts-append xs ys)

AllFit-left : (xs ys : List VmString) → AllFit (xs ++ ys) → AllFit xs
AllFit-left [] ys h = tt
AllFit-left (x ∷ xs) ys h = (h.0, h.1, AllFit-left xs ys h.2)

Holds-append : (xs ys : List VmString) (i : ℕ) (s : Bytes) → Holds xs i s → Holds (xs ++ ys) i s
Holds-append xs ys i s h = record {
  at = rw (texts-append xs ys) (get_elem?-append_left (texts xs) (texts ys) i h.at);
  within = omega (arith, h.within, length-append {0} xs ys);
}

-- An instruction with the index of a text.
pub record Named (e e' : VmEmitter) (op : ℕ) (s : Bytes) : Type 0 where
  pub place : ℕ
  pub appends : Appends e e' (op ∷ u32_le (place % 2 ^ 32))
  pub holds : AllFit e'.strings.items → Holds e'.strings.items place s

pub emit_named-Named :
    (e : VmEmitter) (op : ℕ) (s : Bytes) {e' : VmEmitter}
    → emit_named e op s ≡ ok e'
    → Named e e' op s
unfolding emit_named
emit_named-Named e op s {e'} h =
    let (r, added_is, rest) = >>=-eq-ok (string_table_add e.strings s) _ h in
    let a = string_table_add-Added e.strings s added_is in
    let b = emit_opcode_u32-Appends (record e { strings = r.1 }) op r.0 rest in
    record {
      place = a.place;
      appends = record {
        code = b.code ∙ ap (λ i. e.code.bytes ++ (op ∷ u32_le i)) a.idx_is;
        more = a.more ++ b.more;
        strings = b.strings ∙ rw a.strings (append_assoc e.strings.items a.more b.more);
        interns = b.interns;
      };
      holds = λ fit.
          let left = AllFit-left r.1.items b.more (subst AllFit b.strings fit) in
          subst (λ x. Holds x a.place s) (sym b.strings)
            (Holds-append r.1.items b.more a.place s (a.holds left));
    }

-- Program `p` contains all that has been emitted so far, and its counts fit 32 bits.
pub record Within (e : VmEmitter) (p : Program) : Type 0 where
  pub later_code : Bytes
  pub code : p.code ≡ e.code.bytes ++ later_code
  pub later_strings : List Bytes
  pub strings : p.strings ≡ texts e.strings.items ++ later_strings
  pub fit : AllFit e.strings.items
  pub count : length e.strings.items < 2 ^ 32

module _ {e e' : VmEmitter} {bs : Bytes} (a : Appends e e' bs) {p : Program} (w : Within e' p) where
  pub Within-back : Within e p
  Within-back = record {
    later_code = bs ++ w.later_code;
    code = w.code ∙ rw a.code (append_assoc e.code.bytes bs w.later_code);
    later_strings = texts a.more ++ w.later_strings;
    strings =
        w.strings
        ∙ rw (a.strings, texts-append e.strings.items a.more)
            (append_assoc (texts e.strings.items) (texts a.more) w.later_strings);
    fit = AllFit-left e.strings.items a.more (subst AllFit a.strings w.fit);
    count = omega (arith, w.count, ap length a.strings, length-append {0} e.strings.items a.more);
  }

  -- The appended code stands in the program at the old length.
  pub Within-From : From p.code (length e.code.bytes) (bs ++ w.later_code)
  Within-From = record {
    before = e.code.bytes;
    splits = w.code ∙ rw a.code (append_assoc e.code.bytes bs w.later_code);
    off_is = refl;
  }

-- The program has the text of an index in the string table.
pub Within-string :
    {e : VmEmitter} {p : Program} (w : Within e p) (i : ℕ) (s : Bytes)
    → Holds e.strings.items i s
    → (get_elem? p.strings (i % 2 ^ 32) ≡ some s)
Within-string {e} w i s h =
    rw (mod-eq_of_lt (let b : i < 2 ^ 32 = omega (arith, h.within, w.count) in b), w.strings)
      (get_elem?-append_left (texts e.strings.items) w.later_strings i h.at)
