-- ===== src/Parser/Operators/Registry.antt =====
-- Operators of src/parser/operators.c are found by their symbols as they are by their names.
use morphl.Prelude.{
  ℕ, zero, suc, ◌<◌, ◌≡◌, refl, sym, ap, ◌∙◌, ◌⊎◌, inl, inr, false, Bool-cases, Option, none, some,
  some-injective, List, [], ◌∷◌, Bytes, bytes_eq, bytes_eq_iff, ◌==◌, ==_iff, if◌then◌else◌, ok,
  failed, arith,
}
use morphl.Util.Intern.{InternTable, interns_lookup}
use morphl.Util.Intern.Invariant.{WellFormed}
use morphl.Util.Intern.Ids.{next, Keeps}
use morphl.Parser.Operators.{
  OperatorRow, builtin_ops, Registered, register_rows, operator_registry_init, find_operator,
  operator_info_lookup,
}

-- The first row of a name.
unfoldable pub row_named : List OperatorRow → Bytes → Option OperatorRow
row_named [] name = none
row_named (r ∷ rows) name = if bytes_eq r.name name then some r else row_named rows name

-- The rows with symbols that stand for their names.
pub data Registers (t : InternTable) : List OperatorRow → List Registered → Type 0 where
  no_rows : Registers t [] []
  one_more :
      {rows : List OperatorRow} {rs : List Registered} (r : Registered)
      → 0 < r.sym
      → interns_lookup t r.sym ≡ some r.row.name
      → Registers t rows rs
      → Registers t (r.row ∷ rows) (r ∷ rs)

-- Two symbols that stand for the same string are the same.
lookup-injective :
    (t : InternTable) (i j : ℕ) (s : Bytes)
    → WellFormed t
    → interns_lookup t i ≡ some s
    → interns_lookup t j ≡ some s
    → i ≡ j
unfolding interns_lookup
lookup-injective t zero j s w h h' = cc
lookup-injective t (suc i) zero s w h h' = cc
lookup-injective t (suc i) (suc j) s w h h' = ap suc (w.distinct s i j h h')

find-row_named :
    (t : InternTable) {rows : List OperatorRow} {rs : List Registered} (op : ℕ) (s : Bytes)
    → WellFormed t
    → interns_lookup t op ≡ some s
    → Registers t rows rs
    → find_operator rs op ≡ row_named rows s
unfolding find_operator row_named
find-row_named t op s w h no_rows = refl
find-row_named t op s w h (one_more {rows = rows} {rs = rs} r positive named more) =
    elim (Bool-cases (r.sym == op)) [
      | inl same ↦
          let e = (==_iff r.sym op).0 same in
          let names : r.row.name ≡ s = some-injective (sym named ∙ ap (interns_lookup t) e ∙ h) in
          rw (same, (bytes_eq_iff r.row.name s).1 names) refl
      | inr differ ↦ elim (Bool-cases (bytes_eq r.row.name s)) [
        | inl names ↦
            let e : r.sym ≡ op =
              lookup-injective t r.sym op s w
                (named ∙ ap some ((bytes_eq_iff r.row.name s).0 names)) h in
            absurd (let same = (==_iff r.sym op).1 e in cc)
        | inr other ↦ rw (differ, other) (find-row_named t op s w h more)
      ]
    ]

-- What registering leaves of a table.
record Done (t : InternTable) (rows : List OperatorRow) : Type 0 where
  rs : List Registered
  table : InternTable
  runs : register_rows rows t ≡ ok (rs, table)
  fine : WellFormed table
  keeps : Keeps t table
  registers : Registers table rows rs

register-Done :
    (rows : List OperatorRow) (t : InternTable)
    → WellFormed t
    → Done t rows ⊎ (register_rows rows t ≡ failed)
unfolding register_rows
register-Done [] t w =
    inl (record {
      rs = [];
      table = t;
      runs = refl;
      fine = w;
      keeps = λ id x h. h;
      registers = no_rows;
    })
register-Done (r ∷ rows) t w =
    let a = next t r.name w in
    elim (Bool-cases (a.id == 0)) [
      | inl full ↦ inr (rw a.runs (rw full refl))
      | inr named ↦ elim (register-Done rows a.table a.fine) [
        | inr fails ↦ inr (rw a.runs (rw (named, fails) refl))
        | inl d ↦
            let positive : 0 < a.id = ground (arith, named) in
            inl (record {
              rs = record { row = r; sym = a.id } ∷ d.rs;
              table = d.table;
              runs = rw a.runs (rw (named, d.runs) refl);
              fine = d.fine;
              keeps = λ id x h. d.keeps id x (a.keeps id x h);
              registers =
                  one_more (record { row = r; sym = a.id }) positive
                    (d.keeps a.id r.name (a.named positive)) d.registers;
            })
      ]
    ]

-- Setting up the registry with a well-formed intern table fails for lack of room, or it gives a
-- registry in which every symbol finds the row that the operator table has for the symbol's name.
pub operator_info_lookup-registry_init :
    (t : InternTable)
    → WellFormed t
    → ((registry : List Registered) × (t' : InternTable) × (operator_registry_init t
          ≡ ok (registry, t'))
        × WellFormed t'
        × ((op : ℕ) (s : Bytes)
            → interns_lookup t' op ≡ some s
            → operator_info_lookup registry op ≡ row_named builtin_ops s))
      ⊎ (operator_registry_init t ≡ failed)
unfolding operator_registry_init operator_info_lookup interns_lookup
operator_info_lookup-registry_init t w = elim (register-Done builtin_ops t w) [
  | inr fails ↦ inr fails
  | inl d ↦ inl (d.rs, d.table, d.runs, d.fine, λ op s h. by_symbol d op s h)
]
  where
    by_symbol :
        (d : Done t builtin_ops) (op : ℕ) (s : Bytes)
        → interns_lookup d.table op ≡ some s
        → operator_info_lookup d.rs op ≡ row_named builtin_ops s
    by_symbol d zero s h = cc
    by_symbol d (suc op) s h =
        let positive : (suc op == 0) ≡ false = ground arith in
        rw positive (find-row_named d.table (suc op) s d.fine h d.registers)
