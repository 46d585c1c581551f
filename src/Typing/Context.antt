-- ===== src/Typing/Context.antt =====
-- src/typing/type_context.c: the state of the type checker. The scopes stand with the innermost one
-- first, and each of the stacks with its top first. The intern table, which messages use, is left
-- out, and so are the messages. A NULL type is `no_type`.
pub mod Scopes
pub mod Forwards
pub mod Bindings
pub mod Unresolved
use morphl.Prelude.{
  ℕ, ◌*◌, Bool, true, false, not, ◌&&◌, ◌||◌, Option, none, some, List, [], ◌∷◌, ◌++◌, length, leb,
  ◌==◌, if◌then◌else◌,
}
use morphl.Util.Arena.{Arena}
use morphl.Typing.Types.{MorphlType, no_type, is_null, type_equals, arena_alloc, pointer_size}

-- `TypeEntry`, and `VarEntry`, which has the same fields.
pub record TypeEntry : Type 0 where
  pub name : ℕ
  pub type : MorphlType

pub record ForwardEntry : Type 0 where
  pub name : ℕ
  pub type : MorphlType
  pub resolved : Bool

pub record Scope : Type 0 where
  pub vars : List TypeEntry
  pub var_capacity : ℕ
  pub forwards : List ForwardEntry
  pub forward_capacity : ℕ
  pub has_forward_errors : Bool

pub record TypeContext : Type 0 where
  pub arena : Arena
  pub functions : List TypeEntry
  pub func_capacity : ℕ
  pub scopes : List Scope
  pub scope_capacity : ℕ
  pub expected_return_type : MorphlType
  pub pending_func_type : MorphlType
  pub func_stack : List MorphlType
  pub func_stack_capacity : ℕ
  pub file_type : MorphlType
  pub global_type : MorphlType
  pub file_stack : List MorphlType
  pub file_capacity : ℕ
  pub global_stack : List MorphlType
  pub global_capacity : ℕ
  pub this_stack : List MorphlType
  pub this_capacity : ℕ

-- `sizeof` of the entries on a 64-bit machine.
abbrev pub entry_size : ℕ
entry_size = 16

abbrev pub forward_size : ℕ
forward_size = 24

abbrev pub scope_size : ℕ
scope_size = 56

abbrev pub context_size : ℕ
context_size = 192

abbrev pub empty_scope : Scope
empty_scope = record {
  vars = [];
  var_capacity = 16;
  forwards = [];
  forward_capacity = 4;
  has_forward_errors = false;
}

-- The allocations of `type_context_new`, one after the other.
unfoldable pub alloc_all : Arena → List ℕ → Option Arena
alloc_all a [] = some a
alloc_all a (size ∷ sizes) = elim (arena_alloc a size) [
  | none ↦ none
  | some a' ↦ alloc_all a' sizes
]

unfoldable pub type_context_new : Arena → Option TypeContext
type_context_new arena =
    elim (alloc_all arena (
      context_size
      ∷ 4 * pointer_size
      ∷ 4 * pointer_size
      ∷ 8 * pointer_size
      ∷ 4 * pointer_size
      ∷ 32 * entry_size
      ∷ 8 * scope_size
      ∷ 16 * entry_size
      ∷ 4 * forward_size
      ∷ [])) [
        | none ↦ none
        | some a ↦ some (record {
          arena = a;
          functions = [];
          func_capacity = 32;
          scopes = empty_scope ∷ [];
          scope_capacity = 8;
          expected_return_type = no_type;
          pending_func_type = no_type;
          func_stack = [];
          func_stack_capacity = 4;
          file_type = no_type;
          global_type = no_type;
          file_stack = [];
          file_capacity = 4;
          global_stack = [];
          global_capacity = 4;
          this_stack = [];
          this_capacity = 8;
        })
      ]

-- Room for one more entry: the arena and the capacity, doubled when the array is full.
unfoldable pub room : Arena → ℕ → ℕ → ℕ → Option (Arena × ℕ)
room a count capacity size =
    if leb capacity count
    then elim (arena_alloc a (capacity * 2 * size)) [
      | none ↦ none
      | some a' ↦ some (a', capacity * 2)
    ]
    else some (a, capacity)

-- A scope whose arrays cannot be allocated is not entered, and what was allocated stays used.
unfoldable pub type_context_push_scope : TypeContext → Bool × TypeContext
type_context_push_scope ctx =
    elim (room ctx.arena (length ctx.scopes) ctx.scope_capacity scope_size) [
      | none ↦ (false, ctx)
      | some (a, cap) ↦ elim (arena_alloc a (16 * entry_size)) [
        | none ↦ (false, record ctx { arena = a; scope_capacity = cap })
        | some a₁ ↦ elim (arena_alloc a₁ (4 * forward_size)) [
          | none ↦ (false, record ctx { arena = a₁; scope_capacity = cap })
          | some a₂ ↦ (
            true,
            record ctx { arena = a₂; scope_capacity = cap; scopes = empty_scope ∷ ctx.scopes },
          )
        ]
      ]
    ]

unfoldable pub has_unresolved : List ForwardEntry → Bool
has_unresolved [] = false
has_unresolved (f ∷ fs) = not f.resolved || has_unresolved fs

unfoldable pub pop_scopes : TypeContext → List Scope → Bool × TypeContext
pop_scopes ctx [] = (false, ctx)
pop_scopes ctx (global ∷ []) = (false, ctx)
pop_scopes ctx (current ∷ (outer ∷ scopes)) = (
  not (current.has_forward_errors || has_unresolved current.forwards),
  record ctx { scopes = outer ∷ scopes },
)

abbrev pub type_context_pop_scope : TypeContext → Bool × TypeContext
type_context_pop_scope ctx = pop_scopes ctx ctx.scopes

unfoldable pub find_entry : List TypeEntry → ℕ → Option MorphlType
find_entry [] name = none
find_entry (e ∷ es) name = if e.name == name then some e.type else find_entry es name

-- The first entry of that name gets the type; `none` if there is no such entry.
unfoldable pub update_entry : List TypeEntry → ℕ → MorphlType → Option (List TypeEntry)
update_entry [] name type = none
update_entry (e ∷ es) name type =
    let rest = update_entry es name type in
    if e.name == name
    then some (record e { type = type } ∷ es)
    else elim rest [ none ↦ none | some es' ↦ some (e ∷ es') ]

-- `type_context_define_var` in the current scope.
unfoldable pub define_in : TypeContext → List Scope → ℕ → MorphlType → Bool × TypeContext
define_in ctx [] name type = (false, ctx)
define_in ctx (current ∷ outer) name type =
    elim (room ctx.arena (length current.vars) current.var_capacity entry_size) [
      | none ↦ (false, ctx)
      | some (a, cap) ↦ (
        true,
        record ctx {
          arena = a;
          scopes =
              record current {
                vars = current.vars ++ (record { name = name; type = type } ∷ []);
                var_capacity = cap;
              }
              ∷ outer;
        },
      )
    ]

unfoldable pub type_context_define_var : TypeContext → ℕ → MorphlType → Bool × TypeContext
type_context_define_var ctx name type =
    if name == 0 || is_null type then (false, ctx) else define_in ctx ctx.scopes name type

unfoldable pub update_in : TypeContext → List Scope → ℕ → MorphlType → Bool × TypeContext
update_in ctx [] name type = (false, ctx)
update_in ctx (current ∷ outer) name type = elim (update_entry current.vars name type) [
  | none ↦ (false, ctx)
  | some vars ↦ (true, record ctx { scopes = record current { vars = vars } ∷ outer })
]

unfoldable pub type_context_update_var : TypeContext → ℕ → MorphlType → Bool × TypeContext
type_context_update_var ctx name type =
    if name == 0 || is_null type then (false, ctx) else update_in ctx ctx.scopes name type

-- From the innermost scope outwards.
unfoldable pub lookup_in : List Scope → ℕ → MorphlType
lookup_in [] name = no_type
lookup_in (scope ∷ scopes) name = elim (find_entry scope.vars name) [
  | none ↦ lookup_in scopes name
  | some t ↦ t
]

unfoldable pub type_context_lookup_var : TypeContext → ℕ → MorphlType
type_context_lookup_var ctx name = if name == 0 then no_type else lookup_in ctx.scopes name

unfoldable pub duplicate_in : List Scope → ℕ → Bool
duplicate_in [] name = false
duplicate_in (current ∷ outer) name = elim (find_entry current.vars name) [
  | none ↦ false
  | some t ↦ true
]

unfoldable pub type_context_check_duplicate_var : TypeContext → ℕ → Bool
type_context_check_duplicate_var ctx name =
    if name == 0 then false else duplicate_in ctx.scopes name

-- The loop over the forwards of the current scope.
unfoldable pub find_forward : List ForwardEntry → ℕ → Option ForwardEntry
find_forward [] name = none
find_forward (f ∷ fs) name = if f.name == name then some f else find_forward fs name

unfoldable pub lookup_forward_in : List Scope → ℕ → Option ForwardEntry
lookup_forward_in [] name = none
lookup_forward_in (current ∷ outer) name = find_forward current.forwards name

unfoldable pub type_context_lookup_forward : TypeContext → ℕ → Option ForwardEntry
type_context_lookup_forward ctx name = if name == 0 then none else lookup_forward_in ctx.scopes name

unfoldable pub define_forward_in : TypeContext → List Scope → ℕ → MorphlType → Bool × TypeContext
define_forward_in ctx [] name type = (false, ctx)
define_forward_in ctx (current ∷ outer) name type = elim (find_forward current.forwards name) [
  | some f ↦ (false, ctx)
  | none ↦ elim (room ctx.arena (length current.forwards) current.forward_capacity forward_size) [
    | none ↦ (false, ctx)
    | some (a, cap) ↦ (
      true,
      record ctx {
        arena = a;
        scopes =
            record current {
              forwards =
                  current.forwards ++ (record { name = name; type = type; resolved = false } ∷ []);
              forward_capacity = cap;
            }
            ∷ outer;
      },
    )
  ]
]

unfoldable pub type_context_define_forward : TypeContext → ℕ → MorphlType → Bool × TypeContext
type_context_define_forward ctx name type =
    if name == 0 || is_null type then (false, ctx) else define_forward_in ctx ctx.scopes name type

-- The first forward of that name gets its body; `none` if there is no such forward, if it has its
-- body, or if the types differ.
unfoldable pub resolve_forward : List ForwardEntry → ℕ → MorphlType → Option (List ForwardEntry)
resolve_forward [] name type = none
resolve_forward (f ∷ fs) name type =
    let rest = resolve_forward fs name type in
    if f.name == name
    then (if f.resolved || not (type_equals f.type type)
        then none
        else some (record f { resolved = true } ∷ fs))
    else elim rest [ none ↦ none | some fs' ↦ some (f ∷ fs') ]

unfoldable pub forward_body_in : TypeContext → List Scope → ℕ → MorphlType → Bool × TypeContext
forward_body_in ctx [] name type = (false, ctx)
forward_body_in ctx (current ∷ outer) name type =
    elim (resolve_forward current.forwards name type) [
      | none ↦ (false, ctx)
      | some forwards ↦
          (true, record ctx { scopes = record current { forwards = forwards } ∷ outer })
    ]

unfoldable pub type_context_define_forward_body : TypeContext → ℕ → MorphlType → Bool × TypeContext
type_context_define_forward_body ctx name type =
    if name == 0 || is_null type then (false, ctx) else forward_body_in ctx ctx.scopes name type

-- One scope of `type_context_check_unresolved_forwards`: whether it passes, and the scope after.
unfoldable pub check_scope : Scope → Bool × Scope
check_scope scope =
    if scope.has_forward_errors
    then (false, scope)
    else if has_unresolved scope.forwards
    then (false, record scope { has_forward_errors = true })
    else (true, scope)

unfoldable pub check_scopes : List Scope → Bool × List Scope
check_scopes [] = (true, [])
check_scopes (scope ∷ scopes) =
    let (here, scope') = check_scope scope in
    let (others, scopes') = check_scopes scopes in (here && others, scope' ∷ scopes')

unfoldable pub type_context_check_unresolved_forwards : TypeContext → Bool × TypeContext
type_context_check_unresolved_forwards ctx =
    let (passes, scopes) = check_scopes ctx.scopes in (passes, record ctx { scopes = scopes })

-- The function registry: `lookup_func` with `find_entry` and `update_func` with `update_entry`.
unfoldable pub type_context_define_func : TypeContext → ℕ → MorphlType → Bool × TypeContext
type_context_define_func ctx name func_type =
    if name == 0 || is_null func_type
    then (false, ctx)
    else elim (room ctx.arena (length ctx.functions) ctx.func_capacity entry_size) [
      | none ↦ (false, ctx)
      | some (a, cap) ↦ (
        true,
        record ctx {
          arena = a;
          functions = ctx.functions ++ (record { name = name; type = func_type } ∷ []);
          func_capacity = cap;
        },
      )
    ]

unfoldable pub type_context_update_func : TypeContext → ℕ → MorphlType → Bool × TypeContext
type_context_update_func ctx name func_type =
    if name == 0 || is_null func_type
    then (false, ctx)
    else elim (update_entry ctx.functions name func_type) [
      | none ↦ (false, ctx)
      | some functions ↦ (true, record ctx { functions = functions })
    ]

unfoldable pub type_context_lookup_func : TypeContext → ℕ → MorphlType
type_context_lookup_func ctx name =
    if name == 0
    then no_type
    else elim (find_entry ctx.functions name) [ none ↦ no_type | some t ↦ t ]
