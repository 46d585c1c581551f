-- ===== src/Tests/Typing.antt =====
-- src/typing/ on small inputs.
use morphl.Prelude.{
  ℕ, ◌≡◌, refl, ◌↔◌, Bool, true, false, not, ◌&&◌, [], ◌∷◌, some, ◌==◌, if◌then◌else◌, arith,
}
use morphl.Util.Arena.{arena_push}
use morphl.Typing.Types.{
  MorphlType, plain, int, bool, string, func, no_types, more_types, no_type, plain_code,
  type_equals, types_equal, arena_alloc, type_clone, clone_types, clone_fields,
}
use morphl.Typing.Types.Equality.{type_equals_iff}
use morphl.Typing.Types.Make.{morphl_type_func, param_types, morphl_type_func-type_equals}
use morphl.Typing.Types.Clone.{type_equals-type_clone}
use morphl.Typing.Context.{
  type_context_check_unresolved_forwards, pop_scopes, ForwardEntry, TypeContext, room,
  type_context_push_scope, type_context_pop_scope, define_in, type_context_define_var,
  type_context_lookup_var, type_context_check_duplicate_var, find_forward,
  type_context_lookup_forward, define_forward_in, type_context_define_forward, resolve_forward,
  forward_body_in, type_context_define_forward_body, empty_scope,
}
use morphl.Typing.Context.Scopes.{
  type_context_lookup_var-define_var, finished, defines, pop_scope-push_scope,
}
use morphl.Typing.Context.Forwards.{
  lookup_forward-define_forward, lookup_forward-define_forward_body,
}
use morphl.Typing.Context.Unresolved.{
  Settled, AllSettled, pop_scope_iff, check_unresolved_forwards_iff,
}
use morphl.Typing.Context.Bindings.{
  type_context_push_file, type_context_pop_file, pop_file-push_file, type_context_push_this,
  type_context_pop_this, type_context_get_this, pop_this-push_this, type_context_push_func,
  type_context_pop_func, type_context_get_current_func, pop_func-push_func,
}

abbrev int_to_bool : MorphlType
int_to_bool = func (more_types (plain int) no_types) (plain bool)

type_equals_iff_example : (type_equals int_to_bool int_to_bool ≡ true) ↔ (int_to_bool ≡ int_to_bool)
type_equals_iff_example = type_equals_iff int_to_bool int_to_bool

type_equals-type_clone_example :
    (int_to_bool ≡ int_to_bool) × (type_equals int_to_bool int_to_bool ≡ true)
unfolding type_clone clone_types clone_fields arena_alloc arena_push
type_equals-type_clone_example =
    type_equals-type_clone int_to_bool (record { cap = 1024; off = 0 })
      (record { cap = 1024; off = 176 }) int_to_bool refl

abbrev ctx : TypeContext
ctx = record {
  arena = record { cap = 65536; off = 0 };
  functions = [];
  func_capacity = 32;
  scopes = empty_scope ∷ [];
  scope_capacity = 8;
  expected_return_type = no_type;
  pending_func_type = no_type;
  func_stack = [];
  func_stack_capacity = 4;
  file_type = no_type;
  global_type = no_type;
  file_stack = [];
  file_capacity = 4;
  global_stack = [];
  global_capacity = 4;
  this_stack = [];
  this_capacity = 8;
}

abbrev with_x : TypeContext
with_x = record ctx {
  scopes = record empty_scope { vars = record { name = 7; type = plain int } ∷ [] } ∷ [];
}

type_context_lookup_var-define_var_example : type_context_lookup_var with_x 7 ≡ (
    if 7 == 7 && not (type_context_check_duplicate_var ctx 7)
    then plain int
    else type_context_lookup_var ctx 7)
unfolding type_context_define_var define_in room
type_context_lookup_var-define_var_example =
    type_context_lookup_var-define_var ctx 7 7 (plain int) refl

abbrev inner : TypeContext
inner = record ctx {
  arena = record { cap = 65536; off = 352 };
  scopes = empty_scope ∷ empty_scope ∷ [];
}

abbrev inner_with_x : TypeContext
inner_with_x = record inner {
  scopes =
      record empty_scope { vars = record { name = 7; type = plain int } ∷ [] } ∷ empty_scope ∷ [];
}

pop_scope-push_scope_example : (type_context_pop_scope inner_with_x).1.scopes ≡ empty_scope ∷ []
unfolding type_context_push_scope room arena_alloc arena_push type_context_define_var define_in
pop_scope-push_scope_example =
    pop_scope-push_scope ctx inner inner_with_x (omega arith) refl
      (defines inner_with_x 7 (plain int) refl finished)

abbrev with_forward : Bool → TypeContext
with_forward resolved = record ctx {
  scopes =
      record empty_scope {
        forwards = record { name = 7; type = int_to_bool; resolved = resolved } ∷ [];
      }
      ∷ [];
}

lookup_forward-define_forward_example : type_context_lookup_forward (with_forward false) 7 ≡ (
    if 7 == 7
    then some (record { name = 7; type = int_to_bool; resolved = false })
    else type_context_lookup_forward ctx 7)
unfolding type_context_define_forward define_forward_in find_forward room
lookup_forward-define_forward_example = lookup_forward-define_forward ctx 7 7 int_to_bool refl

lookup_forward-define_forward_body_example :
    (f : ForwardEntry) × (type_context_lookup_forward (with_forward false) 7 ≡ some f)
    × (f.resolved ≡ false)
    × (f.type ≡ int_to_bool)
    × ((other : ℕ)
        → type_context_lookup_forward (with_forward true) other ≡ (
            if 7 == other
            then some (record f { resolved = true })
            else type_context_lookup_forward (with_forward false) other))
unfolding type_context_define_forward_body forward_body_in resolve_forward type_equals types_equal
    plain_code
lookup_forward-define_forward_body_example =
    lookup_forward-define_forward_body (with_forward false) 7 int_to_bool refl

abbrev in_file : TypeContext
in_file = record ctx { file_type = plain string; file_stack = no_type ∷ [] }

pop_file-push_file_example :
    (in_file.file_type ≡ plain string)
    × (in_file.file_stack ≡ no_type ∷ [])
    × ((type_context_pop_file in_file).0 ≡ true)
    × ((type_context_pop_file in_file).1.file_type ≡ no_type)
    × ((type_context_pop_file in_file).1.file_stack ≡ [])
unfolding type_context_push_file room
pop_file-push_file_example = pop_file-push_file ctx (plain string) refl

abbrev two_scopes : TypeContext
two_scopes = record ctx { scopes = empty_scope ∷ (empty_scope ∷ []) }

pop_scope_iff_example :
    ((type_context_pop_scope two_scopes).1 ≡ ctx)
    × (((type_context_pop_scope two_scopes).0 ≡ true) ↔ Settled empty_scope)
unfolding pop_scopes
pop_scope_iff_example = pop_scope_iff two_scopes empty_scope empty_scope [] refl

check_unresolved_forwards_iff_example :
    (((type_context_check_unresolved_forwards (with_forward false)).0 ≡ true)
      ↔ AllSettled (with_forward false).scopes)
    × (type_context_check_unresolved_forwards
          (type_context_check_unresolved_forwards (with_forward false)).1
        ≡ type_context_check_unresolved_forwards (with_forward false))
check_unresolved_forwards_iff_example = check_unresolved_forwards_iff (with_forward false)

abbrev in_this : TypeContext
in_this = record ctx { this_stack = plain int ∷ [] }

pop_this-push_this_example :
    (type_context_get_this in_this ≡ plain int)
    × ((type_context_pop_this in_this).0 ≡ true)
    × ((type_context_pop_this in_this).1.this_stack ≡ [])
    × (type_context_get_this (type_context_pop_this in_this).1 ≡ type_context_get_this ctx)
unfolding type_context_push_this room
pop_this-push_this_example = pop_this-push_this ctx (plain int) refl

abbrev in_func : TypeContext
in_func = record ctx { func_stack = int_to_bool ∷ [] }

pop_func-push_func_example :
    (type_context_get_current_func in_func ≡ int_to_bool)
    × ((type_context_pop_func in_func).0 ≡ true)
    × ((type_context_pop_func in_func).1.func_stack ≡ [])
unfolding type_context_push_func room
pop_func-push_func_example = pop_func-push_func ctx int_to_bool refl

morphl_type_func-type_equals_example :
    (type_equals int_to_bool (func no_types (plain bool)) ≡ true)
    ↔ ((plain int ≡ no_type) × (plain bool ≡ plain bool))
unfolding morphl_type_func param_types arena_alloc arena_push
morphl_type_func-type_equals_example =
    morphl_type_func-type_equals (record { cap = 1024; off = 0 }) (record { cap = 1024; off = 64 })
      (plain int) (plain bool) no_type (plain bool) {a' = record { cap = 1024; off = 64 }}
      {b' = record { cap = 1024; off = 120 }} refl refl
