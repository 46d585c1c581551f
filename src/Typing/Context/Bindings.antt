-- ===== src/Typing/Context/Bindings.antt =====
-- src/typing/type_context.c: the return type, the pending function, and the stacks of enclosing
-- functions, of `$this`, `$file` and `$global`.
use morphl.Prelude.{
  ◌≡◌, refl, sym, ap, Bool, true, false, Bool-cases, Option-cases, inl, inr, none, some, List, [],
  ◌∷◌, length, if◌then◌else◌,
}
use morphl.Typing.Types.{MorphlType, is_null, no_type, pointer_size}
use morphl.Typing.Context.{TypeContext, room, is_null}

abbrev pub type_context_set_return_type : TypeContext → MorphlType → TypeContext
type_context_set_return_type ctx ret_type = record ctx { expected_return_type = ret_type }

abbrev pub type_context_set_pending_func : TypeContext → MorphlType → TypeContext
type_context_set_pending_func ctx func_type = record ctx { pending_func_type = func_type }

-- The pending function is taken once.
unfoldable pub type_context_take_pending_func : TypeContext → MorphlType × TypeContext
type_context_take_pending_func ctx =
    (ctx.pending_func_type, record ctx { pending_func_type = no_type })

-- The top of a stack, NULL when it is empty.
unfoldable pub top : List MorphlType → MorphlType
top [] = no_type
top (t ∷ ts) = t

abbrev pub below : List MorphlType → List MorphlType
below [] = []
below (t ∷ ts) = ts

abbrev pub is_empty : List MorphlType → Bool
is_empty [] = true
is_empty (t ∷ ts) = false

unfoldable pub type_context_push_func : TypeContext → MorphlType → Bool × TypeContext
type_context_push_func ctx func_type =
    elim (room ctx.arena (length ctx.func_stack) ctx.func_stack_capacity pointer_size) [
      | none ↦ (false, ctx)
      | some (a, cap) ↦ (
        true,
        record ctx {
          arena = a;
          func_stack = func_type ∷ ctx.func_stack;
          func_stack_capacity = cap;
        },
      )
    ]

unfoldable pub type_context_pop_func : TypeContext → Bool × TypeContext
type_context_pop_func ctx =
    if is_empty ctx.func_stack
    then (false, ctx)
    else (true, record ctx { func_stack = below ctx.func_stack })

abbrev pub type_context_get_current_func : TypeContext → MorphlType
type_context_get_current_func ctx = top ctx.func_stack

unfoldable pub type_context_push_this : TypeContext → MorphlType → Bool × TypeContext
type_context_push_this ctx this_type =
    if is_null this_type
    then (false, ctx)
    else elim (room ctx.arena (length ctx.this_stack) ctx.this_capacity pointer_size) [
      | none ↦ (false, ctx)
      | some (a, cap) ↦ (
        true,
        record ctx { arena = a; this_stack = this_type ∷ ctx.this_stack; this_capacity = cap },
      )
    ]

unfoldable pub type_context_pop_this : TypeContext → Bool × TypeContext
type_context_pop_this ctx =
    if is_empty ctx.this_stack
    then (false, ctx)
    else (true, record ctx { this_stack = below ctx.this_stack })

abbrev pub type_context_get_this : TypeContext → MorphlType
type_context_get_this ctx = top ctx.this_stack

-- The current file type goes to the stack, and the new one takes its place.
unfoldable pub type_context_push_file : TypeContext → MorphlType → Bool × TypeContext
type_context_push_file ctx file_type =
    elim (room ctx.arena (length ctx.file_stack) ctx.file_capacity pointer_size) [
      | none ↦ (false, ctx)
      | some (a, cap) ↦ (
        true,
        record ctx {
          arena = a;
          file_stack = ctx.file_type ∷ ctx.file_stack;
          file_type = file_type;
          file_capacity = cap;
        },
      )
    ]

unfoldable pub type_context_pop_file : TypeContext → Bool × TypeContext
type_context_pop_file ctx =
    if is_empty ctx.file_stack
    then (false, ctx)
    else (true, record ctx { file_type = top ctx.file_stack; file_stack = below ctx.file_stack })

unfoldable pub type_context_push_global : TypeContext → MorphlType → Bool × TypeContext
type_context_push_global ctx global_type =
    elim (room ctx.arena (length ctx.global_stack) ctx.global_capacity pointer_size) [
      | none ↦ (false, ctx)
      | some (a, cap) ↦ (
        true,
        record ctx {
          arena = a;
          global_stack = ctx.global_type ∷ ctx.global_stack;
          global_type = global_type;
          global_capacity = cap;
        },
      )
    ]

unfoldable pub type_context_pop_global : TypeContext → Bool × TypeContext
type_context_pop_global ctx = if is_empty ctx.global_stack then (false, ctx) else (
  true,
  record ctx { global_type = top ctx.global_stack; global_stack = below ctx.global_stack },
)

-- The file that `$file` stands for: the stack of the enclosing ones under the current one.
abbrev files : TypeContext → List MorphlType
files ctx = ctx.file_type ∷ ctx.file_stack

-- Entering a file makes it the current one above the enclosing ones, and leaving it gives back the
-- file that was current and those around it.
pub pop_file-push_file :
    (ctx : TypeContext) (file_type : MorphlType) {ctx' : TypeContext}
    → type_context_push_file ctx file_type ≡ (true, ctx')
    → (ctx'.file_type ≡ file_type)
      × (ctx'.file_stack ≡ ctx.file_type ∷ ctx.file_stack)
      × ((type_context_pop_file ctx').0 ≡ true)
      × ((type_context_pop_file ctx').1.file_type ≡ ctx.file_type)
      × ((type_context_pop_file ctx').1.file_stack ≡ ctx.file_stack)
unfolding type_context_push_file type_context_pop_file top
pop_file-push_file ctx file_type {ctx'} h =
    elim (Option-cases (room ctx.arena (length ctx.file_stack) ctx.file_capacity pointer_size)) [
      | inl full ↦ cc (rw (full, type_context_push_file) at h)
      | inr ((a, cap), e) ↦
          let made = ap (λ (x : Bool × TypeContext). x.1) (rw (e, type_context_push_file) at h) in
          let stack_is : ctx'.file_stack ≡ ctx.file_type ∷ ctx.file_stack =
            sym (ap (λ (x : TypeContext). x.file_stack) made) in
          (
            sym (ap (λ (x : TypeContext). x.file_type) made),
            stack_is,
            rw stack_is refl,
            rw stack_is refl,
            rw stack_is refl,
          )
    ]

-- Entering `$this` of a type makes it the innermost one, and leaving it gives back those around it.
pub pop_this-push_this :
    (ctx : TypeContext) (this_type : MorphlType) {ctx' : TypeContext}
    → type_context_push_this ctx this_type ≡ (true, ctx')
    → (type_context_get_this ctx' ≡ this_type)
      × ((type_context_pop_this ctx').0 ≡ true)
      × ((type_context_pop_this ctx').1.this_stack ≡ ctx.this_stack)
      × (type_context_get_this (type_context_pop_this ctx').1 ≡ type_context_get_this ctx)
unfolding type_context_push_this type_context_pop_this top
pop_this-push_this ctx this_type {ctx'} h = elim (Bool-cases (is_null this_type)) [
  | inl null ↦ cc (rw (null, type_context_push_this) at h)
  | inr given ↦
      elim (Option-cases (room ctx.arena (length ctx.this_stack) ctx.this_capacity pointer_size)) [
        | inl full ↦ cc (rw (given, full, type_context_push_this) at h)
        | inr ((a, cap), e) ↦
            let made =
              ap (λ (x : Bool × TypeContext). x.1.this_stack)
                (rw (given, e, type_context_push_this) at h) in
            let stack_is : ctx'.this_stack ≡ this_type ∷ ctx.this_stack = sym made in
            (rw stack_is refl, rw stack_is refl, rw stack_is refl, rw stack_is refl)
      ]
]

-- Entering a function makes it the current one, and leaving it gives back those around it.
pub pop_func-push_func :
    (ctx : TypeContext) (func_type : MorphlType) {ctx' : TypeContext}
    → type_context_push_func ctx func_type ≡ (true, ctx')
    → (type_context_get_current_func ctx' ≡ func_type)
      × ((type_context_pop_func ctx').0 ≡ true)
      × ((type_context_pop_func ctx').1.func_stack ≡ ctx.func_stack)
unfolding type_context_push_func type_context_pop_func top
pop_func-push_func ctx func_type {ctx'} h =
    elim (Option-cases
      (room ctx.arena (length ctx.func_stack) ctx.func_stack_capacity pointer_size)) [
        | inl full ↦ cc (rw (full, type_context_push_func) at h)
        | inr ((a, cap), e) ↦
            let made =
              ap (λ (x : Bool × TypeContext). x.1.func_stack)
                (rw (e, type_context_push_func) at h) in
            let stack_is : ctx'.func_stack ≡ func_type ∷ ctx.func_stack = sym made in
            (rw stack_is refl, rw stack_is refl, rw stack_is refl)
      ]
