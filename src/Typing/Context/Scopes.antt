-- ===== src/Typing/Context/Scopes.antt =====
-- Variables and scopes of src/typing/type_context.c.
use morphl.Prelude.{
  ℕ, ◌*◌, ◌<◌, ◌≡◌, refl, sym, ap, ◌∙◌, Bool, true, false, not, ◌&&◌, ◌||◌, Bool-cases,
  Option-cases, inl, inr, none, some, List, [], ◌∷◌, ◌++◌, length, ◌==◌, ==_iff, if◌then◌else◌,
  arith,
}
use morphl.Typing.Types.{MorphlType, is_null, no_type, arena_alloc}
use morphl.Typing.Context.{
  TypeEntry, Scope, TypeContext, empty_scope, scope_size, forward_size, room, entry_size,
  find_entry, update_entry, define_in, type_context_define_var, update_in, type_context_update_var,
  lookup_in, type_context_lookup_var, duplicate_in, type_context_check_duplicate_var,
  type_context_push_scope, type_context_pop_scope, pop_scopes,
}

-- The scopes around the current one.
abbrev pub outer_of : List Scope → List Scope
outer_of [] = []
outer_of (current ∷ outer) = outer

find_entry-append :
    (es : List TypeEntry) (name other : ℕ) (type : MorphlType)
    → find_entry (es ++ (record { name = name; type = type } ∷ [])) other
      ≡ elim (find_entry es other) [
        | none ↦ (if name == other then some type else none)
        | some t ↦ some t
      ]
unfolding find_entry
find_entry-append [] name other type = refl
find_entry-append (e ∷ es) name other type = elim (Bool-cases (e.name == other)) [
  | inl same ↦ rw same refl
  | inr differ ↦ rw differ (find_entry-append es name other type)
]

-- The current scope with one more variable.
abbrev with_var : Scope → ℕ → MorphlType → ℕ → Scope
with_var current name type capacity = record current {
  vars = current.vars ++ (record { name = name; type = type } ∷ []);
  var_capacity = capacity;
}

lookup-with_var_same :
    (current : Scope) (outer : List Scope) (name : ℕ) (type : MorphlType) (capacity : ℕ)
    → lookup_in (with_var current name type capacity ∷ outer) name ≡ (
        if not (duplicate_in (current ∷ outer) name)
        then type
        else lookup_in (current ∷ outer) name)
unfolding lookup_in duplicate_in
lookup-with_var_same current outer name type capacity =
    let self : (name == name) ≡ true = (==_iff name name).1 refl in
    elim (Option-cases (find_entry current.vars name)) [
      | inl missing ↦
          let now : find_entry (with_var current name type capacity).vars name ≡ some type =
            find_entry-append current.vars name name type ∙ rw (missing, self) refl in
          rw (now, missing, lookup_in, duplicate_in) refl
      | inr (t, e) ↦
          let now : find_entry (with_var current name type capacity).vars name ≡ some t =
            find_entry-append current.vars name name type ∙ rw e refl in
          rw (now, e, lookup_in, duplicate_in) refl
    ]

lookup-with_var_other :
    (current : Scope) (outer : List Scope) (name other : ℕ) (type : MorphlType) (capacity : ℕ)
    → (name == other) ≡ false
    → lookup_in (with_var current name type capacity ∷ outer) other
      ≡ lookup_in (current ∷ outer) other
unfolding lookup_in
lookup-with_var_other current outer name other type capacity differ =
    elim (Option-cases (find_entry current.vars other)) [
      | inl missing ↦
          let now : find_entry (with_var current name type capacity).vars other ≡ none =
            find_entry-append current.vars name other type ∙ rw (missing, differ) refl in
          rw (now, missing, lookup_in) refl
      | inr (t, e) ↦
          let now : find_entry (with_var current name type capacity).vars other ≡ some t =
            find_entry-append current.vars name other type ∙ rw e refl in
          rw (now, e, lookup_in) refl
    ]

-- The scopes before and after a definition that succeeded.
record Defined (before after : List Scope) (name : ℕ) (type : MorphlType) : Type 0 where
  current : Scope
  outer : List Scope
  capacity : ℕ
  before_is : before ≡ current ∷ outer
  after_is : after ≡ with_var current name type capacity ∷ outer

define_in-Defined :
    (ctx : TypeContext) (scopes : List Scope) (name : ℕ) (type : MorphlType) {ctx' : TypeContext}
    → define_in ctx scopes name type ≡ (true, ctx')
    → Defined scopes ctx'.scopes name type
unfolding define_in
define_in-Defined ctx [] name type h = cc
define_in-Defined ctx (current ∷ outer) name type h =
    elim (Option-cases (room ctx.arena (length current.vars) current.var_capacity entry_size)) [
      | inl full ↦ cc (rw (full, define_in) at h)
      | inr ((a, capacity), e) ↦ record {
        current = current;
        outer = outer;
        capacity = capacity;
        before_is = refl;
        after_is = sym (ap (λ (x : Bool × TypeContext). x.1.scopes) (rw (e, define_in) at h));
      }
    ]

define-Defined :
    (ctx : TypeContext) (name : ℕ) (type : MorphlType) {ctx' : TypeContext}
    → type_context_define_var ctx name type ≡ (true, ctx')
    → Defined ctx.scopes ctx'.scopes name type × ((name == 0) ≡ false)
unfolding type_context_define_var
define-Defined ctx name type h = elim (Bool-cases (name == 0 || is_null type)) [
  | inl refused ↦ cc (rw refused at h)
  | inr allowed ↦
      (define_in-Defined ctx ctx.scopes name type (rw allowed at h), ground (arith, allowed))
]

-- A definition that succeeds gives the name its type, unless the current scope has that name
-- already, and leaves what the other names stand for.
pub type_context_lookup_var-define_var :
    (ctx : TypeContext) (name other : ℕ) (type : MorphlType) {ctx' : TypeContext}
    → type_context_define_var ctx name type ≡ (true, ctx')
    → type_context_lookup_var ctx' other ≡ (
        if name == other && not (type_context_check_duplicate_var ctx name)
        then type
        else type_context_lookup_var ctx other)
unfolding type_context_lookup_var type_context_check_duplicate_var
type_context_lookup_var-define_var ctx name other type h =
    let (d, positive) = define-Defined ctx name type h in
    elim (Bool-cases (name == other)) [
      | inl same ↦
          let e : other ≡ name = sym ((==_iff name other).0 same) in
          rw (same, e, positive, d.after_is, d.before_is)
            (lookup-with_var_same d.current d.outer name type d.capacity)
      | inr differ ↦
          rw (differ, d.after_is, d.before_is)
            (ap (λ t. if other == 0 then no_type else t)
              (lookup-with_var_other d.current d.outer name other type d.capacity differ))
    ]

-- Entering a scope keeps what every name stands for.
pub push_scope-scopes :
    (ctx : TypeContext) {ctx' : TypeContext}
    → type_context_push_scope ctx ≡ (true, ctx')
    → ctx'.scopes ≡ empty_scope ∷ ctx.scopes
unfolding type_context_push_scope
push_scope-scopes ctx h =
    elim (Option-cases (room ctx.arena (length ctx.scopes) ctx.scope_capacity scope_size)) [
      | inl full ↦ cc (rw (full, type_context_push_scope) at h)
      | inr ((a, capacity), e) ↦ elim (Option-cases (arena_alloc a (16 * entry_size))) [
        | inl no_vars ↦ cc (rw (e, no_vars, type_context_push_scope) at h)
        | inr (a₁, e₁) ↦ elim (Option-cases (arena_alloc a₁ (4 * forward_size))) [
          | inl no_forwards ↦ cc (rw (e, e₁, no_forwards, type_context_push_scope) at h)
          | inr (a₂, e₂) ↦ sym (
              ap (λ (x : Bool × TypeContext). x.1.scopes)
                (rw (e, e₁, e₂, type_context_push_scope) at h))
        ]
      ]
    ]

-- These scopes stand around a current one.
abbrev pub Inside : List Scope → List Scope → Type 0
Inside scopes outer = (current : Scope) × (scopes ≡ current ∷ outer)

update_in-Inside :
    (ctx : TypeContext) (scopes : List Scope) (name : ℕ) (type : MorphlType) {ctx' : TypeContext}
    {outer : List Scope}
    → update_in ctx scopes name type ≡ (true, ctx')
    → Inside scopes outer
    → Inside ctx'.scopes outer
unfolding update_in
update_in-Inside ctx [] name type h i = cc
update_in-Inside ctx (current ∷ rest) name type {outer = outer} h (c, e) =
    elim (Option-cases (update_entry current.vars name type)) [
      | inl missing ↦ cc (rw (missing, update_in) at h)
      | inr (vars, found) ↦
          let same : rest ≡ outer = cc in
          (
            record current { vars = vars },
            sym (ap (λ (x : Bool × TypeContext). x.1.scopes) (rw (found, update_in) at h))
                ∙ ap (◌∷◌ (record current { vars = vars })) same,
          )
    ]

update-Inside :
    (ctx : TypeContext) (name : ℕ) (type : MorphlType) {ctx' : TypeContext} {outer : List Scope}
    → type_context_update_var ctx name type ≡ (true, ctx')
    → Inside ctx.scopes outer
    → Inside ctx'.scopes outer
unfolding type_context_update_var
update-Inside ctx name type h i = elim (Bool-cases (name == 0 || is_null type)) [
  | inl refused ↦ cc (rw refused at h)
  | inr allowed ↦ update_in-Inside ctx ctx.scopes name type (rw allowed at h) i
]

define-Inside :
    (ctx : TypeContext) (name : ℕ) (type : MorphlType) {ctx' : TypeContext} {outer : List Scope}
    → type_context_define_var ctx name type ≡ (true, ctx')
    → Inside ctx.scopes outer
    → Inside ctx'.scopes outer
define-Inside ctx name type {outer = outer} h (c, e) =
    let (d, _) = define-Defined ctx name type h in
    let both = sym d.before_is ∙ e in
    let same : d.outer ≡ outer = ap outer_of both in
    (
      with_var d.current name type d.capacity,
      d.after_is ∙ ap (◌∷◌ (with_var d.current name type d.capacity)) same,
    )

-- What a checker does while it is in a scope: definitions, updates, and inner scopes that are
-- entered and left again.
pub data Balanced : TypeContext → TypeContext → Type 0 where
  finished : {c : TypeContext} → Balanced c c
  defines :
      {c end : TypeContext} (c' : TypeContext) (name : ℕ) (type : MorphlType)
      → type_context_define_var c name type ≡ (true, c')
      → Balanced c' end
      → Balanced c end
  updates :
      {c end : TypeContext} (c' : TypeContext) (name : ℕ) (type : MorphlType)
      → type_context_update_var c name type ≡ (true, c')
      → Balanced c' end
      → Balanced c end
  nests :
      {c end : TypeContext} (inner left : TypeContext)
      → type_context_push_scope c ≡ (true, inner)
      → Balanced inner left
      → Balanced (type_context_pop_scope left).1 end
      → Balanced c end

-- Leaving a scope with these around it.
pop-scopes :
    (ctx : TypeContext) (scopes : List Scope) (outer : Scope) (rest : List Scope)
    → Inside scopes (outer ∷ rest)
    → (pop_scopes ctx scopes).1.scopes ≡ outer ∷ rest
unfolding pop_scopes
pop-scopes ctx scopes outer rest (current, e) = rw e refl

Balanced-Inside :
    {c end : TypeContext} {outer : List Scope}
    → Balanced c end
    → Inside c.scopes outer
    → Inside end.scopes outer
Balanced-Inside finished i = i
Balanced-Inside (defines {c = c} c' n t h more) i = Balanced-Inside more (define-Inside c n t h i)
Balanced-Inside (updates {c = c} c' n t h more) i = Balanced-Inside more (update-Inside c n t h i)
Balanced-Inside {outer = outer} (nests {c = c} inner left entered inside more) (current, e) =
    let deep =
      Balanced-Inside inside (empty_scope, push_scope-scopes c entered ∙ ap (◌∷◌ empty_scope) e) in
    Balanced-Inside more (current, pop-scopes left left.scopes current outer deep)

-- Entering a scope, working in it, with inner scopes entered and left, and leaving it gives back
-- the scopes that were there before, if there was one.
pub pop_scope-push_scope :
    (c inner left : TypeContext)
    → 0 < length c.scopes
    → type_context_push_scope c ≡ (true, inner)
    → Balanced inner left
    → (type_context_pop_scope left).1.scopes ≡ c.scopes
pop_scope-push_scope c inner left some_scope entered inside = by_scopes c.scopes refl some_scope
  where
    by_scopes :
        (scopes : List Scope)
        → c.scopes ≡ scopes
        → 0 < length scopes
        → (type_context_pop_scope left).1.scopes ≡ c.scopes
    by_scopes [] e h = absurd (omega (arith, h))
    by_scopes (current ∷ outer) e h =
        let deep =
          Balanced-Inside inside
            (empty_scope, push_scope-scopes c entered ∙ ap (◌∷◌ empty_scope) e) in
        pop-scopes left left.scopes current outer deep ∙ sym e
