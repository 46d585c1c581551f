-- ===== src/Typing/Context/Forwards.antt =====
-- Forward declarations of src/typing/type_context.c: declared, then given a body, once.
use morphl.Prelude.{
  ℕ, ◌≡◌, refl, sym, ap, ◌∙◌, subst, Bool, true, false, not, ◌||◌, Bool-cases, Option-cases, inl,
  inr, none, some, some-injective, List, [], ◌∷◌, ◌++◌, length, ◌==◌, ==_iff, if◌then◌else◌, arith,
}
use morphl.Typing.Types.{MorphlType, is_null, type_equals}
use morphl.Typing.Types.Equality.{type_equals_iff}
use morphl.Typing.Context.{
  ForwardEntry, Scope, TypeContext, room, forward_size, find_forward, lookup_forward_in,
  type_context_lookup_forward, define_forward_in, type_context_define_forward, resolve_forward,
  forward_body_in, type_context_define_forward_body,
}

abbrev declared : ℕ → MorphlType → ForwardEntry
declared name type = record { name = name; type = type; resolved = false }

find_forward-append :
    (fs : List ForwardEntry) (name other : ℕ) (type : MorphlType)
    → find_forward fs name ≡ none
    → find_forward (fs ++ (declared name type ∷ [])) other
      ≡ (if name == other then some (declared name type) else find_forward fs other)
unfolding find_forward
find_forward-append [] name other type new = refl
find_forward-append (f ∷ fs) name other type new = elim (Bool-cases (f.name == name)) [
  | inl there ↦ cc (rw (there, find_forward) at new)
  | inr differ ↦
      let rest = find_forward-append fs name other type (rw (differ, find_forward) at new) in
      elim (Bool-cases (f.name == other)) [
        | inl same ↦
            let apart : (name == other) ≡ false = ground (arith, same, differ) in
            rw (same, apart, find_forward) refl
        | inr no_match ↦ rw (no_match, find_forward) rest
      ]
]

define_forward_in-lookup :
    (ctx : TypeContext) (scopes : List Scope) (name other : ℕ) (type : MorphlType)
    {ctx' : TypeContext}
    → define_forward_in ctx scopes name type ≡ (true, ctx')
    → lookup_forward_in ctx'.scopes other
      ≡ (if name == other then some (declared name type) else lookup_forward_in scopes other)
unfolding define_forward_in lookup_forward_in
define_forward_in-lookup ctx [] name other type h = cc
define_forward_in-lookup ctx (current ∷ outer) name other type h =
    elim (Option-cases (find_forward current.forwards name)) [
      | inr (f, there) ↦ cc (rw (there, define_forward_in) at h)
      | inl new ↦
          elim (Option-cases
            (room ctx.arena (length current.forwards) current.forward_capacity forward_size)) [
              | inl full ↦ cc (rw (new, full, define_forward_in) at h)
              | inr ((a, capacity), e) ↦
                  let after =
                    ap (λ (x : Bool × TypeContext). lookup_forward_in x.1.scopes other)
                      (rw (new, e, define_forward_in) at h) in
                  sym after ∙ find_forward-append current.forwards name other type new
            ]
    ]

-- A forward declaration that succeeds stands in the current scope without a body, and leaves the
-- other forwards.
pub lookup_forward-define_forward :
    (ctx : TypeContext) (name other : ℕ) (type : MorphlType) {ctx' : TypeContext}
    → type_context_define_forward ctx name type ≡ (true, ctx')
    → type_context_lookup_forward ctx' other ≡ (
        if name == other
        then some (record { name = name; type = type; resolved = false })
        else type_context_lookup_forward ctx other)
unfolding type_context_define_forward type_context_lookup_forward
lookup_forward-define_forward ctx name other type h =
    elim (Bool-cases (name == 0 || is_null type)) [
      | inl refused ↦ cc (rw refused at h)
      | inr allowed ↦
          let in_scope =
            define_forward_in-lookup ctx ctx.scopes name other type (rw allowed at h) in
          elim (Bool-cases (other == 0)) [
            | inl zero_name ↦
                let apart : (name == other) ≡ false = ground (arith, allowed, zero_name) in
                rw (zero_name, apart) refl
            | inr positive ↦ rw positive in_scope
          ]
    ]

find_forward-head :
    (f : ForwardEntry) (fs : List ForwardEntry) (name other : ℕ)
    → f.name ≡ name
    → find_forward (record f { resolved = true } ∷ fs) other
      ≡ (if name == other then some (record f { resolved = true }) else find_forward (f ∷ fs) other)
unfolding find_forward
find_forward-head f fs name other e = elim (Bool-cases (f.name == other)) [
  | inl same ↦
      let here : (name == other) ≡ true = ground (arith, same, e) in
      rw (same, here, find_forward) refl
  | inr differ ↦
      let apart : (name == other) ≡ false = ground (arith, differ, e) in
      rw (differ, apart, find_forward) refl
]

find_forward-tail :
    (f : ForwardEntry) (fs rest : List ForwardEntry) (name other : ℕ) (g : ForwardEntry)
    → (f.name == name) ≡ false
    → find_forward rest other ≡ (if name == other then some g else find_forward fs other)
    → find_forward (f ∷ rest) other
      ≡ (if name == other then some g else find_forward (f ∷ fs) other)
unfolding find_forward
find_forward-tail f fs rest name other g differ h = elim (Bool-cases (f.name == other)) [
  | inl same ↦
      let apart : (name == other) ≡ false = ground (arith, same, differ) in
      rw (same, apart, find_forward) refl
  | inr no_match ↦ rw (no_match, find_forward) h
]

-- What a body that is accepted finds and leaves.
pub record Resolved (fs fs' : List ForwardEntry) (name : ℕ) (type : MorphlType) : Type 0 where
  pub f : ForwardEntry
  pub found : find_forward fs name ≡ some f
  pub open_before : f.resolved ≡ false
  pub same_type : f.type ≡ type
  pub after :
      (other : ℕ)
      → find_forward fs' other
        ≡ (if name == other then some (record f { resolved = true }) else find_forward fs other)

resolve-Resolved :
    (fs : List ForwardEntry) (name : ℕ) (type : MorphlType) {fs' : List ForwardEntry}
    → resolve_forward fs name type ≡ some fs'
    → Resolved fs fs' name type
unfolding resolve_forward find_forward
resolve-Resolved [] name type h = cc
resolve-Resolved (f ∷ fs) name type {fs'} h = elim (Bool-cases (f.name == name)) [
  | inl same ↦ elim (Bool-cases (f.resolved || not (type_equals f.type type))) [
    | inl refused ↦ cc (rw (same, refused, resolve_forward) at h)
    | inr accepted ↦
        let open_before : f.resolved ≡ false = ground (arith, accepted) in
        let equal : type_equals f.type type ≡ true = ground (arith, accepted) in
        let fs'_is = some-injective (rw (same, accepted, resolve_forward) at h) in
        let name_is = (==_iff f.name name).0 same in
        record {
          f = f;
          found = rw (same, find_forward) refl;
          open_before = open_before;
          same_type = (type_equals_iff f.type type).0 equal;
          after = λ other.
              subst
                (λ x. find_forward x other ≡ (
                  if name == other
                  then some (record f { resolved = true })
                  else find_forward (f ∷ fs) other))
                fs'_is (find_forward-head f fs name other name_is);
        }
  ]
  | inr differ ↦ elim (Option-cases (resolve_forward fs name type)) [
    | inl missing ↦ cc (rw (differ, missing, resolve_forward) at h)
    | inr (rest, e) ↦
        let fs'_is = some-injective (rw (differ, e, resolve_forward) at h) in
        let r = resolve-Resolved fs name type e in
        record {
          f = r.f;
          found = rw (differ, find_forward) r.found;
          open_before = r.open_before;
          same_type = r.same_type;
          after = λ other.
              subst
                (λ x. find_forward x other ≡ (
                  if name == other
                  then some (record r.f { resolved = true })
                  else find_forward (f ∷ fs) other))
                fs'_is
                (find_forward-tail f fs rest name other (record r.f { resolved = true }) differ
                  (r.after other));
        }
  ]
]

forward_body_in-lookup :
    (ctx : TypeContext) (scopes : List Scope) (name : ℕ) (type : MorphlType) {ctx' : TypeContext}
    → forward_body_in ctx scopes name type ≡ (true, ctx')
    → (f : ForwardEntry) × (lookup_forward_in scopes name ≡ some f)
      × (f.resolved ≡ false)
      × (f.type ≡ type)
      × ((other : ℕ)
          → lookup_forward_in ctx'.scopes other ≡ (
              if name == other
              then some (record f { resolved = true })
              else lookup_forward_in scopes other))
unfolding forward_body_in lookup_forward_in
forward_body_in-lookup ctx [] name type h = cc
forward_body_in-lookup ctx (current ∷ outer) name type h =
    elim (Option-cases (resolve_forward current.forwards name type)) [
      | inl refused ↦ cc (rw (refused, forward_body_in) at h)
      | inr (forwards, e) ↦
          let r = resolve-Resolved current.forwards name type e in
          let scopes_are =
            ap (λ (x : Bool × TypeContext). x.1.scopes) (rw (e, forward_body_in) at h) in
          (
            r.f,
            r.found,
            r.open_before,
            r.same_type,
            λ other. sym (ap (λ x. lookup_forward_in x other) scopes_are) ∙ r.after other,
          )
    ]

-- A body is accepted only for a forward of the current scope that has none yet and has an equal
-- type. Then the forward has its body, and the other forwards are as before.
pub lookup_forward-define_forward_body :
    (ctx : TypeContext) (name : ℕ) (type : MorphlType) {ctx' : TypeContext}
    → type_context_define_forward_body ctx name type ≡ (true, ctx')
    → (f : ForwardEntry) × (type_context_lookup_forward ctx name ≡ some f)
      × (f.resolved ≡ false)
      × (f.type ≡ type)
      × ((other : ℕ)
          → type_context_lookup_forward ctx' other ≡ (
              if name == other
              then some (record f { resolved = true })
              else type_context_lookup_forward ctx other))
unfolding type_context_define_forward_body type_context_lookup_forward
lookup_forward-define_forward_body ctx name type {ctx'} h =
    elim (Bool-cases (name == 0 || is_null type)) [
      | inl refused ↦ cc (rw refused at h)
      | inr allowed ↦
          let (f, found, open_before, same_type, after) =
            forward_body_in-lookup ctx ctx.scopes name type (rw allowed at h) in
          let positive : (name == 0) ≡ false = ground (arith, allowed) in
          (
            f,
            rw positive found,
            open_before,
            same_type,
            λ other. elim (Bool-cases (other == 0)) [
              | inl zero_name ↦
                  let apart : (name == other) ≡ false = ground (arith, positive, zero_name) in
                  rw (zero_name, apart) refl
              | inr named ↦ rw named (after other)
            ],
          )
    ]
