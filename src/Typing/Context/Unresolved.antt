-- ===== src/Typing/Context/Unresolved.antt =====
-- src/typing/type_context.c: forwards that never get their body, found at the end of a scope or of
-- a file.
use morphl.Prelude.{
  ℕ, zero, suc, ◌≡◌, refl, sym, ap, ap₂, ◌⊎◌, subst, ◌↔◌, Bool, true, false, not, ◌&&◌, ◌||◌,
  Bool-cases, &&-eq_true, inl, inr, some, some-injective, List, [], ◌∷◌, get_elem?,
}
use morphl.Typing.Context.{
  ForwardEntry, Scope, TypeContext, has_unresolved, pop_scopes, type_context_pop_scope, check_scope,
  check_scopes, type_context_check_unresolved_forwards,
}

-- Every forward of the list has its body.
abbrev pub AllResolved : List ForwardEntry → Type 0
AllResolved fs = (k : ℕ) (f : ForwardEntry) → get_elem? fs k ≡ some f → f.resolved ≡ true

-- No forward of the scope lacks its body, and no error was recorded.
abbrev pub Settled : Scope → Type 0
Settled s = (s.has_forward_errors ≡ false) × AllResolved s.forwards

-- Every scope is settled.
abbrev pub AllSettled : List Scope → Type 0
AllSettled scopes = (k : ℕ) (s : Scope) → get_elem? scopes k ≡ some s → Settled s

has_unresolved-AllResolved : (fs : List ForwardEntry) → has_unresolved fs ≡ false → AllResolved fs
unfolding has_unresolved
has_unresolved-AllResolved [] h k f at = cc
has_unresolved-AllResolved (g ∷ fs) h k f at = elim (Bool-cases g.resolved) [
  | inr missing ↦ cc (rw (missing, has_unresolved) at h)
  | inl done ↦
      elim k as (λ k. get_elem? (g ∷ fs) k ≡ some f → f.resolved ≡ true) [
        | zero ↦ λ at. subst (λ x. x.resolved ≡ true) (some-injective at) done
        | suc k ↦ λ at. has_unresolved-AllResolved fs (rw (done, has_unresolved) at h) k f at
      ]
        at
]

AllResolved-has_unresolved : (fs : List ForwardEntry) → AllResolved fs → has_unresolved fs ≡ false
unfolding has_unresolved
AllResolved-has_unresolved [] all = refl
AllResolved-has_unresolved (g ∷ fs) all =
    rw (all 0 g refl) (AllResolved-has_unresolved fs (λ k f at. all (suc k) f at))

-- A test that both flags are off.
neither_iff :
    (scope : Scope)
    → (not (scope.has_forward_errors || has_unresolved scope.forwards) ≡ true) ↔ Settled scope
neither_iff scope = (
  λ h. elim (Bool-cases scope.has_forward_errors) [
    | inl error ↦ cc (rw error at h)
    | inr fine ↦ elim (Bool-cases (has_unresolved scope.forwards)) [
      | inl missing ↦ cc (rw (fine, missing) at h)
      | inr none_missing ↦ (fine, has_unresolved-AllResolved scope.forwards none_missing)
    ]
  ],
  λ (fine, all). rw (fine, AllResolved-has_unresolved scope.forwards all) refl,
)

-- Leaving an inner scope removes it, and reports success exactly if its forwards all have their
-- bodies and no error was recorded in it.
pub pop_scope_iff :
    (ctx : TypeContext) (current outer : Scope) (scopes : List Scope)
    → ctx.scopes ≡ current ∷ (outer ∷ scopes)
    → ((type_context_pop_scope ctx).1 ≡ record ctx { scopes = outer ∷ scopes })
      × (((type_context_pop_scope ctx).0 ≡ true) ↔ Settled current)
unfolding pop_scopes
pop_scope_iff ctx current outer scopes h = rw h (refl, neither_iff current)

-- Where an error was recorded, where one is now, and where there is none.
check_scope-cases :
    (scope : Scope)
    → ((check_scope scope ≡ (false, scope)) × (scope.has_forward_errors ≡ true))
      ⊎ (((check_scope scope ≡ (false, record scope { has_forward_errors = true }))
            × (has_unresolved scope.forwards ≡ true))
          ⊎ ((check_scope scope ≡ (true, scope)) × Settled scope))
unfolding check_scope
check_scope-cases scope = elim (Bool-cases scope.has_forward_errors) [
  | inl error ↦ inl (rw error refl, error)
  | inr fine ↦ inr (elim (Bool-cases (has_unresolved scope.forwards)) [
    | inl missing ↦ inl (rw (fine, missing) refl, missing)
    | inr settled ↦
        inr (rw (fine, settled) refl, (fine, has_unresolved-AllResolved scope.forwards settled))
  ])
]

-- What a check of the scope answers, and that a second check finds the same.
abbrev Checks : Scope → Bool × Scope → Type 0
Checks scope r = ((r.0 ≡ true) ↔ Settled scope) × (check_scope r.1 ≡ r)

check_scope-Checks : (scope : Scope) → Checks scope (check_scope scope)
unfolding check_scope
check_scope-Checks scope = elim (check_scope-cases scope) [
  | inl (e, error) ↦ subst (Checks scope) (sym e) ((λ h. cc, λ (fine, _). cc), e)
  | inr (inl (e, missing)) ↦ subst (Checks scope) (sym e) (
    (λ h. cc, λ (_, all). let settled = AllResolved-has_unresolved scope.forwards all in cc),
    refl,
  )
  | inr (inr (e, settled)) ↦ subst (Checks scope) (sym e) ((λ _. settled, λ _. refl), e)
]

check_scopes_lem :
    (scopes : List Scope)
    → (((check_scopes scopes).0 ≡ true) ↔ AllSettled scopes)
      × (check_scopes (check_scopes scopes).1 ≡ check_scopes scopes)
unfolding check_scopes
check_scopes_lem [] = ((λ h k s at. cc, λ _. refl), refl)
check_scopes_lem (scope ∷ scopes) =
    let (here, here_again) = check_scope-Checks scope in
    let (others, again) = check_scopes_lem scopes in
    (
      (
        λ h k s at.
            let (first, rest) = &&-eq_true _ _ h in
            elim k as (λ k. get_elem? (scope ∷ scopes) k ≡ some s → Settled s) [
              | zero ↦ λ at. subst Settled (some-injective at) (here.0 first)
              | suc k ↦ λ at. others.0 rest k s at
            ]
              at,
        λ all. rw (here.1 (all 0 scope refl), others.1 (λ k s at. all (suc k) s at)) refl,
      ),
      ap₂ (λ (x : Bool × Scope) (y : Bool × List Scope). (x.0 && y.0, x.1 ∷ y.1)) here_again again,
    )

-- The check for forwards without a body passes exactly if no scope has one and no scope has an
-- error recorded, and a second check gives the same answer and changes nothing more.
pub check_unresolved_forwards_iff :
    (ctx : TypeContext)
    → (((type_context_check_unresolved_forwards ctx).0 ≡ true) ↔ AllSettled ctx.scopes)
      × (type_context_check_unresolved_forwards (type_context_check_unresolved_forwards ctx).1
          ≡ type_context_check_unresolved_forwards ctx)
unfolding type_context_check_unresolved_forwards
check_unresolved_forwards_iff ctx =
    let (passes, again) = check_scopes_lem ctx.scopes in
    (passes, ap (λ (x : Bool × List Scope). (x.0, record ctx { scopes = x.1 })) again)
