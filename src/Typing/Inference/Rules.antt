-- ===== src/Typing/Inference/Rules.antt =====
-- How `morphl_infer_type_for_op` of src/typing/inference.c tells operators apart.
use morphl.Prelude.{
  ℕ, ◌<◌, ◌≡◌, refl, sym, ap, ◌∙◌, subst, ◌⊎◌, inl, inr, Bool, true, false, Bool-cases, Option,
  none, some, some-injective, List, [], ◌∷◌, Bytes, bytes_eq, bytes_eq_iff, ◌==◌, ==_iff, ==_refl,
  if◌then◌else◌, Outcome, ok, ok-injective, ◌>>=◌, arith,
}
use morphl.Util.Intern.{InternTable, interns_lookup}
use morphl.Util.Intern.Invariant.{WellFormed}
use morphl.Util.Intern.Ids.{Keeps, next, interns_intern-interns_lookup}
use morphl.Typing.Inference.{OpGroup, is_op, is_one_of, group_of}

-- The call returns, and `P` holds of the result.
abbrev pub Gives : {A : Type 0} → (A → Type 0) → Outcome A → Type 0
Gives {A = A} P o = (a : A) × (o ≡ ok a) × P a

pub Gives-bind :
    {A B : Type 0} {P : A → Type 0} {Q : B → Type 0} (x : Outcome A) {f : A → Outcome B}
    → Gives P x
    → ((a : A) → P a → Gives Q (f a))
    → Gives Q (x >>= f)
Gives-bind x (a, e, p) k = rw e (k a p)

-- The string is one of these.
unfoldable pub In : Bytes → List Bytes → Type 0
In s [] = ⊥
In s (name ∷ names) = (s ≡ name) ⊎ In s names

-- A later table, in which `op` still stands for `s`.
abbrev pub Later : ℕ → Bytes → InternTable → InternTable → Type 0
Later op s t t' = WellFormed t' × Keeps t t' × (interns_lookup t' op ≡ some s)

lookup-pos : (t : InternTable) (op : ℕ) (s : Bytes) → interns_lookup t op ≡ some s → 0 < op
unfolding interns_lookup
lookup-pos t op s e = elim (Bool-cases (op == 0)) [
  | inl none_given ↦ cc (rw ((==_iff op 0).0 none_given) at e)
  | inr given ↦ ground (arith, given)
]

pub is_op-bytes_eq :
    (op : ℕ) (s name : Bytes) (t : InternTable)
    → WellFormed t
    → interns_lookup t op ≡ some s
    → Gives (λ (b, t'). (b ≡ bytes_eq s name) × Later op s t t') (is_op op name t)
is_op-bytes_eq op s name t w at =
    let n = next t name w in
    let at' = n.keeps op s at in
    rw n.runs (
      (op == n.id, n.table),
      refl,
      (
        (elim (Bool-cases (bytes_eq s name)) [
          | inl same ↦
              let same' : s ≡ name = (bytes_eq_iff s name).0 same in
              let (t', runs, _) =
                interns_intern-interns_lookup t name op w (at ∙ ap (λ x. some x) same') in
              let id_is : n.id ≡ op =
                ap (λ (x : ℕ × InternTable). x.0) (ok-injective (sym n.runs ∙ runs)) in
              (rw (same, id_is) (==_refl op))
          | inr other ↦ rw other (elim (Bool-cases (op == n.id)) [
            | inl e ↦
                let e' : op ≡ n.id = (==_iff op n.id).0 e in
                let named : interns_lookup n.table op ≡ some name =
                  rw (sym e') at (n.named (subst (λ x. 0 < x) e' (lookup-pos t op s at))) in
                let same : s ≡ name = some-injective (sym at' ∙ named) in
                cc ((bytes_eq_iff s name).1 same, other)
            | inr e ↦ e
          ])
        ]),
        (n.fine, n.keeps, at'),
      ),
    )

pub Later-refl :
    (op : ℕ) (s : Bytes) (t : InternTable)
    → WellFormed t
    → interns_lookup t op ≡ some s
    → Later op s t t
Later-refl op s t w at = (w, λ id x h. h, at)

pub Later-then :
    (op : ℕ) (s : Bytes) (t t' t'' : InternTable)
    → Later op s t t'
    → Later op s t' t''
    → Later op s t t''
Later-then op s t t' t'' (w, keeps, at) (w', keeps', at') =
    (w', λ id x h. keeps' id x (keeps id x h), at')

-- One of the names, if it is found, is the string.
unfoldable pub FoundIn : Bytes → List Bytes → Bool → Type 0
FoundIn s names found = (found ≡ true → In s names) × (found ≡ false → In s names → ⊥)

pub is_one_of-In :
    (op : ℕ) (s : Bytes) (names : List Bytes) (t : InternTable)
    → WellFormed t
    → interns_lookup t op ≡ some s
    → Gives (λ (found, t'). FoundIn s names found × Later op s t t') (is_one_of op names t)
unfolding is_one_of In FoundIn
is_one_of-In op s [] t w at = ((false, t), refl, ((λ e. cc, λ e h. h), Later-refl op s t w at))
is_one_of-In op s (name ∷ names) t w at =
    Gives-bind (is_op op name t) (is_op-bytes_eq op s name t w at)
      λ (same, t') (e, later). go same t' e later λ t'' w' at'. is_one_of-In op s names t'' w' at'
  where
    go :
        (same : Bool) (t' : InternTable)
        → same ≡ bytes_eq s name
        → Later op s t t'
        → ((t' : InternTable)
            → WellFormed t'
            → interns_lookup t' op ≡ some s
            → Gives
                (λ (found, t''). FoundIn s names found × Later op s t' t'')
                (is_one_of op names t'))
        → Gives
            (λ (found, t''). FoundIn s (name ∷ names) found × Later op s t t'')
            (if same then ok (true, t') else is_one_of op names t')
    go true t' e later rest =
        ((true, t'), refl, ((λ _. inl ((bytes_eq_iff s name).0 (sym e)), λ e' h. cc), later))
    go false t' e later rest =
        let ((found, t''), runs, ((present, absent), later')) = rest t' later.0 later.2 in
        (
          (found, t''),
          runs,
          (
            (
              λ h. inr (present h),
              λ h h'. elim h' [
                | inl same_name ↦ cc ((bytes_eq_iff s name).1 same_name, e)
                | inr other ↦ absent h other
              ],
            ),
            Later-then op s t t' t'' later later',
          ),
        )

-- Every name of the table is one of the group's in `P`.
unfoldable pub Rows : (OpGroup → Bytes → Type 0) → Bytes → List (OpGroup × List Bytes) → Type 0
Rows P s [] = Unit
Rows P s ((g, names) ∷ rows) = (In s names → P g s) × Rows P s rows

-- No row has the string.
unfoldable pub Unlisted : Bytes → List (OpGroup × List Bytes) → Type 0
Unlisted s [] = Unit
Unlisted s ((g, names) ∷ rows) = (In s names → ⊥) × Unlisted s rows

abbrev pub GroupFits :
    (OpGroup → Bytes → Type 0) → Bytes → List (OpGroup × List Bytes) → Option OpGroup → Type 0
GroupFits P s rows none = Unlisted s rows
GroupFits P s rows (some g) = P g s

pub group_of-GroupFits :
    (P : OpGroup → Bytes → Type 0) (op : ℕ) (s : Bytes) (rows : List (OpGroup × List Bytes))
    (t : InternTable)
    → Rows P s rows
    → WellFormed t
    → interns_lookup t op ≡ some s
    → Gives (λ (g, t'). GroupFits P s rows g × Later op s t t') (group_of op rows t)
unfolding group_of Rows Unlisted FoundIn
group_of-GroupFits P op s [] t fits w at = ((none, t), refl, (tt, Later-refl op s t w at))
group_of-GroupFits P op s ((g, names) ∷ rows) t (fit, fits) w at =
    Gives-bind (is_one_of op names t) (is_one_of-In op s names t w at) λ (found, t') (has, later).
      go found t' has later λ t'' w' at'. group_of-GroupFits P op s rows t'' fits w' at'
  where
    go :
        (found : Bool) (t' : InternTable)
        → FoundIn s names found
        → Later op s t t'
        → ((t' : InternTable)
            → WellFormed t'
            → interns_lookup t' op ≡ some s
            → Gives (λ (h, t''). GroupFits P s rows h × Later op s t' t'') (group_of op rows t'))
        → Gives
            (λ (h, t''). GroupFits P s ((g, names) ∷ rows) h × Later op s t t'')
            (if found then ok (some g, t') else group_of op rows t')
    go true t' fits_name later rest = ((some g, t'), refl, (fit (fits_name.0 refl), later))
    go false t' fits_name later rest =
        let ((h, t''), runs, (fits', later')) = rest t' later.0 later.2 in
        ((h, t''), runs, (kept h fits', Later-then op s t t' t'' later later'))
      where
        kept : (h : Option OpGroup) → GroupFits P s rows h → GroupFits P s ((g, names) ∷ rows) h
        kept none unlisted = (fits_name.1 refl, unlisted)
        kept (some h) fit' = fit'
