-- ===== src/Typing/Inference/Owner.antt =====
-- Each operator of `morphl_infer_type_for_op` of src/typing/inference.c stands in one group.
use morphl.Prelude.{
  ℕ, ◌≡◌, refl, sym, subst, ◌∙◌, inl, inr, Bool, true, false, Bool-cases, Option, none, some, List,
  [], ◌∷◌, Bytes, bytes_eq, bytes_eq_iff, if◌then◌else◌,
}
use morphl.Util.Intern.{InternTable, interns_lookup}
use morphl.Util.Intern.Invariant.{WellFormed}
use morphl.Typing.Inference.{
  OpGroup, references, this_type, file_type, global_type, forwards, comparisons, logic, negation,
  int_arithmetic, float_arithmetic, bitwise, bitwise_not, structure, functions, returns_op, calls,
  branches, group_names, is_one_of, group_of,
}
use morphl.Typing.Inference.Rules.{
  Gives, Gives-bind, In, Later, Later-refl, Later-then, is_one_of-In, FoundIn, Unlisted,
}
use morphl.Typing.Inference.Typed.{names_of}

-- The test for a string of the list, without ids.
unfoldable pub among : Bytes → List Bytes → Bool
among s [] = false
among s (name ∷ names) = let rest = among s names in if bytes_eq s name then true else rest

-- The first group that has the string.
unfoldable pub owner : Bytes → List (OpGroup × List Bytes) → Option OpGroup
owner s [] = none
owner s ((g, names) ∷ rows) = let rest = owner s rows in if among s names then some g else rest

among-In : (s : Bytes) (names : List Bytes) → FoundIn s names (among s names)
unfolding among In FoundIn
among-In s [] = (λ e. cc, λ _ is_in. is_in)
among-In s (name ∷ names) = elim (Bool-cases (bytes_eq s name)) [
  | inl same ↦ rw same (λ _. inl ((bytes_eq_iff s name).0 same), λ e is_in. cc)
  | inr other ↦ rw other (
    λ e. inr ((among-In s names).0 e),
    λ e is_in. elim is_in [
      | inl same ↦ cc ((bytes_eq_iff s name).1 same, other)
      | inr further ↦ (among-In s names).1 e further
    ],
  )
]

FoundIn-among :
    (s : Bytes) (names : List Bytes) (found : Bool) → FoundIn s names found → found ≡ among s names
unfolding FoundIn
FoundIn-among s names found (present, absent) = elim (Bool-cases found) [
  | inl e ↦ elim (Bool-cases (among s names)) [
    | inl e' ↦ e ∙ sym e'
    | inr e' ↦ absurd ((among-In s names).1 e' (present e))
  ]
  | inr e ↦ elim (Bool-cases (among s names)) [
    | inl e' ↦ absurd (absent e ((among-In s names).0 e'))
    | inr e' ↦ e ∙ sym e'
  ]
]

pub group_of-owner :
    (op : ℕ) (s : Bytes) (rows : List (OpGroup × List Bytes)) (t : InternTable)
    → WellFormed t
    → interns_lookup t op ≡ some s
    → Gives (λ (g, t'). (g ≡ owner s rows) × Later op s t t') (group_of op rows t)
unfolding group_of owner
group_of-owner op s [] t w at = ((none, t), refl, (refl, Later-refl op s t w at))
group_of-owner op s ((g, names) ∷ rows) t w at =
    Gives-bind (is_one_of op names t) (is_one_of-In op s names t w at) λ (found, t') (has, later).
      elim (Bool-cases (among s names)) [
        | inl e ↦ rw (FoundIn-among s names found has, e) ((some g, t'), refl, (refl, later))
        | inr e ↦
            let ((h, t''), runs, (is_owner, later')) =
              group_of-owner op s rows t' later.0 later.2 in
            rw (FoundIn-among s names found has, e)
              ((h, t''), runs, (is_owner, Later-then op s t t' t'' later later'))
      ]

-- `P` holds of each of the strings.
unfoldable AllOf : (Bytes → Type 0) → List Bytes → Type 0
AllOf P [] = Unit
AllOf P (name ∷ names) = P name × AllOf P names

AllOf-In : (P : Bytes → Type 0) (s : Bytes) (names : List Bytes) → AllOf P names → In s names → P s
unfolding AllOf In
AllOf-In P s [] all is_in = absurd is_in
AllOf-In P s (name ∷ names) (first, others) (inl e) = subst P (sym e) first
AllOf-In P s (name ∷ names) (first, others) (inr is_in) = AllOf-In P s names others is_in

names_owned : (g : OpGroup) → AllOf (λ s. owner s group_names ≡ some g) (names_of g)
unfolding AllOf names_of owner among bytes_eq
names_owned references = (refl, (refl, (refl, tt)))
names_owned this_type = (refl, tt)
names_owned file_type = (refl, tt)
names_owned global_type = (refl, tt)
names_owned forwards = (refl, tt)
names_owned comparisons = (refl, (refl, (refl, (refl, (refl, (refl, tt))))))
names_owned logic = (refl, (refl, tt))
names_owned negation = (refl, tt)
names_owned int_arithmetic = (refl, (refl, (refl, (refl, tt))))
names_owned float_arithmetic = (refl, (refl, (refl, (refl, tt))))
names_owned bitwise = (refl, (refl, (refl, (refl, (refl, tt)))))
names_owned bitwise_not = (refl, tt)
names_owned structure = (refl, (refl, tt))
names_owned functions = (refl, tt)
names_owned returns_op = (refl, tt)
names_owned calls = (refl, tt)
names_owned branches = (refl, tt)

pub owner-names_of : (g : OpGroup) (s : Bytes) → In s (names_of g) → owner s group_names ≡ some g
owner-names_of g s is_in =
    AllOf-In (λ s. owner s group_names ≡ some g) s (names_of g) (names_owned g) is_in

pub owner-Unlisted :
    (s : Bytes) (rows : List (OpGroup × List Bytes)) → Unlisted s rows → owner s rows ≡ none
unfolding owner Unlisted FoundIn
owner-Unlisted s [] not_in = refl
owner-Unlisted s ((g, names) ∷ rows) (not_here, not_in) = elim (Bool-cases (among s names)) [
  | inl e ↦ absurd (not_here ((among-In s names).0 e))
  | inr e ↦ rw e (owner-Unlisted s rows not_in)
]
