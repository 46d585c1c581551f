-- ===== src/Typing/Types/Clone.antt =====
-- Copies of types by `morphl_type_clone` of src/typing/typing.c.
use morphl.Prelude.{true, ◌≡◌, refl, ap, ap₂, ◌∙◌, Option, none, some}
use morphl.Util.Arena.{Arena}
use morphl.Typing.Types.{
  MorphlType, MorphlTypes, Fields, no_type, plain, func, ref, block, group, no_types, more_types,
  no_fields, field, type_equals, type_count, field_count, arena_alloc, type_size, pointer_size,
  sym_size, ◌>=>◌, alloc_array, unless_null, type_clone, clone_types, clone_fields,
}
use morphl.Typing.Types.Equality.{type_equals_iff}

-- Inversion of a step that succeeded.
>=>-eq-some {ℓ κ} :
    {A : Type ℓ} {B : Type κ} (m : Option A) (next : A → Option B) {end : B}
    → (m >=> next) ≡ some end
    → (mid : A) × (m ≡ some mid) × (next mid ≡ some end)
>=>-eq-some none next h = cc
>=>-eq-some (some a) next h = (a, refl, h)

made_is {ℓ} : {A : Type ℓ} {x y : A × Arena} → some x ≡ some y → y.0 ≡ x.0
made_is h = cc

-- Of a copy of `x` that has been made.
abbrev Same {ℓ} : {A : Type ℓ} → A → Option (A × Arena) → Type ℓ
Same {A = A} x copied = (y : A) (a : Arena) → copied ≡ some (y, a) → y ≡ x

unless_null-Same :
    (t : MorphlType) (a : Arena) (copied : Option (MorphlType × Arena))
    → Same t copied
    → Same t (unless_null t a copied)
unless_null-Same no_type a copied same y a' h = made_is h
unless_null-Same (plain k) a copied same y a' h = same y a' h
unless_null-Same (func ps r) a copied same y a' h = same y a' h
unless_null-Same (ref t m i) a copied same y a' h = same y a' h
unless_null-Same (block fs) a copied same y a' h = same y a' h
unless_null-Same (group ts) a copied same y a' h = same y a' h

mutual
  unfolding type_clone clone_types clone_fields

  copied_same :
      (t : MorphlType) (a a' : Arena) (u : MorphlType) → type_clone a t ≡ some (u, a') → u ≡ t
  copied_same no_type a a' u h = cc
  copied_same (plain k) a a' u h =
      let (a₁, _, made) = >=>-eq-some (arena_alloc a type_size) _ h in made_is made
  copied_same (func ps r) a a' u h =
      let (a₁, _, h₁) = >=>-eq-some (arena_alloc a type_size) _ h in
      let (a₂, _, h₂) = >=>-eq-some (alloc_array a₁ (type_count ps) pointer_size) _ h₁ in
      let (c, params, h₃) = >=>-eq-some (clone_types a₂ ps) _ h₂ in
      let (d, result, made) = >=>-eq-some (unless_null r c.1 (type_clone c.1 r)) _ h₃ in
      let same_params = clone_types-same ps a₂ c.1 c.0 params in
      let same_result =
        unless_null-Same r c.1 _ (λ y a₃ e. copied_same r c.1 a₃ y e) d.0 d.1 result in
      made_is made ∙ ap₂ func same_params same_result
  copied_same (ref t m i) a a' u h =
      let (a₁, _, h₁) = >=>-eq-some (arena_alloc a type_size) _ h in
      let (d, target, made) = >=>-eq-some (unless_null t a₁ (type_clone a₁ t)) _ h₁ in
      let same = unless_null-Same t a₁ _ (λ y a₃ e. copied_same t a₁ a₃ y e) d.0 d.1 target in
      made_is made ∙ ap (λ x. ref x m i) same
  copied_same (block fs) a a' u h =
      let (a₁, _, h₁) = >=>-eq-some (arena_alloc a type_size) _ h in
      let (a₂, _, h₂) = >=>-eq-some (alloc_array a₁ (field_count fs) sym_size) _ h₁ in
      let (a₃, _, h₃) = >=>-eq-some (alloc_array a₂ (field_count fs) pointer_size) _ h₂ in
      let (c, fields, made) = >=>-eq-some (clone_fields a₃ fs) _ h₃ in
      made_is made ∙ ap block (clone_fields-same fs a₃ c.1 c.0 fields)
  copied_same (group ts) a a' u h =
      let (a₁, _, h₁) = >=>-eq-some (arena_alloc a type_size) _ h in
      let (a₂, _, h₂) = >=>-eq-some (alloc_array a₁ (type_count ts) pointer_size) _ h₁ in
      let (c, elems, made) = >=>-eq-some (clone_types a₂ ts) _ h₂ in
      made_is made ∙ ap group (clone_types-same ts a₂ c.1 c.0 elems)

  clone_types-same :
      (ts : MorphlTypes) (a a' : Arena) (us : MorphlTypes)
      → clone_types a ts ≡ some (us, a')
      → us ≡ ts
  clone_types-same no_types a a' us h = made_is h
  clone_types-same (more_types t ts) a a' us h =
      let (c, head, h₁) = >=>-eq-some (type_clone a t) _ h in
      let (d, tail, made) = >=>-eq-some (clone_types c.1 ts) _ h₁ in
      made_is made
      ∙ ap₂ more_types (copied_same t a c.1 c.0 head) (clone_types-same ts c.1 d.1 d.0 tail)

  clone_fields-same :
      (fs : Fields) (a a' : Arena) (gs : Fields) → clone_fields a fs ≡ some (gs, a') → gs ≡ fs
  clone_fields-same no_fields a a' gs h = made_is h
  clone_fields-same (field n t fs) a a' gs h =
      let (c, head, h₁) = >=>-eq-some (type_clone a t) _ h in
      let (d, tail, made) = >=>-eq-some (clone_fields c.1 fs) _ h₁ in
      made_is made
      ∙ ap₂ (field n) (copied_same t a c.1 c.0 head) (clone_fields-same fs c.1 d.1 d.0 tail)

-- A copy that succeeds is structurally the type that was copied, so the checker takes the two to be
-- equal.
pub type_equals-type_clone :
    (t : MorphlType) (a a' : Arena) (u : MorphlType)
    → type_clone a t ≡ some (u, a')
    → (u ≡ t) × (type_equals u t ≡ true)
type_equals-type_clone t a a' u h =
    let same = copied_same t a a' u h in (same, (type_equals_iff u t).1 same)
