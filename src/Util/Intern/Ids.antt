-- ===== src/Util/Intern/Ids.antt =====
-- The ids that `interns_intern` of src/util/util.c gives, read back by `interns_lookup`.
use morphl.Prelude.{
  ℕ, zero, suc, ◌<◌, ◌≡◌, sym, ap, ◌∙◌, subst, [], ◌∷◌, some, length, get_elem?,
  get_elem?-append_left, get_elem?-append_middle, Bytes, ok, ok-injective, arith,
}
use morphl.Util.Intern.{InternTable, interns_intern, interns_lookup}
use morphl.Util.Intern.Invariant.{
  WellFormed, Interned, known, added, no_room, interns_intern-Interned,
}

-- What a call that has been made did.
pub interned :
    (t : InternTable) (s : Bytes) {id : ℕ} {t' : InternTable}
    → WellFormed t
    → interns_intern t (some s) ≡ ok (id, t')
    → WellFormed t' × Interned t s id t'
interned t s {id} {t'} w h =
    let (id', t'', runs, fine, how) = interns_intern-Interned t s w in
    let same : (id', t'') ≡ (id, t') = ok-injective (sym runs ∙ h) in
    subst (λ x. WellFormed x.1 × Interned t s x.0 x.1) same (fine, how)

-- A string that was interned is what its id stands for, if the id is not 0.
pub interns_lookup-interns_intern :
    (t : InternTable) (s : Bytes) {id : ℕ} {t' : InternTable}
    → WellFormed t
    → interns_intern t (some s) ≡ ok (id, t')
    → 0 < id
    → interns_lookup t' id ≡ some s
unfolding interns_lookup
interns_lookup-interns_intern t s {id} {t'} w h positive = there (interned t s w h).1 positive
  where
    there :
        {id : ℕ} {t' : InternTable} → Interned t s id t' → 0 < id → interns_lookup t' id ≡ some s
    there (known {k = k} same at) positive = ap (λ x. get_elem? x k) same ∙ at
    there (added longer new) positive =
        ap (λ x. get_elem? x (length t.index)) longer ∙ get_elem?-append_middle t.index [] s
    there (no_room same new full) positive = absurd (omega (arith, positive))

kept_id :
    (t : InternTable) (s x : Bytes) (k : ℕ) {id : ℕ} {t' : InternTable}
    → Interned t s id t'
    → get_elem? t.index k ≡ some x
    → get_elem? t'.index k ≡ some x
kept_id t s x k (known same at) h = ap (λ y. get_elem? y k) same ∙ h
kept_id t s x k (added longer new) h =
    ap (λ y. get_elem? y k) longer ∙ get_elem?-append_left t.index (s ∷ []) k h
kept_id t s x k (no_room same new full) h = ap (λ y. get_elem? y k) same ∙ h

-- Ids stay what they are: interning another string changes no id that stood for a string.
pub interns_lookup-stable :
    (t : InternTable) (s x : Bytes) (k : ℕ) {id : ℕ} {t' : InternTable}
    → WellFormed t
    → interns_intern t (some s) ≡ ok (id, t')
    → interns_lookup t k ≡ some x
    → interns_lookup t' k ≡ some x
unfolding interns_lookup
interns_lookup-stable t s x zero w h at = cc
interns_lookup-stable t s x (suc k) w h at = kept_id t s x k (interned t s w h).1 at

-- A string that an id stands for is interned as that id, so one string has one id.
pub interns_intern-interns_lookup :
    (t : InternTable) (s : Bytes) (id : ℕ)
    → WellFormed t
    → interns_lookup t id ≡ some s
    → (t' : InternTable) × (interns_intern t (some s) ≡ ok (id, t')) × WellFormed t'
unfolding interns_lookup
interns_intern-interns_lookup t s zero w h = cc
interns_intern-interns_lookup t s (suc k) w h =
    let (id', t', runs, fine, how) = interns_intern-Interned t s w in
    (t', runs ∙ ap (λ x. ok (x, t')) (same_id how), fine)
  where
    same_id : {id' : ℕ} {t' : InternTable} → Interned t s id' t' → id' ≡ suc k
    same_id (known {k = j} same at) = ap suc (w.distinct s j k at h)
    same_id (added longer new) = absurd (new k h)
    same_id (no_room same new full) = absurd (new k h)

-- Every id of the first table stands for the same string in the second.
abbrev pub Keeps : InternTable → InternTable → Type 0
Keeps t t' = (id : ℕ) (x : Bytes) → interns_lookup t id ≡ some x → interns_lookup t' id ≡ some x

-- A call of `interns_intern` on a well-formed table, and what it leaves.
pub record Next (t : InternTable) (s : Bytes) : Type 0 where
  pub id : ℕ
  pub table : InternTable
  pub runs : interns_intern t (some s) ≡ ok (id, table)
  pub fine : WellFormed table
  pub named : 0 < id → interns_lookup table id ≡ some s
  pub keeps : Keeps t table

pub next : (t : InternTable) (s : Bytes) → WellFormed t → Next t s
next t s w =
    let (id, t', runs, fine, _) = interns_intern-Interned t s w in
    record {
      id = id;
      table = t';
      runs = runs;
      fine = fine;
      named = interns_lookup-interns_intern t s w runs;
      keeps = λ k x. interns_lookup-stable t s x k w runs;
    }
