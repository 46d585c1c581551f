-- ===== src/Util/Intern/Rehash.antt =====
-- `intern_table_grow` of src/util/util.c: the larger table holds the same strings.
use native.Mathlib.Nat.{mod-lt}
use morphl.Prelude.{
  ℕ, zero, suc, ◌+◌, ◌<◌, ◌≤◌, ◌≡◌, refl, sym, ap, ◌∙◌, subst, ◌⊎◌, inl, inr, [], ◌∷◌, none, some,
  length, length-set, get_elem?, get_elem?-set_same, get_elem?-set_other, get_elem?-lt, set,
  replicate, same_or_not, Bytes, ok, arith,
}
use morphl.Util.Intern.{hash_str, bucket, found, rehash}
use morphl.Util.Intern.Probing.{
  Slots, Probes, Probes-EndsAt, Probes-filled, Probes-freed, free_slot_ends, Frees-vacant,
}

abbrev pub occupied : Slots → ℕ
occupied [] = 0
occupied (none ∷ slots) = occupied slots
occupied (some s ∷ slots) = suc (occupied slots)

abbrev pub Held : Slots → Bytes → Type 0
Held slots s = (i : ℕ) × (get_elem? slots i ≡ some (some s))

-- Probing for `s` from its bucket finds it.
abbrev pub Findable : Slots → Bytes → Type 0
Findable slots s = (j : ℕ) × Probes slots s (bucket (hash_str s) (length slots)) (found j)

pub Findable-Held : (slots : Slots) (s : Bytes) → Findable slots s → Held slots s
Findable-Held slots s (j, ends) = (j, Probes-EndsAt slots s ends)

pub occupied_le : (slots : Slots) → occupied slots ≤ length slots
occupied_le [] = omega arith
occupied_le (none ∷ slots) = omega (arith, occupied_le slots)
occupied_le (some s ∷ slots) = omega (arith, occupied_le slots)

pub vacancy :
    (slots : Slots) → occupied slots < length slots → (k : ℕ) × (get_elem? slots k ≡ some none)
vacancy [] h = elim h [ ]
vacancy (none ∷ slots) h = (0, refl)
vacancy (some s ∷ slots) h = let (k, e) = vacancy slots (omega arith) in (suc k, e)

pub occupied-set :
    (slots : Slots) (k : ℕ) (s : Bytes)
    → get_elem? slots k ≡ some none
    → occupied (set slots k (some s)) ≡ suc (occupied slots)
occupied-set [] k s h = cc
occupied-set (none ∷ slots) zero s h = refl
occupied-set (some x ∷ slots) zero s h = cc
occupied-set (none ∷ slots) (suc k) s h = occupied-set slots k s h
occupied-set (some x ∷ slots) (suc k) s h = ap suc (occupied-set slots k s h)

pub occupied-replicate : (n : ℕ) → occupied (replicate n none) ≡ 0
occupied-replicate zero = refl
occupied-replicate (suc n) = occupied-replicate n

pub replicate-not_Held : (n : ℕ) (s : Bytes) → Held (replicate n none) s → ⊥
replicate-not_Held zero s (i, h) = cc
replicate-not_Held (suc n) s (zero, h) = cc
replicate-not_Held (suc n) s (suc i, h) = replicate-not_Held n s (i, h)

-- A string that the filled table holds is the new one or was there.
pub Held-set :
    (slots : Slots) (k : ℕ) (new s : Bytes)
    → k < length slots
    → Held (set slots k (some new)) s
    → (s ≡ new) ⊎ Held slots s
Held-set slots k new s b (i, h) = elim (same_or_not k i) [
  | inl same ↦
      let at_k : get_elem? (set slots k (some new)) k ≡ some (some s) =
        subst (λ x. get_elem? (set slots k (some new)) x ≡ some (some s)) (sym same) h in
      let put = get_elem?-set_same slots k {v = some new} b in inl cc
  | inr differ ↦ inr (i, sym (get_elem?-set_other slots k i (some new) differ) ∙ h)
]

-- The new table holds what the other two did, and finds it.
pub record Moves (old fresh new : Slots) : Type 0 where
  pub length_is : length new ≡ length fresh
  pub occupied_is : occupied new ≡ occupied fresh + occupied old
  pub keeps : (s : Bytes) → Findable fresh s → Findable new s
  pub finds : (s : Bytes) → Held old s → Findable new s
  pub only : (s : Bytes) → Held new s → Held fresh s ⊎ Held old s

Moves-some :
    (old fresh new : Slots) (s : Bytes) (k : ℕ)
    → get_elem? fresh k ≡ some none
    → Findable (set fresh k (some s)) s
    → Moves old (set fresh k (some s)) new
    → Moves (some s ∷ old) fresh new
Moves-some old fresh new s k free put m = record {
  length_is = m.length_is ∙ length-set fresh k (some s);
  occupied_is = omega (arith, m.occupied_is, occupied-set fresh k s free);
  keeps = λ x (j, ends).
      m.keeps x (j, rw (length-set fresh k (some s)) (Probes-filled fresh k s free x ends));
  finds = λ x (i, h). held x i h;
  only = λ x h. elim (m.only x h) [
    | inr (i, e) ↦ inr (suc i, e)
    | inl there ↦ elim (Held-set fresh k s x (get_elem?-lt fresh k free) there) [
      | inl same ↦ inr (0, ap (λ y. some (some y)) (sym same))
      | inr before ↦ inl before
    ]
  ];
}
  where
    held : (x : Bytes) (i : ℕ) → get_elem? (some s ∷ old) i ≡ some (some x) → Findable new x
    held x zero h =
        let same : s ≡ x = cc in m.keeps x (subst (λ y. Findable (set fresh k (some s)) y) same put)
    held x (suc i) h = m.finds x (i, h)

pub rehash-Moves :
    (old fresh : Slots)
    → occupied fresh + occupied old < length fresh
    → (new : Slots) × (rehash old fresh ≡ ok new) × Moves old fresh new
unfolding rehash
rehash-Moves [] fresh room = (
  fresh,
  refl,
  record {
    length_is = refl;
    occupied_is = omega arith;
    keeps = λ s f. f;
    finds = λ s (i, h). cc;
    only = λ s h. inl h;
  },
)
rehash-Moves (none ∷ old) fresh room =
    let (new, runs, m) = rehash-Moves old fresh room in
    (
      new,
      runs,
      record {
        length_is = m.length_is;
        occupied_is = m.occupied_is;
        keeps = m.keeps;
        finds = λ s h. m.finds s (behind s h);
        only = λ s h. elim (m.only s h) [ inl f ↦ inl f | inr (i, e) ↦ inr (suc i, e) ];
      },
    )
  where
    behind : (s : Bytes) → Held (none ∷ old) s → Held old s
    behind s (zero, h) = cc
    behind s (suc i, h) = (i, h)
rehash-Moves (some s ∷ old) fresh room =
    let (j, is_vacant) = vacancy fresh (omega arith) in
    let start_lt : bucket (hash_str s) (length fresh) < length fresh =
      mod-lt (hash_str s) (omega arith) in
    let (k, freed, frees) =
      free_slot_ends fresh j is_vacant (bucket (hash_str s) (length fresh)) start_lt in
    let free = Frees-vacant fresh frees in
    let (at, put) = Probes-freed fresh k s free frees in
    let (new, runs, m) =
      rehash-Moves old (set fresh k (some s))
        (omega (arith, occupied-set fresh k s free, length-set fresh k (some s))) in
    (
      new,
      rw (freed, rehash) runs,
      Moves-some old fresh new s k free (at, rw (length-set fresh k (some s)) put) m,
    )
