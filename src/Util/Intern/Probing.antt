-- ===== src/Util/Intern/Probing.antt =====
-- The probing loops of `interns_intern` and `intern_table_grow` in src/util/util.c: where they end,
-- and what an insertion leaves of the ways to other strings.
use native.Mathlib.Nat.{mod-eq_of_lt, mod_self}
use morphl.Prelude.{
  ℕ, zero, suc, ◌+◌, ◌-◌, ◌%◌, ◌<◌, ◌≡◌, ◌≢◌, refl, sym, ap, ◌∙◌, subst, ◌⊎◌, inl, inr, true, false,
  List, Option, none, some, length, length-set, get_elem?-set_same, get_elem?-set_other, get_elem?,
  get_elem?-of_lt, get_elem?-lt, set, Bytes, bytes_eq, bytes_eq_iff, bytes_eq_refl, Bool-cases,
  lt_or_ge, ok, arith,
}
use morphl.Util.Intern.{Probe, vacant, found, probe, free_slot}

abbrev pub Slots : Type 0
Slots = List (Option Bytes)

abbrev pub next_slot : Slots → ℕ → ℕ
next_slot slots i = (i + 1) % length slots

-- The probing loop for `s` from slot `i` ends so.
pub data Probes (slots : Slots) (s : Bytes) : ℕ → Probe → Type 0 where
  at_vacant : {i : ℕ} → get_elem? slots i ≡ some none → Probes slots s i (vacant i)
  at_found :
      {i : ℕ} {held : Bytes}
      → get_elem? slots i ≡ some (some held)
      → bytes_eq held s ≡ true
      → Probes slots s i (found i)
  onward :
      {i : ℕ} {held : Bytes} {end : Probe}
      → get_elem? slots i ≡ some (some held)
      → bytes_eq held s ≡ false
      → Probes slots s (next_slot slots i) end
      → Probes slots s i end

-- The loop for a free slot, which compares nothing.
pub data Frees (slots : Slots) : ℕ → ℕ → Type 0 where
  free_here : {i : ℕ} → get_elem? slots i ≡ some none → Frees slots i i
  free_later :
      {i k : ℕ} {held : Bytes}
      → get_elem? slots i ≡ some (some held)
      → Frees slots (next_slot slots i) k
      → Frees slots i k

-- `d` rounds lead from slot `i` to slot `j`.
abbrev Away : ℕ → ℕ → ℕ → ℕ → Type 0
Away n i j d = (i + d ≡ j) ⊎ (i + d ≡ j + n)

next_cases :
    (n i : ℕ) → i < n → ((i + 1 < n) × ((i + 1) % n ≡ i + 1)) ⊎ ((i + 1 ≡ n) × ((i + 1) % n ≡ 0))
next_cases n i h = elim (lt_or_ge (i + 1) n) [
  | inl b ↦ inl (b, mod-eq_of_lt b)
  | inr b ↦ let e : i + 1 ≡ n = omega arith in inr (e, rw e (mod_self n))
]

Away-next :
    (n i j d : ℕ)
    → i < n
    → j < n
    → Away n i j (suc d)
    → Away n ((i + 1) % n) j d × ((i + 1) % n < n)
Away-next n i j d h hj a = elim (next_cases n i h) [
  | inl (b, e) ↦ (ground (arith, e, a, b), omega arith)
  | inr (b, e) ↦ (ground (arith, e, a, b, hj), omega arith)
]

Away-some : (n i j : ℕ) → i < n → j < n → (d : ℕ) × Away n i j d × (d < n)
Away-some n i j h hj = elim (lt_or_ge j i) [
  | inl b ↦ (j + n - i, inr (omega arith), omega arith)
  | inr b ↦ (j - i, inl (omega arith), omega arith)
]

module _ (slots : Slots) (j : ℕ) (is_vacant : get_elem? slots j ≡ some none) where
  vacant_lt : j < length slots
  vacant_lt = get_elem?-lt slots j is_vacant

  Away-zero :
      (i : ℕ) {held : Bytes}
      → i < length slots
      → Away (length slots) i j 0
      → get_elem? slots i ≢ some (some held)
  Away-zero i {held} h a e =
      let same : i ≡ j = ground (arith, a, vacant_lt) in
      let both : get_elem? slots j ≡ some (some held) =
        subst (λ x. get_elem? slots x ≡ some (some held)) same e in
      cc

  probe-Away :
      (fuel d : ℕ) (s : Bytes) (i : ℕ)
      → d < fuel
      → i < length slots
      → Away (length slots) i j d
      → (end : Probe) × (probe fuel slots s i ≡ ok end) × Probes slots s i end
  unfolding probe
  probe-Away zero d s i h b a = elim h [ ]
  probe-Away (suc fuel) d s i h b a =
      go (get_elem? slots i) refl d h a (λ e i'. probe-Away fuel e s i')
    where
      go :
          (x : Option (Option Bytes))
          → get_elem? slots i ≡ x
          → (d : ℕ) → d < suc fuel
          → Away (length slots) i j d
          → ((e i' : ℕ)
              → e < fuel
              → i' < length slots
              → Away (length slots) i' j e
              → (end : Probe) × (probe fuel slots s i' ≡ ok end) × Probes slots s i' end)
          → (end : Probe) × (probe (suc fuel) slots s i ≡ ok end) × Probes slots s i end
      go none e d h a nearer_runs = let (x, inside) = get_elem?-of_lt slots i b in cc
      go (some none) e d h a nearer_runs = (vacant i, rw (e, probe) refl, at_vacant e)
      go (some (some held)) e zero h a nearer_runs = absurd (Away-zero i b a e)
      go (some (some held)) e (suc d) h a nearer_runs = elim (Bool-cases (bytes_eq held s)) [
        | inl same ↦ (found i, rw (e, probe) (rw same refl), at_found e same)
        | inr other ↦
            let (nearer, inside) = Away-next (length slots) i j d b vacant_lt a in
            let (end, runs, ends) = nearer_runs d (next_slot slots i) (omega arith) inside nearer in
            (end, rw (e, probe) (rw other runs), onward e other ends)
      ]

  free_slot-Away :
      (fuel d i : ℕ)
      → d < fuel
      → i < length slots
      → Away (length slots) i j d
      → (k : ℕ) × (free_slot fuel slots i ≡ ok k) × Frees slots i k
  unfolding free_slot
  free_slot-Away zero d i h b a = elim h [ ]
  free_slot-Away (suc fuel) d i h b a =
      go (get_elem? slots i) refl d h a (λ e i'. free_slot-Away fuel e i')
    where
      go :
          (x : Option (Option Bytes))
          → get_elem? slots i ≡ x
          → (d : ℕ) → d < suc fuel
          → Away (length slots) i j d
          → ((e i' : ℕ)
              → e < fuel
              → i' < length slots
              → Away (length slots) i' j e
              → (k : ℕ) × (free_slot fuel slots i' ≡ ok k) × Frees slots i' k)
          → (k : ℕ) × (free_slot (suc fuel) slots i ≡ ok k) × Frees slots i k
      go none e d h a nearer_runs = let (x, inside) = get_elem?-of_lt slots i b in cc
      go (some none) e d h a nearer_runs = (i, rw (e, free_slot) refl, free_here e)
      go (some (some held)) e zero h a nearer_runs = absurd (Away-zero i b a e)
      go (some (some held)) e (suc d) h a nearer_runs =
          let (nearer, inside) = Away-next (length slots) i j d b vacant_lt a in
          let (k, runs, ends) = nearer_runs d (next_slot slots i) (omega arith) inside nearer in
          (k, rw (e, free_slot) runs, free_later e ends)

  -- With a vacant slot, a round for each slot is enough.
  pub probe_ends :
      (s : Bytes) (i : ℕ)
      → i < length slots
      → (end : Probe) × (probe (length slots) slots s i ≡ ok end) × Probes slots s i end
  probe_ends s i b =
      let (d, a, near) = Away-some (length slots) i j b vacant_lt in
      probe-Away (length slots) d s i near b a

  pub free_slot_ends :
      (i : ℕ)
      → i < length slots
      → (k : ℕ) × (free_slot (length slots) slots i ≡ ok k) × Frees slots i k
  free_slot_ends i b =
      let (d, a, near) = Away-some (length slots) i j b vacant_lt in
      free_slot-Away (length slots) d i near b a

-- The slot where the loop ends.
abbrev pub EndsAt : Slots → Bytes → Probe → Type 0
EndsAt slots s (vacant k) = get_elem? slots k ≡ some none
EndsAt slots s (found k) = get_elem? slots k ≡ some (some s)

pub Probes-EndsAt :
    (slots : Slots) (s : Bytes) {i : ℕ} {end : Probe} → Probes slots s i end → EndsAt slots s end
Probes-EndsAt slots s (at_vacant e) = e
Probes-EndsAt slots s (at_found {held = held} e same) =
    e ∙ ap (λ x. some (some x)) ((bytes_eq_iff held s).0 same)
Probes-EndsAt slots s (onward e other more) = Probes-EndsAt slots s more

pub Frees-vacant : (slots : Slots) {i k : ℕ} → Frees slots i k → get_elem? slots k ≡ some none
Frees-vacant slots (free_here e) = e
Frees-vacant slots (free_later e more) = Frees-vacant slots more

-- The loop ends in one way only.
pub Probes-not_both :
    (slots : Slots) (s : Bytes) {i k l : ℕ}
    → Probes slots s i (vacant k)
    → Probes slots s i (found l)
    → ⊥
Probes-not_both slots s (at_vacant e) (at_found e' same) = cc
Probes-not_both slots s (at_vacant e) (onward e' other more) = cc
Probes-not_both slots s (onward e other more) (at_found e' same) = cc
Probes-not_both slots s (onward e other more) (onward e' other' more') =
    Probes-not_both slots s more more'

module _ (slots : Slots) (k : ℕ) (new : Bytes) (free : get_elem? slots k ≡ some none) where
  abbrev filled : Slots
  filled = set slots k (some new)

  get_elem?-filled : get_elem? filled k ≡ some (some new)
  get_elem?-filled = get_elem?-set_same slots k (get_elem?-lt slots k free)

  pub get_elem?-filled_other :
      (i : ℕ) {held : Bytes}
      → get_elem? slots i ≡ some (some held)
      → get_elem? filled i ≡ some (some held)
  get_elem?-filled_other i e =
      get_elem?-set_other slots k i (some new)
        (λ same. let f = subst (λ x. get_elem? slots x ≡ some none) same free in cc)
      ∙ e

  next-filled : (i : ℕ) → next_slot filled i ≡ next_slot slots i
  next-filled i = rw (length-set slots k (some new)) refl

  -- Filling a vacant slot leaves the way to the strings that are there.
  pub Probes-filled :
      (s : Bytes) {i j : ℕ} → Probes slots s i (found j) → Probes filled s i (found j)
  Probes-filled s {i} (at_found e same) = at_found (get_elem?-filled_other i e) same
  Probes-filled s {i} {j} (onward e other more) =
      onward (get_elem?-filled_other i e) other
        (subst (λ x. Probes filled s x (found j)) (sym (next-filled i)) (Probes-filled s more))

  -- The loop that ended at the vacant slot now finds what was put there.
  pub Probes-put : {i : ℕ} → Probes slots new i (vacant k) → Probes filled new i (found k)
  Probes-put (at_vacant e) = at_found get_elem?-filled (bytes_eq_refl new)
  Probes-put {i} (onward e other more) =
      onward (get_elem?-filled_other i e) other
        (subst (λ x. Probes filled new x (found k)) (sym (next-filled i)) (Probes-put more))

  pub Probes-freed : {i : ℕ} → Frees slots i k → (j : ℕ) × Probes filled new i (found j)
  Probes-freed (free_here e) = (k, at_found get_elem?-filled (bytes_eq_refl new))
  Probes-freed {i} (free_later {held = held} e more) = elim (Bool-cases (bytes_eq held new)) [
    | inl same ↦ (i, at_found (get_elem?-filled_other i e) same)
    | inr other ↦
        let (j, there) = Probes-freed more in
        (
          j,
          onward (get_elem?-filled_other i e) other
              (subst (λ x. Probes filled new x (found j)) (sym (next-filled i)) there),
        )
  ]
