-- ===== src/Util/Intern/Invariant.antt =====
-- What holds of the intern table of src/util/util.c between calls, and that calls keep it.
use native.Mathlib.Nat.{mod-lt, mod-eq_of_lt}
use morphl.Prelude.{
  ℕ, zero, suc, ◌+◌, ◌^◌, ◌<◌, ◌≤◌, ◌≡◌, refl, sym, ap, ◌∙◌, ◌⊎◌, inl, inr, false, List, [], ◌∷◌,
  ◌++◌, Option, none, some, Option-cases, length, length-append, length-set, length-replicate,
  get_elem?, get_elem?-lt, get_elem?-snoc, get_elem?-append_left, get_elem?-append_middle, set,
  replicate, Bytes, bytes_eq, bytes_eq_iff, Bool-cases, if◌then◌else◌, ok, arith, ltb,
  some-injective, subst,
}
use morphl.Util.Arena.{Arena, arena_push, arena_init}
use morphl.Util.Intern.{
  InternTable, hash_str, bucket, Probe, vacant, found, grown_cap, intern_table_grow, interns_new,
  sym_of, rehash, stable_id, settle, needs_growth, intern_text, interns_intern,
}
use morphl.Util.Intern.Probing.{
  Slots, Probes, Probes-EndsAt, Probes-filled, Probes-put, Probes-not_both, probe_ends,
}
use morphl.Util.Intern.Rehash.{
  occupied, Held, Findable, Findable-Held, occupied_le, vacancy, occupied-set, occupied-replicate,
  replicate-not_Held, Held-set, Moves, rehash-Moves,
}

-- The slots hold the strings of the index and no others, each where probing finds it, and no
-- string has two indices. Every string has taken a byte of the arena, whose size has 32 bits, so there
-- are fewer strings than symbols.
pub record WellFormed (t : InternTable) : Type 0 where
  pub occupied_is : occupied t.slots ≡ length t.index
  pub held : (s : Bytes) → Held t.slots s → (k : ℕ) × (get_elem? t.index k ≡ some s)
  pub findable : (s : Bytes) (k : ℕ) → get_elem? t.index k ≡ some s → Findable t.slots s
  pub distinct :
      (s : Bytes) (i j : ℕ) → get_elem? t.index i ≡ some s → get_elem? t.index j ≡ some s → i ≡ j
  pub few : length t.index ≤ t.arena.off
  pub within : t.arena.off ≤ t.arena.cap
  pub small : t.arena.cap < 2 ^ 32

abbrev free : Option Bytes
free = none

-- A larger table with the same strings.
pub record Grown (t t' : InternTable) : Type 0 where
  pub same_index : t'.index ≡ t.index
  pub same_arena : t'.arena ≡ t.arena
  pub room : occupied t'.slots < length t'.slots
  pub fine : WellFormed t'

grow-Moves :
    (t : InternTable)
    → WellFormed t
    → (slots : Slots) × (intern_table_grow t ≡ ok (record t { slots = slots }))
      × Moves t.slots (replicate (grown_cap (length t.slots)) none) slots
      × (length t.slots < grown_cap (length t.slots))
unfolding intern_table_grow
grow-Moves t w =
    let larger : length t.slots < grown_cap (length t.slots) = ground arith in
    let (slots, runs, m) = rehash-Moves t.slots (replicate (grown_cap (length t.slots)) none) (
      omega (
        arith,
        larger,
        occupied_le t.slots,
        occupied-replicate (grown_cap (length t.slots)),
        length-replicate (grown_cap (length t.slots)) free,
      )) in
    (slots, rw runs refl, m, larger)

grow-Grown :
    (t : InternTable)
    → WellFormed t
    → (t' : InternTable) × (intern_table_grow t ≡ ok t') × Grown t t'
grow-Grown t w =
    let (slots, runs, m, larger) = grow-Moves t w in
    let empty = occupied-replicate (grown_cap (length t.slots)) in
    (
      record t { slots = slots },
      runs,
      record {
        same_index = refl;
        same_arena = refl;
        room = omega (
          arith,
          m.occupied_is,
          m.length_is,
          empty,
          occupied_le t.slots,
          length-replicate (grown_cap (length t.slots)) free,
        );
        fine = record {
          occupied_is = omega (arith, m.occupied_is, empty, w.occupied_is);
          held = λ s h. elim (m.only s h) [
            | inl none_there ↦ absurd (replicate-not_Held _ s none_there)
            | inr there ↦ w.held s there
          ];
          findable = λ s k h. m.finds s (Findable-Held t.slots s (w.findable s k h));
          distinct = w.distinct;
          few = w.few;
          within = w.within;
          small = w.small;
        };
      },
    )

with_room :
    (t : InternTable)
    → WellFormed t
    → (t' : InternTable) × ((if needs_growth t then intern_table_grow t else ok t) ≡ ok t')
      × Grown t t'
with_room t w = elim (Bool-cases (needs_growth t)) [
  | inl full ↦ rw full (grow-Grown t w)
  | inr enough ↦ rw enough (
    t,
    refl,
    record {
      same_index = refl;
      same_arena = refl;
      room = let below : occupied t.slots < length t.slots = ground (arith, w.occupied_is) in below;
      fine = w;
    },
  )
]

-- What interning `s` makes of the table: it gives an index where the string stands, and keeps the
-- other indices, or it gives 0 and keeps the index.
pub data Interned (t : InternTable) (s : Bytes) : ℕ → InternTable → Type 0 where
  known :
      {t' : InternTable} {k : ℕ}
      → t'.index ≡ t.index
      → get_elem? t.index k ≡ some s
      → Interned t s (suc k) t'
  added :
      {t' : InternTable}
      → t'.index ≡ t.index ++ (s ∷ [])
      → ((k : ℕ) → get_elem? t.index k ≡ some s → ⊥)
      → Interned t s (suc (length t.index)) t'
  no_room :
      {t' : InternTable}
      → t'.index ≡ t.index
      → ((k : ℕ) → get_elem? t.index k ≡ some s → ⊥)
      → arena_push t.arena (length s + 1) ≡ none
      → Interned t s 0 t'

sym_of-small : (n : ℕ) → n < 2 ^ 32 → sym_of n ≡ n
sym_of-small n h = mod-eq_of_lt h

stable_id_is :
    (index : List Bytes) (i : ℕ) (s : Bytes) (k : ℕ)
    → i + length index < 2 ^ 32
    → get_elem? index k ≡ some s
    → (j : ℕ) × (stable_id index i s ≡ suc (i + j)) × (get_elem? index j ≡ some s)
unfolding stable_id
stable_id_is [] i s k few h = cc
stable_id_is (x ∷ xs) i s k few h = elim (Bool-cases (bytes_eq x s)) [
  | inl same ↦ (
    0,
    rw (same, stable_id) (sym_of-small (i + 1) (omega (arith, few)) ∙ omega arith),
    ap some ((bytes_eq_iff x s).0 same),
  )
  | inr other ↦
      let (k', there) = behind k h other in
      let (j, e, at) = stable_id_is xs (i + 1) s k' (omega (arith, few)) there in
      (suc j, rw (other, stable_id) (omega (arith, e)), at)
]
  where
    behind :
        (k : ℕ)
        → get_elem? (x ∷ xs) k ≡ some s
        → bytes_eq x s ≡ false
        → (k' : ℕ) × (get_elem? xs k' ≡ some s)
    behind zero h other = let same = (bytes_eq_iff x s).1 (let e : x ≡ s = cc in e) in cc
    behind (suc k) h other = (k, h)

absent :
    (t : InternTable) (s : Bytes) (k : ℕ)
    → WellFormed t
    → Probes t.slots s (bucket (hash_str s) (length t.slots)) (vacant k)
    → (i : ℕ) → get_elem? t.index i ≡ some s
    → ⊥
absent t s k w ends i h = let (j, finds) = w.findable s i h in Probes-not_both t.slots s ends finds

-- What a push that succeeds does.
arena_push-some :
    (a : Arena) (n at : ℕ) (a' : Arena)
    → arena_push a n ≡ some (at, a')
    → (a'.off ≡ a.off + n) × (a'.cap ≡ a.cap) × (a.off + n ≤ a.cap)
unfolding arena_push
arena_push-some a n at a' h = elim (Bool-cases (ltb a.cap (a.off + n))) [
  | inl full ↦ cc (rw (full, arena_push) at h)
  | inr room ↦
      let fits : a.off + n ≤ a.cap = ground (arith, room) in
      let same : (a.off, record a { off = a.off + n }) ≡ (at, a') =
        some-injective (rw (room, arena_push) at h) in
      subst (λ (x : ℕ × Arena). (x.1.off ≡ a.off + n) × (x.1.cap ≡ a.cap) × (a.off + n ≤ a.cap))
        same (refl, refl, fits)
]

module _ (t : InternTable) (s : Bytes) (k : ℕ) (w : WellFormed t)
    (ends : Probes t.slots s (bucket (hash_str s) (length t.slots)) (vacant k)) where
  is_free : get_elem? t.slots k ≡ some none
  is_free = Probes-EndsAt t.slots s ends

  abbrev put : Arena → InternTable
  put arena = record { slots = set t.slots k (some s); arena = arena; index = t.index ++ (s ∷ []) }

  put-Findable :
      (x : Bytes)
      → ((x ≡ s) ⊎ ((i : ℕ) × (get_elem? t.index i ≡ some x)))
      → Findable (set t.slots k (some s)) x
  put-Findable x (inl same) =
      rw (same, length-set t.slots k (some s)) (k, Probes-put t.slots k s is_free ends)
  put-Findable x (inr (i, h)) =
      let (j, finds) = w.findable x i h in
      (j, rw (length-set t.slots k (some s)) (Probes-filled t.slots k s is_free x finds))

  put-distinct :
      (x : Bytes) (i j : ℕ)
      → get_elem? (t.index ++ (s ∷ [])) i ≡ some x
      → get_elem? (t.index ++ (s ∷ [])) j ≡ some x
      → i ≡ j
  put-distinct x i j hi hj = elim (get_elem?-snoc t.index s i hi) [
    | inl (at_end, same) ↦ elim (get_elem?-snoc t.index s j hj) [
      | inl (at_end', _) ↦ at_end ∙ sym at_end'
      | inr there ↦ absurd (absent t s k w ends j (there ∙ ap some (sym same)))
    ]
    | inr there ↦ elim (get_elem?-snoc t.index s j hj) [
      | inl (_, same) ↦ absurd (absent t s k w ends i (there ∙ ap some (sym same)))
      | inr there' ↦ w.distinct x i j there there'
    ]
  ]

  -- The table with a string put where the probing loop ended.
  put-WellFormed :
      (at : ℕ) (arena : Arena)
      → arena_push t.arena (length s + 1) ≡ some (at, arena)
      → WellFormed (put arena)
  put-WellFormed at arena pushed = record {
    occupied_is = omega (
      arith,
      occupied-set t.slots k s is_free,
      w.occupied_is,
      length-append {0} t.index (s ∷ []),
    );
    held = λ x h. elim (Held-set t.slots k s x (get_elem?-lt t.slots k is_free) h) [
      | inl same ↦ (length t.index, rw same (get_elem?-append_middle t.index [] s))
      | inr there ↦ let (i, at) = w.held x there in (i, get_elem?-append_left t.index (s ∷ []) i at)
    ];
    findable = λ x i h. put-Findable x (elim (get_elem?-snoc t.index s i h) [
      | inl (_, same) ↦ inl (sym same)
      | inr there ↦ inr (i, there)
    ]);
    distinct = put-distinct;
    few =
        let (off_is, _, _) = arena_push-some t.arena (length s + 1) at arena pushed in
        omega (arith, w.few, off_is, length-append {0} t.index (s ∷ []));
    within =
        let (off_is, cap_is, fits) = arena_push-some t.arena (length s + 1) at arena pushed in
        omega (arith, off_is, cap_is, fits);
    small =
        let (_, cap_is, _) = arena_push-some t.arena (length s + 1) at arena pushed in
        omega (arith, w.small, cap_is);
  }

settle-Interned :
    (t t₁ : InternTable) (s : Bytes) (end : Probe)
    → Grown t t₁
    → Probes t₁.slots s (bucket (hash_str s) (length t₁.slots)) end
    → (id : ℕ) × (t' : InternTable) × (settle t₁ s end ≡ (id, t'))
      × WellFormed t'
      × Interned t s id t'
unfolding settle
settle-Interned t t₁ s (found k) g ends =
    let at = Probes-EndsAt t₁.slots s ends in
    let (i, in_index) = g.fine.held s (k, at) in
    let (j, id_is, there) =
      stable_id_is t₁.index 0 s i (omega (arith, g.fine.few, g.fine.within, g.fine.small))
        in_index in
    (
      suc j,
      t₁,
      rw (at, settle) (ap (λ x. (x, t₁)) (id_is ∙ omega arith)),
      g.fine,
      known g.same_index (sym (ap (λ x. get_elem? x j) g.same_index) ∙ there),
    )
settle-Interned t t₁ s (vacant k) g ends =
    elim (Option-cases (arena_push t₁.arena (length s + 1))) [
      | inl full ↦ (
        0,
        t₁,
        rw (full, settle) refl,
        g.fine,
        no_room g.same_index new (sym (ap (λ a. arena_push a (length s + 1)) g.same_arena) ∙ full),
      )
      | inr ((at, arena), pushed) ↦
          let (_, _, fits) = arena_push-some t₁.arena (length s + 1) at arena pushed in
          (
            suc (length t.index),
            put t₁ s k g.fine ends arena,
            rw (pushed, settle)
                (ap (λ n. (n, put t₁ s k g.fine ends arena))
                  (sym_of-small (length t₁.index + 1)
                      (omega (arith, g.fine.few, g.fine.small, fits))
                    ∙ omega (arith, ap length g.same_index))),
            put-WellFormed t₁ s k g.fine ends at arena pushed,
            added (ap (λ x. x ++ (s ∷ [])) g.same_index) new,
          )
    ]
  where
    new : (i : ℕ) → get_elem? t.index i ≡ some s → ⊥
    new i h = absent t₁ s k g.fine ends i (ap (λ x. get_elem? x i) g.same_index ∙ h)

-- Interning a string in a well-formed table ends, and the probing stays within the slots. It leaves a
-- well-formed table, with the strings of before and at most the new one, and either gives the string's
-- index counted from 1, one that it had or the next one, which the 32 bits of a symbol hold, or gives 0
-- because the string is new and the arena has no room for it.
pub interns_intern-Interned :
    (t : InternTable) (s : Bytes)
    → WellFormed t
    → (id : ℕ) × (t' : InternTable) × (interns_intern t (some s) ≡ ok (id, t'))
      × WellFormed t'
      × Interned t s id t'
unfolding interns_intern intern_text
interns_intern-Interned t s w =
    let (t₁, roomy, g) = with_room t w in
    let (j, is_vacant) = vacancy t₁.slots g.room in
    let start_lt : bucket (hash_str s) (length t₁.slots) < length t₁.slots =
      mod-lt (hash_str s) (omega (arith, g.room)) in
    let (end, probed, ends) =
      probe_ends t₁.slots j is_vacant s (bucket (hash_str s) (length t₁.slots)) start_lt in
    let (id, t', settled, fine, how) = settle-Interned t t₁ s end g ends in
    (id, t', rw (roomy, probed) (ap ok settled), fine, how)

-- A table without strings.
abbrev pub empty_table : ℕ → InternTable
empty_table cap = record { slots = replicate cap none; arena = arena_init 65536; index = [] }

pub empty_table-WellFormed : (cap : ℕ) → WellFormed (empty_table cap)
unfolding arena_init
empty_table-WellFormed cap = record {
  occupied_is = occupied-replicate cap;
  held = λ s h. absurd (replicate-not_Held cap s h);
  findable = λ s k h. cc;
  distinct = λ s i j h h'. cc;
  few = omega arith;
  within = omega arith;
  small = omega arith;
}

-- The new table has 64 slots and no string.
pub interns_new-empty_table : interns_new ≡ ok (empty_table 64)
unfolding interns_new intern_table_grow rehash
interns_new-empty_table = refl
