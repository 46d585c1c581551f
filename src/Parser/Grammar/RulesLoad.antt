-- ===== src/Parser/Grammar/RulesLoad.antt =====
-- The rules of a grammar while src/parser/parser.c loads it.
use morphl.Prelude.{
  ℕ, ◌≡◌, refl, sym, subst, inl, inr, false, Bool-cases, none, some, List, [], ◌∷◌, ◌++◌, ◌==◌,
  ==_iff, arith,
}
use morphl.Util.Intern.{InternTable}
use morphl.Parser.Grammar.{Production, GrammarRule, find_rule}
use morphl.Parser.Grammar.Load.{reset_rule, add_to_rule}
use morphl.Parser.Grammar.Loads.{IsNamed, ProductionLoaded, ProductionsLoaded, RulesLoaded}

abbrev pub Found : List GrammarRule → ℕ → Type 0
Found rs name = (r : GrammarRule) × (find_rule rs name ≡ some r)

pub find_rule-reset_rule : (rs : List GrammarRule) (name : ℕ) → Found (reset_rule rs name) name
unfolding find_rule reset_rule
find_rule-reset_rule [] name = (record { name = name; productions = [] }, ground arith)
find_rule-reset_rule (r ∷ rs) name = elim (Bool-cases (r.name == name)) [
  | inl here ↦ rw here (record { name = name; productions = [] }, ground arith)
  | inr there ↦ rw (there, there) (find_rule-reset_rule rs name)
]

pub reset_rule-Found :
    (rs : List GrammarRule) (name q : ℕ) → Found rs q → Found (reset_rule rs name) q
unfolding find_rule reset_rule
reset_rule-Found [] name q (r, e) = cc
reset_rule-Found (r ∷ rs) name q found = elim (Bool-cases (r.name == name)) [
  | inl here ↦ rw here (elim (Bool-cases (name == q)) [
    | inl this ↦ rw this (record { name = name; productions = [] }, refl)
    | inr other ↦
        let other' : (r.name == q) ≡ false = rw (sym ((==_iff r.name name).0 here)) at other in
        rw other (rw other' at found)
  ])
  | inr there ↦ rw there (elim (Bool-cases (r.name == q)) [
    | inl this ↦ rw this (r, refl)
    | inr other ↦ rw other (reset_rule-Found rs name q (rw other at found))
  ])
]

reset_rule-none :
    (rs : List GrammarRule) (name q : ℕ)
    → find_rule rs q ≡ none
    → (name == q) ≡ false
    → find_rule (reset_rule rs name) q ≡ none
unfolding find_rule reset_rule
reset_rule-none [] name q e other = rw other refl
reset_rule-none (r ∷ rs) name q e other = elim (Bool-cases (r.name == q)) [
  | inl this ↦ cc (rw this at e)
  | inr that ↦ elim (Bool-cases (r.name == name)) [
    | inl here ↦ rw (here, other) (rw that at e)
    | inr there ↦ rw (there, that) (reset_rule-none rs name q (rw that at e) other)
  ]
]

pub add_to_rule-Found :
    (rs : List GrammarRule) (name : ℕ) (p : Production) (q : ℕ)
    → Found rs q
    → Found (add_to_rule rs name p) q
unfolding find_rule add_to_rule
add_to_rule-Found [] name p q (r, e) = cc
add_to_rule-Found (r ∷ rs) name p q found = elim (Bool-cases (r.name == name)) [
  | inl here ↦ rw here (elim (Bool-cases (r.name == q)) [
    | inl this ↦ rw this (record { name = r.name; productions = r.productions ++ (p ∷ []) }, refl)
    | inr other ↦ rw other (rw other at found)
  ])
  | inr there ↦ rw there (elim (Bool-cases (r.name == q)) [
    | inl this ↦ rw this (r, refl)
    | inr other ↦ rw other (add_to_rule-Found rs name p q (rw other at found))
  ])
]

add_to_rule-none :
    (rs : List GrammarRule) (name : ℕ) (p : Production) (q : ℕ)
    → find_rule rs q ≡ none
    → find_rule (add_to_rule rs name p) q ≡ none
unfolding find_rule add_to_rule
add_to_rule-none [] name p q e = refl
add_to_rule-none (r ∷ rs) name p q e = elim (Bool-cases (r.name == q)) [
  | inl this ↦ cc (rw this at e)
  | inr that ↦ elim (Bool-cases (r.name == name)) [
    | inl here ↦ rw (here, that) (rw that at e)
    | inr there ↦ rw (there, that) (add_to_rule-none rs name p q (rw that at e))
  ]
]

append_production :
    (t : InternTable) (name : ℕ) (ps : List Production) (p : Production)
    → ProductionsLoaded t name ps
    → ProductionLoaded t name p
    → ProductionsLoaded t name (ps ++ (p ∷ []))
unfolding ProductionsLoaded
append_production t name [] p hs h = (h, tt)
append_production t name (q ∷ ps) p (h', hs) h = (h', append_production t name ps p hs h)

pub reset_rule-RulesLoaded :
    (t : InternTable) (rs : List GrammarRule) (name : ℕ)
    → RulesLoaded t rs
    → IsNamed t name
    → RulesLoaded t (reset_rule rs name)
unfolding reset_rule RulesLoaded ProductionsLoaded find_rule
reset_rule-RulesLoaded t [] name hs named = (named, tt, refl, tt)
reset_rule-RulesLoaded t (r ∷ rs) name (r_named, loaded, new, hs) named =
    elim (Bool-cases (r.name == name)) [
      | inl here ↦
          let new' : find_rule rs name ≡ none =
            subst (λ q. find_rule rs q ≡ none) ((==_iff r.name name).0 here) new in
          rw here (named, tt, new', hs)
      | inr there ↦
          let other : (name == r.name) ≡ false = ground (arith, there) in
          rw there (
            r_named,
            loaded,
            reset_rule-none rs name r.name new other,
            reset_rule-RulesLoaded t rs name hs named,
          )
    ]

pub add_to_rule-RulesLoaded :
    (t : InternTable) (rs : List GrammarRule) (name : ℕ) (p : Production)
    → RulesLoaded t rs
    → ProductionLoaded t name p
    → RulesLoaded t (add_to_rule rs name p)
unfolding add_to_rule RulesLoaded
add_to_rule-RulesLoaded t [] name p hs h = tt
add_to_rule-RulesLoaded t (r ∷ rs) name p (named, loaded, new, hs) h =
    elim (Bool-cases (r.name == name)) [
      | inl here ↦
          let h' : ProductionLoaded t r.name p =
            subst (λ q. ProductionLoaded t q p) (sym ((==_iff r.name name).0 here)) h in
          rw here (named, append_production t r.name r.productions p loaded h', new, hs)
      | inr there ↦ rw there (
        named,
        loaded,
        add_to_rule-none rs name p r.name new,
        add_to_rule-RulesLoaded t rs name p hs h,
      )
    ]
