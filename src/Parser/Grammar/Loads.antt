-- ===== src/Parser/Grammar/Loads.antt =====
-- What a grammar that src/parser/parser.c has loaded is like, and what its steps promise.
use morphl.Prelude.{
  ℕ, ◌+◌, ◌≤◌, ◌<◌, ◌^◌, ◌≡◌, refl, ◌⊎◌, inl, inr, Bool, true, false, Option, none, some, List, [],
  ◌∷◌, length, Bytes, ◌==◌, if◌then◌else◌, Post, returns, fails, Post-weaken, Bool-cases, arith,
  Post-attempt,
}
use morphl.Util.Arena.{Arena, arena_push}
use morphl.Util.Intern.{InternTable, interns_lookup}
use morphl.Util.Intern.Invariant.{WellFormed}
use morphl.Util.Intern.Ids.{Keeps, next}
use morphl.Parser.Grammar.{
  GrammarAtom, Atoms, Production, GrammarRule, Grammar, atom_literal, atom_token_kind, atom_rule,
  atom_repeat, no_atoms, more_atoms, find_rule,
}
use morphl.Parser.Grammar.Attempts.{give, give_up, after, Found, ◌>>=◌}
use morphl.Parser.Grammar.Load.{
  Stores, Load, given, symbol_of, stored, rounds_max, leads_with, kept_in,
}

-- The id stands for a string.
abbrev pub IsNamed : InternTable → ℕ → Type 0
IsNamed t sym = (x : Bytes) × (interns_lookup t sym ≡ some x)

abbrev pub CaptureNamed : InternTable → ℕ → Type 0
CaptureNamed t capture = (capture ≡ 0) ⊎ IsNamed t capture

-- A group is made once, or by one of the quantifiers `?`, `*` and `+`.
abbrev pub IsQuantifier : ℕ → ℕ → Type 0
IsQuantifier least most = (least ≤ 1) × ((most ≡ 1) ⊎ (most ≡ rounds_max))

-- The symbols and captures have names, and numbers are in range.
unfoldable mutual
  pub AtomLoaded : InternTable → GrammarAtom → Type 0
  AtomLoaded t (atom_literal s capture) = CaptureNamed t capture
  AtomLoaded t (atom_token_kind kind capture) = IsNamed t kind × CaptureNamed t capture
  AtomLoaded t (atom_rule symbol bp capture) =
      IsNamed t symbol × (bp < 2 ^ 64) × CaptureNamed t capture
  AtomLoaded t (atom_repeat body least most capture) =
      AtomsLoaded t body × IsQuantifier least most × CaptureNamed t capture

  pub AtomsLoaded : InternTable → Atoms → Type 0
  AtomsLoaded t no_atoms = Unit
  AtomsLoaded t (more_atoms a more) = AtomLoaded t a × AtomsLoaded t more

-- There is a template, and the flag says whether the production starts with its rule.
abbrev pub ProductionLoaded : InternTable → ℕ → Production → Type 0
ProductionLoaded t name prod =
    (0 < length prod.templates)
    × (prod.starts_with_expr ≡ leads_with name prod.atoms)
    × AtomsLoaded t prod.atoms

unfoldable pub ProductionsLoaded : InternTable → ℕ → List Production → Type 0
unfolding AtomsLoaded
ProductionsLoaded t name [] = Unit
ProductionsLoaded t name (p ∷ ps) = ProductionLoaded t name p × ProductionsLoaded t name ps

-- Each rule is the only one of its name.
unfoldable pub RulesLoaded : InternTable → List GrammarRule → Type 0
unfolding ProductionsLoaded find_rule
RulesLoaded t [] = Unit
RulesLoaded t (r ∷ rs) =
    IsNamed t r.name
    × ProductionsLoaded t r.name r.productions
    × (find_rule rs r.name ≡ none)
    × RulesLoaded t rs

abbrev pub CanStart : Grammar → Type 0
CanStart g = (r : GrammarRule) × (find_rule g.rules g.start_rule ≡ some r)

module _ (t t' : InternTable) (keeps : Keeps t t') where
  pub IsNamed-keep : (sym : ℕ) → IsNamed t sym → IsNamed t' sym
  IsNamed-keep sym (x, at) = (x, keeps sym x at)

  pub CaptureNamed-keep : (capture : ℕ) → CaptureNamed t capture → CaptureNamed t' capture
  CaptureNamed-keep capture (inl none_given) = inl none_given
  CaptureNamed-keep capture (inr named) = inr (IsNamed-keep capture named)

  mutual
    unfolding AtomLoaded AtomsLoaded

    pub AtomLoaded-keep : (a : GrammarAtom) → AtomLoaded t a → AtomLoaded t' a
    AtomLoaded-keep (atom_literal s c) h = CaptureNamed-keep c h
    AtomLoaded-keep (atom_token_kind kind c) (named, h) =
        (IsNamed-keep kind named, CaptureNamed-keep c h)
    AtomLoaded-keep (atom_rule symbol bp c) (named, small, h) =
        (IsNamed-keep symbol named, small, CaptureNamed-keep c h)
    AtomLoaded-keep (atom_repeat body least most c) (loaded, q, h) =
        (AtomsLoaded-keep body loaded, q, CaptureNamed-keep c h)

    pub AtomsLoaded-keep : (more : Atoms) → AtomsLoaded t more → AtomsLoaded t' more
    AtomsLoaded-keep no_atoms h = tt
    AtomsLoaded-keep (more_atoms a more) (h, hs) = (AtomLoaded-keep a h, AtomsLoaded-keep more hs)

  pub ProductionsLoaded-keep :
      (name : ℕ) (ps : List Production) → ProductionsLoaded t name ps → ProductionsLoaded t' name ps
  unfolding ProductionsLoaded
  ProductionsLoaded-keep name [] h = tt
  ProductionsLoaded-keep name (p ∷ ps) ((some_template, flag, loaded), hs) =
      ((some_template, flag, AtomsLoaded-keep p.atoms loaded), ProductionsLoaded-keep name ps hs)

  pub RulesLoaded-keep : (rs : List GrammarRule) → RulesLoaded t rs → RulesLoaded t' rs
  unfolding RulesLoaded
  RulesLoaded-keep [] h = tt
  RulesLoaded-keep (r ∷ rs) (named, loaded, new, hs) = (
    IsNamed-keep r.name named,
    ProductionsLoaded-keep r.name r.productions loaded,
    new,
    RulesLoaded-keep rs hs,
  )

-- The names stay well formed and keep their meaning, and what is given has the property for the new
-- names.
abbrev pub Result :
    {A : Type 0} → (InternTable → A → Type 0) → InternTable → Option A × Stores → Type 0
Result P t (r, s) = WellFormed s.names × Keeps t s.names × Found (P s.names) r

-- A step from `s`; a crash needs `E`.
pub record Loads (E : Type 0) {A : Type 0} (P : InternTable → A → Type 0) (x : Load A) (s : Stores)
    : Type 0 where
  pub loads : WellFormed s.names → Post (Result P s.names) E (x s)

module _ {E : Type 0} where
  module _ {A : Type 0} {P : InternTable → A → Type 0} where
    pub Loads-done : (s : Stores) (a : A) → P s.names a → Loads E P (give a) s
    Loads-done s a p = record { loads = λ w. returns (w, λ id x h. h, p) }

    pub Loads-refuse : (s : Stores) → Loads E P give_up s
    Loads-refuse s = record { loads = λ w. returns (w, λ id x h. h, tt) }

    pub Loads-if :
        (s : Stores) (b : Bool) {x y : Load A}
        → (b ≡ true → Loads E P x s)
        → (b ≡ false → Loads E P y s)
        → Loads E P (if b then x else y) s
    Loads-if s true f g = f refl
    Loads-if s false f g = g refl

  module _ {A B : Type 0} {P : InternTable → A → Type 0} {Q : InternTable → B → Type 0} where
    pub Loads-bind :
        (s : Stores) {x : Load A} {next : A → Load B}
        → Loads E P x s
        → ((a : A) (s' : Stores) → Keeps s.names s'.names → P s'.names a → Loads E Q (next a) s')
        → Loads E Q (x >>= next) s
    Loads-bind s {x} {next} h k = record {
      loads = λ w. Post-attempt (h.loads w) fails λ (r, s') (w', keeps, p). go r s' w' keeps p;
    }
      where
        go :
            (r : Option A) (s' : Stores)
            → WellFormed s'.names
            → Keeps s.names s'.names
            → Found (P s'.names) r
            → Post (Result Q s.names) E (after give_up next r s')
        go none s' w keeps p = returns (w, keeps, tt)
        go (some a) s' w keeps p =
            Post-weaken
              (λ (r, s'') (w'', keeps', q). (w'', λ id y at. keeps' id y (keeps id y at), q))
              ((k a s' keeps p).loads w)

  pub Loads-weaken :
      {A : Type 0} {P Q : InternTable → A → Type 0} (s : Stores) {x : Load A}
      → ((t : InternTable) (a : A) → P t a → Q t a)
      → Loads E P x s
      → Loads E Q x s
  Loads-weaken {A} {P} {Q} s f h = record {
    loads = λ w. Post-weaken (λ (r, s') (w', keeps, p). (w', keeps, go r s'.names p)) (h.loads w);
  }
    where
      go : (r : Option A) (t : InternTable) → Found (P t) r → Found (Q t) r
      go none t p = tt
      go (some a) t p = f t a p

  pub given-Loads :
      {A : Type 0} (s : Stores) (o : Option A) → Loads E (λ t a. o ≡ some a) (given o) s
  given-Loads s none = Loads-refuse s
  given-Loads s (some a) = Loads-done s a refl

  pub symbol_of-Loads : (s : Stores) (name : Bytes) → Loads E IsNamed (symbol_of name) s
  symbol_of-Loads s name = record { loads = λ w. go w }
    where
      go : WellFormed s.names → Post (Result IsNamed s.names) E (symbol_of name s)
      go w =
          let n = next s.names name w in
          rw n.runs (elim (Bool-cases (n.id == 0)) [
            | inl nothing ↦ rw nothing (returns (n.fine, n.keeps, tt))
            | inr positive ↦
                rw positive (returns (n.fine, n.keeps, (name, n.named (ground (arith, positive)))))
          ])

  pub stored-Loads : (s : Stores) (text : Bytes) → Loads E (λ t kept. Unit) (stored text) s
  stored-Loads s text = record { loads = λ w. go w (arena_push s.arena (length text + 1)) }
    where
      go :
          WellFormed s.names
          → (room : Option (ℕ × Arena))
          → Post (Result (λ t kept. Unit) s.names) E (kept_in s text room)
      go w none = returns (w, λ id x h. h, tt)
      go w (some (at, arena)) = returns (w, λ id x h. h, tt)
