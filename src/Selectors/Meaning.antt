-- ===== src/Selectors/Meaning.antt =====
-- The selector language, read as a logic over the entry.
use mathlib.Core.Bool.{decide_iff}
use presslint.Common.{
  ◌≡◌, refl, ◌↔◌, ◌⊎◌, inl, inr, Bool, true, false, not, ◌&&◌, ◌||◌, ==_iff, Option, none, some,
  List, [], ◌∷◌, get_elem?, Bool-cases,
}
use presslint.Types.{
  ColorUsage, ColorUsage-discrete, ColorSpace-discrete, ObjectKind-discrete,
  EditCapability-discrete, ContentScope-discrete, ColorObservation, InventoryEntry,
}
use presslint.Selectors.{
  Float, Predicate, Selector, Selectors, any, usage_fits, components_match,
  component_compare_matches, matches_predicate, matches, matches_all, matches_any,
}
use presslint.Selectors.Pages.{Selects, page_matches_iff}

abbrev pub Exists : {A : Type 0} → (A → Type 0) → List A → Type 0
Exists P [] = ⊥
Exists P (x ∷ xs) = P x ⊎ Exists P xs

abbrev pub UsageFits : Option ColorUsage → ColorUsage → Type 0
UsageFits none u = Unit
UsageFits (some wanted) u = u ≡ wanted

pub any_iff :
    {A : Type 0} (P : A → Type 0) (test : A → Bool)
    → ((a : A) → (test a ≡ true) ↔ P a)
    → (xs : List A) → (any test xs ≡ true) ↔ Exists P xs
unfolding any
any_iff P test h [] = (λ e. cc, λ e. absurd e)
any_iff P test h (x ∷ xs) = elim (Bool-cases (test x)) [
  | inl hit ↦ rw hit (λ _. inl ((h x).0 hit), λ _. refl)
  | inr miss ↦ rw miss (
    λ e. inr ((any_iff P test h xs).0 e),
    elim [ inl p ↦ cc ((h x).1 p) | inr r ↦ (any_iff P test h xs).1 r ],
  )
]

usage_fits_iff : (w : Option ColorUsage) (u : ColorUsage) → (usage_fits w u ≡ true) ↔ UsageFits w u
unfolding usage_fits
usage_fits_iff none u = (λ _. tt, λ _. refl)
usage_fits_iff (some w) u = decide_iff (ColorUsage-discrete u w)

and_iff :
    {P Q : Type 0} (a b : Bool) → ((a ≡ true) ↔ P) → ((b ≡ true) ↔ Q) → ((a && b) ≡ true) ↔ (P × Q)
and_iff true b h k = (λ e. (h.0 refl, k.0 e), λ (p, q). k.1 q)
and_iff false b h k = (λ e. cc, λ (p, q). cc (h.1 p))

or_iff :
    {P Q : Type 0} (a b : Bool) → ((a ≡ true) ↔ P) → ((b ≡ true) ↔ Q) → ((a || b) ≡ true) ↔ (P ⊎ Q)
or_iff true b h k = (λ e. inl (h.0 refl), λ _. refl)
or_iff false b h k = (λ e. inr (k.0 e), elim [ inl p ↦ cc (h.1 p) | inr q ↦ k.1 q ])

not_iff : {P : Type 0} (a : Bool) → ((a ≡ true) ↔ P) → (not a ≡ true) ↔ (¬ P)
not_iff true h = (λ e. cc, λ n. absurd (n (h.0 refl)))
not_iff false h = (λ _ p. cc (h.1 p), λ _. refl)

module _ (f : Float) where
  open f use {Num}

  -- What a predicate says of an entry. The conditions on a color speak of one observation.
  abbrev pub Holds : Predicate Num → InventoryEntry Num → Type 0
  Holds (Predicate.object_kind k) entry = entry.kind ≡ k
  Holds (Predicate.color_space s) entry = Exists (λ c. c.space ≡ s) entry.colors
  Holds (Predicate.page p) entry = entry.id.page ≡ p
  Holds (Predicate.page_match m) entry = Selects m entry.id.page
  Holds (Predicate.editable c) entry = Exists (λ x. x ≡ c) entry.capabilities
  Holds (Predicate.scope s) entry = entry.provenance.scope ≡ s
  Holds (Predicate.color_usage u) entry = Exists (λ c. c.usage ≡ u) entry.colors
  Holds (Predicate.color_components s u components tolerance) entry =
      Exists
        (λ c.
          (c.space ≡ s)
          × (UsageFits u c.usage × (components_match f components c.components tolerance ≡ true)))
        entry.colors
  Holds (Predicate.component_compare s u i op value) entry =
      Exists
        (λ c.
          (c.space ≡ s)
          × (UsageFits u c.usage
              × (component_compare_matches f (get_elem? c.components i) op value ≡ true)))
        entry.colors

  matches_predicate_iff :
      (p : Predicate Num) (entry : InventoryEntry Num)
      → (matches_predicate f p entry ≡ true) ↔ Holds p entry
  unfolding matches_predicate
  matches_predicate_iff (Predicate.object_kind k) entry =
      decide_iff (ObjectKind-discrete entry.kind k)
  matches_predicate_iff (Predicate.color_space s) entry =
      any_iff (λ (c : ColorObservation Num). c.space ≡ s) _
        (λ c. decide_iff (ColorSpace-discrete c.space s)) entry.colors
  matches_predicate_iff (Predicate.page p) entry = ==_iff entry.id.page p
  matches_predicate_iff (Predicate.page_match m) entry = page_matches_iff m entry.id.page
  matches_predicate_iff (Predicate.editable c) entry =
      any_iff (λ x. x ≡ c) _ (λ x. decide_iff (EditCapability-discrete x c)) entry.capabilities
  matches_predicate_iff (Predicate.scope s) entry =
      decide_iff (ContentScope-discrete entry.provenance.scope s)
  matches_predicate_iff (Predicate.color_usage u) entry =
      any_iff (λ (c : ColorObservation Num). c.usage ≡ u) _
        (λ c. decide_iff (ColorUsage-discrete c.usage u)) entry.colors
  matches_predicate_iff (Predicate.color_components s u components tolerance) entry =
      any_iff _ _
        (λ c.
          and_iff _ _ (decide_iff (ColorSpace-discrete c.space s))
            (and_iff _ _ (usage_fits_iff u c.usage) (λ e. e, λ e. e)))
        entry.colors
  matches_predicate_iff (Predicate.component_compare s u i op value) entry =
      any_iff _ _
        (λ c.
          and_iff _ _ (decide_iff (ColorSpace-discrete c.space s))
            (and_iff _ _ (usage_fits_iff u c.usage) (λ e. e, λ e. e)))
        entry.colors

  abbrev mutual
    -- A selector as a formula: negation, conjunction and disjunction of what the predicates say.
    pub Satisfies : InventoryEntry Num → Selector Num → Type 0
    Satisfies entry Selector.all = Unit
    Satisfies entry Selector.none_of_them = ⊥
    Satisfies entry (Selector.negate s) = ¬ Satisfies entry s
    Satisfies entry (Selector.conj ss) = SatisfiesAll entry ss
    Satisfies entry (Selector.disj ss) = SatisfiesAny entry ss
    Satisfies entry (Selector.predicate p) = Holds p entry

    pub SatisfiesAll : InventoryEntry Num → Selectors Num → Type 0
    SatisfiesAll entry Selectors.nil = Unit
    SatisfiesAll entry (Selectors.cons s ss) = Satisfies entry s × SatisfiesAll entry ss

    pub SatisfiesAny : InventoryEntry Num → Selectors Num → Type 0
    SatisfiesAny entry Selectors.nil = ⊥
    SatisfiesAny entry (Selectors.cons s ss) = Satisfies entry s ⊎ SatisfiesAny entry ss

  mutual
    unfolding matches

    iff :
        (s : Selector Num) (entry : InventoryEntry Num)
        → (matches f s entry ≡ true) ↔ Satisfies entry s
    iff Selector.all entry = (λ _. tt, λ _. refl)
    iff Selector.none_of_them entry = (λ e. cc, λ e. absurd e)
    iff (Selector.negate s) entry = not_iff (matches f s entry) (iff s entry)
    iff (Selector.conj ss) entry = all_iff ss entry
    iff (Selector.disj ss) entry = some_iff ss entry
    iff (Selector.predicate p) entry = matches_predicate_iff p entry

    all_iff :
        (ss : Selectors Num) (entry : InventoryEntry Num)
        → (matches_all f ss entry ≡ true) ↔ SatisfiesAll entry ss
    all_iff Selectors.nil entry = (λ _. tt, λ _. refl)
    all_iff (Selectors.cons s ss) entry =
        and_iff (matches f s entry) _ (iff s entry) (all_iff ss entry)

    some_iff :
        (ss : Selectors Num) (entry : InventoryEntry Num)
        → (matches_any f ss entry ≡ true) ↔ SatisfiesAny entry ss
    some_iff Selectors.nil entry = (λ e. cc, λ e. absurd e)
    some_iff (Selectors.cons s ss) entry =
        or_iff (matches f s entry) _ (iff s entry) (some_iff ss entry)

  -- `matches` decides whether the entry satisfies the selector, read as a formula of propositional
  -- logic over what its predicates say of the entry; an empty conjunction holds, an empty
  -- disjunction does not.
  pub matches_iff :
      (s : Selector Num) (entry : InventoryEntry Num)
      → (matches f s entry ≡ true) ↔ Satisfies entry s
  matches_iff s entry = iff s entry
