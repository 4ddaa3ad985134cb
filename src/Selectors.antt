-- ===== src/Selectors.antt =====
-- crates/presslint-selectors/src/lib.rs: Boolean selectors over inventory entries. `f64` and its
-- comparisons are a parameter; their laws are those of IEEE 754 for finite numbers.
pub mod Pages
pub mod Meaning
pub mod Compare
mod Tests
use mathlib.Core.Bool.{decide}
use native.Mathlib.Decide.{ℕ_discrete}
use presslint.Common.{
  ℕ, ◌%◌, Bool, true, false, not, ◌&&◌, ◌||◌, Option, none, some, List, [], ◌∷◌, ◌≡◌, leb, ◌==◌,
  length, get_elem?, if◌then◌else◌,
}
use presslint.Types.{
  PageIndex, ContentScope, ContentScope-discrete, ColorSpace, ColorSpace-discrete, ColorUsage,
  ColorUsage-discrete, ObjectKind, ObjectKind-discrete, EditCapability, EditCapability-discrete,
  ColorObservation, InventoryEntry,
}

-- `f64` as the code uses it. `distance a b` is `(a - b).abs()`.
pub record Float : Type 1 where
  pub Num : Type 0
  pub is_finite : Num → Bool
  pub le : Num → Num → Bool
  pub lt : Num → Num → Bool
  pub eq : Num → Num → Bool
  pub distance : Num → Num → Num
  pub zero_num : Num
  -- For finite numbers the three comparisons are one total order.
  pub lt_not_le : (a b : Num) → is_finite a ≡ true → is_finite b ≡ true → lt a b ≡ not (le b a)
  pub eq_le_le : (a b : Num) → is_finite a ≡ true → is_finite b ≡ true → eq a b ≡ (le a b && le b a)
  pub le_total :
      (a b : Num) → is_finite a ≡ true → is_finite b ≡ true → le a b ≡ false → le b a ≡ true

pub data PageParity : Type 0 where
  odd even : PageParity

pub data PageMatcher : Type 0 where
  parity : PageParity → PageMatcher
  range : PageIndex → PageIndex → PageMatcher
  set : List PageIndex → PageMatcher

pub data CompareOp : Type 0 where
  ge gt le lt eq : CompareOp

pub data Predicate (Num : Type 0) : Type 0 where
  object_kind : ObjectKind → Predicate Num
  color_space : ColorSpace → Predicate Num
  page : PageIndex → Predicate Num
  page_match : PageMatcher → Predicate Num
  editable : EditCapability → Predicate Num
  scope : ContentScope → Predicate Num
  color_usage : ColorUsage → Predicate Num
  color_components : ColorSpace → Option ColorUsage → List Num → Option Num → Predicate Num
  component_compare : ColorSpace → Option ColorUsage → ℕ → CompareOp → Num → Predicate Num

mutual
  pub data Selector (Num : Type 0) : Type 0 where
    all : Selector Num
    none_of_them : Selector Num
    negate : Selector Num → Selector Num
    conj : Selectors Num → Selector Num
    disj : Selectors Num → Selector Num
    predicate : Predicate Num → Selector Num

  -- `Vec<Selector>`
  pub data Selectors (Num : Type 0) : Type 0 where
    nil : Selectors Num
    cons : Selector Num → Selectors Num → Selectors Num

-- `PageParity::matches`
unfoldable pub parity_matches : PageParity → PageIndex → Bool
parity_matches PageParity.odd index = index % 2 == 0
parity_matches PageParity.even index = not (index % 2 == 0)

-- `pages.contains(&page)`
unfoldable pub contains_page : List PageIndex → PageIndex → Bool
contains_page [] index = false
contains_page (p ∷ ps) index = if p == index then true else contains_page ps index

-- `PageMatcher::matches`
unfoldable pub page_matches : PageMatcher → PageIndex → Bool
page_matches (PageMatcher.parity p) index = parity_matches p index
page_matches (PageMatcher.range start end) index = leb start index && leb index end
page_matches (PageMatcher.set pages) index = contains_page pages index

-- `.iter().any(test)`
unfoldable pub any {ℓ} : {A : Type ℓ} → (A → Bool) → List A → Bool
any test [] = false
any test (x ∷ xs) = if test x then true else any test xs

-- `usage.is_none_or(|usage| color.usage == usage)`
unfoldable pub usage_fits : Option ColorUsage → ColorUsage → Bool
usage_fits none u = true
usage_fits (some wanted) u = decide (ColorUsage-discrete u wanted)

module _ (f : Float) where
  open f use {Num}

  unfoldable pub compare_op : Num → CompareOp → Num → Bool
  compare_op actual CompareOp.ge value = f.le value actual
  compare_op actual CompareOp.gt value = f.lt value actual
  compare_op actual CompareOp.le value = f.le actual value
  compare_op actual CompareOp.lt value = f.lt actual value
  compare_op actual CompareOp.eq value = f.eq actual value

  unfoldable pub component_compare_matches : Option Num → CompareOp → Num → Bool
  component_compare_matches none op value = false
  component_compare_matches (some actual) op value =
      if not (f.is_finite actual)
      then false
      else if not (f.is_finite value)
      then false
      else compare_op actual op value

  -- `.iter().zip(actual).all(test)`
  unfoldable pub zip_all : (Num → Num → Bool) → List Num → List Num → Bool
  zip_all test (x ∷ xs) (y ∷ ys) = if test x y then zip_all test xs ys else false
  zip_all test [] ys = true
  zip_all test (x ∷ xs) [] = true

  -- The match on the tolerance in `components_match`.
  unfoldable pub tolerance_match : List Num → List Num → Option Num → Bool
  tolerance_match expected actual none =
      zip_all (λ e a. f.is_finite e && (f.is_finite a && f.eq e a)) expected actual
  tolerance_match expected actual (some tolerance) =
      if f.is_finite tolerance && f.le f.zero_num tolerance
      then zip_all (λ e a. f.is_finite e && (f.is_finite a && f.le (f.distance e a) tolerance))
          expected actual
      else false

  unfoldable pub components_match : List Num → List Num → Option Num → Bool
  components_match expected actual tolerance =
      if not (length expected == length actual)
      then false
      else tolerance_match expected actual tolerance

  unfoldable pub matches_predicate : Predicate Num → InventoryEntry Num → Bool
  matches_predicate (Predicate.object_kind k) entry = decide (ObjectKind-discrete entry.kind k)
  matches_predicate (Predicate.color_space s) entry =
      any (λ color. decide (ColorSpace-discrete color.space s)) entry.colors
  matches_predicate (Predicate.page p) entry = entry.id.page == p
  matches_predicate (Predicate.page_match m) entry = page_matches m entry.id.page
  matches_predicate (Predicate.editable c) entry =
      any (λ x. decide (EditCapability-discrete x c)) entry.capabilities
  matches_predicate (Predicate.scope s) entry =
      decide (ContentScope-discrete entry.provenance.scope s)
  matches_predicate (Predicate.color_usage u) entry =
      any (λ color. decide (ColorUsage-discrete color.usage u)) entry.colors
  matches_predicate (Predicate.color_components s u components tolerance) entry =
      any
        (λ color.
          decide (ColorSpace-discrete color.space s)
          && (usage_fits u color.usage && components_match components color.components tolerance))
        entry.colors
  matches_predicate (Predicate.component_compare s u i op value) entry =
      any
        (λ color.
          decide (ColorSpace-discrete color.space s)
          && (usage_fits u color.usage
              && component_compare_matches (get_elem? color.components i) op value))
        entry.colors

  unfoldable mutual
    pub matches : Selector Num → InventoryEntry Num → Bool
    matches Selector.all entry = true
    matches Selector.none_of_them entry = false
    matches (Selector.negate s) entry = not (matches s entry)
    matches (Selector.conj ss) entry = matches_all ss entry
    matches (Selector.disj ss) entry = matches_any ss entry
    matches (Selector.predicate p) entry = matches_predicate p entry

    -- `.iter().all(..)` and `.iter().any(..)`
    pub matches_all : Selectors Num → InventoryEntry Num → Bool
    matches_all Selectors.nil entry = true
    matches_all (Selectors.cons s ss) entry = matches s entry && matches_all ss entry

    pub matches_any : Selectors Num → InventoryEntry Num → Bool
    matches_any Selectors.nil entry = false
    matches_any (Selectors.cons s ss) entry = matches s entry || matches_any ss entry
