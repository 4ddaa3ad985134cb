-- ===== src/Selectors/Tests.antt =====
-- The selector theorems at a small entry, with natural numbers for floats.
use presslint.Common.{
  ℕ, ◌-◌, ◌≡◌, ◌↔◌, true, false, not, ◌&&◌, none, some, [], ◌∷◌, ltb, leb, ◌==◌, arith,
  if◌then◌else◌,
}
use presslint.Types.{
  ColorSpace, ColorUsage, ContentScope, ObjectKind, EditCapability, InventoryEntry,
}
use presslint.Selectors.{
  Float, PageParity, PageMatcher, CompareOp, Predicate, Selector, Selectors, page_matches, matches,
}
use presslint.Selectors.Pages.{Selects, page_matches_iff}
use presslint.Selectors.Meaning.{Satisfies, matches_iff}
use presslint.Selectors.Compare.{compares, component_compare_matches_order}

lt_not_le_law : (a b : ℕ) → ltb a b ≡ not (leb b a)
lt_not_le_law a b = ground arith

eq_le_le_law : (a b : ℕ) → (a == b) ≡ (leb a b && leb b a)
eq_le_le_law a b = ground arith

le_total_law : (a b : ℕ) → leb a b ≡ false → leb b a ≡ true
le_total_law a b h = ground arith

-- Percent, with 1000 in the place of an infinity.
abbrev percents : Float
percents = record {
  Num = ℕ;
  is_finite = λ n. ltb n 1000;
  le = leb;
  lt = ltb;
  eq = ◌==◌;
  distance = λ a b. if leb a b then b - a else a - b;
  zero_num = 0;
  lt_not_le = λ a b _ _. lt_not_le_law a b;
  eq_le_le = λ a b _ _. eq_le_le_law a b;
  le_total = λ a b _ _ h. le_total_law a b h;
}

abbrev black_text : InventoryEntry ℕ
black_text = record {
  id = record { page = 4; sequence = 0; digest = [] };
  kind = ObjectKind.text;
  provenance = record { page = 4; scope = ContentScope.page; range = none; invocation = none };
  bounds = none;
  colors =
      record {
        usage = ColorUsage.fill;
        space = ColorSpace.device_cmyk;
        components = 0 ∷ 0 ∷ 0 ∷ 90 ∷ [];
        spot_name = none;
        spot_names = [];
        source = none;
      }
      ∷ [];
  capabilities = EditCapability.rewrite_color_operand ∷ [];
}

-- K of at least 85 percent, on an odd page, and no image.
abbrev dark_on_odd : Selector ℕ
dark_on_odd = Selector.conj (
    Selectors.cons
      (Selector.predicate (
        Predicate.component_compare ColorSpace.device_cmyk (some ColorUsage.fill) 3 CompareOp.ge
          85))
      (Selectors.cons
        (Selector.predicate (Predicate.page_match (PageMatcher.parity PageParity.odd)))
        (Selectors.cons
          (Selector.negate (Selector.predicate (Predicate.object_kind ObjectKind.image)))
          Selectors.nil)))

page_matches_iff_example :
    (page_matches (PageMatcher.set (7 ∷ 2 ∷ [])) 2 ≡ true)
    ↔ Selects (PageMatcher.set (7 ∷ 2 ∷ [])) 2
page_matches_iff_example = page_matches_iff (PageMatcher.set (7 ∷ 2 ∷ [])) 2

matches_iff_example :
    (matches percents dark_on_odd black_text ≡ true) ↔ Satisfies percents black_text dark_on_odd
matches_iff_example = matches_iff percents dark_on_odd black_text

component_compare_matches_order_example :
    ((ltb 90 1000 && ltb 85 1000) ≡ true
      → (compares percents 90 CompareOp.ge 85 ≡ leb 85 90)
        × (compares percents 90 CompareOp.gt 85 ≡ not (leb 90 85))
        × (compares percents 90 CompareOp.le 85 ≡ leb 90 85)
        × (compares percents 90 CompareOp.lt 85 ≡ not (leb 85 90))
        × (compares percents 90 CompareOp.eq 85 ≡ (leb 90 85 && leb 85 90)))
    × ((ltb 90 1000 && ltb 85 1000) ≡ false → (op : CompareOp) → compares percents 90 op 85 ≡ false)
component_compare_matches_order_example = component_compare_matches_order percents 90 85
