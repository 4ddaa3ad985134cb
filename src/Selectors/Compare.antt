-- ===== src/Selectors/Compare.antt =====
-- The numeric predicates on finite components.
use presslint.Common.{◌≡◌, refl, Bool, true, false, not, ◌&&◌, some, arith}
use presslint.Selectors.{Float, CompareOp, compare_op, component_compare_matches}

module _ (f : Float) where
  open f use {Num}

  abbrev pub compares : Num → CompareOp → Num → Bool
  compares actual op value = component_compare_matches f (some actual) op value

  -- On finite numbers each operator is the order relation that it is written as, between the actual
  -- number on its left and the value on its right: `>=` is `value <= actual`, `<=` is
  -- `actual <= value`, `>` and `<` are the negations of these the other way round, and `==` is both.
  -- Where one of the two numbers is not finite, no operator holds.
  pub component_compare_matches_order :
      (actual value : Num)
      → ((f.is_finite actual && f.is_finite value) ≡ true
          → (compares actual CompareOp.ge value ≡ f.le value actual)
            × (compares actual CompareOp.gt value ≡ not (f.le actual value))
            × (compares actual CompareOp.le value ≡ f.le actual value)
            × (compares actual CompareOp.lt value ≡ not (f.le value actual))
            × (compares actual CompareOp.eq value ≡ (f.le actual value && f.le value actual)))
        × ((f.is_finite actual && f.is_finite value) ≡ false
            → (op : CompareOp) → compares actual op value ≡ false)
  unfolding component_compare_matches compare_op
  component_compare_matches_order actual value = (
    λ h.
        let fa : f.is_finite actual ≡ true = ground arith in
        let fv : f.is_finite value ≡ true = ground arith in
        let lt_is = f.lt_not_le actual value fa fv in
        let gt_is = f.lt_not_le value actual fv fa in
        let eq_is = f.eq_le_le actual value fa fv in rw (fa, fv) (refl, gt_is, refl, lt_is, eq_is),
    λ h op. ground arith,
  )
