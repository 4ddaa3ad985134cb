-- ===== src/Actions/Targets.antt =====
-- What the plan of a step lists: each entry that it selects, once, in inventory order.
use mathlib.Core.Bool.{decide, decide_iff}
use mathlib.Core.List.{append_assoc, append-nil}
use presslint.Common.{
  ◌≡◌, refl, ◌∙◌, ◌⊎◌, inl, inr, Option, none, some, List, [], ◌∷◌, ◌++◌, Bool-cases,
}
use presslint.Syntax.Model.{ByteRange}
use presslint.Types.{EditCapability, EditCapability-discrete, ObjectId, InventoryEntry}
use presslint.Selectors.{Float, Selector, any, matches}
use presslint.Selectors.Meaning.{Satisfies, matches_iff, Exists, any_iff}
use presslint.Actions.Model.{
  Action, convert_color, spread_text, minimum_stroke_width, set_page_box, PlannedPatch, SkipReason,
  unsupported_capability, SkippedTarget,
}
use presslint.Actions.Plan.{
  operand_boundary, planned_patch, plan_patch_for_action, PlanLists, skip, push_patch, record_patch,
  plan_entry, plan_loop, no_lists, map_ok,
}
use presslint.Actions.Sources.{Verdict, process_sources, convert_color_boundary-Verdict}

module _ {Num : Type 0} where
  abbrev pub IsColorConversion : Action Num → Type 0
  IsColorConversion (convert_color c) = Unit
  IsColorConversion _ = ⊥

  -- What an action comes to on an entry that is capable of it.
  pub data Planned (action : Action Num) (entry : InventoryEntry Num) (required : EditCapability)
      : SkipReason ⊎ Option (PlannedPatch Num) → Type 0 where
    refused :
        {reason : SkipReason}
        → IsColorConversion action
        → Verdict (process_sources entry.colors) (inl reason)
        → Planned action entry required (inl reason)
    rewrites :
        {range : ByteRange}
        → IsColorConversion action
        → Verdict (process_sources entry.colors) (inr range)
        → Planned action entry required
            (inr (some (planned_patch entry required (operand_boundary entry action range))))
    marked : ¬ IsColorConversion action → Planned action entry required (inr none)

  abbrev pub with_patch :
      Option (PlannedPatch Num) → List (PlannedPatch Num) → List (PlannedPatch Num)
  with_patch none ps = ps
  with_patch (some p) ps = p ∷ ps

  abbrev pub skipped_target : InventoryEntry Num → SkipReason → SkippedTarget
  skipped_target entry reason = record { object = entry.id; reason = reason }

  map_ok-Planned :
      (c : _) (entry : InventoryEntry Num) (required : EditCapability)
      (result : SkipReason ⊎ ByteRange)
      → Verdict (process_sources entry.colors) result
      → Planned (convert_color c) entry required (
          map_ok
            (λ boundary. some (planned_patch entry required boundary))
            (map_ok (operand_boundary entry (convert_color c)) result))
  map_ok-Planned c entry required (inl reason) v = refused tt v
  map_ok-Planned c entry required (inr range) v = rewrites tt v

  plan_patch_for_action-Planned :
      (action : Action Num) (entry : InventoryEntry Num) (required : EditCapability)
      → Planned action entry required (plan_patch_for_action action entry required)
  unfolding plan_patch_for_action
  plan_patch_for_action-Planned (convert_color c) entry required =
      let (result, v, e) = convert_color_boundary-Verdict entry (convert_color c) in
      rw e (map_ok-Planned c entry required result v)
  plan_patch_for_action-Planned (spread_text s) entry required = marked (λ h. h)
  plan_patch_for_action-Planned (minimum_stroke_width w) entry required = marked (λ h. h)
  plan_patch_for_action-Planned (set_page_box b) entry required = marked (λ h. h)

module _ (f : Float) (select : Selector f.Num) (action : Action f.Num)
    (required : EditCapability) where
  open f use {Num}

  abbrev pub IsCapable : InventoryEntry Num → Type 0
  IsCapable entry = Exists (λ x. x ≡ required) entry.capabilities

  -- The entries, in order, are dealt out to targets with their patches and to skips; those that the
  -- selector leaves out appear nowhere.
  pub data Deals
      : List (InventoryEntry Num)
        → List ObjectId
        → List (PlannedPatch Num)
        → List SkippedTarget
        → Type 0 where
    done : Deals [] [] [] []
    unselected :
        {e : InventoryEntry Num} {es : List (InventoryEntry Num)} {ts : List ObjectId}
        {ps : List (PlannedPatch Num)} {ss : List SkippedTarget}
        → ¬ Satisfies f e select
        → Deals es ts ps ss
        → Deals (e ∷ es) ts ps ss
    incapable :
        {e : InventoryEntry Num} {es : List (InventoryEntry Num)} {ts : List ObjectId}
        {ps : List (PlannedPatch Num)} {ss : List SkippedTarget}
        → Satisfies f e select
        → ¬ IsCapable e
        → Deals es ts ps ss
        → Deals (e ∷ es) ts ps (skipped_target e (unsupported_capability required) ∷ ss)
    ineligible :
        {e : InventoryEntry Num} {es : List (InventoryEntry Num)} {ts : List ObjectId}
        {ps : List (PlannedPatch Num)} {ss : List SkippedTarget} {reason : SkipReason}
        → Satisfies f e select
        → IsCapable e
        → Planned action e required (inl reason)
        → Deals es ts ps ss
        → Deals (e ∷ es) ts ps (skipped_target e reason ∷ ss)
    target :
        {e : InventoryEntry Num} {es : List (InventoryEntry Num)} {ts : List ObjectId}
        {ps : List (PlannedPatch Num)} {ss : List SkippedTarget} (p : Option (PlannedPatch Num))
        → Satisfies f e select
        → IsCapable e
        → Planned action e required (inr p)
        → Deals es ts ps ss
        → Deals (e ∷ es) (e.id ∷ ts) (with_patch p ps) ss

  -- The lists grow by what the entries are dealt out to.
  abbrev Grows : PlanLists Num → List (InventoryEntry Num) → PlanLists Num → Type 0
  Grows l es result =
      (ts : List ObjectId) × (ps : List (PlannedPatch Num)) × (ss : List SkippedTarget)
      × (result.targets ≡ l.targets ++ ts)
      × (result.patches ≡ l.patches ++ ps)
      × (result.skipped ≡ l.skipped ++ ss)
      × Deals es ts ps ss

  skip-Grows :
      (e : InventoryEntry Num) (reason : SkipReason) (l : PlanLists Num)
      (es : List (InventoryEntry Num)) (result : PlanLists Num)
      → ((ts : List ObjectId) (ps : List (PlannedPatch Num)) (ss : List SkippedTarget)
          → Deals es ts ps ss
          → Deals (e ∷ es) ts ps (skipped_target e reason ∷ ss))
      → Grows (skip e reason l) es result
      → Grows l (e ∷ es) result
  skip-Grows e reason l es result deal (ts, ps, ss, t, p, s, d) = (
    ts,
    ps,
    skipped_target e reason ∷ ss,
    t,
    p,
    s ∙ append_assoc l.skipped (skipped_target e reason ∷ []) ss,
    deal ts ps ss d,
  )

  push_patch-with_patch :
      (l : List (PlannedPatch Num)) (p : Option (PlannedPatch Num)) (ps : List (PlannedPatch Num))
      → push_patch l p ++ ps ≡ l ++ with_patch p ps
  push_patch-with_patch l none ps = refl
  push_patch-with_patch l (some p) ps = append_assoc l (p ∷ []) ps

  record_patch-Grows :
      (e : InventoryEntry Num) (l : PlanLists Num) (es : List (InventoryEntry Num))
      (r : SkipReason ⊎ Option (PlannedPatch Num)) (result : PlanLists Num)
      → Satisfies f e select
      → IsCapable e
      → Planned action e required r
      → Grows (record_patch e l r) es result
      → Grows l (e ∷ es) result
  unfolding record_patch
  record_patch-Grows e l es (inl reason) result sat can plan g =
      skip-Grows e reason l es result (λ _ _ _ d. ineligible sat can plan d) g
  record_patch-Grows e l es (inr p) result sat can plan (ts, ps, ss, t, q, s, d) = (
    e.id ∷ ts,
    with_patch p ps,
    ss,
    t ∙ append_assoc l.targets (e.id ∷ []) ts,
    q ∙ push_patch-with_patch l.patches p ps,
    s,
    target p sat can plan d,
  )

  plan_entry-Grows :
      (e : InventoryEntry Num) (l : PlanLists Num) (es : List (InventoryEntry Num))
      (result : PlanLists Num)
      → Grows (plan_entry f select action required l e) es result
      → Grows l (e ∷ es) result
  unfolding plan_entry
  plan_entry-Grows e l es result =
      let (sat, satb) = matches_iff f select e in
      let (can, canb) =
        any_iff (λ x. x ≡ required) (λ x. decide (EditCapability-discrete x required))
          (λ x. decide_iff (EditCapability-discrete x required)) e.capabilities in
      elim (Bool-cases (matches f select e)) [
        | inl m ↦
            elim (Bool-cases
              (any (λ x. decide (EditCapability-discrete x required)) e.capabilities)) [
                | inl c ↦
                    rw (m, c)
                      (record_patch-Grows e l es (plan_patch_for_action action e required) result
                        (sat m) (can c) (plan_patch_for_action-Planned action e required))
                | inr c ↦
                    rw (m, c)
                      (skip-Grows e (unsupported_capability required) l es result
                        (λ _ _ _ d. incapable (sat m) (λ h. let hit = canb h in cc) d))
              ]
        | inr m ↦ rw m (λ (ts, ps, ss, t, p, s, d).
            (ts, ps, ss, t, p, s, unselected (λ h. let hit = satb h in cc) d))
      ]

  plan_loop-Grows :
      (l : PlanLists Num) (es : List (InventoryEntry Num))
      → Grows l es (plan_loop f select action required l es)
  unfolding plan_loop
  plan_loop-Grows l [] = (
    [],
    [],
    [],
    rw (append-nil l.targets) refl,
    rw (append-nil l.patches) refl,
    rw (append-nil l.skipped) refl,
    done,
  )
  plan_loop-Grows l (e ∷ es) =
      plan_entry-Grows e l es _ (plan_loop-Grows (plan_entry f select action required l e) es)

  pub plan_loop-Deals :
      (es : List (InventoryEntry Num))
      → let l = plan_loop f select action required (no_lists f) es in
        Deals es l.targets l.patches l.skipped
  plan_loop-Deals es =
      let (ts, ps, ss, t, p, s, d) = plan_loop-Grows (no_lists f) es in rw (t, p, s) d
