-- ===== src/Actions/Plan.antt =====
-- crates/presslint-actions/src/lib.rs: the plan of a recipe over an inventory.
use mathlib.Core.Bool.{decide}
use presslint.Common.{
  Bool, true, false, ◌⊎◌, inl, inr, Option, none, some, List, [], ◌∷◌, ◌++◌, map, if◌then◌else◌,
}
use presslint.Syntax.Model.{ByteRange}
use presslint.Types.{
  ColorSpace, EditCapability, EditCapability-discrete, ObjectId, ColorObservation, InventoryEntry,
}
use presslint.Selectors.{Float, Selector, any, matches}
use presslint.Actions.Model.{
  Action, convert_color, spread_text, minimum_stroke_width, set_page_box, RecipeStep, Recipe,
  Inventory, action_generated, MutationBoundary, content_stream_operand, PlannedPatch, SkipReason,
  unsupported_capability, non_process_color, missing_color_source, ambiguous_color_source,
  SkippedTarget, ActionPlan, PatchPlan, no_op,
}

unfoldable pub is_process_space : ColorSpace → Bool
is_process_space ColorSpace.device_gray = true
is_process_space ColorSpace.device_rgb = true
is_process_space ColorSpace.device_cmyk = true
is_process_space _ = false

-- The variables of the loop over the colors of an entry.
pub record ColorTally : Type 0 where
  pub has_process_color : Bool
  pub missing_source : Bool
  pub ambiguous_source : Bool
  pub source : Option ByteRange

-- The match on the source of a process color, under the source that `t` has.
unfoldable pub tally_source : Option ByteRange → Option ByteRange → ColorTally → ColorTally
tally_source (some range) none t = record {
  has_process_color = true;
  missing_source = t.missing_source;
  ambiguous_source = t.ambiguous_source;
  source = some range;
}
tally_source (some range) (some earlier) t = record {
  has_process_color = true;
  missing_source = t.missing_source;
  ambiguous_source = true;
  source = t.source;
}
tally_source none source t = record {
  has_process_color = true;
  missing_source = true;
  ambiguous_source = t.ambiguous_source;
  source = t.source;
}

abbrev pub no_tally : ColorTally
no_tally = record {
  has_process_color = false;
  missing_source = false;
  ambiguous_source = false;
  source = none;
}

-- The tests behind the loop. `inl` is `Err`, `inr` is `Ok`.
unfoldable pub tally_result : ColorTally → SkipReason ⊎ ByteRange
tally_result t =
    if t.has_process_color
    then (if t.missing_source
        then inl missing_color_source
        else if t.ambiguous_source
        then inl ambiguous_color_source
        else elim t.source [ some range ↦ inr range | none ↦ inl missing_color_source ])
    else inl non_process_color

-- What is done with a value, where there is one; an error is passed on.
abbrev pub map_ok {ℓ κ ι} : {E : Type κ} {A : Type ℓ} {B : Type ι} → (A → B) → E ⊎ A → E ⊎ B
map_ok f (inl e) = inl e
map_ok f (inr a) = inr (f a)

module _ {Num : Type 0} where
  unfoldable pub tally_loop : ColorTally → List (ColorObservation Num) → ColorTally
  tally_loop t [] = t
  tally_loop t (color ∷ colors) =
      let other = tally_loop t colors in
      let process = tally_loop (tally_source color.source t.source t) colors in
      if is_process_space color.space then process else other

  unfoldable pub operand_boundary :
      InventoryEntry Num → Action Num → ByteRange → MutationBoundary Num
  operand_boundary entry action record_range =
      content_stream_operand entry.provenance.page entry.provenance.scope record_range none none
        none (action_generated action)

  unfoldable pub convert_color_boundary :
      InventoryEntry Num → Action Num → SkipReason ⊎ MutationBoundary Num
  unfolding is_process_space tally_source tally_loop tally_result operand_boundary
  convert_color_boundary entry action =
      map_ok (operand_boundary entry action) (tally_result (tally_loop no_tally entry.colors))

  -- `Action::required_capability`
  unfoldable pub required_capability : Action Num → Option EditCapability
  required_capability (convert_color c) = some EditCapability.rewrite_color_operand
  required_capability (spread_text s) = some EditCapability.add_text_spread_stroke
  required_capability (minimum_stroke_width w) = some EditCapability.adjust_stroke_width
  required_capability (set_page_box b) = none

  unfoldable pub planned_patch :
      InventoryEntry Num → EditCapability → MutationBoundary Num → PlannedPatch Num
  planned_patch entry required boundary = record {
    object = entry.id;
    capability = required;
    boundary = boundary;
  }

  unfoldable pub plan_patch_for_action :
      Action Num → InventoryEntry Num → EditCapability → SkipReason ⊎ Option (PlannedPatch Num)
  unfolding convert_color_boundary planned_patch
  plan_patch_for_action (convert_color c) entry required =
      map_ok (λ boundary. some (planned_patch entry required boundary))
        (convert_color_boundary entry (convert_color c))
  plan_patch_for_action (spread_text s) entry required = inr none
  plan_patch_for_action (minimum_stroke_width w) entry required = inr none
  plan_patch_for_action (set_page_box b) entry required = inr none

-- `targets`, `patches` and `skipped`.
pub record PlanLists (Num : Type 0) : Type 0 where
  pub targets : List ObjectId
  pub patches : List (PlannedPatch Num)
  pub skipped : List SkippedTarget

abbrev pub skip : {Num : Type 0} → InventoryEntry Num → SkipReason → PlanLists Num → PlanLists Num
skip entry reason l = record {
  targets = l.targets;
  patches = l.patches;
  skipped = l.skipped ++ record { object = entry.id; reason = reason } ∷ [];
}

-- `if let Some(patch) = patch { patches.push(patch) }`
abbrev pub push_patch :
    {Num : Type 0} → List (PlannedPatch Num) → Option (PlannedPatch Num) → List (PlannedPatch Num)
push_patch patches none = patches
push_patch patches (some patch) = patches ++ patch ∷ []

-- The match on the planned patch.
unfoldable pub record_patch :
    {Num : Type 0}
    → InventoryEntry Num
    → PlanLists Num
    → SkipReason ⊎ Option (PlannedPatch Num)
    → PlanLists Num
record_patch entry l (inl reason) = skip entry reason l
record_patch entry l (inr patch) = record {
  targets = l.targets ++ entry.id ∷ [];
  patches = push_patch l.patches patch;
  skipped = l.skipped;
}

module _ (f : Float) where
  open f use {Num}

  -- One round of the loop over the entries.
  unfoldable pub plan_entry :
      Selector Num
      → Action Num
      → EditCapability
      → PlanLists Num
      → InventoryEntry Num
      → PlanLists Num
  unfolding plan_patch_for_action record_patch
  plan_entry select action required l entry =
      if matches f select entry
      then (if any (λ x. decide (EditCapability-discrete x required)) entry.capabilities
          then record_patch entry l (plan_patch_for_action action entry required)
          else skip entry (unsupported_capability required) l)
      else l

  unfoldable pub plan_loop :
      Selector Num
      → Action Num
      → EditCapability
      → PlanLists Num
      → List (InventoryEntry Num)
      → PlanLists Num
  plan_loop select action required l [] = l
  plan_loop select action required l (entry ∷ entries) =
      plan_loop select action required (plan_entry select action required l entry) entries

  abbrev pub action_plan : Action Num → PlanLists Num → ActionPlan Num
  action_plan action l = record {
    action = action;
    targets = l.targets;
    patches = l.patches;
    skipped = l.skipped;
  }

  abbrev pub no_lists : PlanLists Num
  no_lists = record { targets = []; patches = []; skipped = [] }

  -- The `let Some(required) = .. else`.
  unfoldable pub plan_required :
      RecipeStep Num → Inventory Num → Option EditCapability → ActionPlan Num
  unfolding plan_entry plan_loop
  plan_required step inventory none = action_plan step.action no_lists
  plan_required step inventory (some required) =
      action_plan step.action
        (plan_loop step.select step.action required no_lists inventory.entries)

  unfoldable pub plan_step : RecipeStep Num → Inventory Num → ActionPlan Num
  unfolding required_capability plan_required
  plan_step step inventory = plan_required step inventory (required_capability step.action)

  unfoldable pub plan_recipe : Recipe Num → Inventory Num → PatchPlan Num
  unfolding plan_step
  plan_recipe recipe inventory = record {
    mode = no_op;
    steps = map (λ step. plan_step step inventory) recipe.steps;
  }
