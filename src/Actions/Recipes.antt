-- ===== src/Actions/Recipes.antt =====
-- The plan of a recipe, step by step.
use presslint.Common.{◌≡◌, refl, Option, none, some, List, [], ◌∷◌, map}
use presslint.Types.{EditCapability}
use presslint.Selectors.{Float}
use presslint.Actions.Model.{RecipeStep, Recipe, Inventory, ActionPlan}
use presslint.Actions.Plan.{required_capability, plan_required, plan_step, plan_recipe}
use presslint.Actions.Targets.{Deals, plan_loop-Deals}

module _ (f : Float) where
  open f use {Num}

  -- The plan of a step: of its own action, with every entry dealt out where the action needs a
  -- capability, and empty where it does not.
  abbrev pub IsPlan :
      RecipeStep Num → Inventory Num → Option EditCapability → ActionPlan Num → Type 0
  IsPlan step inventory none plan =
      (plan.action ≡ step.action) × (plan.targets ≡ []) × (plan.patches ≡ []) × (plan.skipped ≡ [])
  IsPlan step inventory (some required) plan =
      (plan.action ≡ step.action)
      × Deals f step.select step.action required inventory.entries plan.targets plan.patches
          plan.skipped

  abbrev pub ArePlans : Inventory Num → List (RecipeStep Num) → List (ActionPlan Num) → Type 0
  ArePlans inventory [] [] = Unit
  ArePlans inventory (s ∷ ss) (p ∷ ps) =
      IsPlan s inventory (required_capability s.action) p × ArePlans inventory ss ps
  ArePlans inventory _ _ = ⊥

  plan_required-IsPlan :
      (step : RecipeStep Num) (inventory : Inventory Num) (required : Option EditCapability)
      → IsPlan step inventory required (plan_required f step inventory required)
  unfolding plan_required
  plan_required-IsPlan step inventory none = (refl, refl, refl, refl)
  plan_required-IsPlan step inventory (some required) =
      (refl, plan_loop-Deals f step.select step.action required inventory.entries)

  plan_steps-ArePlans :
      (inventory : Inventory Num) (steps : List (RecipeStep Num))
      → ArePlans inventory steps (map (λ step. plan_step f step inventory) steps)
  unfolding plan_step
  plan_steps-ArePlans inventory [] = tt
  plan_steps-ArePlans inventory (s ∷ ss) = (
    plan_required-IsPlan s inventory (required_capability s.action),
    plan_steps-ArePlans inventory ss,
  )

  -- A recipe has one plan for each step, in order. It deals out the entries of the inventory, in
  -- order: an entry that does not satisfy the selector appears nowhere; one without the capability
  -- that the action needs is skipped for that reason; a color conversion skips those whose colors it
  -- cannot rewrite, with the reason, and makes a target with a patch of the others; any other
  -- action makes a target of each. An action that needs no capability has an empty plan.
  pub plan_recipe-ArePlans :
      (recipe : Recipe Num) (inventory : Inventory Num)
      → ArePlans inventory recipe.steps (plan_recipe f recipe inventory).steps
  unfolding plan_recipe
  plan_recipe-ArePlans recipe inventory = plan_steps-ArePlans inventory recipe.steps
