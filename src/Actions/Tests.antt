-- ===== src/Actions/Tests.antt =====
-- The theorems of the actions at concrete inputs.
use presslint.Common.{
  ℕ, ◌≡◌, refl, ◌⊎◌, inl, true, false, not, none, some, List, [], ◌∷◌, ltb, leb, ◌==◌, arith,
}
use presslint.Syntax.Model.{ByteRange}
use presslint.Types.{
  ColorSpace, ColorUsage, ContentScope, ObjectKind, EditCapability, ColorObservation,
  InventoryEntry,
}
use presslint.Selectors.{Float, Selector}
use presslint.Actions.Model.{Action, SkipReason, Recipe, Inventory}
use presslint.Actions.Plan.{operand_boundary, convert_color_boundary, map_ok, plan_recipe}
use presslint.Actions.Sources.{Verdict, process_sources, convert_color_boundary-Verdict}
use presslint.Actions.Recipes.{ArePlans, plan_recipe-ArePlans}

less_law : (a b : ℕ) → ltb a b ≡ not (leb b a)
less_law a b = ground arith

no_finite : {A : Type 0} → false ≡ true → A
no_finite e = absurd (cc)

-- Numbers of which none is finite, for a program that compares none of them.
abbrev numbers : Float
numbers = record {
  Num = ℕ;
  is_finite = λ n. false;
  le = leb;
  lt = ltb;
  eq = ◌==◌;
  distance = λ a b. a;
  zero_num = 0;
  lt_not_le = λ a b _ _. less_law a b;
  eq_le_le = λ a b e _. no_finite e;
  le_total = λ a b e _ h. no_finite e;
}

abbrev observation : ColorSpace → List ℕ → ColorObservation ℕ
observation space components = record {
  usage = ColorUsage.fill;
  space = space;
  components = components;
  spot_name = none;
  spot_names = [];
  source = some (record { start = 3; end = 9 });
}

abbrev gray_text : InventoryEntry ℕ
gray_text = record {
  id = record { page = 0; sequence = 0; digest = [] };
  kind = ObjectKind.text;
  provenance = record { page = 0; scope = ContentScope.page; range = none; invocation = none };
  bounds = none;
  colors =
      observation ColorSpace.lab (1 ∷ 2 ∷ 3 ∷ [])
      ∷ observation ColorSpace.device_gray (0 ∷ [])
      ∷ [];
  capabilities = EditCapability.rewrite_color_operand ∷ [];
}

abbrev lab_text : InventoryEntry ℕ
lab_text = record {
  id = record { page = 0; sequence = 1; digest = [] };
  kind = ObjectKind.text;
  provenance = record { page = 0; scope = ContentScope.page; range = none; invocation = none };
  bounds = none;
  colors = observation ColorSpace.lab (1 ∷ 2 ∷ 3 ∷ []) ∷ [];
  capabilities = EditCapability.rewrite_color_operand ∷ [];
}

abbrev to_press : Action ℕ
to_press = Action.convert_color (record { target = 70 ∷ [] })

convert_color_boundary-Verdict_example :
    (result : SkipReason ⊎ ByteRange) × Verdict (process_sources gray_text.colors) result
    × (convert_color_boundary gray_text to_press
        ≡ map_ok (operand_boundary gray_text to_press) result)
convert_color_boundary-Verdict_example = convert_color_boundary-Verdict gray_text to_press

lab_is_refused : convert_color_boundary lab_text to_press ≡ inl SkipReason.non_process_color
unfolding convert_color_boundary
lab_is_refused = refl

abbrev recipe : Recipe ℕ
recipe = record {
  schema_version = 1;
  steps = record { select = Selector.all; action = to_press } ∷ [];
}

abbrev inventory : Inventory ℕ
inventory = record { entries = gray_text ∷ lab_text ∷ [] }

plan_recipe-ArePlans_example :
    ArePlans numbers inventory recipe.steps (plan_recipe numbers recipe inventory).steps
plan_recipe-ArePlans_example = plan_recipe-ArePlans numbers recipe inventory
