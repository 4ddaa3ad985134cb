-- ===== src/Paint/Layers.antt =====
-- `gs` operators in a row, on the parameters of crates/presslint-paint/src/extgstate_env.rs.
use presslint.Common.{◌≡◌, ◌≢◌, refl, ◌⊎◌, inl, inr}
use presslint.Paint.Envs.{
  GsParam, default_value, set_to, unresolved, unclassified, ExtGStateParams, empty_params, layer,
  apply_params,
}

layer_assoc : {T : Type 0} (s p q : GsParam T) → layer (layer s p) q ≡ layer s (layer p q)
unfolding layer
layer_assoc s p default_value = refl
layer_assoc s p (set_to t) = refl
layer_assoc s p unresolved = refl
layer_assoc s p unclassified = refl

layer-default_value : {T : Type 0} (p : GsParam T) → layer default_value p ≡ p
unfolding layer
layer-default_value default_value = refl
layer-default_value (set_to t) = refl
layer-default_value unresolved = refl
layer-default_value unclassified = refl

-- What is in force where a dictionary has `p` and `s` was in force before: its own entry, where it has
-- one, and what was there otherwise.
abbrev pub Overrides : {T : Type 0} → GsParam T → GsParam T → GsParam T → Type 0
Overrides s p r = ((p ≡ default_value) × (r ≡ s)) ⊎ ((p ≢ default_value) × (r ≡ p))

layer-Overrides : {T : Type 0} (s p : GsParam T) → Overrides s p (layer s p)
unfolding layer
layer-Overrides s default_value = inl (refl, refl)
layer-Overrides s (set_to t) = inr ((λ e. cc), refl)
layer-Overrides s unresolved = inr ((λ e. cc), refl)
layer-Overrides s unclassified = inr ((λ e. cc), refl)

abbrev pub AllOverride : ExtGStateParams → ExtGStateParams → ExtGStateParams → Type 0
AllOverride s p r =
    Overrides s.overprint_stroke p.overprint_stroke r.overprint_stroke
    × Overrides s.overprint_fill p.overprint_fill r.overprint_fill
    × Overrides s.overprint_mode p.overprint_mode r.overprint_mode
    × Overrides s.stroke_alpha p.stroke_alpha r.stroke_alpha
    × Overrides s.fill_alpha p.fill_alpha r.fill_alpha
    × Overrides s.blend_mode p.blend_mode r.blend_mode
    × Overrides s.soft_mask p.soft_mask r.soft_mask

-- Each of the seven parameters is the dictionary's own where it has one, and stays as it was
-- otherwise; two dictionaries applied in a row are one, the later layered over the earlier; a
-- dictionary without entries changes nothing; and over the page's defaults a dictionary's own
-- entries are what is in force.
pub apply_params_layers :
    (s p q : ExtGStateParams)
    → AllOverride s p (apply_params s p)
      × (apply_params (apply_params s p) q ≡ apply_params s (apply_params p q))
      × (apply_params s empty_params ≡ s)
      × (apply_params empty_params s ≡ s)
unfolding apply_params layer
apply_params_layers s p q = (
  (
    layer-Overrides s.overprint_stroke p.overprint_stroke,
    layer-Overrides s.overprint_fill p.overprint_fill,
    layer-Overrides s.overprint_mode p.overprint_mode,
    layer-Overrides s.stroke_alpha p.stroke_alpha,
    layer-Overrides s.fill_alpha p.fill_alpha,
    layer-Overrides s.blend_mode p.blend_mode,
    layer-Overrides s.soft_mask p.soft_mask,
  ),
  λ i. record {
    overprint_stroke = layer_assoc s.overprint_stroke p.overprint_stroke q.overprint_stroke i;
    overprint_fill = layer_assoc s.overprint_fill p.overprint_fill q.overprint_fill i;
    overprint_mode = layer_assoc s.overprint_mode p.overprint_mode q.overprint_mode i;
    stroke_alpha = layer_assoc s.stroke_alpha p.stroke_alpha q.stroke_alpha i;
    fill_alpha = layer_assoc s.fill_alpha p.fill_alpha q.fill_alpha i;
    blend_mode = layer_assoc s.blend_mode p.blend_mode q.blend_mode i;
    soft_mask = layer_assoc s.soft_mask p.soft_mask q.soft_mask i;
  },
  refl,
  λ i. record {
    overprint_stroke = layer-default_value s.overprint_stroke i;
    overprint_fill = layer-default_value s.overprint_fill i;
    overprint_mode = layer-default_value s.overprint_mode i;
    stroke_alpha = layer-default_value s.stroke_alpha i;
    fill_alpha = layer-default_value s.fill_alpha i;
    blend_mode = layer-default_value s.blend_mode i;
    soft_mask = layer-default_value s.soft_mask i;
  },
)
