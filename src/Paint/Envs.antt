-- ===== src/Paint/Envs.antt =====
-- crates/presslint-paint/src/color_space_env.rs, extgstate_env.rs and font_env.rs: what a page's
-- resource names stand for. An environment borrows a list of resources.
use presslint.Common.{
  ℕ, zero, suc, Bool, true, false, Option, none, some, List, [], ◌∷◌, Bytes, bytes_eq,
  if◌then◌else◌,
}
use presslint.Types.{ColorSpace, PdfName}
use presslint.Paint.Floats.{Float}
use presslint.Paint.Names.{decode_pdf_name}

-- `.iter().find(test)`
unfoldable pub find {ℓ} : {A : Type ℓ} → (A → Bool) → List A → Option A
find test [] = none
find test (x ∷ xs) = if test x then some x else find test xs

pub record ColorSpaceResource : Type 0 where
  pub name : PdfName
  pub space : ColorSpace
  pub component_count : Option ℕ
  pub spot_names : List PdfName

-- `.first().cloned()`
abbrev pub first {ℓ} : {A : Type ℓ} → List A → Option A
first [] = none
first (x ∷ xs) = some x

unfoldable pub spot_names_of : ColorSpace → List PdfName → List PdfName
spot_names_of ColorSpace.separation names = names
spot_names_of ColorSpace.device_n names = names
spot_names_of _ names = []

-- The methods `spot_names` and `spot_name`.
unfoldable pub resource_spot_names : ColorSpaceResource → List PdfName
unfolding spot_names_of
resource_spot_names r = spot_names_of r.space r.spot_names

unfoldable pub resource_spot_name : ColorSpaceResource → Option PdfName
unfolding spot_names_of
resource_spot_name r = first (spot_names_of r.space r.spot_names)

-- `vec![value; count]`
unfoldable pub replicate {ℓ} : {A : Type ℓ} → ℕ → A → List A
replicate zero x = []
replicate (suc n) x = x ∷ replicate n x

module _ (f : Float) where
  open f use {Num, zero_num, one_num}

  abbrev pub zeros : Option ℕ → List Num
  zeros none = []
  zeros (some count) = replicate count zero_num

  abbrev pub ones : Option ℕ → List Num
  ones none = replicate 1 one_num
  ones (some count) = replicate count one_num

  unfoldable pub initial_color_of : ColorSpace → Option ℕ → List Num
  initial_color_of ColorSpace.device_gray count = zero_num ∷ []
  initial_color_of ColorSpace.device_rgb count = zero_num ∷ zero_num ∷ zero_num ∷ []
  initial_color_of ColorSpace.device_cmyk count = zero_num ∷ zero_num ∷ zero_num ∷ one_num ∷ []
  initial_color_of ColorSpace.separation count = ones count
  initial_color_of ColorSpace.device_n count = ones count
  initial_color_of _ count = zeros count

  -- The method `initial_color`.
  unfoldable pub initial_color : ColorSpaceResource → List Num
  unfolding initial_color_of
  initial_color r = initial_color_of r.space r.component_count

abbrev pub ColorSpaceEnv : Type 0
ColorSpaceEnv = List ColorSpaceResource

unfoldable pub resolve_color_space : ColorSpaceEnv → PdfName → Option ColorSpaceResource
unfolding find
resolve_color_space env name = find (λ r. bytes_eq (ColorSpaceResource.name r) name) env

pub data GsParam (T : Type 0) : Type 0 where
  default_value : GsParam T
  set_to : T → GsParam T
  unresolved : GsParam T
  unclassified : GsParam T

pub data OverprintMode : Type 0 where
  mode_zero mode_one mode_other : OverprintMode

pub data AlphaClass : Type 0 where
  opaque non_opaque : AlphaClass

pub data BlendModeClass : Type 0 where
  normal non_normal other_named : BlendModeClass

pub data SoftMaskClass : Type 0 where
  no_mask present : SoftMaskClass

-- `ExtGStateParams`, and `GraphicsExtGStateSnapshot`, which has the same fields.
pub record ExtGStateParams : Type 0 where
  pub overprint_stroke : GsParam Bool
  pub overprint_fill : GsParam Bool
  pub overprint_mode : GsParam OverprintMode
  pub stroke_alpha : GsParam AlphaClass
  pub fill_alpha : GsParam AlphaClass
  pub blend_mode : GsParam BlendModeClass
  pub soft_mask : GsParam SoftMaskClass

abbrev pub GraphicsExtGStateSnapshot : Type 0
GraphicsExtGStateSnapshot = ExtGStateParams

-- `ExtGStateParams::empty` and `GraphicsExtGStateSnapshot::page_default`
abbrev pub empty_params : ExtGStateParams
empty_params = record {
  overprint_stroke = default_value;
  overprint_fill = default_value;
  overprint_mode = default_value;
  stroke_alpha = default_value;
  fill_alpha = default_value;
  blend_mode = default_value;
  soft_mask = default_value;
}

-- The value that `set_all_unresolved` writes.
abbrev pub all_unresolved : GraphicsExtGStateSnapshot
all_unresolved = record {
  overprint_stroke = unresolved;
  overprint_fill = unresolved;
  overprint_mode = unresolved;
  stroke_alpha = unresolved;
  fill_alpha = unresolved;
  blend_mode = unresolved;
  soft_mask = unresolved;
}

unfoldable pub layer : {T : Type 0} → GsParam T → GsParam T → GsParam T
layer current default_value = current
layer current (set_to t) = set_to t
layer current unresolved = unresolved
layer current unclassified = unclassified

-- `GraphicsExtGStateSnapshot::apply`
unfoldable pub apply_params :
    GraphicsExtGStateSnapshot → ExtGStateParams → GraphicsExtGStateSnapshot
unfolding layer
apply_params s p = record {
  overprint_stroke = layer s.overprint_stroke p.overprint_stroke;
  overprint_fill = layer s.overprint_fill p.overprint_fill;
  overprint_mode = layer s.overprint_mode p.overprint_mode;
  stroke_alpha = layer s.stroke_alpha p.stroke_alpha;
  fill_alpha = layer s.fill_alpha p.fill_alpha;
  blend_mode = layer s.blend_mode p.blend_mode;
  soft_mask = layer s.soft_mask p.soft_mask;
}

pub record ResolvedFont : Type 0 where
  pub object_number : ℕ
  pub generation : ℕ
  pub object_byte_offset : ℕ

pub data FontBindingTarget : Type 0 where
  resolved : ResolvedFont → FontBindingTarget
  unresolved_target : FontBindingTarget

pub record FontBinding : Type 0 where
  pub semantic_name : PdfName
  pub target : FontBindingTarget

pub data ExtGStateFontDirective : Type 0 where
  leave_unchanged : ExtGStateFontDirective
  select : ResolvedFont → ℕ → ExtGStateFontDirective
  unknown_directive : ExtGStateFontDirective

pub record ExtGStateResource : Type 0 where
  pub name : PdfName
  pub params : ExtGStateParams
  pub has_unclassified_keys : Bool
  pub font : ExtGStateFontDirective

abbrev pub ExtGStateEnv : Type 0
ExtGStateEnv = List ExtGStateResource

unfoldable pub resolve_extgstate : ExtGStateEnv → PdfName → Option ExtGStateResource
unfolding find
resolve_extgstate env name = find (λ r. bytes_eq (ExtGStateResource.name r) name) env

pub data FontEnv : Type 0 where
  disabled : FontEnv
  known : List FontBinding → FontEnv
  unknown_env : FontEnv

abbrev pub is_disabled : FontEnv → Bool
is_disabled disabled = true
is_disabled (known bindings) = false
is_disabled unknown_env = false

-- `FontBinding::from_pdf_name`
unfoldable pub from_pdf_name : PdfName → FontBindingTarget → Option FontBinding
from_pdf_name name target = elim (decode_pdf_name name) [
  | none ↦ none
  | some semantic_name ↦ some (record { semantic_name = semantic_name; target = target })
]

-- The search in `FontEnv::resolve`, for a decoded name.
unfoldable pub find_binding : List FontBinding → Option Bytes → Option FontBindingTarget
unfolding find
find_binding bindings none = none
find_binding bindings (some semantic_name) =
    elim (find (λ b. bytes_eq (FontBinding.semantic_name b) semantic_name) bindings) [
      | none ↦ none
      | some binding ↦ some (FontBinding.target binding)
    ]

-- `FontEnv::resolve`
unfoldable pub resolve_font : FontEnv → PdfName → Option FontBindingTarget
unfolding find_binding
resolve_font disabled raw_name = none
resolve_font unknown_env raw_name = none
resolve_font (known bindings) raw_name = find_binding bindings (decode_pdf_name raw_name)
