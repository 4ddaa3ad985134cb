-- ===== src/Paint/Model.antt =====
-- The types of crates/presslint-paint/src/walker.rs, and `DecodedRange` of provenance.rs, which is
-- a byte range. `Rc` shares a snapshot and `Rc::make_mut` copies a shared one before a write, so a
-- snapshot is a value.
use presslint.Common.{ℕ, Bool, true, false, Option, none, List, [], ◌∷◌, Bytes, ◌==◌, if◌then◌else◌}
use presslint.Types.{PdfName, ColorSpace, ColorUsage, ColorObservation}
use presslint.Syntax.Model.{ByteRange}
use presslint.Paint.Floats.{ℤ, pos, negsuc, Float}
use presslint.Paint.Envs.{
  GraphicsExtGStateSnapshot, empty_params, ColorSpaceEnv, ExtGStateEnv, FontEnv,
}

abbrev pub DecodedRange : Type 0
DecodedRange = ByteRange

-- `[f64; 6]`
pub record Matrix (Num : Type 0) : Type 0 where
  pub a : Num
  pub b : Num
  pub c : Num
  pub d : Num
  pub e : Num
  pub f : Num

pub record GraphicsColor (Num : Type 0) : Type 0 where
  pub space : ColorSpace
  pub components : List Num
  pub resource_name : Option PdfName
  pub spot_name : Option PdfName
  pub spot_names : List PdfName
  pub source : Option DecodedRange

-- `GraphicsColor::new`
abbrev pub new_color : {Num : Type 0} → ColorSpace → List Num → GraphicsColor Num
new_color space components = record {
  space = space;
  components = components;
  resource_name = none;
  spot_name = none;
  spot_names = [];
  source = none;
}

-- `GraphicsColor::observation`
unfoldable pub observation : {Num : Type 0} → GraphicsColor Num → ColorUsage → ColorObservation Num
observation color usage = record {
  usage = usage;
  space = color.space;
  components = color.components;
  spot_name = color.spot_name;
  spot_names = color.spot_names;
  source = color.source;
}

pub data FontSelectionState (Num : Type 0) : Type 0 where
  unset : FontSelectionState Num
  selected : PdfName → Num → FontSelectionState Num
  resolved_indirect : ℕ → ℕ → ℕ → Num → FontSelectionState Num
  indeterminate : FontSelectionState Num

pub data TextRenderingMode : Type 0 where
  fill stroke fill_then_stroke invisible : TextRenderingMode
  unsupported : ℤ → TextRenderingMode

unfoldable pub from_pdf_value : ℤ → TextRenderingMode
from_pdf_value (pos n) =
    if n == 0
    then fill
    else if n == 1
    then stroke
    else if n == 2
    then fill_then_stroke
    else if n == 3
    then invisible
    else unsupported (pos n)
from_pdf_value (negsuc n) = unsupported (negsuc n)

-- The three methods of `TextRenderingMode`.
unfoldable pub text_uses_stroke : TextRenderingMode → Bool
text_uses_stroke stroke = true
text_uses_stroke fill_then_stroke = true
text_uses_stroke _ = false

unfoldable pub text_uses_fill : TextRenderingMode → Bool
text_uses_fill fill = true
text_uses_fill fill_then_stroke = true
text_uses_fill _ = false

unfoldable pub has_supported_visible_paint : TextRenderingMode → Bool
has_supported_visible_paint fill = true
has_supported_visible_paint stroke = true
has_supported_visible_paint fill_then_stroke = true
has_supported_visible_paint _ = false

pub record GraphicsStateSnapshot (Num : Type 0) : Type 0 where
  pub ctm : Matrix Num
  pub stroking_color : GraphicsColor Num
  pub nonstroking_color : GraphicsColor Num
  pub text_rendering_mode : TextRenderingMode
  pub font_selection : FontSelectionState Num
  pub extgstate : GraphicsExtGStateSnapshot

module _ (f : Float) where
  open f use {Num, zero_num, one_num}

  abbrev pub identity_ctm : Matrix Num
  identity_ctm = record {
    a = one_num;
    b = zero_num;
    c = zero_num;
    d = one_num;
    e = zero_num;
    f = zero_num;
  }

  abbrev pub page_default : GraphicsStateSnapshot Num
  page_default = record {
    ctm = identity_ctm;
    stroking_color = new_color ColorSpace.device_gray (zero_num ∷ []);
    nonstroking_color = new_color ColorSpace.device_gray (zero_num ∷ []);
    text_rendering_mode = TextRenderingMode.fill;
    font_selection = unset;
    extgstate = empty_params;
  }

pub data TextShowOperator : Type 0 where
  show_text show_text_adjusted move_next_line_and_show_text : TextShowOperator
  set_spacing_move_next_line_and_show_text : TextShowOperator

pub data PathPaintKind : Type 0 where
  stroke close_and_stroke fill_nonzero fill_obsolete fill_even_odd : PathPaintKind
  fill_and_stroke_nonzero fill_and_stroke_even_odd : PathPaintKind
  close_fill_and_stroke_nonzero close_fill_and_stroke_even_odd end_path : PathPaintKind

-- The two methods of `PathPaintKind`.
unfoldable pub path_uses_stroke : PathPaintKind → Bool
path_uses_stroke PathPaintKind.stroke = true
path_uses_stroke close_and_stroke = true
path_uses_stroke fill_and_stroke_nonzero = true
path_uses_stroke fill_and_stroke_even_odd = true
path_uses_stroke close_fill_and_stroke_nonzero = true
path_uses_stroke close_fill_and_stroke_even_odd = true
path_uses_stroke _ = false

unfoldable pub path_uses_fill : PathPaintKind → Bool
path_uses_fill fill_nonzero = true
path_uses_fill fill_obsolete = true
path_uses_fill fill_even_odd = true
path_uses_fill fill_and_stroke_nonzero = true
path_uses_fill fill_and_stroke_even_odd = true
path_uses_fill close_fill_and_stroke_nonzero = true
path_uses_fill close_fill_and_stroke_even_odd = true
path_uses_fill _ = false

pub data PaintOpKind (Num : Type 0) : Type 0 where
  save : PaintOpKind Num
  restore : PaintOpKind Num
  concat_matrix : Matrix Num → PaintOpKind Num
  set_stroking_color : GraphicsColor Num → PaintOpKind Num
  set_nonstroking_color : GraphicsColor Num → PaintOpKind Num
  path_paint : PathPaintKind → PaintOpKind Num
  set_text_rendering_mode : TextRenderingMode → PaintOpKind Num
  set_font : PdfName → Num → PaintOpKind Num
  text_show : TextShowOperator → TextRenderingMode → PaintOpKind Num
  x_object_invoke : PdfName → PaintOpKind Num
  set_ext_g_state : PdfName → PaintOpKind Num
  no_op : PaintOpKind Num

pub record PaintOp (Num : Type 0) : Type 0 where
  pub index : ℕ
  pub operator_range : DecodedRange
  pub record_range : DecodedRange
  pub kind : PaintOpKind Num
  pub state : GraphicsStateSnapshot Num

pub data GraphicsWalkErrorKind : Type 0 where
  invalid_source_range : GraphicsWalkErrorKind
  graphics_state_stack_underflow : GraphicsWalkErrorKind
  malformed_operand_count : Bytes → ℕ → ℕ → GraphicsWalkErrorKind
  malformed_numeric_operand : Bytes → ℕ → GraphicsWalkErrorKind
  malformed_name_operand : Bytes → ℕ → GraphicsWalkErrorKind
  non_finite_numeric_operand : Bytes → ℕ → GraphicsWalkErrorKind

pub record GraphicsWalkError : Type 0 where
  pub kind : GraphicsWalkErrorKind
  pub range : DecodedRange

-- The environments that a walker borrows.
pub record Envs : Type 0 where
  pub color_space_env : ColorSpaceEnv
  pub extgstate_env : ExtGStateEnv
  pub font_env : FontEnv

-- What `step` changes of a `GraphicsStateWalker`: the head of `stack` is its last element.
pub record GraphicsStateWalker (Num : Type 0) : Type 0 where
  pub state : GraphicsStateSnapshot Num
  pub stack : List (GraphicsStateSnapshot Num)
