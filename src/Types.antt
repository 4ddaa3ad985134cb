-- ===== src/Types.antt =====
-- crates/presslint-types/src/lib.rs, and `InventoryEntry` of crates/presslint-inventory/src/
-- inventory.rs. A tuple struct with one field is that field: a page index is a number, a PDF name
-- is its bytes. `Num` stands for `f64`, of which Rust owns the meaning.
use native.Mathlib.Decide.{ℕ_discrete}
use presslint.Common.{ℕ, Option, List, Bytes}
use presslint.Syntax.Model.{ByteRange}

abbrev pub PageIndex : Type 0
PageIndex = ℕ

abbrev pub PdfName : Type 0
PdfName = Bytes

pub data ContentScope : Type 0 where
  page : ContentScope
  form_x_object : PdfName → ContentScope
  annotation_appearance : ContentScope

pub data ColorSpace : Type 0 where
  device_gray device_rgb device_cmyk icc_based lab cal_gray cal_rgb : ColorSpace
  indexed separation device_n pattern_space : ColorSpace
  resource : PdfName → ColorSpace
  unknown : ColorSpace

pub data ColorUsage : Type 0 where
  fill stroke image shading : ColorUsage

pub data ObjectKind : Type 0 where
  text vector image form_x_object shading pattern_use annotation : ObjectKind

pub data EditCapability : Type 0 where
  rewrite_color_operand replace_image_stream add_text_spread_stroke : EditCapability
  adjust_stroke_width read_only : EditCapability

unfoldable pub ContentScope-discrete : Discrete ContentScope
ContentScope-discrete = hlevel ℕ_discrete

unfoldable pub ColorSpace-discrete : Discrete ColorSpace
ColorSpace-discrete = hlevel ℕ_discrete

unfoldable pub ColorUsage-discrete : Discrete ColorUsage
ColorUsage-discrete = hlevel

unfoldable pub ObjectKind-discrete : Discrete ObjectKind
ObjectKind-discrete = hlevel

unfoldable pub EditCapability-discrete : Discrete EditCapability
EditCapability-discrete = hlevel

pub record ObjectId : Type 0 where
  pub page : PageIndex
  pub sequence : ℕ
  pub digest : Bytes

pub record InvocationFrame : Type 0 where
  pub ordinal : ℕ
  pub name : PdfName

pub record Provenance : Type 0 where
  pub page : PageIndex
  pub scope : ContentScope
  pub range : Option ByteRange
  pub invocation : Option (List InvocationFrame)

pub record BoundingBox (Num : Type 0) : Type 0 where
  pub x_min : Num
  pub y_min : Num
  pub x_max : Num
  pub y_max : Num

pub record ColorObservation (Num : Type 0) : Type 0 where
  pub usage : ColorUsage
  pub space : ColorSpace
  pub components : List Num
  pub spot_name : Option PdfName
  pub spot_names : List PdfName
  pub source : Option ByteRange

pub record InventoryEntry (Num : Type 0) : Type 0 where
  pub id : ObjectId
  pub kind : ObjectKind
  pub provenance : Provenance
  pub bounds : Option (BoundingBox Num)
  pub colors : List (ColorObservation Num)
  pub capabilities : List EditCapability
