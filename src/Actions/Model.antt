-- ===== src/Actions/Model.antt =====
-- The types of crates/presslint-actions/src/lib.rs and patch.rs. `Num` stands for `f64`.
use presslint.Common.{ℕ, Bool, Option, List, Bytes}
use presslint.Syntax.Model.{ByteRange}
use presslint.Types.{PageIndex, PdfName, ContentScope, EditCapability, ObjectId, InventoryEntry}
use presslint.Selectors.{Selector}
use presslint.Pdf.Ownership.{IndirectRef, IndirectObjectEditDecision}

pub record ConvertColor : Type 0 where
  pub target : Bytes

pub record SpreadText (Num : Type 0) : Type 0 where
  pub amount_pt : Num
  pub overprint : Bool

pub record MinimumStrokeWidth (Num : Type 0) : Type 0 where
  pub width_pt : Num

pub record PageRectangle (Num : Type 0) : Type 0 where
  pub llx : Num
  pub lly : Num
  pub urx : Num
  pub ury : Num

pub record SetPageBox (Num : Type 0) : Type 0 where
  pub media_box : Option (PageRectangle Num)
  pub crop_box : Option (PageRectangle Num)

pub data Action (Num : Type 0) : Type 0 where
  convert_color : ConvertColor → Action Num
  spread_text : SpreadText Num → Action Num
  minimum_stroke_width : MinimumStrokeWidth Num → Action Num
  set_page_box : SetPageBox Num → Action Num

pub record RecipeStep (Num : Type 0) : Type 0 where
  pub select : Selector Num
  pub action : Action Num

pub record Recipe (Num : Type 0) : Type 0 where
  pub schema_version : ℕ
  pub steps : List (RecipeStep Num)

pub record Inventory (Num : Type 0) : Type 0 where
  pub entries : List (InventoryEntry Num)

pub data DictionaryEntryOp : Type 0 where
  replace insert : DictionaryEntryOp

pub data DictionaryValueLocator : Type 0 where
  existing_value : ByteRange → ByteRange → DictionaryValueLocator
  insertion_point : ByteRange → DictionaryValueLocator

pub data PlannedValueProvenance (Num : Type 0) : Type 0 where
  action_generated : Action Num → PlannedValueProvenance Num
  derived_from_object : IndirectRef → PlannedValueProvenance Num
  external_policy : Bytes → PlannedValueProvenance Num

pub data PlannedObjectAllocation : Type 0 where
  append_new : ℕ → PlannedObjectAllocation
  deferred : PlannedObjectAllocation

-- The arguments are the fields of the source, in their order.
pub data MutationBoundary (Num : Type 0) : Type 0 where
  content_stream_operand :
      PageIndex
      → ContentScope
      → ByteRange
      → Option ByteRange
      → Option ByteRange
      → Option IndirectObjectEditDecision
      → PlannedValueProvenance Num
      → MutationBoundary Num
  dictionary_entry :
      IndirectRef
      → PdfName
      → DictionaryEntryOp
      → DictionaryValueLocator
      → IndirectObjectEditDecision
      → PlannedValueProvenance Num
      → MutationBoundary Num
  whole_stream :
      IndirectRef
      → Option ByteRange
      → IndirectObjectEditDecision
      → PlannedValueProvenance Num
      → MutationBoundary Num
  indirect_object_clone :
      IndirectRef
      → IndirectRef
      → PlannedObjectAllocation
      → MutationBoundary Num
      → IndirectObjectEditDecision
      → PlannedValueProvenance Num
      → MutationBoundary Num

pub record PlannedPatch (Num : Type 0) : Type 0 where
  pub object : ObjectId
  pub capability : EditCapability
  pub boundary : MutationBoundary Num

pub data SkipReason : Type 0 where
  unsupported_capability : EditCapability → SkipReason
  non_process_color missing_color_source ambiguous_color_source : SkipReason

pub record SkippedTarget : Type 0 where
  pub object : ObjectId
  pub reason : SkipReason

pub record ActionPlan (Num : Type 0) : Type 0 where
  pub action : Action Num
  pub targets : List ObjectId
  pub patches : List (PlannedPatch Num)
  pub skipped : List SkippedTarget

pub data PatchPlanMode : Type 0 where
  no_op : PatchPlanMode

pub record PatchPlan (Num : Type 0) : Type 0 where
  pub mode : PatchPlanMode
  pub steps : List (ActionPlan Num)
