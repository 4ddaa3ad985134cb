-- ===== src/Actions/Boundary.antt =====
-- crates/presslint-actions/src/patch.rs: the dictionary entries that setting page boxes changes.
use presslint.Common.{Option, none, some, List, [], ◌∷◌, ◌++◌, codes}
use presslint.Types.{PdfName}
use presslint.Pdf.Ownership.{IndirectRef, IndirectObjectEditDecision}
use presslint.Actions.Model.{
  PageRectangle, SetPageBox, set_page_box, DictionaryEntryOp, replace, insert,
  DictionaryValueLocator, existing_value, insertion_point, action_generated, MutationBoundary,
  dictionary_entry,
}

abbrev pub media_box_key : PdfName
media_box_key = codes "MediaBox"

abbrev pub crop_box_key : PdfName
crop_box_key = codes "CropBox"

unfoldable pub op_of : DictionaryValueLocator → DictionaryEntryOp
op_of (existing_value key_range value_range) = replace
op_of (insertion_point dictionary_range) = insert

module _ {Num : Type 0} where
  unfoldable pub dictionary_entry_boundary :
      IndirectRef
      → PdfName
      → DictionaryValueLocator
      → IndirectObjectEditDecision
      → SetPageBox Num
      → MutationBoundary Num
  unfolding op_of
  dictionary_entry_boundary target key locator ownership action =
      dictionary_entry target key (op_of locator) locator ownership
        (action_generated (set_page_box action))

  -- `if action.media_box.is_some() { if let Some(locator) = media_locator { boundaries.push(..) } }`
  unfoldable pub push_boundary :
      PdfName
      → IndirectRef
      → IndirectObjectEditDecision
      → SetPageBox Num
      → Option (PageRectangle Num)
      → Option DictionaryValueLocator
      → List (MutationBoundary Num)
      → List (MutationBoundary Num)
  unfolding dictionary_entry_boundary
  push_boundary key target ownership action none locator boundaries = boundaries
  push_boundary key target ownership action (some box) none boundaries = boundaries
  push_boundary key target ownership action (some box) (some locator) boundaries =
      boundaries ++ dictionary_entry_boundary target key locator ownership action ∷ []

  unfoldable pub plan_set_page_box_boundaries :
      SetPageBox Num
      → IndirectRef
      → IndirectObjectEditDecision
      → Option DictionaryValueLocator
      → Option DictionaryValueLocator
      → List (MutationBoundary Num)
  unfolding push_boundary
  plan_set_page_box_boundaries action target ownership media_locator crop_locator =
      let media =
        push_boundary media_box_key target ownership action action.media_box media_locator [] in
      push_boundary crop_box_key target ownership action action.crop_box crop_locator media
