-- ===== src/Pdf/Tests.antt =====
-- Extents of arrays in a few small inputs.
use presslint.Common.{◌≡◌, refl, ◌↔◌, some, [], ◌∷◌, Bytes, codes, ok, err, Ensures}
use presslint.Pdf.ArrayExtent.{ArrayExtentInspectionRejection, extent_error, inspect_array_extent}
use presslint.Pdf.ArrayExtent.Rounds.{IsExtent, IsExtentError}
use presslint.Pdf.ArrayExtent.Meaning.{inspect_array_extent-IsInspection}
use presslint.Pdf.ArrayExtent.Meaning
use presslint.Pdf.DictionaryExtent.{inspect_dictionary_extent}
use presslint.Pdf.DictionaryExtent.Meaning.{inspect_dictionary_extent-IsInspection}
use presslint.Pdf.DictionaryExtent.Meaning as DictionaryMeaning
use presslint.Pdf.DictionaryExtent.Rounds
use presslint.Pdf.Reference.{parse_object_reference_shape}
use presslint.Pdf.Reference.Accepts.{IsParse, parse_object_reference_shape-IsParse}
use presslint.Pdf.Headers.{
  inspect_indirect_object_header, IsInspection, inspect_indirect_object_header-IsInspection,
}
use presslint.Pdf.Ownership.{
  IndirectRef, in_place_mutation, decide_indirect_object_edit, Among, OwnershipOf,
  decide_indirect_object_edit_decides,
}

abbrev boxes : Bytes
boxes = codes "/A [1(])[2]<<]>"

nested_extent :
    inspect_array_extent boxes 2
    ≡ ok (record {
      byte_offset = 2;
      open_byte_offset = 3;
      close_byte_offset = 13;
      after_close_byte_offset = 14;
      max_observed_depth = 2;
    })
unfolding inspect_array_extent
nested_extent = refl

name_is_no_array :
    inspect_array_extent boxes 0
    ≡ err (extent_error boxes 0 ArrayExtentInspectionRejection.not_array_open (some 0))
unfolding inspect_array_extent
name_is_no_array = refl

inspect_array_extent-IsInspection_example :
    Meaning.IsInspection boxes 2 (inspect_array_extent boxes 2)
    × Ensures (IsExtent boxes 2) (IsExtentError boxes 2) (inspect_array_extent boxes 2)
inspect_array_extent-IsInspection_example = inspect_array_extent-IsInspection boxes 2

abbrev page_ref : IndirectRef
page_ref = record { object_number = 4; generation = 0 }

abbrev font_ref : IndirectRef
font_ref = record { object_number = 9; generation = 0 }

decide_indirect_object_edit_decides_example :
    let d = decide_indirect_object_edit font_ref (page_ref ∷ page_ref ∷ []) in
    (d.target ≡ font_ref)
    × OwnershipOf (page_ref ∷ page_ref ∷ []) d.ownership
    × ((d.disposition ≡ in_place_mutation) ↔ (
        (owner : IndirectRef) × ((x : IndirectRef)
          → Among x (page_ref ∷ page_ref ∷ []) ↔ (x ≡ owner))))
decide_indirect_object_edit_decides_example =
    decide_indirect_object_edit_decides font_ref (page_ref ∷ page_ref ∷ [])

abbrev nested : Bytes
nested = codes " <</K<</N(>>)>> >>"

nested_dictionary :
    inspect_dictionary_extent nested 0
    ≡ ok (record {
      byte_offset = 0;
      open_byte_offset = 1;
      close_byte_offset = 16;
      after_close_byte_offset = 18;
      max_observed_depth = 2;
    })
unfolding inspect_dictionary_extent
nested_dictionary = refl

inspect_dictionary_extent-IsInspection_example :
    DictionaryMeaning.IsInspection nested 0 (inspect_dictionary_extent nested 0)
    × Ensures
        (Rounds.IsExtent nested 0)
        (Rounds.IsExtentError nested 0)
        (inspect_dictionary_extent nested 0)
inspect_dictionary_extent-IsInspection_example = inspect_dictionary_extent-IsInspection nested 0

abbrev header : Bytes
header = codes "\n12 0 obj<<"

header_shape :
    parse_object_reference_shape header 0 128 (codes "obj")
    ≡ ok (record {
      object_number = 12;
      generation = 0;
      reference_byte_offset = 1;
      after_keyword_offset = 9;
    })
unfolding parse_object_reference_shape
header_shape = refl

parse_object_reference_shape-IsParse_example :
    IsParse header 0 128 (codes "obj") (parse_object_reference_shape header 0 128 (codes "obj"))
parse_object_reference_shape-IsParse_example =
    parse_object_reference_shape-IsParse header 0 128 (codes "obj")

inspect_indirect_object_header-IsInspection_example :
    IsInspection header 0 (inspect_indirect_object_header header 0)
inspect_indirect_object_header-IsInspection_example =
    inspect_indirect_object_header-IsInspection header 0
