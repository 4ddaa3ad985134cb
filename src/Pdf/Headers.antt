-- ===== src/Pdf/Headers.antt =====
-- crates/presslint-pdf/src/object_header.rs: the headers `N G obj` of objects.
use presslint.Common.{◌⊎◌, inl, inr, ℕ, ◌≡◌, refl, Option, Bytes, codes, length, Outcome, ok, err}
use presslint.Pdf.Ownership.{IndirectRef}
use presslint.Pdf.Reference.{
  ObjectReferenceShape, ObjectReferenceShapeError, ObjectReferenceShapeRejection, ShapeResult,
  shape_error, parse_object_reference_shape,
}
use presslint.Pdf.Reference.Grammar.{
  Ends, no_keyword, number_too_large, generation_too_large, shaped, Parses, no_number, no_gap,
  no_generation, no_second_gap, spelled,
}
use presslint.Pdf.Reference.Accepts.{IsParse, read, parse_object_reference_shape-IsParse}

abbrev pub scan_limit : ℕ
scan_limit = 128

pub record IndirectObjectHeaderByteRange : Type 0 where
  pub start : ℕ
  pub end : ℕ

pub record IndirectObjectHeaderInspection : Type 0 where
  pub reference : IndirectRef
  pub header_byte_offset : ℕ
  pub header_range : IndirectObjectHeaderByteRange
  pub after_obj_keyword_offset : ℕ

pub data IndirectObjectHeaderInspectionRejection : Type 0 where
  offset_out_of_bounds malformed_header : IndirectObjectHeaderInspectionRejection
  object_number_out_of_range generation_out_of_range : IndirectObjectHeaderInspectionRejection

pub record IndirectObjectHeaderInspectionError : Type 0 where
  pub byte_offset : ℕ
  pub byte_len : ℕ
  pub error_byte_offset : Option ℕ
  pub reason : IndirectObjectHeaderInspectionRejection

abbrev pub header_reason : ObjectReferenceShapeRejection → IndirectObjectHeaderInspectionRejection
header_reason ObjectReferenceShapeRejection.offset_out_of_bounds =
    IndirectObjectHeaderInspectionRejection.offset_out_of_bounds
header_reason ObjectReferenceShapeRejection.malformed =
    IndirectObjectHeaderInspectionRejection.malformed_header
header_reason ObjectReferenceShapeRejection.object_number_out_of_range =
    IndirectObjectHeaderInspectionRejection.object_number_out_of_range
header_reason ObjectReferenceShapeRejection.generation_out_of_range =
    IndirectObjectHeaderInspectionRejection.generation_out_of_range

-- The match on the parsed shape.
unfoldable pub header_result :
    Bytes
    → ℕ
    → ShapeResult
    → Outcome IndirectObjectHeaderInspectionError IndirectObjectHeaderInspection
header_result input byte_offset (ok shape) = ok (record {
  reference = record { object_number = shape.object_number; generation = shape.generation };
  header_byte_offset = shape.reference_byte_offset;
  header_range = record { start = shape.reference_byte_offset; end = shape.after_keyword_offset };
  after_obj_keyword_offset = shape.after_keyword_offset;
})
header_result input byte_offset (err e) = err (record {
  byte_offset = byte_offset;
  byte_len = length input;
  error_byte_offset = e.error_byte_offset;
  reason = header_reason e.reason;
})
header_result input byte_offset Outcome.panic = Outcome.panic
header_result input byte_offset Outcome.stuck = Outcome.stuck

unfoldable pub inspect_indirect_object_header :
    Bytes → ℕ → Outcome IndirectObjectHeaderInspectionError IndirectObjectHeaderInspection
unfolding parse_object_reference_shape header_result
inspect_indirect_object_header input byte_offset =
    header_result input byte_offset
      (parse_object_reference_shape input byte_offset scan_limit (codes "obj"))

abbrev header_error :
    Bytes
    → ℕ
    → IndirectObjectHeaderInspectionRejection
    → Option ℕ
    → IndirectObjectHeaderInspectionError
header_error input byte_offset reason at = record {
  byte_offset = byte_offset;
  byte_len = length input;
  error_byte_offset = at;
  reason = reason;
}

-- What the parser of `N G <keyword>`, asked for `obj` in a window of 128 bytes, comes to.
abbrev Reads : Bytes → ℕ → ShapeResult → Type 0
Reads input byte_offset = IsParse input byte_offset 128 (codes "obj")

-- An inspection says of each outcome what was found, and where.
pub data IsInspection (input : Bytes) (byte_offset : ℕ)
    : Outcome IndirectObjectHeaderInspectionError IndirectObjectHeaderInspection → Type 0 where
  inspected :
      (number generation start after : ℕ)
      → Reads input byte_offset (
          ok (record {
            object_number = number;
            generation = generation;
            reference_byte_offset = start;
            after_keyword_offset = after;
          }))
      → IsInspection input byte_offset (
          ok (record {
            reference = record { object_number = number; generation = generation };
            header_byte_offset = start;
            header_range = record { start = start; end = after };
            after_obj_keyword_offset = after;
          }))
  past :
      (at : Option ℕ)
      → Reads input byte_offset
          (err (shape_error ObjectReferenceShapeRejection.offset_out_of_bounds at))
      → IsInspection input byte_offset (
          err (
            header_error input byte_offset
              IndirectObjectHeaderInspectionRejection.offset_out_of_bounds at))
  misshapen :
      (at : Option ℕ)
      → Reads input byte_offset (err (shape_error ObjectReferenceShapeRejection.malformed at))
      → IsInspection input byte_offset (
          err (
            header_error input byte_offset IndirectObjectHeaderInspectionRejection.malformed_header
              at))
  wide_number :
      (at : Option ℕ)
      → Reads input byte_offset
          (err (shape_error ObjectReferenceShapeRejection.object_number_out_of_range at))
      → IsInspection input byte_offset (
          err (
            header_error input byte_offset
              IndirectObjectHeaderInspectionRejection.object_number_out_of_range at))
  wide_generation :
      (at : Option ℕ)
      → Reads input byte_offset
          (err (shape_error ObjectReferenceShapeRejection.generation_out_of_range at))
      → IsInspection input byte_offset (
          err (
            header_error input byte_offset
              IndirectObjectHeaderInspectionRejection.generation_out_of_range at))

-- The parser comes back: neither a panic nor a loop without fuel.
Ends-ok :
    {keyword n g rest : Bytes} {start g_start at : ℕ} {r : ShapeResult}
    → Ends keyword n g rest start g_start at r
    → ((s : ObjectReferenceShape) × (r ≡ ok s)) ⊎ ((e : ObjectReferenceShapeError) × (r ≡ err e))
Ends-ok (no_keyword k) = inr (_, refl)
Ends-ok (number_too_large k h) = inr (_, refl)
Ends-ok (generation_too_large k h h') = inr (_, refl)
Ends-ok (shaped k h h') = inl (_, refl)

Parses-ok :
    {keyword content : Bytes} {start : ℕ} {r : ShapeResult}
    → Parses keyword content start r
    → ((s : ObjectReferenceShape) × (r ≡ ok s)) ⊎ ((e : ObjectReferenceShapeError) × (r ≡ err e))
Parses-ok (no_number h) = inr (_, refl)
Parses-ok (no_gap n rest d h) = inr (_, refl)
Parses-ok (no_generation n g after rest d w h e) = inr (_, refl)
Parses-ok (no_second_gap n g t after behind rest d w d' h e) = inr (_, refl)
Parses-ok (spelled n g t g' after behind last rest at d w d' w' e ends) = Ends-ok ends

IsParse-ok :
    {input keyword : Bytes} {byte_offset limit : ℕ} {r : ShapeResult}
    → IsParse input byte_offset limit keyword r
    → ((s : ObjectReferenceShape) × (r ≡ ok s)) ⊎ ((e : ObjectReferenceShapeError) × (r ≡ err e))
IsParse-ok (IsParse.past h) = inr (_, refl)
IsParse-ok (read spaces content h same all stop place p) = Parses-ok p

error_reason :
    (input : Bytes) (byte_offset : ℕ) (reason : ObjectReferenceShapeRejection) (at : Option ℕ)
    → Reads input byte_offset (err (shape_error reason at))
    → IsInspection input byte_offset
        (err (header_error input byte_offset (header_reason reason) at))
error_reason input byte_offset ObjectReferenceShapeRejection.offset_out_of_bounds at h =
    IsInspection.past at h
error_reason input byte_offset ObjectReferenceShapeRejection.malformed at h = misshapen at h
error_reason input byte_offset ObjectReferenceShapeRejection.object_number_out_of_range at h =
    wide_number at h
error_reason input byte_offset ObjectReferenceShapeRejection.generation_out_of_range at h =
    wide_generation at h

header_result-IsInspection :
    (input : Bytes) (byte_offset : ℕ) (r : ShapeResult)
    → Reads input byte_offset r
    → IsInspection input byte_offset (header_result input byte_offset r)
unfolding header_result
header_result-IsInspection input byte_offset r h = elim (IsParse-ok h) [
  | inl (s, e) ↦ let h' = rw e at h in rw e (inspected _ _ _ _ h')
  | inr (x, e) ↦
      let h' = rw e at h in rw e (error_reason input byte_offset x.reason x.error_byte_offset h')
]

-- For every input and offset, the call comes back, and its outcome is that of the parser of
-- `N G obj` over a window of 128 bytes: a header is reported with its numbers, the offset of its
-- first digit, the range from there to the end of `obj`, and that end; an offset past the input, a
-- malformed header, an object number and a generation that do not fit are reported each under its own
-- reason, with the place, the offset and the length of the input.
pub inspect_indirect_object_header-IsInspection :
    (input : Bytes) (byte_offset : ℕ)
    → IsInspection input byte_offset (inspect_indirect_object_header input byte_offset)
unfolding inspect_indirect_object_header
inspect_indirect_object_header-IsInspection input byte_offset =
    header_result-IsInspection input byte_offset
      (parse_object_reference_shape input byte_offset scan_limit (codes "obj"))
      (parse_object_reference_shape-IsParse input byte_offset scan_limit (codes "obj"))
