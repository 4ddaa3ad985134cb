-- ===== src/Pdf/Reference.antt =====
-- crates/presslint-pdf/src/source_utils.rs: the shape `N G <keyword>` of object headers and of
-- references.
pub mod Grammar
pub mod Accepts
use presslint.Common.{
  ℕ, ◌+◌, ◌-◌, ◌*◌, ◌^◌, Bool, true, false, not, ◌&&◌, ◌||◌, Option, none, some, List, [], ◌∷◌,
  Bytes, codes, length, take, drop, ltb, leb, ◌==◌, if◌then◌else◌, Outcome, ok, err, ok_or, ◌>>=◌,
}
use presslint.Pdf.Source.{is_pdf_whitespace, skip_whitespace}
use presslint.Pdf.Ownership.{IndirectRef}

unfoldable pub is_pdf_delimiter : ℕ → Bool
is_pdf_delimiter byte =
    byte == b'('
    || byte == b')'
    || byte == b'<'
    || byte == b'>'
    || byte == b'['
    || byte == b']'
    || byte == b'{'
    || byte == b'}'
    || byte == b'/'
    || byte == b'%'

unfoldable pub is_ascii_digit : ℕ → Bool
is_ascii_digit byte = leb b'0' byte && leb byte b'9'

-- `.take_while(..).count()`
unfoldable pub count_leading_digits : Bytes → ℕ
unfolding is_ascii_digit
count_leading_digits [] = 0
count_leading_digits (byte ∷ bytes) =
    let rest = count_leading_digits bytes in if is_ascii_digit byte then rest + 1 else 0

-- The loop of `parse_u64_decimal`: two checked steps for each digit. Its bytes are digits, so that
-- `byte - b'0'` does not go below 0.
unfoldable pub decimal_loop : ℕ → Bytes → Option ℕ
decimal_loop value [] = some value
decimal_loop value (byte ∷ bytes) =
    let rest = decimal_loop (value * 10 + (byte - b'0')) bytes in
    if ltb (value * 10) (2 ^ 64)
    then (if ltb (value * 10 + (byte - b'0')) (2 ^ 64) then rest else none)
    else none

unfoldable pub parse_u64_decimal : Bytes → Option ℕ
unfolding decimal_loop
parse_u64_decimal bytes = decimal_loop 0 bytes

-- `.and_then(|value| u32::try_from(value).ok())`, and the same for `u16`.
abbrev pub narrow : ℕ → Option ℕ → Option ℕ
narrow limit none = none
narrow limit (some value) = if ltb value limit then some value else none

unfoldable pub strip_prefix : Bytes → Bytes → Option Bytes
strip_prefix bytes [] = some bytes
strip_prefix [] (k ∷ ks) = none
strip_prefix (byte ∷ bytes) (k ∷ ks) =
    let rest = strip_prefix bytes ks in if byte == k then rest else none

-- `.first().is_some_and(..)`
abbrev pub continues : Bytes → Bool
continues [] = false
continues (byte ∷ bytes) = not (is_pdf_whitespace byte) && not (is_pdf_delimiter byte)

abbrev pub after_keyword : Bytes → Option Bytes → Option ℕ
after_keyword keyword none = none
after_keyword keyword (some rest) = if continues rest then none else some (length keyword)

unfoldable pub consume_keyword : Bytes → Bytes → Option ℕ
unfolding strip_prefix is_pdf_whitespace is_pdf_delimiter
consume_keyword bytes keyword = after_keyword keyword (strip_prefix bytes keyword)

pub record ObjectReferenceShape : Type 0 where
  pub object_number : ℕ
  pub generation : ℕ
  pub reference_byte_offset : ℕ
  pub after_keyword_offset : ℕ

pub data ObjectReferenceShapeRejection : Type 0 where
  offset_out_of_bounds malformed : ObjectReferenceShapeRejection
  object_number_out_of_range generation_out_of_range : ObjectReferenceShapeRejection

pub record ObjectReferenceShapeError : Type 0 where
  pub error_byte_offset : Option ℕ
  pub reason : ObjectReferenceShapeRejection

abbrev pub shape_error : ObjectReferenceShapeRejection → Option ℕ → ObjectReferenceShapeError
shape_error reason at = record { error_byte_offset = at; reason = reason }

abbrev pub malformed_shape : ℕ → ObjectReferenceShapeError
malformed_shape error_byte_offset = shape_error malformed (some error_byte_offset)

abbrev pub ShapeResult : Type 0
ShapeResult = Outcome ObjectReferenceShapeError ObjectReferenceShape

-- Behind the keyword: both numbers are read, and have to fit.
unfoldable pub shape_numbers : Bytes → Bytes → ℕ → ℕ → ℕ → ShapeResult
unfolding parse_u64_decimal
shape_numbers object_text generation_text reference_byte_offset generation_offset after =
    ok_or (narrow (2 ^ 32) (parse_u64_decimal object_text))
      (shape_error object_number_out_of_range (some reference_byte_offset))
    >>= λ object_number.
        ok_or (narrow (2 ^ 16) (parse_u64_decimal generation_text))
          (shape_error generation_out_of_range (some generation_offset))
        >>= λ generation. ok (record {
          object_number = object_number;
          generation = generation;
          reference_byte_offset = reference_byte_offset;
          after_keyword_offset = after;
        })

abbrev pub keyword_shape : ℕ → ShapeResult → Option ℕ → ShapeResult
keyword_shape keyword_offset numbers none = err (malformed_shape keyword_offset)
keyword_shape keyword_offset numbers (some size) = numbers

-- From the generation on.
unfoldable pub generation_shape : Bytes → Bytes → ℕ → Bytes → ℕ → ShapeResult
unfolding skip_whitespace count_leading_digits consume_keyword shape_numbers
generation_shape keyword object_text reference_byte_offset generation_field generation_offset =
    let generation_digits = count_leading_digits generation_field in
    let after_generation = drop generation_digits generation_field in
    let gap = skip_whitespace after_generation in
    let keyword_offset = generation_offset + generation_digits + gap in
    if generation_digits == 0
    then err (malformed_shape generation_offset)
    else if gap == 0
    then err (malformed_shape (generation_offset + generation_digits))
    else keyword_shape keyword_offset
        (shape_numbers object_text (take generation_digits generation_field) reference_byte_offset
          generation_offset (keyword_offset + length keyword))
        (consume_keyword (drop gap after_generation) keyword)

-- From the object number on.
unfoldable pub object_shape : Bytes → Bytes → ℕ → ShapeResult
unfolding skip_whitespace count_leading_digits generation_shape
object_shape keyword content reference_byte_offset =
    let object_digits = count_leading_digits content in
    let after_object = drop object_digits content in
    let gap = skip_whitespace after_object in
    if object_digits == 0
    then err (malformed_shape reference_byte_offset)
    else if gap == 0
    then err (malformed_shape reference_byte_offset)
    else generation_shape keyword (take object_digits content) reference_byte_offset
        (drop gap after_object) (reference_byte_offset + object_digits + gap)

-- `byte_offset.saturating_add(scan_limit).min(input.len())` is at most the length of the input, so
-- that the sum is written without the saturation.
unfoldable pub window_of : Bytes → ℕ → ℕ → Bytes
window_of input byte_offset scan_limit =
    let window_end =
      if leb (byte_offset + scan_limit) (length input)
      then byte_offset + scan_limit
      else length input in
    take (window_end - byte_offset) (drop byte_offset input)

unfoldable pub parse_object_reference_shape : Bytes → ℕ → ℕ → Bytes → ShapeResult
unfolding window_of object_shape skip_whitespace
parse_object_reference_shape input byte_offset scan_limit keyword =
    let window = window_of input byte_offset scan_limit in
    let leading_whitespace = skip_whitespace window in
    if leb (length input) byte_offset
    then err (shape_error offset_out_of_bounds none)
    else object_shape keyword (drop leading_whitespace window) (byte_offset + leading_whitespace)
