-- ===== src/Xref/Entries.antt =====
-- crates/presslint-pdf/src/xref_stream_entries.rs, for a 64-bit target. The array `widths` of three
-- is a record.
use presslint.Common.{
  ℕ, zero, suc, ◌+◌, ◌*◌, ◌%◌, ◌^◌, Option, none, some, List, [], ◌∷◌, ◌++◌, Bytes, length,
  get_range?, ltb, ◌==◌, if◌then◌else◌, Outcome, ok, err, ◌>>=◌, or_panic, ok_or, not,
}

abbrev pub max_field_width : ℕ
max_field_width = 8

abbrev pub default_entry_type : ℕ
default_entry_type = 1

-- One past the largest `usize` and `u64`.
abbrev pub word_mod : ℕ
word_mod = 2 ^ 64

pub record Widths : Type 0 where
  pub w0 : ℕ
  pub w1 : ℕ
  pub w2 : ℕ

pub record XrefStreamSubsection : Type 0 where
  pub first_object_number : ℕ
  pub entry_count : ℕ

pub data XrefStreamEntryRecord : Type 0 where
  free : ℕ → ℕ → XrefStreamEntryRecord
  uncompressed : ℕ → ℕ → XrefStreamEntryRecord
  compressed : ℕ → ℕ → XrefStreamEntryRecord
  reserved : ℕ → ℕ → ℕ → XrefStreamEntryRecord

-- The field `record` is named `entry`.
pub record XrefStreamEntry : Type 0 where
  pub object_number : ℕ
  pub entry : XrefStreamEntryRecord

pub data XrefStreamEntriesRejection : Type 0 where
  zero_record_width : XrefStreamEntriesRejection
  field_width_out_of_range : ℕ → ℕ → XrefStreamEntriesRejection
  integer_overflow : XrefStreamEntriesRejection
  length_mismatch : ℕ → ℕ → XrefStreamEntriesRejection
  field_value_out_of_range : ℕ → ℕ → XrefStreamEntriesRejection
  object_number_out_of_range : ℕ → ℕ → XrefStreamEntriesRejection

pub record XrefStreamEntriesError : Type 0 where
  pub decoded_len : ℕ
  pub error_byte_offset : Option ℕ
  pub object_number : Option ℕ
  pub reason : XrefStreamEntriesRejection

-- `ErrorContext::error`
abbrev pub error : Bytes → XrefStreamEntriesRejection → Option ℕ → Option ℕ → XrefStreamEntriesError
error decoded reason error_byte_offset object_number = record {
  decoded_len = length decoded;
  error_byte_offset = error_byte_offset;
  object_number = object_number;
  reason = reason;
}

abbrev pub R : Type 0 → Type 0
R A = Outcome XrefStreamEntriesError A

-- `checked_add` and `checked_mul` of `usize`.
unfoldable pub in_range : ℕ → Option ℕ
in_range n = if ltb n word_mod then some n else none

unfoldable pub validate_from : Bytes → ℕ → List ℕ → R (Unit {0})
validate_from decoded field_index [] = ok tt
validate_from decoded field_index (width ∷ widths) =
    if ltb max_field_width width
    then err (error decoded (field_width_out_of_range field_index width) none none)
    else validate_from decoded (field_index + 1) widths

abbrev pub width_list : Widths → List ℕ
width_list w = w.w0 ∷ w.w1 ∷ w.w2 ∷ []

unfoldable pub validate_widths : Bytes → Widths → R (Unit {0})
validate_widths decoded widths = validate_from decoded 0 (width_list widths)

-- `try_fold` with `checked_add`.
unfoldable pub checked_sum : Bytes → ℕ → List ℕ → R ℕ
checked_sum decoded sum [] = ok sum
checked_sum decoded sum (n ∷ ns) = do
  next ← ok_or (in_range (sum + n)) (error decoded integer_overflow none none)
  checked_sum decoded next ns

unfoldable pub record_width : Bytes → Widths → R ℕ
record_width decoded widths = do
  width ← checked_sum decoded 0 (width_list widths)
  if width == 0 then err (error decoded zero_record_width none none) else ok width

abbrev pub entry_counts : List XrefStreamSubsection → List ℕ
entry_counts [] = []
entry_counts (s ∷ ss) = s.entry_count ∷ entry_counts ss

unfoldable pub total_entries : Bytes → List XrefStreamSubsection → R ℕ
total_entries decoded subsections = checked_sum decoded 0 (entry_counts subsections)

-- `value << 8 | byte` on `u64`, for bytes below 256.
unfoldable pub big_endian : ℕ → Bytes → ℕ
big_endian value [] = value
big_endian value (byte ∷ bytes) = big_endian (value * 256 % word_mod + byte) bytes

-- A field, and the cursor behind it.
pub record Field : Type 0 where
  pub value : ℕ
  pub cursor : ℕ

unfoldable pub decode_field : Bytes → ℕ → ℕ → ℕ → R Field
decode_field decoded cursor width default =
    if width == 0
    then ok (record { value = default; cursor = cursor })
    else (or_panic (get_range? decoded cursor (cursor + width)) >>= λ bytes.
        ok (record { value = big_endian 0 bytes; cursor = cursor + width }))

unfoldable pub field_to_usize : Bytes → ℕ → ℕ → ℕ → ℕ → R ℕ
field_to_usize decoded value field_index record_byte_offset object_number = ok_or (in_range value) (
    error decoded (field_value_out_of_range field_index value) (some record_byte_offset)
      (some object_number))

-- The second and the third field of a known entry.
unfoldable pub two_fields :
    Bytes → ℕ → ℕ → ℕ → ℕ → (ℕ → ℕ → XrefStreamEntryRecord) → R XrefStreamEntryRecord
two_fields decoded record_byte_offset object_number field2 field3 make = do
  a ← field_to_usize decoded field2 1 record_byte_offset object_number
  b ← field_to_usize decoded field3 2 record_byte_offset object_number
  ok (make a b)

-- The match on the entry type in `decode_record`.
unfoldable pub record_of : Bytes → ℕ → ℕ → ℕ → ℕ → ℕ → R XrefStreamEntryRecord
record_of decoded record_byte_offset object_number entry_type field2 field3 =
    if entry_type == 0
    then two_fields decoded record_byte_offset object_number field2 field3 free
    else if entry_type == 1
    then two_fields decoded record_byte_offset object_number field2 field3 uncompressed
    else if entry_type == 2
    then two_fields decoded record_byte_offset object_number field2 field3 compressed
    else ok (reserved entry_type field2 field3)

unfoldable pub decode_record : Bytes → ℕ → Widths → ℕ → R XrefStreamEntryRecord
decode_record decoded record_byte_offset widths object_number = do
  f1 ← decode_field decoded record_byte_offset widths.w0 default_entry_type
  f2 ← decode_field decoded f1.cursor widths.w1 0
  f3 ← decode_field decoded f2.cursor widths.w2 0
  record_of decoded record_byte_offset object_number f1.value f2.value f3.value

-- `entries` and `record_byte_offset`.
pub record Progress : Type 0 where
  pub entries : List XrefStreamEntry
  pub record_byte_offset : ℕ

-- The inner loop of `parse_xref_stream_entries`, with `left` entries to go.
unfoldable pub subsection_loop :
    Bytes → Widths → ℕ → XrefStreamSubsection → ℕ → ℕ → Progress → R Progress
subsection_loop decoded widths width subsection zero entry_index p = ok p
subsection_loop decoded widths width subsection (suc left) entry_index p = do
  object_number ← ok_or (in_range (subsection.first_object_number + entry_index)) (
      error decoded (object_number_out_of_range subsection.first_object_number entry_index)
        (some p.record_byte_offset) none)
  r ← decode_record decoded p.record_byte_offset widths object_number
  subsection_loop decoded widths width subsection left (entry_index + 1) (record {
    entries = p.entries ++ record { object_number = object_number; entry = r } ∷ [];
    record_byte_offset = p.record_byte_offset + width;
  })

unfoldable pub subsections_loop :
    Bytes → Widths → ℕ → List XrefStreamSubsection → Progress → R Progress
subsections_loop decoded widths width [] p = ok p
subsections_loop decoded widths width (s ∷ ss) p = do
  q ← subsection_loop decoded widths width s s.entry_count 0 p
  subsections_loop decoded widths width ss q

unfoldable pub parse_xref_stream_entries :
    Bytes → Widths → List XrefStreamSubsection → R (List XrefStreamEntry)
unfolding in_range validate_from validate_widths checked_sum record_width total_entries big_endian
    decode_field field_to_usize two_fields record_of decode_record subsection_loop subsections_loop
    get_range?
parse_xref_stream_entries decoded widths subsections = do
  _ ← validate_widths decoded widths
  width ← record_width decoded widths
  total ← total_entries decoded subsections
  expected_len ← ok_or (in_range (total * width)) (error decoded integer_overflow none none)
  if not (length decoded == expected_len)
      then err (error decoded (length_mismatch expected_len (length decoded)) none none)
      else (subsections_loop decoded widths width subsections
            (record { entries = []; record_byte_offset = 0 })
          >>= λ p. ok p.entries)
