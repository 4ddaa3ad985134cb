-- ===== src/Pdf/ArrayExtent.antt =====
-- crates/presslint-pdf/src/array_extent.rs: the extent of a bracketed array.
pub mod Rounds
pub mod Bounds
pub mod Scan
pub mod Scanned
pub mod Meaning
use presslint.Common.{
  ℕ, zero, suc, ◌+◌, ◌-◌, ◌%◌, ◌^◌, Bool, true, false, ◌&&◌, Option, none, some, List, [], ◌∷◌,
  Bytes, length, drop, get_elem?, ltb, leb, not, ◌==◌, if◌then◌else◌, Outcome, ok, err, panic,
  stuck, or_panic, ◌>>=◌,
}
use presslint.Pdf.Source.{skip_whitespace, skip_literal_string, skip_hex_string, skip_comment}

abbrev pub max_array_nesting_depth : ℕ
max_array_nesting_depth = 256

pub record ArrayExtentInspection : Type 0 where
  pub byte_offset : ℕ
  pub open_byte_offset : ℕ
  pub close_byte_offset : ℕ
  pub after_close_byte_offset : ℕ
  pub max_observed_depth : ℕ

pub data ArrayExtentInspectionRejection : Type 0 where
  offset_out_of_bounds : ArrayExtentInspectionRejection
  no_significant_token : ArrayExtentInspectionRejection
  not_array_open : ArrayExtentInspectionRejection
  unterminated_string : ArrayExtentInspectionRejection
  unterminated_array : ArrayExtentInspectionRejection
  max_nesting_exceeded : ArrayExtentInspectionRejection

pub record ArrayExtentInspectionError : Type 0 where
  pub byte_offset : ℕ
  pub byte_len : ℕ
  pub error_byte_offset : Option ℕ
  pub reason : ArrayExtentInspectionRejection

abbrev pub extent_error :
    Bytes → ℕ → ArrayExtentInspectionRejection → Option ℕ → ArrayExtentInspectionError
extent_error input byte_offset reason error_byte_offset = record {
  byte_offset = byte_offset;
  byte_len = length input;
  error_byte_offset = error_byte_offset;
  reason = reason;
}

-- What one round of the loop comes to: new values of `cursor`, `depth` and `max_observed_depth`, the
-- return at the outermost `]`, or an error.
pub data Round : Type 0 where
  moved : ℕ → ℕ → ℕ → Round
  closed : Round
  failed : ArrayExtentInspectionRejection → ℕ → Round

-- `cursor = skip(input, cursor).ok_or_else(|| unterminated_string(cursor))?`
abbrev pub string_round : ℕ → ℕ → ℕ → Option ℕ → Round
string_round cursor depth max_depth none = failed unterminated_string cursor
string_round cursor depth max_depth (some end) = moved end depth max_depth

abbrev pub is_at : Bytes → ℕ → ℕ → Bool
is_at input cursor byte = elim (get_elem? input cursor) [ none ↦ false | some b ↦ b == byte ]

-- The arms for `[`, `]` and other bytes.
unfoldable pub bracket_round : ℕ → ℕ → ℕ → ℕ → Round
bracket_round cursor depth max_depth byte =
    if byte == b'['
    then (if depth == max_array_nesting_depth
        then failed max_nesting_exceeded cursor
        else moved (cursor + 1) (depth + 1)
            (if leb (depth + 1) max_depth then max_depth else depth + 1))
    else if byte == b']'
    then (if (depth + 2 ^ 64 - 1) % 2 ^ 64 == 0
        then closed
        else moved (cursor + 1) ((depth + 2 ^ 64 - 1) % 2 ^ 64) max_depth)
    else moved (cursor + 1) depth max_depth

unfoldable pub extent_round : Bytes → ℕ → ℕ → ℕ → ℕ → Round
extent_round input cursor depth max_depth byte =
    if byte == b'%'
    then moved (skip_comment input cursor) depth max_depth
    else if byte == b'('
    then string_round cursor depth max_depth (skip_literal_string input cursor)
    else if byte == b'<' && is_at input (cursor + 1) b'<'
    then moved (cursor + 2) depth max_depth
    else if byte == b'<'
    then string_round cursor depth max_depth (skip_hex_string input cursor)
    else bracket_round cursor depth max_depth byte

abbrev pub ExtentResult : Type 0
ExtentResult = Outcome ArrayExtentInspectionError ArrayExtentInspection

unfoldable pub after_round :
    (ℕ → ℕ → ℕ → ExtentResult) → Bytes → ℕ → ℕ → ℕ → ℕ → Round → ExtentResult
after_round loop input byte_offset opening cursor max_depth (moved c d m) = loop c d m
after_round loop input byte_offset opening cursor max_depth closed = ok (record {
  byte_offset = byte_offset;
  open_byte_offset = opening;
  close_byte_offset = cursor;
  after_close_byte_offset = cursor + 1;
  max_observed_depth = max_depth;
})
after_round loop input byte_offset opening cursor max_depth (failed reason at) =
    err (extent_error input byte_offset reason (some at))

unfoldable pub extent_loop : Bytes → ℕ → ℕ → ℕ → ℕ → ℕ → ℕ → ExtentResult
extent_loop input byte_offset opening zero cursor depth max_depth = stuck
extent_loop input byte_offset opening (suc fuel) cursor depth max_depth =
    elim (get_elem? input cursor) [
      | none ↦ err (extent_error input byte_offset unterminated_array none)
      | some byte ↦
          after_round (extent_loop input byte_offset opening fuel) input byte_offset opening cursor
            max_depth (extent_round input cursor depth max_depth byte)
    ]

unfoldable pub inspect_array_extent : Bytes → ℕ → ExtentResult
unfolding skip_whitespace skip_literal_string skip_hex_string skip_comment bracket_round
    extent_round after_round extent_loop
inspect_array_extent input byte_offset =
    let opening = byte_offset + skip_whitespace (drop byte_offset input) in
    if leb (length input) byte_offset
    then err (extent_error input byte_offset offset_out_of_bounds none)
    else if opening == length input
    then err (extent_error input byte_offset no_significant_token (some opening))
    else (or_panic (get_elem? input opening) >>= λ first.
        if not (first == b'[')
        then err (extent_error input byte_offset not_array_open (some opening))
        else extent_loop input byte_offset opening (length input) (opening + 1) 1 1)
