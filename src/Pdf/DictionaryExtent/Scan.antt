-- ===== src/Pdf/DictionaryExtent/Scan.antt =====
-- What the loop of `inspect_dictionary_extent` comes to, read off the input position by position.
use presslint.Common.{ℕ, ◌+◌, ◌≤◌, ◌<◌, ◌≡◌, ◌≢◌, none, some, Bytes, length, get_elem?, ok, err}
use presslint.Pdf.Strings.{LiteralEnds, HexEnds, LineEnds}
use presslint.Pdf.DictionaryExtent.{DictionaryExtentInspectionRejection, extent_error, ExtentResult}
use presslint.Pdf.ArrayExtent.Scan.{IsMax}

module _ (input : Bytes) (byte_offset opening : ℕ) where
  -- What the input comes to from a cursor on, with a number of `<<` open and the largest number so
  -- far: comments and strings are passed over, `<<` and `>>` count, the `>>` of the last open `<<`
  -- closes the dictionary.
  pub data IsScan : ℕ → ℕ → ℕ → ExtentResult → Type 0 where
    runs_out :
        {cursor depth most : ℕ}
        → length input ≤ cursor
        → IsScan cursor depth most (
            err (
              extent_error input byte_offset
                DictionaryExtentInspectionRejection.unterminated_dictionary none))
    comment :
        {cursor depth most : ℕ} {r : ExtentResult} (next : ℕ)
        → get_elem? input cursor ≡ some b'%'
        → LineEnds input (cursor + 1) next
        → IsScan next depth most r
        → IsScan cursor depth most r
    literal :
        {cursor depth most : ℕ} {r : ExtentResult} (next : ℕ)
        → get_elem? input cursor ≡ some b'('
        → LiteralEnds input (cursor + 1) 1 (some next)
        → IsScan next depth most r
        → IsScan cursor depth most r
    open_literal :
        {cursor depth most : ℕ}
        → get_elem? input cursor ≡ some b'('
        → LiteralEnds input (cursor + 1) 1 none
        → IsScan cursor depth most (
            err (
              extent_error input byte_offset DictionaryExtentInspectionRejection.unterminated_string
                (some cursor)))
    hex :
        {cursor depth most : ℕ} {r : ExtentResult} (next : ℕ)
        → get_elem? input cursor ≡ some b'<'
        → get_elem? input (cursor + 1) ≢ some b'<'
        → HexEnds input (cursor + 1) (some next)
        → IsScan next depth most r
        → IsScan cursor depth most r
    open_hex :
        {cursor depth most : ℕ}
        → get_elem? input cursor ≡ some b'<'
        → get_elem? input (cursor + 1) ≢ some b'<'
        → HexEnds input (cursor + 1) none
        → IsScan cursor depth most (
            err (
              extent_error input byte_offset DictionaryExtentInspectionRejection.unterminated_string
                (some cursor)))
    opens :
        {cursor depth most : ℕ} {r : ExtentResult} (m : ℕ)
        → get_elem? input cursor ≡ some b'<'
        → get_elem? input (cursor + 1) ≡ some b'<'
        → depth < 256
        → IsMax most (depth + 1) m
        → IsScan (cursor + 2) (depth + 1) m r
        → IsScan cursor depth most r
    too_deep :
        {cursor depth most : ℕ}
        → get_elem? input cursor ≡ some b'<'
        → get_elem? input (cursor + 1) ≡ some b'<'
        → depth ≡ 256
        → IsScan cursor depth most (
            err (
              extent_error input byte_offset
                DictionaryExtentInspectionRejection.max_nesting_exceeded
                (some cursor)))
    closes_inner :
        {cursor depth most : ℕ} {r : ExtentResult} (outer : ℕ)
        → get_elem? input cursor ≡ some b'>'
        → get_elem? input (cursor + 1) ≡ some b'>'
        → depth ≡ outer + 1
        → 1 ≤ outer
        → IsScan (cursor + 2) outer most r
        → IsScan cursor depth most r
    closes :
        {cursor depth most : ℕ}
        → get_elem? input cursor ≡ some b'>'
        → get_elem? input (cursor + 1) ≡ some b'>'
        → depth ≡ 1
        → IsScan cursor depth most (
            ok (record {
              byte_offset = byte_offset;
              open_byte_offset = opening;
              close_byte_offset = cursor;
              after_close_byte_offset = cursor + 2;
              max_observed_depth = most;
            }))
    passes :
        {cursor depth most : ℕ} {r : ExtentResult} (b : ℕ)
        → get_elem? input cursor ≡ some b
        → (b ≢ b'%') × (b ≢ b'(') × (b ≢ b'<')
        → ¬ ((b ≡ b'>') × (get_elem? input (cursor + 1) ≡ some b'>'))
        → IsScan (cursor + 1) depth most r
        → IsScan cursor depth most r
