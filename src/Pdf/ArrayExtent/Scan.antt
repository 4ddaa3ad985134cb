-- ===== src/Pdf/ArrayExtent/Scan.antt =====
-- What the loop of `inspect_array_extent` comes to, read off the input position by position.
use presslint.Common.{
  ℕ, ◌+◌, ◌≤◌, ◌<◌, ◌≡◌, ◌≢◌, ◌⊎◌, none, some, Bytes, length, get_elem?, ok, err,
}
use presslint.Pdf.Strings.{LiteralEnds, HexEnds, LineEnds}
use presslint.Pdf.ArrayExtent.{ArrayExtentInspectionRejection, extent_error, ExtentResult}

-- The larger of two numbers.
abbrev pub IsMax : ℕ → ℕ → ℕ → Type 0
IsMax a b m = (a ≤ m) × (b ≤ m) × ((m ≡ a) ⊎ (m ≡ b))

module _ (input : Bytes) (byte_offset opening : ℕ) where
  -- What the input comes to from a cursor on, with a number of brackets open and the largest number
  -- so far: comments, strings and `<<` are passed over, `[` and `]` count, the `]` of the last open
  -- bracket closes the array.
  pub data IsScan : ℕ → ℕ → ℕ → ExtentResult → Type 0 where
    runs_out :
        {cursor depth most : ℕ}
        → length input ≤ cursor
        → IsScan cursor depth most (
            err (
              extent_error input byte_offset ArrayExtentInspectionRejection.unterminated_array
                none))
    comment :
        {cursor depth most : ℕ} {r : ExtentResult} (next : ℕ)
        → get_elem? input cursor ≡ some b'%'
        → LineEnds input (cursor + 1) next
        → IsScan next depth most r
        → IsScan cursor depth most r
    literal :
        {cursor depth most : ℕ} {r : ExtentResult} (next : ℕ)
        → get_elem? input cursor ≡ some b'('
        → LiteralEnds input (cursor + 1) 1 (some next)
        → IsScan next depth most r
        → IsScan cursor depth most r
    open_literal :
        {cursor depth most : ℕ}
        → get_elem? input cursor ≡ some b'('
        → LiteralEnds input (cursor + 1) 1 none
        → IsScan cursor depth most (
            err (
              extent_error input byte_offset ArrayExtentInspectionRejection.unterminated_string
                (some cursor)))
    double :
        {cursor depth most : ℕ} {r : ExtentResult}
        → get_elem? input cursor ≡ some b'<'
        → get_elem? input (cursor + 1) ≡ some b'<'
        → IsScan (cursor + 2) depth most r
        → IsScan cursor depth most r
    hex :
        {cursor depth most : ℕ} {r : ExtentResult} (next : ℕ)
        → get_elem? input cursor ≡ some b'<'
        → get_elem? input (cursor + 1) ≢ some b'<'
        → HexEnds input (cursor + 1) (some next)
        → IsScan next depth most r
        → IsScan cursor depth most r
    open_hex :
        {cursor depth most : ℕ}
        → get_elem? input cursor ≡ some b'<'
        → get_elem? input (cursor + 1) ≢ some b'<'
        → HexEnds input (cursor + 1) none
        → IsScan cursor depth most (
            err (
              extent_error input byte_offset ArrayExtentInspectionRejection.unterminated_string
                (some cursor)))
    opens :
        {cursor depth most : ℕ} {r : ExtentResult} (m : ℕ)
        → get_elem? input cursor ≡ some b'['
        → depth < 256
        → IsMax most (depth + 1) m
        → IsScan (cursor + 1) (depth + 1) m r
        → IsScan cursor depth most r
    too_deep :
        {cursor depth most : ℕ}
        → get_elem? input cursor ≡ some b'['
        → depth ≡ 256
        → IsScan cursor depth most (
            err (
              extent_error input byte_offset ArrayExtentInspectionRejection.max_nesting_exceeded
                (some cursor)))
    closes_inner :
        {cursor depth most : ℕ} {r : ExtentResult} (outer : ℕ)
        → get_elem? input cursor ≡ some b']'
        → depth ≡ outer + 1
        → 1 ≤ outer
        → IsScan (cursor + 1) outer most r
        → IsScan cursor depth most r
    closes :
        {cursor depth most : ℕ}
        → get_elem? input cursor ≡ some b']'
        → depth ≡ 1
        → IsScan cursor depth most (
            ok (record {
              byte_offset = byte_offset;
              open_byte_offset = opening;
              close_byte_offset = cursor;
              after_close_byte_offset = cursor + 1;
              max_observed_depth = most;
            }))
    passes :
        {cursor depth most : ℕ} {r : ExtentResult} (b : ℕ)
        → get_elem? input cursor ≡ some b
        → (b ≢ b'%') × (b ≢ b'(') × (b ≢ b'<') × (b ≢ b'[') × (b ≢ b']')
        → IsScan (cursor + 1) depth most r
        → IsScan cursor depth most r
