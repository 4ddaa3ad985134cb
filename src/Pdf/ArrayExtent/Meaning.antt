-- ===== src/Pdf/ArrayExtent/Meaning.antt =====
-- The result of `inspect_array_extent`, read off the input position by position.
use presslint.Common.{
  ℕ, ◌+◌, ◌≤◌, ◌<◌, ◌≡◌, ◌≢◌, refl, ap, ◌∙◌, inl, inr, none, some, Bytes, length, length-drop, drop,
  get_elem?, get_elem?-some, leb, ◌==◌, Bool-cases, err, Ensures, arith,
}
use presslint.Pdf.Source.{skip_whitespace}
use presslint.Pdf.Scans.{skip_whitespace_bound}
use presslint.Pdf.Strings.{SpaceEnds}
use presslint.Pdf.Strings.Scanned.{skip_whitespace-SpaceEnds}
use presslint.Pdf.ArrayExtent.{
  ArrayExtentInspectionRejection, extent_error, inspect_array_extent, ExtentResult,
}
use presslint.Pdf.ArrayExtent.Rounds.{IsExtent, IsExtentError}
use presslint.Pdf.ArrayExtent.Bounds.{inspect_array_extent-Ensures}
use presslint.Pdf.ArrayExtent.Scan.{IsScan}
use presslint.Pdf.ArrayExtent.Scanned.{extent_loop-IsScan}

-- The result for an offset: the first byte at or behind it that is no white space has to be `[`, and
-- the scan goes on behind that with one bracket open.
pub data IsInspection (input : Bytes) (byte_offset : ℕ) : ExtentResult → Type 0 where
  past :
      length input ≤ byte_offset
      → IsInspection input byte_offset (
          err (
            extent_error input byte_offset ArrayExtentInspectionRejection.offset_out_of_bounds
              none))
  bare :
      byte_offset < length input
      → SpaceEnds input byte_offset (length input)
      → IsInspection input byte_offset (
          err (
            extent_error input byte_offset ArrayExtentInspectionRejection.no_significant_token
              (some (length input))))
  other :
      (opening byte : ℕ)
      → byte_offset < length input
      → SpaceEnds input byte_offset opening
      → get_elem? input opening ≡ some byte
      → byte ≢ b'['
      → IsInspection input byte_offset (
          err (
            extent_error input byte_offset ArrayExtentInspectionRejection.not_array_open
              (some opening)))
  scanned :
      (opening : ℕ) {r : ExtentResult}
      → byte_offset < length input
      → SpaceEnds input byte_offset opening
      → get_elem? input opening ≡ some b'['
      → IsScan input byte_offset opening (opening + 1) 1 1 r
      → IsInspection input byte_offset r

inspection :
    (input : Bytes) (byte_offset : ℕ)
    → IsInspection input byte_offset (inspect_array_extent input byte_offset)
unfolding inspect_array_extent
inspection input byte_offset =
    let opening = byte_offset + skip_whitespace (drop byte_offset input) in
    let space : SpaceEnds input byte_offset opening =
      skip_whitespace-SpaceEnds input (drop byte_offset input) byte_offset refl in
    elim (Bool-cases (leb (length input) byte_offset)) [
      | inl out ↦ rw out (past (ground arith))
      | inr inside ↦
          let before : byte_offset < length input = ground arith in
          elim (Bool-cases (opening == length input)) [
            | inl blank ↦
                let all : opening ≡ length input = ground arith in
                rw (inside, blank, all) (bare before (rw all at space))
            | inr token ↦
                let within : opening ≤ length input = omega (
                  arith,
                  skip_whitespace_bound (drop byte_offset input),
                  length-drop byte_offset input,
                ) in
                let inner : opening < length input = ground arith in
                let (first, g) = get_elem?-some input opening inner in
                elim (Bool-cases (first == b'[')) [
                  | inl bracket ↦
                      let here : first ≡ b'[' = ground arith in
                      rw (inside, token, g, bracket)
                        (scanned opening before space (g ∙ ap some here) (
                          extent_loop-IsScan input byte_offset opening (length input) (opening + 1)
                            1 1 (omega arith) (omega arith) (omega arith, omega arith)))
                  | inr none_here ↦
                      let n : first ≢ b'[' = λ q. ground arith in
                      rw (inside, token, g, none_here) (other opening first before space g n)
                ]
          ]
    ]

-- For every input and offset, the call comes back with the result that the input has, read position
-- by position: the first byte at or behind the offset that is no white space, if it is a `[`, opens
-- the array, brackets outside comments and strings count, and the `]` of the last open bracket
-- closes it, with the largest number of open brackets; or the error is the first of an offset or a
-- token that does not serve, a string that closes nowhere, a bracket in 256 others, or the end of
-- the input, at its place. The offsets lie in the input, and the depth is from 1 to 256.
pub inspect_array_extent-IsInspection :
    (input : Bytes) (byte_offset : ℕ)
    → IsInspection input byte_offset (inspect_array_extent input byte_offset)
      × Ensures
          (IsExtent input byte_offset)
          (IsExtentError input byte_offset)
          (inspect_array_extent input byte_offset)
inspect_array_extent-IsInspection input byte_offset =
    (inspection input byte_offset, inspect_array_extent-Ensures input byte_offset)
