-- ===== src/Pdf/DictionaryExtent/Meaning.antt =====
-- The result of `inspect_dictionary_extent`, read off the input position by position.
use presslint.Common.{
  ℕ, ◌+◌, ◌≤◌, ◌<◌, ◌≡◌, ◌≢◌, refl, ap, ◌∙◌, inl, inr, ◌⊎◌, none, some, Bytes, length, length-drop,
  drop, get_elem?, get_elem?-some, get_elem?-lt, leb, ◌==◌, Bool-cases, err, Ensures, arith,
}
use presslint.Pdf.Source.{skip_whitespace}
use presslint.Pdf.Scans.{skip_whitespace_bound}
use presslint.Pdf.Strings.{SpaceEnds}
use presslint.Pdf.Strings.Scanned.{skip_whitespace-SpaceEnds}
use presslint.Pdf.DictionaryExtent.{
  DictionaryExtentInspectionRejection, extent_error, is_at, inspect_dictionary_extent, ExtentResult,
}
use presslint.Pdf.DictionaryExtent.Rounds.{IsExtent, IsExtentError}
use presslint.Pdf.DictionaryExtent.Bounds.{inspect_dictionary_extent-Ensures}
use presslint.Pdf.DictionaryExtent.Scan.{IsScan}
use presslint.Pdf.DictionaryExtent.Scanned.{extent_loop-IsScan, is_at-some, is_at-none}

-- The result for an offset: the first bytes at or behind it that are no white space have to be
-- `<<`, and the scan goes on behind them with one `<<` open.
pub data IsInspection (input : Bytes) (byte_offset : ℕ) : ExtentResult → Type 0 where
  past :
      length input ≤ byte_offset
      → IsInspection input byte_offset (
          err (
            extent_error input byte_offset DictionaryExtentInspectionRejection.offset_out_of_bounds
              none))
  bare :
      byte_offset < length input
      → SpaceEnds input byte_offset (length input)
      → IsInspection input byte_offset (
          err (
            extent_error input byte_offset DictionaryExtentInspectionRejection.no_significant_token
              (some (length input))))
  other :
      (opening byte : ℕ)
      → byte_offset < length input
      → SpaceEnds input byte_offset opening
      → get_elem? input opening ≡ some byte
      → (byte ≢ b'<') ⊎ (get_elem? input (opening + 1) ≢ some b'<')
      → IsInspection input byte_offset (
          err (
            extent_error input byte_offset DictionaryExtentInspectionRejection.not_dictionary_open
              (some opening)))
  scanned :
      (opening : ℕ) {r : ExtentResult}
      → byte_offset < length input
      → SpaceEnds input byte_offset opening
      → get_elem? input opening ≡ some b'<'
      → get_elem? input (opening + 1) ≡ some b'<'
      → IsScan input byte_offset opening (opening + 2) 1 1 r
      → IsInspection input byte_offset r

inspection :
    (input : Bytes) (byte_offset : ℕ)
    → IsInspection input byte_offset (inspect_dictionary_extent input byte_offset)
unfolding inspect_dictionary_extent
inspection input byte_offset =
    let opening = byte_offset + skip_whitespace (drop byte_offset input) in
    let space : SpaceEnds input byte_offset opening =
      skip_whitespace-SpaceEnds input (drop byte_offset input) byte_offset refl in
    elim (Bool-cases (leb (length input) byte_offset)) [
      | inl out ↦ rw out (past (ground arith))
      | inr inside ↦
          let before : byte_offset < length input = ground arith in
          elim (Bool-cases (opening == length input)) [
            | inl blank ↦
                let all : opening ≡ length input = ground arith in
                rw (inside, blank, all) (bare before (rw all at space))
            | inr token ↦
                let within : opening ≤ length input = omega (
                  arith,
                  skip_whitespace_bound (drop byte_offset input),
                  length-drop byte_offset input,
                ) in
                let inner : opening < length input = ground arith in
                let (first, g) = get_elem?-some input opening inner in
                elim (Bool-cases (first == b'<')) [
                  | inl bracket ↦
                      let here : first ≡ b'<' = ground arith in
                      elim (Bool-cases (is_at input (opening + 1) b'<')) [
                        | inl twice ↦
                            let g' = is_at-some input (opening + 1) b'<' twice in
                            let l = get_elem?-lt input (opening + 1) g' in
                            rw (inside, token, g, bracket, twice)
                              (scanned opening before space (g ∙ ap some here) g' (
                                extent_loop-IsScan input byte_offset opening (length input)
                                  (opening + 2) 1 1 (omega arith) (omega arith)
                                  (omega arith, omega arith)))
                        | inr once ↦
                            rw (inside, token, g, bracket, once)
                              (other opening first before space g
                                (inr (is_at-none input (opening + 1) b'<' once)))
                      ]
                  | inr none_here ↦
                      let n : first ≢ b'<' = λ q. ground arith in
                      rw (inside, token, g, none_here) (other opening first before space g (inl n))
                ]
          ]
    ]

-- For every input and offset, the call comes back with the result that the input has, read position
-- by position: the first bytes at or behind the offset that are no white space, if they are `<<`,
-- open the dictionary, `<<` and `>>` outside comments and strings count, and the `>>` of the last
-- open `<<` closes it, with the largest number of open ones; or the error is the first of an offset
-- or a token that does not serve, a string that closes nowhere, a `<<` in 256 others, or the end of
-- the input, at its place. The offsets lie in the input, and the depth is from 1 to 256.
pub inspect_dictionary_extent-IsInspection :
    (input : Bytes) (byte_offset : ℕ)
    → IsInspection input byte_offset (inspect_dictionary_extent input byte_offset)
      × Ensures
          (IsExtent input byte_offset)
          (IsExtentError input byte_offset)
          (inspect_dictionary_extent input byte_offset)
inspect_dictionary_extent-IsInspection input byte_offset =
    (inspection input byte_offset, inspect_dictionary_extent-Ensures input byte_offset)
