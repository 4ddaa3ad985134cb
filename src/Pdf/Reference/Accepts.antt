-- ===== src/Pdf/Reference/Accepts.antt =====
-- What the parser of the shape `N G <keyword>` comes to, for every input.
use presslint.Common.{
  ℕ, Bool, ◌+◌, ◌≤◌, ◌<◌, ◌≡◌, inl, inr, true, false, none, ◌++◌, Bytes, length, take, drop, leb,
  ◌==◌, Bool-cases, err, arith,
}
use presslint.Pdf.Source.{is_pdf_whitespace, skip_whitespace}
use presslint.Pdf.Reference.{
  is_ascii_digit, count_leading_digits, offset_out_of_bounds, ShapeResult, shape_error,
  generation_shape, object_shape, window_of, parse_object_reference_shape,
}
use presslint.Pdf.Reference.Grammar.{
  All, Stops, Splits, digits_split, spaces_split, Lexes, Ends, Parses, no_number, no_gap,
  no_generation, no_second_gap, spelled, no_keyword, keyword_cases, shape_numbers-Ends,
}

Splits-Lexes :
    (p : ℕ → Bool) (bs : Bytes) (n : ℕ)
    → Splits p bs n
    → (n == 0) ≡ false
    → Lexes p bs (take n bs) (drop n bs)
Splits-Lexes p bs n (same, all, size, stop) e = (same, all, stop, ground arith)

Splits-Stops : (p : ℕ → Bool) (bs : Bytes) (n : ℕ) → Splits p bs n → (n == 0) ≡ true → Stops p bs
Splits-Stops p bs n (same, all, size, stop) e =
    let zero_bytes : n ≡ 0 = ground arith in rw zero_bytes at stop

-- The lexemes in front of the generation.
module _ (keyword content number gap after field : Bytes) (start g_start : ℕ)
    (digits : Lexes is_ascii_digit content number after)
    (spaces : Lexes is_pdf_whitespace after gap field)
    (place : g_start ≡ start + length number + length gap) where
  generation_shape-Parses :
      Parses keyword content start (generation_shape keyword number start field g_start)
  unfolding generation_shape
  generation_shape-Parses =
      let n = count_leading_digits field in
      let last = drop n field in
      let m = skip_whitespace last in
      let g_digits = digits_split field in
      let g_spaces = spaces_split last in
      elim (Bool-cases (n == 0)) [
        | inl e ↦ rw e (
            no_generation number gap after field digits spaces
              (Splits-Stops is_ascii_digit field n g_digits e) place)
        | inr e ↦
            let generation = Splits-Lexes is_ascii_digit field n g_digits e in
            elim (Bool-cases (m == 0)) [
              | inl e' ↦
                  rw (e, e')
                    (no_second_gap number gap (take n field) after field last digits spaces
                      generation (Splits-Stops is_pdf_whitespace last m g_spaces e')
                      (omega (arith, g_digits.2)))
              | inr e' ↦
                  let second = Splits-Lexes is_pdf_whitespace last m g_spaces e' in
                  let whole =
                    λ (result : ShapeResult)
                        (ends : Ends keyword number (take n field) (drop m last) start g_start
                          (g_start + length (take n field) + length (take m last)) result).
                      spelled number gap (take n field) (take m last) after field last (drop m last)
                        g_start digits spaces generation second place ends in
                  elim (keyword_cases keyword (drop m last)) [
                    | inl (k, absent) ↦
                        rw (e, e', k) (whole _ (rw (g_digits.2, g_spaces.2) (no_keyword absent)))
                    | inr (k, here) ↦
                        rw (e, e', k)
                          (whole _ (
                            rw (g_digits.2, g_spaces.2)
                              (shape_numbers-Ends keyword number (take n field) (drop m last) start
                                g_start (g_start + n + m) here)))
                  ]
            ]
      ]

object_shape-Parses :
    (keyword content : Bytes) (start : ℕ)
    → Parses keyword content start (object_shape keyword content start)
unfolding object_shape
object_shape-Parses keyword content start =
    let n = count_leading_digits content in
    let after = drop n content in
    let m = skip_whitespace after in
    let digits = digits_split content in
    let spaces = spaces_split after in
    elim (Bool-cases (n == 0)) [
      | inl e ↦ rw e (no_number (Splits-Stops is_ascii_digit content n digits e))
      | inr e ↦
          let number = Splits-Lexes is_ascii_digit content n digits e in
          elim (Bool-cases (m == 0)) [
            | inl e' ↦
                rw (e, e')
                  (no_gap (take n content) after number
                    (Splits-Stops is_pdf_whitespace after m spaces e'))
            | inr e' ↦
                rw (e, e')
                  (generation_shape-Parses keyword content (take n content) (take m after) after
                    (drop m after) start (start + n + m) number
                    (Splits-Lexes is_pdf_whitespace after m spaces e')
                    (omega (arith, digits.2, spaces.2)))
          ]
    ]

-- What a call comes to: the offset is past the input, or the bytes of the window behind its leading
-- spaces decide.
pub data IsParse (input : Bytes) (byte_offset scan_limit : ℕ) (keyword : Bytes)
    : ShapeResult → Type 0 where
  past :
      length input ≤ byte_offset
      → IsParse input byte_offset scan_limit keyword (err (shape_error offset_out_of_bounds none))
  read :
      (spaces content : Bytes) {start : ℕ} {result : ShapeResult}
      → byte_offset < length input
      → window_of input byte_offset scan_limit ≡ spaces ++ content
      → All is_pdf_whitespace spaces
      → Stops is_pdf_whitespace content
      → start ≡ byte_offset + length spaces
      → Parses keyword content start result
      → IsParse input byte_offset scan_limit keyword result

-- For every input, offset, limit and keyword, the call comes back. Where the offset is past the input
-- it says so. Otherwise leading spaces of the window are skipped, and what follows is split into
-- digits, spaces, digits and spaces, each as long as it can be: where one of these is missing, or the
-- keyword is, or something continues it, the error is `malformed` with the offset of that place (of
-- the object number, where the gap behind it is missing); where all are there, the result has the
-- values of the digits and the offsets of the first digit and of the keyword's end, or the error is
-- that the object number is not below 2^32, or else that the generation is not below 2^16, with the
-- offset of its digits.
pub parse_object_reference_shape-IsParse :
    (input : Bytes) (byte_offset scan_limit : ℕ) (keyword : Bytes)
    → IsParse input byte_offset scan_limit keyword
        (parse_object_reference_shape input byte_offset scan_limit keyword)
unfolding parse_object_reference_shape
parse_object_reference_shape-IsParse input byte_offset scan_limit keyword =
    let window = window_of input byte_offset scan_limit in
    let m = skip_whitespace window in
    let (same, all, size, stop) = spaces_split window in
    elim (Bool-cases (leb (length input) byte_offset)) [
      | inl e ↦ rw e (past (ground arith))
      | inr e ↦ rw e (
          read (take m window) (drop m window) (ground arith) same all stop (omega (arith, size))
            (object_shape-Parses keyword (drop m window) (byte_offset + m)))
    ]
