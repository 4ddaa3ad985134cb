-- ===== src/Pdf/Reference/Grammar.antt =====
-- The shape `N G <keyword>` as a grammar, and the number behind it.
use presslint.Common.{
  ℕ, suc, ◌+◌, ◌-◌, ◌*◌, ◌^◌, ◌≤◌, ◌<◌, ◌≡◌, refl, ap, ◌∙◌, inl, inr, Bool, true, false, Option,
  none, some, [], ◌∷◌, ◌++◌, Bytes, length, take, drop, length-append, ltb, ◌==◌, if◌then◌else◌,
  Bool-cases, Option-cases, ok, err, ◌⊎◌, arith,
}
use presslint.Pdf.Source.{is_pdf_whitespace, skip_whitespace}
use presslint.Pdf.Reference.{
  object_number_out_of_range, generation_out_of_range, is_ascii_digit, count_leading_digits,
  decimal_loop, parse_u64_decimal, narrow, strip_prefix, continues, ShapeResult, shape_error,
  malformed_shape, shape_numbers, consume_keyword,
}

abbrev pub All : (ℕ → Bool) → Bytes → Type 0
All p [] = Unit
All p (b ∷ bs) = (p b ≡ true) × All p bs

-- The number that digits spell, behind those that spell `n`.
abbrev pub value : ℕ → Bytes → ℕ
value n [] = n
value n (b ∷ bs) = value (n * 10 + (b - b'0')) bs

-- `p` does not hold of the first byte, if there is one.
abbrev pub Stops : (ℕ → Bool) → Bytes → Type 0
Stops p [] = Unit
Stops p (b ∷ bs) = p b ≡ false

abbrev pub Splits : (ℕ → Bool) → Bytes → ℕ → Type 0
Splits p bs n =
    (bs ≡ take n bs ++ drop n bs)
    × All p (take n bs)
    × (length (take n bs) ≡ n)
    × Stops p (drop n bs)

-- A count of the leading bytes of which `p` holds.
module _ (p : ℕ → Bool) (count : Bytes → ℕ) (at_end : count [] ≡ 0)
    (at_byte : (b : ℕ) (bs : Bytes) → count (b ∷ bs) ≡ (if p b then count bs + 1 else 0)) where
  splits : (bs : Bytes) → Splits p bs (count bs)
  splits [] = rw at_end (refl, tt, refl, tt)
  splits (b ∷ bs) =
      let (same, all, size, stop) = splits bs in
      let next : count bs + 1 ≡ suc (count bs) = omega arith in
      elim (Bool-cases (p b)) [
        | inl e ↦ rw (at_byte b bs, e, next) (ap (λ l. b ∷ l) same, (e, all), ap suc size, stop)
        | inr e ↦ rw (at_byte b bs, e) (refl, tt, refl, e)
      ]

pub digits_split : (bs : Bytes) → Splits is_ascii_digit bs (count_leading_digits bs)
unfolding count_leading_digits
digits_split bs = splits is_ascii_digit count_leading_digits refl (λ b bs. refl) bs

pub spaces_split : (bs : Bytes) → Splits is_pdf_whitespace bs (skip_whitespace bs)
unfolding skip_whitespace
spaces_split bs = splits is_pdf_whitespace skip_whitespace refl (λ b bs. refl) bs

value-ge : (n : ℕ) (bs : Bytes) → n ≤ value n bs
value-ge n [] = omega arith
value-ge n (b ∷ bs) = omega (arith, value-ge (n * 10 + (b - b'0')) bs)

-- The number is the value of the digits, or that does not fit in 64 bits.
abbrev Reads : ℕ → Bytes → Option ℕ → Type 0
Reads n bs (some v) = v ≡ value n bs
Reads n bs none = 2 ^ 64 ≤ value n bs

Reads-cons :
    (n b : ℕ) (bs : Bytes) (o : Option ℕ) → Reads (n * 10 + (b - b'0')) bs o → Reads n (b ∷ bs) o
Reads-cons n b bs none h = h
Reads-cons n b bs (some v) h = h

decimal_loop-Reads : (n : ℕ) (bs : Bytes) → Reads n bs (decimal_loop n bs)
unfolding decimal_loop
decimal_loop-Reads n [] = refl
decimal_loop-Reads n (b ∷ bs) =
    let low = value-ge (n * 10 + (b - b'0')) bs in
    elim (Bool-cases (ltb (n * 10) (2 ^ 64))) [
      | inl e ↦ elim (Bool-cases (ltb (n * 10 + (b - b'0')) (2 ^ 64))) [
        | inl e' ↦ rw (e, e') (Reads-cons n b bs _ (decimal_loop-Reads (n * 10 + (b - b'0')) bs))
        | inr e' ↦ rw (e, e') (ground arith)
      ]
      | inr e ↦ rw e (ground arith)
    ]

-- A number below `limit`, or digits whose value is not.
abbrev Narrows : ℕ → Bytes → Option ℕ → Type 0
Narrows limit bs (some v) = (v ≡ value 0 bs) × (v < limit)
Narrows limit bs none = limit ≤ value 0 bs

narrow-Narrows :
    (limit : ℕ) (bs : Bytes) (o : Option ℕ)
    → limit ≤ 2 ^ 64
    → Reads 0 bs o
    → Narrows limit bs (narrow limit o)
narrow-Narrows limit bs none l h = omega arith
narrow-Narrows limit bs (some v) l h = elim (Bool-cases (ltb v limit)) [
  | inl e ↦ rw e (h, ground arith)
  | inr e ↦ rw e (ground arith)
]

pub strip_prefix-append : (bs ks rest : Bytes) → strip_prefix bs ks ≡ some rest → bs ≡ ks ++ rest
unfolding strip_prefix
strip_prefix-append bs [] rest h = cc
strip_prefix-append [] (k ∷ ks) rest h = cc
strip_prefix-append (b ∷ bs) (k ∷ ks) rest h = elim (Bool-cases (b == k)) [
  | inl e ↦
      let same : b ≡ k = ground arith in
      let tail = rw e at h in rw same (ap (λ l. k ∷ l) (strip_prefix-append bs ks rest tail))
  | inr e ↦ let nothing = rw e at h in cc
]

pub length-Splits :
    (p : ℕ → Bool) (bs : Bytes) (n : ℕ) → Splits p bs n → length bs ≡ n + length (drop n bs)
length-Splits p bs n (same, all, size, stop) =
    ap length same ∙ length-append (take n bs) (drop n bs) ∙ ap (λ k. k + length (drop n bs)) size

-- The keyword stands at the front, and nothing continues it.
abbrev pub HasKeyword : Bytes → Bytes → Type 0
HasKeyword keyword bs = (rest : Bytes) × (bs ≡ keyword ++ rest) × (continues rest ≡ false)

-- The text is a whole run of at least one byte of which `p` holds, with `rest` behind it.
abbrev pub Lexes : (ℕ → Bool) → Bytes → Bytes → Bytes → Type 0
Lexes p bs text rest = (bs ≡ text ++ rest) × All p text × Stops p rest × (1 ≤ length text)

-- What stands behind both numbers and gaps comes to, where the generation is at `g_start` and the
-- keyword would be at `at`.
pub data Ends (keyword number generation rest : Bytes) (start g_start at : ℕ)
    : ShapeResult → Type 0 where
  no_keyword :
      ¬ HasKeyword keyword rest
      → Ends keyword number generation rest start g_start at (err (malformed_shape at))
  number_too_large :
      HasKeyword keyword rest
      → 2 ^ 32 ≤ value 0 number
      → Ends keyword number generation rest start g_start at
          (err (shape_error object_number_out_of_range (some start)))
  generation_too_large :
      HasKeyword keyword rest
      → value 0 number < 2 ^ 32
      → 2 ^ 16 ≤ value 0 generation
      → Ends keyword number generation rest start g_start at
          (err (shape_error generation_out_of_range (some g_start)))
  shaped :
      HasKeyword keyword rest
      → value 0 number < 2 ^ 32
      → value 0 generation < 2 ^ 16
      → Ends keyword number generation rest start g_start at (
          ok (record {
            object_number = value 0 number;
            generation = value 0 generation;
            reference_byte_offset = start;
            after_keyword_offset = at + length keyword;
          }))

-- What the bytes from the first digit on come to, at the offset `start`: the shape `N G <keyword>`,
-- with its values where both fit, or the place where the first part of it is missing.
pub data Parses (keyword content : Bytes) (start : ℕ) : ShapeResult → Type 0 where
  no_number :
      Stops is_ascii_digit content → Parses keyword content start (err (malformed_shape start))
  no_gap :
      (number rest : Bytes)
      → Lexes is_ascii_digit content number rest
      → Stops is_pdf_whitespace rest
      → Parses keyword content start (err (malformed_shape start))
  no_generation :
      (number gap after rest : Bytes) {at : ℕ}
      → Lexes is_ascii_digit content number after
      → Lexes is_pdf_whitespace after gap rest
      → Stops is_ascii_digit rest
      → at ≡ start + length number + length gap
      → Parses keyword content start (err (malformed_shape at))
  no_second_gap :
      (number gap generation after behind rest : Bytes) {at : ℕ}
      → Lexes is_ascii_digit content number after
      → Lexes is_pdf_whitespace after gap behind
      → Lexes is_ascii_digit behind generation rest
      → Stops is_pdf_whitespace rest
      → at ≡ start + length number + length gap + length generation
      → Parses keyword content start (err (malformed_shape at))
  spelled :
      (number gap generation second_gap after behind last rest : Bytes) (at : ℕ)
      {result : ShapeResult}
      → Lexes is_ascii_digit content number after
      → Lexes is_pdf_whitespace after gap behind
      → Lexes is_ascii_digit behind generation last
      → Lexes is_pdf_whitespace last second_gap rest
      → at ≡ start + length number + length gap
      → Ends keyword number generation rest start at
          (at + length generation + length second_gap)
          result
      → Parses keyword content start result

append-strip_prefix : (ks rest : Bytes) → strip_prefix (ks ++ rest) ks ≡ some rest
unfolding strip_prefix
append-strip_prefix [] rest = refl
append-strip_prefix (k ∷ ks) rest =
    let same : (k == k) ≡ true = ground arith in rw same (append-strip_prefix ks rest)

pub keyword_cases :
    (keyword bs : Bytes)
    → ((consume_keyword bs keyword ≡ none) × (¬ HasKeyword keyword bs))
      ⊎ ((consume_keyword bs keyword ≡ some (length keyword)) × HasKeyword keyword bs)
unfolding consume_keyword
keyword_cases keyword bs = elim (Option-cases (strip_prefix bs keyword)) [
  | inl e ↦ inl (
    rw e refl,
    λ (rest, same, _). let hit = append-strip_prefix keyword rest in let miss = rw same at e in cc,
  )
  | inr (rest, e) ↦
      let same = strip_prefix-append bs keyword rest e in
      elim (Bool-cases (continues rest)) [
        | inl c ↦ inl (
          rw (e, c) refl,
          λ (other, same', stop).
              let hit = append-strip_prefix keyword other in
              let first = rw same' at e in
              let one : other ≡ rest = cc in let stop' = rw one at stop in cc,
        )
        | inr c ↦ inr (rw (e, c) refl, (rest, same, c))
      ]
]

pub shape_numbers-Ends :
    (keyword o g rest : Bytes) (start g_start at : ℕ)
    → HasKeyword keyword rest
    → Ends keyword o g rest start g_start at (shape_numbers o g start g_start (at + length keyword))
unfolding shape_numbers parse_u64_decimal
shape_numbers-Ends keyword o g rest start g_start at k =
    let wide = narrow-Narrows (2 ^ 32) o _ (omega arith) (decimal_loop-Reads 0 o) in
    let small = narrow-Narrows (2 ^ 16) g _ (omega arith) (decimal_loop-Reads 0 g) in
    elim (Option-cases (narrow (2 ^ 32) (decimal_loop 0 o))) [
      | inl e ↦ let h = rw e at wide in rw e (number_too_large k h)
      | inr (n, e) ↦
          let (is_n, low) = rw e at wide in
          elim (Option-cases (narrow (2 ^ 16) (decimal_loop 0 g))) [
            | inl e' ↦
                let h = rw e' at small in rw (e, e') (generation_too_large k (rw is_n at low) h)
            | inr (v, e') ↦
                let (is_v, low') = rw e' at small in
                rw (e, e', is_n, is_v) (shaped k (rw is_n at low) (rw is_v at low'))
          ]
    ]
