-- ===== src/Paint/Operands.antt =====
-- crates/presslint-paint/src/operands.rs: the operands of a record, as numbers and names.
use presslint.Common.{
  ℕ, ◌+◌, Bool, false, not, ◌&&◌, Option, none, some, List, [], ◌∷◌, Bytes, length, get_elem?,
  get_range?, ◌==◌, if◌then◌else◌, Outcome, ok, err, ◌>>=◌, or_panic, ok_or,
}
use presslint.Types.{PdfName, ColorSpace}
use presslint.Syntax.Model.{ByteRange, OperandRecord, OperatorRecord}
use presslint.Paint.Floats.{ℤ, Float}
use presslint.Paint.Model.{
  Matrix, GraphicsColor, new_color, GraphicsWalkError, GraphicsWalkErrorKind, invalid_source_range,
  malformed_operand_count, malformed_numeric_operand, malformed_name_operand,
  non_finite_numeric_operand,
}

abbrev pub R : Type 0 → Type 0
R A = Outcome GraphicsWalkError A

-- `GraphicsWalkError::new`
abbrev pub walk_error : GraphicsWalkErrorKind → ByteRange → GraphicsWalkError
walk_error kind range = record { kind = kind; range = range }

unfoldable pub checked_source : Bytes → ByteRange → ByteRange → R Bytes
unfolding get_range?
checked_source source range error_range =
    ok_or (get_range? source range.start range.end) (walk_error invalid_source_range error_range)

abbrev pub malformed_numeric : Bytes → ℕ → ByteRange → GraphicsWalkError
malformed_numeric operator operand_index range =
    walk_error (malformed_numeric_operand operator operand_index) range

abbrev pub malformed_name : Bytes → ℕ → ByteRange → GraphicsWalkError
malformed_name operator operand_index range =
    walk_error (malformed_name_operand operator operand_index) range

unfoldable pub expect_operands : Bytes → OperatorRecord → ℕ → R (Unit {0})
expect_operands operator r expected =
    if length r.operands == expected
    then ok tt
    else err (walk_error (malformed_operand_count operator expected (length r.operands)) r.range)

-- A name in `bytes` behind its `/`; the test `bytes.len() <= 1 || bytes[0] != b'/'` fails first.
unfoldable pub name_of : Bytes → Option PdfName
name_of [] = none
name_of (c ∷ []) = none
name_of (c ∷ d ∷ cs) = if c == b'/' then some (d ∷ cs) else none

-- The checks on a name operand, in `name_operand` and in `font_operands`.
unfoldable pub name_at : Bytes → Bytes → OperandRecord → R PdfName
unfolding checked_source name_of
name_at source operator operand =
    if not (length operand.tokens == 1)
    then err (malformed_name operator 0 operand.range)
    else (checked_source source operand.range operand.range >>= λ bytes.
        ok_or (name_of bytes) (malformed_name operator 0 operand.range))

unfoldable pub name_operand : Bytes → Bytes → OperatorRecord → R PdfName
unfolding expect_operands name_at
name_operand source operator r = do
  _ ← expect_operands operator r 1
  operand ← or_panic (get_elem? r.operands 0)
  name_at source operator operand

module _ (f : Float) where
  open f use {Num, add, mul, is_finite, parse, not_an_i32, as_i32}

  unfoldable pub parse_finite_number : Bytes → ℕ → OperandRecord → Bytes → R Num
  parse_finite_number operator operand_index operand bytes =
      if not (length operand.tokens == 1)
      then err (malformed_numeric operator operand_index operand.range)
      else (ok_or (parse bytes) (malformed_numeric operator operand_index operand.range)
          >>= λ value.
              if not (is_finite value)
              then err
                  (walk_error (non_finite_numeric_operand operator operand_index) operand.range)
              else ok value)

  -- The closure of `numeric_operands_vec`.
  unfoldable pub numeric_at : Bytes → Bytes → ℕ → OperandRecord → R Num
  unfolding checked_source
  numeric_at source operator operand_index operand =
      if not (length operand.tokens == 1)
      then err (malformed_numeric operator operand_index operand.range)
      else (checked_source source operand.range operand.range >>= λ bytes.
          parse_finite_number operator operand_index operand bytes)

  -- `.enumerate().map(..).collect()`
  unfoldable pub numeric_loop : Bytes → Bytes → ℕ → List OperandRecord → R (List Num)
  unfolding numeric_at parse_finite_number
  numeric_loop source operator operand_index [] = ok []
  numeric_loop source operator operand_index (operand ∷ operands) = do
    value ← numeric_at source operator operand_index operand
    rest ← numeric_loop source operator (operand_index + 1) operands
    ok (value ∷ rest)

  unfoldable pub numeric_operands_vec : Bytes → Bytes → OperatorRecord → ℕ → R (List Num)
  unfolding expect_operands numeric_loop
  numeric_operands_vec source operator r expected = do
    _ ← expect_operands operator r expected
    numeric_loop source operator 0 r.operands

  unfoldable pub device_color :
      Bytes → Bytes → OperatorRecord → ColorSpace → ℕ → R (GraphicsColor Num)
  unfolding numeric_operands_vec
  device_color source operator r space count = do
    components ← numeric_operands_vec source operator r count
    ok (new_color space components)

  unfoldable pub numeric_operands : Bytes → Bytes → OperatorRecord → ℕ → R (Matrix Num)
  unfolding numeric_operands_vec
  numeric_operands source operator r expected = do
    operands ← numeric_operands_vec source operator r expected
    a ← or_panic (get_elem? operands 0)
    b ← or_panic (get_elem? operands 1)
    c ← or_panic (get_elem? operands 2)
    d ← or_panic (get_elem? operands 3)
    e ← or_panic (get_elem? operands 4)
    g ← or_panic (get_elem? operands 5)
    ok (record { a = a; b = b; c = c; d = d; e = e; f = g })

  unfoldable pub integer_operand : Bytes → Bytes → OperatorRecord → R ℤ
  unfolding numeric_operands_vec
  integer_operand source operator r = do
    operands ← numeric_operands_vec source operator r 1
    value ← or_panic (get_elem? operands 0)
    if not_an_i32 value
        then (or_panic (get_elem? r.operands 0) >>= λ operand.
            err (malformed_numeric operator 0 operand.range))
        else ok (as_i32 value)

  unfoldable pub font_operands : Bytes → Bytes → OperatorRecord → R (PdfName × Num)
  unfolding expect_operands name_at numeric_at parse_finite_number
  font_operands source operator r = do
    _ ← expect_operands operator r 2
    name_operand ← or_panic (get_elem? r.operands 0)
    name ← name_at source operator name_operand
    size_operand ← or_panic (get_elem? r.operands 1)
    size ← numeric_at source operator 1 size_operand
    ok (name, size)

  -- A pattern name at the front: `bytes.first() == Some(&b'/')`.
  abbrev pub starts_name : Bytes → Bool
  starts_name [] = false
  starts_name (c ∷ cs) = c == b'/'

  -- The loop of `color_operands`, after components `done`.
  unfoldable pub color_loop :
      Bytes → Bytes → ℕ → List OperandRecord → Option PdfName → R (List Num × Option PdfName)
  unfolding checked_source name_of parse_finite_number
  color_loop source operator operand_index [] pattern_name = ok ([], pattern_name)
  color_loop source operator operand_index (operand ∷ operands) (some name) =
      err (malformed_numeric operator operand_index operand.range)
  color_loop source operator operand_index (operand ∷ operands) none = do
    bytes ← checked_source source operand.range operand.range
    let named =
        ok_or (name_of bytes) (malformed_name operator operand_index operand.range) >>= λ name.
        color_loop source operator (operand_index + 1) operands (some name)
    let plain = do
      value ← parse_finite_number operator operand_index operand bytes
      (rest, pattern_name) ← color_loop source operator (operand_index + 1) operands none
      ok (value ∷ rest, pattern_name)
    if length operand.tokens == 1 && starts_name bytes then named else plain

  unfoldable pub color_operands : Bytes → Bytes → OperatorRecord → R (List Num × Option PdfName)
  unfolding color_loop
  color_operands source operator r = color_loop source operator 0 r.operands none

  unfoldable pub concat_matrices : Matrix Num → Matrix Num → Matrix Num
  concat_matrices m n = record {
    a = add (mul m.a n.a) (mul m.b n.c);
    b = add (mul m.a n.b) (mul m.b n.d);
    c = add (mul m.c n.a) (mul m.d n.c);
    d = add (mul m.c n.b) (mul m.d n.d);
    e = add (add (mul m.e n.a) (mul m.f n.c)) n.e;
    f = add (add (mul m.e n.b) (mul m.f n.d)) n.f;
  }
