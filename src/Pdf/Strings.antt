-- ===== src/Pdf/Strings.antt =====
-- What the scanners of crates/presslint-pdf/src/source_utils.rs look for, by positions of the input.
pub mod Scanned
use presslint.Common.{
  ℕ, ◌+◌, ◌-◌, ◌%◌, ◌^◌, ◌≤◌, ◌<◌, ◌≡◌, ◌≢◌, inl, inr, ◌⊎◌, true, false, Option, none, some, Bytes,
  length, get_elem?, get_elem?-lt, arith,
}
use presslint.Pdf.Source.{is_pdf_whitespace}

-- From `i` on, with `depth` parentheses open, the literal string ends at the offset behind its last
-- parenthesis, or at none. A backslash takes the byte behind it along.
pub data LiteralEnds (input : Bytes) : ℕ → ℕ → Option ℕ → Type 0 where
  never : {i depth : ℕ} → length input ≤ i → LiteralEnds input i depth none
  escapes :
      {i depth : ℕ} {o : Option ℕ}
      → get_elem? input i ≡ some b'\\'
      → LiteralEnds input (i + 2) depth o
      → LiteralEnds input i depth o
  enters :
      {i depth : ℕ} {o : Option ℕ}
      → get_elem? input i ≡ some b'('
      → LiteralEnds input (i + 1) ((depth + 1) % 2 ^ 64) o
      → LiteralEnds input i depth o
  leaves :
      {i depth : ℕ} {o : Option ℕ}
      → get_elem? input i ≡ some b')'
      → (depth + 2 ^ 64 - 1) % 2 ^ 64 ≢ 0
      → LiteralEnds input (i + 1) ((depth + 2 ^ 64 - 1) % 2 ^ 64) o
      → LiteralEnds input i depth o
  closes :
      {i depth : ℕ}
      → get_elem? input i ≡ some b')'
      → (depth + 2 ^ 64 - 1) % 2 ^ 64 ≡ 0
      → LiteralEnds input i depth (some (i + 1))
  passes :
      {i depth : ℕ} {o : Option ℕ} (b : ℕ)
      → get_elem? input i ≡ some b
      → b ≢ b'\\'
      → b ≢ b'('
      → b ≢ b')'
      → LiteralEnds input (i + 1) depth o
      → LiteralEnds input i depth o

-- The first `>` from `i` on stands in front of the end, or there is none.
pub data HexEnds (input : Bytes) : ℕ → Option ℕ → Type 0 where
  lacks : {i : ℕ} → length input ≤ i → HexEnds input i none
  ends : {i : ℕ} → get_elem? input i ≡ some b'>' → HexEnds input i (some (i + 1))
  goes_on :
      {i : ℕ} {o : Option ℕ} (b : ℕ)
      → get_elem? input i ≡ some b
      → b ≢ b'>'
      → HexEnds input (i + 1) o
      → HexEnds input i o

-- The line from `i` on ends in front of a line break, or with the input.
pub data LineEnds (input : Bytes) : ℕ → ℕ → Type 0 where
  at_end : {i : ℕ} → length input ≤ i → LineEnds input i i
  at_break :
      {i : ℕ} (b : ℕ) → get_elem? input i ≡ some b → (b ≡ b'\r') ⊎ (b ≡ b'\n') → LineEnds input i i
  continues :
      {i next : ℕ} (b : ℕ)
      → get_elem? input i ≡ some b
      → b ≢ b'\r'
      → b ≢ b'\n'
      → LineEnds input (i + 1) next
      → LineEnds input i next

-- The white space from `i` on ends at the first other byte, or with the input.
pub data SpaceEnds (input : Bytes) : ℕ → ℕ → Type 0 where
  nothing : {i : ℕ} → length input ≤ i → SpaceEnds input i i
  significant :
      {i : ℕ} (b : ℕ)
      → get_elem? input i ≡ some b
      → is_pdf_whitespace b ≡ false
      → SpaceEnds input i i
  blank :
      {i next : ℕ} (b : ℕ)
      → get_elem? input i ≡ some b
      → is_pdf_whitespace b ≡ true
      → SpaceEnds input (i + 1) next
      → SpaceEnds input i next

pub literal_further :
    {input : Bytes} {i depth end : ℕ} → LiteralEnds input i depth (some end) → i < end
literal_further (escapes e h) = omega (arith, literal_further h)
literal_further (enters e h) = omega (arith, literal_further h)
literal_further (leaves e n h) = omega (arith, literal_further h)
literal_further (closes e z) = omega arith
literal_further (passes b e n1 n2 n3 h) = omega (arith, literal_further h)

pub hex_further : {input : Bytes} {i end : ℕ} → HexEnds input i (some end) → i < end
hex_further (ends e) = omega arith
hex_further (goes_on b e n h) = omega (arith, hex_further h)

-- At a percent sign, the line goes on behind it.
pub line_comment :
    {input : Bytes} {i next : ℕ}
    → get_elem? input i ≡ some b'%'
    → LineEnds input i next
    → LineEnds input (i + 1) next
line_comment {input} {i} g (at_end l) = let h = get_elem?-lt input i g in absurd (omega arith)
line_comment g (at_break b e (inl n)) = let same : b ≡ b'%' = cc in absurd (omega arith)
line_comment g (at_break b e (inr n)) = let same : b ≡ b'%' = cc in absurd (omega arith)
line_comment g (continues b e n n' h) = h

pub line_further : {input : Bytes} {i next : ℕ} → LineEnds input i next → i ≤ next
line_further (at_end e) = omega arith
line_further (at_break b e n) = omega arith
line_further (continues b e n n' h) = omega (arith, line_further h)
