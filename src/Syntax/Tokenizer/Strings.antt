-- ===== src/Syntax/Tokenizer/Strings.antt =====
-- Where a string of a PDF ends: literal strings with balanced parentheses and escapes, and
-- hexadecimal strings.
use presslint.Common.{
  ℕ, ◌+◌, ◌-◌, ◌%◌, ◌^◌, ◌≤◌, ◌<◌, ◌≡◌, ◌≢◌, some, Bytes, length, get_elem?, get_elem?-lt, arith,
}
use presslint.Syntax.Model.{TokenizeError, TokenizeErrorKind}
use presslint.Syntax.Tokenizer.{unterminated}

-- From `i` on, with `depth` parentheses open, the string closes at `end`. A backslash takes the byte
-- behind it along; the count of open parentheses is a word with `words` values.
pub data LiteralCloses (words : ℕ) (input : Bytes) : ℕ → ℕ → ℕ → Type 0 where
  escapes :
      {i depth end : ℕ}
      → get_elem? input i ≡ some b'\\'
      → LiteralCloses words input (i + 2) depth end
      → LiteralCloses words input i depth end
  enters :
      {i depth end : ℕ}
      → get_elem? input i ≡ some b'('
      → LiteralCloses words input (i + 1) ((depth + 1) % words) end
      → LiteralCloses words input i depth end
  leaves :
      {i depth end : ℕ}
      → get_elem? input i ≡ some b')'
      → (depth + words - 1) % words ≢ 0
      → LiteralCloses words input (i + 1) ((depth + words - 1) % words) end
      → LiteralCloses words input i depth end
  closes :
      {i depth : ℕ}
      → get_elem? input i ≡ some b')'
      → (depth + words - 1) % words ≡ 0
      → LiteralCloses words input i depth (i + 1)
  passes :
      {i depth end : ℕ} (b : ℕ)
      → get_elem? input i ≡ some b
      → b ≢ b'\\'
      → b ≢ b'('
      → b ≢ b')'
      → LiteralCloses words input (i + 1) depth end
      → LiteralCloses words input i depth end

-- The first `>` from `i` on stands in front of `end`.
pub data HexCloses (input : Bytes) : ℕ → ℕ → Type 0 where
  ends : {i : ℕ} → get_elem? input i ≡ some b'>' → HexCloses input i (i + 1)
  goes_on :
      {i end : ℕ} (b : ℕ)
      → get_elem? input i ≡ some b
      → b ≢ b'>'
      → HexCloses input (i + 1) end
      → HexCloses input i end

-- The string opened in front of `i` closes nowhere.
abbrev pub NeverCloses : Bytes → ℕ → ℕ → Type 0
NeverCloses input i depth = (end : ℕ) → ¬ LiteralCloses (2 ^ 32) input i depth end

abbrev pub LiteralError : Bytes → ℕ → ℕ → ℕ → TokenizeError → Type 0
LiteralError input start i depth e =
    (e ≡ unterminated TokenizeErrorKind.unterminated_literal_string input start)
    × NeverCloses input i depth

abbrev pub HexError : Bytes → ℕ → ℕ → TokenizeError → Type 0
HexError input start i e =
    (e ≡ unterminated TokenizeErrorKind.unterminated_hex_string input start)
    × ((end : ℕ) → ¬ HexCloses input i end)

-- A string of the error's kind is opened at the start of the error's range, and closes nowhere.
abbrev pub Unclosed : Bytes → ℕ → TokenizeErrorKind → Type 0
Unclosed input start TokenizeErrorKind.unterminated_literal_string =
    (get_elem? input start ≡ some b'(') × NeverCloses input (start + 1) 1
Unclosed input start TokenizeErrorKind.unterminated_hex_string =
    (get_elem? input start ≡ some b'<') × ((end : ℕ) → ¬ HexCloses input (start + 1) end)

abbrev pub IsUnterminated : Bytes → TokenizeError → Type 0
IsUnterminated input e = Unclosed input e.range.start e.kind × (e.range.end ≡ length input)

-- A string closes behind its opening byte, and within the input.
pub literal_within :
    {words : ℕ} {input : Bytes} {i depth end : ℕ}
    → LiteralCloses words input i depth end
    → (i < end) × (end ≤ length input)
literal_within (escapes e h) = let (a, b) = literal_within h in (omega arith, b)
literal_within (enters e h) = let (a, b) = literal_within h in (omega arith, b)
literal_within (leaves e n h) = let (a, b) = literal_within h in (omega arith, b)
literal_within {input} {i} (closes e z) = (omega arith, omega (arith, get_elem?-lt input i e))
literal_within (passes c e n1 n2 n3 h) = let (a, b) = literal_within h in (omega arith, b)

pub hex_within :
    {input : Bytes} {i end : ℕ} → HexCloses input i end → (i < end) × (end ≤ length input)
hex_within {input} {i} (ends e) = (omega arith, omega (arith, get_elem?-lt input i e))
hex_within (goes_on b e n h) = let (a, c) = hex_within h in (omega arith, c)
