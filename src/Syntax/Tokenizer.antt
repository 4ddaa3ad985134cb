-- ===== src/Syntax/Tokenizer.antt =====
-- crates/presslint-syntax/src/tokenizer.rs. A `while` loop over `offset` takes the length of the
-- input as fuel, since each round moves `offset` forward. `offset.saturating_add(2)` is written as
-- a sum: an offset is below the length of a slice, which Rust keeps below 2^63.
pub mod Strings
pub mod Scanned
pub mod Bounds
pub mod Lexeme
pub mod Cover
use presslint.Common.{
  ℕ, zero, suc, ◌+◌, ◌-◌, ◌%◌, ◌^◌, Bool, true, false, not, ◌&&◌, ◌||◌, Option, none, some, List,
  [], ◌∷◌, Bytes, codes, bytes_eq, contains, length, get_elem?, slice, leb, ◌==◌, if◌then◌else◌,
  Outcome, ok, err, stuck, ◌>>=◌,
}
use presslint.Syntax.Model.{
  TriviaKind, NumberKind, StringKind, Delimiter, Keyword, TokenKind, Token, TokenizeError,
  TokenizeErrorKind,
}

unfoldable pub is_whitespace : ℕ → Bool
is_whitespace byte =
    byte == 0x00 || byte == b'\t' || byte == b'\n' || byte == 0x0c || byte == b'\r' || byte == b' '

unfoldable pub is_delimiter : ℕ → Bool
is_delimiter byte =
    byte == b'('
    || byte == b')'
    || byte == b'<'
    || byte == b'>'
    || byte == b'['
    || byte == b']'
    || byte == b'{'
    || byte == b'}'
    || byte == b'/'
    || byte == b'%'

unfoldable pub is_eol : ℕ → Bool
is_eol byte = byte == b'\r' || byte == b'\n'

unfoldable pub is_not_eol : ℕ → Bool
is_not_eol byte = not (is_eol byte)

-- `input.get(offset) == Some(&byte)`
unfoldable pub byte_is : Bytes → ℕ → ℕ → Bool
byte_is input offset byte = elim (get_elem? input offset) [ none ↦ false | some b ↦ b == byte ]

-- `while offset < input.len() && go(input[offset]) { offset += 1; }`
unfoldable pub skip_while : (ℕ → Bool) → Bytes → ℕ → ℕ → ℕ
skip_while go input zero offset = offset
skip_while go input (suc fuel) offset = elim (get_elem? input offset) [
  | none ↦ offset
  | some b ↦ let rest = skip_while go input fuel (offset + 1) in if go b then rest else offset
]

abbrev pub unterminated : TokenizeErrorKind → Bytes → ℕ → TokenizeError
unterminated kind input start = record {
  kind = kind;
  range = record { start = start; end = length input };
}

-- One round of the loop of `scan_literal_string`; `depth` is a `u32`.
pub record LiteralState : Type 0 where
  pub offset : ℕ
  pub depth : ℕ
  pub closed : Bool

unfoldable pub literal_round : ℕ → ℕ → ℕ → LiteralState
literal_round byte offset depth =
    if byte == b'\\'
    then record { offset = offset + 2; depth = depth; closed = false }
    else if byte == b'('
    then record { offset = offset + 1; depth = (depth + 1) % 2 ^ 32; closed = false }
    else if byte == b')'
    then (let deeper = (depth + 2 ^ 32 - 1) % 2 ^ 32 in
        record { offset = offset + 1; depth = deeper; closed = deeper == 0 })
    else record { offset = offset + 1; depth = depth; closed = false }

unfoldable pub literal_loop : Bytes → ℕ → ℕ → ℕ → ℕ → Outcome TokenizeError ℕ
literal_loop input start zero offset depth = stuck
literal_loop input start (suc fuel) offset depth = elim (get_elem? input offset) [
  | none ↦ err (unterminated TokenizeErrorKind.unterminated_literal_string input start)
  | some byte ↦
      let s = literal_round byte offset depth in
      let rest = literal_loop input start fuel s.offset s.depth in
      if s.closed then ok s.offset else rest
]

unfoldable pub scan_literal_string : Bytes → ℕ → Outcome TokenizeError ℕ
scan_literal_string input start = literal_loop input start (length input) (start + 1) 1

unfoldable pub hex_loop : Bytes → ℕ → ℕ → ℕ → Outcome TokenizeError ℕ
hex_loop input start zero offset = stuck
hex_loop input start (suc fuel) offset = elim (get_elem? input offset) [
  | none ↦ err (unterminated TokenizeErrorKind.unterminated_hex_string input start)
  | some byte ↦
      let rest = hex_loop input start fuel (offset + 1) in
      if byte == b'>' then ok (offset + 1) else rest
]

unfoldable pub scan_hex_string : Bytes → ℕ → Outcome TokenizeError ℕ
scan_hex_string input start = hex_loop input start (length input) (start + 1)

-- The argument `byte` is `input[offset]`.
unfoldable pub scan_delimiter : Bytes → ℕ → ℕ → Option (Delimiter × ℕ)
scan_delimiter input offset byte =
    if byte == b'['
    then some (Delimiter.array_open, offset + 1)
    else if byte == b']'
    then some (Delimiter.array_close, offset + 1)
    else if byte == b'<' && byte_is input (offset + 1) b'<'
    then some (Delimiter.dictionary_open, offset + 2)
    else if byte == b'>' && byte_is input (offset + 1) b'>'
    then some (Delimiter.dictionary_close, offset + 2)
    else none

unfoldable pub is_digit : ℕ → Bool
is_digit c = leb b'0' c && leb c b'9'

-- The loop of `is_number_lexeme` over the bytes that are left.
unfoldable pub number_loop : Bytes → Bool → Bool → Bool
number_loop [] saw_digit saw_dot = saw_digit
number_loop (c ∷ cs) saw_digit saw_dot =
    let after_digit = number_loop cs true saw_dot in
    let after_dot = number_loop cs saw_digit true in
    if is_digit c then after_digit else if c == b'.' && not saw_dot then after_dot else false

unfoldable pub is_number_lexeme : Bytes → Bool
is_number_lexeme [] = false
is_number_lexeme (c ∷ []) =
    if c == b'+' || c == b'-' then false else number_loop (c ∷ []) false false
is_number_lexeme (c ∷ d ∷ cs) =
    if c == b'+' || c == b'-'
    then number_loop (d ∷ cs) false false
    else number_loop (c ∷ d ∷ cs) false false

unfoldable pub starts_with_slash : Bytes → Bool
starts_with_slash [] = false
starts_with_slash (c ∷ cs) = c == b'/'

unfoldable pub classify_regular_token : Bytes → TokenKind
classify_regular_token bytes =
    if bytes_eq bytes (codes "true") || bytes_eq bytes (codes "false")
    then TokenKind.boolean
    else if bytes_eq bytes (codes "null")
    then TokenKind.null
    else if bytes_eq bytes (codes "obj")
    then TokenKind.keyword Keyword.object_begin
    else if bytes_eq bytes (codes "endobj")
    then TokenKind.keyword Keyword.object_end
    else if bytes_eq bytes (codes "stream")
    then TokenKind.keyword Keyword.stream_begin
    else if bytes_eq bytes (codes "endstream")
    then TokenKind.keyword Keyword.stream_end
    else if starts_with_slash bytes
    then TokenKind.name
    else if is_number_lexeme bytes
    then (if contains b'.' bytes
        then TokenKind.number NumberKind.real
        else TokenKind.number NumberKind.integer)
    else TokenKind.operator

abbrev pub token : TokenKind → ℕ → ℕ → Token
token kind start end = record { kind = kind; range = record { start = start; end = end } }

unfoldable pub is_regular : ℕ → Bool
is_regular byte = not (is_whitespace byte) && not (is_delimiter byte)

-- The last two branches of the loop's body: a delimiter, or a regular token.
unfoldable pub delimiter_or_regular : Bytes → ℕ → Option (Delimiter × ℕ) → Token
delimiter_or_regular input offset (some (kind, end)) = token (TokenKind.delimiter kind) offset end
delimiter_or_regular input offset none =
    let end = skip_while is_regular input (length input) (offset + 1) in
    token (classify_regular_token (slice input offset end)) offset end

-- The body of the loop of `tokenize`: the token that starts with `byte` at `offset`.
unfoldable pub next_token : Bytes → ℕ → ℕ → Outcome TokenizeError Token
next_token input offset byte =
    if is_whitespace byte
    then (ok (
        token (TokenKind.trivia TriviaKind.whitespace) offset
          (skip_while is_whitespace input (length input) (offset + 1))))
    else if byte == b'%'
    then (ok (
        token (TokenKind.trivia TriviaKind.comment) offset
          (skip_while is_not_eol input (length input) (offset + 1))))
    else if byte == b'('
    then (scan_literal_string input offset >>= λ end.
        ok (token (TokenKind.string StringKind.literal) offset end))
    else if byte == b'<' && not (byte_is input (offset + 1) b'<')
    then (scan_hex_string input offset >>= λ end.
        ok (token (TokenKind.string StringKind.hexadecimal) offset end))
    else ok (delimiter_or_regular input offset (scan_delimiter input offset byte))

unfoldable pub tokenize_loop : Bytes → ℕ → ℕ → Outcome TokenizeError (List Token)
tokenize_loop input zero offset = elim (get_elem? input offset) [ none ↦ ok [] | some _ ↦ stuck ]
tokenize_loop input (suc fuel) offset = elim (get_elem? input offset) [
  | none ↦ ok []
  | some byte ↦ do
    t ← next_token input offset byte
    rest ← tokenize_loop input fuel t.range.end
    ok (t ∷ rest)
]

unfoldable pub tokenize : Bytes → Outcome TokenizeError (List Token)
unfolding is_whitespace is_delimiter is_regular is_eol is_not_eol byte_is skip_while literal_round
    literal_loop scan_literal_string hex_loop scan_hex_string scan_delimiter is_digit number_loop
    is_number_lexeme starts_with_slash classify_regular_token bytes_eq contains delimiter_or_regular
    next_token tokenize_loop
tokenize input = tokenize_loop input (length input) 0
