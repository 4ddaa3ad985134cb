-- ===== src/Syntax/Model.antt =====
-- crates/presslint-syntax/src/model.rs, and `ByteRange` of crates/presslint-types/src/lib.rs.
use presslint.Common.{ℕ, Option, List, Bytes, get_range?}

-- `start..end` in a source.
pub record ByteRange : Type 0 where
  pub start : ℕ
  pub end : ℕ

pub data TriviaKind : Type 0 where
  whitespace comment : TriviaKind

pub data NumberKind : Type 0 where
  integer real : NumberKind

pub data StringKind : Type 0 where
  literal hexadecimal : StringKind

pub data Delimiter : Type 0 where
  array_open array_close dictionary_open dictionary_close : Delimiter

pub data Keyword : Type 0 where
  object_begin object_end stream_begin stream_end : Keyword

pub data TokenKind : Type 0 where
  trivia : TriviaKind → TokenKind
  boolean : TokenKind
  null : TokenKind
  number : NumberKind → TokenKind
  string : StringKind → TokenKind
  name : TokenKind
  delimiter : Delimiter → TokenKind
  keyword : Keyword → TokenKind
  operator : TokenKind

pub record Token : Type 0 where
  pub kind : TokenKind
  pub range : ByteRange

-- `Token::source_bytes`
unfoldable pub source_bytes : Token → Bytes → Option Bytes
source_bytes t source = get_range? source t.range.start t.range.end

pub data TokenizeErrorKind : Type 0 where
  unterminated_literal_string unterminated_hex_string : TokenizeErrorKind

pub record TokenizeError : Type 0 where
  pub kind : TokenizeErrorKind
  pub range : ByteRange

pub record TokenRef : Type 0 where
  pub token_index : ℕ
  pub range : ByteRange

pub record OperandRecord : Type 0 where
  pub tokens : List TokenRef
  pub range : ByteRange

pub record OperatorRecord : Type 0 where
  pub operator : TokenRef
  pub operands : List OperandRecord
  pub trivia : List TokenRef
  pub range : ByteRange

pub record AssembledContentStream : Type 0 where
  pub records : List OperatorRecord
  pub trivia : List TokenRef

pub data AssembleError : Type 0 where
  invalid_token_range : ℕ → ByteRange → AssembleError
  trailing_operands : ℕ → ByteRange → AssembleError
  unmatched_array_close : ℕ → ByteRange → AssembleError
  unmatched_dictionary_close : ℕ → ByteRange → AssembleError
  mismatched_delimiter : ℕ → ByteRange → AssembleError
  unterminated_composite_operand : ℕ → ByteRange → AssembleError
  operator_inside_composite_operand : ℕ → ByteRange → AssembleError
  unexpected_keyword : ℕ → ByteRange → AssembleError

pub data SerializeError : Type 0 where
  invalid_range : ℕ → ByteRange → SerializeError
  non_contiguous_range : ℕ → ℕ → ℕ → SerializeError
