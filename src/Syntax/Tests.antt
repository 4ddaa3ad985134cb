-- ===== src/Syntax/Tests.antt =====
-- Runs of the content-stream functions, and the theorems at a small stream.
use presslint.Common.{◌≡◌, refl, ◌↔◌, List, [], ◌∷◌, Bytes, codes, length, ok, err}
use presslint.Syntax.Model.{
  Token, TokenKind, NumberKind, TriviaKind, Delimiter, TokenizeErrorKind, AssembleError,
  SerializeError,
}
use presslint.Syntax.Tokenizer.{tokenize, token, unterminated}
use presslint.Syntax.Serializer.{serialize_tokens_unmodified}
use presslint.Syntax.Serializer.Exact.{
  Spans, serialize_tokens_unmodified_iff, serialize_tokens_unmodified-tokenize,
}
use presslint.Syntax.Assembler.{assemble_operators}

abbrev sample : Bytes
sample = codes "[1 .5]0 d%x"

abbrev sample_tokens : List Token
sample_tokens =
    token (TokenKind.delimiter Delimiter.array_open) 0 1
    ∷ token (TokenKind.number NumberKind.integer) 1 2
    ∷ token (TokenKind.trivia TriviaKind.whitespace) 2 3
    ∷ token (TokenKind.number NumberKind.real) 3 5
    ∷ token (TokenKind.delimiter Delimiter.array_close) 5 6
    ∷ token (TokenKind.number NumberKind.integer) 6 7
    ∷ token (TokenKind.trivia TriviaKind.whitespace) 7 8
    ∷ token TokenKind.operator 8 9
    ∷ token (TokenKind.trivia TriviaKind.comment) 9 11
    ∷ []

tokenize-sample : tokenize sample ≡ ok sample_tokens
unfolding tokenize
tokenize-sample = refl

-- An escaped parenthesis does not close a literal string.
stray_open :
    tokenize (codes "q (a\\)")
    ≡ err (unterminated TokenizeErrorKind.unterminated_literal_string (codes "q (a\\)") 2)
unfolding tokenize
stray_open = refl

assemble_stray_close :
    assemble_operators (token (TokenKind.delimiter Delimiter.array_close) 0 1 ∷ [])
    ≡ err (AssembleError.unmatched_array_close 0 (record { start = 0; end = 1 }))
unfolding assemble_operators
assemble_stray_close = refl

assemble_trailing :
    assemble_operators (token TokenKind.operator 0 1 ∷ token TokenKind.null 1 5 ∷ [])
    ≡ err (AssembleError.trailing_operands 1 (record { start = 1; end = 5 }))
unfolding assemble_operators
assemble_trailing = refl

serialize_gap :
    serialize_tokens_unmodified (codes "ab") (token TokenKind.operator 1 2 ∷ [])
    ≡ err (SerializeError.non_contiguous_range 0 0 1)
unfolding serialize_tokens_unmodified
serialize_gap = refl

serialize_tokens_unmodified_iff_example :
    (serialize_tokens_unmodified sample sample_tokens ≡ ok sample)
    ↔ ((sample ≡ sample) × Spans 0 (length sample) sample_tokens)
serialize_tokens_unmodified_iff_example =
    serialize_tokens_unmodified_iff sample sample_tokens sample

serialize_tokens_unmodified-tokenize_example :
    serialize_tokens_unmodified sample sample_tokens ≡ ok sample
serialize_tokens_unmodified-tokenize_example =
    serialize_tokens_unmodified-tokenize sample tokenize-sample
