-- ===== src/Syntax/Serializer.antt =====
-- crates/presslint-syntax/src/serializer.rs: the tokens of an unmodified stream back to bytes.
pub mod Exact
use presslint.Common.{
  ℕ, ◌+◌, Bool, not, Option, none, some, List, [], ◌∷◌, ◌++◌, Bytes, length, ◌==◌, if◌then◌else◌,
  Outcome, ok, err,
}
use presslint.Syntax.Model.{
  Token, source_bytes, SerializeError, invalid_range, non_contiguous_range,
}

unfoldable pub serialize_loop : Bytes → ℕ → ℕ → Bytes → List Token → Outcome SerializeError Bytes
serialize_loop source token_index expected_start output [] =
    if not (expected_start == length source)
    then err (non_contiguous_range token_index expected_start (length source))
    else ok output
serialize_loop source token_index expected_start output (t ∷ ts) =
    if not (t.range.start == expected_start)
    then err (non_contiguous_range token_index expected_start t.range.start)
    else elim (source_bytes t source) [
      | none ↦ err (invalid_range token_index t.range)
      | some bytes ↦ serialize_loop source (token_index + 1) t.range.end (output ++ bytes) ts
    ]

unfoldable pub serialize_tokens_unmodified : Bytes → List Token → Outcome SerializeError Bytes
unfolding serialize_loop
serialize_tokens_unmodified source tokens = serialize_loop source 0 0 [] tokens
