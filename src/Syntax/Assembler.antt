-- ===== src/Syntax/Assembler.antt =====
-- crates/presslint-syntax/src/assembler.rs. A function with a `&mut usize` index or a `&mut Vec`
-- returns their new values. A loop takes the number of tokens as fuel: each round, and each
-- nested call, moves the index forward.
pub mod Grammar
pub mod Refs
pub mod Composite
pub mod Operand
pub mod Tally
pub mod Conserve
use presslint.Common.{
  ℕ, zero, suc, ◌+◌, ◌-◌, Bool, true, false, Option, none, some, List, [], ◌∷◌, ◌++◌, length,
  get_elem?, ltb, if◌then◌else◌, Outcome, ok, err, panic, stuck, ◌>>=◌, or_panic,
}
use presslint.Syntax.Model.{
  ByteRange, Token, TokenKind, Delimiter, TokenRef, OperandRecord, OperatorRecord,
  AssembledContentStream, AssembleError, invalid_token_range, trailing_operands,
  unmatched_array_close, unmatched_dictionary_close, mismatched_delimiter,
  unterminated_composite_operand, operator_inside_composite_operand, unexpected_keyword,
}

unfoldable pub checked_token_ref : List Token → ℕ → Outcome AssembleError TokenRef
checked_token_ref tokens token_index = do
  t ← or_panic (get_elem? tokens token_index)
  if ltb t.range.end t.range.start
      then err (invalid_token_range token_index t.range)
      else ok (record { token_index = token_index; range = t.range })

-- `close == expected_close`
unfoldable pub delimiter_eq : Delimiter → Delimiter → Bool
delimiter_eq Delimiter.array_open Delimiter.array_open = true
delimiter_eq Delimiter.array_close Delimiter.array_close = true
delimiter_eq Delimiter.dictionary_open Delimiter.dictionary_open = true
delimiter_eq Delimiter.dictionary_close Delimiter.dictionary_close = true
delimiter_eq _ _ = false

-- The arms of the match in `append_composite_operand`.
pub data Inner : Type 0 where
  item : Inner
  nested : Delimiter → Inner
  closing : Delimiter → Inner
  misplaced_operator misplaced_keyword : Inner

unfoldable pub inner_arm : TokenKind → Inner
inner_arm (TokenKind.trivia _) = item
inner_arm TokenKind.boolean = item
inner_arm TokenKind.null = item
inner_arm (TokenKind.number _) = item
inner_arm (TokenKind.string _) = item
inner_arm TokenKind.name = item
inner_arm (TokenKind.delimiter Delimiter.array_open) = nested Delimiter.array_close
inner_arm (TokenKind.delimiter Delimiter.dictionary_open) = nested Delimiter.dictionary_close
inner_arm (TokenKind.delimiter Delimiter.array_close) = closing Delimiter.array_close
inner_arm (TokenKind.delimiter Delimiter.dictionary_close) = closing Delimiter.dictionary_close
inner_arm TokenKind.operator = misplaced_operator
inner_arm (TokenKind.keyword _) = misplaced_keyword

-- The index and the `refs` behind a composite operand.
pub record Appended : Type 0 where
  pub index : ℕ
  pub refs : List TokenRef

-- The loop of `append_composite_operand`.
abbrev pub Loop : Type 0
Loop = TokenRef → ℕ → Delimiter → List TokenRef → Outcome AssembleError Appended

-- `append_composite_operand` over its own loop, which takes the open token's reference, the
-- index, the expected delimiter and `refs`.
unfoldable pub append_with :
    Loop → List Token → ℕ → Delimiter → List TokenRef → Outcome AssembleError Appended
append_with loop tokens index expected_close refs = do
  open_ref ← checked_token_ref tokens index
  loop open_ref (index + 1) expected_close (refs ++ open_ref ∷ [])

-- The match in the loop, over the rest of the loop.
unfoldable pub composite_arm :
    Loop
    → List Token
    → TokenRef
    → ℕ
    → Delimiter
    → List TokenRef
    → TokenRef
    → Inner
    → Outcome AssembleError Appended
composite_arm loop tokens open_ref index expected_close refs token_ref item =
    loop open_ref (index + 1) expected_close (refs ++ token_ref ∷ [])
composite_arm loop tokens open_ref index expected_close refs token_ref (nested close) = do
  a ← append_with loop tokens index close refs
  loop open_ref a.index expected_close a.refs
composite_arm loop tokens open_ref index expected_close refs token_ref (closing close) =
    if delimiter_eq close expected_close
    then ok (record { index = index + 1; refs = refs ++ token_ref ∷ [] })
    else err (mismatched_delimiter index token_ref.range)
composite_arm loop tokens open_ref index expected_close refs token_ref misplaced_operator =
    err (operator_inside_composite_operand index token_ref.range)
composite_arm loop tokens open_ref index expected_close refs token_ref misplaced_keyword =
    err (unexpected_keyword index token_ref.range)

unfoldable pub composite_loop : List Token → ℕ → Loop
composite_loop tokens zero open_ref index expected_close refs = stuck
composite_loop tokens (suc fuel) open_ref index expected_close refs =
    elim (get_elem? tokens index) [
      | none ↦ err (unterminated_composite_operand open_ref.token_index open_ref.range)
      | some t ↦ do
        token_ref ← checked_token_ref tokens index
        composite_arm (composite_loop tokens fuel) tokens open_ref index expected_close refs
            token_ref (inner_arm t.kind)
    ]

unfoldable pub append_composite_operand :
    List Token → ℕ → Delimiter → List TokenRef → Outcome AssembleError Appended
append_composite_operand tokens = append_with (composite_loop tokens (length tokens)) tokens

unfoldable pub operand_from_refs : List TokenRef → Outcome AssembleError OperandRecord
operand_from_refs refs = do
  first ← or_panic (get_elem? refs 0)
  last ← or_panic (get_elem? refs (length refs - 1))
  ok (record { tokens = refs; range = record { start = first.range.start; end = last.range.end } })

-- An operand, and the index behind it.
pub record Parsed : Type 0 where
  pub index : ℕ
  pub operand : OperandRecord

unfoldable pub parse_composite_operand : List Token → ℕ → Delimiter → Outcome AssembleError Parsed
parse_composite_operand tokens index expected_close = do
  a ← append_composite_operand tokens index expected_close []
  operand ← operand_from_refs a.refs
  ok (record { index = a.index; operand = operand })

abbrev single : ℕ → TokenRef → Outcome AssembleError Parsed
single index first =
    ok (record { index = index + 1; operand = record { tokens = first ∷ []; range = first.range } })

-- The match in `parse_operand_record`; the last arm is `unreachable!`.
unfoldable pub parse_operand_of :
    TokenKind → List Token → ℕ → TokenRef → Outcome AssembleError Parsed
parse_operand_of TokenKind.boolean tokens index first = single index first
parse_operand_of TokenKind.null tokens index first = single index first
parse_operand_of (TokenKind.number _) tokens index first = single index first
parse_operand_of (TokenKind.string _) tokens index first = single index first
parse_operand_of TokenKind.name tokens index first = single index first
parse_operand_of (TokenKind.delimiter Delimiter.array_open) tokens index first =
    parse_composite_operand tokens index Delimiter.array_close
parse_operand_of (TokenKind.delimiter Delimiter.dictionary_open) tokens index first =
    parse_composite_operand tokens index Delimiter.dictionary_close
parse_operand_of _ tokens index first = panic

unfoldable pub parse_operand_record : List Token → ℕ → Outcome AssembleError Parsed
parse_operand_record tokens index = do
  first ← checked_token_ref tokens index
  t ← or_panic (get_elem? tokens index)
  parse_operand_of t.kind tokens index first

-- The variables of the loop of `assemble_operators`.
pub record Assembly : Type 0 where
  pub records : List OperatorRecord
  pub stream_trivia : List TokenRef
  pub pending_operands : List OperandRecord
  pub pending_trivia : List TokenRef

-- The arms of the match in `assemble_operators`.
pub data Top : Type 0 where
  blank acts stray_array_close stray_dictionary_close stray_keyword operand : Top

unfoldable pub top_arm : TokenKind → Top
top_arm (TokenKind.trivia _) = blank
top_arm TokenKind.operator = acts
top_arm (TokenKind.delimiter Delimiter.array_close) = stray_array_close
top_arm (TokenKind.delimiter Delimiter.dictionary_close) = stray_dictionary_close
top_arm (TokenKind.keyword _) = stray_keyword
top_arm _ = operand

unfoldable pub add_trivia : List OperandRecord → Assembly → TokenRef → Assembly
add_trivia [] s token_ref = record s { stream_trivia = s.stream_trivia ++ token_ref ∷ [] }
add_trivia (_ ∷ _) s token_ref = record s { pending_trivia = s.pending_trivia ++ token_ref ∷ [] }

-- The range of a record: from its first operand, if it has one, through its operator.
unfoldable pub record_range : List OperandRecord → TokenRef → ByteRange
record_range [] token_ref = token_ref.range
record_range (first ∷ _) token_ref = record { start = first.range.start; end = token_ref.range.end }

unfoldable pub add_record : Assembly → TokenRef → Assembly
add_record s token_ref = record {
  records =
      s.records
      ++ record {
        operator = token_ref;
        operands = s.pending_operands;
        trivia = s.pending_trivia;
        range = record_range s.pending_operands token_ref;
      }
        ∷ [];
  stream_trivia = s.stream_trivia;
  pending_operands = [];
  pending_trivia = [];
}

abbrev pub add_operand : Assembly → OperandRecord → Assembly
add_operand s o = record s { pending_operands = s.pending_operands ++ o ∷ [] }

unfoldable pub finish : List OperandRecord → Assembly → Outcome AssembleError AssembledContentStream
finish (first ∷ _) s = do
  t ← or_panic (get_elem? first.tokens 0)
  err (trailing_operands t.token_index first.range)
finish [] s = ok (record { records = s.records; trivia = s.stream_trivia })

-- The match in the loop of `assemble_operators`, over the rest of the loop.
unfoldable pub assemble_arm :
    (ℕ → Assembly → Outcome AssembleError AssembledContentStream)
    → List Token
    → ℕ
    → Assembly
    → TokenRef
    → Top
    → Outcome AssembleError AssembledContentStream
assemble_arm loop tokens index s token_ref blank =
    loop (index + 1) (add_trivia s.pending_operands s token_ref)
assemble_arm loop tokens index s token_ref acts = loop (index + 1) (add_record s token_ref)
assemble_arm loop tokens index s token_ref stray_array_close =
    err (unmatched_array_close index token_ref.range)
assemble_arm loop tokens index s token_ref stray_dictionary_close =
    err (unmatched_dictionary_close index token_ref.range)
assemble_arm loop tokens index s token_ref stray_keyword =
    err (unexpected_keyword index token_ref.range)
assemble_arm loop tokens index s token_ref operand = do
  p ← parse_operand_record tokens index
  loop p.index (add_operand s p.operand)

unfoldable pub assemble_loop :
    List Token → ℕ → ℕ → Assembly → Outcome AssembleError AssembledContentStream
assemble_loop tokens zero index s = stuck
assemble_loop tokens (suc fuel) index s = elim (get_elem? tokens index) [
  | none ↦ finish s.pending_operands s
  | some t ↦ do
    token_ref ← checked_token_ref tokens index
    assemble_arm (assemble_loop tokens fuel) tokens index s token_ref (top_arm t.kind)
]

unfoldable pub assemble_operators : List Token → Outcome AssembleError AssembledContentStream
unfolding checked_token_ref delimiter_eq inner_arm append_with composite_arm composite_loop
    append_composite_operand operand_from_refs parse_composite_operand parse_operand_of
    parse_operand_record top_arm add_trivia record_range add_record finish assemble_arm
    assemble_loop
assemble_operators tokens =
    assemble_loop tokens (length tokens + 1) 0
      (record { records = []; stream_trivia = []; pending_operands = []; pending_trivia = [] })
