-- ===== src/Syntax/Assembler/Tally.antt =====
-- Counting references, and what the operands and records of a stream are made of.
use presslint.Common.{
  ℕ, ◌+◌, ◌-◌, ◌≤◌, ◌≡◌, refl, sym, ap, ◌∙◌, Bool, List, [], ◌∷◌, ◌++◌, length, get_elem?, slice,
  slice-append, take-all, some, arith, if◌then◌else◌,
}
use presslint.Syntax.Model.{ByteRange, Token, TokenKind, TokenRef, OperandRecord, OperatorRecord}
use presslint.Syntax.Assembler.Refs.{ref, token_refs, length-token_refs}
use presslint.Syntax.Assembler.Operand.{OperandAt}

-- How many references pass a test. Two lists with the same tally for every test hold the same
-- references, as often.
unfoldable pub tally : (TokenRef → Bool) → List TokenRef → ℕ
tally p [] = 0
tally p (r ∷ rs) = (if p r then 1 else 0) + tally p rs

abbrev pub SameRefs : List TokenRef → List TokenRef → Type 0
SameRefs xs ys = (p : TokenRef → Bool) → tally p xs ≡ tally p ys

abbrev pub operand_refs : List OperandRecord → List TokenRef
operand_refs [] = []
operand_refs (o ∷ os) = o.tokens ++ operand_refs os

-- All references that the records hold: operands, trivia between them, operators.
abbrev pub record_refs : List OperatorRecord → List TokenRef
record_refs [] = []
record_refs (r ∷ rs) = (operand_refs r.operands ++ (r.trivia ++ r.operator ∷ [])) ++ record_refs rs

pub tally-append :
    (p : TokenRef → Bool) (xs ys : List TokenRef) → tally p (xs ++ ys) ≡ tally p xs + tally p ys
unfolding tally
tally-append p [] ys = omega arith
tally-append p (x ∷ xs) ys = omega (arith, tally-append p xs ys)

pub tally-operand_refs :
    (p : TokenRef → Bool) (os : List OperandRecord) (o : OperandRecord)
    → tally p (operand_refs (os ++ o ∷ [])) ≡ tally p (operand_refs os) + tally p o.tokens
unfolding tally
tally-operand_refs p [] o = omega (arith, tally-append p o.tokens [])
tally-operand_refs p (x ∷ os) o = omega (
  arith,
  tally-append p x.tokens (operand_refs (os ++ o ∷ [])),
  tally-append p x.tokens (operand_refs os),
  tally-operand_refs p os o,
)

pub tally-record_refs :
    (p : TokenRef → Bool) (rs : List OperatorRecord) (r : OperatorRecord)
    → tally p (record_refs (rs ++ r ∷ []))
      ≡ tally p (record_refs rs)
        + (tally p (operand_refs r.operands) + (tally p r.trivia + tally p (r.operator ∷ [])))
unfolding tally
tally-record_refs p [] r = omega (
  arith,
  tally-append p (operand_refs r.operands ++ (r.trivia ++ r.operator ∷ [])) [],
  tally-append p (operand_refs r.operands) (r.trivia ++ r.operator ∷ []),
  tally-append p r.trivia (r.operator ∷ []),
)
tally-record_refs p (x ∷ rs) r = omega (
  arith,
  tally-append p (operand_refs x.operands ++ (x.trivia ++ x.operator ∷ []))
      (record_refs (rs ++ r ∷ [])),
  tally-append p (operand_refs x.operands ++ (x.trivia ++ x.operator ∷ [])) (record_refs rs),
  tally-record_refs p rs r,
)

-- An operand of the stream: a run of consecutive tokens, with their range.
abbrev pub IsOperand : List Token → OperandRecord → Type 0
IsOperand ts o = (i : ℕ) × (j : ℕ) × OperandAt ts i j o

abbrev pub AllOperands : List Token → List OperandRecord → Type 0
AllOperands ts [] = Unit
AllOperands ts (o ∷ os) = IsOperand ts o × AllOperands ts os

pub AllOperands-concat :
    (ts : List Token) (os : List OperandRecord) (o : OperandRecord)
    → AllOperands ts os
    → IsOperand ts o
    → AllOperands ts (os ++ o ∷ [])
AllOperands-concat ts [] o h k = (k, tt)
AllOperands-concat ts (x ∷ os) o (hx, h) k = (hx, AllOperands-concat ts os o h k)

-- A record's range runs from its first operand, if it has one, through its operator.
abbrev pub RangeOf : List OperandRecord → TokenRef → ByteRange → Type 0
RangeOf [] operator r = r ≡ operator.range
RangeOf (o ∷ os) operator r = (r.start ≡ o.range.start) × (r.end ≡ operator.range.end)

-- The operator is an operator token of the stream, the operands are operands of it, and the range
-- spans them.
abbrev pub IsRecord : List Token → OperatorRecord → Type 0
IsRecord ts r =
    (t : Token) × (get_elem? ts r.operator.token_index ≡ some t)
    × (r.operator ≡ ref r.operator.token_index t)
    × (t.kind ≡ TokenKind.operator)
    × AllOperands ts r.operands
    × RangeOf r.operands r.operator r.range

abbrev pub AllRecords : List Token → List OperatorRecord → Type 0
AllRecords ts [] = Unit
AllRecords ts (r ∷ rs) = IsRecord ts r × AllRecords ts rs

pub AllRecords-concat :
    (ts : List Token) (rs : List OperatorRecord) (r : OperatorRecord)
    → AllRecords ts rs
    → IsRecord ts r
    → AllRecords ts (rs ++ r ∷ [])
AllRecords-concat ts [] r h k = (k, tt)
AllRecords-concat ts (x ∷ rs) r (hx, h) k = (hx, AllRecords-concat ts rs r h k)

pub tally-slice :
    (ts : List Token) (p : TokenRef → Bool) (i j : ℕ)
    → i ≤ j
    → tally p (slice (token_refs ts) 0 j)
      ≡ tally p (slice (token_refs ts) 0 i) + tally p (slice (token_refs ts) i j)
tally-slice ts p i j h =
    ap (tally p) (sym (slice-append (token_refs ts) 0 i j (omega arith) h))
    ∙ tally-append p (slice (token_refs ts) 0 i) (slice (token_refs ts) i j)

pub tally_nil : (p : TokenRef → Bool) (xs : List TokenRef) → xs ≡ [] → tally p xs ≡ 0
unfolding tally
tally_nil p [] e = refl
tally_nil p (x ∷ xs) e = cc

pub tally_all :
    (ts : List Token) (i : ℕ) (p : TokenRef → Bool)
    → length ts ≤ i
    → tally p (slice (token_refs ts) 0 i) ≡ tally p (token_refs ts)
tally_all ts i p h =
    ap (tally p) (take-all (token_refs ts) (i - 0) (omega (arith, length-token_refs ts)))
