-- ===== src/Syntax/Assembler/Conserve.antt =====
-- `assemble_operators` comes back on every token list, and loses and repeats no token.
use presslint.Common.{ℕ, ◌+◌, ◌≡◌, Bool, List, [], ◌∷◌, ◌++◌, slice}
use presslint.Syntax.Model.{Token, TokenRef, OperandRecord, AssembledContentStream}
use presslint.Syntax.Assembler.{Assembly}
use presslint.Syntax.Assembler.Grammar.{NoOperator}
use presslint.Syntax.Assembler.Refs.{token_refs}
use presslint.Syntax.Assembler.Operand.{OperandAt}
use presslint.Syntax.Assembler.Tally.{
  tally, SameRefs, operand_refs, record_refs, AllOperands, AllRecords,
}

-- From the first pending operand on there is no operator up to `i`.
abbrev Since : List Token → ℕ → List OperandRecord → Type 0
Since ts i [] = Unit
Since ts i (o ∷ os) = (a : ℕ) × (b : ℕ) × OperandAt ts a b o × NoOperator ts a i

-- Before the token at `i` every earlier reference is in one place. Trivia is pending only behind
-- an operand.
record Inv (ts : List Token) (i : ℕ) (s : Assembly) : Type 0 where
  counted :
      (p : TokenRef → Bool)
      → tally p (record_refs s.records)
          + (tally p s.stream_trivia
              + (tally p (operand_refs s.pending_operands) + tally p s.pending_trivia))
        ≡ tally p (slice (token_refs ts) 0 i)
  owned : s.pending_operands ≡ [] → s.pending_trivia ≡ []
  since : Since ts i s.pending_operands
  operands : AllOperands ts s.pending_operands
  records : AllRecords ts s.records

-- The result holds the references of the tokens, each as often as there, in records whose
-- operator and operands stand in the stream.
abbrev pub Conserves : List Token → AssembledContentStream → Type 0
Conserves ts out =
    SameRefs (record_refs out.records ++ out.trivia) (token_refs ts) × AllRecords ts out.records
