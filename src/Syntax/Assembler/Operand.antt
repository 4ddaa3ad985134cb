-- ===== src/Syntax/Assembler/Operand.antt =====
-- What `parse_operand_record` takes: one scalar token, or a group whose delimiters balance.
use presslint.Common.{
  ℕ, ◌+◌, ◌-◌, ◌≤◌, ◌<◌, ◌≡◌, refl, sym, ap, ◌∙◌, inl, inr, true, some, List, [], ◌∷◌, length,
  get_elem?, slice, get_elem?-cases, get_elem?-lt, get_elem?-slice, length-slice, arith, Ensures,
  returns, Ensures->>=,
}
use presslint.Syntax.Model.{Token, TokenKind, Delimiter, OperandRecord}
use presslint.Syntax.Assembler.{
  operand_from_refs, Parsed, parse_composite_operand, parse_operand_of, parse_operand_record, Top,
  top_arm,
}
use presslint.Syntax.Assembler.Grammar.{closer, is_scalar, IsRun}
use presslint.Syntax.Assembler.Refs.{
  ref, token_refs, slice-token_refs, get_elem?-token_refs, length-token_refs, IsFault,
  checked_token_ref-Ensures,
}
use presslint.Syntax.Assembler.Composite.{append_composite_operand-Ensures}

-- The tokens from `i` up to `j` are an operand; it holds their references, and its range runs from the
-- start of the first to the end of the last.
pub record OperandAt (ts : List Token) (i j : ℕ) (o : OperandRecord) : Type 0 where
  pub first : Token
  pub last : Token
  pub run : IsRun ts i j
  pub i_lt_j : i < j
  pub j_le : j ≤ length ts
  pub tokens_are : o.tokens ≡ slice (token_refs ts) i j
  pub first_at : get_elem? ts i ≡ some first
  pub last_at : get_elem? ts (j - 1) ≡ some last
  pub start_is : o.range.start ≡ first.range.start
  pub end_is : o.range.end ≡ last.range.end

abbrev pub ParsedAt : List Token → ℕ → Parsed → Type 0
ParsedAt ts i p = OperandAt ts i p.index p.operand

module _ (ts : List Token) (i : ℕ) (t : Token) (here : get_elem? ts i ≡ some t) where
  operand_from_refs-slice :
      (j : ℕ)
      → IsRun ts i j
      → i < j
      → j ≤ length ts
      → Ensures (OperandAt ts i j) (IsFault ts) (operand_from_refs (slice (token_refs ts) i j))
  unfolding operand_from_refs
  operand_from_refs-slice j run lt le = elim (get_elem?-cases ts (j - 1)) [
    | inl (_, ge) ↦ absurd (omega arith)
    | inr (u, there, _) ↦
        let refs = slice (token_refs ts) i j in
        let e0 : i + 0 ≡ i = omega arith in
        let e1 : i + (length refs - 1) ≡ j - 1 =
          omega (arith, length-slice (token_refs ts) i j, length-token_refs ts) in
        let first : get_elem? refs 0 ≡ some (ref i t) =
          get_elem?-slice (token_refs ts) i j 0 (omega arith)
          ∙ ap (get_elem? (token_refs ts)) e0
          ∙ get_elem?-token_refs ts i here in
        let last : get_elem? refs (length refs - 1) ≡ some (ref (j - 1) u) =
          get_elem?-slice (token_refs ts) i j (length refs - 1) (omega arith)
          ∙ ap (get_elem? (token_refs ts)) e1
          ∙ get_elem?-token_refs ts (j - 1) there in
        rw (first, last)
          (returns (record {
            first = t;
            last = u;
            run = run;
            i_lt_j = lt;
            j_le = le;
            tokens_are = refl;
            first_at = here;
            last_at = there;
            start_is = refl;
            end_is = refl;
          }))
  ]

  parse_composite_operand-Ensures :
      (c : Delimiter)
      → closer t.kind ≡ some c
      → Ensures (ParsedAt ts i) (IsFault ts) (parse_composite_operand ts i c)
  unfolding parse_composite_operand
  parse_composite_operand-Ensures c opens =
      Ensures->>= (append_composite_operand-Ensures ts i c [] t here opens) (λ a ((lt, le, e), g).
        rw e (
          Ensures->>= (operand_from_refs-slice a.index (IsRun.group c (t, here, opens) g) lt le)
            (λ o p. returns p)))

  single_operand :
      is_scalar t.kind ≡ true
      → OperandAt ts i (i + 1) (record { tokens = ref i t ∷ []; range = t.range })
  single_operand plain = record {
    run = IsRun.scalar (t, here, plain);
    first = t;
    last = t;
    i_lt_j = omega arith;
    j_le = omega (arith, get_elem?-lt ts i here);
    tokens_are = sym (slice-token_refs ts i here);
    first_at = here;
    last_at = (let e : i + 1 - 1 ≡ i = omega arith in rw e here);
    start_is = refl;
    end_is = refl;
  }

  parse_operand_of-Ensures :
      (k : TokenKind)
      → t.kind ≡ k
      → top_arm k ≡ Top.operand
      → Ensures (ParsedAt ts i) (IsFault ts) (parse_operand_of k ts i (ref i t))
  unfolding parse_operand_of top_arm
  parse_operand_of-Ensures TokenKind.boolean e h = returns (single_operand (rw e refl))
  parse_operand_of-Ensures TokenKind.null e h = returns (single_operand (rw e refl))
  parse_operand_of-Ensures (TokenKind.number _) e h = returns (single_operand (rw e refl))
  parse_operand_of-Ensures (TokenKind.string _) e h = returns (single_operand (rw e refl))
  parse_operand_of-Ensures TokenKind.name e h = returns (single_operand (rw e refl))
  parse_operand_of-Ensures (TokenKind.delimiter Delimiter.array_open) e h =
      parse_composite_operand-Ensures Delimiter.array_close (rw e refl)
  parse_operand_of-Ensures (TokenKind.delimiter Delimiter.dictionary_open) e h =
      parse_composite_operand-Ensures Delimiter.dictionary_close (rw e refl)
  parse_operand_of-Ensures (TokenKind.delimiter Delimiter.array_close) e h = cc
  parse_operand_of-Ensures (TokenKind.delimiter Delimiter.dictionary_close) e h = cc
  parse_operand_of-Ensures (TokenKind.trivia _) e h = cc
  parse_operand_of-Ensures (TokenKind.keyword _) e h = cc
  parse_operand_of-Ensures TokenKind.operator e h = cc

  pub parse_operand_record-Ensures :
      top_arm t.kind ≡ Top.operand
      → Ensures (ParsedAt ts i) (IsFault ts) (parse_operand_record ts i)
  unfolding parse_operand_record
  parse_operand_record-Ensures h =
      Ensures->>= (checked_token_ref-Ensures ts i t here)
        (λ r (e, _). rw (e, here) (parse_operand_of-Ensures t.kind refl h))
