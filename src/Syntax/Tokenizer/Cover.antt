-- ===== src/Syntax/Tokenizer/Cover.antt =====
-- The tokens cover the input: no byte is lost, none belongs to two tokens.
use presslint.Common.{
  ℕ, zero, suc, ◌+◌, ◌≤◌, inl, inr, List, [], ◌∷◌, Bytes, length, get_elem?-cases, arith, Ensures,
  returns, Ensures->>=,
}
use presslint.Syntax.Model.{Token}
use presslint.Syntax.Tokenizer.{tokenize_loop, tokenize}
use presslint.Syntax.Tokenizer.Bounds.{Covers}
use presslint.Syntax.Tokenizer.Strings.{IsUnterminated}
use presslint.Syntax.Tokenizer.Lexeme.{Lexeme, next_token-Ensures}

abbrev pub AllLexemes : Bytes → List Token → Type 0
AllLexemes input [] = Unit
AllLexemes input (t ∷ ts) = Lexeme input t × AllLexemes input ts

abbrev Tokens : Bytes → ℕ → List Token → Type 0
Tokens input offset ts = Covers offset (length input) ts × AllLexemes input ts

tokenize_loop-Ensures :
    (input : Bytes) (fuel offset : ℕ)
    → offset ≤ length input
    → length input ≤ fuel + offset
    → Ensures (Tokens input offset) (IsUnterminated input) (tokenize_loop input fuel offset)
unfolding tokenize_loop
tokenize_loop-Ensures input zero offset le f = elim (get_elem?-cases input offset) [
  | inl (e, ge) ↦ rw (e, tokenize_loop) (returns (omega arith, tt))
  | inr (b, e, lt) ↦ absurd (omega arith)
]
tokenize_loop-Ensures input (suc fuel) offset le f = elim (get_elem?-cases input offset) [
  | inl (e, ge) ↦ rw (e, tokenize_loop) (returns (omega arith, tt))
  | inr (b, e, lt) ↦
      rw (e, tokenize_loop)
        (Ensures->>= (next_token-Ensures input offset b e) (λ t (at, lex).
          Ensures->>= (tokenize_loop-Ensures input fuel t.range.end (omega arith) (omega arith))
            (λ ts (c, rest). returns ((at.0, at.1, c), (lex, rest)))))
]

pub tokenize-Ensures :
    (input : Bytes)
    → Ensures
        (λ ts. Covers 0 (length input) ts × AllLexemes input ts)
        (IsUnterminated input)
        (tokenize input)
unfolding tokenize
tokenize-Ensures input = tokenize_loop-Ensures input (length input) 0 (omega arith) (omega arith)
