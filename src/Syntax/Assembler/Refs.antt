-- ===== src/Syntax/Assembler/Refs.antt =====
-- The references of a token list, in order, and the token that an error names.
use presslint.Common.{
  ℕ, zero, suc, ◌+◌, ◌-◌, ◌≢◌, ◌≤◌, ◌<◌, ◌≡◌, refl, ap, inl, inr, Bool, true, false, some, List, [],
  ◌∷◌, length, get_elem?, slice, slice_one, ltb, ltb→lt, Bool-cases, arith, Ensures, returns, fails,
}
use presslint.Syntax.Model.{
  ByteRange, Token, TokenKind, Delimiter, TokenRef, AssembleError, invalid_token_range,
  trailing_operands, unmatched_array_close, unmatched_dictionary_close, mismatched_delimiter,
  unterminated_composite_operand, operator_inside_composite_operand, unexpected_keyword,
}
use presslint.Syntax.Assembler.{checked_token_ref}
use presslint.Syntax.Assembler.Grammar.{TokenAt, Inside, IsRun, NoOperator}

abbrev pub ref : ℕ → Token → TokenRef
ref i t = record { token_index = i; range = t.range }

abbrev pub refs_from : ℕ → List Token → List TokenRef
refs_from i [] = []
refs_from i (t ∷ ts) = ref i t ∷ refs_from (i + 1) ts

-- One reference for each token.
unfoldable pub token_refs : List Token → List TokenRef
token_refs = refs_from 0

get_elem?-refs_from :
    (ts : List Token) (base i k : ℕ) {t : Token}
    → base + i ≡ k
    → get_elem? ts i ≡ some t
    → get_elem? (refs_from base ts) i ≡ some (ref k t)
get_elem?-refs_from [] base i k e h = cc
get_elem?-refs_from (t ∷ ts) base zero k e h = let e' : base ≡ k = omega arith in rw e' (cc)
get_elem?-refs_from (t ∷ ts) base (suc i) k e h =
    get_elem?-refs_from ts (base + 1) i k (omega arith) h

pub get_elem?-token_refs :
    (ts : List Token) (i : ℕ) {t : Token}
    → get_elem? ts i ≡ some t
    → get_elem? (token_refs ts) i ≡ some (ref i t)
unfolding token_refs
get_elem?-token_refs ts i h = get_elem?-refs_from ts 0 i i (omega arith) h

pub slice-token_refs :
    (ts : List Token) (i : ℕ) {t : Token}
    → get_elem? ts i ≡ some t
    → slice (token_refs ts) i (i + 1) ≡ ref i t ∷ []
slice-token_refs ts i h = slice_one (token_refs ts) i _ (get_elem?-token_refs ts i h)

length-refs_from : (base : ℕ) (ts : List Token) → length (refs_from base ts) ≡ length ts
length-refs_from base [] = refl
length-refs_from base (t ∷ ts) = ap suc (length-refs_from (base + 1) ts)

pub length-token_refs : (ts : List Token) → length (token_refs ts) ≡ length ts
unfolding token_refs
length-token_refs = length-refs_from 0

abbrev pub is_closing : Delimiter → Bool
is_closing Delimiter.array_close = true
is_closing Delimiter.dictionary_close = true
is_closing _ = false

abbrev pub is_keyword : TokenKind → Bool
is_keyword (TokenKind.keyword _) = true
is_keyword _ = false

-- The token at `i` has the range `r`, and a kind that satisfies `P`.
abbrev pub KindAt : List Token → ℕ → ByteRange → (TokenKind → Type 0) → Type 0
KindAt ts i r P = TokenAt ts i (λ t. (r ≡ t.range) × P t.kind)

-- The operand from `i` up to `j` has this range: from its first token's start to its last one's end.
abbrev pub SpansRun : List Token → ℕ → ℕ → ByteRange → Type 0
SpansRun ts i j r =
    IsRun ts i j
    × TokenAt ts i (λ t. r.start ≡ t.range.start)
    × TokenAt ts (j - 1) (λ t. r.end ≡ t.range.end)

-- Each error names the index and the range of the token that it complains about: a token whose range
-- is turned around; the first token of an operand, with the operand's range, behind which no operator
-- stands; a closing delimiter or a keyword at the top; a closing delimiter in a group that another one
-- closes; the opening delimiter of a group that the tokens end in; and an operator in a group.
abbrev pub IsFault : List Token → AssembleError → Type 0
IsFault ts (invalid_token_range i r) =
    TokenAt ts i (λ t. (r ≡ t.range) × (t.range.end < t.range.start))
IsFault ts (trailing_operands i r) = ((j : ℕ) × SpansRun ts i j r) × NoOperator ts i (length ts)
IsFault ts (unmatched_array_close i r) =
    KindAt ts i r (λ k. k ≡ TokenKind.delimiter Delimiter.array_close)
IsFault ts (unmatched_dictionary_close i r) =
    KindAt ts i r (λ k. k ≡ TokenKind.delimiter Delimiter.dictionary_close)
IsFault ts (mismatched_delimiter i r) =
    (o : ℕ) × (c : Delimiter) × (d : Delimiter) × Inside ts o c i
    × KindAt ts i r (λ k. k ≡ TokenKind.delimiter d)
    × (is_closing d ≡ true)
    × (d ≢ c)
IsFault ts (unterminated_composite_operand i r) =
    TokenAt ts i (λ t. r ≡ t.range) × ((c : Delimiter) × Inside ts i c (length ts))
IsFault ts (operator_inside_composite_operand i r) =
    (o : ℕ) × (c : Delimiter) × Inside ts o c i × KindAt ts i r (λ k. k ≡ TokenKind.operator)
IsFault ts (unexpected_keyword i r) = KindAt ts i r (λ k. is_keyword k ≡ true)

pub checked_token_ref-Ensures :
    (ts : List Token) (i : ℕ) (t : Token)
    → get_elem? ts i ≡ some t
    → Ensures
        (λ r. (r ≡ ref i t) × (t.range.start ≤ t.range.end))
        (IsFault ts)
        (checked_token_ref ts i)
unfolding checked_token_ref
checked_token_ref-Ensures ts i t e = elim (Bool-cases (ltb t.range.end t.range.start)) [
  | inl bad ↦ rw (e, bad, checked_token_ref) (fails (t, e, (refl, ltb→lt _ _ bad)))
  | inr good ↦ rw (e, good, checked_token_ref) (returns (refl, ground arith))
]
