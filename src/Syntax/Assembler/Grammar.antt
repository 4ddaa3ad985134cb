-- ===== src/Syntax/Assembler/Grammar.antt =====
-- Which runs of tokens are operands: a scalar, or a group whose delimiters balance.
use presslint.Common.{
  ℕ, ◌+◌, ◌≤◌, ◌<◌, ◌≡◌, ◌≢◌, ap, ◌∙◌, inl, inr, Bool, true, false, Option, none, some, List,
  get_elem?, Bool-cases, ltb, arith,
}
use presslint.Syntax.Model.{Token, TokenKind, Delimiter}

-- `P` holds of the token at `i`.
abbrev pub TokenAt : List Token → ℕ → (Token → Type 0) → Type 0
TokenAt ts i P = (t : Token) × (get_elem? ts i ≡ some t) × P t

-- The delimiter that closes a group that a token of this kind opens.
abbrev pub closer : TokenKind → Option Delimiter
closer (TokenKind.delimiter Delimiter.array_open) = some Delimiter.array_close
closer (TokenKind.delimiter Delimiter.dictionary_open) = some Delimiter.dictionary_close
closer _ = none

-- Operands of one token.
abbrev pub is_scalar : TokenKind → Bool
is_scalar TokenKind.boolean = true
is_scalar TokenKind.null = true
is_scalar (TokenKind.number _) = true
is_scalar (TokenKind.string _) = true
is_scalar TokenKind.name = true
is_scalar _ = false

-- What may stand in a group beside groups.
abbrev pub is_item : TokenKind → Bool
is_item (TokenKind.trivia _) = true
is_item k = is_scalar k

-- The tokens from `i` up to `j` are items and whole groups, and then the delimiter `c`.
pub data Group (ts : List Token) : ℕ → Delimiter → ℕ → Type 0 where
  closed :
      {i : ℕ} {c : Delimiter}
      → TokenAt ts i (λ t. t.kind ≡ TokenKind.delimiter c)
      → Group ts i c (i + 1)
  item :
      {i j : ℕ} {c : Delimiter}
      → TokenAt ts i (λ t. is_item t.kind ≡ true)
      → Group ts (i + 1) c j
      → Group ts i c j
  nested :
      {i j k : ℕ} {c : Delimiter} (d : Delimiter)
      → TokenAt ts i (λ t. closer t.kind ≡ some d)
      → Group ts (i + 1) d j
      → Group ts j c k
      → Group ts i c k

-- Behind the token at `o`, which opens a group that `c` closes, items and whole groups reach up to
-- `i`, and the group is not closed.
pub data Inside (ts : List Token) (o : ℕ) (c : Delimiter) : ℕ → Type 0 where
  opened : TokenAt ts o (λ t. closer t.kind ≡ some c) → Inside ts o c (o + 1)
  item :
      {i : ℕ} → Inside ts o c i → TokenAt ts i (λ t. is_item t.kind ≡ true) → Inside ts o c (i + 1)
  nested :
      {i j : ℕ} (d : Delimiter)
      → Inside ts o c i
      → TokenAt ts i (λ t. closer t.kind ≡ some d)
      → Group ts (i + 1) d j
      → Inside ts o c j

-- An operand: one scalar token, or a group with the delimiters around it.
pub data IsRun (ts : List Token) (i : ℕ) : ℕ → Type 0 where
  scalar : TokenAt ts i (λ t. is_scalar t.kind ≡ true) → IsRun ts i (i + 1)
  group :
      {j : ℕ} (c : Delimiter)
      → TokenAt ts i (λ t. closer t.kind ≡ some c)
      → Group ts (i + 1) c j
      → IsRun ts i j

-- No operator stands from `i` up to `j`.
abbrev pub NoOperator : List Token → ℕ → ℕ → Type 0
NoOperator ts i j = (k : ℕ) → i ≤ k → k < j → TokenAt ts k (λ t. t.kind ≡ TokenKind.operator) → ⊥

module _ (ts : List Token) where
  pub NoOperator-one :
      (i : ℕ) → TokenAt ts i (λ t. t.kind ≢ TokenKind.operator) → NoOperator ts i (i + 1)
  NoOperator-one i (t, here, n) k le lt (u, there, e) =
      let same : k ≡ i = omega arith in
      let at_i = rw same at there in let one : t ≡ u = cc in n (ap (λ (x : Token). x.kind) one ∙ e)

  pub NoOperator-join : (i j k : ℕ) → NoOperator ts i j → NoOperator ts j k → NoOperator ts i k
  NoOperator-join i j k f g n le lt op = elim (Bool-cases (ltb n j)) [
    | inl e ↦ f n le (ground arith) op
    | inr e ↦ g n (ground arith) lt op
  ]

  is_item-operator : (k : TokenKind) → is_item k ≡ true → k ≢ TokenKind.operator
  is_item-operator k e q = absurd (let x : is_item TokenKind.operator ≡ true = rw q at e in cc)

  closer-operator : (k : TokenKind) {d : Delimiter} → closer k ≡ some d → k ≢ TokenKind.operator
  closer-operator k {d} e q = absurd (let x : none ≡ some d = rw q at e in cc)

  closed-operator :
      (k : TokenKind) {d : Delimiter} → k ≡ TokenKind.delimiter d → k ≢ TokenKind.operator
  closed-operator k e q = cc

  pub Group-NoOperator : {i j : ℕ} {c : Delimiter} → Group ts i c j → NoOperator ts i j
  Group-NoOperator {i} (closed (t, here, e)) = NoOperator-one i (t, here, closed-operator t.kind e)
  Group-NoOperator {i} {j} (item (t, here, e) g) =
      NoOperator-join i (i + 1) j (NoOperator-one i (t, here, is_item-operator t.kind e))
        (Group-NoOperator g)
  Group-NoOperator {i} {j = k} (nested {j} d (t, here, e) g g') =
      NoOperator-join i (i + 1) k (NoOperator-one i (t, here, closer-operator t.kind e))
        (NoOperator-join (i + 1) j k (Group-NoOperator g) (Group-NoOperator g'))

  pub IsRun-NoOperator : {i j : ℕ} → IsRun ts i j → NoOperator ts i j
  IsRun-NoOperator {i} (scalar (t, here, e)) =
      NoOperator-one i (t, here, λ q. absurd (let x : false ≡ true = rw q at e in cc))
  IsRun-NoOperator {i} {j} (group c (t, here, e) g) =
      NoOperator-join i (i + 1) j (NoOperator-one i (t, here, closer-operator t.kind e))
        (Group-NoOperator g)
