-- ===== src/Paint/Blame.antt =====
-- What the errors of crates/presslint-paint/src/operands.rs point at, and that its indexing does not
-- panic.
use presslint.Common.{
  get_range?, ℕ, suc, ◌+◌, ◌<◌, ◌≡◌, ◌≢◌, refl, ap, ◌∙◌, ◌⊎◌, inl, inr, true, ◌&&◌, Option, none,
  some, List, [], ◌∷◌, Bytes, length, get_elem?, get_elem?-some, ◌==◌, Bool-cases, arith, or_panic,
  ok_or, Ensures, returns, fails, Ensures->>=, Ensures-mono,
}
use presslint.Types.{PdfName, ColorSpace}
use presslint.Syntax.Model.{ByteRange, OperandRecord, OperatorRecord}
use presslint.Paint.Floats.{Float}
use presslint.Paint.Model.{
  GraphicsWalkError, GraphicsWalkErrorKind, invalid_source_range, graphics_state_stack_underflow,
  malformed_operand_count, malformed_numeric_operand, malformed_name_operand,
  non_finite_numeric_operand,
}
use presslint.Paint.Operands.{
  checked_source, expect_operands, name_of, name_at, name_operand, parse_finite_number, numeric_at,
  numeric_loop, numeric_operands_vec, device_color, numeric_operands, integer_operand,
  font_operands, starts_name, color_loop, color_operands,
}

-- `range` is that of the operand with this index.
abbrev pub AtOperand : OperatorRecord → ℕ → ByteRange → Type 0
AtOperand r i range = (o : OperandRecord) × (get_elem? r.operands i ≡ some o) × (range ≡ o.range)

-- `Empty` says of the walker that its stack is empty.
abbrev pub BlamesKind : Type 0 → OperatorRecord → GraphicsWalkErrorKind → ByteRange → Type 0
BlamesKind Empty r invalid_source_range range = (range ≡ r.range) ⊎ ((i : ℕ) × AtOperand r i range)
BlamesKind Empty r graphics_state_stack_underflow range = Empty × (range ≡ r.range)
BlamesKind Empty r (malformed_operand_count operator expected got) range =
    (got ≡ length r.operands) × (got ≢ expected) × (range ≡ r.range)
BlamesKind Empty r (malformed_numeric_operand operator i) range = AtOperand r i range
BlamesKind Empty r (malformed_name_operand operator i) range = AtOperand r i range
BlamesKind Empty r (non_finite_numeric_operand operator i) range = AtOperand r i range

abbrev pub Blames : Type 0 → OperatorRecord → GraphicsWalkError → Type 0
Blames Empty r e = BlamesKind Empty r e.kind e.range

abbrev pub Any : {A : Type 0} → A → Type 0
Any _ = Unit

pub ok_or-Ensures :
    {E A : Type 0} (P : A → Type 0) (Q : E → Type 0) (o : Option A) (e : E)
    → ((a : A) → o ≡ some a → P a)
    → Q e
    → Ensures P Q (ok_or o e)
ok_or-Ensures P Q none e h q = fails q
ok_or-Ensures P Q (some a) e h q = returns (h a refl)

pub or_panic-Ensures :
    {E A : Type 0} (Q : E → Type 0) (xs : List A) (i : ℕ)
    → i < length xs
    → Ensures {E = E} (λ a. get_elem? xs i ≡ some a) Q (or_panic (get_elem? xs i))
or_panic-Ensures Q xs i h = let (a, e) = get_elem?-some xs i h in rw e (returns refl)

module _ (Empty : Type 0) (r : OperatorRecord) (source operator : Bytes) where
  checked_source-Ensures :
      (i : ℕ) (o : OperandRecord)
      → get_elem? r.operands i ≡ some o
      → Ensures Any (Blames Empty r) (checked_source source o.range o.range)
  unfolding checked_source
  checked_source-Ensures i o h = ok_or-Ensures Any _ _ _ (λ _ _. tt) (inr (i, (o, h, refl)))

  pub record_source-Ensures :
      (range : ByteRange)
      → Ensures
          (λ bytes. get_range? source range.start range.end ≡ some bytes)
          (Blames Empty r)
          (checked_source source range r.range)
  unfolding checked_source
  record_source-Ensures range =
      ok_or-Ensures (λ bytes. get_range? source range.start range.end ≡ some bytes) _ _ _ (λ _ e. e)
        (inl refl)

  pub expect_operands-Ensures :
      (n : ℕ) → Ensures (λ _. length r.operands ≡ n) (Blames Empty r) (expect_operands operator r n)
  unfolding expect_operands
  expect_operands-Ensures n = elim (Bool-cases (length r.operands == n)) [
    | inl e ↦ rw e (returns (ground arith))
    | inr e ↦ rw e (fails (refl, (λ same. ground arith), refl))
  ]

  name_at-Ensures :
      (o : OperandRecord)
      → get_elem? r.operands 0 ≡ some o
      → Ensures Any (Blames Empty r) (name_at source operator o)
  unfolding name_at
  name_at-Ensures o h = elim (Bool-cases (length o.tokens == 1)) [
    | inl e ↦ rw e (
        Ensures->>= (checked_source-Ensures 0 o h)
          (λ bytes _. ok_or-Ensures Any _ (name_of bytes) _ (λ _ _. tt) (o, h, refl)))
    | inr e ↦ rw e (fails (o, h, refl))
  ]

  pub name_operand-Ensures : Ensures Any (Blames Empty r) (name_operand source operator r)
  unfolding name_operand
  name_operand-Ensures = Ensures->>= (expect_operands-Ensures 1) (λ _ n.
      Ensures->>= (or_panic-Ensures _ r.operands 0 (omega arith)) (λ o h. name_at-Ensures o h))

  module _ (f : Float) where
    open f use {Num, parse, is_finite}

    parse_finite_number-Ensures :
        (i : ℕ) (o : OperandRecord) (bytes : Bytes)
        → get_elem? r.operands i ≡ some o
        → Ensures
            (λ x. is_finite x ≡ true)
            (Blames Empty r)
            (parse_finite_number f operator i o bytes)
    unfolding parse_finite_number
    parse_finite_number-Ensures i o bytes h = elim (Bool-cases (length o.tokens == 1)) [
      | inl e ↦ rw e (
          Ensures->>= (ok_or-Ensures Any _ (parse bytes) _ (λ _ _. tt) (o, h, refl)) (λ value _.
            elim (Bool-cases (is_finite value)) [
              | inl fin ↦ rw fin (returns fin)
              | inr inf ↦ rw inf (fails (o, h, refl))
            ]))
      | inr e ↦ rw e (fails (o, h, refl))
    ]

    numeric_at-Ensures :
        (i : ℕ) (o : OperandRecord)
        → get_elem? r.operands i ≡ some o
        → Ensures (λ x. is_finite x ≡ true) (Blames Empty r) (numeric_at f source operator i o)
    unfolding numeric_at
    numeric_at-Ensures i o h = elim (Bool-cases (length o.tokens == 1)) [
      | inl e ↦ rw e (
          Ensures->>= (checked_source-Ensures i o h)
            (λ bytes _. parse_finite_number-Ensures i o bytes h))
      | inr e ↦ rw e (fails (o, h, refl))
    ]

    -- The operands from `i` on are those of the record.
    abbrev pub From : ℕ → List OperandRecord → Type 0
    From i os = (k : ℕ) → get_elem? r.operands (i + k) ≡ get_elem? os k

    From-here :
        (i : ℕ) (o : OperandRecord) (os : List OperandRecord)
        → From i (o ∷ os)
        → get_elem? r.operands i ≡ some o
    From-here i o os h =
        ap (get_elem? r.operands) (let same : i ≡ i + 0 = omega arith in same) ∙ h 0

    From-next :
        (i : ℕ) (o : OperandRecord) (os : List OperandRecord) → From i (o ∷ os) → From (i + 1) os
    From-next i o os h k =
        ap (get_elem? r.operands) (let same : i + 1 + k ≡ i + suc k = omega arith in same)
        ∙ h (suc k)

    From-all : From 0 r.operands
    From-all k = ap (get_elem? r.operands) (let same : 0 + k ≡ k = omega arith in same)

    numeric_loop-Ensures :
        (i : ℕ) (os : List OperandRecord)
        → From i os
        → Ensures
            (λ xs. length xs ≡ length os)
            (Blames Empty r)
            (numeric_loop f source operator i os)
    unfolding numeric_loop
    numeric_loop-Ensures i [] h = returns refl
    numeric_loop-Ensures i (o ∷ os) h =
        Ensures->>= (numeric_at-Ensures i o (From-here i o os h)) (λ x _.
          Ensures->>= (numeric_loop-Ensures (i + 1) os (From-next i o os h))
            (λ xs l. returns (ap suc l)))

    pub numeric_operands_vec-Ensures :
        (n : ℕ)
        → Ensures
            (λ xs. (length xs ≡ n) × (length r.operands ≡ n))
            (Blames Empty r)
            (numeric_operands_vec f source operator r n)
    unfolding numeric_operands_vec
    numeric_operands_vec-Ensures n = Ensures->>= (expect_operands-Ensures n) (λ _ e.
        Ensures-mono (λ xs l. (l ∙ e, e)) (λ _ q. q) (numeric_loop-Ensures 0 r.operands From-all))

    pub device_color-Ensures :
        (space : ColorSpace) (n : ℕ)
        → Ensures Any (Blames Empty r) (device_color f source operator r space n)
    unfolding device_color
    device_color-Ensures space n = Ensures->>= (numeric_operands_vec-Ensures n) (λ xs _. returns tt)

    pub numeric_operands-Ensures :
        Ensures Any (Blames Empty r) (numeric_operands f source operator r 6)
    unfolding numeric_operands
    numeric_operands-Ensures = Ensures->>= (numeric_operands_vec-Ensures 6) (λ xs (l, _).
        Ensures->>= (or_panic-Ensures _ xs 0 (omega arith)) (λ a _.
          Ensures->>= (or_panic-Ensures _ xs 1 (omega arith)) (λ b _.
            Ensures->>= (or_panic-Ensures _ xs 2 (omega arith)) (λ c _.
              Ensures->>= (or_panic-Ensures _ xs 3 (omega arith)) (λ d _.
                Ensures->>= (or_panic-Ensures _ xs 4 (omega arith)) (λ e _.
                  Ensures->>= (or_panic-Ensures _ xs 5 (omega arith)) (λ g _. returns tt)))))))

    pub integer_operand-Ensures : Ensures Any (Blames Empty r) (integer_operand f source operator r)
    unfolding integer_operand
    integer_operand-Ensures = Ensures->>= (numeric_operands_vec-Ensures 1) (λ xs (l, n).
        Ensures->>= (or_panic-Ensures _ xs 0 (omega arith)) (λ x _.
          elim (Bool-cases (f.not_an_i32 x)) [
            | inl bad ↦ rw bad (
                Ensures->>= (or_panic-Ensures _ r.operands 0 (omega arith))
                  (λ o h. fails (o, h, refl)))
            | inr fine ↦ rw fine (returns tt)
          ]))

    pub font_operands-Ensures : Ensures Any (Blames Empty r) (font_operands f source operator r)
    unfolding font_operands
    font_operands-Ensures = Ensures->>= (expect_operands-Ensures 2) (λ _ n.
        Ensures->>= (or_panic-Ensures _ r.operands 0 (omega arith)) (λ o h.
          Ensures->>= (name_at-Ensures o h) (λ name _.
            Ensures->>= (or_panic-Ensures _ r.operands 1 (omega arith))
              (λ o' h'. Ensures->>= (numeric_at-Ensures 1 o' h') (λ size _. returns tt)))))

    color_loop-Ensures :
        (i : ℕ) (os : List OperandRecord) (p : Option PdfName)
        → From i os
        → Ensures Any (Blames Empty r) (color_loop f source operator i os p)
    unfolding color_loop
    color_loop-Ensures i [] p h = returns tt
    color_loop-Ensures i (o ∷ os) (some name) h = fails (o, From-here i o os h, refl)
    color_loop-Ensures i (o ∷ os) none h =
        let here = From-here i o os h in
        Ensures->>= (checked_source-Ensures i o here) (λ bytes _.
          elim (Bool-cases (length o.tokens == 1 && starts_name f bytes)) [
            | inl e ↦ rw e (
                Ensures->>= (ok_or-Ensures Any _ (name_of bytes) _ (λ _ _. tt) (o, here, refl))
                  (λ name _. color_loop-Ensures (i + 1) os (some name) (From-next i o os h)))
            | inr e ↦ rw e (
                Ensures->>= (parse_finite_number-Ensures i o bytes here) (λ value _.
                  Ensures->>= (color_loop-Ensures (i + 1) os none (From-next i o os h))
                    (λ rest _. returns tt)))
          ])

    pub color_operands-Ensures : Ensures Any (Blames Empty r) (color_operands f source operator r)
    unfolding color_operands
    color_operands-Ensures = color_loop-Ensures 0 r.operands none From-all
