-- ===== src/Syntax/Tokenizer/Scanned.antt =====
-- The string scanners of crates/presslint-syntax/src/tokenizer.rs end where Syntax/Tokenizer/Strings
-- says that the string closes.
use presslint.Common.{
  ℕ, zero, suc, ◌+◌, ◌-◌, ◌%◌, ◌^◌, ◌<◌, ◌≡◌, ◌≢◌, refl, sym, ◌∙◌, inl, inr, some, Bytes, length,
  get_elem?, get_elem?-cases, get_elem?-lt, Bool-cases, ◌==◌, ==_iff, Ensures, Ensures-mono,
  returns, fails, arith,
}
use presslint.Syntax.Tokenizer.{
  literal_round, literal_loop, scan_literal_string, hex_loop, scan_hex_string,
}
use presslint.Syntax.Tokenizer.Strings.{
  LiteralCloses, escapes, enters, leaves, closes, passes, HexCloses, ends, goes_on, LiteralError,
  HexError,
}

literal_here :
    (words : ℕ) (input : Bytes) (i depth end b : ℕ)
    → get_elem? input i ≡ some b
    → LiteralCloses words input i depth end
    → (b ≡ b'\\' → LiteralCloses words input (i + 2) depth end)
      × (b ≡ b'(' → LiteralCloses words input (i + 1) ((depth + 1) % words) end)
      × (b ≡ b')'
          → (depth + words - 1) % words ≢ 0
          → LiteralCloses words input (i + 1) ((depth + words - 1) % words) end)
      × (b ≢ b'\\' → b ≢ b'(' → b ≢ b')' → LiteralCloses words input (i + 1) depth end)
literal_here words input i depth end b here (escapes e h) =
    let same : b ≡ b'\\' = cc in
    (λ _. h, λ f. absurd (omega arith), λ f _. absurd (omega arith), λ f _ _. absurd (f same))
literal_here words input i depth end b here (enters e h) =
    let same : b ≡ b'(' = cc in
    (λ f. absurd (omega arith), λ _. h, λ f _. absurd (omega arith), λ _ f _. absurd (f same))
literal_here words input i depth end b here (leaves e n h) =
    let same : b ≡ b')' = cc in
    (λ f. absurd (omega arith), λ f. absurd (omega arith), λ _ _. h, λ _ _ f. absurd (f same))
literal_here words input i depth end b here (closes e z) =
    let same : b ≡ b')' = cc in
    (
      λ f. absurd (omega arith),
      λ f. absurd (omega arith),
      λ _ n. absurd (n z),
      λ _ _ f. absurd (f same),
    )
literal_here words input i depth end b here (passes c e n1 n2 n3 h) =
    let same : b ≡ c = cc in
    (
      λ f. absurd (n1 (sym same ∙ f)),
      λ f. absurd (n2 (sym same ∙ f)),
      λ f _. absurd (n3 (sym same ∙ f)),
      λ _ _ _. h,
    )

literal_in :
    (words : ℕ) (input : Bytes) (i depth end : ℕ)
    → LiteralCloses words input i depth end
    → i < length input
literal_in words input i depth end (escapes e h) = get_elem?-lt input i e
literal_in words input i depth end (enters e h) = get_elem?-lt input i e
literal_in words input i depth end (leaves e n h) = get_elem?-lt input i e
literal_in words input i depth end (closes e z) = get_elem?-lt input i e
literal_in words input i depth end (passes c e n1 n2 n3 h) = get_elem?-lt input i e

literal_loop-Ensures :
    (input : Bytes) (start fuel i depth : ℕ)
    → 0 < fuel
    → length input < fuel + i
    → Ensures
        (LiteralCloses (2 ^ 32) input i depth)
        (LiteralError input start i depth)
        (literal_loop input start fuel i depth)
unfolding literal_loop literal_round
literal_loop-Ensures input start zero i depth f h = absurd (omega arith)
literal_loop-Ensures input start (suc fuel) i depth f h = elim (get_elem?-cases input i) [
  | inl (e, ge) ↦
      rw (e, literal_loop)
        (fails (refl, λ end c. let lt = literal_in (2 ^ 32) input i depth end c in omega arith))
  | inr (b, e, lt) ↦
      let inv = λ (end : ℕ). literal_here (2 ^ 32) input i depth end b e in
      elim (Bool-cases (b == b'\\')) [
        | inl e1 ↦
            let same : b ≡ b'\\' = ground arith in
            rw (e, e1, literal_loop)
              (Ensures-mono (λ end c. escapes (rw same at e) c)
                (λ x (k, n). (k, λ end c. n end ((inv end c).0 same)))
                (literal_loop-Ensures input start fuel (i + 2) depth (omega arith) (omega arith)))
        | inr e1 ↦ elim (Bool-cases (b == b'(')) [
          | inl e2 ↦
              let same : b ≡ b'(' = ground arith in
              rw (e, e1, e2, literal_loop)
                (Ensures-mono (λ end c. enters (rw same at e) c)
                  (λ x (k, n). (k, λ end c. n end ((inv end c).1 same)))
                  (literal_loop-Ensures input start fuel (i + 1) ((depth + 1) % 2 ^ 32)
                    (omega arith) (omega arith)))
          | inr e2 ↦ elim (Bool-cases (b == b')')) [
            | inl e3 ↦
                let same : b ≡ b')' = ground arith in
                elim (Bool-cases ((depth + 2 ^ 32 - 1) % 2 ^ 32 == 0)) [
                  | inl z ↦
                      rw (e, e1, e2, e3, z, literal_loop)
                        (returns (closes (rw same at e) (ground arith)))
                  | inr z ↦
                      let n0 : (depth + 2 ^ 32 - 1) % 2 ^ 32 ≢ 0 = λ q. ground arith in
                      rw (e, e1, e2, e3, z, literal_loop)
                        (Ensures-mono (λ end c. leaves (rw same at e) n0 c)
                          (λ x (k, n). (k, λ end c. n end ((inv end c).2 same n0)))
                          (literal_loop-Ensures input start fuel (i + 1)
                            ((depth + 2 ^ 32 - 1) % 2 ^ 32) (omega arith) (omega arith)))
                ]
            | inr e3 ↦
                let n1 : b ≢ b'\\' = λ q. ground arith in
                let n2 : b ≢ b'(' = λ q. ground arith in
                let n3 : b ≢ b')' = λ q. ground arith in
                rw (e, e1, e2, e3, literal_loop)
                  (Ensures-mono (λ end c. passes b e n1 n2 n3 c)
                    (λ x (k, n). (k, λ end c. n end ((inv end c).3 n1 n2 n3)))
                    (literal_loop-Ensures input start fuel (i + 1) depth (omega arith)
                      (omega arith)))
          ]
        ]
      ]
]

pub scan_literal_string-Ensures :
    (input : Bytes) (start : ℕ)
    → start < length input
    → Ensures
        (LiteralCloses (2 ^ 32) input (start + 1) 1)
        (LiteralError input start (start + 1) 1)
        (scan_literal_string input start)
unfolding scan_literal_string
scan_literal_string-Ensures input start h =
    literal_loop-Ensures input start (length input) (start + 1) 1 (omega arith) (omega arith)

hex_in : (input : Bytes) (i end : ℕ) → HexCloses input i end → i < length input
hex_in input i end (ends e) = get_elem?-lt input i e
hex_in input i end (goes_on b e n h) = get_elem?-lt input i e

hex_here :
    (input : Bytes) (i end b : ℕ)
    → get_elem? input i ≡ some b
    → b ≢ b'>'
    → HexCloses input i end
    → HexCloses input (i + 1) end
hex_here input i end b here n (ends e) = absurd (n (cc))
hex_here input i end b here n (goes_on c e m h) = h

hex_loop-Ensures :
    (input : Bytes) (start fuel i : ℕ)
    → 0 < fuel
    → length input < fuel + i
    → Ensures (HexCloses input i) (HexError input start i) (hex_loop input start fuel i)
unfolding hex_loop
hex_loop-Ensures input start zero i f h = absurd (omega arith)
hex_loop-Ensures input start (suc fuel) i f h = elim (get_elem?-cases input i) [
  | inl (e, ge) ↦
      rw (e, hex_loop) (fails (refl, λ end c. let lt = hex_in input i end c in omega arith))
  | inr (b, e, lt) ↦ elim (Bool-cases (b == b'>')) [
    | inl closed ↦ rw (e, closed, hex_loop) (returns (ends (rw ((==_iff b b'>').0 closed) at e)))
    | inr further ↦
        let n : b ≢ b'>' = λ q. ground arith in
        rw (e, further, hex_loop)
          (Ensures-mono (λ end c. goes_on b e n c)
            (λ x (k, m). (k, λ end c. m end (hex_here input i end b e n c)))
            (hex_loop-Ensures input start fuel (i + 1) (omega arith) (omega arith)))
  ]
]

pub scan_hex_string-Ensures :
    (input : Bytes) (start : ℕ)
    → start < length input
    → Ensures
        (HexCloses input (start + 1))
        (HexError input start (start + 1))
        (scan_hex_string input start)
unfolding scan_hex_string
scan_hex_string-Ensures input start h =
    hex_loop-Ensures input start (length input) (start + 1) (omega arith) (omega arith)
