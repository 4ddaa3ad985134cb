-- ===== src/Pdf/Strings/Scanned.antt =====
-- The scanners of crates/presslint-pdf/src/source_utils.rs find the ends that Pdf/Strings states.
use presslint.Common.{
  ℕ, zero, suc, ◌+◌, ◌-◌, ◌%◌, ◌^◌, ◌≤◌, ◌≡◌, ◌≢◌, refl, ap, ◌∙◌, inl, inr, false, some, [], ◌∷◌,
  Bytes, length, length-drop, drop, get_elem?, ◌==◌, Bool-cases, arith,
}
use presslint.Pdf.Source.{
  is_pdf_whitespace, skip_whitespace, literal_scan, skip_literal_string, hex_scan, skip_hex_string,
  comment_scan, skip_comment,
}
use presslint.Pdf.Strings.{
  LiteralEnds, never, escapes, enters, leaves, closes, passes, HexEnds, lacks, ends, goes_on,
  LineEnds, at_end, at_break, continues, SpaceEnds, nothing, significant, blank,
}

-- The bytes from `i` on, taken apart.
past_end : (input : Bytes) (i : ℕ) → drop i input ≡ [] → length input ≤ i
past_end input i h =
    let none_left : length (drop i input) ≡ 0 = ap length h in omega (arith, length-drop i input)

head_at :
    (input : Bytes) (i b : ℕ) (bs : Bytes)
    → drop i input ≡ b ∷ bs
    → (get_elem? input i ≡ some b) × (drop (i + 1) input ≡ bs)
head_at [] zero b bs h = cc
head_at [] (suc i) b bs h = cc
head_at (x ∷ xs) zero b bs h = (cc, cc)
head_at (x ∷ xs) (suc i) b bs h =
    let (g, rest) = head_at xs i b bs h in
    let next : suc i + 1 ≡ suc (i + 1) = omega arith in (g, ap (λ n. drop n (x ∷ xs)) next ∙ rest)

pub hex_scan-HexEnds :
    (input bytes : Bytes) (i : ℕ) → drop i input ≡ bytes → HexEnds input i (hex_scan bytes i)
unfolding hex_scan
hex_scan-HexEnds input [] i h = lacks (past_end input i h)
hex_scan-HexEnds input (b ∷ bs) i h =
    let (g, h') = head_at input i b bs h in
    elim (Bool-cases (b == b'>')) [
      | inl e ↦ let same : b ≡ b'>' = ground arith in rw e (ends (g ∙ ap some same))
      | inr e ↦
          let n : b ≢ b'>' = λ q. ground arith in
          rw e (goes_on b g n (hex_scan-HexEnds input bs (i + 1) h'))
    ]

pub comment_scan-LineEnds :
    (input bytes : Bytes) (i : ℕ) → drop i input ≡ bytes → LineEnds input i (comment_scan bytes i)
unfolding comment_scan
comment_scan-LineEnds input [] i h = at_end (past_end input i h)
comment_scan-LineEnds input (b ∷ bs) i h =
    let (g, h') = head_at input i b bs h in
    elim (Bool-cases (b == b'\r')) [
      | inl e ↦ rw e (at_break b g (inl (ground arith)))
      | inr e ↦ elim (Bool-cases (b == b'\n')) [
        | inl e' ↦ rw (e, e') (at_break b g (inr (ground arith)))
        | inr e' ↦
            let n : b ≢ b'\r' = λ q. ground arith in
            let n' : b ≢ b'\n' = λ q. ground arith in
            rw (e, e') (continues b g n n' (comment_scan-LineEnds input bs (i + 1) h'))
      ]
    ]

pub skip_whitespace-SpaceEnds :
    (input bytes : Bytes) (i : ℕ)
    → drop i input ≡ bytes
    → SpaceEnds input i (i + skip_whitespace bytes)
unfolding skip_whitespace
skip_whitespace-SpaceEnds input [] i h =
    let here : i + 0 ≡ i = omega arith in rw here (nothing (past_end input i h))
skip_whitespace-SpaceEnds input (b ∷ bs) i h =
    let (g, h') = head_at input i b bs h in
    elim (Bool-cases (is_pdf_whitespace b)) [
      | inl e ↦
          let there : i + (skip_whitespace bs + 1) ≡ i + 1 + skip_whitespace bs = omega arith in
          rw (e, there) (blank b g e (skip_whitespace-SpaceEnds input bs (i + 1) h'))
      | inr e ↦ let here : i + 0 ≡ i = omega arith in rw (e, here) (significant b g e)
    ]

pub literal_scan-LiteralEnds :
    (input bytes : Bytes) (i depth : ℕ)
    → drop i input ≡ bytes
    → LiteralEnds input i depth (literal_scan bytes i depth)
unfolding literal_scan
literal_scan-LiteralEnds input [] i depth h = never (past_end input i h)
literal_scan-LiteralEnds input (b ∷ []) i depth h =
    let (g, h') = head_at input i b [] h in
    let over : length input ≤ i + 1 = past_end input (i + 1) h' in
    let far : length input ≤ i + 2 = omega arith in
    elim (Bool-cases (b == b'\\')) [
      | inl e ↦
          let same : b ≡ b'\\' = ground arith in
          let other : (b == b')') ≡ false = ground arith in
          rw other (escapes (g ∙ ap some same) (never far))
      | inr e ↦ elim (Bool-cases (b == b'(')) [
        | inl e' ↦
            let same : b ≡ b'(' = ground arith in
            let other : (b == b')') ≡ false = ground arith in
            rw other (enters (g ∙ ap some same) (never over))
        | inr e' ↦ elim (Bool-cases (b == b')')) [
          | inl c ↦
              let same : b ≡ b')' = ground arith in
              elim (Bool-cases ((depth + 2 ^ 64 - 1) % 2 ^ 64 == 0)) [
                | inl z ↦ rw (c, z) (closes (g ∙ ap some same) (ground arith))
                | inr z ↦
                    let n : (depth + 2 ^ 64 - 1) % 2 ^ 64 ≢ 0 = λ q. ground arith in
                    rw (c, z) (leaves (g ∙ ap some same) n (never over))
              ]
          | inr c ↦
              let n1 : b ≢ b'\\' = λ q. ground arith in
              let n2 : b ≢ b'(' = λ q. ground arith in
              let n3 : b ≢ b')' = λ q. ground arith in rw c (passes b g n1 n2 n3 (never over))
        ]
      ]
    ]
literal_scan-LiteralEnds input (b ∷ second ∷ bs) i depth h =
    let (g, h') = head_at input i b (second ∷ bs) h in
    let (g', h'') = head_at input (i + 1) second bs h' in
    let two : i + 1 + 1 ≡ i + 2 = omega arith in
    let next = literal_scan-LiteralEnds input (second ∷ bs) (i + 1) in
    elim (Bool-cases (b == b'\\')) [
      | inl e ↦
          let same : b ≡ b'\\' = ground arith in
          rw e (
            escapes (g ∙ ap some same)
              (literal_scan-LiteralEnds input bs (i + 2) depth (rw two at h'')))
      | inr e ↦ elim (Bool-cases (b == b'(')) [
        | inl e' ↦
            let same : b ≡ b'(' = ground arith in
            rw (e, e') (enters (g ∙ ap some same) (next ((depth + 1) % 2 ^ 64) h'))
        | inr e' ↦ elim (Bool-cases (b == b')')) [
          | inl c ↦
              let same : b ≡ b')' = ground arith in
              elim (Bool-cases ((depth + 2 ^ 64 - 1) % 2 ^ 64 == 0)) [
                | inl z ↦ rw (e, e', c, z) (closes (g ∙ ap some same) (ground arith))
                | inr z ↦
                    let n : (depth + 2 ^ 64 - 1) % 2 ^ 64 ≢ 0 = λ q. ground arith in
                    rw (e, e', c, z)
                      (leaves (g ∙ ap some same) n (next ((depth + 2 ^ 64 - 1) % 2 ^ 64) h'))
              ]
          | inr c ↦
              let n1 : b ≢ b'\\' = λ q. ground arith in
              let n2 : b ≢ b'(' = λ q. ground arith in
              let n3 : b ≢ b')' = λ q. ground arith in
              rw (e, e', c) (passes b g n1 n2 n3 (next depth h'))
        ]
      ]
    ]

pub skip_literal_string-LiteralEnds :
    (input : Bytes) (cursor : ℕ)
    → LiteralEnds input (cursor + 1) 1 (skip_literal_string input cursor)
unfolding skip_literal_string
skip_literal_string-LiteralEnds input cursor =
    literal_scan-LiteralEnds input (drop (cursor + 1) input) (cursor + 1) 1 refl

pub skip_hex_string-HexEnds :
    (input : Bytes) (cursor : ℕ) → HexEnds input (cursor + 1) (skip_hex_string input cursor)
unfolding skip_hex_string
skip_hex_string-HexEnds input cursor =
    hex_scan-HexEnds input (drop (cursor + 1) input) (cursor + 1) refl

pub skip_comment-LineEnds :
    (input : Bytes) (cursor : ℕ) → LineEnds input cursor (skip_comment input cursor)
unfolding skip_comment
skip_comment-LineEnds input cursor = comment_scan-LineEnds input (drop cursor input) cursor refl
