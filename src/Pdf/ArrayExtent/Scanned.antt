-- ===== src/Pdf/ArrayExtent/Scanned.antt =====
-- The loop of `inspect_array_extent` comes to what Pdf/ArrayExtent/Scan states.
use presslint.Common.{
  ℕ, zero, suc, ◌+◌, ◌-◌, ◌%◌, ◌^◌, ◌≤◌, ◌<◌, ◌≡◌, ◌≢◌, refl, ap, ◌∙◌, inl, inr, true, false,
  Option, none, some, Bytes, length, get_elem?, get_elem?-cases, leb, ◌==◌, Bool-cases, arith,
}
use presslint.Pdf.Source.{skip_literal_string, skip_hex_string, skip_comment}
use presslint.Pdf.Strings.{
  LiteralEnds, HexEnds, line_comment, literal_further, hex_further, line_further,
}
use presslint.Pdf.Strings.Scanned.{
  skip_literal_string-LiteralEnds, skip_hex_string-HexEnds, skip_comment-LineEnds,
}
use presslint.Pdf.ArrayExtent.{
  string_round, is_at, bracket_round, extent_round, after_round, extent_loop, ExtentResult,
}
use presslint.Pdf.ArrayExtent.Scan.{
  IsScan, runs_out, comment, literal, open_literal, double, hex, open_hex, opens, too_deep,
  closes_inner, closes, passes,
}

is_at-some : (input : Bytes) (i b : ℕ) → is_at input i b ≡ true → get_elem? input i ≡ some b
is_at-some input i b h = elim (get_elem?-cases input i) [
  | inl (n, _) ↦ absurd (let impossible : false ≡ true = rw (n, is_at) at h in cc)
  | inr (c, g, _) ↦
      let hit : (c == b) ≡ true = rw (g, is_at) at h in
      let same : c ≡ b = ground arith in g ∙ ap some same
]

is_at-none : (input : Bytes) (i b : ℕ) → is_at input i b ≡ false → get_elem? input i ≢ some b
is_at-none input i b h g = let missed : (b == b) ≡ false = rw (g, is_at) at h in ground arith

module _ (input : Bytes) (byte_offset opening : ℕ) where
  literal_round-IsScan :
      (loop : ℕ → ℕ → ℕ → ExtentResult) (cursor depth most : ℕ) (o : Option ℕ)
      → get_elem? input cursor ≡ some b'('
      → LiteralEnds input (cursor + 1) 1 o
      → ((c : ℕ) → cursor < c → IsScan input byte_offset opening c depth most (loop c depth most))
      → IsScan input byte_offset opening cursor depth most (
          after_round loop input byte_offset opening cursor most (string_round cursor depth most o))
  unfolding after_round
  literal_round-IsScan loop cursor depth most none g e next = open_literal g e
  literal_round-IsScan loop cursor depth most (some c) g e next =
      literal c g e (next c (omega (arith, literal_further e)))

  hex_round-IsScan :
      (loop : ℕ → ℕ → ℕ → ExtentResult) (cursor depth most : ℕ) (o : Option ℕ)
      → get_elem? input cursor ≡ some b'<'
      → get_elem? input (cursor + 1) ≢ some b'<'
      → HexEnds input (cursor + 1) o
      → ((c : ℕ) → cursor < c → IsScan input byte_offset opening c depth most (loop c depth most))
      → IsScan input byte_offset opening cursor depth most (
          after_round loop input byte_offset opening cursor most (string_round cursor depth most o))
  unfolding after_round
  hex_round-IsScan loop cursor depth most none g n e next = open_hex g n e
  hex_round-IsScan loop cursor depth most (some c) g n e next =
      hex c g n e (next c (omega (arith, hex_further e)))

  bracket_round-IsScan :
      (loop : ℕ → ℕ → ℕ → ExtentResult) (cursor depth most byte : ℕ)
      → get_elem? input cursor ≡ some byte
      → (byte ≢ b'%') × (byte ≢ b'(') × (byte ≢ b'<')
      → (1 ≤ depth) × (depth ≤ 256)
      → ((c d m : ℕ)
          → cursor < c
          → (1 ≤ d) × (d ≤ 256)
          → IsScan input byte_offset opening c d m (loop c d m))
      → IsScan input byte_offset opening cursor depth most (
          after_round loop input byte_offset opening cursor most
            (bracket_round cursor depth most byte))
  unfolding after_round bracket_round
  bracket_round-IsScan loop cursor depth most byte g (n1, n2, n3) (h1, h2) next =
      elim (Bool-cases (byte == b'[')) [
        | inl e ↦
            let here : byte ≡ b'[' = ground arith in
            elim (Bool-cases (depth == 256)) [
              | inl full ↦ rw (e, full) (too_deep (g ∙ ap some here) (ground arith))
              | inr room ↦ elim (Bool-cases (leb (depth + 1) most)) [
                | inl low ↦
                    rw (e, room, low)
                      (opens most (g ∙ ap some here) (ground arith)
                        (omega arith, ground arith, inl refl)
                        (next (cursor + 1) (depth + 1) most (omega arith)
                          (omega arith, ground arith)))
                | inr high ↦
                    rw (e, room, high)
                      (opens (depth + 1) (g ∙ ap some here) (ground arith)
                        (ground arith, omega arith, inr refl)
                        (next (cursor + 1) (depth + 1) (depth + 1) (omega arith)
                          (omega arith, ground arith)))
              ]
            ]
        | inr e ↦ elim (Bool-cases (byte == b']')) [
          | inl c ↦
              let here : byte ≡ b']' = ground arith in
              let down : (depth + 2 ^ 64 - 1) % 2 ^ 64 ≡ depth - 1 = omega arith in
              elim (Bool-cases (depth - 1 == 0)) [
                | inl z ↦ rw (e, c, down, z) (closes (g ∙ ap some here) (ground arith))
                | inr z ↦
                    rw (e, c, down, z)
                      (closes_inner (depth - 1) (g ∙ ap some here) (omega arith) (ground arith) (
                        next (cursor + 1) (depth - 1) most (omega arith)
                          (ground arith, omega arith)))
              ]
          | inr c ↦
              let n4 : byte ≢ b'[' = λ q. ground arith in
              let n5 : byte ≢ b']' = λ q. ground arith in
              rw (e, c)
                (passes byte g (n1, n2, n3, n4, n5)
                  (next (cursor + 1) depth most (omega arith) (h1, h2)))
        ]
      ]

  extent_round-IsScan :
      (loop : ℕ → ℕ → ℕ → ExtentResult) (cursor depth most byte : ℕ)
      → get_elem? input cursor ≡ some byte
      → (1 ≤ depth) × (depth ≤ 256)
      → ((c d m : ℕ)
          → cursor < c
          → (1 ≤ d) × (d ≤ 256)
          → IsScan input byte_offset opening c d m (loop c d m))
      → IsScan input byte_offset opening cursor depth most (
          after_round loop input byte_offset opening cursor most
            (extent_round input cursor depth most byte))
  unfolding after_round extent_round
  extent_round-IsScan loop cursor depth most byte g h next =
      let same = λ (c : ℕ) (lt : cursor < c). next c depth most lt h in
      elim (Bool-cases (byte == b'%')) [
        | inl e1 ↦
            let here : byte ≡ b'%' = ground arith in
            let line = line_comment (g ∙ ap some here) (skip_comment-LineEnds input cursor) in
            rw e1 (
              comment (skip_comment input cursor) (g ∙ ap some here) line
                (same (skip_comment input cursor) (omega (arith, line_further line))))
        | inr e1 ↦ elim (Bool-cases (byte == b'(')) [
          | inl e2 ↦
              let here : byte ≡ b'(' = ground arith in
              rw (e1, e2)
                (literal_round-IsScan loop cursor depth most (skip_literal_string input cursor)
                  (g ∙ ap some here) (skip_literal_string-LiteralEnds input cursor) same)
          | inr e2 ↦ elim (Bool-cases (byte == b'<')) [
            | inl e3 ↦
                let here : byte ≡ b'<' = ground arith in
                elim (Bool-cases (is_at input (cursor + 1) b'<')) [
                  | inl twice ↦
                      rw (e1, e2, e3, twice)
                        (double (g ∙ ap some here) (is_at-some input (cursor + 1) b'<' twice)
                          (same (cursor + 2) (omega arith)))
                  | inr once ↦
                      rw (e1, e2, e3, once)
                        (hex_round-IsScan loop cursor depth most (skip_hex_string input cursor)
                          (g ∙ ap some here) (is_at-none input (cursor + 1) b'<' once)
                          (skip_hex_string-HexEnds input cursor) same)
                ]
            | inr e3 ↦
                let n1 : byte ≢ b'%' = λ q. ground arith in
                let n2 : byte ≢ b'(' = λ q. ground arith in
                let n3 : byte ≢ b'<' = λ q. ground arith in
                rw (e1, e2, e3)
                  (bracket_round-IsScan loop cursor depth most byte g (n1, n2, n3) h next)
          ]
        ]
      ]

  pub extent_loop-IsScan :
      (fuel cursor depth most : ℕ)
      → 0 < fuel
      → length input < fuel + cursor
      → (1 ≤ depth) × (depth ≤ 256)
      → IsScan input byte_offset opening cursor depth most
          (extent_loop input byte_offset opening fuel cursor depth most)
  unfolding extent_loop
  extent_loop-IsScan zero cursor depth most f enough h = absurd (omega arith)
  extent_loop-IsScan (suc fuel) cursor depth most f enough h = elim (get_elem?-cases input cursor) [
    | inl (n, l) ↦ rw (n, extent_loop) (runs_out l)
    | inr (byte, g, l) ↦
        rw (g, extent_loop)
          (extent_round-IsScan (extent_loop input byte_offset opening fuel) cursor depth most byte g
            h (λ c d m lt deep. extent_loop-IsScan fuel c d m (omega arith) (omega arith) deep))
  ]
