-- ===== src/Pdf/DictionaryExtent/Bounds.antt =====
-- What `inspect_dictionary_extent` returns: offsets of brackets inside the input, and a bounded depth.
use presslint.Common.{
  ℕ, zero, suc, ◌+◌, ◌≤◌, ◌<◌, ◌≡◌, refl, ap, ◌∙◌, inl, inr, length-drop, some, Bytes, length, drop,
  get_elem?, get_elem?-cases, get_elem?-some, leb, ◌==◌, Bool-cases, Ensures, returns, fails, arith,
}
use presslint.Pdf.Source.{skip_whitespace}
use presslint.Pdf.DictionaryExtent.{
  Round, moved, closed, failed, extent_round, after_round, extent_loop, is_at,
  inspect_dictionary_extent, ExtentResult,
}
use presslint.Pdf.Scans.{skip_whitespace_bound}
use presslint.Pdf.DictionaryExtent.Rounds.{
  IsExtent, IsExtentError, IsRound, is_at-some, extent_round-IsRound,
}

after_round-Ensures :
    (input : Bytes) (byte_offset opening cursor max_depth byte : ℕ)
    (loop : ℕ → ℕ → ℕ → ExtentResult)
    → byte_offset ≤ opening
    → (get_elem? input opening ≡ some b'<') × (get_elem? input (opening + 1) ≡ some b'<')
    → opening + 2 ≤ cursor
    → get_elem? input cursor ≡ some byte
    → cursor < length input
    → (1 ≤ max_depth) × (max_depth ≤ 256)
    → ((c d m : ℕ)
        → cursor < c
        → c ≤ length input
        → (1 ≤ d) × (d ≤ m) × (m ≤ 256)
        → Ensures (IsExtent input byte_offset) (IsExtentError input byte_offset) (loop c d m))
    → (round : Round) → IsRound input byte_offset cursor byte round
    → Ensures
        (IsExtent input byte_offset)
        (IsExtentError input byte_offset)
        (after_round loop input byte_offset opening cursor max_depth round)
unfolding after_round
after_round-Ensures input byte_offset opening cursor max_depth byte loop b o lt g l (d1, d2) next
      (moved c d m) (r1, r2, r3, r4, r5) =
    next c d m r1 r2 (r3, r4, r5)
after_round-Ensures input byte_offset opening cursor max_depth byte loop b o lt g l (d1, d2) next
      closed (here, next_byte, fits) =
    returns (record {
      same_offset = refl;
      behind = b;
      opens = o.0;
      opens_twice = o.1;
      in_order = lt;
      closes = g ∙ ap some here;
      closes_twice = next_byte;
      after = refl;
      in_input = omega arith;
      depth_low = d1;
      depth_high = d2;
    })
after_round-Ensures input byte_offset opening cursor max_depth byte loop b o lt g l (d1, d2) next
      (failed reason at) shown =
    fails (record { same_offset = refl; same_len = refl; shown = shown })

extent_loop-Ensures :
    (input : Bytes) (byte_offset opening fuel cursor depth max_depth : ℕ)
    → byte_offset ≤ opening
    → (get_elem? input opening ≡ some b'<') × (get_elem? input (opening + 1) ≡ some b'<')
    → opening + 2 ≤ cursor
    → cursor ≤ length input
    → length input < fuel + cursor
    → (1 ≤ depth) × (depth ≤ max_depth) × (max_depth ≤ 256)
    → Ensures
        (IsExtent input byte_offset)
        (IsExtentError input byte_offset)
        (extent_loop input byte_offset opening fuel cursor depth max_depth)
unfolding extent_loop after_round
extent_loop-Ensures input byte_offset opening zero cursor depth max_depth b o lt le enough h =
    absurd (omega arith)
extent_loop-Ensures input byte_offset opening (suc fuel) cursor depth max_depth b o lt le enough h =
    elim (get_elem?-cases input cursor) [
      | inl (n, _) ↦
          rw (n, extent_loop) (fails (record { same_offset = refl; same_len = refl; shown = tt }))
      | inr (byte, g, l) ↦
          rw (g, extent_loop)
            (after_round-Ensures input byte_offset opening cursor max_depth byte
              (extent_loop input byte_offset opening fuel) b o lt g l (omega arith, h.2)
              (λ c d m moves ends deep.
                extent_loop-Ensures input byte_offset opening fuel c d m b o (omega arith) ends
                  (omega arith) deep)
              (extent_round input cursor depth max_depth byte)
              (extent_round-IsRound input byte_offset cursor depth max_depth byte g l h))
    ]

-- For every input and offset, the call comes back: with the offset that it got, an opening `<<`
-- at or behind it, a closing `>>` behind that, the offset after it, and a depth from 1 to 256; or
-- with an error that holds the offset, the length of the input and a reason, where the bytes that
-- the error points to are of the kind that the reason names.
pub inspect_dictionary_extent-Ensures :
    (input : Bytes) (byte_offset : ℕ)
    → Ensures
        (IsExtent input byte_offset)
        (IsExtentError input byte_offset)
        (inspect_dictionary_extent input byte_offset)
unfolding inspect_dictionary_extent
inspect_dictionary_extent-Ensures input byte_offset =
    let opening = byte_offset + skip_whitespace (drop byte_offset input) in
    elim (Bool-cases (leb (length input) byte_offset)) [
      | inl past ↦
          rw past (fails (record { same_offset = refl; same_len = refl; shown = ground arith }))
      | inr inside ↦ elim (Bool-cases (opening == length input)) [
        | inl bare ↦
            rw (inside, bare)
              (fails (record { same_offset = refl; same_len = refl; shown = ground arith }))
        | inr token ↦
            let before : byte_offset < length input = ground arith in
            let within : opening ≤ length input = omega (
              arith,
              skip_whitespace_bound (drop byte_offset input),
              length-drop byte_offset input,
            ) in
            let inner : opening < length input = ground arith in
            let (first, g) = get_elem?-some input opening inner in
            elim (Bool-cases (first == b'<')) [
              | inl bracket ↦ elim (Bool-cases (is_at input (opening + 1) b'<')) [
                | inl twice ↦
                    let here : first ≡ b'<' = ground arith in
                    let (g', l) = is_at-some input (opening + 1) b'<' twice in
                    rw (inside, token, g, bracket, twice)
                      (extent_loop-Ensures input byte_offset opening (length input) (opening + 2) 1
                        1 (omega arith) (g ∙ ap some here, g') (omega arith) (omega arith)
                        (omega arith) (omega arith, omega arith, omega arith))
                | inr once ↦
                    rw (inside, token, g, bracket, once)
                      (fails (record {
                        same_offset = refl;
                        same_len = refl;
                        shown = (first, g, inr once);
                      }))
              ]
              | inr other ↦
                  rw (inside, token, g, other)
                    (fails (record {
                      same_offset = refl;
                      same_len = refl;
                      shown = (first, g, inl other);
                    }))
            ]
      ]
    ]
