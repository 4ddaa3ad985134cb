-- ===== src/Pdf/ArrayExtent/Rounds.antt =====
-- What one round of the loop of `inspect_array_extent` comes to.
use presslint.Common.{
  ℕ, zero, suc, ◌+◌, ◌-◌, ◌%◌, ◌^◌, ◌≤◌, ◌<◌, ◌≡◌, ap, ◌∙◌, inl, inr, ◌⊎◌, true, false, ◌&&◌,
  length-drop, Option, none, some, [], ◌∷◌, Bytes, length, drop, get_elem?, get_elem?-cases, ◌==◌,
  Bool-cases, arith,
}
use presslint.Pdf.Source.{skip_literal_string, skip_hex_string, comment_scan, skip_comment}
use presslint.Pdf.ArrayExtent.{
  ArrayExtentInspection, ArrayExtentInspectionError, ArrayExtentInspectionRejection, Round, moved,
  closed, failed, string_round, is_at, bracket_round, extent_round,
}
use presslint.Pdf.Scans.{
  and_right, EndsWithin, hex_scan-EndsWithin, literal_scan-EndsWithin, comment_scan_bounds,
}

-- The array's brackets are bytes of the input, at or behind the offset asked for, and the depth is
-- between 1 and the maximum.
pub record IsExtent (input : Bytes) (byte_offset : ℕ) (r : ArrayExtentInspection) : Type 0 where
  pub same_offset : r.byte_offset ≡ byte_offset
  pub behind : byte_offset ≤ r.open_byte_offset
  pub opens : get_elem? input r.open_byte_offset ≡ some b'['
  pub in_order : r.open_byte_offset < r.close_byte_offset
  pub closes : get_elem? input r.close_byte_offset ≡ some b']'
  pub after : r.after_close_byte_offset ≡ r.close_byte_offset + 1
  pub in_input : r.after_close_byte_offset ≤ length input
  pub depth_low : 1 ≤ r.max_observed_depth
  pub depth_high : r.max_observed_depth ≤ 256

-- A reason goes with an offset that shows it.
abbrev pub Shows : Bytes → ℕ → ArrayExtentInspectionRejection → Option ℕ → Type 0
Shows input byte_offset ArrayExtentInspectionRejection.offset_out_of_bounds none =
    length input ≤ byte_offset
Shows input byte_offset ArrayExtentInspectionRejection.no_significant_token (some at) =
    at ≡ length input
Shows input byte_offset ArrayExtentInspectionRejection.not_array_open (some at) =
    (byte : ℕ) × (get_elem? input at ≡ some byte) × ((byte == b'[') ≡ false)
Shows input byte_offset ArrayExtentInspectionRejection.unterminated_string (some at) =
    (byte : ℕ) × (get_elem? input at ≡ some byte) × ((byte ≡ b'(') ⊎ (byte ≡ b'<'))
Shows input byte_offset ArrayExtentInspectionRejection.unterminated_array none = Unit
Shows input byte_offset ArrayExtentInspectionRejection.max_nesting_exceeded (some at) =
    get_elem? input at ≡ some b'['
Shows input byte_offset _ _ = ⊥

pub record IsExtentError (input : Bytes) (byte_offset : ℕ) (e : ArrayExtentInspectionError)
    : Type 0 where
  pub same_offset : e.byte_offset ≡ byte_offset
  pub same_len : e.byte_len ≡ length input
  pub shown : Shows input byte_offset e.reason e.error_byte_offset

abbrev pub IsRound : Bytes → ℕ → ℕ → ℕ → Round → Type 0
IsRound input byte_offset cursor byte (moved c d m) =
    (cursor < c) × (c ≤ length input) × (1 ≤ d) × (d ≤ m) × (m ≤ 256)
IsRound input byte_offset cursor byte closed = byte ≡ b']'
IsRound input byte_offset cursor byte (failed reason at) = Shows input byte_offset reason (some at)

string_round-IsRound :
    (input : Bytes) (byte_offset cursor byte depth max_depth : ℕ) (o : Option ℕ)
    → get_elem? input cursor ≡ some byte
    → (byte ≡ b'(') ⊎ (byte ≡ b'<')
    → (1 ≤ depth) × (depth ≤ max_depth) × (max_depth ≤ 256)
    → EndsWithin (cursor + 1) (length input) o
    → IsRound input byte_offset cursor byte (string_round cursor depth max_depth o)
string_round-IsRound input byte_offset cursor byte depth max_depth none g b h e = (byte, g, b)
string_round-IsRound input byte_offset cursor byte depth max_depth (some end) g b (h1, h2, h3)
      (e, e') =
    (omega arith, e', h1, h2, h3)

is_at-lt : (input : Bytes) (i byte : ℕ) → is_at input i byte ≡ true → i < length input
is_at-lt input i byte h = elim (get_elem?-cases input i) [
  | inl (n, _) ↦ absurd (let impossible : false ≡ true = rw (n, is_at) at h in cc)
  | inr (_, _, l) ↦ l
]

drop_from : (xs : Bytes) (i : ℕ) (x : ℕ) → get_elem? xs i ≡ some x → drop i xs ≡ x ∷ drop (i + 1) xs
drop_from [] i x h = cc
drop_from (y ∷ ys) zero x h = ap (λ z. z ∷ ys) (cc)
drop_from (y ∷ ys) (suc i) x h =
    let next : suc (i + 1) ≡ suc i + 1 = omega arith in
    drop_from ys i x h ∙ ap (λ n. x ∷ drop n (y ∷ ys)) next

pub skip_comment_bounds :
    (input : Bytes) (cursor : ℕ)
    → get_elem? input cursor ≡ some b'%'
    → cursor < length input
    → (cursor < skip_comment input cursor) × (skip_comment input cursor ≤ length input)
unfolding skip_comment comment_scan
skip_comment_bounds input cursor g l =
    let (low, high) = comment_scan_bounds (drop (cursor + 1) input) (cursor + 1) in
    let size : cursor + 1 + length (drop (cursor + 1) input) ≡ length input =
      omega (arith, length-drop (cursor + 1) input) in
    rw (drop_from input cursor b'%' g) (omega arith, omega arith)

bracket_round-IsRound :
    (input : Bytes) (byte_offset cursor depth max_depth byte : ℕ)
    → get_elem? input cursor ≡ some byte
    → cursor < length input
    → (1 ≤ depth) × (depth ≤ max_depth) × (max_depth ≤ 256)
    → IsRound input byte_offset cursor byte (bracket_round cursor depth max_depth byte)
unfolding bracket_round
bracket_round-IsRound input byte_offset cursor depth max_depth byte g l (h1, h2, h3) =
    elim (Bool-cases (byte == b'[')) [
      | inl e ↦
          let here : byte ≡ b'[' = ground arith in
          elim (Bool-cases (depth == 256)) [
            | inl full ↦ rw (e, full) (g ∙ ap some here)
            | inr room ↦
                rw (e, room) (omega arith, omega arith, omega arith, ground arith, ground arith)
          ]
      | inr e ↦ elim (Bool-cases (byte == b']')) [
        | inl c ↦ elim (Bool-cases ((depth + 2 ^ 64 - 1) % 2 ^ 64 == 0)) [
          | inl z ↦ rw (e, c, z) (ground arith)
          | inr z ↦ rw (e, c, z) (omega arith, omega arith, ground arith, omega arith, h3)
        ]
        | inr c ↦ rw (e, c) (omega arith, omega arith, h1, h2, h3)
      ]
    ]

pub extent_round-IsRound :
    (input : Bytes) (byte_offset cursor depth max_depth byte : ℕ)
    → get_elem? input cursor ≡ some byte
    → cursor < length input
    → (1 ≤ depth) × (depth ≤ max_depth) × (max_depth ≤ 256)
    → IsRound input byte_offset cursor byte (extent_round input cursor depth max_depth byte)
unfolding extent_round skip_literal_string skip_hex_string
extent_round-IsRound input byte_offset cursor depth max_depth byte g l (h1, h2, h3) =
    let size : cursor + 1 + length (drop (cursor + 1) input) ≡ length input =
      omega (arith, length-drop (cursor + 1) input) in
    let literal = literal_scan-EndsWithin (drop (cursor + 1) input) (cursor + 1) 1 in
    let hex = hex_scan-EndsWithin (drop (cursor + 1) input) (cursor + 1) in
    elim (Bool-cases (byte == b'%')) [
      | inl e1 ↦
          let here : byte ≡ b'%' = ground arith in
          let (low, high) = skip_comment_bounds input cursor (g ∙ ap some here) l in
          rw e1 (low, high, h1, h2, h3)
      | inr e1 ↦ elim (Bool-cases (byte == b'(')) [
        | inl e2 ↦
            rw (e1, e2)
              (string_round-IsRound input byte_offset cursor byte depth max_depth _ g
                (inl (ground arith)) (h1, h2, h3) (rw size at literal))
        | inr e2 ↦ elim (Bool-cases (byte == b'<' && is_at input (cursor + 1) b'<')) [
          | inl e3 ↦
              let second = is_at-lt input (cursor + 1) b'<' (and_right (byte == b'<') _ e3) in
              rw (e1, e2, e3) (omega arith, omega arith, h1, h2, h3)
          | inr e3 ↦ elim (Bool-cases (byte == b'<')) [
            | inl e4 ↦
                rw (e1, e2, e3, e4)
                  (string_round-IsRound input byte_offset cursor byte depth max_depth _ g
                    (inr (ground arith)) (h1, h2, h3) (rw size at hex))
            | inr e4 ↦
                rw (e1, e2, e3, e4)
                  (bracket_round-IsRound input byte_offset cursor depth max_depth byte g l
                    (h1, h2, h3))
          ]
        ]
      ]
    ]
