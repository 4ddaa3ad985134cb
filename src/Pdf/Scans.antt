-- ===== src/Pdf/Scans.antt =====
-- Where the scanners of crates/presslint-pdf/src/source_utils.rs end.
use presslint.Common.{
  ℕ, Bool, true, false, ◌≡◌, refl, ◌+◌, ◌-◌, ◌%◌, ◌^◌, ◌≤◌, ◌<◌, inl, inr, ◌&&◌, ◌||◌, Option, none,
  some, [], ◌∷◌, Bytes, length, ◌==◌, Bool-cases, arith,
}
use presslint.Pdf.Source.{skip_whitespace, literal_scan, hex_scan, comment_scan}

-- A scan of the bytes from `cursor` on ends behind `cursor`, within the bytes.
abbrev pub EndsWithin : ℕ → ℕ → Option ℕ → Type 0
EndsWithin cursor limit none = Unit
EndsWithin cursor limit (some end) = (cursor < end) × (end ≤ limit)

EndsWithin-mono :
    (a b limit limit' : ℕ) (o : Option ℕ)
    → a ≤ b
    → limit ≤ limit'
    → EndsWithin b limit o
    → EndsWithin a limit' o
EndsWithin-mono a b limit limit' none h k r = tt
EndsWithin-mono a b limit limit' (some end) h k (r, r') = (omega arith, omega arith)

pub hex_scan-EndsWithin :
    (bytes : Bytes) (cursor : ℕ) → EndsWithin cursor (cursor + length bytes) (hex_scan bytes cursor)
unfolding hex_scan
hex_scan-EndsWithin [] cursor = tt
hex_scan-EndsWithin (byte ∷ bytes) cursor = elim (Bool-cases (byte == b'>')) [
  | inl e ↦ rw e (omega arith, omega arith)
  | inr e ↦ rw e (
      EndsWithin-mono cursor (cursor + 1) (cursor + 1 + length bytes)
        (cursor + length (byte ∷ bytes)) (hex_scan bytes (cursor + 1)) (omega arith) (omega arith)
        (hex_scan-EndsWithin bytes (cursor + 1)))
]

pub literal_scan-EndsWithin :
    (bytes : Bytes) (cursor depth : ℕ)
    → EndsWithin cursor (cursor + length bytes) (literal_scan bytes cursor depth)
unfolding literal_scan
literal_scan-EndsWithin [] cursor depth = tt
literal_scan-EndsWithin (byte ∷ []) cursor depth =
    elim (Bool-cases (byte == b')' && (depth + 2 ^ 64 - 1) % 2 ^ 64 == 0)) [
      | inl e ↦ rw e (omega arith, omega arith)
      | inr e ↦ rw e tt
    ]
literal_scan-EndsWithin (byte ∷ second ∷ bytes) cursor depth =
    let limit = cursor + length (byte ∷ second ∷ bytes) in
    let escaped =
      EndsWithin-mono cursor (cursor + 2) (cursor + 2 + length bytes) limit _ (omega arith)
        (omega arith) (literal_scan-EndsWithin bytes (cursor + 2) depth) in
    let next : (d : ℕ) → EndsWithin cursor limit (literal_scan (second ∷ bytes) (cursor + 1) d) =
      λ d.
        EndsWithin-mono cursor (cursor + 1) (cursor + 1 + length (second ∷ bytes)) limit _
          (omega arith) (omega arith) (literal_scan-EndsWithin (second ∷ bytes) (cursor + 1) d) in
    elim (Bool-cases (byte == b'\\')) [
      | inl e ↦ rw e escaped
      | inr e ↦ elim (Bool-cases (byte == b'(')) [
        | inl e' ↦ rw (e, e') (next ((depth + 1) % 2 ^ 64))
        | inr e' ↦ elim (Bool-cases (byte == b')')) [
          | inl c ↦ elim (Bool-cases ((depth + 2 ^ 64 - 1) % 2 ^ 64 == 0)) [
            | inl z ↦ rw (e, e', c, z) (omega arith, omega arith)
            | inr z ↦ rw (e, e', c, z) (next ((depth + 2 ^ 64 - 1) % 2 ^ 64))
          ]
          | inr c ↦ rw (e, e', c) (next depth)
        ]
      ]
    ]

pub comment_scan_bounds :
    (bytes : Bytes) (cursor : ℕ)
    → (cursor ≤ comment_scan bytes cursor) × (comment_scan bytes cursor ≤ cursor + length bytes)
unfolding comment_scan
comment_scan_bounds [] cursor = (omega arith, omega arith)
comment_scan_bounds (byte ∷ bytes) cursor =
    let (low, high) = comment_scan_bounds bytes (cursor + 1) in
    elim (Bool-cases (byte == b'\r' || byte == b'\n')) [
      | inl e ↦ rw e (omega arith, omega arith)
      | inr e ↦ rw e (omega arith, omega arith)
    ]

pub skip_whitespace_bound : (bytes : Bytes) → skip_whitespace bytes ≤ length bytes
unfolding skip_whitespace
skip_whitespace_bound [] = omega arith
skip_whitespace_bound (byte ∷ bytes) = ground (arith, skip_whitespace_bound bytes)

pub and_left : (a b : Bool) → a && b ≡ true → a ≡ true
and_left true b h = refl
and_left false b h = cc

pub and_right : (a b : Bool) → a && b ≡ true → b ≡ true
and_right true b h = h
and_right false b h = cc
