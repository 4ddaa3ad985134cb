-- ===== src/Pdf/Source.antt =====
-- Byte scanners of crates/presslint-pdf/src/source_utils.rs. A loop over `input.get(cursor)` recurs
-- on the bytes from `cursor` on. The depth is a `usize`.
use presslint.Common.{
  ℕ, ◌+◌, ◌-◌, ◌%◌, ◌^◌, Bool, ◌||◌, ◌&&◌, Option, none, some, [], ◌∷◌, Bytes, drop, ◌==◌,
  if◌then◌else◌,
}

unfoldable pub is_pdf_whitespace : ℕ → Bool
is_pdf_whitespace byte =
    byte == 0 || byte == b'\t' || byte == b'\n' || byte == 12 || byte == b'\r' || byte == b' '

-- `.position(|byte| !is_pdf_whitespace(*byte)).unwrap_or(bytes.len())`
unfoldable pub skip_whitespace : Bytes → ℕ
unfolding is_pdf_whitespace
skip_whitespace [] = 0
skip_whitespace (byte ∷ bytes) =
    let rest = skip_whitespace bytes in if is_pdf_whitespace byte then rest + 1 else 0

unfoldable pub literal_scan : Bytes → ℕ → ℕ → Option ℕ
literal_scan [] cursor depth = none
literal_scan (byte ∷ []) cursor depth =
    if byte == b')' && (depth + 2 ^ 64 - 1) % 2 ^ 64 == 0 then some (cursor + 1) else none
literal_scan (byte ∷ second ∷ bytes) cursor depth =
    let escaped = literal_scan bytes (cursor + 2) depth in
    let deeper = literal_scan (second ∷ bytes) (cursor + 1) ((depth + 1) % 2 ^ 64) in
    let after = literal_scan (second ∷ bytes) (cursor + 1) ((depth + 2 ^ 64 - 1) % 2 ^ 64) in
    let plain = literal_scan (second ∷ bytes) (cursor + 1) depth in
    if byte == b'\\'
    then escaped
    else if byte == b'('
    then deeper
    else if byte == b')'
    then (if (depth + 2 ^ 64 - 1) % 2 ^ 64 == 0 then some (cursor + 1) else after)
    else plain

unfoldable pub skip_literal_string : Bytes → ℕ → Option ℕ
unfolding literal_scan
skip_literal_string input opening = literal_scan (drop (opening + 1) input) (opening + 1) 1

unfoldable pub hex_scan : Bytes → ℕ → Option ℕ
hex_scan [] cursor = none
hex_scan (byte ∷ bytes) cursor =
    let rest = hex_scan bytes (cursor + 1) in if byte == b'>' then some (cursor + 1) else rest

unfoldable pub skip_hex_string : Bytes → ℕ → Option ℕ
unfolding hex_scan
skip_hex_string input opening = hex_scan (drop (opening + 1) input) (opening + 1)

unfoldable pub comment_scan : Bytes → ℕ → ℕ
comment_scan [] cursor = cursor
comment_scan (byte ∷ bytes) cursor =
    let rest = comment_scan bytes (cursor + 1) in
    if byte == b'\r' || byte == b'\n' then cursor else rest

unfoldable pub skip_comment : Bytes → ℕ → ℕ
unfolding comment_scan
skip_comment input start = comment_scan (drop start input) start
