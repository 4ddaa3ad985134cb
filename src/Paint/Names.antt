-- ===== src/Paint/Names.antt =====
-- `decode_pdf_name` and `hex_value`, which crates/presslint-pdf/src/source_utils.rs and
-- crates/presslint-paint/src/font_env.rs both define.
pub mod Escapes
use presslint.Common.{
  ℕ, zero, suc, ◌+◌, ◌-◌, ◌*◌, Bool, ◌&&◌, not, Option, none, some, List, [], ◌∷◌, ◌++◌, Bytes,
  contains, leb, ◌==◌, if◌then◌else◌,
}

unfoldable pub hex_value : ℕ → Option ℕ
hex_value byte =
    if leb b'0' byte && leb byte b'9'
    then some (byte - b'0')
    else if leb b'a' byte && leb byte b'f'
    then some (byte - b'a' + 10)
    else if leb b'A' byte && leb byte b'F'
    then some (byte - b'A' + 10)
    else none

-- `(high << 4) | low` for two digits, a null byte refused; then the rest of the name.
unfoldable pub push_escaped : Option ℕ → Option ℕ → (ℕ → Option Bytes) → Option Bytes
push_escaped none low rest = none
push_escaped (some high) none rest = none
push_escaped (some high) (some low) rest =
    if high * 16 + low == 0 then none else rest (high * 16 + low)

-- `decoded.push(byte)` before the rest.
abbrev pub push_byte : ℕ → Option Bytes → Option Bytes
push_byte byte none = none
push_byte byte (some bytes) = some (byte ∷ bytes)

-- The loop over `cursor`, on the bytes from `cursor` on. `?` on a failed digit is `none`.
unfoldable pub decode_loop : Bytes → Option Bytes
decode_loop [] = some []
decode_loop (byte ∷ []) =
    if not (byte == b'#') then (if byte == 0 then none else some (byte ∷ [])) else none
decode_loop (byte ∷ second ∷ []) =
    let rest = push_byte byte (decode_loop (second ∷ [])) in
    if not (byte == b'#') then (if byte == 0 then none else rest) else none
decode_loop (byte ∷ second ∷ third ∷ bytes) =
    let rest = push_byte byte (decode_loop (second ∷ third ∷ bytes)) in
    let after = decode_loop bytes in
    if not (byte == b'#')
    then (if byte == 0 then none else rest)
    else push_escaped (hex_value second) (hex_value third) (λ b. push_byte b after)

unfoldable pub decode_pdf_name : Bytes → Option Bytes
unfolding hex_value push_escaped decode_loop contains
decode_pdf_name name =
    if not (contains b'#' name)
    then (if not (contains 0 name) then some name else none)
    else decode_loop name
