-- ===== src/Paint/Names/Escapes.antt =====
-- What `decode_pdf_name` accepts, and what it makes of it.
use presslint.Common.{
  ℕ, ◌+◌, ◌*◌, ◌≡◌, ◌≢◌, ◌↔◌, refl, sym, ap, ◌∙◌, inl, inr, true, false, Option, none, some, [],
  ◌∷◌, Bytes, contains, ◌==◌, Bool-cases, Option-cases, arith,
}
use presslint.Paint.Names.{hex_value, push_escaped, push_byte, decode_loop, decode_pdf_name}

-- The grammar of PDF names: a regular byte stands for itself, `#` and two hexadecimal digits for
-- the byte that they write, and no byte is null.
pub data Spells : Bytes → Bytes → Type 0 where
  nothing : Spells [] []
  plain :
      {b : ℕ} {name decoded : Bytes}
      → b ≢ b'#'
      → b ≢ 0
      → Spells name decoded
      → Spells (b ∷ name) (b ∷ decoded)
  escape :
      {hash h l high low b : ℕ} {name decoded : Bytes}
      → hash ≡ b'#'
      → hex_value h ≡ some high
      → hex_value l ≡ some low
      → b ≡ high * 16 + low
      → b ≢ 0
      → Spells name decoded
      → Spells (hash ∷ h ∷ l ∷ name) (b ∷ decoded)

push_byte-eq-some :
    (b : ℕ) (o : Option Bytes) (d : Bytes)
    → push_byte b o ≡ some d
    → (d' : Bytes) × (o ≡ some d') × (d ≡ b ∷ d')
push_byte-eq-some b none d h = cc
push_byte-eq-some b (some d') d h = (d', refl, cc)

push_plain :
    (b : ℕ) (name : Bytes) (o : Option Bytes) (d : Bytes)
    → b ≢ b'#'
    → b ≢ 0
    → ((d' : Bytes) → o ≡ some d' → Spells name d')
    → push_byte b o ≡ some d
    → Spells (b ∷ name) d
push_plain b name o d h z ih e =
    let (d', e', same) = push_byte-eq-some b o d e in rw same (plain h z (ih d' e'))

push_escape :
    (hash h l : ℕ) (name : Bytes) (o : Option Bytes) (d : Bytes)
    → hash ≡ b'#'
    → ((d' : Bytes) → o ≡ some d' → Spells name d')
    → push_escaped (hex_value h) (hex_value l) (λ b. push_byte b o) ≡ some d
    → Spells (hash ∷ h ∷ l ∷ name) d
unfolding push_escaped
push_escape hash h l name o d hs ih e = elim (Option-cases (hex_value h)) [
  | inl bad ↦ absurd (let no : none ≡ some d = rw (bad, push_escaped) at e in cc)
  | inr (high, eh) ↦ elim (Option-cases (hex_value l)) [
    | inl bad ↦ absurd (let no : none ≡ some d = rw (eh, bad, push_escaped) at e in cc)
    | inr (low, el) ↦ elim (Bool-cases (high * 16 + low == 0)) [
      | inl null ↦ absurd (let no : none ≡ some d = rw (eh, el, push_escaped, null) at e in cc)
      | inr good ↦
          let e' : push_byte (high * 16 + low) o ≡ some d = rw (eh, el, push_escaped, good) at e in
          let (d', is, same) = push_byte-eq-some (high * 16 + low) o d e' in
          rw same (escape hs eh el refl (λ z. ground arith) (ih d' is))
    ]
  ]
]

decode_loop-Spells : (name d : Bytes) → decode_loop name ≡ some d → Spells name d
unfolding decode_loop
decode_loop-Spells [] d e = let same : d ≡ [] = cc in rw same nothing
decode_loop-Spells (b ∷ []) d e = elim (Bool-cases (b == b'#')) [
  | inl h ↦ absurd (let no : none ≡ some d = rw (decode_loop, h) at e in cc)
  | inr h ↦ elim (Bool-cases (b == 0)) [
    | inl z ↦ absurd (let no : none ≡ some d = rw (decode_loop, h, z) at e in cc)
    | inr z ↦
        push_plain b [] (some []) d (λ q. ground arith) (λ q. ground arith)
          (λ d' q. let same : d' ≡ [] = cc in rw same nothing) (rw (decode_loop, h, z) at e)
  ]
]
decode_loop-Spells (b ∷ c ∷ []) d e = elim (Bool-cases (b == b'#')) [
  | inl h ↦ absurd (let no : none ≡ some d = rw (decode_loop, h) at e in cc)
  | inr h ↦ elim (Bool-cases (b == 0)) [
    | inl z ↦ absurd (let no : none ≡ some d = rw (decode_loop, h, z) at e in cc)
    | inr z ↦
        push_plain b (c ∷ []) (decode_loop (c ∷ [])) d (λ q. ground arith) (λ q. ground arith)
          (λ d' q. decode_loop-Spells (c ∷ []) d' q) (rw (decode_loop, h, z) at e)
  ]
]
decode_loop-Spells (b ∷ c ∷ c' ∷ name) d e = elim (Bool-cases (b == b'#')) [
  | inl h ↦
      push_escape b c c' name (decode_loop name) d (ground arith)
        (λ d' q. decode_loop-Spells name d' q) (rw (decode_loop, h) at e)
  | inr h ↦ elim (Bool-cases (b == 0)) [
    | inl z ↦ absurd (let no : none ≡ some d = rw (decode_loop, h, z) at e in cc)
    | inr z ↦
        push_plain b (c ∷ c' ∷ name) (decode_loop (c ∷ c' ∷ name)) d (λ q. ground arith)
          (λ q. ground arith) (λ d' q. decode_loop-Spells (c ∷ c' ∷ name) d' q)
          (rw (decode_loop, h, z) at e)
  ]
]

Spells-decode_loop : {name d : Bytes} → Spells name d → decode_loop name ≡ some d
unfolding decode_loop push_escaped
Spells-decode_loop nothing = refl
Spells-decode_loop (plain {b} {name = []} {decoded} h z nothing) =
    let th : (b == b'#') ≡ false = ground arith in
    let tz : (b == 0) ≡ false = ground arith in rw (th, tz) refl
Spells-decode_loop (plain {b} {name = c ∷ []} {decoded} h z s) =
    let th : (b == b'#') ≡ false = ground arith in
    let tz : (b == 0) ≡ false = ground arith in
    rw (th, tz) (ap (push_byte b) (Spells-decode_loop s))
Spells-decode_loop (plain {b} {name = c ∷ c' ∷ name} {decoded} h z s) =
    let th : (b == b'#') ≡ false = ground arith in
    let tz : (b == 0) ≡ false = ground arith in
    rw (th, tz) (ap (push_byte b) (Spells-decode_loop s))
Spells-decode_loop (escape {hash} {h} {l} {high} {low} {b} {name} {decoded} hs eh el same z s) =
    let th : (hash == b'#') ≡ true = ground arith in
    let tz : (high * 16 + low == 0) ≡ false = ground arith in
    rw (th, eh, el, push_escaped, tz)
      (ap (push_byte (high * 16 + low)) (Spells-decode_loop s)
        ∙ ap (λ x. some (x ∷ decoded)) (sym same))

-- Without `#`, only a null byte can stop the loop.
decode_loop_plain :
    (name : Bytes) → contains b'#' name ≡ false → contains 0 name ≡ false → Spells name name
unfolding contains
decode_loop_plain [] h z = nothing
decode_loop_plain (b ∷ name) h z =
    plain (λ q. ground arith) (λ q. ground arith)
      (decode_loop_plain name (ground arith) (ground arith))

Spells-contains :
    {name d : Bytes}
    → Spells name d
    → contains b'#' name ≡ false
    → (name ≡ d) × (contains 0 name ≡ false)
unfolding contains
Spells-contains nothing h = (refl, refl)
Spells-contains (plain {b} {name} {decoded} g z s) h =
    let (same, clean) = Spells-contains s (ground arith) in (ap (λ xs. b ∷ xs) same, ground arith)
Spells-contains (escape hs eh el same z s) h = absurd (ground arith)

-- `decode_pdf_name` returns a result exactly for the names that the grammar allows, and it is the
-- bytes that they spell.
pub decode_pdf_name_iff : (name d : Bytes) → (decode_pdf_name name ≡ some d) ↔ Spells name d
unfolding decode_pdf_name
decode_pdf_name_iff name d = elim (Bool-cases (contains b'#' name)) [
  | inl h ↦ rw h (decode_loop-Spells name d, λ s. Spells-decode_loop s)
  | inr h ↦ elim (Bool-cases (contains 0 name)) [
    | inl z ↦ rw (h, z) (λ e. cc, λ s. let (_, clean) = Spells-contains s h in cc)
    | inr z ↦
        rw (h, z)
          (
            λ e. let same : d ≡ name = cc in rw same (decode_loop_plain name h z),
            λ s. ap some (Spells-contains s h).0,
          )
  ]
]
