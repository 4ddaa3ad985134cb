-- ===== src/Syntax/Tokenizer/Bounds.antt =====
-- Where the scanners of the tokenizer stop: every token ends behind its start and inside the
-- input, and every loop has enough fuel.
use presslint.Common.{
  ℕ, zero, suc, ◌+◌, ◌≤◌, ◌<◌, ◌≡◌, refl, inl, inr, Bool, true, some, List, [], ◌∷◌, Bytes, length,
  get_elem?-bound, Option-cases, arith,
}
use presslint.Syntax.Model.{Token, Delimiter}
use presslint.Syntax.Tokenizer.{
  is_regular, byte_is, skip_while, scan_delimiter, delimiter_or_regular,
}

pub skip_while_bounds :
    (go : ℕ → Bool) (input : Bytes) (fuel offset : ℕ)
    → offset ≤ length input
    → (offset ≤ skip_while go input fuel offset) × (skip_while go input fuel offset ≤ length input)
unfolding skip_while
skip_while_bounds go input zero offset h = omega arith
skip_while_bounds go input (suc fuel) offset h =
    ground (arith, get_elem?-bound input offset, skip_while_bounds go input fuel (offset + 1))

-- The tokens are one behind the other, each with a byte at least, from `from` up to `to`.
abbrev pub Covers : ℕ → ℕ → List Token → Type 0
Covers from to [] = from ≡ to
Covers from to (t ∷ ts) = (t.range.start ≡ from) × (from < t.range.end) × Covers t.range.end to ts

-- A token that starts at `offset`, holds a byte, and ends inside the input.
abbrev pub StandsAt : Bytes → ℕ → Token → Type 0
StandsAt input offset t =
    (t.range.start ≡ offset) × (offset < t.range.end) × (t.range.end ≤ length input)

byte_is-lt : (input : Bytes) (i byte : ℕ) → byte_is input i byte ≡ true → i < length input
unfolding byte_is
byte_is-lt input i byte = ground (arith, get_elem?-bound input i)

scan_delimiter_bounds :
    (input : Bytes) (offset byte : ℕ) {d : Delimiter} {end : ℕ}
    → offset < length input
    → scan_delimiter input offset byte ≡ some (d, end)
    → (offset < end) × (end ≤ length input)
unfolding scan_delimiter
scan_delimiter_bounds input offset byte h =
    ground (arith, byte_is-lt input (offset + 1) b'<', byte_is-lt input (offset + 1) b'>')

pub delimiter_or_regular-StandsAt :
    (input : Bytes) (offset byte : ℕ)
    → offset < length input
    → StandsAt input offset (delimiter_or_regular input offset (scan_delimiter input offset byte))
unfolding delimiter_or_regular
delimiter_or_regular-StandsAt input offset byte h =
    elim (Option-cases (scan_delimiter input offset byte)) [
      | inl e ↦
          rw (e, delimiter_or_regular)
            (
              refl,
              omega (arith, skip_while_bounds is_regular input (length input) (offset + 1)),
              omega (arith, skip_while_bounds is_regular input (length input) (offset + 1)),
            )
      | inr ((d, end), e) ↦
          rw (e, delimiter_or_regular)
            (let b = scan_delimiter_bounds input offset byte h e in (refl, b.0, b.1))
    ]
