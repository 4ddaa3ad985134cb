-- ===== src/Syntax/Serializer/Exact.antt =====
-- The serializer gives the source back, on exactly the token lists that span it.
use presslint.Common.{
  ℕ, ◌+◌, ◌≤◌, ◌≡◌, refl, ap, ◌∙◌, ◌↔◌, List, [], ◌∷◌, ◌++◌, Bytes, length, take, slice, take-all,
  take-append-slice, get_range?, arith, ok, Ensures-ok,
}
use presslint.Syntax.Model.{Token, source_bytes}
use presslint.Syntax.Tokenizer.{tokenize}
use presslint.Syntax.Tokenizer.Bounds.{Covers}
use presslint.Syntax.Tokenizer.Cover.{tokenize-Ensures}
use presslint.Syntax.Serializer.{serialize_loop, serialize_tokens_unmodified}

-- The ranges follow one another from `from` up to `to`; a range may be empty.
abbrev pub Spans : ℕ → ℕ → List Token → Type 0
Spans from to [] = from ≡ to
Spans from to (t ∷ ts) =
    (t.range.start ≡ from) × (from ≤ t.range.end) × (t.range.end ≤ to) × Spans t.range.end to ts

serialize_loop-eq-ok :
    (source : Bytes) (i from : ℕ) (output : Bytes) (ts : List Token)
    → from ≤ length source
    → output ≡ take from source
    → Spans from (length source) ts
    → serialize_loop source i from output ts ≡ ok source
unfolding serialize_loop source_bytes get_range?
serialize_loop-eq-ok source i from output [] le e s = ground (arith, take-all source from)
serialize_loop-eq-ok source i from output (t ∷ ts) le e (starts, lo, hi, rest) =
    let next =
      serialize_loop-eq-ok source (i + 1) t.range.end (output ++ slice source from t.range.end) ts
        hi
        (ap (λ o. o ++ slice source from t.range.end) e
          ∙ take-append-slice source from t.range.end lo)
        rest in
    ground (arith, next)

serialize_loop-Spans :
    (source : Bytes) (i from : ℕ) (output : Bytes) (ts : List Token) {out : Bytes}
    → serialize_loop source i from output ts ≡ ok out
    → Spans from (length source) ts
unfolding serialize_loop source_bytes get_range?
serialize_loop-Spans source i from output [] e = ground arith
serialize_loop-Spans source i from output (t ∷ ts) {out} e = ground (
  arith,
  serialize_loop-Spans source (i + 1) t.range.end (output ++ slice source t.range.start t.range.end)
      ts {out = out},
)

-- `serialize_tokens_unmodified` succeeds on exactly the token lists whose ranges follow one another
-- from 0 to the end of the source, and what it then returns is the source.
pub serialize_tokens_unmodified_iff :
    (source : Bytes) (tokens : List Token) (out : Bytes)
    → (serialize_tokens_unmodified source tokens ≡ ok out)
      ↔ ((out ≡ source) × Spans 0 (length source) tokens)
unfolding serialize_tokens_unmodified
serialize_tokens_unmodified_iff source tokens out = (
  λ e.
      let s = serialize_loop-Spans source 0 0 [] tokens e in
      let again = serialize_loop-eq-ok source 0 0 [] tokens (omega arith) refl s in (cc, s),
  λ (e, s). rw e (serialize_loop-eq-ok source 0 0 [] tokens (omega arith) refl s),
)

Covers-Spans : (from to : ℕ) (ts : List Token) → Covers from to ts → (from ≤ to) × Spans from to ts
Covers-Spans from to [] c = (omega arith, c)
Covers-Spans from to (t ∷ ts) (starts, lt, rest) =
    let tail = Covers-Spans t.range.end to ts rest in
    (omega arith, (starts, omega arith, tail.0, tail.1))

-- Whatever `tokenize` accepts is written back byte for byte.
pub serialize_tokens_unmodified-tokenize :
    (input : Bytes) {ts : List Token}
    → tokenize input ≡ ok ts
    → serialize_tokens_unmodified input ts ≡ ok input
serialize_tokens_unmodified-tokenize input {ts} e =
    (serialize_tokens_unmodified_iff input ts input).1
      (refl, (Covers-Spans 0 (length input) ts (Ensures-ok (tokenize-Ensures input) e).0).1)
