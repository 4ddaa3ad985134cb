-- ===== src/Xref/Bytes.antt =====
-- Big-endian numbers: what `push_be` writes, `decode_field` reads.
use native.Mathlib.Nat.{pow-suc, mul-le-mul_right, mul_assoc, mul_comm}
use presslint.Common.{
  ℕ, zero, suc, ◌+◌, ◌-◌, ◌*◌, ◌/◌, ◌%◌, ◌^◌, ◌≤◌, ◌<◌, ◌≡◌, refl, ap, ◌∙◌, inl, inr, [], ◌∷◌, ◌++◌,
  Bytes, length, drop, length-append, ◌==◌, Bool-cases, arith,
}
use presslint.Xref.Entries.{word_mod, big_endian}
use presslint.Xref.Pack.{be_bytes, to_be_bytes, width_loop, minimal_width, push_be}

big_endian-append :
    (v : ℕ) (xs : Bytes) (b : ℕ)
    → big_endian v (xs ++ b ∷ []) ≡ big_endian v xs * 256 % word_mod + b
unfolding big_endian
big_endian-append v [] b = refl
big_endian-append v (x ∷ xs) b = big_endian-append (v * 256 % word_mod + x) xs b

pub big_endian-be_bytes : (n v : ℕ) → v < 256 ^ n → v < word_mod → big_endian 0 (be_bytes n v) ≡ v
unfolding be_bytes big_endian
big_endian-be_bytes zero v h k = omega arith
big_endian-be_bytes (suc n) v h k =
    let ih = big_endian-be_bytes n (v / 256) (omega (arith, pow-suc 256 n)) (omega arith) in
    omega (arith, ih, big_endian-append 0 (be_bytes n (v / 256)) (v % 256))

pub length-be_bytes : (n v : ℕ) → length (be_bytes n v) ≡ n
unfolding be_bytes
length-be_bytes zero v = refl
length-be_bytes (suc n) v =
    omega
      (arith, length-append (be_bytes n (v / 256)) ((v % 256) ∷ []), length-be_bytes n (v / 256))

drop-append : (xs ys : Bytes) (k : ℕ) → k ≤ length xs → drop k (xs ++ ys) ≡ drop k xs ++ ys
drop-append xs ys zero h = refl
drop-append [] ys (suc k) h = absurd (omega arith)
drop-append (x ∷ xs) ys (suc k) h = drop-append xs ys k (omega arith)

drop_all : (xs : Bytes) (k : ℕ) → length xs ≡ k → drop k xs ≡ []
drop_all [] zero h = refl
drop_all [] (suc k) h = refl
drop_all (x ∷ xs) zero h = absurd (omega arith)
drop_all (x ∷ xs) (suc k) h = drop_all xs k (omega arith)

drop-be_bytes : (w n k v : ℕ) → n ≡ k + w → drop k (be_bytes n v) ≡ be_bytes w v
unfolding be_bytes
drop-be_bytes zero n k v h = drop_all (be_bytes n v) k (omega (arith, length-be_bytes n v))
drop-be_bytes (suc w) zero k v h = absurd (omega arith)
drop-be_bytes (suc w) (suc n) k v h =
    drop-append (be_bytes n (v / 256)) ((v % 256) ∷ []) k
      (omega (arith, length-be_bytes n (v / 256)))
    ∙ ap (λ xs. xs ++ (v % 256) ∷ []) (drop-be_bytes w n k (v / 256) (omega arith))

-- `push_be` appends the last `width` bytes.
pub push_be-be_bytes : (out : Bytes) (v w : ℕ) → w ≤ 8 → push_be out v w ≡ out ++ be_bytes w v
unfolding push_be to_be_bytes
push_be-be_bytes out v w h =
    ap (λ xs. out ++ xs)
      (ap (λ n. drop (n - w) (be_bytes 8 v)) (length-be_bytes 8 v)
        ∙ drop-be_bytes w 8 (8 - w) v (omega arith))

abbrev AllBytes : Bytes → Type 0
AllBytes [] = Unit
AllBytes (b ∷ bs) = (b < 256) × AllBytes bs

AllBytes-concat : (bs : Bytes) (b : ℕ) → AllBytes bs → b < 256 → AllBytes (bs ++ b ∷ [])
AllBytes-concat [] b h k = (k, tt)
AllBytes-concat (x ∷ bs) b (hx, h) k = (hx, AllBytes-concat bs b h k)

be_bytes-AllBytes : (n v : ℕ) → AllBytes (be_bytes n v)
unfolding be_bytes
be_bytes-AllBytes zero v = tt
be_bytes-AllBytes (suc n) v =
    AllBytes-concat (be_bytes n (v / 256)) (v % 256) (be_bytes-AllBytes n (v / 256)) (omega arith)

lt_of_step : (x a b p : ℕ) → a ≤ b * 256 → x < a * p → x < b * (p * 256)
lt_of_step x a b p h k =
    let scaled = mul-le-mul_right p h in
    let same : b * 256 * p ≡ b * (p * 256) = mul_assoc b 256 p ∙ ap (λ n. b * n) (mul_comm 256 p) in
    omega (arith, scaled, same)

big_endian-lt : (v : ℕ) (bs : Bytes) → AllBytes bs → big_endian v bs < (v + 1) * 256 ^ length bs
unfolding big_endian
big_endian-lt v [] h = omega arith
big_endian-lt v (b ∷ bs) (hb, h) =
    let step : v * 256 % word_mod + b + 1 ≤ (v + 1) * 256 = omega arith in
    let ih = big_endian-lt (v * 256 % word_mod + b) bs h in
    rw (pow-suc 256 (length bs)) (lt_of_step _ _ (v + 1) (256 ^ length bs) step ih)

width_loop_bounds :
    (total index : ℕ) (bs : Bytes)
    → index + length bs ≡ total
    → length bs ≤ 8
    → (1 ≤ width_loop total index bs) × (width_loop total index bs ≤ 8)
unfolding width_loop
width_loop_bounds total index [] e h = omega arith
width_loop_bounds total index (b ∷ bs) e h = ground (arith, width_loop_bounds total (index + 1) bs)

big_endian-lt-width_loop :
    (total index : ℕ) (bs : Bytes)
    → AllBytes bs
    → index + length bs ≡ total
    → big_endian 0 bs < 256 ^ width_loop total index bs
unfolding width_loop
big_endian-lt-width_loop total index [] a e = unfold big_endian in omega arith
big_endian-lt-width_loop total index (b ∷ bs) (ab, a) e = elim (Bool-cases (b == 0)) [
  | inl zero_byte ↦
      let same : big_endian 0 (b ∷ bs) ≡ big_endian 0 bs =
        unfold big_endian in ap (λ n. big_endian n bs) (ground arith) in
      rw (zero_byte, width_loop)
        (rw same (big_endian-lt-width_loop total (index + 1) bs a (omega arith)))
  | inr lead ↦
      let count : total - index ≡ length (b ∷ bs) = omega arith in
      rw (lead, width_loop) (rw count (omega (arith, big_endian-lt 0 (b ∷ bs) (ab, a))))
]

-- `minimal_width` is between 1 and 8, and its bytes hold the number.
pub minimal_width_bounds :
    (v : ℕ)
    → v < word_mod
    → (1 ≤ minimal_width v) × (minimal_width v ≤ 8) × (v < 256 ^ minimal_width v)
unfolding minimal_width to_be_bytes
minimal_width_bounds v h =
    let bs = be_bytes 8 v in
    let range =
      width_loop_bounds (length bs) 0 bs (omega arith) (omega (arith, length-be_bytes 8 v)) in
    let below = big_endian-lt-width_loop (length bs) 0 bs (be_bytes-AllBytes 8 v) (omega arith) in
    (range.0, range.1, rw (big_endian-be_bytes 8 v (omega arith) h) at below)
