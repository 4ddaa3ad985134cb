-- ===== src/Common/Lists.antt =====
-- Slices and vectors as lists measured and indexed by native numbers.
use Prim.Native.Nat.{ℕ, zero, suc, ◌+◌, ◌-◌, ◌≤◌, ◌<◌}
use Prim.Native.Char.{code}
use Prim.Native.String.{String}
use mathlib.Core.Path.{◌≡◌, refl, ap, ◌∙◌}
use mathlib.Core.Logic.{◌≢◌, ◌⊎◌, inl, inr}
use mathlib.Core.Bool.{Bool, true, false, ◌&&◌}
use mathlib.Core.List.{List, [], ◌∷◌, ◌++◌}
use mathlib.Core.Option.{Option, none, some}
use native.Mathlib.Omega.{arith}
use native.Mathlib.Nat.{sub-zero}
use presslint.Common.Tests.{leb, ◌==◌, if◌then◌else◌}

-- A `&[u8]`: every element is meant to be below 256.
abbrev pub Bytes : Type 0
Bytes = List ℕ

-- The bytes of an ASCII literal.
abbrev pub codes : String → Bytes
codes String.[] = []
codes (String.◌∷◌ c s) = code c ∷ codes s

-- `==` on byte slices.
unfoldable pub bytes_eq : Bytes → Bytes → Bool
bytes_eq [] [] = true
bytes_eq (x ∷ xs) (y ∷ ys) = x == y && bytes_eq xs ys
bytes_eq _ _ = false

pub bytes_eq→eq : (xs ys : Bytes) → bytes_eq xs ys ≡ true → xs ≡ ys
unfolding bytes_eq
bytes_eq→eq [] [] h = refl
bytes_eq→eq (x ∷ xs) (y ∷ ys) h = ground (arith, bytes_eq→eq xs ys)
bytes_eq→eq [] (y ∷ ys) h = cc
bytes_eq→eq (x ∷ xs) [] h = cc

pub bytes_eq_refl : (xs : Bytes) → bytes_eq xs xs ≡ true
unfolding bytes_eq
bytes_eq_refl [] = refl
bytes_eq_refl (x ∷ xs) = ground (arith, bytes_eq_refl xs)

-- `xs.contains(&x)` on a slice of numbers.
unfoldable pub contains : ℕ → Bytes → Bool
contains x [] = false
contains x (y ∷ ys) = if x == y then true else contains x ys

module _ {ℓ} {A : Type ℓ} where
  abbrev pub length : List A → ℕ
  length [] = 0
  length (x ∷ xs) = suc (length xs)

  abbrev pub get_elem? : List A → ℕ → Option A
  get_elem? [] i = none
  get_elem? (x ∷ xs) zero = some x
  get_elem? (x ∷ xs) (suc i) = get_elem? xs i

  abbrev pub take : ℕ → List A → List A
  take zero xs = []
  take (suc n) [] = []
  take (suc n) (x ∷ xs) = x ∷ take n xs

  abbrev pub drop : ℕ → List A → List A
  drop zero xs = xs
  drop (suc n) [] = []
  drop (suc n) (x ∷ xs) = drop n xs

  -- The elements from `i` up to `j`, for `i ≤ j`.
  abbrev pub slice : List A → ℕ → ℕ → List A
  slice xs i j = take (j - i) (drop i xs)

  -- `xs.get(i..j)`
  unfoldable pub get_range? : List A → ℕ → ℕ → Option (List A)
  get_range? xs i j = if leb i j && leb j (length xs) then some (slice xs i j) else none

  pub length-append : (xs ys : List A) → length (xs ++ ys) ≡ length xs + length ys
  length-append [] ys = omega arith
  length-append (x ∷ xs) ys = omega (arith, length-append xs ys)

  pub get_elem?-lt : (xs : List A) (i : ℕ) {a : A} → get_elem? xs i ≡ some a → i < length xs
  get_elem?-lt [] i e = cc
  get_elem?-lt (x ∷ xs) zero e = omega arith
  get_elem?-lt (x ∷ xs) (suc i) e = omega (arith, get_elem?-lt xs i e)

  -- To split on a read, and keep what it says of the index.
  pub get_elem?-cases :
      (xs : List A) (i : ℕ)
      → (get_elem? xs i ≡ none) × (length xs ≤ i)
        ⊎ ((a : A) × (get_elem? xs i ≡ some a) × (i < length xs))
  get_elem?-cases [] i = inl (refl, omega arith)
  get_elem?-cases (x ∷ xs) zero = inr (x, refl, omega arith)
  get_elem?-cases (x ∷ xs) (suc i) = elim (get_elem?-cases xs i) [
    | inl (e, h) ↦ inl (e, omega arith)
    | inr (a, e, h) ↦ inr (a, e, omega arith)
  ]

  -- The same for `ground`, which is given the split and not the value.
  pub get_elem?-bound :
      (xs : List A) (i : ℕ)
      → (get_elem? xs i ≡ none) × (length xs ≤ i) ⊎ (get_elem? xs i ≢ none) × (i < length xs)
  get_elem?-bound xs i = elim (get_elem?-cases xs i) [
    | inl h ↦ inl h
    | inr (a, e, h) ↦ inr (λ n. cc, h)
  ]

  pub get_elem?-ge : (xs : List A) (i : ℕ) → get_elem? xs i ≡ none → length xs ≤ i
  get_elem?-ge [] i e = omega arith
  get_elem?-ge (x ∷ xs) zero e = cc
  get_elem?-ge (x ∷ xs) (suc i) e = omega (arith, get_elem?-ge xs i e)

  pub get_elem?-some : (xs : List A) (i : ℕ) → i < length xs → (a : A) × (get_elem? xs i ≡ some a)
  get_elem?-some [] i h = absurd (omega arith)
  get_elem?-some (x ∷ xs) zero h = (x, refl)
  get_elem?-some (x ∷ xs) (suc i) h = get_elem?-some xs i (omega arith)

  pub take-all : (xs : List A) (n : ℕ) → length xs ≤ n → take n xs ≡ xs
  take-all [] zero h = refl
  take-all [] (suc n) h = refl
  take-all (x ∷ xs) zero h = absurd (omega arith)
  take-all (x ∷ xs) (suc n) h = ap (◌∷◌ x) (take-all xs n (omega arith))

pub take-nil {ℓ} : (A : Type ℓ) (n : ℕ) → take {A = A} n [] ≡ []
take-nil A zero = refl
take-nil A (suc n) = refl

module _ {ℓ} {A : Type ℓ} where
  pub take-append-slice : (xs : List A) (i j : ℕ) → i ≤ j → take i xs ++ slice xs i j ≡ take j xs
  take-append-slice xs zero j h = ap (λ n. take n xs) (omega arith)
  take-append-slice [] (suc i) zero h = absurd (omega arith)
  take-append-slice [] (suc i) (suc j) h = take-nil A (suc j - suc i)
  take-append-slice (x ∷ xs) (suc i) zero h = absurd (omega arith)
  take-append-slice (x ∷ xs) (suc i) (suc j) h = ap (◌∷◌ x) (
      ap (λ n. take i xs ++ take n (drop i xs)) (omega arith)
      ∙ take-append-slice xs i j (omega arith))

  pub slice_one :
      (xs : List A) (i : ℕ) (x : A) → get_elem? xs i ≡ some x → slice xs i (i + 1) ≡ x ∷ []
  slice_one [] i x h = cc
  slice_one (y ∷ ys) zero x h = ground arith
  slice_one (y ∷ ys) (suc i) x h = ap (λ n. take n (drop i ys)) (omega arith) ∙ slice_one ys i x h

  pub slice_two :
      (xs : List A) (i : ℕ) (x y : A)
      → get_elem? xs i ≡ some x
      → get_elem? xs (i + 1) ≡ some y
      → slice xs i (i + 2) ≡ x ∷ y ∷ []
  slice_two [] i x y h k = cc
  slice_two (z ∷ []) zero x y h k = cc
  slice_two (z ∷ w ∷ zs) zero x y h k = ground arith
  slice_two (z ∷ zs) (suc i) x y h k =
      let e : suc (i + 1) ≡ suc i + 1 = omega arith in
      ap (λ n. take n (drop i zs)) (omega arith)
      ∙ slice_two zs i x y h (ap (get_elem? (z ∷ zs)) e ∙ k)

  pub slice-cons : (x : A) (xs : List A) (i j : ℕ) → slice (x ∷ xs) (suc i) (suc j) ≡ slice xs i j
  slice-cons x xs i j = ap (λ n. take n (drop i xs)) (omega arith)

  pub slice-append :
      (xs : List A) (i j k : ℕ) → i ≤ j → j ≤ k → slice xs i j ++ slice xs j k ≡ slice xs i k
  slice-append xs zero j k h g = simp sub-zero (take-append-slice xs j k g)
  slice-append xs (suc i) zero k h g = absurd (omega arith)
  slice-append xs (suc i) (suc j) zero h g = absurd (omega arith)
  slice-append [] (suc i) (suc j) (suc k) h g =
      rw (take-nil A (suc j - suc i), take-nil A (suc k - suc j), take-nil A (suc k - suc i))
  slice-append (x ∷ xs) (suc i) (suc j) (suc k) h g =
      simp slice-cons (slice-append xs i j k (omega arith) (omega arith))

  pub get_elem?-take : (xs : List A) (n k : ℕ) → k < n → get_elem? (take n xs) k ≡ get_elem? xs k
  get_elem?-take xs zero k h = absurd (omega arith)
  get_elem?-take [] (suc n) k h = refl
  get_elem?-take (x ∷ xs) (suc n) zero h = refl
  get_elem?-take (x ∷ xs) (suc n) (suc k) h = get_elem?-take xs n k (omega arith)

  pub get_elem?-drop : (xs : List A) (i k : ℕ) → get_elem? (drop i xs) k ≡ get_elem? xs (i + k)
  get_elem?-drop xs zero k = ap (get_elem? xs) (omega arith)
  get_elem?-drop [] (suc i) k = refl
  get_elem?-drop (x ∷ xs) (suc i) k =
      let e : suc (i + k) ≡ suc i + k = omega arith in
      get_elem?-drop xs i k ∙ ap (get_elem? (x ∷ xs)) e

  pub get_elem?-slice :
      (xs : List A) (i j k : ℕ) → i + k < j → get_elem? (slice xs i j) k ≡ get_elem? xs (i + k)
  get_elem?-slice xs i j k h =
      get_elem?-take (drop i xs) (j - i) k (omega arith) ∙ get_elem?-drop xs i k

  pub length-take : (n : ℕ) (xs : List A) → n ≤ length xs → length (take n xs) ≡ n
  length-take zero xs h = refl
  length-take (suc n) [] h = absurd (omega arith)
  length-take (suc n) (x ∷ xs) h = ap suc (length-take n xs (omega arith))

  pub length-drop : (n : ℕ) (xs : List A) → length (drop n xs) ≡ length xs - n
  length-drop zero xs = omega arith
  length-drop (suc n) [] = omega arith
  length-drop (suc n) (x ∷ xs) = omega (arith, length-drop n xs)

  pub length-slice : (xs : List A) (i j : ℕ) → j ≤ length xs → length (slice xs i j) ≡ j - i
  length-slice xs i j h = length-take (j - i) (drop i xs) (omega (arith, length-drop i xs))
