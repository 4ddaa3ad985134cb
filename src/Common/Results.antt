-- ===== src/Common/Results.antt =====
-- What a call of a Rust function comes to. `panic` is an index out of range, an arithmetic
-- overflow that the code does not guard, or an `unreachable!`. `stuck` is a loop of the model
-- that ran out of fuel. No function of the program returns them on purpose.
use mathlib.Core.Path.{◌≡◌, refl, subst}
use mathlib.Core.Logic.{◌⊎◌, inl, inr}
use mathlib.Core.Option.{Option, none, some}

pub data Outcome {ℓ κ} (E : Type κ) (A : Type ℓ) : Type (ℓ ⊔ κ) where
  ok : A → Outcome E A
  err : E → Outcome E A
  panic : Outcome E A
  stuck : Outcome E A

infixl 5 ◌>>=◌
abbrev pub ◌>>=◌ {ℓ ι κ} :
    {E : Type κ} {A : Type ℓ} {B : Type ι} → Outcome E A → (A → Outcome E B) → Outcome E B
panic >>= next = panic
stuck >>= next = stuck
err reason >>= next = err reason
ok value >>= next = next value

-- `xs[i]`
abbrev pub or_panic {ℓ κ} : {E : Type κ} {A : Type ℓ} → Option A → Outcome E A
or_panic (some a) = ok a
or_panic none = panic

-- `.ok_or(e)?`
abbrev pub ok_or {ℓ κ} : {E : Type κ} {A : Type ℓ} → Option A → E → Outcome E A
ok_or (some a) e = ok a
ok_or none e = err e

-- The call comes back: with a value of which `P` holds, or with an error of which `Q` holds.
pub data Ensures {ℓ κ} {E : Type κ} {A : Type ℓ} (P : A → Type 0) (Q : E → Type 0)
    : Outcome E A → Type (ℓ ⊔ κ) where
  returns : {a : A} → P a → Ensures P Q (ok a)
  fails : {e : E} → Q e → Ensures P Q (err e)

module _ {ℓ κ} {E : Type κ} {A : Type ℓ} where
  pub Ensures-mono :
      {P P' : A → Type 0} {Q Q' : E → Type 0} {m : Outcome E A}
      → ((a : A) → P a → P' a)
      → ((e : E) → Q e → Q' e)
      → Ensures P Q m
      → Ensures P' Q' m
  Ensures-mono f g (returns {a} h) = returns (f a h)
  Ensures-mono f g (fails {e} h) = fails (g e h)

  pub Ensures-ok :
      {P : A → Type 0} {Q : E → Type 0} {m : Outcome E A} {a : A} → Ensures P Q m → m ≡ ok a → P a
  Ensures-ok {P} (returns {a = b} h) e = subst P (cc) h
  Ensures-ok (fails h) e = cc

  pub Ensures-err :
      {P : A → Type 0} {Q : E → Type 0} {m : Outcome E A} {x : E} → Ensures P Q m → m ≡ err x → Q x
  Ensures-err (returns h) e = cc
  Ensures-err {Q} (fails {e = y} h) e = subst Q (cc) h

  pub Ensures-returns :
      {P : A → Type 0} {Q : E → Type 0} {m : Outcome E A}
      → Ensures P Q m
      → ((a : A) × (m ≡ ok a) × P a) ⊎ ((e : E) × (m ≡ err e) × Q e)
  Ensures-returns (returns {a} h) = inl (a, refl, h)
  Ensures-returns (fails {e} h) = inr (e, refl, h)

pub Ensures->>= {ℓ ι κ} :
    {E : Type κ} {A : Type ℓ} {B : Type ι} {P : A → Type 0} {R : B → Type 0} {Q : E → Type 0}
    {m : Outcome E A} {f : A → Outcome E B}
    → Ensures P Q m
    → ((a : A) → P a → Ensures R Q (f a))
    → Ensures R Q (m >>= f)
Ensures->>= (returns {a} h) k = k a h
Ensures->>= (fails h) k = fails h
