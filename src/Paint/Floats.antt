-- ===== src/Paint/Floats.antt =====
-- What the paint program uses of `f64`, `i32` and the standard library's number parser. Rust owns
-- their meaning, so they are a parameter.
use presslint.Common.{ℕ, Bool, Option, Bytes}

-- `i32`; `negsuc n` is -(n + 1).
pub data ℤ : Type 0 where
  pos : ℕ → ℤ
  negsuc : ℕ → ℤ

pub record Float : Type 1 where
  pub Num : Type 0
  pub zero_num : Num
  pub one_num : Num
  pub add : Num → Num → Num
  pub mul : Num → Num → Num
  pub is_finite : Num → Bool
  -- `core::str::from_utf8(bytes)` and then `parse::<f64>()`; `none` where either fails.
  pub parse : Bytes → Option Num
  pub from_bits : ℕ → Num
  -- `value.fract() != 0.0 || value < i32::MIN || value > i32::MAX`
  pub not_an_i32 : Num → Bool
  -- `value as i32`
  pub as_i32 : Num → ℤ
