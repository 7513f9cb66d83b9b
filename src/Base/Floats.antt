-- ===== src/Base/Floats.antt =====
-- The floating point numbers of the target, which no file of the repository implements: the
-- types and the operations that the code uses, as a parameter of what computes with them.
use Prim.Native.Nat.{ℕ}
use mathlib.Core.Bool.{Bool}

pub record Floats : Type 1 where
  pub F32 : Type 0
  pub F64 : Type 0
  -- the f32 literal n / d
  pub lit : ℕ → ℕ → F32
  pub neg : F32 → F32
  pub add : F32 → F32 → F32
  pub sub : F32 → F32 → F32
  pub mul : F32 → F32 → F32
  pub div : F32 → F32 → F32
  pub log10 : F32 → F32
  -- `<=`, false where a side is not a number
  pub le : F32 → F32 → Bool
  pub is_finite : F32 → Bool
  -- `f32::min`
  pub lesser : F32 → F32 → F32
  -- `clamp(low, high)` of the last argument
  pub clamp : F32 → F32 → F32 → F32
  -- what `Iterator::sum` starts from, and the f64 operations of a level
  pub sum_start : F64
  pub f64_of : ℕ → F64
  pub neg64 : F64 → F64
  pub add64 : F64 → F64 → F64
  pub mul64 : F64 → F64 → F64
  pub div64 : F64 → F64 → F64
  pub sqrt64 : F64 → F64
  -- `as f32`
  pub to_f32 : F64 → F32
