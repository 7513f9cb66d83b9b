-- ===== src/Base/Int.antt =====
-- The integers over the native numbers; `negsuc n` is -(n + 1).
use Prim.Native.Nat.{ℕ, zero, suc, ◌+◌, ◌-◌, ◌*◌, ◌/◌, ◌^◌}
use mathlib.Core.Bool.{Bool, true, false}
use fermix_linux.Base.Tests.{leb, if◌then◌else◌}

pub data ℤ : Type 0 where
  pos : ℕ → ℤ
  negsuc : ℕ → ℤ

-- `a - b`
abbrev pub minus : ℕ → ℕ → ℤ
minus a b = if leb b a then pos (a - b) else negsuc (b - a - 1)

abbrev pub neg : ℤ → ℤ
neg (pos zero) = pos 0
neg (pos (suc n)) = negsuc n
neg (negsuc n) = pos (n + 1)

abbrev pub add : ℤ → ℤ → ℤ
add (pos a) (pos b) = pos (a + b)
add (pos a) (negsuc b) = minus a (b + 1)
add (negsuc a) (pos b) = minus b (a + 1)
add (negsuc a) (negsuc b) = negsuc (a + b + 1)

-- by a number that is not negative
abbrev pub mul : ℤ → ℕ → ℤ
mul (pos a) n = pos (a * n)
mul (negsuc a) n = neg (pos ((a + 1) * n))

-- `div_euclid` by a positive number
abbrev pub div_euclid : ℤ → ℕ → ℤ
div_euclid (pos a) n = pos (a / n)
div_euclid (negsuc a) n = negsuc (a / n)

-- `a <= b`
abbrev pub le : ℤ → ℤ → Bool
le (pos a) (pos b) = leb a b
le (pos a) (negsuc b) = false
le (negsuc a) (pos b) = true
le (negsuc a) (negsuc b) = leb b a

abbrev pub max_i64 : ℕ
max_i64 = 2 ^ 63 - 1

-- `i64::saturating_add` of a number that is not negative
abbrev pub saturating_add : ℤ → ℕ → ℤ
saturating_add a n = if le (add a (pos n)) (pos max_i64) then add a (pos n) else pos max_i64
