-- ===== src/Common/Int.antt =====
-- The integers over the native numbers: `negsuc n` is -1 - n.
use Prim.Native.Nat.{ℕ, zero, suc, ◌+◌, ◌-◌}
use mathlib.Core.Bool.{Bool, true, false}
use starlark_go.Common.Tests.{ltb, if◌then◌else◌}

pub data ℤ : Type 0 where
  pos negsuc : ℕ → ℤ

unfoldable pub ltz : ℤ → ℤ → Bool
ltz (pos a) (pos b) = ltb a b
ltz (pos a) (negsuc b) = false
ltz (negsuc a) (pos b) = true
ltz (negsuc a) (negsuc b) = ltb b a

unfoldable pub add : ℤ → ℤ → ℤ
add (pos a) (pos b) = pos (a + b)
add (pos a) (negsuc b) = if ltb b a then pos (a - suc b) else negsuc (b - a)
add (negsuc a) (pos b) = if ltb a b then pos (b - suc a) else negsuc (a - b)
add (negsuc a) (negsuc b) = negsuc (suc (a + b))

unfoldable pub neg : ℤ → ℤ
neg (pos zero) = pos 0
neg (pos (suc n)) = negsuc n
neg (negsuc n) = pos (suc n)

unfoldable pub sub : ℤ → ℤ → ℤ
unfolding add neg
sub a b = add a (neg b)
