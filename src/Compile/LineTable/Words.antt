-- ===== src/Compile/LineTable/Words.antt =====
-- Arithmetic of 32-bit words, and `clip` of internal/compile/compile.go on signed ones.
use starlark_go.Common.{
  ℕ, ◌+◌, ◌-◌, ◌%◌, ◌^◌, ◌<◌, ◌≤◌, ◌≡◌, Bool, true, false, ltb, if◌then◌else◌, arith,
}

unfoldable pub add32 : ℕ → ℕ → ℕ
add32 a b = (a + b) % 2 ^ 32

unfoldable pub sub32 : ℕ → ℕ → ℕ
sub32 a b = (a + 2 ^ 32 - b) % 2 ^ 32

-- The absolute value of the int32 with the pattern `a`.
unfoldable pub magnitude : ℕ → ℕ
magnitude a = if ltb a (2 ^ 31) then a else 2 ^ 32 - a

-- `<` on int32.
abbrev pub slt : ℕ → ℕ → Bool
slt a b = ltb ((a + 2 ^ 31) % 2 ^ 32) ((b + 2 ^ 31) % 2 ^ 32)

-- The value nearest `x` in the range, and whether it is `x`.
unfoldable pub clip : ℕ → ℕ → ℕ → ℕ × Bool
clip x min max = if slt max x then (max, false) else if slt x min then (min, false) else (x, true)

pub sub32-add32 : (a b : ℕ) → a < 2 ^ 32 → b < 2 ^ 32 → add32 b (sub32 a b) ≡ a
unfolding add32 sub32
sub32-add32 a b ha hb = omega arith

-- After a move by `d`, the difference is smaller by `d`.
pub sub32-add32_right :
    (a b d : ℕ) → a < 2 ^ 32 → b < 2 ^ 32 → d < 2 ^ 32 → sub32 a (add32 b d) ≡ sub32 (sub32 a b) d
unfolding add32 sub32
sub32-add32_right a b d ha hb hd = omega arith

pub add32-lt : (a b : ℕ) → add32 a b < 2 ^ 32
unfolding add32
add32-lt a b = omega arith

pub sub32-lt : (a b : ℕ) → sub32 a b < 2 ^ 32
unfolding sub32
sub32-lt a b = omega arith

pub sub32-of-le : (a b : ℕ) → b ≤ a → a < 2 ^ 32 → sub32 a b ≡ a - b
unfolding sub32
sub32-of-le a b h ha = omega arith
