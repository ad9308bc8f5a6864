-- ===== src/Compile/Operand.antt =====
-- Operands of instructions: `addUint32` and `argLen` of internal/compile/compile.go, and the loop
-- of starlark/interp.go that reads an operand back. A byte slice is a list of numbers below 256.
pub mod RoundTrip
mod Tests
use starlark_go.Common.{
  ℕ, zero, suc, ◌+◌, ◌-◌, ◌*◌, ◌/◌, ◌%◌, ◌^◌, ◌<◌, bit_and, bit_or, List, [], ◌∷◌, ◌++◌, Option,
  none, some, length, drop, ltb, if◌then◌else◌, arith, dec_lt, lt_wf, dite, Acc,
}

-- The opcode NOP.
abbrev pub nop : ℕ
nop = 0

pub shift_shrinks : (x : ℕ) → ¬ (x < 128) → x / 128 < x
shift_shrinks x h = omega arith

-- `for x >= 0x80 { code = append(code, byte(x)|0x80); x >>= 7 }; code = append(code, byte(x))`
add_groups : List ℕ → (x : ℕ) → Acc ◌<◌ x → List ℕ
add_groups code x (Acc.intro _ smaller) =
    dite (dec_lt x 0x80) (λ _. code ++ x % 256 ∷ [])
      (λ more.
        add_groups (code ++ bit_or (x % 256) 0x80 ∷ []) (x / 128)
          (smaller _ (shift_shrinks x more)))

-- `for len(code) < end { code = append(code, byte(NOP)) }`, by the rounds left.
pad : ℕ → List ℕ → List ℕ
pad zero code = code
pad (suc n) code = pad n (code ++ nop ∷ [])

unfoldable pub add_uint32 : List ℕ → ℕ → ℕ → List ℕ
unfolding add_groups pad lt_wf
add_uint32 code x min =
    let end = length code + min in
    let code' = add_groups code x (lt_wf.apply x) in pad (end - length code') code'

arg_len_loop : ℕ → (x : ℕ) → Acc ◌<◌ x → ℕ
arg_len_loop n x (Acc.intro _ smaller) =
    dite (dec_lt x 0x80) (λ _. n + 1)
      (λ more. arg_len_loop (n + 1) (x / 128) (smaller _ (shift_shrinks x more)))

unfoldable pub arg_len : ℕ → ℕ
unfolding arg_len_loop lt_wf
arg_len x = arg_len_loop 0 x (lt_wf.apply x)

-- `for s := 0; ; s += 7 { b := code[pc]; pc++; arg |= uint32(b&0x7f) << s; if b < 0x80 { break } }`
-- over the bytes from `pc` on. `none` is the panic of an index out of range.
pub read_groups : List ℕ → ℕ → ℕ → ℕ → Option (ℕ × ℕ)
read_groups [] s arg pc = none
read_groups (b ∷ rest) s arg pc =
    let arg' = bit_or arg (bit_and b 0x7f * 2 ^ s % 2 ^ 32) in
    let more = read_groups rest (s + 7) arg' (pc + 1) in
    if ltb b 0x80 then some (arg', pc + 1) else more

-- The operand that stands at `pc`, and the address behind it.
unfoldable pub read_operand : List ℕ → ℕ → Option (ℕ × ℕ)
unfolding read_groups
read_operand code pc = read_groups (drop pc code) 0 0 pc
