-- ===== src/Compile/Operand/Tests.antt =====
-- Runs of the operand code, and the theorems at concrete operands.
use starlark_go.Common.{ℕ, ◌+◌, ◌≡◌, refl, [], ◌∷◌, ◌++◌, some, length, max, arith, dec_lt}
use starlark_go.Compile.Operand.{add_uint32, arg_len, read_operand}
use starlark_go.Compile.Operand.RoundTrip.{read_operand-add_uint32, length-add_uint32}

add_uint32_300 : add_uint32 (7 ∷ []) 300 4 ≡ 7 ∷ 0xac ∷ 2 ∷ 0 ∷ 0 ∷ []
unfolding add_uint32 dec_lt
add_uint32_300 = refl

read_operand-add_uint32_example :
    read_operand (add_uint32 (7 ∷ []) 300 4 ++ 9 ∷ []) 1 ≡ some (300, 1 + arg_len 300)
read_operand-add_uint32_example = read_operand-add_uint32 (7 ∷ []) (9 ∷ []) 300 4 (omega arith)

length-add_uint32_example :
    length (add_uint32 (7 ∷ []) 300 4) ≡ length {A = ℕ} (7 ∷ []) + max 4 (arg_len 300)
length-add_uint32_example = length-add_uint32 (7 ∷ []) 300 4 (omega arith)
