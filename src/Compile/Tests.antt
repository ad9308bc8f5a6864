-- ===== src/Compile/Tests.antt =====
-- The tables of opcodes at concrete instructions.
use starlark_go.Common.{◌≡◌, refl, arith, some}
use starlark_go.Common.Int.{pos, sub}
use starlark_go.Compile.Opcode.{Opcode}
use starlark_go.Compile.Opcode.Effects.{stackeffect}
use starlark_go.Compile.Opcode.Pictures.{takes, gives}
use starlark_go.Compile.Opcode.Pictures.Effect.{stackeffect-picture}

-- A call with two positional arguments and one named takes the function and four values.
stackeffect-picture_example :
    stackeffect Opcode.call 0x201
    ≡ some (sub (pos (gives Opcode.call 0x201)) (pos (takes Opcode.call 0x201)))
stackeffect-picture_example = stackeffect-picture Opcode.call 0x201 (omega arith)

call_takes : takes Opcode.call 0x201 ≡ 5
unfolding takes
call_takes = refl
