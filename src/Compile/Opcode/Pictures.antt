-- ===== src/Compile/Opcode/Pictures.antt =====
-- The stack pictures of the opcodes, which stand as comments beside the constants of
-- internal/compile/compile.go: how many operands an instruction takes off the stack and how many it
-- leaves. The picture of a jump to the operand is the one counted for `ITERJMP`.
pub mod Effect
use starlark_go.Common.{ℕ, ◌+◌, ◌*◌, ◌/◌, ◌^◌, bit_and}
use starlark_go.Compile.Opcode.{Opcode}

unfoldable pub takes : Opcode → ℕ → ℕ
takes Opcode.nop arg = 0
takes Opcode.dup arg = 1
takes Opcode.dup2 arg = 2
takes Opcode.pop arg = 1
takes Opcode.exch arg = 2
takes Opcode.lt arg = 2
takes Opcode.gt arg = 2
takes Opcode.ge arg = 2
takes Opcode.le arg = 2
takes Opcode.eql arg = 2
takes Opcode.neq arg = 2
takes Opcode.plus arg = 2
takes Opcode.minus arg = 2
takes Opcode.star arg = 2
takes Opcode.slash arg = 2
takes Opcode.slashslash arg = 2
takes Opcode.percent arg = 2
takes Opcode.amp arg = 2
takes Opcode.pipe arg = 2
takes Opcode.circumflex arg = 2
takes Opcode.ltlt arg = 2
takes Opcode.gtgt arg = 2
takes Opcode.in_op arg = 2
takes Opcode.uplus arg = 1
takes Opcode.uminus arg = 1
takes Opcode.tilde arg = 1
takes Opcode.none arg = 0
takes Opcode.true arg = 0
takes Opcode.false arg = 0
takes Opcode.mandatory arg = 0
takes Opcode.iterpush arg = 1
takes Opcode.iterpop arg = 0
takes Opcode.not arg = 1
takes Opcode.return arg = 1
takes Opcode.setindex arg = 3
takes Opcode.index arg = 2
takes Opcode.setdict arg = 3
takes Opcode.setdictuniq arg = 3
takes Opcode.append arg = 2
takes Opcode.slice arg = 4
takes Opcode.inplace_add arg = 2
takes Opcode.inplace_pipe arg = 2
takes Opcode.makedict arg = 0
takes Opcode.jmp arg = 0
takes Opcode.cjmp arg = 1
takes Opcode.iterjmp arg = 0
takes Opcode.constant arg = 0
takes Opcode.maketuple arg = arg
takes Opcode.makelist arg = arg
takes Opcode.makefunc arg = 1
takes Opcode.load arg = arg + 1
takes Opcode.setlocal arg = 1
takes Opcode.setglobal arg = 1
takes Opcode.local arg = 0
takes Opcode.free arg = 0
takes Opcode.freecell arg = 0
takes Opcode.localcell arg = 0
takes Opcode.setlocalcell arg = 1
takes Opcode.global arg = 0
takes Opcode.predeclared arg = 0
takes Opcode.universal arg = 0
takes Opcode.attr arg = 1
takes Opcode.setfield arg = 2
takes Opcode.unpack arg = 1
takes Opcode.call arg = 1 + arg / 2 ^ 8 + 2 * bit_and arg 0xff
takes Opcode.call_var arg = 1 + arg / 2 ^ 8 + 2 * bit_and arg 0xff + 1
takes Opcode.call_kw arg = 1 + arg / 2 ^ 8 + 2 * bit_and arg 0xff + 1
takes Opcode.call_var_kw arg = 1 + arg / 2 ^ 8 + 2 * bit_and arg 0xff + 1 + 1

unfoldable pub gives : Opcode → ℕ → ℕ
gives Opcode.nop arg = 0
gives Opcode.dup arg = 2
gives Opcode.dup2 arg = 4
gives Opcode.pop arg = 0
gives Opcode.exch arg = 2
gives Opcode.lt arg = 1
gives Opcode.gt arg = 1
gives Opcode.ge arg = 1
gives Opcode.le arg = 1
gives Opcode.eql arg = 1
gives Opcode.neq arg = 1
gives Opcode.plus arg = 1
gives Opcode.minus arg = 1
gives Opcode.star arg = 1
gives Opcode.slash arg = 1
gives Opcode.slashslash arg = 1
gives Opcode.percent arg = 1
gives Opcode.amp arg = 1
gives Opcode.pipe arg = 1
gives Opcode.circumflex arg = 1
gives Opcode.ltlt arg = 1
gives Opcode.gtgt arg = 1
gives Opcode.in_op arg = 1
gives Opcode.uplus arg = 1
gives Opcode.uminus arg = 1
gives Opcode.tilde arg = 1
gives Opcode.none arg = 1
gives Opcode.true arg = 1
gives Opcode.false arg = 1
gives Opcode.mandatory arg = 1
gives Opcode.iterpush arg = 0
gives Opcode.iterpop arg = 0
gives Opcode.not arg = 1
gives Opcode.return arg = 0
gives Opcode.setindex arg = 0
gives Opcode.index arg = 1
gives Opcode.setdict arg = 0
gives Opcode.setdictuniq arg = 0
gives Opcode.append arg = 0
gives Opcode.slice arg = 1
gives Opcode.inplace_add arg = 1
gives Opcode.inplace_pipe arg = 1
gives Opcode.makedict arg = 1
gives Opcode.jmp arg = 0
gives Opcode.cjmp arg = 0
gives Opcode.iterjmp arg = 0
gives Opcode.constant arg = 1
gives Opcode.maketuple arg = 1
gives Opcode.makelist arg = 1
gives Opcode.makefunc arg = 1
gives Opcode.load arg = arg
gives Opcode.setlocal arg = 0
gives Opcode.setglobal arg = 0
gives Opcode.local arg = 1
gives Opcode.free arg = 1
gives Opcode.freecell arg = 1
gives Opcode.localcell arg = 1
gives Opcode.setlocalcell arg = 0
gives Opcode.global arg = 1
gives Opcode.predeclared arg = 1
gives Opcode.universal arg = 1
gives Opcode.attr arg = 1
gives Opcode.setfield arg = 0
gives Opcode.unpack arg = arg
gives Opcode.call arg = 1
gives Opcode.call_var arg = 1
gives Opcode.call_kw arg = 1
gives Opcode.call_var_kw arg = 1
