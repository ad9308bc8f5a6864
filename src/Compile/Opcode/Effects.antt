-- ===== src/Compile/Opcode/Effects.antt =====
-- The table `stackEffect` of internal/compile/compile.go and the method `stackeffect` that reads it.
use starlark_go.Common.{
  ℕ, ◌+◌, ◌*◌, ◌/◌, ◌%◌, ◌^◌, bit_and, Bool, false, ◌==◌, if◌then◌else◌, Option, some, none,
}
use starlark_go.Common.Int.{ℤ, pos, negsuc, neg, sub}
use starlark_go.Compile.Opcode.{Opcode}

abbrev pub variable_stack_effect : ℤ
variable_stack_effect = pos 0x7f

-- An opcode that the table leaves out, `EXCH` or `TILDE`, has the zero of an array element.
unfoldable pub stack_effect : Opcode → ℤ
stack_effect Opcode.nop = pos 0
stack_effect Opcode.dup = pos 1
stack_effect Opcode.dup2 = pos 2
stack_effect Opcode.pop = negsuc 0
stack_effect Opcode.exch = pos 0
stack_effect Opcode.lt = negsuc 0
stack_effect Opcode.gt = negsuc 0
stack_effect Opcode.ge = negsuc 0
stack_effect Opcode.le = negsuc 0
stack_effect Opcode.eql = negsuc 0
stack_effect Opcode.neq = negsuc 0
stack_effect Opcode.plus = negsuc 0
stack_effect Opcode.minus = negsuc 0
stack_effect Opcode.star = negsuc 0
stack_effect Opcode.slash = negsuc 0
stack_effect Opcode.slashslash = negsuc 0
stack_effect Opcode.percent = negsuc 0
stack_effect Opcode.amp = negsuc 0
stack_effect Opcode.pipe = negsuc 0
stack_effect Opcode.circumflex = negsuc 0
stack_effect Opcode.ltlt = negsuc 0
stack_effect Opcode.gtgt = negsuc 0
stack_effect Opcode.in_op = negsuc 0
stack_effect Opcode.uplus = pos 0
stack_effect Opcode.uminus = pos 0
stack_effect Opcode.tilde = pos 0
stack_effect Opcode.none = pos 1
stack_effect Opcode.true = pos 1
stack_effect Opcode.false = pos 1
stack_effect Opcode.mandatory = pos 1
stack_effect Opcode.iterpush = negsuc 0
stack_effect Opcode.iterpop = pos 0
stack_effect Opcode.not = pos 0
stack_effect Opcode.return = negsuc 0
stack_effect Opcode.setindex = negsuc 2
stack_effect Opcode.index = negsuc 0
stack_effect Opcode.setdict = negsuc 2
stack_effect Opcode.setdictuniq = negsuc 2
stack_effect Opcode.append = negsuc 1
stack_effect Opcode.slice = negsuc 2
stack_effect Opcode.inplace_add = negsuc 0
stack_effect Opcode.inplace_pipe = negsuc 0
stack_effect Opcode.makedict = pos 1
stack_effect Opcode.jmp = pos 0
stack_effect Opcode.cjmp = negsuc 0
stack_effect Opcode.iterjmp = variable_stack_effect
stack_effect Opcode.constant = pos 1
stack_effect Opcode.maketuple = variable_stack_effect
stack_effect Opcode.makelist = variable_stack_effect
stack_effect Opcode.makefunc = pos 0
stack_effect Opcode.load = negsuc 0
stack_effect Opcode.setlocal = negsuc 0
stack_effect Opcode.setglobal = negsuc 0
stack_effect Opcode.local = pos 1
stack_effect Opcode.free = pos 1
stack_effect Opcode.freecell = pos 1
stack_effect Opcode.localcell = pos 1
stack_effect Opcode.setlocalcell = negsuc 0
stack_effect Opcode.global = pos 1
stack_effect Opcode.predeclared = pos 1
stack_effect Opcode.universal = pos 1
stack_effect Opcode.attr = pos 0
stack_effect Opcode.setfield = negsuc 1
stack_effect Opcode.unpack = variable_stack_effect
stack_effect Opcode.call = variable_stack_effect
stack_effect Opcode.call_var = variable_stack_effect
stack_effect Opcode.call_kw = variable_stack_effect
stack_effect Opcode.call_var_kw = variable_stack_effect

-- `-int(2*(insn.arg&0xff) + insn.arg>>8)`, in 32 bits.
unfoldable pub call_effect : ℕ → ℤ
unfolding neg
call_effect arg = neg (pos ((2 * bit_and arg 0xff + arg / 2 ^ 8) % 2 ^ 32))

-- The switch over the instructions whose effect is computed; `none` is the panic on the others.
unfoldable pub variable_effect : Opcode → ℕ → Option ℤ
unfolding sub call_effect
variable_effect Opcode.call arg = some (call_effect arg)
variable_effect Opcode.call_var arg = some (sub (call_effect arg) (pos 1))
variable_effect Opcode.call_kw arg = some (sub (call_effect arg) (pos 1))
variable_effect Opcode.call_var_kw arg = some (sub (sub (call_effect arg) (pos 1)) (pos 1))
variable_effect Opcode.iterjmp arg = some (pos 0)
variable_effect Opcode.makelist arg = some (sub (pos 1) (pos arg))
variable_effect Opcode.maketuple arg = some (sub (pos 1) (pos arg))
variable_effect Opcode.unpack arg = some (sub (pos arg) (pos 1))
variable_effect _ arg = none

abbrev pub is_variable : ℤ → Bool
is_variable (pos n) = n == 0x7f
is_variable (negsuc n) = false

unfoldable pub stackeffect : Opcode → ℕ → Option ℤ
unfolding stack_effect variable_effect
stackeffect op arg =
    if is_variable (stack_effect op) then variable_effect op arg else some (stack_effect op)
