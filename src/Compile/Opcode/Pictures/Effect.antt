-- ===== src/Compile/Opcode/Pictures/Effect.antt =====
-- The effects that internal/compile/compile.go computes with, against the stack pictures.
use starlark_go.Common.{
  ℕ, zero, suc, ◌+◌, ◌*◌, ◌/◌, ◌^◌, ◌<◌, ◌≡◌, refl, bit_and, some, arith, ap, sym, ◌∙◌,
}
use starlark_go.Common.Bits.{bit_and-le}
use starlark_go.Common.Int.{pos, negsuc, neg, sub}
use starlark_go.Compile.Opcode.{Opcode}
use starlark_go.Compile.Opcode.Effects.{stack_effect, call_effect, variable_effect, stackeffect}
use starlark_go.Compile.Opcode.Pictures.{takes, gives}

one_less : (n : ℕ) → sub (pos 1) (pos (1 + n)) ≡ neg (pos n)
unfolding sub
one_less zero = refl
one_less (suc n) = ground arith

one_more : (n : ℕ) → sub (sub (pos 1) (pos n)) (pos 1) ≡ sub (pos 1) (pos (n + 1))
unfolding sub
one_more zero = refl
one_more (suc n) = ground arith

call_effect_lem :
    (arg : ℕ)
    → arg < 2 ^ 32
    → call_effect arg ≡ sub (pos 1) (pos (1 + arg / 2 ^ 8 + 2 * bit_and arg 0xff))
unfolding call_effect
call_effect_lem arg h =
    let n = arg / 2 ^ 8 + 2 * bit_and arg 0xff in
    ap (λ k. neg (pos k)) (omega (arith, bit_and-le arg 0xff))
    ∙ sym (one_less n)
    ∙ ap (λ k. sub (pos 1) (pos k)) (omega arith)

one_more_lem :
    (arg : ℕ)
    → arg < 2 ^ 32
    → sub (call_effect arg) (pos 1) ≡ sub (pos 1) (pos (1 + arg / 2 ^ 8 + 2 * bit_and arg 0xff + 1))
one_more_lem arg h =
    ap (λ e. sub e (pos 1)) (call_effect_lem arg h)
    ∙ one_more (1 + arg / 2 ^ 8 + 2 * bit_and arg 0xff)

two_more_lem :
    (arg : ℕ)
    → arg < 2 ^ 32
    → sub (sub (call_effect arg) (pos 1)) (pos 1)
      ≡ sub (pos 1) (pos (1 + arg / 2 ^ 8 + 2 * bit_and arg 0xff + 1 + 1))
two_more_lem arg h =
    ap (λ e. sub e (pos 1)) (one_more_lem arg h)
    ∙ one_more (1 + arg / 2 ^ 8 + 2 * bit_and arg 0xff + 1)

load_lem : (n : ℕ) → negsuc 0 ≡ sub (pos n) (pos (n + 1))
unfolding sub
load_lem zero = refl
load_lem (suc n) = ground arith

-- The effect that the code generator computes for an instruction is the difference of the two sides
-- of its stack picture, for an operand of 32 bits, and it panics for none.
pub stackeffect-picture :
    (op : Opcode) (arg : ℕ)
    → arg < 2 ^ 32
    → stackeffect op arg ≡ some (sub (pos (gives op arg)) (pos (takes op arg)))
unfolding stackeffect stack_effect variable_effect takes gives
stackeffect-picture Opcode.nop arg h = refl
stackeffect-picture Opcode.dup arg h = refl
stackeffect-picture Opcode.dup2 arg h = refl
stackeffect-picture Opcode.pop arg h = refl
stackeffect-picture Opcode.exch arg h = refl
stackeffect-picture Opcode.lt arg h = refl
stackeffect-picture Opcode.gt arg h = refl
stackeffect-picture Opcode.ge arg h = refl
stackeffect-picture Opcode.le arg h = refl
stackeffect-picture Opcode.eql arg h = refl
stackeffect-picture Opcode.neq arg h = refl
stackeffect-picture Opcode.plus arg h = refl
stackeffect-picture Opcode.minus arg h = refl
stackeffect-picture Opcode.star arg h = refl
stackeffect-picture Opcode.slash arg h = refl
stackeffect-picture Opcode.slashslash arg h = refl
stackeffect-picture Opcode.percent arg h = refl
stackeffect-picture Opcode.amp arg h = refl
stackeffect-picture Opcode.pipe arg h = refl
stackeffect-picture Opcode.circumflex arg h = refl
stackeffect-picture Opcode.ltlt arg h = refl
stackeffect-picture Opcode.gtgt arg h = refl
stackeffect-picture Opcode.in_op arg h = refl
stackeffect-picture Opcode.uplus arg h = refl
stackeffect-picture Opcode.uminus arg h = refl
stackeffect-picture Opcode.tilde arg h = refl
stackeffect-picture Opcode.none arg h = refl
stackeffect-picture Opcode.true arg h = refl
stackeffect-picture Opcode.false arg h = refl
stackeffect-picture Opcode.mandatory arg h = refl
stackeffect-picture Opcode.iterpush arg h = refl
stackeffect-picture Opcode.iterpop arg h = refl
stackeffect-picture Opcode.not arg h = refl
stackeffect-picture Opcode.return arg h = refl
stackeffect-picture Opcode.setindex arg h = refl
stackeffect-picture Opcode.index arg h = refl
stackeffect-picture Opcode.setdict arg h = refl
stackeffect-picture Opcode.setdictuniq arg h = refl
stackeffect-picture Opcode.append arg h = refl
stackeffect-picture Opcode.slice arg h = refl
stackeffect-picture Opcode.inplace_add arg h = refl
stackeffect-picture Opcode.inplace_pipe arg h = refl
stackeffect-picture Opcode.makedict arg h = refl
stackeffect-picture Opcode.jmp arg h = refl
stackeffect-picture Opcode.cjmp arg h = refl
stackeffect-picture Opcode.iterjmp arg h = refl
stackeffect-picture Opcode.constant arg h = refl
stackeffect-picture Opcode.maketuple arg h = refl
stackeffect-picture Opcode.makelist arg h = refl
stackeffect-picture Opcode.makefunc arg h = refl
stackeffect-picture Opcode.load arg h = ap some (load_lem arg)
stackeffect-picture Opcode.setlocal arg h = refl
stackeffect-picture Opcode.setglobal arg h = refl
stackeffect-picture Opcode.local arg h = refl
stackeffect-picture Opcode.free arg h = refl
stackeffect-picture Opcode.freecell arg h = refl
stackeffect-picture Opcode.localcell arg h = refl
stackeffect-picture Opcode.setlocalcell arg h = refl
stackeffect-picture Opcode.global arg h = refl
stackeffect-picture Opcode.predeclared arg h = refl
stackeffect-picture Opcode.universal arg h = refl
stackeffect-picture Opcode.attr arg h = refl
stackeffect-picture Opcode.setfield arg h = refl
stackeffect-picture Opcode.unpack arg h = refl
stackeffect-picture Opcode.call arg h = ap some (call_effect_lem arg h)
stackeffect-picture Opcode.call_var arg h = ap some (one_more_lem arg h)
stackeffect-picture Opcode.call_kw arg h = ap some (one_more_lem arg h)
stackeffect-picture Opcode.call_var_kw arg h = ap some (two_more_lem arg h)
