-- ===== src/Vm/Stack/Step.antt =====
-- Every instruction of starlark/interp.go against its stack picture.
use starlark_go.Common.{ℕ, ◌+◌, ◌≤◌, ◌≡◌, refl, subst, List, [], ◌∷◌, ◌++◌, length, All, inl, inr}
use starlark_go.Compile.Opcode.{Opcode}
use starlark_go.Compile.Opcode.Pictures.{takes, gives}
use starlark_go.Vm.{Host, Function, Frame, next}
use starlark_go.Vm.Names.{step_load}
use starlark_go.Vm.Operators.{step_exch, step_not}
use starlark_go.Vm.Machine.{step, step_cjmp}
use starlark_go.Vm.Stack.{Ends, Leaves, with_none, with_head}
use starlark_go.Vm.Stack.Operators
use starlark_go.Vm.Stack.Call
use starlark_go.Vm.Stack.Items
use starlark_go.Vm.Stack.Names
use starlark_go.Vm.Stack.Iterators
use starlark_go.Vm.Stack.Families
use starlark_go.Vm.Stack.Exits.{
  exits, Goes, enough, enough_for_two, enough_for_four, one_exit, one_of, two_of, three_of, four_of,
  jumped, Meets,
}

module _ {h : Host} (fn : Function h) (rest : List h.Value) (fr : Frame h) where
  open h use {Value}

  -- With the operands of its picture on top of the stack, and room for its results, an instruction
  -- neither overruns nor underruns the stack; and when the machine goes on, the results stand on an
  -- untouched rest of the stack, and the address is the next one or the operand of the jump, as the
  -- picture says.
  pub step-Goes :
      (op : Opcode) (arg : ℕ) (args : List Value)
      → length args ≡ takes op arg
      → All (λ ex. length rest + ex.1 ≤ fn.max_stack) (exits op arg fr.pc)
      → Ends (Goes rest (exits op arg fr.pc)) (step fn op arg (args ++ rest) fr)
  unfolding exits step step_cjmp takes gives
  step-Goes Opcode.nop arg args e room =
      with_none (Meets fn rest fr Opcode.nop arg)
        (one_exit fn rest fr 0 (next rest fr)
          (record { values = []; counted = refl; above = refl; at = refl }))
        args e
  step-Goes Opcode.dup arg args e room =
      one_of fn rest fr Opcode.dup arg
        (λ x.
          one_exit fn rest fr 2 _ (Operators.dup-Leaves fn rest fr x (enough_for_two _ _ room.0)))
        args e
  step-Goes Opcode.dup2 arg args e room =
      two_of fn rest fr Opcode.dup2 arg
        (λ y x.
          one_exit fn rest fr 4 _
            (Operators.dup2-Leaves fn rest fr x y (enough_for_four _ _ room.0)))
        args e
  step-Goes Opcode.pop arg args e room =
      one_of fn rest fr Opcode.pop arg
        (λ x.
          one_exit fn rest fr 0 (next rest fr)
            (record { values = []; counted = refl; above = refl; at = refl }))
        args e
  step-Goes Opcode.exch arg args e room =
      two_of fn rest fr Opcode.exch arg
        (λ y x.
          one_exit fn rest fr 2 (step_exch fn (y ∷ x ∷ rest) fr)
            (Operators.exch-Leaves fn rest fr x y))
        args e
  step-Goes Opcode.lt arg args e room = Families.compare-Goes fn rest fr Opcode.lt args e room
  step-Goes Opcode.gt arg args e room = Families.compare-Goes fn rest fr Opcode.gt args e room
  step-Goes Opcode.ge arg args e room = Families.compare-Goes fn rest fr Opcode.ge args e room
  step-Goes Opcode.le arg args e room = Families.compare-Goes fn rest fr Opcode.le args e room
  step-Goes Opcode.eql arg args e room = Families.compare-Goes fn rest fr Opcode.eql args e room
  step-Goes Opcode.neq arg args e room = Families.compare-Goes fn rest fr Opcode.neq args e room
  step-Goes Opcode.plus arg args e room = Families.binary-Goes fn rest fr Opcode.plus args e room
  step-Goes Opcode.minus arg args e room = Families.binary-Goes fn rest fr Opcode.minus args e room
  step-Goes Opcode.star arg args e room = Families.binary-Goes fn rest fr Opcode.star args e room
  step-Goes Opcode.slash arg args e room = Families.binary-Goes fn rest fr Opcode.slash args e room
  step-Goes Opcode.slashslash arg args e room =
      Families.binary-Goes fn rest fr Opcode.slashslash args e room
  step-Goes Opcode.percent arg args e room =
      Families.binary-Goes fn rest fr Opcode.percent args e room
  step-Goes Opcode.amp arg args e room = Families.binary-Goes fn rest fr Opcode.amp args e room
  step-Goes Opcode.pipe arg args e room = Families.binary-Goes fn rest fr Opcode.pipe args e room
  step-Goes Opcode.circumflex arg args e room =
      Families.binary-Goes fn rest fr Opcode.circumflex args e room
  step-Goes Opcode.ltlt arg args e room = Families.binary-Goes fn rest fr Opcode.ltlt args e room
  step-Goes Opcode.gtgt arg args e room = Families.binary-Goes fn rest fr Opcode.gtgt args e room
  step-Goes Opcode.in_op arg args e room = Families.binary-Goes fn rest fr Opcode.in_op args e room
  step-Goes Opcode.uplus arg args e room = Families.unary-Goes fn rest fr Opcode.uplus args e
  step-Goes Opcode.uminus arg args e room = Families.unary-Goes fn rest fr Opcode.uminus args e
  step-Goes Opcode.tilde arg args e room = Families.unary-Goes fn rest fr Opcode.tilde args e
  step-Goes Opcode.none arg args e room = Families.push-Goes fn rest fr _ args e room
  step-Goes Opcode.true arg args e room = Families.push-Goes fn rest fr _ args e room
  step-Goes Opcode.false arg args e room = Families.push-Goes fn rest fr _ args e room
  step-Goes Opcode.mandatory arg args e room = Families.push-Goes fn rest fr _ args e room
  step-Goes Opcode.iterpush arg args e room =
      one_of fn rest fr Opcode.iterpush arg
        (λ x. one_exit fn rest fr 0 _ (Iterators.iterpush-Leaves rest x fr)) args e
  step-Goes Opcode.iterpop arg args e room =
      with_none (Meets fn rest fr Opcode.iterpop arg)
        (one_exit fn rest fr 0 _ (Iterators.iterpop-Leaves rest fr)) args e
  step-Goes Opcode.not arg args e room =
      one_of fn rest fr Opcode.not arg
        (λ x. one_exit fn rest fr 1 (step_not fn (x ∷ rest) fr) (Operators.not-Leaves fn rest fr x))
        args e
  step-Goes Opcode.return arg args e room = one_of fn rest fr Opcode.return arg (λ x. tt) args e
  step-Goes Opcode.setindex arg args e room =
      three_of fn rest fr Opcode.setindex arg
        (λ z y x. one_exit fn rest fr 0 _ (Items.setindex-Leaves rest fr x y z)) args e
  step-Goes Opcode.index arg args e room =
      two_of fn rest fr Opcode.index arg
        (λ y x. one_exit fn rest fr 1 _ (Items.index-Leaves fn rest fr (enough _ _ room.0) x y))
        args e
  step-Goes Opcode.setdict arg args e room =
      three_of fn rest fr Opcode.setdict arg
        (λ v k x. one_exit fn rest fr 0 _ (Items.setdict-Leaves rest fr Opcode.setdict x k v)) args
        e
  step-Goes Opcode.setdictuniq arg args e room =
      three_of fn rest fr Opcode.setdictuniq arg
        (λ v k x. one_exit fn rest fr 0 _ (Items.setdict-Leaves rest fr Opcode.setdictuniq x k v))
        args e
  step-Goes Opcode.append arg args e room =
      two_of fn rest fr Opcode.append arg
        (λ y x. one_exit fn rest fr 0 _ (Items.append-Leaves rest fr x y)) args e
  step-Goes Opcode.slice arg args e room =
      four_of fn rest fr Opcode.slice arg
        (λ st hi lo x.
          one_exit fn rest fr 1 _ (Items.slice-Leaves fn rest fr (enough _ _ room.0) x lo hi st))
        args e
  step-Goes Opcode.inplace_add arg args e room =
      two_of fn rest fr Opcode.inplace_add arg
        (λ y x.
          one_exit fn rest fr 1 _ (Operators.inplace_add-Leaves fn rest fr (enough _ _ room.0) x y))
        args e
  step-Goes Opcode.inplace_pipe arg args e room =
      two_of fn rest fr Opcode.inplace_pipe arg
        (λ y x.
          one_exit fn rest fr 1 _
            (Operators.inplace_pipe-Leaves fn rest fr (enough _ _ room.0) x y))
        args e
  step-Goes Opcode.makedict arg args e room =
      with_none (Meets fn rest fr Opcode.makedict arg)
        (one_exit fn rest fr 1 _ (Items.makedict-Leaves fn rest fr (enough _ _ room.0))) args e
  step-Goes Opcode.jmp arg args e room =
      with_none (Meets fn rest fr Opcode.jmp arg)
        (record {
          exit = (arg, 0);
          listed = inl refl;
          leaves = record { values = []; counted = refl; above = refl; at = refl };
        })
        args e
  step-Goes Opcode.cjmp arg args e room =
      one_of fn rest fr Opcode.cjmp arg (λ x. jumped fn rest fr (h.truth fr.heap x) arg) args e
  step-Goes Opcode.iterjmp arg args e room =
      with_none (Meets fn rest fr Opcode.iterjmp arg)
        (Iterators.iterjmp-Leaves fn rest fr (Goes rest ((fr.pc, 1) ∷ (arg, 0) ∷ [])) arg
          (enough _ _ room.0)
          (λ v hp. record {
            exit = (fr.pc, 1);
            listed = inl refl;
            leaves = record { values = v ∷ []; counted = refl; above = refl; at = refl };
          })
          (λ hp. record {
            exit = (arg, 0);
            listed = inr (inl refl);
            leaves = record { values = []; counted = refl; above = refl; at = refl };
          }))
        args e
  step-Goes Opcode.constant arg args e room =
      with_none (Meets fn rest fr Opcode.constant arg)
        (one_exit fn rest fr 1 _ (Names.constant-Leaves fn rest fr (enough _ _ room.0) arg)) args e
  step-Goes Opcode.maketuple arg args e room =
      one_exit fn rest fr 1 _ (Items.maketuple-Leaves fn rest fr (enough _ _ room.0) arg args e)
  step-Goes Opcode.makelist arg args e room =
      one_exit fn rest fr 1 _ (Items.makelist-Leaves fn rest fr (enough _ _ room.0) arg args e)
  step-Goes Opcode.makefunc arg args e room =
      one_of fn rest fr Opcode.makefunc arg
        (λ x. one_exit fn rest fr 1 _ (Names.makefunc-Leaves fn rest fr arg x)) args e
  step-Goes Opcode.load arg args e room =
      with_head (Meets fn rest fr Opcode.load arg) arg args e (λ x names e₁.
        one_exit fn rest fr arg _ (
          subst (λ n. Ends (Leaves rest n fr.pc) (step_load n (x ∷ names ++ rest) fr)) e₁
            (Names.load-Leaves x names rest fr)))
  step-Goes Opcode.setlocal arg args e room =
      one_of fn rest fr Opcode.setlocal arg
        (λ x. one_exit fn rest fr 0 _ (Names.setlocal-Leaves rest fr arg x)) args e
  step-Goes Opcode.setglobal arg args e room =
      one_of fn rest fr Opcode.setglobal arg
        (λ x. one_exit fn rest fr 0 _ (Names.setglobal-Leaves rest fr arg x)) args e
  step-Goes Opcode.local arg args e room =
      with_none (Meets fn rest fr Opcode.local arg)
        (one_exit fn rest fr 1 _ (Names.local-Leaves fn rest fr (enough _ _ room.0) arg)) args e
  step-Goes Opcode.free arg args e room =
      with_none (Meets fn rest fr Opcode.free arg)
        (one_exit fn rest fr 1 _ (Names.free-Leaves fn rest fr (enough _ _ room.0) arg)) args e
  step-Goes Opcode.freecell arg args e room =
      with_none (Meets fn rest fr Opcode.freecell arg)
        (one_exit fn rest fr 1 _ (Names.freecell-Leaves fn rest fr (enough _ _ room.0) arg)) args e
  step-Goes Opcode.localcell arg args e room =
      with_none (Meets fn rest fr Opcode.localcell arg)
        (one_exit fn rest fr 1 _ (Names.localcell-Leaves fn rest fr (enough _ _ room.0) arg)) args e
  step-Goes Opcode.setlocalcell arg args e room =
      one_of fn rest fr Opcode.setlocalcell arg
        (λ x. one_exit fn rest fr 0 _ (Names.setlocalcell-Leaves rest fr arg x)) args e
  step-Goes Opcode.global arg args e room =
      with_none (Meets fn rest fr Opcode.global arg)
        (one_exit fn rest fr 1 _ (Names.global-Leaves fn rest fr (enough _ _ room.0) arg)) args e
  step-Goes Opcode.predeclared arg args e room =
      with_none (Meets fn rest fr Opcode.predeclared arg)
        (one_exit fn rest fr 1 _ (Names.predeclared-Leaves fn rest fr (enough _ _ room.0) arg)) args
        e
  step-Goes Opcode.universal arg args e room =
      with_none (Meets fn rest fr Opcode.universal arg)
        (one_exit fn rest fr 1 _ (Names.universal-Leaves fn rest fr (enough _ _ room.0) arg)) args e
  step-Goes Opcode.attr arg args e room =
      one_of fn rest fr Opcode.attr arg
        (λ x. one_exit fn rest fr 1 _ (Items.attr-Leaves fn rest fr arg x)) args e
  step-Goes Opcode.setfield arg args e room =
      two_of fn rest fr Opcode.setfield arg
        (λ y x. one_exit fn rest fr 0 _ (Items.setfield-Leaves fn rest fr arg x y)) args e
  step-Goes Opcode.unpack arg args e room =
      one_of fn rest fr Opcode.unpack arg
        (λ x. one_exit fn rest fr arg _ (Iterators.unpack-Leaves fn rest fr arg x room.0)) args e
  step-Goes Opcode.call arg args e room =
      one_exit fn rest fr 1 _ (Call.step_call-Leaves arg args rest fr e)
  step-Goes Opcode.call_var arg args e room =
      with_head (Meets fn rest fr Opcode.call_var arg) _ args e (λ x operands e₁.
        one_exit fn rest fr 1 _ (Call.step_call_var-Leaves arg x operands rest fr e₁))
  step-Goes Opcode.call_kw arg args e room =
      with_head (Meets fn rest fr Opcode.call_kw arg) _ args e (λ x operands e₁.
        one_exit fn rest fr 1 _ (Call.step_call_kw-Leaves arg x operands rest fr e₁))
  step-Goes Opcode.call_var_kw arg args e room =
      with_head (Meets fn rest fr Opcode.call_var_kw arg) _ args e (λ kw others e₁.
        with_head (λ l. Meets fn rest fr Opcode.call_var_kw arg (kw ∷ l)) _ others e₁
          (λ va operands e₂.
            one_exit fn rest fr 1 _ (Call.step_call_var_kw-Leaves arg kw va operands rest fr e₂)))
