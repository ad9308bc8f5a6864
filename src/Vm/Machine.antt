-- ===== src/Vm/Machine.antt =====
-- The loop of starlark/interp.go: counting steps, fetching an instruction and executing it, and what
-- is left to do when the loop ends.
use Prim.Native.String.{String}
use starlark_go.Common.{
  ℕ, zero, suc, ◌+◌, ◌%◌, ◌^◌, true, false, List, [], ◌∷◌, Option, none, some, get_elem?, set, leb,
  if◌then◌else◌,
}
use starlark_go.Compile.Operand.{read_operand}
use starlark_go.Compile.Opcode.{Opcode, opcode, code_of}
use starlark_go.Vm.{
  Host, Thread, Function, Frame, Next, next, failed, panicked, code_bounds, cancelled,
  unimplemented, pop1, push,
}
use starlark_go.Vm.Operators.{
  step_dup, step_dup2, step_pop, step_exch, step_compare, step_binary, step_unary, step_inplace_add,
  step_inplace_pipe, step_not, step_return,
}
use starlark_go.Vm.Call.{step_call}
use starlark_go.Vm.Iterators.{step_iterpush, step_iterpop, step_iterjmp, step_unpack}
use starlark_go.Vm.Items.{
  step_setindex, step_setdict, step_append, step_index, step_attr, step_setfield, step_makedict,
  step_slice, step_maketuple, step_makelist,
}
use starlark_go.Vm.Names.{
  step_setlocal, step_setlocalcell, step_setglobal, step_load, step_constant, step_makefunc,
  step_local, step_free, step_localcell, step_freecell, step_global, step_predeclared,
  step_universal,
}

-- `CompareAndSwap(nil, &reason)`: an earlier reason stays.
unfoldable pub cancel : String → Thread → Thread
cancel reason t = elim t.cancel_reason [
  | none ↦ record t { cancel_reason = some reason }
  | some earlier ↦ t
]

module _ (h : Host) where
  open h use {Heap, Iterator}

  -- `for _, iter := range iterstack { iter.Done() }`, the outermost first, and `fr.locals = nil`.
  unfoldable pub close_iters : List Iterator → Heap → Heap
  close_iters [] hp = hp
  close_iters (iter ∷ outer) hp = h.iter_done (close_iters outer hp) iter

  -- `thread.Steps++`, in 64 bits, and the callback or the cancellation when the limit is reached.
  unfoldable pub count : Thread → Heap → Thread × Heap
  unfolding cancel
  count t hp =
      let t' = record t { steps = (t.steps + 1) % 2 ^ 64 } in
      if leb t'.max_steps t'.steps
      then elim h.on_max_steps [
        | none ↦ (cancel "too many steps" t', hp)
        | some on_max ↦ on_max t' hp
      ]
      else (t', hp)

module _ {h : Host} where
  open h use {Value}

  unfoldable pub tick : Frame h → Frame h
  unfolding count
  tick fr = let (t, hp) = count h fr.thread fr.heap in record fr { thread = t; heap = hp }

  -- `if stack[sp-1].Truth() { pc = arg }; sp--`
  unfoldable pub step_cjmp : ℕ → List Value → Frame h → Next h
  step_cjmp arg s fr =
      pop1 s fr (λ x rest. next rest (if h.truth fr.heap x then record fr { pc = arg } else fr))

  unfoldable pub close : Frame h → Frame h
  unfolding close_iters
  close fr = record fr { locals = []; iters = []; heap = close_iters h fr.iters fr.heap }

  -- `for _, index := range f.Cells { locals[index] = &cell{locals[index]} }`; `none` is a panic.
  unfoldable pub spill : List ℕ → Frame h → Option (Frame h)
  spill [] fr = some fr
  spill (index ∷ cells) fr = elim (get_elem? fr.locals index) [
    | none ↦ none
    | some v ↦
        let (hp, cell) = h.new_cell fr.heap v in
        spill cells (record fr { locals = set fr.locals index cell; heap = hp })
  ]

module _ {h : Host} where
  open h use {Value}

  -- Around the loop again, or out of it and through the deferred function.
  unfoldable pub finish : Next h → (List Value → Frame h → Next h) → Next h
  unfolding close
  finish (next s fr) again = again s fr
  finish (Next.returned v fr) again = Next.returned v (close fr)
  finish (failed e fr) again = failed e (close fr)
  finish (panicked p fr) again = panicked p (close fr)
  finish (Next.below_bottom fr) again = Next.below_bottom fr
  finish (Next.spinning fr) again = Next.spinning fr

module _ {h : Host} (fn : Function h) where
  open h use {Value}

  -- The opcode at `pc`, its operand or 0, and the address behind the instruction.
  unfoldable pub fetch : ℕ → Option (ℕ × ℕ × ℕ)
  unfolding read_operand code_of
  fetch pc = elim (get_elem? fn.code pc) [
    | none ↦ none
    | some op ↦
        if leb (code_of Opcode.jmp) op
        then elim (read_operand fn.code (pc + 1)) [
          | none ↦ none
          | some (arg, pc') ↦ some (op, arg, pc')
        ]
        else some (op, 0, pc + 1)
  ]

  -- The switch on the opcode.
  unfoldable pub step : Opcode → ℕ → List Value → Frame h → Next h
  unfolding push step_cjmp step_dup step_dup2 step_pop step_exch step_compare step_binary step_unary
      step_inplace_add step_inplace_pipe step_not step_return step_call step_iterpush step_iterpop
      step_iterjmp step_unpack step_setindex step_setdict step_append step_index step_attr
      step_setfield step_makedict step_slice step_maketuple step_makelist step_setlocal
      step_setlocalcell step_setglobal step_load step_constant step_makefunc step_local step_free
      step_localcell step_freecell step_global step_predeclared step_universal
  step Opcode.nop arg s fr = next s fr
  step Opcode.dup arg s fr = step_dup fn s fr
  step Opcode.dup2 arg s fr = step_dup2 fn s fr
  step Opcode.pop arg s fr = step_pop fn s fr
  step Opcode.exch arg s fr = step_exch fn s fr
  step Opcode.eql arg s fr = step_compare fn Opcode.eql s fr
  step Opcode.neq arg s fr = step_compare fn Opcode.neq s fr
  step Opcode.gt arg s fr = step_compare fn Opcode.gt s fr
  step Opcode.lt arg s fr = step_compare fn Opcode.lt s fr
  step Opcode.le arg s fr = step_compare fn Opcode.le s fr
  step Opcode.ge arg s fr = step_compare fn Opcode.ge s fr
  step Opcode.plus arg s fr = step_binary fn Opcode.plus s fr
  step Opcode.minus arg s fr = step_binary fn Opcode.minus s fr
  step Opcode.star arg s fr = step_binary fn Opcode.star s fr
  step Opcode.slash arg s fr = step_binary fn Opcode.slash s fr
  step Opcode.slashslash arg s fr = step_binary fn Opcode.slashslash s fr
  step Opcode.percent arg s fr = step_binary fn Opcode.percent s fr
  step Opcode.amp arg s fr = step_binary fn Opcode.amp s fr
  step Opcode.pipe arg s fr = step_binary fn Opcode.pipe s fr
  step Opcode.circumflex arg s fr = step_binary fn Opcode.circumflex s fr
  step Opcode.ltlt arg s fr = step_binary fn Opcode.ltlt s fr
  step Opcode.gtgt arg s fr = step_binary fn Opcode.gtgt s fr
  step Opcode.in_op arg s fr = step_binary fn Opcode.in_op s fr
  step Opcode.uplus arg s fr = step_unary fn Opcode.uplus s fr
  step Opcode.uminus arg s fr = step_unary fn Opcode.uminus s fr
  step Opcode.tilde arg s fr = step_unary fn Opcode.tilde s fr
  step Opcode.inplace_add arg s fr = step_inplace_add fn s fr
  step Opcode.inplace_pipe arg s fr = step_inplace_pipe fn s fr
  step Opcode.none arg s fr = push fn h.none_value s fr
  step Opcode.true arg s fr = push fn (h.bool true) s fr
  step Opcode.false arg s fr = push fn (h.bool false) s fr
  step Opcode.mandatory arg s fr = push fn h.mandatory s fr
  step Opcode.jmp arg s fr = next s (record fr { pc = arg })
  step Opcode.call arg s fr = step_call Opcode.call arg s fr
  step Opcode.call_var arg s fr = step_call Opcode.call_var arg s fr
  step Opcode.call_kw arg s fr = step_call Opcode.call_kw arg s fr
  step Opcode.call_var_kw arg s fr = step_call Opcode.call_var_kw arg s fr
  step Opcode.iterpush arg s fr = step_iterpush s fr
  step Opcode.iterjmp arg s fr = step_iterjmp fn arg s fr
  step Opcode.iterpop arg s fr = step_iterpop s fr
  step Opcode.not arg s fr = step_not fn s fr
  step Opcode.return arg s fr = step_return fn s fr
  step Opcode.setindex arg s fr = step_setindex s fr
  step Opcode.index arg s fr = step_index fn s fr
  step Opcode.attr arg s fr = step_attr fn arg s fr
  step Opcode.setfield arg s fr = step_setfield fn arg s fr
  step Opcode.makedict arg s fr = step_makedict fn s fr
  step Opcode.setdict arg s fr = step_setdict Opcode.setdict s fr
  step Opcode.setdictuniq arg s fr = step_setdict Opcode.setdictuniq s fr
  step Opcode.append arg s fr = step_append s fr
  step Opcode.slice arg s fr = step_slice fn s fr
  step Opcode.unpack arg s fr = step_unpack fn arg s fr
  step Opcode.cjmp arg s fr = step_cjmp arg s fr
  step Opcode.constant arg s fr = step_constant fn arg s fr
  step Opcode.maketuple arg s fr = step_maketuple fn arg s fr
  step Opcode.makelist arg s fr = step_makelist fn arg s fr
  step Opcode.makefunc arg s fr = step_makefunc fn arg s fr
  step Opcode.load arg s fr = step_load arg s fr
  step Opcode.setlocal arg s fr = step_setlocal arg s fr
  step Opcode.setlocalcell arg s fr = step_setlocalcell arg s fr
  step Opcode.setglobal arg s fr = step_setglobal arg s fr
  step Opcode.local arg s fr = step_local fn arg s fr
  step Opcode.free arg s fr = step_free fn arg s fr
  step Opcode.localcell arg s fr = step_localcell fn arg s fr
  step Opcode.freecell arg s fr = step_freecell fn arg s fr
  step Opcode.global arg s fr = step_global fn arg s fr
  step Opcode.predeclared arg s fr = step_predeclared fn arg s fr
  step Opcode.universal arg s fr = step_universal fn arg s fr

  -- One round of the loop.
  unfoldable pub cycle : List Value → Frame h → Next h
  unfolding tick fetch opcode step
  cycle s fr =
      let fr' = tick fr in
      elim fr'.thread.cancel_reason [
        | some reason ↦ failed (cancelled reason) fr'
        | none ↦ elim (fetch fr'.pc) [
          | none ↦ panicked code_bounds fr'
          | some (op, arg, pc') ↦ elim (opcode op) [
            | none ↦ failed (unimplemented op) (record fr' { pc = pc' })
            | some o ↦ step o arg s (record fr' { pc = pc' })
          ]
        ]
      ]

  -- At most that many rounds. An outcome `next` is a loop that would go on.
  unfoldable pub run : ℕ → List Value → Frame h → Next h
  unfolding cycle finish
  run zero s fr = next s fr
  run (suc n) s fr = finish (cycle s fr) (λ s' fr'. run n s' fr')
