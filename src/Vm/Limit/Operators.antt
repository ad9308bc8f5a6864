-- ===== src/Vm/Limit/Operators.antt =====
-- The instructions of Vm/Operators and Vm/Items leave the thread as it is.
use starlark_go.Common.{ℕ, List, [], ◌∷◌, length, ltb, ◌+◌}
use starlark_go.Compile.Opcode.{Opcode}
use starlark_go.Vm.{Host, Thread, Function, Frame, Panic, push, attempt, next, panicked}
use starlark_go.Vm.Operators.{
  compare_token, binary_token, unary_token, step_dup, step_dup2, step_pop, step_exch, step_compare,
  step_binary, step_unary, step_inplace_add, step_inplace_pipe, step_not, step_return,
}
use starlark_go.Vm.Limit.{
  Onward, pop1-Onward, pop2-Onward, if-Onward, Option-Onward, push-Onward, attempt-Onward,
}

module _ {h : Host} (T : Thread → Type 0) (fn : Function h) (s : List h.Value) (fr : Frame h)
    (t : T fr.thread) where
  open h use {Value}

  pub dup-Onward : Onward T (step_dup fn s fr)
  unfolding step_dup
  dup-Onward = pop1-Onward T s fr _ (λ x rest. push-Onward T fn x s fr t)

  pub dup2-Onward : Onward T (step_dup2 fn s fr)
  unfolding step_dup2
  dup2-Onward = pop2-Onward T s fr _ (λ x y rest.
      if-Onward T (ltb (length s + 1) fn.max_stack) (next (y ∷ x ∷ s) fr)
        (panicked Panic.stack_bounds fr) t tt)

  pub exch-Onward : Onward T (step_exch fn s fr)
  unfolding step_exch
  exch-Onward = pop2-Onward T s fr _ (λ x y rest. t)

  pub compare-Onward : (op : Opcode) → Onward T (step_compare fn op s fr)
  unfolding step_compare
  compare-Onward op = pop2-Onward T s fr _ (λ x y rest.
      attempt-Onward T (h.compare fr.heap (compare_token op) x y) fr _
        (λ ok hp. push-Onward T fn (h.bool ok) rest (record fr { heap = hp }) t))

  general-Onward :
      (token : ℕ) (x y : Value) (rest : List Value)
      → Onward T (attempt (h.binary fr.heap token x y) fr (λ z fr'. push fn z rest fr'))
  general-Onward token x y rest =
      attempt-Onward T (h.binary fr.heap token x y) fr _
        (λ z hp. push-Onward T fn z rest (record fr { heap = hp }) t)

  pub binary-Onward : (op : Opcode) → Onward T (step_binary fn op s fr)
  unfolding step_binary
  binary-Onward op = pop2-Onward T s fr _ (λ x y rest. general-Onward (binary_token op) x y rest)

  pub unary-Onward : (op : Opcode) → Onward T (step_unary fn op s fr)
  unfolding step_unary
  unary-Onward op =
      pop1-Onward T s fr _
        (λ x rest. attempt-Onward T (h.unary fr.heap (unary_token op) x) fr _ (λ y hp. t))

  pub inplace_add-Onward : Onward T (step_inplace_add fn s fr)
  unfolding step_inplace_add
  inplace_add-Onward = pop2-Onward T s fr _ (λ x y rest.
      Option-Onward T (h.as_list x) _ _ (general-Onward _ x y rest) (λ xlist.
        if-Onward T (h.is_iterable y) _ _
          (Option-Onward T (h.check_list_mutable fr.heap xlist) _ _ (push-Onward T fn x rest _ t)
            (λ e. tt))
          (general-Onward _ x y rest)))

  pub inplace_pipe-Onward : Onward T (step_inplace_pipe fn s fr)
  unfolding step_inplace_pipe
  inplace_pipe-Onward = pop2-Onward T s fr _ (λ x y rest.
      Option-Onward T (h.as_dict x) _ _ (general-Onward _ x y rest) (λ xdict.
        Option-Onward T (h.as_dict y) _ _ (general-Onward _ x y rest) (λ ydict.
          Option-Onward T (h.check_dict_mutable fr.heap xdict) _ _ (push-Onward T fn x rest _ t)
            (λ e. tt))))

  pub not-Onward : Onward T (step_not fn s fr)
  unfolding step_not
  not-Onward = pop1-Onward T s fr _ (λ x rest. t)

  pub return-Onward : Onward T (step_return fn s fr)
  unfolding step_return
  return-Onward = pop1-Onward T s fr _ (λ x rest. tt)

module _ {h : Host} (T : Thread → Type 0) (fn : Function h) where
  pub pop-Onward : (s : List h.Value) (fr : Frame h) → T fr.thread → Onward T (step_pop fn s fr)
  unfolding step_pop
  pop-Onward [] fr t = tt
  pop-Onward (x ∷ s) fr t = t
