-- ===== src/Vm/Call.antt =====
-- The instructions CALL, CALL_VAR, CALL_KW and CALL_VAR_KW of starlark/interp.go.
use starlark_go.Common.{
  ℕ, zero, suc, ◌*◌, ◌/◌, ◌^◌, bit_and, Bool, true, false, ◌&&◌, ◌||◌, List, [], ◌∷◌, ◌++◌, Option,
  none, some, ltb, ◌==◌, if◌then◌else◌,
}
use starlark_go.Compile.Opcode.{Opcode, code_of}
use starlark_go.Vm.{
  Host, Frame, Next, next, failed, panicked, stack_bounds, not_mapping, bad_keyword,
  argument_not_iterable, pop1, popping, attempt,
}

-- The names and values that alternate on the stack.
abbrev pub pairs : {V : Type 0} → List V → List (V × V)
pairs (name ∷ value ∷ rest) = (name, value) ∷ pairs rest
pairs _ = []

abbrev pub is_empty : {V : Type 0} → List V → Bool
is_empty [] = true
is_empty (x ∷ xs) = false

module _ (h : Host) where
  open h use {Value, Heap, Iterator}

  -- Every key of the items of `**kwargs` is a string.
  unfoldable pub string_keys : List (Value × Value) → Bool
  string_keys [] = true
  string_keys ((key, v) ∷ items) = elim (h.as_string key) [
    | none ↦ false
    | some name ↦ string_keys items
  ]

  -- `for iter.Next(&elem) { positional = append(positional, elem) }`, by the rounds left.
  unfoldable pub drain : ℕ → Heap → Iterator → List Value → Option (Heap × List Value)
  drain zero hp iter positional = none
  drain (suc n) hp iter positional =
      let (hp', elem) = h.iter_next hp iter in
      elim elem [ none ↦ some (hp', positional) | some v ↦ drain n hp' iter (positional ++ v ∷ []) ]

module _ {h : Host} where
  open h use {Value}

  -- `op == a || op == b`: the value on top of the stack, or nil.
  unfoldable pub pop_if :
      Opcode → Opcode → Opcode → List Value → Frame h → (Value → List Value → Next h) → Next h
  unfolding code_of
  pop_if op a b s fr k =
      if code_of op == code_of a || code_of op == code_of b then pop1 s fr k else k h.nil s

  -- The named arguments, with the items of the `**kwargs` dictionary behind them.
  unfoldable pub with_kwargs :
      Value → List (Value × Value) → Frame h → (List (Value × Value) → Next h) → Next h
  unfolding string_keys
  with_kwargs kwargs kvpairs fr k =
      if h.is_nil kwargs then k kvpairs else elim (h.mapping_items fr.heap kwargs) [
        | none ↦ failed not_mapping fr
        | some items ↦ if string_keys h items then k (kvpairs ++ items) else failed bad_keyword fr
      ]

  -- The positional arguments, with the elements of the `*args` sequence behind them.
  unfoldable pub with_args : Value → List Value → Frame h → (List Value → Frame h → Next h) → Next h
  unfolding drain
  with_args args positional fr k =
      if h.is_nil args then k positional fr else elim (h.iterate fr.heap args) [
        | none ↦ failed argument_not_iterable fr
        | some (hp, iter) ↦ elim (drain h (suc (h.left hp iter)) hp iter positional) [
          | none ↦ Next.spinning (record fr { heap = hp })
          | some (hp', all) ↦ k all (record fr { heap = h.iter_done hp' iter })
        ]
      ]

  -- `Call(thread, function, positional, kvpairs)`, whose result takes the place of the function.
  unfoldable pub invoke : List Value → Frame h → List Value → List (Value × Value) → Next h
  invoke s fr positional kvpairs = pop1 s fr (λ function rest.
      let (thread', reply) = h.call fr.thread fr.heap function positional kvpairs in
      attempt reply (record fr { thread = thread' }) (λ z fr'. next (z ∷ rest) fr'))

  -- The call, once the arguments are off the stack. Only where there are positional arguments is the
  -- function looked at before `*args` is drained.
  unfoldable pub call_function :
      ℕ → Value → List (Value × Value) → List Value → List Value → Frame h → Next h
  unfolding with_args invoke
  call_function arg args kvpairs positional s fr =
      if ltb 0 (arg / 2 ^ 8) && is_empty s
      then panicked stack_bounds fr
      else with_args args positional fr (λ all fr'. invoke s fr' all kvpairs)

  unfoldable pub call_positional : ℕ → Value → List (Value × Value) → List Value → Frame h → Next h
  unfolding call_function
  call_positional arg args kvpairs s fr =
      popping (arg / 2 ^ 8) s fr (λ positional s'. call_function arg args kvpairs positional s' fr)

  -- The named arguments, with `**kwargs` and `*args` off the stack.
  unfoldable pub call_args : ℕ → Value → Value → List Value → Frame h → Next h
  unfolding with_kwargs call_positional
  call_args arg kwargs args s fr = popping (2 * bit_and arg 0xff) s fr (λ named s'.
      with_kwargs kwargs (pairs named) fr (λ kvpairs. call_positional arg args kvpairs s' fr))

  unfoldable pub step_call : Opcode → ℕ → List Value → Frame h → Next h
  unfolding pop_if call_args
  step_call op arg s fr = pop_if op Opcode.call_kw Opcode.call_var_kw s fr (λ kwargs s₁.
      pop_if op Opcode.call_var Opcode.call_var_kw s₁ fr
        (λ args s₂. call_args arg kwargs args s₂ fr))
