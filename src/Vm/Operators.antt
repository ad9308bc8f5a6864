-- ===== src/Vm/Operators.antt =====
-- The instructions of starlark/interp.go that shuffle the operand stack, apply operators and push
-- constants.
use starlark_go.Common.{
  ℕ, ◌+◌, ◌-◌, ◌%◌, ◌^◌, not, List, [], ◌∷◌, none, some, length, ltb, ◌==◌, if◌then◌else◌,
}
use starlark_go.Compile.Opcode.{Opcode, code_of}
use starlark_go.Syntax.Token.{Token, number}
use starlark_go.Vm.{
  Host, Function, Frame, Next, panicked, failed, next, host_error, stack_bounds, pop1, pop2, push,
  attempt,
}

-- `syntax.Token(op-base) + token`: `op-base` wraps around at 8 bits, and so does the sum.
unfoldable pub shift_token : ℕ → ℕ → ℕ → ℕ
shift_token op base token = ((op + 2 ^ 8 - base) % 2 ^ 8 + token) % 2 ^ 8

unfoldable pub compare_token : Opcode → ℕ
unfolding shift_token code_of number
compare_token op = shift_token (code_of op) (code_of Opcode.eql) (number Token.eql)

unfoldable pub binary_token : Opcode → ℕ
unfolding shift_token code_of number
binary_token op =
    if code_of op == code_of Opcode.in_op
    then number Token.in_token
    else shift_token (code_of op) (code_of Opcode.plus) (number Token.plus)

unfoldable pub unary_token : Opcode → ℕ
unfolding shift_token code_of number
unary_token op =
    if code_of op == code_of Opcode.tilde
    then number Token.tilde
    else shift_token (code_of op) (code_of Opcode.uplus) (number Token.plus)

module _ {h : Host} (fn : Function h) where
  open h use {Value}

  -- `stack[sp] = stack[sp-1]; sp++`
  unfoldable pub step_dup : List Value → Frame h → Next h
  unfolding push
  step_dup s fr = pop1 s fr (λ x rest. push fn x s fr)

  -- `stack[sp] = stack[sp-2]; stack[sp+1] = stack[sp-1]; sp += 2`
  unfoldable pub step_dup2 : List Value → Frame h → Next h
  step_dup2 s fr = pop2 s fr (λ x y rest.
      if ltb (length s + 1) fn.max_stack then next (y ∷ x ∷ s) fr else panicked stack_bounds fr)

  -- `sp--`
  unfoldable pub step_pop : List Value → Frame h → Next h
  step_pop [] fr = Next.below_bottom fr
  step_pop (x ∷ s) fr = next s fr

  unfoldable pub step_exch : List Value → Frame h → Next h
  step_exch s fr = pop2 s fr (λ x y rest. next (x ∷ y ∷ rest) fr)

  unfoldable pub step_compare : Opcode → List Value → Frame h → Next h
  unfolding push compare_token
  step_compare op s fr = pop2 s fr (λ x y rest.
      attempt (h.compare fr.heap (compare_token op) x y) fr
        (λ ok fr'. push fn (h.bool ok) rest fr'))

  unfoldable pub step_binary : Opcode → List Value → Frame h → Next h
  unfolding push binary_token
  step_binary op s fr = pop2 s fr (λ x y rest.
      attempt (h.binary fr.heap (binary_token op) x y) fr (λ z fr'. push fn z rest fr'))

  unfoldable pub step_unary : Opcode → List Value → Frame h → Next h
  unfolding unary_token
  step_unary op s fr =
      pop1 s fr
        (λ x rest. attempt (h.unary fr.heap (unary_token op) x) fr (λ y fr'. next (y ∷ rest) fr'))

  -- `x += y`: a list is extended in place when `y` is iterable, and else `x + y` is computed.
  unfoldable pub step_inplace_add : List Value → Frame h → Next h
  unfolding push number
  step_inplace_add s fr = pop2 s fr (λ x y rest.
      let general =
        attempt (h.binary fr.heap (number Token.plus) x y) fr (λ z fr'. push fn z rest fr') in
      elim (h.as_list x) [
        | none ↦ general
        | some xlist ↦
            if h.is_iterable y
            then elim (h.check_list_mutable fr.heap xlist) [
              | some e ↦ failed (host_error e) fr
              | none ↦ push fn x rest (record fr { heap = h.list_extend fr.heap xlist y })
            ]
            else general
      ])

  -- `x |= y`: a dict is updated in place when `y` is a dict, and else `x | y` is computed.
  unfoldable pub step_inplace_pipe : List Value → Frame h → Next h
  unfolding push number
  step_inplace_pipe s fr = pop2 s fr (λ x y rest.
      let general =
        attempt (h.binary fr.heap (number Token.pipe) x y) fr (λ z fr'. push fn z rest fr') in
      elim (h.as_dict x) [
        | none ↦ general
        | some xdict ↦ elim (h.as_dict y) [
          | none ↦ general
          | some ydict ↦ elim (h.check_dict_mutable fr.heap xdict) [
            | some e ↦ failed (host_error e) fr
            | none ↦ push fn x rest (record fr { heap = h.add_all fr.heap xdict ydict })
          ]
        ]
      ])

  -- `stack[sp-1] = !stack[sp-1].Truth()`
  unfoldable pub step_not : List Value → Frame h → Next h
  step_not s fr = pop1 s fr (λ x rest. next (h.bool (not (h.truth fr.heap x)) ∷ rest) fr)

  unfoldable pub step_return : List Value → Frame h → Next h
  step_return s fr = pop1 s fr (λ x rest. Next.returned x fr)
