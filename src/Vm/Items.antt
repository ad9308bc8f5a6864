-- ===== src/Vm/Items.antt =====
-- The instructions of starlark/interp.go that make and index containers and read and set attributes.
use starlark_go.Common.{ℕ, List, ◌∷◌, get_elem?, ◌==◌, ◌&&◌, if◌then◌else◌}
use starlark_go.Compile.Opcode.{Opcode, code_of}
use starlark_go.Vm.{
  Host, Function, Frame, Next, next, failed, bad_type, bad_index, duplicate_key, pop1, pop2, pop3,
  pop4, popping, push, attempt, expect,
}

module _ {h : Host} where
  open h use {Value}

  unfoldable pub step_setindex : List Value → Frame h → Next h
  step_setindex s fr =
      pop3 s fr (λ x y z rest. attempt (h.set_index fr.heap x y z) fr (λ _ fr'. next rest fr'))

  -- The length of the dict tells whether the key was new.
  unfoldable pub step_setdict : Opcode → List Value → Frame h → Next h
  unfolding code_of
  step_setdict op s fr = pop3 s fr (λ x k v rest. expect bad_type (h.as_dict x) fr (λ dict.
      let oldlen = h.dict_len fr.heap dict in
      attempt (h.set_key fr.heap dict k v) fr (λ _ fr'.
        if code_of op == code_of Opcode.setdictuniq && h.dict_len fr'.heap dict == oldlen
        then failed duplicate_key fr'
        else next rest fr')))

  -- `list.elems = append(list.elems, elem)`
  unfoldable pub step_append : List Value → Frame h → Next h
  step_append s fr = pop2 s fr (λ x elem rest.
      expect bad_type (h.as_list x) fr
        (λ list. next rest (record fr { heap = h.list_append fr.heap list elem })))

module _ {h : Host} (fn : Function h) where
  open h use {Value}

  unfoldable pub step_index : List Value → Frame h → Next h
  unfolding push
  step_index s fr =
      pop2 s fr (λ x y rest. attempt (h.get_index fr.heap x y) fr (λ z fr'. push fn z rest fr'))

  unfoldable pub step_attr : ℕ → List Value → Frame h → Next h
  step_attr arg s fr = pop1 s fr (λ x rest.
      expect bad_index (get_elem? fn.names arg) fr
        (λ name. attempt (h.get_attr fr.heap x name) fr (λ y fr'. next (y ∷ rest) fr')))

  unfoldable pub step_setfield : ℕ → List Value → Frame h → Next h
  step_setfield arg s fr = pop2 s fr (λ x y rest.
      expect bad_index (get_elem? fn.names arg) fr
        (λ name. attempt (h.set_field fr.heap x name y) fr (λ _ fr'. next rest fr')))

  unfoldable pub step_makedict : List Value → Frame h → Next h
  unfolding push
  step_makedict s fr =
      let (hp, dict) = h.new_dict fr.heap in push fn dict s (record fr { heap = hp })

  unfoldable pub step_slice : List Value → Frame h → Next h
  unfolding push
  step_slice s fr = pop4 s fr (λ x lo hi step rest.
      attempt (h.slice fr.heap x lo hi step) fr (λ res fr'. push fn res rest fr'))

  unfoldable pub step_maketuple : ℕ → List Value → Frame h → Next h
  unfolding push
  step_maketuple n s fr = popping n s fr (λ elems rest. push fn (h.tuple elems) rest fr)

  unfoldable pub step_makelist : ℕ → List Value → Frame h → Next h
  unfolding push
  step_makelist n s fr = popping n s fr (λ elems rest.
      let (hp, list) = h.new_list fr.heap elems in push fn list rest (record fr { heap = hp }))
