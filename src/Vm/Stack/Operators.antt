-- ===== src/Vm/Stack/Operators.antt =====
-- The operand stack under the instructions of Vm/Operators.
use starlark_go.Common.{ℕ, suc, ◌+◌, ◌<◌, refl, List, [], ◌∷◌, length}
use starlark_go.Compile.Opcode.{Opcode}
use starlark_go.Vm.{Host, Function, Frame, push, attempt}
use starlark_go.Vm.Operators.{
  compare_token, binary_token, unary_token, step_dup, step_dup2, step_exch, step_compare,
  step_binary, step_unary, step_inplace_add, step_inplace_pipe, step_not,
}
use starlark_go.Vm.Stack.{Ends, Leaves, attempt-Ends, push-Leaves, lt→ltb, if-Ends, Option-Ends}

module _ {h : Host} (fn : Function h) (rest : List h.Value) (fr : Frame h) where
  open h use {Value}

  pub dup-Leaves :
      (x : Value)
      → suc (length rest) < fn.max_stack
      → Ends (Leaves rest 2 fr.pc) (step_dup fn (x ∷ rest) fr)
  unfolding step_dup push
  dup-Leaves x room =
      rw (lt→ltb _ _ room) (record { values = x ∷ x ∷ []; counted = refl; above = refl; at = refl })

  pub dup2-Leaves :
      (x y : Value)
      → suc (suc (length rest)) + 1 < fn.max_stack
      → Ends (Leaves rest 4 fr.pc) (step_dup2 fn (y ∷ x ∷ rest) fr)
  unfolding step_dup2
  dup2-Leaves x y room =
      rw (lt→ltb _ _ room)
        (record { values = y ∷ x ∷ y ∷ x ∷ []; counted = refl; above = refl; at = refl })

  pub exch-Leaves : (x y : Value) → Ends (Leaves rest 2 fr.pc) (step_exch fn (y ∷ x ∷ rest) fr)
  unfolding step_exch
  exch-Leaves x y = record { values = x ∷ y ∷ []; counted = refl; above = refl; at = refl }

  pub unary-Leaves :
      (op : Opcode) (x : Value) → Ends (Leaves rest 1 fr.pc) (step_unary fn op (x ∷ rest) fr)
  unfolding step_unary
  unary-Leaves op x =
      attempt-Ends _ (h.unary fr.heap (unary_token op) x) fr _
        (λ y hp. record { values = y ∷ []; counted = refl; above = refl; at = refl })

  pub not-Leaves : (x : Value) → Ends (Leaves rest 1 fr.pc) (step_not fn (x ∷ rest) fr)
  unfolding step_not
  not-Leaves x = record { values = _ ∷ []; counted = refl; above = refl; at = refl }

  module _ (room : length rest < fn.max_stack) where
    pub compare-Leaves :
        (op : Opcode) (x y : Value)
        → Ends (Leaves rest 1 fr.pc) (step_compare fn op (y ∷ x ∷ rest) fr)
    unfolding step_compare
    compare-Leaves op x y =
        attempt-Ends _ (h.compare fr.heap (compare_token op) x y) fr _
          (λ ok hp. push-Leaves fn _ rest (record fr { heap = hp }) fr.pc room refl)

    pub general-Leaves :
        (t : ℕ) (x y : Value)
        → Ends
            (Leaves rest 1 fr.pc)
            (attempt (h.binary fr.heap t x y) fr (λ z fr'. push fn z rest fr'))
    general-Leaves t x y =
        attempt-Ends _ (h.binary fr.heap t x y) fr _
          (λ z hp. push-Leaves fn z rest (record fr { heap = hp }) fr.pc room refl)

    pub binary-Leaves :
        (op : Opcode) (x y : Value)
        → Ends (Leaves rest 1 fr.pc) (step_binary fn op (y ∷ x ∷ rest) fr)
    unfolding step_binary
    binary-Leaves op x y = general-Leaves (binary_token op) x y

    pub inplace_add-Leaves :
        (x y : Value) → Ends (Leaves rest 1 fr.pc) (step_inplace_add fn (y ∷ x ∷ rest) fr)
    unfolding step_inplace_add
    inplace_add-Leaves x y = Option-Ends _ (h.as_list x) _ _ (general-Leaves _ x y) (λ xlist.
        if-Ends _ (h.is_iterable y) _ _
          (Option-Ends _ (h.check_list_mutable fr.heap xlist) _ _
            (push-Leaves fn x rest _ fr.pc room refl) (λ e. tt))
          (general-Leaves _ x y))

    pub inplace_pipe-Leaves :
        (x y : Value) → Ends (Leaves rest 1 fr.pc) (step_inplace_pipe fn (y ∷ x ∷ rest) fr)
    unfolding step_inplace_pipe
    inplace_pipe-Leaves x y = Option-Ends _ (h.as_dict x) _ _ (general-Leaves _ x y) (λ xdict.
        Option-Ends _ (h.as_dict y) _ _ (general-Leaves _ x y) (λ ydict.
          Option-Ends _ (h.check_dict_mutable fr.heap xdict) _ _
            (push-Leaves fn x rest _ fr.pc room refl) (λ e. tt)))
