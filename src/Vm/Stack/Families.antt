-- ===== src/Vm/Stack/Families.antt =====
-- The exits of the families of instructions of starlark/interp.go: the comparisons, the operators, and
-- the constants of the language.
use starlark_go.Common.{ℕ, ◌+◌, ◌≤◌, ◌≡◌, refl, List, [], ◌∷◌, ◌++◌, length, All}
use starlark_go.Compile.Opcode.{Opcode}
use starlark_go.Vm.{Host, Function, Frame, push}
use starlark_go.Vm.Operators.{step_compare, step_binary, step_unary}
use starlark_go.Vm.Stack.{Ends, with_none, push-Leaves}
use starlark_go.Vm.Stack.Operators
use starlark_go.Vm.Stack.Exits.{Goes, enough, one_exit, one_value, two_values}

module _ {h : Host} (fn : Function h) (rest : List h.Value) (fr : Frame h) where
  open h use {Value}

  -- Room for one value at the next address.
  abbrev pub Room : Type 0
  Room = All (λ (ex : ℕ × ℕ). length rest + ex.1 ≤ fn.max_stack) ((fr.pc, 1) ∷ [])

  pub compare-Goes :
      (op : Opcode) (args : List Value)
      → length args ≡ 2
      → Room
      → Ends (Goes rest ((fr.pc, 1) ∷ [])) (step_compare fn op (args ++ rest) fr)
  compare-Goes op args e room =
      two_values (λ l. Ends (Goes rest ((fr.pc, 1) ∷ [])) (step_compare fn op (l ++ rest) fr))
        (λ y x.
          one_exit fn rest fr 1 _ (Operators.compare-Leaves fn rest fr (enough _ _ room.0) op x y))
        args e

  pub binary-Goes :
      (op : Opcode) (args : List Value)
      → length args ≡ 2
      → Room
      → Ends (Goes rest ((fr.pc, 1) ∷ [])) (step_binary fn op (args ++ rest) fr)
  binary-Goes op args e room =
      two_values (λ l. Ends (Goes rest ((fr.pc, 1) ∷ [])) (step_binary fn op (l ++ rest) fr))
        (λ y x.
          one_exit fn rest fr 1 _ (Operators.binary-Leaves fn rest fr (enough _ _ room.0) op x y))
        args e

  pub unary-Goes :
      (op : Opcode) (args : List Value)
      → length args ≡ 1
      → Ends (Goes rest ((fr.pc, 1) ∷ [])) (step_unary fn op (args ++ rest) fr)
  unary-Goes op args e =
      one_value (λ l. Ends (Goes rest ((fr.pc, 1) ∷ [])) (step_unary fn op (l ++ rest) fr))
        (λ x. one_exit fn rest fr 1 _ (Operators.unary-Leaves fn rest fr op x)) args e

  pub push-Goes :
      (v : Value) (args : List Value)
      → length args ≡ 0
      → Room
      → Ends (Goes rest ((fr.pc, 1) ∷ [])) (push fn v (args ++ rest) fr)
  push-Goes v args e room =
      with_none (λ l. Ends (Goes rest ((fr.pc, 1) ∷ [])) (push fn v (l ++ rest) fr))
        (one_exit fn rest fr 1 _ (push-Leaves fn v rest fr fr.pc (enough _ _ room.0) refl)) args e
