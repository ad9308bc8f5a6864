-- ===== src/Vm/Stack/Items.antt =====
-- The operand stack under the instructions of Vm/Items.
use starlark_go.Common.{◌==◌, ◌&&◌, ℕ, ◌<◌, refl, List, [], ◌∷◌, ◌++◌, length, ◌≡◌, get_elem?}
use starlark_go.Compile.Opcode.{Opcode, code_of}
use starlark_go.Vm.{Host, Function, Frame, next, failed, duplicate_key, bad_type, bad_index}
use starlark_go.Vm.Items.{
  step_setindex, step_setdict, step_append, step_index, step_attr, step_setfield, step_makedict,
  step_slice, step_maketuple, step_makelist,
}
use starlark_go.Vm.Stack.{
  Ends, Leaves, attempt-Ends, expect-Ends, push-Leaves, if-Ends, popping-Ends,
}

module _ {h : Host} (rest : List h.Value) (fr : Frame h) where
  open h use {Value}

  pub setindex-Leaves :
      (x y z : Value) → Ends (Leaves rest 0 fr.pc) (step_setindex (z ∷ y ∷ x ∷ rest) fr)
  unfolding step_setindex
  setindex-Leaves x y z =
      attempt-Ends _ (h.set_index fr.heap x y z) fr _
        (λ _ hp. record { values = []; counted = refl; above = refl; at = refl })

  pub setdict-Leaves :
      (op : Opcode) (x k v : Value)
      → Ends (Leaves rest 0 fr.pc) (step_setdict op (v ∷ k ∷ x ∷ rest) fr)
  unfolding step_setdict code_of
  setdict-Leaves op x k v = expect-Ends _ bad_type (h.as_dict x) fr _ tt (λ dict.
      attempt-Ends _ (h.set_key fr.heap dict k v) fr _ (λ _ hp.
        if-Ends _
          (code_of op == code_of Opcode.setdictuniq
            && h.dict_len hp dict == h.dict_len fr.heap dict)
          (failed duplicate_key (record fr { heap = hp })) (next rest (record fr { heap = hp })) tt
          (record { values = []; counted = refl; above = refl; at = refl })))

  pub append-Leaves :
      (x elem : Value) → Ends (Leaves rest 0 fr.pc) (step_append (elem ∷ x ∷ rest) fr)
  unfolding step_append
  append-Leaves x elem =
      expect-Ends _ bad_type (h.as_list x) fr _ tt
        (λ list. record { values = []; counted = refl; above = refl; at = refl })

module _ {h : Host} (fn : Function h) (rest : List h.Value) (fr : Frame h) where
  open h use {Value}

  pub attr-Leaves :
      (arg : ℕ) (x : Value) → Ends (Leaves rest 1 fr.pc) (step_attr fn arg (x ∷ rest) fr)
  unfolding step_attr
  attr-Leaves arg x = expect-Ends _ bad_index (get_elem? fn.names arg) fr _ tt (λ name.
      attempt-Ends _ (h.get_attr fr.heap x name) fr _
        (λ y hp. record { values = y ∷ []; counted = refl; above = refl; at = refl }))

  pub setfield-Leaves :
      (arg : ℕ) (x y : Value) → Ends (Leaves rest 0 fr.pc) (step_setfield fn arg (y ∷ x ∷ rest) fr)
  unfolding step_setfield
  setfield-Leaves arg x y = expect-Ends _ bad_index (get_elem? fn.names arg) fr _ tt (λ name.
      attempt-Ends _ (h.set_field fr.heap x name y) fr _
        (λ _ hp. record { values = []; counted = refl; above = refl; at = refl }))

  module _ (room : length rest < fn.max_stack) where
    pub index-Leaves : (x y : Value) → Ends (Leaves rest 1 fr.pc) (step_index fn (y ∷ x ∷ rest) fr)
    unfolding step_index
    index-Leaves x y =
        attempt-Ends _ (h.get_index fr.heap x y) fr _
          (λ z hp. push-Leaves fn z rest _ fr.pc room refl)

    pub makedict-Leaves : Ends (Leaves rest 1 fr.pc) (step_makedict fn rest fr)
    unfolding step_makedict
    makedict-Leaves = push-Leaves fn _ rest _ fr.pc room refl

    pub slice-Leaves :
        (x lo hi step : Value)
        → Ends (Leaves rest 1 fr.pc) (step_slice fn (step ∷ hi ∷ lo ∷ x ∷ rest) fr)
    unfolding step_slice
    slice-Leaves x lo hi step =
        attempt-Ends _ (h.slice fr.heap x lo hi step) fr _
          (λ res hp. push-Leaves fn res rest _ fr.pc room refl)

    pub maketuple-Leaves :
        (n : ℕ) (args : List Value)
        → length args ≡ n
        → Ends (Leaves rest 1 fr.pc) (step_maketuple fn n (args ++ rest) fr)
    unfolding step_maketuple
    maketuple-Leaves n args e =
        popping-Ends _ n args rest fr _ e (λ elems. push-Leaves fn _ rest _ fr.pc room refl)

    pub makelist-Leaves :
        (n : ℕ) (args : List Value)
        → length args ≡ n
        → Ends (Leaves rest 1 fr.pc) (step_makelist fn n (args ++ rest) fr)
    unfolding step_makelist
    makelist-Leaves n args e =
        popping-Ends _ n args rest fr _ e (λ elems. push-Leaves fn _ rest _ fr.pc room refl)
