-- ===== src/Vm/Limit/Call.antt =====
-- The instructions of Vm/Call, which come to an end where iterators do.
use starlark_go.Common.{
  ℕ, zero, suc, ◌*◌, ◌/◌, ◌^◌, ◌<◌, ◌≡◌, ◌&&◌, ◌||◌, ◌==◌, ◌++◌, bit_and, List, [], ◌∷◌, Option,
  none, some, ltb, refl, sym, arith, subst,
}
use starlark_go.Compile.Opcode.{Opcode, code_of}
use starlark_go.Vm.{Host, Thread, Frame, Next, Panic, panicked}
use starlark_go.Vm.Call.{
  pairs, is_empty, pop_if, string_keys, with_kwargs, drain, with_args, invoke, call_function,
  call_positional, call_args, step_call,
}
use starlark_go.Vm.Limit.{
  Onward, pop1-Onward, if-Onward, Option-Onward, known-Onward, popping-Onward, attempt-Onward,
}

-- `left` bounds how many elements an iterator still has.
abbrev pub Shrinks : Host → Type 0
Shrinks h =
    (hp : h.Heap) (iter : h.Iterator) (v : h.Value)
    → (h.iter_next hp iter).1 ≡ some v
    → h.left (h.iter_next hp iter).0 iter < h.left hp iter

-- A drain with more rounds than elements are left comes to an end.
drain_ends :
    (h : Host) (shrinks : Shrinks h) (n : ℕ) (hp : h.Heap) (iter : h.Iterator) (xs : List h.Value)
    → h.left hp iter < n
    → ¬ (drain h n hp iter xs ≡ none)
unfolding drain
drain_ends h shrinks zero hp iter xs more over = absurd (omega arith)
drain_ends h shrinks (suc n) hp iter xs more over =
    let (hp', elem) = h.iter_next hp iter in
    elim elem
        as (λ o.
          elem ≡ o
          → elim o as (λ _. Option (h.Heap × List h.Value)) [
            | none ↦ some (hp', xs)
            | some v ↦ drain h n hp' iter (xs ++ v ∷ [])
          ]
            ≡ none
          → ⊥) [
            | none ↦ λ _ e. cc
            | some v ↦ λ came e.
                drain_ends h shrinks n hp' iter (xs ++ v ∷ [])
                  (omega (arith, shrinks hp iter v came)) e
          ]
      refl over

module _ {h : Host} (T : Thread → Type 0) (shrinks : Shrinks h) (fr : Frame h) where
  open h use {Value}

  with_kwargs-Onward :
      (kwargs : Value) (kvpairs : List (Value × Value)) (k : List (Value × Value) → Next h)
      → ((kvs : List (Value × Value)) → Onward T (k kvs))
      → Onward T (with_kwargs kwargs kvpairs fr k)
  unfolding with_kwargs
  with_kwargs-Onward kwargs kvpairs k each = if-Onward T (h.is_nil kwargs) _ _ (each kvpairs) (
      Option-Onward T (h.mapping_items fr.heap kwargs) _ _ tt
        (λ items. if-Onward T (string_keys h items) _ _ (each _) tt))

  with_args-Onward :
      (args : Value) (positional : List Value) (k : List Value → Frame h → Next h)
      → ((all : List Value) → Onward T (k all fr))
      → ((all : List Value) (hp : h.Heap) → Onward T (k all (record fr { heap = hp })))
      → Onward T (with_args args positional fr k)
  unfolding with_args
  with_args-Onward args positional k same each = if-Onward T (h.is_nil args) _ _ (same positional) (
      Option-Onward T (h.iterate fr.heap args) _ _ tt (λ started.
        let (hp, iter) = started in
        known-Onward T (drain h (suc (h.left hp iter)) hp iter positional) _ _
          (drain_ends h shrinks (suc (h.left hp iter)) hp iter positional (omega arith))
          (λ drained _. each drained.1 (h.iter_done drained.0 iter))))

module _ {h : Host} (T : Thread → Type 0) (shrinks : Shrinks h) (thread : Thread)
    (called : (hp : h.Heap) (f : h.Value) (args : List h.Value) (kvs : List (h.Value × h.Value))
      → T (h.call thread hp f args kvs).0) where
  open h use {Value}

  invoke-Onward :
      (s : List Value) (fr : Frame h) (positional : List Value) (kvpairs : List (Value × Value))
      → fr.thread ≡ thread
      → Onward T (invoke s fr positional kvpairs)
  unfolding invoke
  invoke-Onward s fr positional kvpairs same = pop1-Onward T s fr _ (λ f rest.
      let (t', reply) = h.call fr.thread fr.heap f positional kvpairs in
      attempt-Onward T reply (record fr { thread = t' }) _
        (λ z hp.
          subst (λ t. T (h.call t fr.heap f positional kvpairs).0) (sym same)
            (called fr.heap f positional kvpairs)))

  call_function-Onward :
      (arg : ℕ) (args : Value) (kvs : List (Value × Value)) (positional s : List Value)
      (fr : Frame h)
      → fr.thread ≡ thread
      → Onward T (call_function arg args kvs positional s fr)
  unfolding call_function
  call_function-Onward arg args kvs positional s fr same =
      if-Onward T (ltb 0 (arg / 2 ^ 8) && is_empty s) (panicked Panic.stack_bounds fr) _ tt (
        with_args-Onward T shrinks fr args positional (λ all fr'. invoke s fr' all kvs)
          (λ all. invoke-Onward s fr all kvs same)
          (λ all hp. invoke-Onward s (record fr { heap = hp }) all kvs same))

  call_args-Onward :
      (arg : ℕ) (kwargs args : Value) (s : List Value) (fr : Frame h)
      → fr.thread ≡ thread
      → Onward T (call_args arg kwargs args s fr)
  unfolding call_args call_positional
  call_args-Onward arg kwargs args s fr same =
      popping-Onward T (2 * bit_and arg 0xff) s fr
        (λ names s'.
          with_kwargs kwargs (pairs names) fr (λ kvs. call_positional arg args kvs s' fr))
        (λ names s'. with_kwargs-Onward T shrinks fr kwargs (pairs names) _ (λ kvs.
          popping-Onward T (arg / 2 ^ 8) s' fr
            (λ positional s''. call_function arg args kvs positional s'' fr)
            (λ positional s''. call_function-Onward arg args kvs positional s'' fr same)))

  pop_if-Onward :
      (op a b : Opcode) (s : List Value) (fr : Frame h) (k : Value → List Value → Next h)
      → ((x : Value) (rest : List Value) → Onward T (k x rest))
      → Onward T (pop_if op a b s fr k)
  unfolding pop_if code_of
  pop_if-Onward op a b s fr k each =
      if-Onward T (code_of op == code_of a || code_of op == code_of b) _ _
        (pop1-Onward T s fr k each) (each h.nil s)

  pub call-Onward :
      (op : Opcode) (arg : ℕ) (s : List Value) (fr : Frame h)
      → fr.thread ≡ thread
      → Onward T (step_call op arg s fr)
  unfolding step_call
  call-Onward op arg s fr same =
      pop_if-Onward op Opcode.call_kw Opcode.call_var_kw s fr
        (λ kwargs s₁.
          pop_if op Opcode.call_var Opcode.call_var_kw s₁ fr
            (λ args s₂. call_args arg kwargs args s₂ fr))
        (λ kwargs s₁.
          pop_if-Onward op Opcode.call_var Opcode.call_var_kw s₁ fr
            (λ args s₂. call_args arg kwargs args s₂ fr)
            (λ args s₂. call_args-Onward arg kwargs args s₂ fr same))
