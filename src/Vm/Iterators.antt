-- ===== src/Vm/Iterators.antt =====
-- The instructions of starlark/interp.go that work with iterators: ITERPUSH, ITERJMP, ITERPOP and
-- UNPACK.
use starlark_go.Common.{
  ℕ, zero, suc, ◌+◌, ◌&&◌, List, [], ◌∷◌, ◌++◌, none, some, length, ltb, if◌then◌else◌,
}
use starlark_go.Vm.{
  Host, Function, Frame, Next, next, failed, panicked, stack_bounds, bad_index, not_iterable,
  not_unpackable, too_many_values, too_few_values, pop1,
}

module _ (h : Host) where
  open h use {Value, Heap, Iterator}

  -- `for i < n && iter.Next(…) { i++ }`: the values in the order in which they come.
  unfoldable pub take_next : ℕ → Heap → Iterator → Heap × List Value
  take_next zero hp iter = (hp, [])
  take_next (suc n) hp iter =
      let (hp', elem) = h.iter_next hp iter in
      elim elem [
        | none ↦ (hp', [])
        | some v ↦ let (hp'', vs) = take_next n hp' iter in (hp'', v ∷ vs)
      ]

module _ {h : Host} where
  open h use {Value}

  unfoldable pub step_iterpush : List Value → Frame h → Next h
  step_iterpush s fr = pop1 s fr (λ x rest. elim (h.iterate fr.heap x) [
    | none ↦ failed not_iterable fr
    | some (hp, iter) ↦ next rest (record fr { heap = hp; iters = iter ∷ fr.iters })
  ])

  unfoldable pub step_iterpop : List Value → Frame h → Next h
  step_iterpop s fr = elim fr.iters [
    | [] ↦ panicked bad_index fr
    | iter ∷ iters ↦ next s (record fr { heap = h.iter_done fr.heap iter; iters = iters })
  ]

module _ {h : Host} (fn : Function h) where
  open h use {Value}

  -- The slot above the stack is addressed before the iterator is asked.
  unfoldable pub step_iterjmp : ℕ → List Value → Frame h → Next h
  step_iterjmp arg s fr = elim fr.iters [
    | [] ↦ panicked bad_index fr
    | iter ∷ iters ↦
        if ltb (length s) fn.max_stack
        then (let (hp, elem) = h.iter_next fr.heap iter in
            elim elem [
              | none ↦ next s (record fr { heap = hp; pc = arg })
              | some v ↦ next (v ∷ s) (record fr { heap = hp })
            ])
        else panicked stack_bounds fr
  ]

  -- One more value than `n` is an error, after which the iterator is not done; so are fewer.
  unfoldable pub step_unpack : ℕ → List Value → Frame h → Next h
  unfolding take_next
  step_unpack n s fr = pop1 s fr (λ iterable rest. elim (h.iterate fr.heap iterable) [
    | none ↦ failed not_unpackable fr
    | some (hp, iter) ↦
        if ltb 0 n && ltb fn.max_stack (length rest + n)
        then panicked stack_bounds (record fr { heap = hp })
        else (let (hp₁, vs) = take_next h n hp iter in
            let (hp₂, extra) = h.iter_next hp₁ iter in
            elim extra [
              | some dummy ↦ failed too_many_values (record fr { heap = hp₂ })
              | none ↦
                  let fr' = record fr { heap = h.iter_done hp₂ iter } in
                  if ltb (length vs) n
                  then failed (too_few_values (length vs) n) fr'
                  else next (vs ++ rest) fr'
            ])
  ])
