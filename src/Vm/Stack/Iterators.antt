-- ===== src/Vm/Stack/Iterators.antt =====
-- The operand stack under the instructions of Vm/Iterators.
use starlark_go.Common.{
  ℕ, zero, suc, ◌+◌, ◌<◌, ◌≤◌, refl, arith, ◌&&◌, List, [], ◌∷◌, none, some, length, ltb,
}
use starlark_go.Vm.{Host, Function, Frame}
use starlark_go.Vm.Iterators.{step_iterpush, step_iterpop, step_iterjmp, step_unpack, take_next}
use starlark_go.Vm.Stack.{Ends, Leaves, test-Ends, lt→ltb, Option-Ends, List-Ends, lt→ltb}

module _ {h : Host} (rest : List h.Value) where
  open h use {Value}

  pub iterpush-Leaves :
      (x : Value) (fr : Frame h) → Ends (Leaves rest 0 fr.pc) (step_iterpush (x ∷ rest) fr)
  unfolding step_iterpush
  iterpush-Leaves x fr =
      Option-Ends _ (h.iterate fr.heap x) _ _ tt
        (λ _. record { values = []; counted = refl; above = refl; at = refl })

  pub iterpop-Leaves : (fr : Frame h) → Ends (Leaves rest 0 fr.pc) (step_iterpop rest fr)
  unfolding step_iterpop
  iterpop-Leaves fr =
      List-Ends _ fr.iters _ _ tt
        (λ iter iters. record { values = []; counted = refl; above = refl; at = refl })

-- No more values are taken than asked for.
take_next-length :
    (h : Host) (n : ℕ) (hp : h.Heap) (iter : h.Iterator) → length (take_next h n hp iter).1 ≤ n
unfolding take_next
take_next-length h zero hp iter = omega arith
take_next-length h (suc n) hp iter =
    let (hp', elem) = h.iter_next hp iter in
    elim elem
      as (λ o.
        length
          (elim o as (λ _. h.Heap × List h.Value) [
            | none ↦ (hp', [])
            | some v ↦ let (hp'', vs) = take_next h n hp' iter in (hp'', v ∷ vs)
          ]).1
        ≤ suc n) [ none ↦ omega arith | some v ↦ omega (arith, take_next-length h n hp' iter) ]

module _ {h : Host} (fn : Function h) (rest : List h.Value) (fr : Frame h) where
  open h use {Value}

  pub unpack-Leaves :
      (n : ℕ) (x : Value)
      → length rest + n ≤ fn.max_stack
      → Ends (Leaves rest n fr.pc) (step_unpack fn n (x ∷ rest) fr)
  unfolding step_unpack
  unpack-Leaves n x room = Option-Ends _ (h.iterate fr.heap x) _ _ tt (λ started.
      let (hp, iter) = started in
      let (hp₁, vs) = take_next h n hp iter in
      let most : length vs ≤ n = take_next-length h n hp iter in
      test-Ends _ (ltb 0 n && ltb fn.max_stack (length rest + n)) _ _
        (λ over. absurd (ground arith))
        (λ _.
          Option-Ends _ (h.iter_next hp₁ iter).1 _ _
            (test-Ends _ (ltb (length vs) n) _ _ (λ _. tt)
              (λ enough. record { values = vs; counted = ground arith; above = refl; at = refl }))
            (λ _. tt)))

  -- An iterator that gives a value leaves it on the stack and goes on; else the jump is taken.
  pub iterjmp-Leaves :
      (P : List Value → Frame h → Type 0) (arg : ℕ)
      → length rest < fn.max_stack
      → ((v : Value) (hp : h.Heap) → P (v ∷ rest) (record fr { heap = hp }))
      → ((hp : h.Heap) → P rest (record fr { heap = hp; pc = arg }))
      → Ends P (step_iterjmp fn arg rest fr)
  unfolding step_iterjmp
  iterjmp-Leaves P arg room more over = List-Ends P fr.iters _ _ tt (λ iter iters.
      rw (lt→ltb _ _ room)
        (Option-Ends P (h.iter_next fr.heap iter).1 _ _ (over _) (λ v. more v _)))
