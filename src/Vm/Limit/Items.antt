-- ===== src/Vm/Limit/Items.antt =====
-- The instructions of Vm/Items and Vm/Iterators leave the thread as it is.
use starlark_go.Common.{ℕ, List, ◌++◌, length, get_elem?, ltb, ◌+◌, ◌&&◌, ◌==◌}
use starlark_go.Compile.Opcode.{Opcode, code_of}
use starlark_go.Vm.{
  Host, Thread, Function, Frame, Panic, bad_type, bad_index, next, failed, panicked, duplicate_key,
  too_few_values,
}
use starlark_go.Vm.Items.{
  step_setindex, step_setdict, step_append, step_index, step_attr, step_setfield, step_makedict,
  step_slice, step_maketuple, step_makelist,
}
use starlark_go.Vm.Iterators.{step_iterpush, step_iterpop, step_iterjmp, step_unpack, take_next}
use starlark_go.Vm.Limit.{
  Onward, pop1-Onward, pop2-Onward, pop3-Onward, pop4-Onward, if-Onward, Option-Onward, List-Onward,
  push-Onward, attempt-Onward, expect-Onward, popping-Onward,
}

module _ {h : Host} (T : Thread → Type 0) (s : List h.Value) (fr : Frame h) (t : T fr.thread) where
  open h use {Value}

  pub setindex-Onward : Onward T (step_setindex s fr)
  unfolding step_setindex
  setindex-Onward =
      pop3-Onward T s fr _
        (λ x y z rest. attempt-Onward T (h.set_index fr.heap x y z) fr _ (λ _ hp. t))

  pub setdict-Onward : (op : Opcode) → Onward T (step_setdict op s fr)
  unfolding step_setdict code_of
  setdict-Onward op = pop3-Onward T s fr _ (λ x k v rest.
      expect-Onward T bad_type (h.as_dict x) fr _ (λ dict.
        attempt-Onward T (h.set_key fr.heap dict k v) fr _ (λ _ hp.
          if-Onward T
            (code_of op == code_of Opcode.setdictuniq
              && h.dict_len hp dict == h.dict_len fr.heap dict)
            (failed duplicate_key (record fr { heap = hp })) (next rest (record fr { heap = hp }))
            tt t)))

  pub append-Onward : Onward T (step_append s fr)
  unfolding step_append
  append-Onward =
      pop2-Onward T s fr _ (λ x elem rest. expect-Onward T bad_type (h.as_list x) fr _ (λ list. t))

  pub iterpush-Onward : Onward T (step_iterpush s fr)
  unfolding step_iterpush
  iterpush-Onward =
      pop1-Onward T s fr _ (λ x rest. Option-Onward T (h.iterate fr.heap x) _ _ tt (λ _. t))

  pub iterpop-Onward : Onward T (step_iterpop s fr)
  unfolding step_iterpop
  iterpop-Onward = List-Onward T fr.iters _ _ tt (λ iter iters. t)

module _ {h : Host} (T : Thread → Type 0) (fn : Function h) (s : List h.Value) (fr : Frame h)
    (t : T fr.thread) where
  open h use {Value}

  pub attr-Onward : (arg : ℕ) → Onward T (step_attr fn arg s fr)
  unfolding step_attr
  attr-Onward arg = pop1-Onward T s fr _ (λ x rest.
      expect-Onward T bad_index (get_elem? fn.names arg) fr _
        (λ name. attempt-Onward T (h.get_attr fr.heap x name) fr _ (λ y hp. t)))

  pub setfield-Onward : (arg : ℕ) → Onward T (step_setfield fn arg s fr)
  unfolding step_setfield
  setfield-Onward arg = pop2-Onward T s fr _ (λ x y rest.
      expect-Onward T bad_index (get_elem? fn.names arg) fr _
        (λ name. attempt-Onward T (h.set_field fr.heap x name y) fr _ (λ _ hp. t)))

  pub index-Onward : Onward T (step_index fn s fr)
  unfolding step_index
  index-Onward = pop2-Onward T s fr _ (λ x y rest.
      attempt-Onward T (h.get_index fr.heap x y) fr _
        (λ z hp. push-Onward T fn z rest (record fr { heap = hp }) t))

  pub makedict-Onward : Onward T (step_makedict fn s fr)
  unfolding step_makedict
  makedict-Onward = push-Onward T fn _ s _ t

  pub slice-Onward : Onward T (step_slice fn s fr)
  unfolding step_slice
  slice-Onward = pop4-Onward T s fr _ (λ x lo hi step rest.
      attempt-Onward T (h.slice fr.heap x lo hi step) fr _
        (λ res hp. push-Onward T fn res rest (record fr { heap = hp }) t))

  pub maketuple-Onward : (n : ℕ) → Onward T (step_maketuple fn n s fr)
  unfolding step_maketuple
  maketuple-Onward n =
      popping-Onward T n s fr _ (λ elems rest. push-Onward T fn (h.tuple elems) rest fr t)

  pub makelist-Onward : (n : ℕ) → Onward T (step_makelist fn n s fr)
  unfolding step_makelist
  makelist-Onward n = popping-Onward T n s fr _ (λ elems rest. push-Onward T fn _ rest _ t)

  pub iterjmp-Onward : (arg : ℕ) → Onward T (step_iterjmp fn arg s fr)
  unfolding step_iterjmp
  iterjmp-Onward arg = List-Onward T fr.iters _ _ tt (λ iter iters.
      if-Onward T (ltb (length s) fn.max_stack) _ _
        (Option-Onward T (h.iter_next fr.heap iter).1 _ _ t (λ v. t)) tt)

  pub unpack-Onward : (n : ℕ) → Onward T (step_unpack fn n s fr)
  unfolding step_unpack
  unpack-Onward n = pop1-Onward T s fr _ (λ x rest.
      Option-Onward T (h.iterate fr.heap x) _ _ tt (λ started.
        let (hp, iter) = started in
        let (hp₁, vs) = take_next h n hp iter in
        let (hp₂, extra) = h.iter_next hp₁ iter in
        let done = record fr { heap = h.iter_done hp₂ iter } in
        if-Onward T (ltb 0 n && ltb fn.max_stack (length rest + n))
          (panicked Panic.stack_bounds (record fr { heap = hp })) _ tt
          (Option-Onward T extra _ _
            (if-Onward T (ltb (length vs) n) (failed (too_few_values (length vs) n) done)
              (next (vs ++ rest) done) tt t)
            (λ _. tt))))
