-- ===== src/Vm/Names.antt =====
-- The instructions of starlark/interp.go that read and set variables, and CONSTANT, MAKEFUNC and LOAD.
use Prim.Native.String.{String}
use text.Mathlib.Text.{◌==◌ as str_eq}
use starlark_go.Common.{
  ℕ, zero, suc, ◌-◌, List, [], ◌∷◌, Option, none, some, length, get_elem?, take, drop, set, ltb,
  if◌then◌else◌,
}
use starlark_go.Vm.{
  Host, StringDict, Function, Frame, Next, Fault, Panic, next, failed, panicked, stack_bounds,
  bad_type, bad_index, cannot_load, no_load, not_in_module, unassigned_local, unassigned_free,
  unassigned_global, unassigned_predeclared, Reply, pop1, push, expect,
}

-- `dict[from]` of a `StringDict`.
unfoldable pub find : {V : Type 0} → String → StringDict V → Option V
find name [] = none
find name ((key, v) ∷ entries) = if str_eq key name then some v else find name entries

module _ {h : Host} where
  open h use {Value}

  -- `x == nil` is the error, and else `stack[sp] = x; sp++`.
  unfoldable pub push_assigned : Function h → Fault h.Error → Value → List Value → Frame h → Next h
  unfolding push
  push_assigned fn why x s fr = if h.is_nil x then failed why fr else push fn x s fr

  -- `locals[arg] = stack[sp-1]; sp--`
  unfoldable pub step_setlocal : ℕ → List Value → Frame h → Next h
  step_setlocal arg s fr = pop1 s fr (λ x rest.
      if ltb arg (length fr.locals)
      then next rest (record fr { locals = set fr.locals arg x })
      else panicked bad_index fr)

  -- `locals[arg].(*cell).v = stack[sp-1]; sp--`
  unfoldable pub step_setlocalcell : ℕ → List Value → Frame h → Next h
  step_setlocalcell arg s fr = pop1 s fr (λ x rest.
      expect bad_index (get_elem? fr.locals arg) fr (λ local.
        expect bad_type (h.as_cell local) fr
          (λ cell. next rest (record fr { heap = h.set_cell fr.heap cell x }))))

  unfoldable pub step_setglobal : ℕ → List Value → Frame h → Next h
  step_setglobal arg s fr = pop1 s fr (λ x rest.
      if ltb arg (length (h.globals fr.heap))
      then next rest (record fr { heap = h.set_globals fr.heap (set (h.globals fr.heap) arg x) })
      else panicked bad_index fr)

  -- The loop of LOAD: the names on the stack, from the top down, give way to their values.
  unfoldable pub load_names :
      ℕ → StringDict Value → List Value → Frame h → (List Value → Next h) → Next h
  unfolding find
  load_names zero dict s fr k = k s
  load_names (suc n) dict [] fr k = panicked stack_bounds fr
  load_names (suc n) dict (x ∷ s) fr k = expect bad_type (h.as_string x) fr (λ from.
      elim (find from dict) [
        | none ↦ failed (not_in_module from) fr
        | some v ↦ load_names n dict s fr (λ s'. k (v ∷ s'))
      ])

  -- What `thread.Load` comes back with.
  unfoldable pub loaded :
      ℕ → List Value → Frame h → Reply h.Heap h.Error (StringDict Value) → Next h
  unfolding load_names
  loaded n s fr (Reply.ok hp dict) =
      let fr' = record fr { heap = hp } in load_names n dict s fr' (λ s'. next s' fr')
  loaded n s fr (Reply.err hp e) = failed (cannot_load e) (record fr { heap = hp })
  loaded n s fr (Reply.panic hp) = panicked Panic.application (record fr { heap = hp })

  unfoldable pub step_load : ℕ → List Value → Frame h → Next h
  unfolding loaded
  step_load n s fr = pop1 s fr (λ x rest. expect bad_type (h.as_string x) fr (λ module_name.
      elim h.load [
        | none ↦ failed no_load fr
        | some load ↦
            let (thread', reply) = load fr.thread fr.heap module_name in
            loaded n rest (record fr { thread = thread' }) reply
      ]))

module _ {h : Host} (fn : Function h) where
  open h use {Value}

  unfoldable pub step_constant : ℕ → List Value → Frame h → Next h
  unfolding push
  step_constant arg s fr = expect bad_index (get_elem? fn.constants arg) fr (λ x. push fn x s fr)

  -- The last values of the tuple are the free variables, those before them the defaults.
  unfoldable pub step_makefunc : ℕ → List Value → Frame h → Next h
  step_makefunc arg s fr = expect bad_index (get_elem? fn.free_counts arg) fr (λ free.
      pop1 s fr (λ x rest. expect bad_type (h.as_tuple x) fr (λ tuple.
        if ltb (length tuple) free
        then panicked bad_index fr
        else (let n = length tuple - free in
            let (hp, f) = h.new_function fr.heap arg (take n tuple) (drop n tuple) in
            next (f ∷ rest) (record fr { heap = hp })))))

  unfoldable pub step_local : ℕ → List Value → Frame h → Next h
  unfolding push_assigned
  step_local arg s fr =
      expect bad_index (get_elem? fr.locals arg) fr
        (λ x. push_assigned fn (unassigned_local arg) x s fr)

  unfoldable pub step_free : ℕ → List Value → Frame h → Next h
  unfolding push
  step_free arg s fr = expect bad_index (get_elem? fn.freevars arg) fr (λ x. push fn x s fr)

  unfoldable pub step_localcell : ℕ → List Value → Frame h → Next h
  unfolding push_assigned
  step_localcell arg s fr = expect bad_index (get_elem? fr.locals arg) fr (λ local.
      expect bad_type (h.as_cell local) fr
        (λ cell. push_assigned fn (unassigned_local arg) (h.cell_value fr.heap cell) s fr))

  unfoldable pub step_freecell : ℕ → List Value → Frame h → Next h
  unfolding push_assigned
  step_freecell arg s fr = expect bad_index (get_elem? fn.freevars arg) fr (λ free.
      expect bad_type (h.as_cell free) fr
        (λ cell. push_assigned fn (unassigned_free arg) (h.cell_value fr.heap cell) s fr))

  unfoldable pub step_global : ℕ → List Value → Frame h → Next h
  unfolding push_assigned
  step_global arg s fr =
      expect bad_index (get_elem? (h.globals fr.heap) arg) fr
        (λ x. push_assigned fn (unassigned_global arg) x s fr)

  unfoldable pub step_predeclared : ℕ → List Value → Frame h → Next h
  unfolding push_assigned
  step_predeclared arg s fr =
      expect bad_index (get_elem? fn.names arg) fr
        (λ name. push_assigned fn (unassigned_predeclared name) (h.predeclared name) s fr)

  unfoldable pub step_universal : ℕ → List Value → Frame h → Next h
  unfolding push
  step_universal arg s fr =
      expect bad_index (get_elem? fn.names arg) fr (λ name. push fn (h.universe name) s fr)
