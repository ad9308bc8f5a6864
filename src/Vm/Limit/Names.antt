-- ===== src/Vm/Limit/Names.antt =====
-- The instructions of Vm/Names: all but LOAD leave the thread as it is.
use Prim.Native.String.{String}
use starlark_go.Common.{ℕ, zero, suc, Option, List, [], ◌∷◌, length, get_elem?, ltb, ◌≡◌}
use starlark_go.Vm.{
  Host, StringDict, Reply, Fault, Thread, Function, Frame, Next, bad_type, bad_index, push, expect,
}
use starlark_go.Vm.Names.{
  find, push_assigned, step_setlocal, step_setlocalcell, step_setglobal, load_names, loaded,
  step_load, step_constant, step_makefunc, step_local, step_free, step_localcell, step_freecell,
  step_global, step_predeclared, step_universal,
}
use starlark_go.Vm.Limit.{
  Onward, pop1-Onward, if-Onward, Option-Onward, known-Onward, push-Onward, expect-Onward,
}

module _ {h : Host} (T : Thread → Type 0) where
  open h use {Value}

  load_names-Onward :
      (n : ℕ) (dict : StringDict Value) (s : List Value) (fr : Frame h) (k : List Value → Next h)
      → ((vs : List Value) → Onward T (k vs))
      → Onward T (load_names n dict s fr k)
  unfolding load_names
  load_names-Onward zero dict s fr k each = each s
  load_names-Onward (suc n) dict [] fr k each = tt
  load_names-Onward (suc n) dict (x ∷ s) fr k each =
      expect-Onward T bad_type (h.as_string x) fr _ (λ from.
        Option-Onward T (find from dict) _ _ tt
          (λ v. load_names-Onward n dict s fr _ (λ vs. each (v ∷ vs))))

  loaded-Onward :
      (n : ℕ) (s : List Value) (fr : Frame h) (r : Reply h.Heap h.Error (StringDict Value))
      → T fr.thread
      → Onward T (loaded n s fr r)
  unfolding loaded
  loaded-Onward n s fr (Reply.ok hp dict) t = load_names-Onward n dict s _ _ (λ vs. t)
  loaded-Onward n s fr (Reply.err hp e) t = tt
  loaded-Onward n s fr (Reply.panic hp) t = tt

  -- The thread of the machine is the one that the call of `thread.Load` leaves.
  pub load-Onward :
      (n : ℕ) (s : List Value) (fr : Frame h)
      → ((load : Thread → h.Heap → String → Thread × Reply h.Heap h.Error (StringDict Value))
            (name : String)
          → h.load ≡ Option.some load
          → T (load fr.thread fr.heap name).0)
      → Onward T (step_load n s fr)
  unfolding step_load
  load-Onward n s fr each = pop1-Onward T s fr _ (λ x rest.
      expect-Onward T bad_type (h.as_string x) fr _ (λ name.
        known-Onward T h.load _ _ (λ _. tt)
          (λ load e.
            loaded-Onward n rest (record fr { thread = (load fr.thread fr.heap name).0 })
              (load fr.thread fr.heap name).1 (each load name e))))

module _ {h : Host} (T : Thread → Type 0) (s : List h.Value) (fr : Frame h) (t : T fr.thread) where
  pub setlocal-Onward : (arg : ℕ) → Onward T (step_setlocal arg s fr)
  unfolding step_setlocal
  setlocal-Onward arg =
      pop1-Onward T s fr _ (λ x rest. if-Onward T (ltb arg (length fr.locals)) _ _ t tt)

  pub setlocalcell-Onward : (arg : ℕ) → Onward T (step_setlocalcell arg s fr)
  unfolding step_setlocalcell
  setlocalcell-Onward arg = pop1-Onward T s fr _ (λ x rest.
      expect-Onward T bad_index (get_elem? fr.locals arg) fr _
        (λ local. expect-Onward T bad_type (h.as_cell local) fr _ (λ cell. t)))

  pub setglobal-Onward : (arg : ℕ) → Onward T (step_setglobal arg s fr)
  unfolding step_setglobal
  setglobal-Onward arg =
      pop1-Onward T s fr _ (λ x rest. if-Onward T (ltb arg (length (h.globals fr.heap))) _ _ t tt)

module _ {h : Host} (T : Thread → Type 0) (fn : Function h) (s : List h.Value) (fr : Frame h)
    (t : T fr.thread) where
  open h use {Value}

  pub makefunc-Onward : (arg : ℕ) → Onward T (step_makefunc fn arg s fr)
  unfolding step_makefunc
  makefunc-Onward arg = expect-Onward T bad_index (get_elem? fn.free_counts arg) fr _ (λ free.
      pop1-Onward T s fr _ (λ x rest.
        expect-Onward T bad_type (h.as_tuple x) fr _
          (λ tuple. if-Onward T (ltb (length tuple) free) _ _ tt t)))

  push_assigned-Onward : (why : Fault h.Error) (x : Value) → Onward T (push_assigned fn why x s fr)
  unfolding push_assigned
  push_assigned-Onward why x = if-Onward T (h.is_nil x) _ _ tt (push-Onward T fn x s fr t)

  -- An index that is in range, and the value pushed.
  pushed :
      {A : Type 0} (o : Option A) (f : A → Value)
      → Onward T (expect bad_index o fr (λ x. push fn (f x) s fr))
  pushed o f = expect-Onward T bad_index o fr _ (λ x. push-Onward T fn (f x) s fr t)

  pub constant-Onward : (arg : ℕ) → Onward T (step_constant fn arg s fr)
  unfolding step_constant
  constant-Onward arg = pushed (get_elem? fn.constants arg) (λ x. x)

  pub free-Onward : (arg : ℕ) → Onward T (step_free fn arg s fr)
  unfolding step_free
  free-Onward arg = pushed (get_elem? fn.freevars arg) (λ x. x)

  pub universal-Onward : (arg : ℕ) → Onward T (step_universal fn arg s fr)
  unfolding step_universal
  universal-Onward arg = pushed (get_elem? fn.names arg) h.universe

  pub local-Onward : (arg : ℕ) → Onward T (step_local fn arg s fr)
  unfolding step_local
  local-Onward arg =
      expect-Onward T bad_index (get_elem? fr.locals arg) fr _ (λ x. push_assigned-Onward _ x)

  pub global-Onward : (arg : ℕ) → Onward T (step_global fn arg s fr)
  unfolding step_global
  global-Onward arg =
      expect-Onward T bad_index (get_elem? (h.globals fr.heap) arg) fr _
        (λ x. push_assigned-Onward _ x)

  pub predeclared-Onward : (arg : ℕ) → Onward T (step_predeclared fn arg s fr)
  unfolding step_predeclared
  predeclared-Onward arg =
      expect-Onward T bad_index (get_elem? fn.names arg) fr _ (λ name. push_assigned-Onward _ _)

  -- An index that is in range, and the content of the cell pushed.
  cell_pushed :
      (o : Option Value) (why : Fault h.Error)
      → Onward T (
          expect bad_index o fr (λ v.
            expect bad_type
              (h.as_cell v)
              fr
              (λ cell. push_assigned fn why (h.cell_value fr.heap cell) s fr)))
  cell_pushed o why =
      expect-Onward T bad_index o fr _
        (λ v. expect-Onward T bad_type (h.as_cell v) fr _ (λ cell. push_assigned-Onward why _))

  pub localcell-Onward : (arg : ℕ) → Onward T (step_localcell fn arg s fr)
  unfolding step_localcell
  localcell-Onward arg = cell_pushed (get_elem? fr.locals arg) _

  pub freecell-Onward : (arg : ℕ) → Onward T (step_freecell fn arg s fr)
  unfolding step_freecell
  freecell-Onward arg = cell_pushed (get_elem? fn.freevars arg) _
