-- ===== src/Vm/Stack/Names.antt =====
-- The operand stack under the instructions of Vm/Names.
use starlark_go.Common.{
  ℕ, suc, ◌<◌, ◌≡◌, refl, ap, List, [], ◌∷◌, ◌++◌, Option, length, get_elem?, ltb,
}
use starlark_go.Vm.{
  Host, StringDict, Reply, Fault, Function, Frame, Next, bad_type, bad_index, push, expect,
}
use starlark_go.Vm.Names.{
  find, push_assigned, step_setlocal, step_setlocalcell, step_setglobal, load_names, loaded,
  step_load, step_constant, step_makefunc, step_local, step_free, step_localcell, step_freecell,
  step_global, step_predeclared, step_universal,
}
use starlark_go.Vm.Stack.{Ends, Leaves, expect-Ends, push-Leaves, if-Ends, Option-Ends}

module _ {h : Host} (rest : List h.Value) (fr : Frame h) where
  open h use {Value}

  pub setlocal-Leaves :
      (arg : ℕ) (x : Value) → Ends (Leaves rest 0 fr.pc) (step_setlocal arg (x ∷ rest) fr)
  unfolding step_setlocal
  setlocal-Leaves arg x =
      if-Ends _ (ltb arg (length fr.locals)) _ _
        (record { values = []; counted = refl; above = refl; at = refl }) tt

  pub setlocalcell-Leaves :
      (arg : ℕ) (x : Value) → Ends (Leaves rest 0 fr.pc) (step_setlocalcell arg (x ∷ rest) fr)
  unfolding step_setlocalcell
  setlocalcell-Leaves arg x = expect-Ends _ bad_index (get_elem? fr.locals arg) fr _ tt (λ local.
      expect-Ends _ bad_type (h.as_cell local) fr _ tt
        (λ cell. record { values = []; counted = refl; above = refl; at = refl }))

  pub setglobal-Leaves :
      (arg : ℕ) (x : Value) → Ends (Leaves rest 0 fr.pc) (step_setglobal arg (x ∷ rest) fr)
  unfolding step_setglobal
  setglobal-Leaves arg x =
      if-Ends _ (ltb arg (length (h.globals fr.heap))) _ _
        (record { values = []; counted = refl; above = refl; at = refl }) tt

module _ {h : Host} where
  open h use {Value}

  -- The loop replaces the names one for one.
  load_names-Ends :
      (P : List Value → Frame h → Type 0) (dict : StringDict Value) (rest : List Value)
      (fr : Frame h) (args : List Value) (k : List Value → Next h)
      → ((vs : List Value) → length vs ≡ length args → Ends P (k (vs ++ rest)))
      → Ends P (load_names (length args) dict (args ++ rest) fr k)
  unfolding load_names
  load_names-Ends P dict rest fr [] k each = each [] refl
  load_names-Ends P dict rest fr (x ∷ args) k each =
      expect-Ends P bad_type (h.as_string x) fr _ tt (λ from.
        Option-Ends P (find from dict) _ _ tt
          (λ v. load_names-Ends P dict rest fr args _ (λ vs e. each (v ∷ vs) (ap suc e))))

  loaded-Leaves :
      (args rest : List Value) (fr : Frame h) (r : Reply h.Heap h.Error (StringDict Value))
      → Ends (Leaves rest (length args) fr.pc) (loaded (length args) (args ++ rest) fr r)
  unfolding loaded
  loaded-Leaves args rest fr (Reply.ok hp dict) =
      load_names-Ends _ dict rest _ args _
        (λ vs e. record { values = vs; counted = e; above = refl; at = refl })
  loaded-Leaves args rest fr (Reply.err hp e) = tt
  loaded-Leaves args rest fr (Reply.panic hp) = tt

  pub load-Leaves :
      (x : Value) (args rest : List Value) (fr : Frame h)
      → Ends (Leaves rest (length args) fr.pc) (step_load (length args) (x ∷ args ++ rest) fr)
  unfolding step_load
  load-Leaves x args rest fr = expect-Ends _ bad_type (h.as_string x) fr _ tt (λ m.
      Option-Ends _ h.load _ _ tt (λ load.
        let (thread', reply) = load fr.thread fr.heap m in
        loaded-Leaves args rest (record fr { thread = thread' }) reply))

module _ {h : Host} (fn : Function h) (rest : List h.Value) (fr : Frame h) where
  open h use {Value}

  pub makefunc-Leaves :
      (arg : ℕ) (x : Value) → Ends (Leaves rest 1 fr.pc) (step_makefunc fn arg (x ∷ rest) fr)
  unfolding step_makefunc
  makefunc-Leaves arg x = expect-Ends _ bad_index (get_elem? fn.free_counts arg) fr _ tt (λ free.
      expect-Ends _ bad_type (h.as_tuple x) fr _ tt (λ tuple.
        if-Ends _ (ltb (length tuple) free) _ _ tt
          (record { values = _ ∷ []; counted = refl; above = refl; at = refl })))

  module _ (room : length rest < fn.max_stack) where
    push_assigned-Leaves :
        (why : Fault h.Error) (x : Value)
        → Ends (Leaves rest 1 fr.pc) (push_assigned fn why x rest fr)
    unfolding push_assigned
    push_assigned-Leaves why x =
        if-Ends _ (h.is_nil x) _ _ tt (push-Leaves fn x rest fr fr.pc room refl)

    -- An index that is in range, and the value pushed.
    pushed :
        {A : Type 0} (o : Option A) (f : A → Value)
        → Ends (Leaves rest 1 fr.pc) (expect bad_index o fr (λ x. push fn (f x) rest fr))
    pushed o f =
        expect-Ends _ bad_index o fr _ tt (λ x. push-Leaves fn (f x) rest fr fr.pc room refl)

    pub constant-Leaves : (arg : ℕ) → Ends (Leaves rest 1 fr.pc) (step_constant fn arg rest fr)
    unfolding step_constant
    constant-Leaves arg = pushed (get_elem? fn.constants arg) (λ x. x)

    pub free-Leaves : (arg : ℕ) → Ends (Leaves rest 1 fr.pc) (step_free fn arg rest fr)
    unfolding step_free
    free-Leaves arg = pushed (get_elem? fn.freevars arg) (λ x. x)

    pub universal-Leaves : (arg : ℕ) → Ends (Leaves rest 1 fr.pc) (step_universal fn arg rest fr)
    unfolding step_universal
    universal-Leaves arg = pushed (get_elem? fn.names arg) h.universe

    pub local-Leaves : (arg : ℕ) → Ends (Leaves rest 1 fr.pc) (step_local fn arg rest fr)
    unfolding step_local
    local-Leaves arg =
        expect-Ends _ bad_index (get_elem? fr.locals arg) fr _ tt (λ x. push_assigned-Leaves _ x)

    pub global-Leaves : (arg : ℕ) → Ends (Leaves rest 1 fr.pc) (step_global fn arg rest fr)
    unfolding step_global
    global-Leaves arg =
        expect-Ends _ bad_index (get_elem? (h.globals fr.heap) arg) fr _ tt
          (λ x. push_assigned-Leaves _ x)

    pub predeclared-Leaves :
        (arg : ℕ) → Ends (Leaves rest 1 fr.pc) (step_predeclared fn arg rest fr)
    unfolding step_predeclared
    predeclared-Leaves arg =
        expect-Ends _ bad_index (get_elem? fn.names arg) fr _ tt (λ name. push_assigned-Leaves _ _)

    -- An index that is in range, and the content of the cell pushed.
    cell_pushed :
        (o : Option Value) (why : Fault h.Error)
        → Ends (Leaves rest 1 fr.pc) (
            expect bad_index o fr (λ v.
              expect bad_type
                (h.as_cell v)
                fr
                (λ cell. push_assigned fn why (h.cell_value fr.heap cell) rest fr)))
    cell_pushed o why =
        expect-Ends _ bad_index o fr _ tt
          (λ v. expect-Ends _ bad_type (h.as_cell v) fr _ tt (λ cell. push_assigned-Leaves why _))

    pub localcell-Leaves : (arg : ℕ) → Ends (Leaves rest 1 fr.pc) (step_localcell fn arg rest fr)
    unfolding step_localcell
    localcell-Leaves arg = cell_pushed (get_elem? fr.locals arg) _

    pub freecell-Leaves : (arg : ℕ) → Ends (Leaves rest 1 fr.pc) (step_freecell fn arg rest fr)
    unfolding step_freecell
    freecell-Leaves arg = cell_pushed (get_elem? fn.freevars arg) _
