-- ===== src/Vm/Stack/Run.antt =====
-- Code with a consistent assignment of stack depths to its addresses, and the runs of such code.
use starlark_go.Common.Indexing.{All-In, All-map}
use starlark_go.Common.{
  ℕ, zero, suc, ◌+◌, ◌-◌, ◌≤◌, ◌≡◌, refl, sym, ap, ◌∙◌, arith, subst, List, ◌++◌, length,
  length-append, All, Option, some,
}
use starlark_go.Compile.Opcode.{Opcode, opcode}
use starlark_go.Compile.Opcode.Pictures.{takes}
use starlark_go.Vm.{Host, Function, Frame, Next, next, failed, panicked}
use starlark_go.Vm.Machine.{tick, fetch, step, cycle, finish, run}
use starlark_go.Vm.Stack.{Ends, split_at, known-Ends, Option-Ends}
use starlark_go.Vm.Stack.Exits.{exits, Goes, Ends-map}
use starlark_go.Vm.Stack.Step.{step-Goes}

module _ {h : Host} (fn : Function h) (depth : ℕ → Option ℕ) where
  -- After the instruction, `n` values stand on the `below` others: that fits, and it is the depth of
  -- the address.
  abbrev pub Fits : ℕ → ℕ × ℕ → Type 0
  Fits below ex = (depth ex.0 ≡ some (below + ex.1)) × (below + ex.1 ≤ fn.max_stack)

  -- At every address that has a depth, the instruction finds its operands, and its exits fit.
  pub record Consistent : Type 0 where
    pub operands :
        (pc d op arg pc' : ℕ) (o : Opcode)
        → depth pc ≡ some d
        → fetch fn pc ≡ some (op, arg, pc')
        → opcode op ≡ some o
        → takes o arg ≤ d
    pub results :
        (pc d op arg pc' : ℕ) (o : Opcode)
        → depth pc ≡ some d
        → fetch fn pc ≡ some (op, arg, pc')
        → opcode op ≡ some o
        → All (Fits (d - takes o arg)) (exits o arg pc')

  -- The stack has the depth of the address.
  abbrev pub AtDepth : List h.Value → Frame h → Type 0
  AtDepth s fr = depth fr.pc ≡ some (length s)

module _ {h : Host} where
  open h use {Value}

  tick-pc : (fr : Frame h) → (tick fr).pc ≡ fr.pc
  unfolding tick
  tick-pc fr = refl

  finish-Ends :
      (P : List Value → Frame h → Type 0) (o : Next h) (again : List Value → Frame h → Next h)
      → Ends P o
      → ((s : List Value) (fr : Frame h) → P s fr → Ends P (again s fr))
      → Ends P (finish o again)
  unfolding finish
  finish-Ends P (next s fr) again p each = each s fr p
  finish-Ends P (Next.returned v fr) again p each = tt
  finish-Ends P (failed e fr) again p each = tt
  finish-Ends P (panicked w fr) again p each = p
  finish-Ends P (Next.below_bottom fr) again p each = p
  finish-Ends P (Next.spinning fr) again p each = tt

module _ {h : Host} (fn : Function h) (depth : ℕ → Option ℕ)
    (consistent : Consistent fn depth) where
  open h use {Value}

  -- The exits fit on the rest, and the instruction takes one of them.
  exit-AtDepth :
      (args rest : List Value) (fr : Frame h) (o : Opcode) (arg : ℕ)
      → length args ≡ takes o arg
      → All (Fits fn depth (length rest)) (exits o arg fr.pc)
      → Ends (AtDepth fn depth) (step fn o arg (args ++ rest) fr)
  exit-AtDepth args rest fr o arg e fits =
      Ends-map (Goes rest (exits o arg fr.pc)) (AtDepth fn depth)
        (λ s fr' goes.
          let fit = All-In (Fits fn depth (length rest)) _ goes.exit fits goes.listed in
          ap depth goes.leaves.at
          ∙ fit.0
          ∙ ap some (
              omega (
                arith,
                goes.leaves.counted,
                ap length goes.leaves.above,
                length-append goes.leaves.values rest,
              )))
        (step fn o arg (args ++ rest) fr)
        (step-Goes fn rest fr o arg args e (All-map _ _ (λ ex fit. fit.1) _ fits))

  -- An instruction that is fetched at an address of the stack's depth.
  step-AtDepth :
      (s : List Value) (fr : Frame h) (op arg pc' : ℕ) (o : Opcode)
      → depth fr.pc ≡ some (length s)
      → fetch fn fr.pc ≡ some (op, arg, pc')
      → opcode op ≡ some o
      → Ends (AtDepth fn depth) (step fn o arg s (record fr { pc = pc' }))
  step-AtDepth s fr op arg pc' o at fetched known =
      let fits = consistent.results fr.pc (length s) op arg pc' o at fetched known in
      let have = consistent.operands fr.pc (length s) op arg pc' o at fetched known in
      let (args, rest, ea, er, es) =
        split_at (takes o arg) (length s - takes o arg) s (omega arith) in
      subst (λ l. Ends (AtDepth fn depth) (step fn o arg l (record fr { pc = pc' }))) (sym es)
        (exit-AtDepth args rest (record fr { pc = pc' }) o arg ea
          (subst (λ n. All (Fits fn depth n) (exits o arg pc')) (sym er) fits))

  cycle-AtDepth :
      (s : List Value) (fr : Frame h)
      → depth fr.pc ≡ some (length s)
      → Ends (AtDepth fn depth) (cycle fn s fr)
  unfolding cycle tick
  cycle-AtDepth s fr at =
      Option-Ends (AtDepth fn depth) (tick fr).thread.cancel_reason _ _
        (known-Ends (AtDepth fn depth) (fetch fn fr.pc) _ _ (λ _. tt)
          (λ fetched e.
            known-Ends (AtDepth fn depth) (opcode fetched.0) _ _ (λ _. tt)
              (λ o known. step-AtDepth s (tick fr) fetched.0 fetched.1 fetched.2 o at e known)))
        (λ _. tt)

  pub run-AtDepth :
      (n : ℕ) (s : List Value) (fr : Frame h)
      → depth fr.pc ≡ some (length s)
      → Ends (AtDepth fn depth) (run fn n s fr)
  unfolding run
  run-AtDepth zero s fr at = at
  run-AtDepth (suc n) s fr at =
      finish-Ends (AtDepth fn depth) (cycle fn s fr) _ (cycle-AtDepth s fr at)
        (λ s' fr'. run-AtDepth n s' fr')
