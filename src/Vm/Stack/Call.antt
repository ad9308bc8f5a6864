-- ===== src/Vm/Stack/Call.antt =====
-- The operand stack under the instructions of Vm/Call.
use starlark_go.Common.{
  ℕ, zero, suc, ◌+◌, ◌*◌, ◌/◌, ◌^◌, ◌≡◌, refl, arith, false, ◌&&◌, bit_and, List, [], ◌∷◌, ◌++◌,
  length, ltb, append_assoc, subst, sym, ap, ◌∙◌,
}
use starlark_go.Compile.Opcode.{Opcode}
use starlark_go.Vm.{Host, Frame, Next}
use starlark_go.Vm.Call.{
  pairs, string_keys, with_kwargs, drain, with_args, invoke, call_function, call_positional,
  call_args, step_call,
}
use starlark_go.Vm.Stack.{Ends, Leaves, attempt-Ends, if-Ends, Option-Ends, popping-Ends, test-Ends}

-- The last item of a list.
split_last :
    {V : Type 0} (n : ℕ) (xs : List V)
    → length xs ≡ n + 1
    → (zs : List V) × (z : V) × (length zs ≡ n) × (xs ≡ zs ++ z ∷ [])
split_last n [] e = absurd (omega arith)
split_last zero (x ∷ []) e = ([], x, refl, refl)
split_last zero (x ∷ y ∷ xs) e = absurd (omega arith)
split_last (suc n) (x ∷ xs) e =
    let (zs, z, ez, es) = split_last n xs (omega arith) in
    (x ∷ zs, z, omega arith, ap (λ l. x ∷ l) es)

-- Two parts and an item behind them.
split_around :
    {V : Type 0} (m n : ℕ) (xs : List V)
    → length xs ≡ m + n + 1
    → (ys zs : List V) × (z : V) × (length ys ≡ m) × (length zs ≡ n) × (xs ≡ ys ++ (zs ++ z ∷ []))
split_around zero n xs e =
    let (zs, z, ez, es) = split_last n xs (omega arith) in ([], zs, z, refl, ez, es)
split_around (suc m) n [] e = absurd (omega arith)
split_around (suc m) n (x ∷ xs) e =
    let (ys, zs, z, ey, ez, es) = split_around m n xs (omega arith) in
    (x ∷ ys, zs, z, omega arith, ez, ap (λ l. x ∷ l) es)

module _ {h : Host} where
  open h use {Value}

  with_kwargs-Ends :
      (P : List Value → Frame h → Type 0) (kwargs : Value) (kvpairs : List (Value × Value))
      (fr : Frame h) (k : List (Value × Value) → Next h)
      → ((kvs : List (Value × Value)) → Ends P (k kvs))
      → Ends P (with_kwargs kwargs kvpairs fr k)
  unfolding with_kwargs
  with_kwargs-Ends P kwargs kvpairs fr k each = if-Ends P (h.is_nil kwargs) _ _ (each kvpairs) (
      Option-Ends P (h.mapping_items fr.heap kwargs) _ _ tt
        (λ items. if-Ends P (string_keys h items) _ _ (each _) tt))

  with_args-Ends :
      (P : List Value → Frame h → Type 0) (args : Value) (positional : List Value) (fr : Frame h)
      (k : List Value → Frame h → Next h)
      → ((all : List Value) → Ends P (k all fr))
      → ((all : List Value) (hp : h.Heap) → Ends P (k all (record fr { heap = hp })))
      → Ends P (with_args args positional fr k)
  unfolding with_args
  with_args-Ends P args positional fr k same each =
      if-Ends P (h.is_nil args) _ _ (same positional) (
        Option-Ends P (h.iterate fr.heap args) _ _ tt (λ started.
          let (hp, iter) = started in
          Option-Ends P (drain h (suc (h.left hp iter)) hp iter positional) _ _ tt
            (λ drained. each drained.1 (h.iter_done drained.0 iter))))

  invoke-Leaves :
      (f : Value) (rest : List Value) (fr : Frame h) (positional : List Value)
      (kvpairs : List (Value × Value))
      → Ends (Leaves rest 1 fr.pc) (invoke (f ∷ rest) fr positional kvpairs)
  unfolding invoke
  invoke-Leaves f rest fr positional kvpairs =
      let (thread', reply) = h.call fr.thread fr.heap f positional kvpairs in
      attempt-Ends _ reply (record fr { thread = thread' }) _
        (λ z hp. record { values = z ∷ []; counted = refl; above = refl; at = refl })

  call_positional-Leaves :
      (arg : ℕ) (args : Value) (kvs : List (Value × Value)) (positional rest : List Value)
      (f : Value) (fr : Frame h)
      → length positional ≡ arg / 2 ^ 8
      → Ends (Leaves rest 1 fr.pc) (call_positional arg args kvs (positional ++ f ∷ rest) fr)
  unfolding call_positional call_function
  call_positional-Leaves arg args kvs positional rest f fr e =
      popping-Ends (Leaves rest 1 fr.pc) _ positional (f ∷ rest) fr
        (λ given s. call_function arg args kvs given s fr) e
        (λ given.
          test-Ends (Leaves rest 1 fr.pc) (ltb 0 (arg / 2 ^ 8) && false) _ _
            (λ none_left. absurd (ground arith))
            (λ _.
              with_args-Ends (Leaves rest 1 fr.pc) args given fr
                (λ all fr'. invoke (f ∷ rest) fr' all kvs) (λ all. invoke-Leaves f rest fr all kvs)
                (λ all hp. invoke-Leaves f rest (record fr { heap = hp }) all kvs)))

  -- With the named arguments on the positional ones and the function below them.
  call_args-Leaves :
      (arg : ℕ) (kwargs args : Value) (named positional rest : List Value) (f : Value)
      (fr : Frame h)
      → length named ≡ 2 * bit_and arg 0xff
      → length positional ≡ arg / 2 ^ 8
      → Ends
          (Leaves rest 1 fr.pc)
          (call_args arg kwargs args (named ++ (positional ++ f ∷ rest)) fr)
  unfolding call_args
  call_args-Leaves arg kwargs args named positional rest f fr en ep =
      popping-Ends (Leaves rest 1 fr.pc) _ named (positional ++ f ∷ rest) fr
        (λ names s. with_kwargs kwargs (pairs names) fr (λ kvs. call_positional arg args kvs s fr))
        en
        (λ names.
          with_kwargs-Ends (Leaves rest 1 fr.pc) kwargs (pairs names) fr _
            (λ kvs. call_positional-Leaves arg args kvs positional rest f fr ep))

  call-Leaves :
      (arg : ℕ) (kwargs args : Value) (operands rest : List Value) (fr : Frame h)
      → length operands ≡ 1 + arg / 2 ^ 8 + 2 * bit_and arg 0xff
      → Ends (Leaves rest 1 fr.pc) (call_args arg kwargs args (operands ++ rest) fr)
  call-Leaves arg kwargs args operands rest fr e =
      let (named, positional, f, en, ep, es) =
        split_around (2 * bit_and arg 0xff) (arg / 2 ^ 8) operands (omega arith) in
      subst (λ s. Ends (Leaves rest 1 fr.pc) (call_args arg kwargs args s fr))
        (sym (
          ap (λ l. l ++ rest) es
          ∙ append_assoc named (positional ++ f ∷ []) rest
          ∙ ap (λ l. named ++ l) (append_assoc positional (f ∷ []) rest)))
        (call_args-Leaves arg kwargs args named positional rest f fr en ep)

  pub step_call-Leaves :
      (arg : ℕ) (operands rest : List Value) (fr : Frame h)
      → length operands ≡ 1 + arg / 2 ^ 8 + 2 * bit_and arg 0xff
      → Ends (Leaves rest 1 fr.pc) (step_call Opcode.call arg (operands ++ rest) fr)
  unfolding step_call
  step_call-Leaves arg operands rest fr e = call-Leaves arg _ _ operands rest fr e

  pub step_call_var-Leaves :
      (arg : ℕ) (args : Value) (operands rest : List Value) (fr : Frame h)
      → length operands ≡ 1 + arg / 2 ^ 8 + 2 * bit_and arg 0xff
      → Ends (Leaves rest 1 fr.pc) (step_call Opcode.call_var arg (args ∷ operands ++ rest) fr)
  unfolding step_call
  step_call_var-Leaves arg args operands rest fr e = call-Leaves arg _ args operands rest fr e

  pub step_call_kw-Leaves :
      (arg : ℕ) (kwargs : Value) (operands rest : List Value) (fr : Frame h)
      → length operands ≡ 1 + arg / 2 ^ 8 + 2 * bit_and arg 0xff
      → Ends (Leaves rest 1 fr.pc) (step_call Opcode.call_kw arg (kwargs ∷ operands ++ rest) fr)
  unfolding step_call
  step_call_kw-Leaves arg kwargs operands rest fr e = call-Leaves arg kwargs _ operands rest fr e

  pub step_call_var_kw-Leaves :
      (arg : ℕ) (kwargs args : Value) (operands rest : List Value) (fr : Frame h)
      → length operands ≡ 1 + arg / 2 ^ 8 + 2 * bit_and arg 0xff
      → Ends
          (Leaves rest 1 fr.pc)
          (step_call Opcode.call_var_kw arg (kwargs ∷ args ∷ operands ++ rest) fr)
  unfolding step_call
  step_call_var_kw-Leaves arg kwargs args operands rest fr e =
      call-Leaves arg kwargs args operands rest fr e
