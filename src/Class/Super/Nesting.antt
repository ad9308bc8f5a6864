-- ===== src/Class/Super/Nesting.antt =====
-- `super()` in nested method calls, starlark/class.go and starlark/classbuiltins.go.
use starlark_go.Common.{ℕ, ◌≡◌, refl, List, [], ◌∷◌, ◌++◌, Option, none, some}
use starlark_go.Class.World.{Value, Items, World}
use starlark_go.Class.Super.{
  SuperContext, Stack, push_super_context, pop_super_context, super, current_super_context,
  call_internal,
}

-- What a body does, as far as the stack is concerned: it calls `super()`, or a method of a class (of
-- none, where the bound method does not know it) with a receiver, whose body follows.
mutual
  pub data Step : Type 0 where
    ask : Step
    method : Option ℕ → Value → Steps → Step

  pub data Steps : Type 0 where
    stop : Steps
    next : Step → Steps → Steps

-- The method around a body that a bound method runs.
abbrev pub around : Option ℕ → Value → Option SuperContext → Option SuperContext
around none recv outer = outer
around (some class) recv outer = some (record { class = class; recv = recv })

-- The methods that the calls of `super()` belong to, in order, by the nesting alone.
unfoldable mutual
  pub owners_step : Option SuperContext → Step → List (Option SuperContext)
  owners_step outer ask = outer ∷ []
  owners_step outer (method class recv body) = owners (around class recv outer) body

  pub owners : Option SuperContext → Steps → List (Option SuperContext)
  owners outer stop = []
  owners outer (next s more) = owners_step outer s ++ owners outer more

-- The run of a body: what its calls of `super()` find on the stack, and the stack that it leaves.
unfoldable mutual
  unfolding call_internal current_super_context

  pub run_step : Step → Stack → List (Option SuperContext) × Stack
  run_step ask stack = (current_super_context stack ∷ [], stack)
  run_step (method class recv body) stack =
      call_internal (λ fn args kwargs inner. run body inner) recv recv class [] [] stack

  pub run : Steps → Stack → List (Option SuperContext) × Stack
  run stop stack = ([], stack)
  run (next s more) stack =
      let (seen, left) = run_step s stack in
      let (seen', left') = run more left in (seen ++ seen', left')

mutual
  unfolding run owners

  run_step-owners :
      (s : Step) (stack : Stack)
      → run_step s stack ≡ (owners_step (current_super_context stack) s, stack)
  run_step-owners ask stack = refl
  run_step-owners (method none recv body) stack = run-owners_any body stack
  run_step-owners (method (some class) recv body) stack =
      rw (run-owners_any body (push_super_context class recv stack)) refl

  -- Every call of `super()` in a run finds the innermost method around it, and the run leaves the
  -- stack as it was.
  run-owners_any :
      (body : Steps) (stack : Stack)
      → run body stack ≡ (owners (current_super_context stack) body, stack)
  run-owners_any stop stack = refl
  run-owners_any (next s more) stack = rw (run_step-owners s stack, run-owners_any more stack) refl

-- Every call of `super()` in a run of nested methods finds the innermost method around it that knows its
-- class, and the run leaves the stack as it was.
pub run-owners :
    (body : Steps) (stack : Stack)
    → run body stack ≡ (owners (current_super_context stack) body, stack)
run-owners body stack = run-owners_any body stack

-- In a method that knows its class, `super()` is `super(class, receiver)`, whatever the callee did
-- before, if it left the stack as it was.
pub super-call_internal :
    (w : World) (class : ℕ) (recv fn : Value) (args : List Value) (kwargs : List Items)
    (stack : Stack)
    → (before : Value → List Value → List Items → Stack → Stack)
    → ((g : Value) (xs : List Value) (kws : List Items) (st : Stack) → before g xs kws st ≡ st)
    → call_internal
        (λ g xs kws st. (super w (before g xs kws st) [] [], before g xs kws st))
        recv
        fn
        (some class)
        args
        kwargs
        stack
      ≡ (super w stack (Value.class class ∷ recv ∷ []) [], stack)
unfolding call_internal super push_super_context pop_super_context
super-call_internal w class recv fn args kwargs stack before keeps =
    rw (keeps fn (recv ∷ args) kwargs (push_super_context class recv stack)) refl
