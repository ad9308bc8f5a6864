-- ===== src/Class/Super.antt =====
-- The stack of method calls behind `super()`: `superContext` and `boundMethod` of starlark/class.go, and
-- `super` of starlark/classbuiltins.go.
pub mod Nesting
use starlark_go.Common.{ℕ, Bool, true, false, List, [], ◌∷◌, ◌++◌, Option, none, some}
use starlark_go.Class.World.{Value, Values, Items, World}
use starlark_go.Class.Attributes.{Super, new_super}

-- The class that owns the running method, and its receiver.
pub record SuperContext : Type 0 where
  pub class : ℕ
  pub recv : Value

-- The thread's local value, with the top of the stack in front.
abbrev pub Stack : Type 0
Stack = List SuperContext

unfoldable pub push_super_context : ℕ → Value → Stack → Stack
push_super_context class recv stack = record { class = class; recv = recv } ∷ stack

unfoldable pub pop_super_context : Stack → Stack
pop_super_context [] = []
pop_super_context (top ∷ stack) = stack

unfoldable pub current_super_context : Stack → Option SuperContext
current_super_context [] = none
current_super_context (top ∷ stack) = some top

-- What `super` answers: a proxy or the refusal of `newSuper`, or an error of its own.
pub data Answer : Type 0 where
  answer : Super → Answer
  unexpected_kwargs no_method first_not_class bad_count : Answer

unfoldable pub super_of : World → Value → Value → Answer
super_of w (Value.class c) obj = answer (new_super w c obj)
super_of w _ obj = first_not_class

-- The builtin `super`.
unfoldable pub super : World → Stack → List Value → List Items → Answer
unfolding current_super_context super_of
super w stack args (_ ∷ _) = unexpected_kwargs
super w stack [] [] = elim (current_super_context stack) [
  | none ↦ no_method
  | some top ↦ answer (new_super w top.class top.recv)
]
super w stack (cls ∷ obj ∷ []) [] = super_of w cls obj
super w stack (_ ∷ []) [] = bad_count
super w stack (_ ∷ _ ∷ _ ∷ _) [] = bad_count

-- `boundMethod.CallInternal`: the receiver goes in front of the arguments. `call` stands for `Call`, which
-- runs a function on a stack and gives its result and the stack that it leaves.
unfoldable pub call_internal {ℓ} :
    {R : Type ℓ}
    → (Value → List Value → List Items → Stack → R × Stack)
    → Value
    → Value
    → Option ℕ
    → List Value
    → List Items
    → Stack
    → R × Stack
unfolding push_super_context pop_super_context
call_internal call recv fn none args kwargs stack = call fn (recv ∷ args) kwargs stack
call_internal call recv fn (some class) args kwargs stack =
    let (result, left) = call fn (recv ∷ args) kwargs (push_super_context class recv stack) in
    (result, pop_super_context left)
