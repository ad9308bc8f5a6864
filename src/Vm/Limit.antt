-- ===== src/Vm/Limit.antt =====
-- What becomes of the thread's step count when the machine of starlark/interp.go goes on: a predicate
-- on how an instruction ends, and how the parts of an instruction keep it.
pub mod Operators
pub mod Items
pub mod Names
pub mod Call
pub mod Steps
pub mod Run
use starlark_go.Common.{
  ℕ, zero, suc, Bool, true, false, if◌then◌else◌, List, [], ◌∷◌, Option, none, some, length, ltb,
  ◌≡◌, refl,
}
use starlark_go.Vm.{
  Host, Reply, Thread, Function, Frame, Next, Fault, Panic, next, failed, panicked, pop1, pop2,
  pop3, pop4, pop_n, popping, push, attempt, expect,
}

module _ {h : Host} (T : Thread → Type 0) where
  open h use {Value}

  -- Iterators come to an end, and the thread with which the machine goes on satisfies the predicate.
  abbrev pub Onward : Next h → Type 0
  Onward (next s fr) = T fr.thread
  Onward (Next.spinning fr) = ⊥
  Onward (Next.returned v fr) = Unit {0}
  Onward (failed e fr) = Unit {0}
  Onward (panicked p fr) = Unit {0}
  Onward (Next.below_bottom fr) = Unit {0}

module _ {h : Host} (T : Thread → Type 0) where
  open h use {Value}

  pub pop1-Onward :
      (s : List Value) (fr : Frame h) (k : Value → List Value → Next h)
      → ((x : Value) (rest : List Value) → Onward T (k x rest))
      → Onward T (pop1 s fr k)
  pop1-Onward [] fr k each = tt
  pop1-Onward (x ∷ s) fr k each = each x s

  pub pop2-Onward :
      (s : List Value) (fr : Frame h) (k : Value → Value → List Value → Next h)
      → ((x y : Value) (rest : List Value) → Onward T (k x y rest))
      → Onward T (pop2 s fr k)
  pop2-Onward [] fr k each = tt
  pop2-Onward (y ∷ []) fr k each = tt
  pop2-Onward (y ∷ x ∷ s) fr k each = each x y s

  pub pop3-Onward :
      (s : List Value) (fr : Frame h) (k : Value → Value → Value → List Value → Next h)
      → ((x y z : Value) (rest : List Value) → Onward T (k x y z rest))
      → Onward T (pop3 s fr k)
  pop3-Onward [] fr k each = tt
  pop3-Onward (z ∷ []) fr k each = tt
  pop3-Onward (z ∷ y ∷ []) fr k each = tt
  pop3-Onward (z ∷ y ∷ x ∷ s) fr k each = each x y z s

  pub pop4-Onward :
      (s : List Value) (fr : Frame h) (k : Value → Value → Value → Value → List Value → Next h)
      → ((x y z w : Value) (rest : List Value) → Onward T (k x y z w rest))
      → Onward T (pop4 s fr k)
  pop4-Onward [] fr k each = tt
  pop4-Onward (w ∷ []) fr k each = tt
  pop4-Onward (w ∷ z ∷ []) fr k each = tt
  pop4-Onward (w ∷ z ∷ y ∷ []) fr k each = tt
  pop4-Onward (w ∷ z ∷ y ∷ x ∷ s) fr k each = each x y z w s

  pub if-Onward :
      (b : Bool) (x y : Next h) → Onward T x → Onward T y → Onward T (if b then x else y)
  if-Onward true x y left right = left
  if-Onward false x y left right = right

  pub Option-Onward :
      {A : Type 0} (o : Option A) (x : Next h) (f : A → Next h)
      → Onward T x
      → ((a : A) → Onward T (f a))
      → Onward T (elim o [ none ↦ x | some a ↦ f a ])
  Option-Onward none x f absent present = absent
  Option-Onward (some a) x f absent present = present a

  -- The option's value is known in the cases.
  pub known-Onward :
      {A : Type 0} (o : Option A) (x : Next h) (f : A → Next h)
      → (o ≡ none → Onward T x)
      → ((a : A) → o ≡ some a → Onward T (f a))
      → Onward T (elim o [ none ↦ x | some a ↦ f a ])
  known-Onward none x f absent present = absent refl
  known-Onward (some a) x f absent present = present a refl

  pub List-Onward :
      {A : Type 0} (xs : List A) (x : Next h) (f : A → List A → Next h)
      → Onward T x
      → ((a : A) (tail : List A) → Onward T (f a tail))
      → Onward T (elim xs [ [] ↦ x | a ∷ tail ↦ f a tail ])
  List-Onward [] x f empty more = empty
  List-Onward (a ∷ tail) x f empty more = more a tail

  pub popping-Onward :
      (n : ℕ) (s : List Value) (fr : Frame h) (k : List Value → List Value → Next h)
      → ((xs rest : List Value) → Onward T (k xs rest))
      → Onward T (popping n s fr k)
  popping-Onward n s fr k each =
      Option-Onward (pop_n n [] s) _ _ tt (λ popped. each popped.0 popped.1)

  pub push-Onward :
      (fn : Function h) (v : Value) (s : List Value) (fr : Frame h)
      → T fr.thread
      → Onward T (push fn v s fr)
  unfolding push
  push-Onward fn v s fr t =
      if-Onward (ltb (length s) fn.max_stack) (next (v ∷ s) fr) (panicked Panic.stack_bounds fr) t
        tt

  pub attempt-Onward :
      {A : Type 0} (r : Reply h.Heap h.Error A) (fr : Frame h) (k : A → Frame h → Next h)
      → ((a : A) (hp : h.Heap) → Onward T (k a (record fr { heap = hp })))
      → Onward T (attempt r fr k)
  attempt-Onward (Reply.ok hp a) fr k each = each a hp
  attempt-Onward (Reply.err hp e) fr k each = tt
  attempt-Onward (Reply.panic hp) fr k each = tt

  pub expect-Onward :
      {A : Type 0} (why : Panic) (o : Option A) (fr : Frame h) (k : A → Next h)
      → ((a : A) → Onward T (k a))
      → Onward T (expect why o fr k)
  expect-Onward why none fr k each = tt
  expect-Onward why (some a) fr k each = each a
