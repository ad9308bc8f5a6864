-- ===== src/Vm/Stack.antt =====
-- What an instruction of starlark/interp.go may do to the operand stack, as a predicate on how it ends.
pub mod Operators
pub mod Items
pub mod Names
pub mod Iterators
pub mod Call
pub mod Exits
pub mod Families
pub mod Step
pub mod Run
pub mod Check
use starlark_go.Common.{
  ℕ, zero, suc, ◌<◌, ◌≡◌, refl, arith, Bool, true, false, if◌then◌else◌, List, [], ◌∷◌, ◌++◌,
  Option, none, some, length, ltb, subst, ap, ◌+◌, sym,
}
use starlark_go.Vm.{
  Host, Reply, Function, Frame, Next, Fault, Panic, next, failed, panicked, stack_bounds, bad_type,
  bad_index, code_bounds, application, pop_n, popping, push, attempt, expect,
}

-- A panic that is not for the operand stack.
abbrev pub Harmless : Panic → Type 0
Harmless stack_bounds = ⊥
Harmless _ = Unit {0}

module _ {h : Host} where
  open h use {Value}

  -- The operand stack is not overrun, and what goes on satisfies the predicate.
  abbrev pub Ends : (List Value → Frame h → Type 0) → Next h → Type 0
  Ends P (next s fr) = P s fr
  Ends P (Next.returned v fr) = Unit {0}
  Ends P (failed e fr) = Unit {0}
  Ends P (panicked p fr) = Harmless p
  Ends P (Next.below_bottom fr) = ⊥
  Ends P (Next.spinning fr) = Unit {0}

  -- The stack is `n` values on `rest`, and the address is `pc`.
  pub record Leaves (rest : List Value) (n pc : ℕ) (s : List Value) (fr : Frame h) : Type 0 where
    pub values : List Value
    pub counted : length values ≡ n
    pub above : s ≡ values ++ rest
    pub at : fr.pc ≡ pc

pub lt→ltb : (a b : ℕ) → a < b → ltb a b ≡ true
lt→ltb a b h = ground arith

module _ {h : Host} where
  open h use {Value}

  pub attempt-Ends :
      {A : Type 0} (P : List Value → Frame h → Type 0) (r : Reply h.Heap h.Error A) (fr : Frame h)
      (k : A → Frame h → Next h)
      → ((a : A) (hp : h.Heap) → Ends P (k a (record fr { heap = hp })))
      → Ends P (attempt r fr k)
  attempt-Ends P (Reply.ok hp a) fr k each = each a hp
  attempt-Ends P (Reply.err hp e) fr k each = tt
  attempt-Ends P (Reply.panic hp) fr k each = tt

  pub expect-Ends :
      {A : Type 0} (P : List Value → Frame h → Type 0) (why : Panic) (o : Option A) (fr : Frame h)
      (k : A → Next h)
      → Harmless why
      → ((a : A) → Ends P (k a))
      → Ends P (expect why o fr k)
  expect-Ends P why none fr k harmless each = harmless
  expect-Ends P why (some a) fr k harmless each = each a

  pub push-Leaves :
      (fn : Function h) (v : Value) (rest : List Value) (fr : Frame h) (pc : ℕ)
      → length rest < fn.max_stack
      → fr.pc ≡ pc
      → Ends (Leaves rest 1 pc) (push fn v rest fr)
  unfolding push
  push-Leaves fn v rest fr pc room at =
      rw (lt→ltb _ _ room) (record { values = v ∷ []; counted = refl; above = refl; at = at })

-- As many values as are taken off come off.
pub pop_n-append :
    {V : Type 0} (n : ℕ) (acc args rest : List V)
    → length args ≡ n
    → (xs : List V) × (pop_n n acc (args ++ rest) ≡ some (xs, rest))
pop_n-append zero acc [] rest e = (acc, refl)
pop_n-append zero acc (x ∷ args) rest e = absurd (omega arith)
pop_n-append (suc n) acc [] rest e = absurd (omega arith)
pop_n-append (suc n) acc (x ∷ args) rest e = pop_n-append n (x ∷ acc) args rest (omega arith)

module _ {h : Host} (P : List h.Value → Frame h → Type 0) where
  pub if-Ends : (b : Bool) (x y : Next h) → Ends P x → Ends P y → Ends P (if b then x else y)
  if-Ends true x y left right = left
  if-Ends false x y left right = right

  -- The test's value is known in the branches.
  pub test-Ends :
      (b : Bool) (x y : Next h)
      → (b ≡ true → Ends P x)
      → (b ≡ false → Ends P y)
      → Ends P (if b then x else y)
  test-Ends true x y left right = left refl
  test-Ends false x y left right = right refl

  pub Option-Ends :
      {A : Type 0} (o : Option A) (x : Next h) (f : A → Next h)
      → Ends P x
      → ((a : A) → Ends P (f a))
      → Ends P (elim o [ none ↦ x | some a ↦ f a ])
  Option-Ends none x f absent present = absent
  Option-Ends (some a) x f absent present = present a

  -- The option's value is known in the cases.
  pub known-Ends :
      {A : Type 0} (o : Option A) (x : Next h) (f : A → Next h)
      → (o ≡ none → Ends P x)
      → ((a : A) → o ≡ some a → Ends P (f a))
      → Ends P (elim o [ none ↦ x | some a ↦ f a ])
  known-Ends none x f absent present = absent refl
  known-Ends (some a) x f absent present = present a refl

  pub List-Ends :
      {A : Type 0} (xs : List A) (x : Next h) (f : A → List A → Next h)
      → Ends P x
      → ((a : A) (tail : List A) → Ends P (f a tail))
      → Ends P (elim xs [ [] ↦ x | a ∷ tail ↦ f a tail ])
  List-Ends [] x f empty more = empty
  List-Ends (a ∷ tail) x f empty more = more a tail

  -- Taking off as many values as stand on the rest leaves the rest.
  pub popping-Ends :
      (n : ℕ) (args rest : List h.Value) (fr : Frame h) (k : List h.Value → List h.Value → Next h)
      → length args ≡ n
      → ((xs : List h.Value) → Ends P (k xs rest))
      → Ends P (popping n (args ++ rest) fr k)
  popping-Ends n args rest fr k e each =
      let (xs, came) = pop_n-append n [] args rest e in
      subst (λ o. Ends P (elim o [ none ↦ panicked stack_bounds fr | some (vs, s) ↦ k vs s ]))
        (sym came) (each xs)

-- A list of a known length, by its parts.
pub split_at :
    {V : Type 0} (m n : ℕ) (xs : List V)
    → length xs ≡ m + n
    → (ys zs : List V) × (length ys ≡ m) × (length zs ≡ n) × (xs ≡ ys ++ zs)
split_at zero n xs e = ([], xs, refl, omega arith, refl)
split_at (suc m) n [] e = absurd (omega arith)
split_at (suc m) n (x ∷ xs) e =
    let (ys, zs, ey, ez, es) = split_at m n xs (omega arith) in
    (x ∷ ys, zs, omega arith, ez, ap (λ l. x ∷ l) es)

module _ {V : Type 0} (P : List V → Type 0) where
  pub with_none : P [] → (xs : List V) → length xs ≡ 0 → P xs
  with_none p [] e = p
  with_none p (x ∷ xs) e = absurd (omega arith)

module _ {V : Type 0} (P : List V → Type 0) where
  -- The head of a list that has one.
  pub with_head :
      (n : ℕ) (xs : List V)
      → length xs ≡ n + 1
      → ((x : V) (ys : List V) → length ys ≡ n → P (x ∷ ys))
      → P xs
  with_head n [] e each = absurd (omega arith)
  with_head n (x ∷ ys) e each = each x ys (omega arith)
