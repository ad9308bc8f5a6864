-- ===== src/Vm.antt =====
-- The virtual machine of starlark/interp.go: its state, what it asks of the rest of the interpreter,
-- and how an instruction takes operands off the stack and leaves results there.
-- The operand stack is a list with the top in front. `sp--` on an empty stack, which the source would
-- notice only at its next access, is the outcome `below_bottom`. The arrays that a call of a Go
-- function may share with the stack are values here.
pub mod Operators
pub mod Call
pub mod Tokens
pub mod Recursion
pub mod Iterators
pub mod Items
pub mod Names
pub mod Machine
pub mod Stack
pub mod Limit
mod Tests
use Prim.Native.String.{String}
use starlark_go.Common.{
  ℕ, zero, suc, Bool, List, [], ◌∷◌, Option, none, some, length, ltb, if◌then◌else◌,
}

-- What a call of Go code comes back with: a result, an error, or a panic that passes through.
pub data Reply (H E A : Type 0) : Type 0 where
  ok : H → A → Reply H E A
  err : H → E → Reply H E A
  panic : H → Reply H E A

-- The fields of `Thread` that the loop reads.
pub record Thread : Type 0 where
  pub steps : ℕ
  pub max_steps : ℕ
  pub cancel_reason : Option String

abbrev pub StringDict : Type 0 → Type 0
StringDict V = List (String × V)

-- The values and the heap, with the operations that the machine calls: the type assertions, the
-- functions of starlark/eval.go and the methods of values and iterators. `left` bounds how many
-- elements an iterator still has.
pub record Host : Type 1 where
  pub Value : Type 0
  pub Heap : Type 0
  pub Iterator : Type 0
  pub ListRef : Type 0
  pub Dict : Type 0
  pub Cell : Type 0
  pub Error : Type 0
  pub nil : Value
  pub none_value : Value
  pub mandatory : Value
  pub bool : Bool → Value
  pub tuple : List Value → Value
  pub is_nil : Value → Bool
  pub is_iterable : Value → Bool
  pub as_list : Value → Option ListRef
  pub as_dict : Value → Option Dict
  pub as_cell : Value → Option Cell
  pub as_tuple : Value → Option (List Value)
  pub as_string : Value → Option String
  pub mapping_items : Heap → Value → Option (List (Value × Value))
  pub truth : Heap → Value → Bool
  pub compare : Heap → ℕ → Value → Value → Reply Heap Error Bool
  pub binary : Heap → ℕ → Value → Value → Reply Heap Error Value
  pub unary : Heap → ℕ → Value → Reply Heap Error Value
  pub set_index : Heap → Value → Value → Value → Reply Heap Error (Unit {0})
  pub get_index : Heap → Value → Value → Reply Heap Error Value
  pub get_attr : Heap → Value → String → Reply Heap Error Value
  pub set_field : Heap → Value → String → Value → Reply Heap Error (Unit {0})
  pub slice : Heap → Value → Value → Value → Value → Reply Heap Error Value
  pub check_list_mutable : Heap → ListRef → Option Error
  pub list_extend : Heap → ListRef → Value → Heap
  pub list_append : Heap → ListRef → Value → Heap
  pub new_list : Heap → List Value → Heap × Value
  pub check_dict_mutable : Heap → Dict → Option Error
  pub add_all : Heap → Dict → Dict → Heap
  pub dict_len : Heap → Dict → ℕ
  pub set_key : Heap → Dict → Value → Value → Reply Heap Error (Unit {0})
  pub new_dict : Heap → Heap × Value
  pub new_function : Heap → ℕ → List Value → List Value → Heap × Value
  pub iterate : Heap → Value → Option (Heap × Iterator)
  pub iter_next : Heap → Iterator → Heap × Option Value
  pub iter_done : Heap → Iterator → Heap
  pub left : Heap → Iterator → ℕ
  pub cell_value : Heap → Cell → Value
  pub set_cell : Heap → Cell → Value → Heap
  pub new_cell : Heap → Value → Heap × Value
  pub globals : Heap → List Value
  pub set_globals : Heap → List Value → Heap
  pub predeclared : String → Value
  pub universe : String → Value
  pub call :
      Thread → Heap → Value → List Value → List (Value × Value) → Thread × Reply Heap Error Value
  pub load : Option (Thread → Heap → String → Thread × Reply Heap Error (StringDict Value))
  pub on_max_steps : Option (Thread → Heap → Thread × Heap)

-- An index out of the operand stack, a failed type assertion, an index out of another array, an
-- address outside the code, or a panic in the Go code that was called.
pub data Panic : Type 0 where
  stack_bounds bad_type bad_index code_bounds application : Panic

-- The errors that end a call, by their messages.
pub data Fault (E : Type 0) : Type 0 where
  host_error cannot_load : E → Fault E
  cancelled not_in_module unassigned_predeclared : String → Fault E
  not_mapping bad_keyword argument_not_iterable not_iterable duplicate_key not_unpackable : Fault E
  too_many_values no_load stack_overflow : Fault E
  too_few_values : ℕ → ℕ → Fault E
  unassigned_local unassigned_free unassigned_global unimplemented : ℕ → Fault E

module _ (h : Host) where
  open h use {Value, Heap, Iterator, Error}

  -- What the function that runs holds: its code and the parts of its program and module that the
  -- instructions index. `free_counts` has `len(FreeVars)` of each function of the program.
  pub record Function : Type 0 where
    pub code : List ℕ
    pub max_stack : ℕ
    pub names : List String
    pub constants : List Value
    pub freevars : List Value
    pub free_counts : List ℕ

  -- The state beside the operand stack. `iters` is the stack of active iterators, innermost first.
  pub record Frame : Type 0 where
    pub locals : List Value
    pub iters : List Iterator
    pub pc : ℕ
    pub heap : Heap
    pub thread : Thread

  -- How an instruction ends: `next` goes around the loop with a new operand stack, `returned` and
  -- `failed` leave it. `spinning` is a drained iterator that exceeds its bound.
  pub data Next : Type 0 where
    next : List Value → Frame → Next
    returned : Value → Frame → Next
    failed : Fault Error → Frame → Next
    panicked : Panic → Frame → Next
    below_bottom spinning : Frame → Next

-- The top `n` values, the lowest first, in front of `acc`, and the stack below them.
abbrev pub pop_n : {V : Type 0} → ℕ → List V → List V → Option (List V × List V)
pop_n zero acc s = some (acc, s)
pop_n (suc n) acc [] = none
pop_n (suc n) acc (x ∷ s) = pop_n n (x ∷ acc) s

module _ {h : Host} where
  open h use {Value, Heap, Error}

  -- `x := stack[sp-1]; sp--`, and so on.
  abbrev pub pop1 : List Value → Frame h → (Value → List Value → Next h) → Next h
  pop1 (x ∷ s) fr k = k x s
  pop1 _ fr k = panicked stack_bounds fr

  abbrev pub pop2 : List Value → Frame h → (Value → Value → List Value → Next h) → Next h
  pop2 (y ∷ x ∷ s) fr k = k x y s
  pop2 _ fr k = panicked stack_bounds fr

  abbrev pub pop3 : List Value → Frame h → (Value → Value → Value → List Value → Next h) → Next h
  pop3 (z ∷ y ∷ x ∷ s) fr k = k x y z s
  pop3 _ fr k = panicked stack_bounds fr

  abbrev pub pop4 :
      List Value → Frame h → (Value → Value → Value → Value → List Value → Next h) → Next h
  pop4 (w ∷ z ∷ y ∷ x ∷ s) fr k = k x y z w s
  pop4 _ fr k = panicked stack_bounds fr

  abbrev pub popping : ℕ → List Value → Frame h → (List Value → List Value → Next h) → Next h
  popping n s fr k = elim (pop_n n [] s) [
    | none ↦ panicked stack_bounds fr
    | some (xs, rest) ↦ k xs rest
  ]

  -- `stack[sp] = v; sp++`
  unfoldable pub push : Function h → Value → List Value → Frame h → Next h
  push fn v s fr = if ltb (length s) fn.max_stack then next (v ∷ s) fr else panicked stack_bounds fr

  -- A call of Go code: the error leaves the loop, the panic the call.
  abbrev pub attempt : {A : Type 0} → Reply Heap Error A → Frame h → (A → Frame h → Next h) → Next h
  attempt (Reply.ok hp a) fr k = k a (record fr { heap = hp })
  attempt (Reply.err hp e) fr k = failed (host_error e) (record fr { heap = hp })
  attempt (Reply.panic hp) fr k = panicked application (record fr { heap = hp })

  -- A type assertion, or an index: `why` is the panic when it fails.
  abbrev pub expect : {A : Type 0} → Panic → Option A → Frame h → (A → Next h) → Next h
  expect why none fr k = panicked why fr
  expect why (some a) fr k = k a
