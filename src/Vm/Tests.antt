-- ===== src/Vm/Tests.antt =====
-- The machine at concrete inputs.
use Prim.Native.String.{String}
use starlark_go.Common.{
  ℕ, zero, suc, ◌<◌, ◌≡◌, refl, arith, Bool, true, false, List, [], ◌∷◌, Option, none, some, ltb,
}
use starlark_go.Compile.Opcode.{Opcode, opcode}
use starlark_go.Compile.Opcode.Pictures.{takes}
use starlark_go.Syntax.Token.{Token, number}
use starlark_go.Vm.{Host, Reply, Thread, Function, Frame, Next, next, failed}
use starlark_go.Vm.Machine.{step, fetch, run}
use starlark_go.Vm.Stack.{Ends}
use starlark_go.Vm.Stack.Exits.{exits, Goes}
use starlark_go.Vm.Stack.Step.{step-Goes}
use starlark_go.Vm.Stack.Run.{AtDepth, run-AtDepth}
use starlark_go.Vm.Stack.Check.{depth_in, consistent_below-Consistent}
use starlark_go.Vm.Limit.Steps.{Limited, Over}
use starlark_go.Vm.Limit.Run.{run-Over}
use starlark_go.Vm.Tokens.{Kind, operator, token_passed, operator-token_passed}
use starlark_go.Vm.Recursion.{check_recursion, Step, Reaches, OneAtMost, Shallow, Reaches-OneAtMost}

-- Numbers, Booleans, names, and the values of all other types.
data Small : Type 0 where
  nil other : Small
  number_of : ℕ → Small
  flag : Bool → Small
  text : String → Small

abbrev small_truth : Small → Bool
small_truth (number_of n) = ltb 0 n
small_truth (flag b) = b
small_truth _ = false

abbrev small_nil : Small → Bool
small_nil nil = true
small_nil _ = false

abbrev small_string : Small → Option String
small_string (text name) = some name
small_string _ = none

abbrev small_sum : Small → Small → Reply ℕ ℕ Small
small_sum _ _ = Reply.err 0 0

-- A number is iterated as often as it says; the heap counts what is left of the iterator.
abbrev small_iterate : ℕ → Small → Option (ℕ × ℕ)
small_iterate hp (number_of n) = some (n, 0)
small_iterate hp _ = none

abbrev small_next : ℕ → ℕ → ℕ × Option Small
small_next zero iter = (0, none)
small_next (suc n) iter = (n, some (number_of n))

abbrev small : Host
small = record {
  Value = Small;
  Heap = ℕ;
  Iterator = ℕ;
  ListRef = ℕ;
  Dict = ℕ;
  Cell = ℕ;
  Error = ℕ;
  nil = nil;
  none_value = other;
  mandatory = other;
  bool = flag;
  tuple = λ xs. other;
  is_nil = small_nil;
  is_iterable = λ x. false;
  as_list = λ x. none;
  as_dict = λ x. none;
  as_cell = λ x. none;
  as_tuple = λ x. none;
  as_string = small_string;
  mapping_items = λ hp x. none;
  truth = λ hp x. small_truth x;
  compare = λ hp t x y. Reply.ok hp true;
  binary = λ hp t x y. Reply.ok hp x;
  unary = λ hp t x. Reply.ok hp x;
  set_index = λ hp x y z. Reply.err hp 1;
  get_index = λ hp x y. Reply.err hp 1;
  get_attr = λ hp x name. Reply.err hp 1;
  set_field = λ hp x name y. Reply.err hp 1;
  slice = λ hp x lo hi step. Reply.err hp 1;
  check_list_mutable = λ hp l. none;
  list_extend = λ hp l y. hp;
  list_append = λ hp l y. hp;
  new_list = λ hp xs. (hp, other);
  check_dict_mutable = λ hp d. none;
  add_all = λ hp d e. hp;
  dict_len = λ hp d. 0;
  set_key = λ hp d k v. Reply.ok hp tt;
  new_dict = λ hp. (hp, other);
  new_function = λ hp n defaults freevars. (hp, other);
  iterate = small_iterate;
  iter_next = small_next;
  iter_done = λ hp iter. hp;
  left = λ hp iter. hp;
  cell_value = λ hp c. nil;
  set_cell = λ hp c x. hp;
  new_cell = λ hp x. (hp, other);
  globals = λ hp. [];
  set_globals = λ hp gs. hp;
  predeclared = λ name. nil;
  universe = λ name. nil;
  call = λ t hp f args kvs. (t, Reply.ok hp f);
  load = none;
  on_max_steps = none;
}

-- `for x in 3: pass`, then `return None`: CONSTANT 0, ITERPUSH, ITERJMP 14, POP, JMP 3, ITERPOP, NONE,
-- RETURN. The addresses of jumps are padded to four bytes.
abbrev loop : Function small
loop = record {
  code = 46 ∷ 0 ∷ 30 ∷ 45 ∷ 14 ∷ 0 ∷ 0 ∷ 0 ∷ 3 ∷ 43 ∷ 3 ∷ 0 ∷ 0 ∷ 0 ∷ 31 ∷ 26 ∷ 33 ∷ [];
  max_stack = 1;
  names = [];
  constants = number_of 3 ∷ [];
  freevars = [];
  free_counts = [];
}

abbrev limit_of : ℕ → Thread
limit_of n = record { steps = 0; max_steps = n; cancel_reason = none }

abbrev enter : ℕ → Frame small
enter n = record { locals = []; iters = []; pc = 0; heap = 0; thread = limit_of n }

abbrev at_end : ℕ → ℕ → Frame small
at_end steps max = record {
  locals = [];
  iters = [];
  pc = 17;
  heap = 0;
  thread = record { steps = steps; max_steps = max; cancel_reason = none };
}

-- The loop comes to its end.
loop_returns : run loop 40 [] (enter 100) ≡ Next.returned other (at_end 24 100)
unfolding run
loop_returns = refl

abbrev outcome_of : Next small → ℕ
outcome_of (next s fr) = 0
outcome_of (Next.returned v fr) = 1
outcome_of (failed e fr) = 2
outcome_of (Next.panicked p fr) = 3
outcome_of (Next.below_bottom fr) = 4
outcome_of (Next.spinning fr) = 5

-- With a limit of ten steps it is cancelled.
loop_cancelled : outcome_of (run loop 40 [] (enter 10)) ≡ 2
unfolding run
loop_cancelled = refl

abbrev loop_depths : List (Option ℕ)
loop_depths =
    some 0
    ∷ none
    ∷ some 1
    ∷ some 0
    ∷ none
    ∷ some 1
    ∷ some 1
    ∷ some 1
    ∷ some 1
    ∷ some 0
    ∷ none
    ∷ none
    ∷ none
    ∷ none
    ∷ some 0
    ∷ some 0
    ∷ some 1
    ∷ []

run-AtDepth_example : Ends (AtDepth loop (depth_in loop_depths)) (run loop 12 [] (enter 100))
unfolding fetch opcode takes exits
run-AtDepth_example =
    run-AtDepth loop (depth_in loop_depths) (consistent_below-Consistent loop loop_depths refl) 12
      [] (enter 100) refl

step-Goes_example : Ends (Goes (flag true ∷ []) ((7, 1) ∷ [])) (
    step
      (record loop { max_stack = 3 })
      Opcode.plus
      0
      (number_of 2 ∷ number_of 1 ∷ flag true ∷ [])
      (record (enter 9) { pc = 7 }))
unfolding exits takes
step-Goes_example =
    step-Goes (record loop { max_stack = 3 }) (flag true ∷ []) (record (enter 9) { pc = 7 })
      Opcode.plus 0 (number_of 2 ∷ number_of 1 ∷ []) refl (omega arith, tt)

small-Shrinks :
    (hp iter : ℕ) (v : Small) → (small_next hp iter).1 ≡ some v → (small_next hp iter).0 < hp
small-Shrinks zero iter v e = cc
small-Shrinks (suc n) iter v e = omega arith

small-Limited : Limited small
small-Limited = record {
  shrinks = small-Shrinks;
  called = λ t hp f args kvs below _. (refl, omega arith, below);
  loaded = λ load t hp name e. cc;
  stopped = λ on_max t hp e _. cc;
}

run-Over_example : Over (run loop 10 [] (enter 10))
run-Over_example =
    run-Over small-Limited loop 10 [] (enter 10) (record {
      some_left = omega arith;
      steps_left = λ _. (omega arith, omega arith, omega arith);
    })

operator-token_passed_example : token_passed Kind.comparing Opcode.lt ≡ number Token.lt
unfolding operator
operator-token_passed_example = operator-token_passed Opcode.lt Kind.comparing Token.lt refl

abbrev off : ℕ → Bool
off f = false

Reaches-OneAtMost_example :
    OneAtMost off (some 2 ∷ none ∷ some 1 ∷ []) × Shallow off (some 2 ∷ none ∷ some 1 ∷ [])
unfolding check_recursion
Reaches-OneAtMost_example = Reaches-OneAtMost off (some 2 ∷ none ∷ some 1 ∷ []) (
    Reaches.then_step
      (Reaches.then_step (Reaches.then_step Reaches.start (Step.call_function refl))
        Step.call_other)
      (Step.call_function refl))
