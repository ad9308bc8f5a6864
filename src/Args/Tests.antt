-- ===== src/Args/Tests.antt =====
-- The binding of arguments at concrete calls.
use starlark_go.Common.{inl, ℕ, ◌≡◌, refl, arith, Bool, true, false, [], ◌∷◌}
use starlark_go.Args.{
  Values, Function, err, missing_arguments, multiple_values, write, set_args, ordinary,
}
use starlark_go.Args.Missing.{set_args-Ungiven}
use starlark_go.Args.Dict.{Distinct, unnamed, set_args-Distinct}
use starlark_go.Args.Places.{Valid, Ungiven}
use starlark_go.Args.Filled.{Filled, set_args-Filled}

data Small : Type 0 where
  nil mandatory other : Small
  number : ℕ → Small

abbrev small_nil : Small → Bool
small_nil nil = true
small_nil _ = false

abbrev small_mandatory : Small → Bool
small_mandatory mandatory = true
small_mandatory _ = false

abbrev small : Values
small = record {
  Value = Small;
  nil = nil;
  is_nil = small_nil;
  is_mandatory = small_mandatory;
  tuple = λ xs. other;
  dict = λ entries. other;
}

-- `def f(a, b=2, *args, k, **kwargs)`
abbrev f : Function small
f = record {
  num_params = 5;
  num_kwonly = 1;
  has_varargs = true;
  has_kwargs = true;
  params = "a" ∷ "b" ∷ "k" ∷ "args" ∷ "kwargs" ∷ [];
  defaults = number 2 ∷ mandatory ∷ [];
}

abbrev empty : ℕ → Small
empty i = nil

-- `f(7, z=4)` lacks `k`, and `f(7, k=9, a=4)` has `a` twice.
k_missing :
    set_args small f (number 7 ∷ []) (("z", number 4) ∷ []) empty ≡ err (missing_arguments (2 ∷ []))
unfolding set_args
k_missing = refl

a_twice :
    set_args small f (number 7 ∷ []) (("k", number 9) ∷ ("a", number 4) ∷ []) empty
    ≡ err (multiple_values "a")
unfolding set_args
a_twice = refl

-- `f(7, k=9, z=4)`
abbrev slots : ℕ → Small
slots =
    write small
      (write small (write small (write small (write small empty 0 (number 7)) 3 other) 2 (number 9))
        4 other)
      1 (number 2)

f-Valid : Valid small f 2
f-Valid = record {
  counted = refl;
  defaults_fit = omega arith;
  defaults_set = (refl, (refl, tt));
  apart = ((refl, (refl, tt)), ((refl, tt), (tt, tt)));
}

set_args-Filled_example :
    Filled small f 2 (number 7 ∷ []) (("k", number 9) ∷ ("z", number 4) ∷ []) empty slots
unfolding set_args ordinary
set_args-Filled_example =
    set_args-Filled small f (number 7 ∷ []) (("k", number 9) ∷ ("z", number 4) ∷ []) empty slots 2
      f-Valid (λ xs. refl) (refl, tt) (refl, (refl, tt)) refl

-- `f(7, z=4)` has nothing for `k`.
set_args-Ungiven_example : Ungiven small f 2 (number 7 ∷ []) (("z", number 4) ∷ []) 2
unfolding set_args ordinary
set_args-Ungiven_example =
    set_args-Ungiven small f (number 7 ∷ []) (("z", number 4) ∷ []) empty (2 ∷ []) 2 f-Valid
      (refl, tt) refl 2 (inl refl)

-- In `f(7, k=9, z=4)` the dict holds `z`.
set_args-Distinct_example :
    (slots 4 ≡ other)
    × Distinct (unnamed ("a" ∷ "b" ∷ "k" ∷ []) (("k", number 9) ∷ ("z", number 4) ∷ []))
unfolding set_args ordinary
set_args-Distinct_example =
    set_args-Distinct small f (number 7 ∷ []) (("k", number 9) ∷ ("z", number 4) ∷ []) empty slots 2
      f-Valid (λ entries. refl) refl refl
