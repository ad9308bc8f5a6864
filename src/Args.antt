-- ===== src/Args.antt =====
-- The binding of arguments to parameters: `setArgs` and `findParam` of starlark/eval.go. The slots of
-- `locals` are a function of the index, nil where nothing was written.
pub mod Slots
pub mod Names
pub mod Binding
pub mod Places
pub mod Untouched
pub mod Defaults
pub mod Filled
pub mod Unset
pub mod Missing
pub mod Dict
mod Tests
use Prim.Native.String.{String}
use text.Mathlib.Text.{◌==◌ as str_eq}
use starlark_go.Common.{
  ℕ, zero, suc, ◌+◌, ◌-◌, ◌==◌, Bool, true, false, not, ◌&&◌, ◌||◌, if◌then◌else◌, ltb, max, List,
  [], ◌∷◌, ◌++◌, Option, none, some, length, take, drop, get_elem?,
}

-- The values: nil, the sentinel of a parameter without default, and what `*args` and `**kwargs` become.
pub record Values : Type 1 where
  pub Value : Type 0
  pub nil : Value
  pub is_nil : Value → Bool
  pub is_mandatory : Value → Bool
  pub tuple : List Value → Value
  pub dict : List (String × Value) → Value

-- The messages. Missing arguments are known by the indices of their parameters.
pub data Fault : Type 0 where
  accepts_no_arguments : ℕ → Fault
  too_many_positional : ℕ → ℕ → Fault
  multiple_values unexpected_keyword : String → Fault
  missing_arguments : List ℕ → Fault

pub data Result (A : Type 0) : Type 0 where
  ok : A → Result A
  err : Fault → Result A

infixl 5 ◌>>=◌
abbrev pub ◌>>=◌ : {A B : Type 0} → Result A → (A → Result B) → Result B
ok a >>= f = f a
err e >>= f = err e

-- The index of the name.
unfoldable pub find_param : List String → String → Option ℕ
find_param [] name = none
find_param (param ∷ params) name =
    let later = find_param params name in
    if str_eq param name then some 0 else elim later [ none ↦ none | some i ↦ some (suc i) ]

module _ (vs : Values) where
  open vs use {Value}

  -- What `fn.NumParams()` and the like answer; `params` are the names of `funcode.Locals`. The code
  -- generator counts `*args` and `**kwargs` as parameters, and gives no more keyword-only parameters
  -- and no more defaults than there are others.
  pub record Function : Type 0 where
    pub num_params : ℕ
    pub num_kwonly : ℕ
    pub has_varargs : Bool
    pub has_kwargs : Bool
    pub params : List String
    pub defaults : List Value

  abbrev pub Slots : Type 0
  Slots = ℕ → Value

  abbrev pub write : Slots → ℕ → Value → Slots
  write locals i v j = if j == i then v else locals j

  -- The ordinary parameters, sans `*args` and `**kwargs`, and those that are not keyword-only.
  unfoldable pub ordinary : Function → ℕ
  ordinary fn = fn.num_params - (if fn.has_kwargs then 1 else 0) - (if fn.has_varargs then 1 else 0)

  unfoldable pub nonkwonly : Function → ℕ
  unfolding ordinary
  nonkwonly fn = ordinary fn - fn.num_kwonly

  -- `for i := 0; i < n; i++ { locals[i] = args[i] }`, from `i` on.
  unfoldable pub bind_positional : List Value → ℕ → Slots → Slots
  bind_positional [] i locals = locals
  bind_positional (arg ∷ args) i locals = bind_positional args (suc i) (write locals i arg)

  -- `kwdict.SetKey(k, v)` of a key that is not there; `none` is a length that stays the same.
  unfoldable pub add_key : List (String × Value) → String → Value → Option (List (String × Value))
  add_key [] k v = some ((k, v) ∷ [])
  add_key ((key, value) ∷ entries) k v =
      let rest = add_key entries k v in
      if str_eq key k
      then none
      else elim rest [ none ↦ none | some entries' ↦ some ((key, value) ∷ entries') ]

  abbrev pub Bound : Type 0
  Bound = Slots × Option (List (String × Value))

  -- A keyword argument for no parameter goes into `**kwargs`, where there is one.
  unfoldable pub add_keyword :
      String → Value → Slots → Option (List (String × Value)) → Result Bound
  unfolding add_key
  add_keyword k v locals none = err (unexpected_keyword k)
  add_keyword k v locals (some entries) = elim (add_key entries k v) [
    | none ↦ err (multiple_values k)
    | some entries' ↦ ok (locals, some entries')
  ]

  -- With the index of the parameter of that name, if there is one.
  unfoldable pub place_keyword : Option ℕ → String → Value → Bound → Result Bound
  unfolding add_keyword
  place_keyword none k v (locals, kwdict) = add_keyword k v locals kwdict
  place_keyword (some i) k v (locals, kwdict) =
      if not (vs.is_nil (locals i)) then err (multiple_values k) else ok (write locals i v, kwdict)

  unfoldable pub bind_keywords : List String → List (String × Value) → Bound → Result Bound
  unfolding place_keyword find_param
  bind_keywords params [] bound = ok bound
  bind_keywords params ((k, v) ∷ kwargs) bound =
      place_keyword (find_param params k) k v bound
      >>= (λ bound'. bind_keywords params kwargs bound')

  -- The required parameters without a value among the `rounds` from `i` on.
  unfoldable pub find_missing : ℕ → ℕ → Slots → List ℕ
  find_missing zero i locals = []
  find_missing (suc rounds) i locals =
      let later = find_missing rounds (suc i) locals in
      if vs.is_nil (locals i) then i ∷ later else later

  -- The defaults, for the parameters from `i` on without a value, and the parameters that have none.
  unfoldable pub bind_defaults : List Value → ℕ → Slots → Slots × List ℕ
  bind_defaults [] i locals = (locals, [])
  bind_defaults (dflt ∷ defaults) i locals =
      let unset = vs.is_nil (locals i) in
      let lacks = unset && vs.is_mandatory dflt in
      let locals' = if unset && not (vs.is_mandatory dflt) then write locals i dflt else locals in
      let (filled, lacking) = bind_defaults defaults (suc i) locals' in
      (filled, if lacks then i ∷ lacking else lacking)

  abbrev pub report : List ℕ → Slots → Result Slots
  report [] locals = ok locals
  report (i ∷ missing) locals = err (missing_arguments (i ∷ missing))

  -- Where a parameter may be without a value: the required ones end at `m`.
  unfoldable pub fill_missing : Function → ℕ → Slots → Result Slots
  unfolding ordinary find_missing bind_defaults
  fill_missing fn n locals =
      let m = ordinary fn - length fn.defaults in
      let required = find_missing (m - n) n locals in
      let (locals', lacking) = bind_defaults (drop (max n m - m) fn.defaults) (max n m) locals in
      report (required ++ lacking) locals'

  unfoldable pub fill : Function → ℕ → Slots → Result Slots
  unfolding ordinary fill_missing
  fill fn n locals =
      if ltb n (ordinary fn) || ltb 0 fn.num_kwonly then fill_missing fn n locals else ok locals

  -- The number of positional arguments that go to parameters.
  unfoldable pub taken : Function → List Value → ℕ
  unfolding nonkwonly
  taken fn args = if ltb (nonkwonly fn) (length args) then nonkwonly fn else length args

  -- The surplus of positional arguments goes to `*args`.
  unfoldable pub bind_args : Function → List Value → Slots → Slots
  unfolding ordinary bind_positional taken
  bind_args fn args locals =
      let n = taken fn args in
      let bound = bind_positional (take n args) 0 locals in
      if fn.has_varargs then write bound (ordinary fn) (vs.tuple (drop n args)) else bound

  abbrev pub entries_of : Option (List (String × Value)) → List (String × Value)
  entries_of none = []
  entries_of (some entries) = entries

  -- `**kwargs` is the last parameter. Its dict is one object, which the model writes when it is full.
  unfoldable pub keep_dict : Function → Bound → Slots
  keep_dict fn (locals, kwdict) =
      if fn.has_kwargs
      then write locals (fn.num_params - 1) (vs.dict (entries_of kwdict))
      else locals

  unfoldable pub bind_all : Function → List Value → List (String × Value) → Slots → Result Slots
  unfolding ordinary taken bind_args bind_keywords keep_dict fill
  bind_all fn args kwargs locals =
      bind_keywords (take (ordinary fn) fn.params) kwargs
        (bind_args fn args locals, if fn.has_kwargs then some [] else none)
      >>= (λ bound. fill fn (taken fn args) (keep_dict fn bound))

  unfoldable pub set_args : Function → List Value → List (String × Value) → Slots → Result Slots
  unfolding nonkwonly bind_all
  set_args fn args kwargs locals =
      if fn.num_params == 0
      then (if ltb 0 (length args + length kwargs)
          then err (accepts_no_arguments (length args + length kwargs))
          else ok locals)
      else if ltb (nonkwonly fn) (length args) && not fn.has_varargs
      then err (too_many_positional (nonkwonly fn) (length args))
      else bind_all fn args kwargs locals
