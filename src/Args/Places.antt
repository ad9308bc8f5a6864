-- ===== src/Args/Places.antt =====
-- The places that `setArgs` of starlark/eval.go gives to the positional arguments, to the surplus of them
-- and to the dict of the other keyword arguments.
use Prim.Native.String.{String}
use starlark_go.Common.Indexing.{length-take-le, get_elem?-less, get_elem?-take, drop-all}
use starlark_go.Common.{
  ℕ, ◌+◌, ◌-◌, ◌<◌, ◌≤◌, ◌≡◌, refl, sym, ap, ◌∙◌, subst, arith, Bool, true, false, if◌then◌else◌,
  ltb, List, some, length, take, drop, get_elem?, Bool-cases, inl, inr, All,
}
use starlark_go.Common.Members.{In}
use starlark_go.Args.{
  Values, Function, write, ordinary, nonkwonly, taken, bind_positional, bind_args, Bound,
  find_param, keep_dict,
}
use starlark_go.Args.Names.{Apart, find_param-get, get-find_param}
use starlark_go.Args.Slots.{write-same, write-other, bind_positional-get}

module _ (vs : Values) where
  open vs use {Value, is_nil}

  -- What the code generator and `MAKEFUNC` make sure of, for a function with `p` parameters that may be
  -- positional. The keyword-only ones stand behind these, and then `*args` and `**kwargs`; the resolver
  -- refuses two parameters of one name.
  pub record Valid (fn : Function vs) (p : ℕ) : Type 0 where
    pub counted :
        fn.num_params
        ≡ p + fn.num_kwonly + (if fn.has_varargs then 1 else 0) + (if fn.has_kwargs then 1 else 0)
    pub defaults_fit : length fn.defaults ≤ p + fn.num_kwonly
    pub defaults_set : All (λ d. is_nil d ≡ false) fn.defaults
    pub apart : Apart (take (p + fn.num_kwonly) fn.params)

  -- No argument is for the parameter with this index, of which the first `p` may be positional.
  pub record Ungiven (fn : Function vs) (p : ℕ) (args : List Value) (kwargs : List (String × Value))
      (i : ℕ) : Type 0 where
    pub is_parameter : i < p + fn.num_kwonly
    pub not_positional : i < p → length args ≤ i
    pub not_named : (k : String) (v : Value) → In (k, v) kwargs → ¬ (get_elem? fn.params i ≡ some k)

  -- The numbers that the code computes.
  pub ordinary_lem : (fn : Function vs) (p : ℕ) → Valid fn p → ordinary vs fn ≡ p + fn.num_kwonly
  unfolding ordinary
  ordinary_lem fn p valid = let counted = valid.counted in ground arith

  pub nonkwonly_lem : (fn : Function vs) (p : ℕ) → Valid fn p → nonkwonly vs fn ≡ p
  unfolding nonkwonly
  nonkwonly_lem fn p valid = omega (arith, ordinary_lem fn p valid)

pub if_true : {A : Type 0} (b : Bool) (x y : A) → b ≡ true → (if b then x else y) ≡ x
if_true true x y e = refl
if_true false x y e = cc

pub if_false : {A : Type 0} (b : Bool) (x y : A) → b ≡ false → (if b then x else y) ≡ y
if_false true x y e = cc
if_false false x y e = refl

zero_plus : (i : ℕ) → 0 + i ≡ i
zero_plus i = omega arith

module _ (vs : Values) where
  open vs use {Value, is_nil}

  -- The dict of `**kwargs` is behind the ordinary parameters, and not in the place of `*args`.
  pub keep_dict-other :
      (fn : Function vs) (bound : Bound vs) (i : ℕ)
      → (fn.has_kwargs ≡ true → ¬ (i ≡ fn.num_params - 1))
      → keep_dict vs fn bound i ≡ bound.0 i
  unfolding keep_dict
  keep_dict-other fn bound i differ = elim (Bool-cases fn.has_kwargs) [
    | inl has ↦ rw has (write-other vs bound.0 _ i _ (differ has))
    | inr lacks ↦ rw lacks refl
  ]

  pub ordinary-last :
      (fn : Function vs) (i p : ℕ)
      → Valid vs fn p
      → i < ordinary vs fn
      → fn.has_kwargs ≡ true
      → ¬ (i ≡ fn.num_params - 1)
  unfolding ordinary
  ordinary-last fn i p valid less has e = let counted = valid.counted in ground arith

  taken-less :
      (fn : Function vs) (args : List Value) (i : ℕ)
      → i < nonkwonly vs fn
      → i < length args
      → i < taken vs fn args
  unfolding taken
  taken-less fn args i less less' = ground arith

  drop-taken :
      (fn : Function vs) (args : List Value)
      → drop (taken vs fn args) args ≡ drop (nonkwonly vs fn) args
  unfolding taken
  drop-taken fn args = elim (Bool-cases (ltb (nonkwonly vs fn) (length args))) [
    | inl more ↦ rw more refl
    | inr fits ↦ rw fits (
        drop-all (length args) args (omega arith)
        ∙ sym (drop-all (nonkwonly vs fn) args (ground arith)))
  ]

  nonkwonly_below : (fn : Function vs) (i : ℕ) → i < nonkwonly vs fn → ¬ (i ≡ ordinary vs fn)
  unfolding nonkwonly
  nonkwonly_below fn i less same = omega arith

  pub nonkwonly-ordinary : (fn : Function vs) (i : ℕ) → i < nonkwonly vs fn → i < ordinary vs fn
  unfolding nonkwonly
  nonkwonly-ordinary fn i less = omega arith

  pub taken_both :
      (fn : Function vs) (args : List Value) (i : ℕ)
      → i < taken vs fn args
      → (i < nonkwonly vs fn) × (i < length args)
  unfolding taken
  taken_both fn args i less = ground arith

  pub varargs-last :
      (fn : Function vs) (p : ℕ)
      → Valid vs fn p
      → fn.has_varargs ≡ true
      → fn.has_kwargs ≡ true
      → ¬ (ordinary vs fn ≡ fn.num_params - 1)
  unfolding ordinary
  varargs-last fn p valid has has' e = let c = valid.counted in ground arith

  pub bind_args-get :
      (fn : Function vs) (args : List Value) (locals : ℕ → Value) (i : ℕ) (a : Value)
      → i < nonkwonly vs fn
      → get_elem? args i ≡ some a
      → bind_args vs fn args locals i ≡ a
  unfolding bind_args
  bind_args-get fn args locals i a less e =
      let n = taken vs fn args in
      let below = taken-less fn args i less (get_elem?-less args i a e) in
      let got =
        bind_positional-get vs (take n args) 0 i locals a (get_elem?-take n i args below ∙ e) in
      let got' = subst (λ k. bind_positional vs (take n args) 0 locals k ≡ a) (zero_plus i) got in
      let bound = bind_positional vs (take n args) 0 locals in
      let surplus = write vs bound (ordinary vs fn) (vs.tuple (drop n args)) in
      elim (Bool-cases fn.has_varargs) [
        | inl has ↦
            ap (λ f. f i) (if_true fn.has_varargs surplus bound has)
            ∙ write-other vs bound (ordinary vs fn) i (vs.tuple (drop n args))
                (nonkwonly_below fn i less)
            ∙ got'
        | inr lacks ↦ ap (λ f. f i) (if_false fn.has_varargs surplus bound lacks) ∙ got'
      ]

  pub bind_args-surplus :
      (fn : Function vs) (args : List Value) (locals : ℕ → Value)
      → fn.has_varargs ≡ true
      → bind_args vs fn args locals (ordinary vs fn) ≡ vs.tuple (drop (nonkwonly vs fn) args)
  unfolding bind_args
  bind_args-surplus fn args locals has =
      let n = taken vs fn args in
      let bound = bind_positional vs (take n args) 0 locals in
      let surplus = write vs bound (ordinary vs fn) (vs.tuple (drop n args)) in
      ap (λ f. f (ordinary vs fn)) (if_true fn.has_varargs surplus bound has)
      ∙ write-same vs bound (ordinary vs fn) (vs.tuple (drop n args))
      ∙ ap vs.tuple (drop-taken fn args)

  -- A parameter of a name is found under it.
  pub find_param-place :
      (fn : Function vs) (p i : ℕ) (k : String)
      → Valid vs fn p
      → i < p + fn.num_kwonly
      → get_elem? fn.params i ≡ some k
      → find_param (take (ordinary vs fn) fn.params) k ≡ some i
  find_param-place fn p i k valid less at =
      let n = p + fn.num_kwonly in
      subst (λ m. find_param (take m fn.params) k ≡ some i) (sym (ordinary_lem vs fn p valid))
        (find_param-get (take n fn.params) i k valid.apart (get_elem?-take n i fn.params less ∙ at))

  -- A name that is found is that of the parameter.
  pub find_param-named :
      (fn : Function vs) (i : ℕ) (k : String)
      → find_param (take (ordinary vs fn) fn.params) k ≡ some i
      → get_elem? fn.params i ≡ some k
  find_param-named fn i k found =
      let n = ordinary vs fn in
      let at = get-find_param (take n fn.params) i k found in
      sym (
        get_elem?-take n i fn.params
          (omega (arith, length-take-le n fn.params, get_elem?-less (take n fn.params) i k at)))
      ∙ at
