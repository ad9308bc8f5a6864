-- ===== src/Args/Filled.antt =====
-- A successful `setArgs` of starlark/eval.go.
use Prim.Native.String.{String}
use starlark_go.Common.Indexing.{get_elem?-some, All-get, All-In}
use starlark_go.Common.{
  ℕ, ◌+◌, ◌-◌, ◌<◌, ◌≤◌, sym, ltb, not, ◌&&◌, ◌≡◌, ap, ◌∙◌, arith, true, false, if◌then◌else◌, List,
  [], ◌∷◌, none, some, length, take, drop, get_elem?, All, dec_lt,
}
use starlark_go.Common.Members.{In}
use starlark_go.Args.{
  Values, Function, ok, ordinary, nonkwonly, taken, bind_args, Bound, bind_keywords, fill,
  keep_dict, bind_all, set_args,
}
use starlark_go.Args.Slots.{Keeps}
use starlark_go.Args.Binding.{Branch, set_args-Branch, >>=-ok, bind_keywords-Keeps, fill-ok}
use starlark_go.Args.Defaults.{bind_all-default}
use starlark_go.Args.Places.{
  Ungiven, Valid, ordinary_lem, nonkwonly_lem, find_param-place, keep_dict-other, ordinary-last,
  nonkwonly-ordinary, taken_both, varargs-last, bind_args-get, bind_args-surplus,
}

module _ (vs : Values) where
  open vs use {Value, is_nil}

  -- What the parameters hold, `p` of which may be positional: each has a value; a positional argument
  -- is in its place, and the surplus of them in `*args`, without which there is none; a keyword argument
  -- is in the parameter of its name; and a parameter without an argument, whose slot
  -- was without a value at the start, holds its default. The defaults are those of the last parameters.
  pub record Filled (fn : Function vs) (p : ℕ) (args : List Value) (kwargs : List (String × Value))
      (start locals : ℕ → Value) : Type 0 where
    pub set : (i : ℕ) → i < p + fn.num_kwonly → is_nil (locals i) ≡ false
    pub positional : (i : ℕ) (a : Value) → i < p → get_elem? args i ≡ some a → locals i ≡ a
    pub surplus : fn.has_varargs ≡ true → locals (p + fn.num_kwonly) ≡ vs.tuple (drop p args)
    pub no_surplus : fn.has_varargs ≡ false → length args ≤ p
    pub named :
        (k : String) (v : Value) (i : ℕ)
        → In (k, v) kwargs
        → i < p + fn.num_kwonly
        → get_elem? fn.params i ≡ some k
        → locals i ≡ v
    pub by_default :
        (i t : ℕ) (d : Value)
        → Ungiven vs fn p args kwargs i
        → is_nil (start i) ≡ true
        → i + length fn.defaults ≡ p + fn.num_kwonly + t
        → get_elem? fn.defaults t ≡ some d
        → locals i ≡ d

module _ (vs : Values) where
  open vs use {Value, is_nil}

  -- A slot that the keyword arguments and the defaults find with a value keeps it.
  kept_on :
      (fn : Function vs) (bound : Bound vs) (after : ℕ → Value) (i : ℕ) (v : Value)
      → Keeps vs (keep_dict vs fn bound) after
      → (fn.has_kwargs ≡ true → ¬ (i ≡ fn.num_params - 1))
      → bound.0 i ≡ v
      → is_nil v ≡ false
      → after i ≡ v
  kept_on fn bound after i v keeps differ at set =
      let same = keep_dict-other vs fn bound i differ ∙ at in keeps i (ap is_nil same ∙ set) ∙ same

  fits :
      (fn : Function vs) (args : List Value) (p : ℕ)
      → (ltb (nonkwonly vs fn) (length args) && not fn.has_varargs) ≡ false
      → fn.has_varargs ≡ false
      → nonkwonly vs fn ≡ p
      → length args ≤ p
  fits fn args p accepted lacks count = ground arith

  -- Two of the things that `bind_args` writes are there at the end.
  positional_kept :
      (fn : Function vs) (args : List Value) (locals after : ℕ → Value) (bound : Bound vs) (p : ℕ)
      → Valid vs fn p
      → All (λ a. is_nil a ≡ false) args
      → Keeps vs (bind_args vs fn args locals) bound.0
      → Keeps vs (keep_dict vs fn bound) after
      → (i : ℕ) (a : Value) → i < nonkwonly vs fn
      → get_elem? args i ≡ some a
      → after i ≡ a
  positional_kept fn args locals after bound p valid args_set kept keeps i a less at =
      let put = bind_args-get vs fn args locals i a less at in
      let set = All-get (λ b. is_nil b ≡ false) args i a args_set at in
      kept_on fn bound after i a keeps
        (ordinary-last vs fn i p valid (nonkwonly-ordinary vs fn i less))
        (kept i (ap is_nil put ∙ set) ∙ put) set

  surplus_kept :
      (fn : Function vs) (args : List Value) (locals after : ℕ → Value) (bound : Bound vs) (p : ℕ)
      → Valid vs fn p
      → ((xs : List Value) → is_nil (vs.tuple xs) ≡ false)
      → Keeps vs (bind_args vs fn args locals) bound.0
      → Keeps vs (keep_dict vs fn bound) after
      → fn.has_varargs ≡ true
      → after (ordinary vs fn) ≡ vs.tuple (drop (nonkwonly vs fn) args)
  surplus_kept fn args locals after bound p valid tuple_set kept keeps has =
      let put = bind_args-surplus vs fn args locals has in
      let set = tuple_set (drop (nonkwonly vs fn) args) in
      kept_on fn bound after (ordinary vs fn) (vs.tuple (drop (nonkwonly vs fn) args)) keeps
        (varargs-last vs fn p valid has) (kept (ordinary vs fn) (ap is_nil put ∙ set) ∙ put) set

  bind_all-Filled :
      (fn : Function vs) (args : List Value) (kwargs : List (String × Value))
      (locals after : ℕ → Value) (p : ℕ)
      → Valid vs fn p
      → ((xs : List Value) → is_nil (vs.tuple xs) ≡ false)
      → All (λ a. is_nil a ≡ false) args
      → All (λ kv. is_nil kv.1 ≡ false) kwargs
      → (ltb (nonkwonly vs fn) (length args) && not fn.has_varargs) ≡ false
      → bind_all vs fn args kwargs locals ≡ ok after
      → Filled vs fn p args kwargs locals after
  unfolding bind_all
  bind_all-Filled fn args kwargs locals after p valid tuple_set args_set kwargs_set accepted e =
      let count = ordinary_lem vs fn p valid in
      let count' = nonkwonly_lem vs fn p valid in
      let start = bind_args vs fn args locals in
      let params = take (ordinary vs fn) fn.params in
      let before : Bound vs = (start, if fn.has_kwargs then some [] else none) in
      let (bound, keywords, filled) =
        >>=-ok (bind_keywords vs params kwargs before)
          (λ b. fill vs fn (taken vs fn args) (keep_dict vs fn b)) after e in
      let (kept, placed) = bind_keywords-Keeps vs params kwargs before bound kwargs_set keywords in
      let (keeps, complete) =
        fill-ok vs fn (taken vs fn args) (keep_dict vs fn bound) after valid.defaults_set
          (omega (arith, count, valid.defaults_fit)) filled in
      record {
        set = λ i less. elim (dec_lt i (taken vs fn args)) [
          | yes early ↦
              let (less', here) = taken_both vs fn args i early in
              let (a, at) = get_elem?-some args i here in
              ap is_nil (
                positional_kept fn args locals after bound p valid args_set kept keeps i a less' at)
              ∙ All-get (λ b. is_nil b ≡ false) args i a args_set at
          | no late ↦ complete i (omega arith) (omega (arith, count, less))
        ];
        positional = λ i a less at.
            positional_kept fn args locals after bound p valid args_set kept keeps i a
              (omega (arith, count', less)) at;
        surplus = λ has.
            ap after (sym count)
            ∙ surplus_kept fn args locals after bound p valid tuple_set kept keeps has
            ∙ ap (λ n. vs.tuple (drop n args)) count';
        no_surplus = λ lacks. fits fn args p accepted lacks count';
        named = λ k v i listed less at.
            let found = find_param-place vs fn p i k valid less at in
            let set = All-In (λ kv. is_nil kv.1 ≡ false) kwargs (k, v) kwargs_set listed in
            kept_on fn bound after i v keeps
              (ordinary-last vs fn i p valid (omega (arith, count, less)))
              (placed k v i listed found) set;
        by_default = λ i t d un empty place at.
            bind_all-default vs fn args kwargs locals after p i t d valid e un empty place at;
      }

  counted_none :
      (fn : Function vs) (p : ℕ) → Valid vs fn p → fn.num_params ≡ 0 → p + fn.num_kwonly ≡ 0
  counted_none fn p valid e = let counted = valid.counted in ground arith

  counted_some :
      (fn : Function vs) (p : ℕ) → Valid vs fn p → fn.num_params ≡ 0 → ¬ (fn.has_varargs ≡ true)
  counted_some fn p valid e has = let counted = valid.counted in ground arith

  nullary-Filled :
      (fn : Function vs) (args : List Value) (kwargs : List (String × Value))
      (locals after : ℕ → Value) (p : ℕ)
      → Valid vs fn p
      → fn.num_params ≡ 0
      → length args + length kwargs ≡ 0
      → Filled vs fn p args kwargs locals after
  nullary-Filled fn args [] locals after p valid none_there none_given =
      let none_fit = counted_none fn p valid none_there in
      record {
        set = λ i less. absurd (omega (arith, none_fit));
        positional = λ i a less at. absurd (omega (arith, none_fit));
        surplus = λ has. absurd (counted_some fn p valid none_there has);
        no_surplus = λ _. omega (arith, none_given);
        named = λ k v i listed _ at. absurd listed;
        by_default = λ i t d un empty place at. absurd (omega (arith, none_fit, un.is_parameter));
      }
  nullary-Filled fn args (kv ∷ kwargs) locals after p valid none_there none_given =
      absurd (omega arith)

  -- When `setArgs` reports no error, every parameter holds a value: the positional arguments stand in
  -- their places and the surplus of them in `*args`, the keyword arguments stand in the parameters of
  -- their names, and a parameter without an argument holds its default, if its slot was without a
  -- value at the start. Without `*args` there is no surplus. The arguments and the defaults are no nil
  -- values, and the function is as the code generator makes it.
  pub set_args-Filled :
      (fn : Function vs) (args : List Value) (kwargs : List (String × Value))
      (locals after : ℕ → Value) (p : ℕ)
      → Valid vs fn p
      → ((xs : List Value) → is_nil (vs.tuple xs) ≡ false)
      → All (λ a. is_nil a ≡ false) args
      → All (λ kv. is_nil kv.1 ≡ false) kwargs
      → set_args vs fn args kwargs locals ≡ ok after
      → Filled vs fn p args kwargs locals after
  set_args-Filled fn args kwargs locals after p valid tuple_set args_set kwargs_set e =
      elim (set_args-Branch vs fn args kwargs locals (ok after) e) [
        | Branch.none_accepted refusal ↦ cc
        | Branch.nullary none_there none_given _ ↦
            nullary-Filled fn args kwargs locals after p valid none_there none_given
        | Branch.surplus refusal ↦ cc
        | Branch.binding accepted done ↦
            bind_all-Filled fn args kwargs locals after p valid tuple_set args_set kwargs_set
              accepted done
      ]
