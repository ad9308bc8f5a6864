-- ===== src/Args/Missing.antt =====
-- The parameters that `setArgs` of starlark/eval.go reports as missing.
use Prim.Native.String.{String}
use starlark_go.Common.{
  ℕ, ◌<◌, ◌≤◌, ◌≡◌, refl, sym, ap, ◌∙◌, arith, true, false, not, if◌then◌else◌, List, [], ◌∷◌,
  Option, none, some, length, take, inl, inr, ◌⊎◌, All,
}
use starlark_go.Common.Indexing.{All-In}
use starlark_go.Common.Members.{In}
use starlark_go.Args.{
  Values, Fault, Function, Result, multiple_values, add_key, add_keyword, place_keyword, write, ok,
  err, missing_arguments, ordinary, nonkwonly, taken, bind_args, Bound, bind_keywords, find_param,
  fill, keep_dict, bind_all, set_args, ◌>>=◌,
}
use starlark_go.Args.Binding.{Branch, set_args-Branch, chosen, bind_keywords-Keeps}
use starlark_go.Args.Unset.{fill-nil}
use starlark_go.Args.Places.{
  Valid, Ungiven, ordinary_lem, nonkwonly_lem, find_param-place, keep_dict-other, ordinary-last,
}

>>=-err :
    {A B : Type 0} (r : Result A) (f : A → Result B) (x : Fault)
    → (r >>= f) ≡ err x
    → (r ≡ err x) ⊎ ((a : A) × (r ≡ ok a) × (f a ≡ err x))
>>=-err {A} {B} (ok a) f x e = inr (a, refl, e)
>>=-err {A} {B} (err y) f x e = inl (ap (λ r. err (fault_of r)) e)
  where
    fault_of : Result B → Fault
    fault_of (err z) = z
    fault_of (ok b) = y

true_is_false : ¬ (true ≡ false)
true_is_false e = cc

module _ (vs : Values) where
  open vs use {Value, is_nil}

  added_never :
      (o : Option (List (String × Value))) (k : String) (locals : ℕ → Value) (listed : List ℕ)
      → ¬ (
          elim o as (λ _. Result (Bound vs)) [
            | none ↦ err (multiple_values k)
            | some entries ↦ ok (locals, some entries)
          ]
          ≡ err (missing_arguments listed))
  added_never none k locals listed e = cc
  added_never (some entries) k locals listed e = cc

  add_keyword_never :
      (k : String) (v : Value) (locals : ℕ → Value) (kwdict : Option (List (String × Value)))
      (listed : List ℕ)
      → ¬ (add_keyword vs k v locals kwdict ≡ err (missing_arguments listed))
  unfolding add_keyword
  add_keyword_never k v locals none listed e = cc
  add_keyword_never k v locals (some entries) listed e =
      added_never (add_key vs entries k v) k locals listed e

  place_keyword_never :
      (o : Option ℕ) (k : String) (v : Value) (bound : Bound vs) (listed : List ℕ)
      → ¬ (place_keyword vs o k v bound ≡ err (missing_arguments listed))
  unfolding place_keyword
  place_keyword_never none k v bound listed e = add_keyword_never k v bound.0 bound.1 listed e
  place_keyword_never (some i) k v bound listed e =
      elim (chosen (not (is_nil (bound.0 i))) (err (multiple_values k))
        (ok (write vs bound.0 i v, bound.1)) (err (missing_arguments listed)) e) [
          | inl (_, other) ↦ cc
          | inr (_, done) ↦ cc
        ]

  -- The keyword arguments report other errors.
  bind_keywords_never :
      (params : List String) (kwargs : List (String × Value)) (bound : Bound vs) (listed : List ℕ)
      → ¬ (bind_keywords vs params kwargs bound ≡ err (missing_arguments listed))
  unfolding bind_keywords
  bind_keywords_never params [] bound listed e = cc
  bind_keywords_never params (kv ∷ kwargs) bound listed e =
      elim (>>=-err (place_keyword vs (find_param params kv.0) kv.0 kv.1 bound)
        (λ b. bind_keywords vs params kwargs b) (missing_arguments listed) e) [
          | inl first ↦ place_keyword_never (find_param params kv.0) kv.0 kv.1 bound listed first
          | inr (b, _, rest) ↦ bind_keywords_never params kwargs b listed rest
        ]

  taken-le : (fn : Function vs) (args : List Value) → taken vs fn args ≤ ordinary vs fn
  unfolding taken nonkwonly
  taken-le fn args = ground arith

  after_taken :
      (fn : Function vs) (args : List Value) (i : ℕ)
      → taken vs fn args ≤ i
      → i < nonkwonly vs fn
      → length args ≤ i
  unfolding taken
  after_taken fn args i low less = ground arith

  bind_all-Ungiven :
      (fn : Function vs) (args : List Value) (kwargs : List (String × Value)) (locals : ℕ → Value)
      (listed : List ℕ) (p : ℕ)
      → Valid vs fn p
      → All (λ kv. is_nil kv.1 ≡ false) kwargs
      → bind_all vs fn args kwargs locals ≡ err (missing_arguments listed)
      → (i : ℕ) → In i listed
      → Ungiven vs fn p args kwargs i
  unfolding bind_all
  bind_all-Ungiven fn args kwargs locals listed p valid kwargs_set e i here =
      let params = take (ordinary vs fn) fn.params in
      let before : Bound vs =
        (bind_args vs fn args locals, if fn.has_kwargs then some [] else none) in
      let count = ordinary_lem vs fn p valid in
      let count' = nonkwonly_lem vs fn p valid in
      elim (>>=-err (bind_keywords vs params kwargs before)
        (λ b. fill vs fn (taken vs fn args) (keep_dict vs fn b)) (missing_arguments listed) e) [
          | inl early ↦ absurd (bind_keywords_never params kwargs before listed early)
          | inr (bound, keywords, reported) ↦
              let (low, high, empty) =
                fill-nil vs fn (taken vs fn args) (keep_dict vs fn bound) listed (taken-le fn args)
                  (omega (arith, count, valid.defaults_fit)) reported i here in
              let placed =
                (bind_keywords-Keeps vs params kwargs before bound kwargs_set keywords).1 in
              let same = keep_dict-other vs fn bound i (ordinary-last vs fn i p valid high) in
              record {
                is_parameter = omega (arith, count, high);
                not_positional = λ less. after_taken fn args i low (omega (arith, count', less));
                not_named = λ k v given at.
                    let found =
                      find_param-place vs fn p i k valid (omega (arith, count, high)) at in
                    let put = placed k v i given found in
                    let set = All-In (λ kv. is_nil kv.1 ≡ false) kwargs (k, v) kwargs_set given in
                    true_is_false (sym empty ∙ ap is_nil (same ∙ put) ∙ set);
              }
        ]

  -- When `setArgs` reports missing arguments, each parameter that it lists is one for which the call
  -- gives neither a positional nor a keyword argument. The keyword arguments are no nil values, and
  -- the function is as the code generator makes it.
  pub set_args-Ungiven :
      (fn : Function vs) (args : List Value) (kwargs : List (String × Value)) (locals : ℕ → Value)
      (listed : List ℕ) (p : ℕ)
      → Valid vs fn p
      → All (λ kv. is_nil kv.1 ≡ false) kwargs
      → set_args vs fn args kwargs locals ≡ err (missing_arguments listed)
      → (i : ℕ) → In i listed
      → Ungiven vs fn p args kwargs i
  set_args-Ungiven fn args kwargs locals listed p valid kwargs_set e =
      elim (set_args-Branch vs fn args kwargs locals (err (missing_arguments listed)) e) [
        | Branch.none_accepted other ↦ cc
        | Branch.nullary _ _ done ↦ cc
        | Branch.surplus other ↦ cc
        | Branch.binding _ missed ↦
            bind_all-Ungiven fn args kwargs locals listed p valid kwargs_set missed
      ]
