-- ===== src/Args/Untouched.antt =====
-- The slots that the arguments in `setArgs` of starlark/eval.go leave alone.
use Prim.Native.String.{String}
use starlark_go.Common.{
  ℕ, suc, ◌+◌, ◌<◌, ◌≤◌, ◌≡◌, refl, sym, ap, ◌∙◌, arith, List, [], ◌∷◌, Option, none, some, length,
  take, drop, Bool-cases, inl, inr,
}
use starlark_go.Common.Indexing.{length-take-le}
use starlark_go.Common.Members.{In}
use starlark_go.Args.{
  Values, Function, ok, multiple_values, write, ordinary, taken, bind_positional, bind_args, Bound,
  place_keyword, bind_keywords, find_param,
}
use starlark_go.Args.Slots.{write-other}
use starlark_go.Args.Binding.{>>=-ok, guarded, ok_injective, add_keyword-slots}
use starlark_go.Args.Places.{if_true, if_false}

module _ (vs : Values) where
  open vs use {Value, is_nil}

  -- The positional arguments and the surplus leave the later parameters alone.
  bind_positional-above :
      (args : List Value) (i j : ℕ) (locals : ℕ → Value)
      → i + length args ≤ j
      → bind_positional vs args i locals j ≡ locals j
  unfolding bind_positional
  bind_positional-above [] i j locals low = refl
  bind_positional-above (a ∷ args) i j locals low =
      bind_positional-above args (suc i) j (write vs locals i a) (omega arith)
      ∙ write-other vs locals i j a (λ q. omega (arith, q))

  pub bind_args-other :
      (fn : Function vs) (args : List Value) (locals : ℕ → Value) (i : ℕ)
      → taken vs fn args ≤ i
      → i < ordinary vs fn
      → bind_args vs fn args locals i ≡ locals i
  unfolding bind_args
  bind_args-other fn args locals i low high =
      let n = taken vs fn args in
      let bound = bind_positional vs (take n args) 0 locals in
      let surplus = write vs bound (ordinary vs fn) (vs.tuple (drop n args)) in
      let same =
        bind_positional-above (take n args) 0 i locals (omega (arith, length-take-le n args)) in
      elim (Bool-cases fn.has_varargs) [
        | inl has ↦
            ap (λ f. f i) (if_true fn.has_varargs surplus bound has)
            ∙ write-other vs bound (ordinary vs fn) i (vs.tuple (drop n args))
                (λ q. omega (arith, q, high))
            ∙ same
        | inr lacks ↦ ap (λ f. f i) (if_false fn.has_varargs surplus bound lacks) ∙ same
      ]

  -- A keyword argument for another parameter leaves this one alone.
  place_keyword-other :
      (o : Option ℕ) (k : String) (v : Value) (before after : Bound vs) (i : ℕ)
      → place_keyword vs o k v before ≡ ok after
      → ¬ (o ≡ some i)
      → after.0 i ≡ before.0 i
  unfolding place_keyword
  place_keyword-other none k v before after i e differ =
      ap (λ f. f i) (add_keyword-slots vs k v before.0 before.1 after e)
  place_keyword-other (some j) k v before after i e differ =
      let (empty, same) =
        guarded (is_nil (before.0 j)) (multiple_values k) (write vs before.0 j v, before.1) after
          e in
      ap (λ b. b.0 i) (sym same) ∙ write-other vs before.0 j i v (λ q. differ (ap some (sym q)))

  pub bind_keywords-other :
      (params : List String) (kwargs : List (String × Value)) (before after : Bound vs) (i : ℕ)
      → bind_keywords vs params kwargs before ≡ ok after
      → ((k : String) (v : Value) → In (k, v) kwargs → ¬ (find_param params k ≡ some i))
      → after.0 i ≡ before.0 i
  unfolding bind_keywords
  bind_keywords-other params [] before after i e differ =
      ap (λ b. b.0 i) (sym (ok_injective before after e))
  bind_keywords-other params (kv ∷ kwargs) before after i e differ =
      let (middle, first, rest) =
        >>=-ok (place_keyword vs (find_param params kv.0) kv.0 kv.1 before)
          (λ bound. bind_keywords vs params kwargs bound) after e in
      bind_keywords-other params kwargs middle after i rest (λ k v listed. differ k v (inr listed))
      ∙ place_keyword-other (find_param params kv.0) kv.0 kv.1 before middle i first
          (differ kv.0 kv.1 (inl refl))
