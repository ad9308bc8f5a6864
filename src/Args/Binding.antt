-- ===== src/Args/Binding.antt =====
-- What a call finds in its parameters after `setArgs` of starlark/eval.go.
use Prim.Native.String.{String}
use starlark_go.Common.Indexing.{All-drop, length-drop}
use starlark_go.Common.{
  ◌&&◌, ◌==◌, ℕ, ◌+◌, ◌-◌, ◌<◌, ◌≤◌, ◌≡◌, refl, sym, ap, ◌∙◌, subst, arith, Bool, true, false, not,
  ◌||◌, if◌then◌else◌, ltb, max, List, [], ◌∷◌, ◌++◌, Option, none, some, length, drop, inl, inr,
  ◌⊎◌, All, dec_lt,
}
use starlark_go.Common.Members.{In}
use starlark_go.Args.{
  nonkwonly, set_args, bind_all, accepts_no_arguments, too_many_positional, Values, Fault,
  multiple_values, ◌>>=◌, Function, Result, ok, err, write, ordinary, Bound, add_keyword, add_key,
  place_keyword, bind_keywords, find_param, find_missing, bind_defaults, report, fill_missing, fill,
}
use starlark_go.Args.Slots.{
  Keeps, write-same, write-Keeps, some_injective, find_missing-none, bind_defaults-Keeps,
  bind_defaults-none,
}

pub ok_injective : {A : Type 0} (a b : A) → ok a ≡ ok b → a ≡ b
ok_injective a b e = ap (λ r. elim r [ ok c ↦ c | err f ↦ a ]) e

pub >>=-ok :
    {A B : Type 0} (r : Result A) (f : A → Result B) (b : B)
    → (r >>= f) ≡ ok b
    → (a : A) × (r ≡ ok a) × (f a ≡ ok b)
>>=-ok (ok a) f b e = (a, refl, e)
>>=-ok (err x) f b e = cc

-- A guarded result.
pub guarded :
    {A : Type 0} (b : Bool) (f : Fault) (a c : A)
    → (if not b then err f else ok a) ≡ ok c
    → (b ≡ true) × (a ≡ c)
guarded true f a c e = (refl, ok_injective a c e)
guarded false f a c e = cc

pub chosen :
    {A : Type 0} (b : Bool) (x y r : A)
    → (if b then x else y) ≡ r
    → ((b ≡ true) × (x ≡ r)) ⊎ ((b ≡ false) × (y ≡ r))
chosen true x y r e = inl (refl, e)
chosen false x y r e = inr (refl, e)

pub both_empty : {A : Type 0} (xs ys : List A) → xs ++ ys ≡ [] → (xs ≡ []) × (ys ≡ [])
both_empty [] ys e = (refl, e)
both_empty (x ∷ xs) ys e = cc

module _ (vs : Values) where
  open vs use {Value, is_nil}

  added-slots :
      (o : Option (List (String × Value))) (k : String) (locals : ℕ → Value) (bound : Bound vs)
      → elim o as (λ _. Result (Bound vs)) [
        | none ↦ err (multiple_values k)
        | some entries ↦ ok (locals, some entries)
      ]
        ≡ ok bound
      → bound.0 ≡ locals
  added-slots none k locals bound e = cc
  added-slots (some entries) k locals bound e = ap (λ b. b.0) (sym (ok_injective _ bound e))

  pub add_keyword-slots :
      (k : String) (v : Value) (locals : ℕ → Value) (kwdict : Option (List (String × Value)))
      (bound : Bound vs)
      → add_keyword vs k v locals kwdict ≡ ok bound
      → bound.0 ≡ locals
  unfolding add_keyword
  add_keyword-slots k v locals none bound e = cc
  add_keyword-slots k v locals (some entries) bound e =
      added-slots (add_key vs entries k v) k locals bound e

  -- A keyword argument that is taken keeps what is there, and has its parameter's slot.
  pub place_keyword-Keeps :
      (o : Option ℕ) (k : String) (v : Value) (before after : Bound vs)
      → place_keyword vs o k v before ≡ ok after
      → Keeps vs before.0 after.0 × ((i : ℕ) → o ≡ some i → after.0 i ≡ v)
  unfolding place_keyword
  place_keyword-Keeps none k v before after e =
      let same = add_keyword-slots k v before.0 before.1 after e in
      (λ i set. ap (λ f. f i) same, λ i absent. cc)
  place_keyword-Keeps (some i) k v before after e =
      let (empty, same) =
        guarded (is_nil (before.0 i)) (multiple_values k) (write vs before.0 i v, before.1) after
          e in
      (
        λ j set. ap (λ b. b.0 j) (sym same) ∙ write-Keeps vs before.0 i v empty j set,
        λ j at.
            subst (λ n. after.0 n ≡ v) (some_injective i j at)
              (ap (λ b. b.0 i) (sym same) ∙ write-same vs before.0 i v),
      )

  pub bind_keywords-Keeps :
      (params : List String) (kwargs : List (String × Value)) (before after : Bound vs)
      → All (λ kv. is_nil kv.1 ≡ false) kwargs
      → bind_keywords vs params kwargs before ≡ ok after
      → Keeps vs before.0 after.0
        × ((k : String) (v : Value) (i : ℕ)
            → In (k, v) kwargs
            → find_param params k ≡ some i
            → after.0 i ≡ v)
  unfolding bind_keywords
  bind_keywords-Keeps params [] before after given e =
      (λ i set. ap (λ b. b.0 i) (sym (ok_injective _ _ e)), λ k v i absent _. absurd absent)
  bind_keywords-Keeps params (kv ∷ kwargs) before after given e =
      let (middle, first, rest) =
        >>=-ok (place_keyword vs (find_param params kv.0) kv.0 kv.1 before)
          (λ bound. bind_keywords vs params kwargs bound) after e in
      let (kept, placed) =
        place_keyword-Keeps (find_param params kv.0) kv.0 kv.1 before middle first in
      let (kept', placed') = bind_keywords-Keeps params kwargs middle after given.1 rest in
      (
        λ i set. kept' i (ap is_nil (kept i set) ∙ set) ∙ kept i set,
        λ k v i listed at. elim listed as (λ _. after.0 i ≡ v) [
          | inl here ↦
              let at' = subst (λ n. find_param params n ≡ some i) (ap (λ p. p.0) here) at in
              let put = placed i at' in
              kept' i (ap is_nil put ∙ given.0) ∙ put ∙ sym (ap (λ p. p.1) here)
          | inr later ↦ placed' k v i later at
        ],
      )

  pub report-ok :
      (missing : List ℕ) (locals after : ℕ → Value)
      → report vs missing locals ≡ ok after
      → (missing ≡ []) × (locals ≡ after)
  report-ok [] locals after e = (refl, ok_injective locals after e)
  report-ok (i ∷ missing) locals after e = cc

  -- The defaults keep what is there, and leave no parameter without a value.
  fill_missing-ok :
      (fn : Function vs) (n : ℕ) (before after : ℕ → Value)
      → All (λ d. is_nil d ≡ false) fn.defaults
      → length fn.defaults ≤ ordinary vs fn
      → fill_missing vs fn n before ≡ ok after
      → Keeps vs before after × ((j : ℕ) → n ≤ j → j < ordinary vs fn → is_nil (after j) ≡ false)
  unfolding fill_missing
  fill_missing-ok fn n before after given fits e =
      let m = ordinary vs fn - length fn.defaults in
      let from = max n m in
      let rest = drop (from - m) fn.defaults in
      let (none_missing, same) =
        report-ok (find_missing vs (m - n) n before ++ (bind_defaults vs rest from before).1)
          (bind_defaults vs rest from before).0 after e in
      let (required, lacking) =
        both_empty (find_missing vs (m - n) n before) (bind_defaults vs rest from before).1
          none_missing in
      let kept = bind_defaults-Keeps vs rest from before in
      let count : ordinary vs fn ≤ from + length rest =
        omega (arith, length-drop (from - m) fn.defaults) in
      (
        λ i set. ap (λ f. f i) (sym same) ∙ kept i set,
        λ j low high. elim (dec_lt j m) [
          | yes less ↦
              let set = find_missing-none vs (m - n) n before required j low (omega arith) in
              ap is_nil (ap (λ f. f j) (sym same) ∙ kept j set) ∙ set
          | no not_less ↦
              ap is_nil (ap (λ f. f j) (sym same))
              ∙ bind_defaults-none vs rest from before (All-drop _ (from - m) fn.defaults given)
                  lacking j (omega arith) (omega (arith, count))
        ],
      )

  pub fill-ok :
      (fn : Function vs) (n : ℕ) (before after : ℕ → Value)
      → All (λ d. is_nil d ≡ false) fn.defaults
      → length fn.defaults ≤ ordinary vs fn
      → fill vs fn n before ≡ ok after
      → Keeps vs before after × ((j : ℕ) → n ≤ j → j < ordinary vs fn → is_nil (after j) ≡ false)
  unfolding fill
  fill-ok fn n before after given fits e =
      elim (chosen (ltb n (ordinary vs fn) || ltb 0 fn.num_kwonly) (fill_missing vs fn n before)
        (ok before) (ok after) e) [
          | inl (needed, filled) ↦ fill_missing-ok fn n before after given fits filled
          | inr (not_needed, same) ↦ (
            λ i set. ap (λ f. f i) (sym (ok_injective before after same)),
            λ j low high. absurd (ground arith),
          )
        ]

module _ (vs : Values) where
  open vs use {Value}

  -- The branches of `set_args`.
  pub data Branch (fn : Function vs) (args : List Value) (kwargs : List (String × Value))
      (locals : ℕ → Value) (r : Result (ℕ → Value)) : Type 0 where
    none_accepted :
        err (accepts_no_arguments (length args + length kwargs)) ≡ r
        → Branch fn args kwargs locals r
    nullary :
        fn.num_params ≡ 0
        → length args + length kwargs ≡ 0
        → ok locals ≡ r
        → Branch fn args kwargs locals r
    surplus :
        err (too_many_positional (nonkwonly vs fn) (length args)) ≡ r
        → Branch fn args kwargs locals r
    binding :
        (ltb (nonkwonly vs fn) (length args) && not fn.has_varargs) ≡ false
        → bind_all vs fn args kwargs locals ≡ r
        → Branch fn args kwargs locals r

  pub set_args-Branch :
      (fn : Function vs) (args : List Value) (kwargs : List (String × Value)) (locals : ℕ → Value)
      (r : Result (ℕ → Value))
      → set_args vs fn args kwargs locals ≡ r
      → Branch fn args kwargs locals r
  unfolding set_args
  set_args-Branch fn args kwargs locals r e =
      let nothing = err (accepts_no_arguments (length args + length kwargs)) in
      let too_many = err (too_many_positional (nonkwonly vs fn) (length args)) in
      let bound = bind_all vs fn args kwargs locals in
      let refused = ltb (nonkwonly vs fn) (length args) && not fn.has_varargs in
      elim (chosen (fn.num_params == 0)
        (if ltb 0 (length args + length kwargs) then nothing else ok locals)
        (if refused then too_many else bound) r e) [
          | inl (none_there, given) ↦
              elim (chosen (ltb 0 (length args + length kwargs)) nothing (ok locals) r given) [
                | inl (_, refusal) ↦ Branch.none_accepted refusal
                | inr (none_given, done) ↦ Branch.nullary (ground arith) (ground arith) done
              ]
          | inr (_, given) ↦ elim (chosen refused too_many bound r given) [
            | inl (_, refusal) ↦ Branch.surplus refusal
            | inr (accepted, done) ↦ Branch.binding accepted done
          ]
        ]
