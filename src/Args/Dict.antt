-- ===== src/Args/Dict.antt =====
-- The dict that `setArgs` of starlark/eval.go makes for `**kwargs`.
use Prim.Native.String.{String}
use text.Mathlib.Text.{◌==◌ as str_eq}
use starlark_go.Common.{
  ℕ, ◌+◌, ◌-◌, ◌≡◌, refl, sym, ap, ◌∙◌, subst, arith, Bool, true, false, if◌then◌else◌, List, [],
  ◌∷◌, ◌++◌, append_assoc, append-nil, Option, none, some, take, All,
}
use starlark_go.Args.{
  Values, Function, Result, ok, err, multiple_values, write, ordinary, taken, bind_args, Bound,
  add_key, add_keyword, place_keyword, bind_keywords, find_param, fill, keep_dict, entries_of,
  bind_all, set_args,
}
use starlark_go.Args.Names.{has_name, is_found, find_param-has_name}
use starlark_go.Args.Slots.{write-same, some_injective}
use starlark_go.Args.Binding.{Branch, set_args-Branch, >>=-ok, guarded, ok_injective, fill-ok}
use starlark_go.Args.Places.{Valid, ordinary_lem, if_true}

module _ {V : Type 0} where
  -- No two items have the same key.
  abbrev pub Distinct : List (String × V) → Type 0
  Distinct [] = Unit {0}
  Distinct ((k, v) ∷ entries) = All (λ kv. str_eq k kv.0 ≡ false) entries × Distinct entries

  -- The keyword arguments that no parameter is named after.
  unfoldable pub unnamed : List String → List (String × V) → List (String × V)
  unfolding has_name
  unnamed params [] = []
  unnamed params ((k, v) ∷ kwargs) =
      let rest = unnamed params kwargs in if has_name params k then rest else (k, v) ∷ rest

  All-snoc :
      (P : String × V → Type 0) (entries : List (String × V)) (kv : String × V)
      → All P entries
      → P kv
      → All P (entries ++ kv ∷ [])
  All-snoc P [] kv ps p = (p, tt)
  All-snoc P (e ∷ entries) kv ps p = (ps.0, All-snoc P entries kv ps.1 p)

  Distinct-snoc :
      (entries : List (String × V)) (kv : String × V)
      → Distinct entries
      → All (λ e. str_eq e.0 kv.0 ≡ false) entries
      → Distinct (entries ++ kv ∷ [])
  Distinct-snoc [] kv d fresh = (tt, tt)
  Distinct-snoc (e ∷ entries) kv d fresh =
      (All-snoc _ entries kv d.0 fresh.0, Distinct-snoc entries kv d.1 fresh.1)

  consed :
      (b : Bool) (o : Option (List (String × V))) (head : String × V) (entries : List (String × V))
      → (if b then none else elim o as (λ _. Option (List (String × V))) [
        | none ↦ none
        | some tail ↦ some (head ∷ tail)
      ])
        ≡ some entries
      → (b ≡ false) × ((tail : List (String × V)) × (o ≡ some tail) × (head ∷ tail ≡ entries))
  consed true o head entries e = cc
  consed false none head entries e = cc
  consed false (some tail) head entries e = (refl, (tail, refl, some_injective _ _ e))

module _ (vs : Values) where
  open vs use {Value, is_nil}

  -- A key that is added is a new one, and goes to the end.
  add_key-snoc :
      (entries entries' : List (String × Value)) (k : String) (v : Value)
      → add_key vs entries k v ≡ some entries'
      → (entries' ≡ entries ++ (k, v) ∷ []) × All (λ e. str_eq e.0 k ≡ false) entries
  unfolding add_key
  add_key-snoc [] entries' k v e = (sym (some_injective _ _ e), tt)
  add_key-snoc (kv ∷ entries) entries' k v e =
      let (other, (tail, found, same)) =
        consed (str_eq kv.0 k) (add_key vs entries k v) kv entries' e in
      let (snoc, fresh) = add_key-snoc entries tail k v found in
      (sym same ∙ ap (λ l. kv ∷ l) snoc, (other, fresh))

  added-dict :
      (o : Option (List (String × Value))) (k : String) (locals : ℕ → Value) (after : Bound vs)
      → elim o as (λ _. Result (Bound vs)) [
        | none ↦ err (multiple_values k)
        | some entries ↦ ok (locals, some entries)
      ]
        ≡ ok after
      → (entries : List (String × Value)) × (o ≡ some entries) × (after.1 ≡ some entries)
  added-dict none k locals after e = cc
  added-dict (some entries) k locals after e =
      (entries, refl, ap (λ b. b.1) (sym (ok_injective _ after e)))

  -- What one keyword argument does to the dict.
  place_keyword-dict :
      (o : Option ℕ) (k : String) (v : Value) (before after : Bound vs)
      (entries : List (String × Value))
      → place_keyword vs o k v before ≡ ok after
      → before.1 ≡ some entries
      → Distinct entries
      → (entries' : List (String × Value)) × (after.1 ≡ some entries')
        × Distinct entries'
        × (entries' ≡ elim o as (λ _. List (String × Value)) [
          | none ↦ entries ++ (k, v) ∷ []
          | some i ↦ entries
        ])
  unfolding place_keyword add_keyword
  place_keyword-dict none k v before after entries e had distinct =
      let e' = subst (λ d. add_keyword vs k v before.0 d ≡ ok after) had e in
      let (entries', added, now) = added-dict (add_key vs entries k v) k before.0 after e' in
      let (snoc, fresh) = add_key-snoc entries entries' k v added in
      (entries', now, subst Distinct (sym snoc) (Distinct-snoc entries (k, v) distinct fresh), snoc)
  place_keyword-dict (some i) k v before after entries e had distinct =
      let (empty, same) =
        guarded (is_nil (before.0 i)) (multiple_values k) (write vs before.0 i v, before.1) after
          e in
      (entries, ap (λ b. b.1) (sym same) ∙ had, distinct, refl)

  unnamed_step :
      (o : Option ℕ) (b : Bool) (kv : String × Value) (entries rest : List (String × Value))
      → is_found o ≡ b
      → elim o as (λ _. List (String × Value)) [ none ↦ entries ++ kv ∷ [] | some i ↦ entries ]
          ++ rest
        ≡ entries ++ (if b then rest else kv ∷ rest)
  unnamed_step none false kv entries rest e = append_assoc entries (kv ∷ []) rest
  unnamed_step none true kv entries rest e = cc
  unnamed_step (some i) true kv entries rest e = refl
  unnamed_step (some i) false kv entries rest e = cc

  bind_keywords-dict :
      (params : List String) (kwargs : List (String × Value)) (before after : Bound vs)
      (entries : List (String × Value))
      → bind_keywords vs params kwargs before ≡ ok after
      → before.1 ≡ some entries
      → Distinct entries
      → (after.1 ≡ some (entries ++ unnamed params kwargs))
        × Distinct (entries ++ unnamed params kwargs)
  unfolding bind_keywords unnamed
  bind_keywords-dict params [] before after entries e had distinct =
      let same = append-nil entries in
      (
        ap (λ b. b.1) (sym (ok_injective _ _ e)) ∙ had ∙ ap some (sym same),
        subst Distinct (sym same) distinct,
      )
  bind_keywords-dict params (kv ∷ kwargs) before after entries e had distinct =
      let o = find_param params kv.0 in
      let (middle, first, rest) =
        >>=-ok (place_keyword vs o kv.0 kv.1 before) (λ b. bind_keywords vs params kwargs b) after
          e in
      let (entries', now, distinct', step) =
        place_keyword-dict o kv.0 kv.1 before middle entries first had distinct in
      let (filled, last) =
        bind_keywords-dict params kwargs middle after entries' rest now distinct' in
      let same =
        ap (λ l. l ++ unnamed params kwargs) step
        ∙ unnamed_step o (has_name params kv.0) kv entries (unnamed params kwargs)
            (find_param-has_name params kv.0) in
      (filled ∙ ap some same, subst Distinct same last)

  bind_all-dict :
      (fn : Function vs) (args : List Value) (kwargs : List (String × Value))
      (locals after : ℕ → Value) (p : ℕ)
      → Valid vs fn p
      → ((entries : List (String × Value)) → is_nil (vs.dict entries) ≡ false)
      → fn.has_kwargs ≡ true
      → bind_all vs fn args kwargs locals ≡ ok after
      → (after (fn.num_params - 1) ≡ vs.dict (unnamed (take (p + fn.num_kwonly) fn.params) kwargs))
        × Distinct (unnamed (take (p + fn.num_kwonly) fn.params) kwargs)
  unfolding bind_all keep_dict
  bind_all-dict fn args kwargs locals after p valid dict_set has e =
      let count = ordinary_lem vs fn p valid in
      let params = take (ordinary vs fn) fn.params in
      let last = fn.num_params - 1 in
      let before : Bound vs =
        (bind_args vs fn args locals, if fn.has_kwargs then some [] else none) in
      let (bound, keywords, filled) =
        >>=-ok (bind_keywords vs params kwargs before)
          (λ b. fill vs fn (taken vs fn args) (keep_dict vs fn b)) after e in
      let (entries, distinct) =
        bind_keywords-dict params kwargs before bound [] keywords
          (if_true fn.has_kwargs (some []) none has) tt in
      let written = write vs bound.0 last (vs.dict (entries_of vs bound.1)) in
      let kept =
        ap (λ f. f last) (if_true fn.has_kwargs written bound.0 has)
        ∙ write-same vs bound.0 last (vs.dict (entries_of vs bound.1))
        ∙ ap (λ o. vs.dict (entries_of vs o)) entries in
      let (keeps, complete) =
        fill-ok vs fn (taken vs fn args) (keep_dict vs fn bound) after valid.defaults_set
          (omega (arith, count, valid.defaults_fit)) filled in
      subst
        (λ n.
          (after last ≡ vs.dict (unnamed (take n fn.params) kwargs))
          × Distinct (unnamed (take n fn.params) kwargs))
        count (keeps last (ap is_nil kept ∙ dict_set (unnamed params kwargs)) ∙ kept, distinct)

  -- When `setArgs` of a function with `**kwargs` reports no error, the dict there holds the keyword
  -- arguments that no parameter is named after, in their order, and no two of them have the same name.
  -- A dict is no nil value, and the function is as the code generator makes it.
  pub set_args-Distinct :
      (fn : Function vs) (args : List Value) (kwargs : List (String × Value))
      (locals after : ℕ → Value) (p : ℕ)
      → Valid vs fn p
      → ((entries : List (String × Value)) → is_nil (vs.dict entries) ≡ false)
      → fn.has_kwargs ≡ true
      → set_args vs fn args kwargs locals ≡ ok after
      → (after (fn.num_params - 1) ≡ vs.dict (unnamed (take (p + fn.num_kwonly) fn.params) kwargs))
        × Distinct (unnamed (take (p + fn.num_kwonly) fn.params) kwargs)
  set_args-Distinct fn args kwargs locals after p valid dict_set has e =
      elim (set_args-Branch vs fn args kwargs locals (ok after) e) [
        | Branch.none_accepted refusal ↦ cc
        | Branch.nullary none_there _ _ ↦ let counted = valid.counted in absurd (ground arith)
        | Branch.surplus refusal ↦ cc
        | Branch.binding _ done ↦
            bind_all-dict fn args kwargs locals after p valid dict_set has done
      ]
