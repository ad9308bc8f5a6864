-- ===== src/Args/Defaults.antt =====
-- The defaults that `setArgs` of starlark/eval.go gives to the parameters without an argument.
use Prim.Native.String.{String}
use starlark_go.Common.{
  ℕ, zero, suc, ◌+◌, ◌-◌, ◌<◌, ◌≤◌, ◌≡◌, refl, sym, ap, ◌∙◌, subst, arith, Bool, true, false, not,
  ◌&&◌, ◌||◌, if◌then◌else◌, ltb, max, List, [], ◌∷◌, ◌++◌, none, some, length, take, drop,
  get_elem?, dec_lt, inl, inr, All,
}
use starlark_go.Common.Indexing.{All-drop}
use starlark_go.Args.{
  Values, Function, ok, write, ordinary, nonkwonly, taken, bind_args, Bound, bind_keywords,
  find_missing, bind_defaults, fill_missing, fill, keep_dict, bind_all,
}
use starlark_go.Args.Slots.{
  write-same, write-other, left_out, defaulted, bind_defaults-Keeps, some_injective,
}
use starlark_go.Args.Binding.{>>=-ok, chosen, both_empty, report-ok}
use starlark_go.Args.Untouched.{bind_args-other, bind_keywords-other}
use starlark_go.Args.Places.{
  Valid, Ungiven, ordinary_lem, nonkwonly_lem, keep_dict-other, ordinary-last, find_param-named,
}

get_elem?-drop :
    {A : Type 0} (n t : ℕ) (xs : List A) → get_elem? (drop n xs) t ≡ get_elem? xs (n + t)
get_elem?-drop zero t xs = let e : t ≡ 0 + t = omega arith in ap (λ k. get_elem? xs k) e
get_elem?-drop (suc n) t [] = refl
get_elem?-drop (suc n) t (x ∷ xs) =
    let e : suc (n + t) ≡ suc n + t = omega arith in
    get_elem?-drop n t xs ∙ ap (λ k. get_elem? (x ∷ xs) k) e

module _ (vs : Values) where
  open vs use {Value, is_nil}

  -- A default that is no sentinel goes to the slot without a value.
  defaulted-here :
      (u m : Bool) (locals : ℕ → Value) (i : ℕ) (dflt : Value)
      → u ≡ true
      → (u && m) ≡ false
      → (if u && not m then write vs locals i dflt else locals) i ≡ dflt
  defaulted-here true false locals i dflt empty e = write-same vs locals i dflt
  defaulted-here true true locals i dflt empty e = cc
  defaulted-here false m locals i dflt empty e = cc

  -- The other slots stay.
  defaulted-other :
      (b : Bool) (locals : ℕ → Value) (i j : ℕ) (dflt : Value)
      → ¬ (j ≡ i)
      → (if b then write vs locals i dflt else locals) j ≡ locals j
  defaulted-other true locals i j dflt differ = write-other vs locals i j dflt differ
  defaulted-other false locals i j dflt differ = refl

  bind_defaults-get :
      (defaults : List Value) (i t : ℕ) (locals : ℕ → Value) (d : Value)
      → All (λ d. is_nil d ≡ false) defaults
      → (bind_defaults vs defaults i locals).1 ≡ []
      → is_nil (locals (i + t)) ≡ true
      → get_elem? defaults t ≡ some d
      → (bind_defaults vs defaults i locals).0 (i + t) ≡ d
  unfolding bind_defaults
  bind_defaults-get [] i t locals d given e empty at = cc
  bind_defaults-get (dflt ∷ defaults) i zero locals d given e empty at =
      let next = defaulted vs locals i dflt in
      let (has, rest) =
        left_out (is_nil (locals i) && vs.is_mandatory dflt) i
          (bind_defaults vs defaults (suc i) next).1 e in
      let here : i + 0 ≡ i = omega arith in
      let empty' = subst (λ k. is_nil (locals k) ≡ true) here empty in
      let put =
        defaulted-here (is_nil (locals i)) (vs.is_mandatory dflt) locals i dflt empty' has in
      let after = (bind_defaults vs defaults (suc i) next).0 in
      ap after here
      ∙ bind_defaults-Keeps vs defaults (suc i) next i (ap is_nil put ∙ given.0)
      ∙ put
      ∙ some_injective dflt d at
  bind_defaults-get (dflt ∷ defaults) i (suc t) locals d given e empty at =
      let next = defaulted vs locals i dflt in
      let (has, rest) =
        left_out (is_nil (locals i) && vs.is_mandatory dflt) i
          (bind_defaults vs defaults (suc i) next).1 e in
      let there : suc i + t ≡ i + suc t = omega arith in
      let same =
        defaulted-other (is_nil (locals i) && not (vs.is_mandatory dflt)) locals i (suc i + t) dflt
          (λ q. omega (arith, q)) in
      let empty' = ap is_nil (same ∙ ap locals there) ∙ empty in
      let after = (bind_defaults vs defaults (suc i) next).0 in
      ap after (sym there) ∙ bind_defaults-get defaults (suc i) t next d given.1 rest empty' at

  fill_missing-default :
      (fn : Function vs) (n : ℕ) (before after : ℕ → Value) (i t : ℕ) (d : Value)
      → All (λ d. is_nil d ≡ false) fn.defaults
      → length fn.defaults ≤ ordinary vs fn
      → fill_missing vs fn n before ≡ ok after
      → n ≤ i
      → i + length fn.defaults ≡ ordinary vs fn + t
      → is_nil (before i) ≡ true
      → get_elem? fn.defaults t ≡ some d
      → after i ≡ d
  unfolding fill_missing
  fill_missing-default fn n before after i t d given fits e low place empty at =
      let m = ordinary vs fn - length fn.defaults in
      let from = max n m in
      let rest = drop (from - m) fn.defaults in
      let (none_missing, same) =
        report-ok vs (find_missing vs (m - n) n before ++ (bind_defaults vs rest from before).1)
          (bind_defaults vs rest from before).0 after e in
      let (required, lacking) =
        both_empty (find_missing vs (m - n) n before) (bind_defaults vs rest from before).1
          none_missing in
      let s = i - from in
      let here : from + s ≡ i = omega (arith, place) in
      let at' : get_elem? rest s ≡ some d =
        get_elem?-drop (from - m) s fn.defaults
        ∙ ap (λ k. get_elem? fn.defaults k) (omega (arith, place))
        ∙ at in
      let got =
        bind_defaults-get rest from s before d (All-drop _ (from - m) fn.defaults given) lacking
          (ap (λ k. is_nil (before k)) here ∙ empty) at' in
      ap (λ f. f i) (sym same) ∙ ap (bind_defaults vs rest from before).0 (sym here) ∙ got

  fill-default :
      (fn : Function vs) (n : ℕ) (before after : ℕ → Value) (i t : ℕ) (d : Value)
      → All (λ d. is_nil d ≡ false) fn.defaults
      → length fn.defaults ≤ ordinary vs fn
      → fill vs fn n before ≡ ok after
      → n ≤ i
      → i < ordinary vs fn
      → i + length fn.defaults ≡ ordinary vs fn + t
      → is_nil (before i) ≡ true
      → get_elem? fn.defaults t ≡ some d
      → after i ≡ d
  unfolding fill
  fill-default fn n before after i t d given fits e low high place empty at =
      elim (chosen (ltb n (ordinary vs fn) || ltb 0 fn.num_kwonly) (fill_missing vs fn n before)
        (ok before) (ok after) e) [
          | inl (needed, filled) ↦
              fill_missing-default fn n before after i t d given fits filled low place empty at
          | inr (not_needed, same) ↦ absurd (ground arith)
        ]

  late :
      (fn : Function vs) (args : List Value) (i p : ℕ)
      → nonkwonly vs fn ≡ p
      → (i < p → length args ≤ i)
      → taken vs fn args ≤ i
  unfolding taken
  late fn args i p count free = elim (dec_lt i p) [
    | yes less ↦ let few = free less in ground arith
    | no not_less ↦ ground arith
  ]

  -- A parameter without an argument holds its default.
  pub bind_all-default :
      (fn : Function vs) (args : List Value) (kwargs : List (String × Value))
      (locals after : ℕ → Value) (p i t : ℕ) (d : Value)
      → Valid vs fn p
      → bind_all vs fn args kwargs locals ≡ ok after
      → Ungiven vs fn p args kwargs i
      → is_nil (locals i) ≡ true
      → i + length fn.defaults ≡ p + fn.num_kwonly + t
      → get_elem? fn.defaults t ≡ some d
      → after i ≡ d
  unfolding bind_all
  bind_all-default fn args kwargs locals after p i t d valid e un empty place at =
      let count = ordinary_lem vs fn p valid in
      let params = take (ordinary vs fn) fn.params in
      let start = bind_args vs fn args locals in
      let before : Bound vs = (start, if fn.has_kwargs then some [] else none) in
      let (bound, keywords, filled) =
        >>=-ok (bind_keywords vs params kwargs before)
          (λ b. fill vs fn (taken vs fn args) (keep_dict vs fn b)) after e in
      let high : i < ordinary vs fn = omega (arith, count, un.is_parameter) in
      let low = late fn args i p (nonkwonly_lem vs fn p valid) un.not_positional in
      let same =
        keep_dict-other vs fn bound i (ordinary-last vs fn i p valid high)
        ∙ bind_keywords-other vs params kwargs before bound i keywords
            (λ k v listed found. un.not_named k v listed (find_param-named vs fn i k found))
        ∙ bind_args-other vs fn args locals i low high in
      fill-default fn (taken vs fn args) (keep_dict vs fn bound) after i t d valid.defaults_set
        (omega (arith, count, valid.defaults_fit)) filled low high (omega (arith, count, place))
        (ap is_nil same ∙ empty) at
