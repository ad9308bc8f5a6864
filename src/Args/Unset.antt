-- ===== src/Args/Unset.antt =====
-- The slots without a value after the last steps of `setArgs` of starlark/eval.go.
use starlark_go.Common.Indexing.{length-drop}
use starlark_go.Common.{
  ℕ, zero, suc, ◌+◌, ◌-◌, ◌<◌, ◌≤◌, ◌≡◌, refl, sym, ap, subst, arith, Bool, true, false, ◌&&◌, ◌||◌,
  if◌then◌else◌, ltb, max, List, [], ◌∷◌, ◌++◌, length, drop, Bool-cases, inl, inr, ◌⊎◌,
}
use starlark_go.Common.Members.{In, In-append}
use starlark_go.Args.{
  Values, Function, Result, ok, err, missing_arguments, ordinary, find_missing, bind_defaults,
  report, fill_missing, fill,
}
use starlark_go.Args.Slots.{Keeps, defaulted, defaulted-Keeps}
use starlark_go.Args.Binding.{chosen}

-- An item of a list whose head may be left out.
In-left_out :
    {A : Type 0} (b : Bool) (x : A) (later : List A) (i : A)
    → In i (if b then x ∷ later else later)
    → ((b ≡ true) × (i ≡ x)) ⊎ In i later
In-left_out true x later i (inl e) = inl (refl, e)
In-left_out true x later i (inr h) = inr h
In-left_out false x later i h = inr h

both_true : (a b : Bool) → (a && b) ≡ true → a ≡ true
both_true true b e = refl
both_true false b e = e

report-err :
    (vs : Values) (missing listed : List ℕ) (locals : ℕ → vs.Value)
    → report vs missing locals ≡ err (missing_arguments listed)
    → missing ≡ listed
report-err vs [] listed locals e = cc
report-err vs (i ∷ missing) listed locals e = ap (λ r. listed_in r) e
  where
    listed_in : Result (ℕ → vs.Value) → List ℕ
    listed_in (err (missing_arguments l)) = l
    listed_in _ = []

module _ (vs : Values) where
  open vs use {Value, is_nil}

  -- A slot without a value had none before.
  nil_before :
      (before after : ℕ → Value) (i : ℕ)
      → Keeps vs before after
      → is_nil (after i) ≡ true
      → is_nil (before i) ≡ true
  nil_before before after i keeps empty = elim (Bool-cases (is_nil (before i))) [
    | inl e ↦ e
    | inr set ↦ let same = keeps i set in let e = ap is_nil same in cc
  ]

  find_missing-nil :
      (rounds from : ℕ) (locals : ℕ → Value) (i : ℕ)
      → In i (find_missing vs rounds from locals)
      → (from ≤ i) × (i < from + rounds) × (is_nil (locals i) ≡ true)
  unfolding find_missing
  find_missing-nil zero from locals i listed = absurd listed
  find_missing-nil (suc rounds) from locals i listed =
      elim (In-left_out (is_nil (locals from)) from (find_missing vs rounds (suc from) locals) i
        listed) [
          | inl (empty, here) ↦
              (omega arith, omega arith, subst (λ k. is_nil (locals k) ≡ true) (sym here) empty)
          | inr later ↦
              let (low, high, empty) = find_missing-nil rounds (suc from) locals i later in
              (omega arith, omega arith, empty)
        ]

  bind_defaults-nil :
      (defaults : List Value) (from : ℕ) (locals : ℕ → Value) (i : ℕ)
      → In i (bind_defaults vs defaults from locals).1
      → (from ≤ i) × (i < from + length defaults) × (is_nil (locals i) ≡ true)
  unfolding bind_defaults
  bind_defaults-nil [] from locals i listed = absurd listed
  bind_defaults-nil (dflt ∷ defaults) from locals i listed =
      let next = defaulted vs locals from dflt in
      elim (In-left_out (is_nil (locals from) && vs.is_mandatory dflt) from
        (bind_defaults vs defaults (suc from) next).1 i listed) [
          | inl (lacks, here) ↦ (
            omega arith,
            omega arith,
            subst (λ k. is_nil (locals k) ≡ true) (sym here) (both_true _ _ lacks),
          )
          | inr later ↦
              let (low, high, empty) = bind_defaults-nil defaults (suc from) next i later in
              (
                omega arith,
                omega arith,
                nil_before locals next i (defaulted-Keeps vs locals from dflt) empty,
              )
        ]

  fill_missing-nil :
      (fn : Function vs) (n : ℕ) (locals : ℕ → Value) (listed : List ℕ)
      → n ≤ ordinary vs fn
      → length fn.defaults ≤ ordinary vs fn
      → fill_missing vs fn n locals ≡ err (missing_arguments listed)
      → (i : ℕ) → In i listed
      → (n ≤ i) × (i < ordinary vs fn) × (is_nil (locals i) ≡ true)
  unfolding fill_missing
  fill_missing-nil fn n locals listed few fits e i here =
      let m = ordinary vs fn - length fn.defaults in
      let from = max n m in
      let rest = drop (from - m) fn.defaults in
      let required = find_missing vs (m - n) n locals in
      let filled = bind_defaults vs rest from locals in
      let same = report-err vs (required ++ filled.1) listed filled.0 e in
      let count : from + length rest ≡ ordinary vs fn =
        omega (arith, length-drop (from - m) fn.defaults) in
      elim (In-append i required filled.1 (subst (In i) (sym same) here)) [
        | inl early ↦
            let (low, high, empty) = find_missing-nil (m - n) n locals i early in
            (low, omega arith, empty)
        | inr late ↦
            let (low, high, empty) = bind_defaults-nil rest from locals i late in
            (omega arith, omega (arith, count, high), empty)
      ]

  pub fill-nil :
      (fn : Function vs) (n : ℕ) (locals : ℕ → Value) (listed : List ℕ)
      → n ≤ ordinary vs fn
      → length fn.defaults ≤ ordinary vs fn
      → fill vs fn n locals ≡ err (missing_arguments listed)
      → (i : ℕ) → In i listed
      → (n ≤ i) × (i < ordinary vs fn) × (is_nil (locals i) ≡ true)
  unfolding fill
  fill-nil fn n locals listed few fits e =
      elim (chosen (ltb n (ordinary vs fn) || ltb 0 fn.num_kwonly) (fill_missing vs fn n locals)
        (ok locals) (err (missing_arguments listed)) e) [
          | inl (_, reported) ↦ fill_missing-nil fn n locals listed few fits reported
          | inr (_, done) ↦ λ i here. cc
        ]
