-- ===== src/Args/Slots.antt =====
-- What the loops of `setArgs` in starlark/eval.go write, and what they leave alone.
use starlark_go.Common.{
  ℕ, zero, suc, ◌+◌, ◌<◌, ◌≤◌, ◌≡◌, refl, ap, ◌∙◌, subst, arith, Bool, true, false, not, ◌&&◌,
  if◌then◌else◌, List, [], ◌∷◌, none, some, length, get_elem?, ◌==◌, ==_iff, Bool-cases, inl, inr,
  All, dec_lt,
}
use starlark_go.Args.{Values, write, bind_positional, find_missing, bind_defaults}

pub some_injective : {A : Type 0} (a b : A) → some a ≡ some b → a ≡ b
some_injective a b e = ap (λ o. elim o [ none ↦ a | some c ↦ c ]) e

-- An item that may be left out, in a list that is empty.
pub left_out :
    {A : Type 0} (b : Bool) (x : A) (later : List A)
    → (if b then x ∷ later else later) ≡ []
    → (b ≡ false) × (later ≡ [])
left_out true x later e = cc
left_out false x later e = (refl, e)

module _ (vs : Values) where
  open vs use {Value, is_nil}

  -- A slot with a value keeps it.
  abbrev pub Keeps : (ℕ → Value) → (ℕ → Value) → Type 0
  Keeps before after = (i : ℕ) → is_nil (before i) ≡ false → after i ≡ before i

  pub write-same : (locals : ℕ → Value) (i : ℕ) (v : Value) → write vs locals i v i ≡ v
  write-same locals i v = rw ((==_iff i i).1 refl) refl

  pub write-other :
      (locals : ℕ → Value) (i j : ℕ) (v : Value) → ¬ (j ≡ i) → write vs locals i v j ≡ locals j
  write-other locals i j v differ = elim (Bool-cases (j == i)) [
    | inl same ↦ absurd (differ ((==_iff j i).0 same))
    | inr other ↦ rw other refl
  ]

  -- A write to an empty slot keeps the others.
  pub write-Keeps :
      (locals : ℕ → Value) (i : ℕ) (v : Value)
      → is_nil (locals i) ≡ true
      → Keeps locals (write vs locals i v)
  write-Keeps locals i v empty j set =
      write-other locals i j v (λ e. let set' = subst (λ k. is_nil (locals k) ≡ false) e set in cc)

  pub bind_positional-below :
      (args : List Value) (i j : ℕ) (locals : ℕ → Value)
      → j < i
      → bind_positional vs args i locals j ≡ locals j
  unfolding bind_positional
  bind_positional-below [] i j locals less = refl
  bind_positional-below (a ∷ args) i j locals less =
      bind_positional-below args (suc i) j (write vs locals i a) (omega arith)
      ∙ write-other locals i j a (λ e. omega arith)

  pub bind_positional-get :
      (args : List Value) (i j : ℕ) (locals : ℕ → Value) (a : Value)
      → get_elem? args j ≡ some a
      → bind_positional vs args i locals (i + j) ≡ a
  unfolding bind_positional
  bind_positional-get [] i j locals a e = cc
  bind_positional-get (b ∷ args) i zero locals a e =
      subst (λ k. bind_positional vs args (suc i) (write vs locals i b) k ≡ a) (omega arith)
        (bind_positional-below args (suc i) i (write vs locals i b) (omega arith)
          ∙ write-same locals i b
          ∙ some_injective b a e)
  bind_positional-get (b ∷ args) i (suc j) locals a e =
      subst (λ k. bind_positional vs args (suc i) (write vs locals i b) k ≡ a) (omega arith)
        (bind_positional-get args (suc i) j (write vs locals i b) a e)

  pub find_missing-none :
      (rounds i : ℕ) (locals : ℕ → Value)
      → find_missing vs rounds i locals ≡ []
      → (j : ℕ) → i ≤ j
      → j < i + rounds
      → is_nil (locals j) ≡ false
  unfolding find_missing
  find_missing-none zero i locals e j low high = absurd (omega arith)
  find_missing-none (suc rounds) i locals e j low high =
      let (set, rest) = left_out (is_nil (locals i)) i (find_missing vs rounds (suc i) locals) e in
      elim (dec_lt i j) [
        | yes less ↦ find_missing-none rounds (suc i) locals rest j (omega arith) (omega arith)
        | no not_less ↦
            let same : i ≡ j = omega arith in subst (λ k. is_nil (locals k) ≡ false) same set
      ]

  -- One round of the loop over the defaults.
  abbrev pub defaulted : (ℕ → Value) → ℕ → Value → ℕ → Value
  defaulted locals i dflt =
      if is_nil (locals i) && not (vs.is_mandatory dflt) then write vs locals i dflt else locals

  guarded-Keeps :
      (b : Bool) (locals : ℕ → Value) (i : ℕ) (dflt : Value)
      → (b ≡ true → is_nil (locals i) ≡ true)
      → Keeps locals (if b then write vs locals i dflt else locals)
  guarded-Keeps true locals i dflt empty j set = write-Keeps locals i dflt (empty refl) j set
  guarded-Keeps false locals i dflt empty j set = refl

  pub left_true : (a b : Bool) → (a && b) ≡ true → a ≡ true
  left_true true b e = refl
  left_true false b e = e

  pub defaulted-Keeps :
      (locals : ℕ → Value) (i : ℕ) (dflt : Value) → Keeps locals (defaulted locals i dflt)
  defaulted-Keeps locals i dflt =
      guarded-Keeps (is_nil (locals i) && not (vs.is_mandatory dflt)) locals i dflt
        (left_true (is_nil (locals i)) (not (vs.is_mandatory dflt)))

  -- A default that is no sentinel gives the slot a value, where it had none.
  defaulted_at :
      (u m : Bool) (locals : ℕ → Value) (i : ℕ) (dflt : Value)
      → is_nil (locals i) ≡ u
      → (u && m) ≡ false
      → is_nil dflt ≡ false
      → is_nil ((if u && not m then write vs locals i dflt else locals) i) ≡ false
  defaulted_at true true locals i dflt empty e given = cc
  defaulted_at true false locals i dflt empty e given = ap is_nil (write-same locals i dflt) ∙ given
  defaulted_at false m locals i dflt empty e given = empty

  pub bind_defaults-Keeps :
      (defaults : List Value) (i : ℕ) (locals : ℕ → Value)
      → Keeps locals (bind_defaults vs defaults i locals).0
  unfolding bind_defaults
  bind_defaults-Keeps [] i locals j set = refl
  bind_defaults-Keeps (dflt ∷ defaults) i locals j set =
      let kept = defaulted-Keeps locals i dflt j set in
      bind_defaults-Keeps defaults (suc i) (defaulted locals i dflt) j (ap is_nil kept ∙ set) ∙ kept

  pub bind_defaults-none :
      (defaults : List Value) (i : ℕ) (locals : ℕ → Value)
      → All (λ d. is_nil d ≡ false) defaults
      → (bind_defaults vs defaults i locals).1 ≡ []
      → (j : ℕ) → i ≤ j
      → j < i + length defaults
      → is_nil ((bind_defaults vs defaults i locals).0 j) ≡ false
  unfolding bind_defaults
  bind_defaults-none [] i locals given e j low high = absurd (omega arith)
  bind_defaults-none (dflt ∷ defaults) i locals given e j low high =
      let next = defaulted locals i dflt in
      let (has, rest) =
        left_out (is_nil (locals i) && vs.is_mandatory dflt) i
          (bind_defaults vs defaults (suc i) next).1 e in
      elim (dec_lt i j) [
        | yes less ↦
            bind_defaults-none defaults (suc i) next given.1 rest j (omega arith) (omega arith)
        | no not_less ↦
            let same : i ≡ j = omega arith in
            let set =
              defaulted_at (is_nil (locals i)) (vs.is_mandatory dflt) locals i dflt refl has
                given.0 in
            subst (λ k. is_nil ((bind_defaults vs defaults (suc i) next).0 k) ≡ false) same
              (ap is_nil (bind_defaults-Keeps defaults (suc i) next i set) ∙ set)
      ]
