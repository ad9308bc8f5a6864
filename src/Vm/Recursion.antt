-- ===== src/Vm/Recursion.antt =====
-- The check against recursion at the start of `CallInternal` in starlark/interp.go, and the call
-- stacks that it lets a thread reach. A frame is known by its callable: the code of a Starlark
-- function, by its address, or none for a callable of another kind.
use starlark_go.Common.{
  ℕ, suc, ◌+◌, ◌≤◌, ◌≡◌, refl, sym, ap, subst, arith, Bool, true, false, if◌then◌else◌, List, [],
  ◌∷◌, Option, none, some, length, ltb, ◌==◌, ==_iff, inl, inr, Bool-cases,
}

-- `fr.Callable().(*Function)` with the code `f` in one of the frames.
unfoldable pub is_running : ℕ → List (Option ℕ) → Bool
is_running f [] = false
is_running f (none ∷ frames) = is_running f frames
is_running f (some g ∷ frames) = if g == f then true else is_running f frames

pub data Check : Type 0 where
  passed stack_overflow called_recursively : Check

-- `callers` are the frames of `thread.stack` below the new one, the innermost first. `recursion` is
-- the program's flag.
unfoldable pub check_recursion : Bool → ℕ → List (Option ℕ) → Check
unfolding is_running
check_recursion recursion f callers =
    if recursion
    then (if ltb 100000 (length callers + 1) then stack_overflow else passed)
    else (if is_running f callers then called_recursively else passed)

module _ (recursion : ℕ → Bool) where
  -- `Call` pushes a frame, in which a Starlark function starts when the check has passed, and pops it.
  pub data Step : List (Option ℕ) → List (Option ℕ) → Type 0 where
    call_function :
        {f : ℕ} {stack : List (Option ℕ)}
        → check_recursion (recursion f) f stack ≡ passed
        → Step stack (some f ∷ stack)
    call_other : {stack : List (Option ℕ)} → Step stack (none ∷ stack)
    finish : {frame : Option ℕ} {stack : List (Option ℕ)} → Step (frame ∷ stack) stack

  pub data Reaches : List (Option ℕ) → Type 0 where
    start : Reaches []
    then_step : {s t : List (Option ℕ)} → Reaches s → Step s t → Reaches t

-- How often the code runs.
unfoldable pub activations : ℕ → List (Option ℕ) → ℕ
activations f [] = 0
activations f (none ∷ frames) = activations f frames
activations f (some g ∷ frames) =
    if g == f then suc (activations f frames) else activations f frames

idle : (f : ℕ) (frames : List (Option ℕ)) → is_running f frames ≡ false → activations f frames ≡ 0
unfolding is_running activations
idle f [] e = refl
idle f (none ∷ frames) e = idle f frames e
idle f (some g ∷ frames) e = ground (arith, idle f frames)

module _ (recursion : ℕ → Bool) where
  -- The check held for every function that runs, against the frames below it.
  abbrev Guarded : List (Option ℕ) → Type 0
  Guarded [] = Unit {0}
  Guarded (none ∷ callers) = Guarded callers
  Guarded (some f ∷ callers) =
      (recursion f ≡ true → length callers + 1 ≤ 100000)
      × (recursion f ≡ false → is_running f callers ≡ false)
      × Guarded callers

  abbrev pub OneAtMost : List (Option ℕ) → Type 0
  OneAtMost stack = (f : ℕ) → recursion f ≡ false → activations f stack ≤ 1

  -- A recursive program's function that runs has no more than that many frames up to its own.
  abbrev pub Shallow : List (Option ℕ) → Type 0
  Shallow stack =
      (f : ℕ) (callers : List (Option ℕ))
      → stack ≡ some f ∷ callers
      → recursion f ≡ true
      → length stack ≤ 100000

module _ (recursion : ℕ → Bool) where
  check-Guarded :
      (f : ℕ) (callers : List (Option ℕ))
      → check_recursion (recursion f) f callers ≡ passed
      → Guarded recursion callers
      → Guarded recursion (some f ∷ callers)
  unfolding check_recursion
  check-Guarded f callers pass below =
      (λ on. ground (arith, pass, on), λ off. ground (arith, pass, off), below)

  Step-Guarded :
      (s t : List (Option ℕ)) → Step recursion s t → Guarded recursion s → Guarded recursion t
  Step-Guarded s _ (Step.call_function pass) g = check-Guarded _ s pass g
  Step-Guarded s _ Step.call_other g = g
  Step-Guarded (none ∷ s) _ Step.finish g = g
  Step-Guarded (some f ∷ s) _ Step.finish g = g.2

  Reaches-Guarded : (s : List (Option ℕ)) → Reaches recursion s → Guarded recursion s
  Reaches-Guarded _ Reaches.start = tt
  Reaches-Guarded t (Reaches.then_step {s} r step) = Step-Guarded s t step (Reaches-Guarded s r)

  Guarded-OneAtMost : (s : List (Option ℕ)) → Guarded recursion s → OneAtMost recursion s
  unfolding activations
  Guarded-OneAtMost [] g f off = omega arith
  Guarded-OneAtMost (none ∷ s) g f off = Guarded-OneAtMost s g f off
  Guarded-OneAtMost (some k ∷ s) g f off = elim (Bool-cases (k == f)) [
    | inl same ↦
        let e = (==_iff k f).0 same in
        let gone = idle k s (g.1 (subst (λ n. recursion n ≡ false) (sym e) off)) in
        rw same (omega (arith, ap (λ n. activations n s) e, gone))
    | inr other ↦ rw other (Guarded-OneAtMost s g.2 f off)
  ]

  Guarded-Shallow : (s : List (Option ℕ)) → Guarded recursion s → Shallow recursion s
  Guarded-Shallow s g f callers e on =
      let below = subst (Guarded recursion) e g in omega (arith, below.0 on, ap length e)

  -- On every call stack that a thread reaches, the code of a function of a program without recursion
  -- runs at most once; and where a function of a program with recursion runs on top, the stack has at
  -- most 100000 frames.
  pub Reaches-OneAtMost :
      (s : List (Option ℕ)) → Reaches recursion s → OneAtMost recursion s × Shallow recursion s
  Reaches-OneAtMost s r =
      let g = Reaches-Guarded s r in (Guarded-OneAtMost s g, Guarded-Shallow s g)
