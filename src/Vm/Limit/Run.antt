-- ===== src/Vm/Limit/Run.antt =====
-- The loop of starlark/interp.go is over when the thread's steps are used up.
use Prim.Native.String.{String}
use starlark_go.Common.{
  ℕ, zero, suc, ◌+◌, ◌%◌, ◌^◌, ◌<◌, ◌≤◌, ◌≡◌, refl, sym, subst, arith, Bool, true, false, leb,
  if◌then◌else◌, List, Option, none, some,
}
use starlark_go.Compile.Opcode.{opcode}
use starlark_go.Vm.{Host, Thread, Function, Frame, Next, next, failed, panicked}
use starlark_go.Vm.Machine.{cancel, count, tick, fetch, cycle, finish, run}
use starlark_go.Vm.Limit.{Onward, Option-Onward, known-Onward}
use starlark_go.Vm.Limit.Steps.{Within, Limited, Over, step-Onward}

cancel-some : (reason : String) (t : Thread) → ¬ ((cancel reason t).cancel_reason ≡ none)
unfolding cancel
cancel-some reason t e =
    elim t.cancel_reason
        as (λ r.
          t.cancel_reason ≡ r
          → (elim r as (λ _. Thread) [
            | none ↦ record t { cancel_reason = some reason }
            | some earlier ↦ t
          ]).cancel_reason
            ≡ none
          → ⊥) [ none ↦ λ _ n. cc | some earlier ↦ λ held n. cc ]
      refl e

-- The count of one more step.
abbrev one_more : Thread → Thread
one_more t = record t { steps = (t.steps + 1) % 2 ^ 64 }

module _ (h : Host) (limited : Limited h) where
  -- A thread that is not cancelled by the count is within the limit.
  reached :
      (t : Thread) (hp : h.Heap) (b : Bool) (o : Option (Thread → h.Heap → Thread × h.Heap))
      → h.on_max_steps ≡ o
      → (if b
          then elim o as (λ _. Thread × h.Heap) [
            | none ↦ (cancel "too many steps" t, hp)
            | some on_max ↦ on_max t hp
          ]
          else (t, hp)).0.cancel_reason
        ≡ none
      → b ≡ false
  reached t hp false o set e = refl
  reached t hp true none set e = absurd (cancel-some "too many steps" t e)
  reached t hp true (some on_max) set e = absurd (limited.stopped on_max t hp set e)

  within_limit :
      (t : Thread) (hp : h.Heap)
      → (count h t hp).0.cancel_reason ≡ none
      → leb t.max_steps ((t.steps + 1) % 2 ^ 64) ≡ false
  unfolding count
  within_limit t hp e =
      reached (one_more t) hp (leb t.max_steps ((t.steps + 1) % 2 ^ 64)) h.on_max_steps refl e

  counted :
      (t : Thread) (hp : h.Heap)
      → leb t.max_steps ((t.steps + 1) % 2 ^ 64) ≡ false
      → count h t hp ≡ (one_more t, hp)
  unfolding count
  counted t hp e = rw e refl

-- `n` rounds are as many as a thread that is not cancelled has steps left.
pub record Left (n : ℕ) (t : Thread) : Type 0 where
  pub some_left : 1 ≤ n
  pub steps_left :
      t.cancel_reason ≡ none
      → (t.steps < t.max_steps) × (t.max_steps ≤ t.steps + n) × (t.max_steps < 2 ^ 64)

one_more-Left :
    (n : ℕ) (t : Thread)
    → Left (suc n) t
    → t.cancel_reason ≡ none
    → leb t.max_steps ((t.steps + 1) % 2 ^ 64) ≡ false
    → Left n (one_more t)
one_more-Left n t left going below =
    let facts = left.steps_left going in
    record { some_left = ground arith; steps_left = λ _. ground arith }

-- What a call or a load leaves of the limit.
later : (n : ℕ) (t t' : Thread) → Left n t → t.cancel_reason ≡ none → Within t t' → Left n t'
later n t t' left going within =
    let facts = left.steps_left going in
    record { some_left = left.some_left; steps_left = λ e. let w = within e in omega arith }

finish-Over :
    {h : Host} (T : Thread → Type 0) (o : Next h) (again : List h.Value → Frame h → Next h)
    → Onward T o
    → ((s : List h.Value) (fr : Frame h) → T fr.thread → Over (again s fr))
    → Over (finish o again)
unfolding finish
finish-Over T (next s fr) again t each = each s fr t
finish-Over T (Next.spinning fr) again t each = t
finish-Over T (Next.returned v fr) again t each = tt
finish-Over T (failed e fr) again t each = tt
finish-Over T (panicked p fr) again t each = tt
finish-Over T (Next.below_bottom fr) again t each = tt

module _ {h : Host} (limited : Limited h) (fn : Function h) where
  open h use {Value}

  -- After the count, a thread that goes on has one step less.
  ticked :
      (n : ℕ) (fr : Frame h)
      → Left (suc n) fr.thread
      → (tick fr).thread.cancel_reason ≡ none
      → Left n (tick fr).thread
  unfolding tick
  ticked n fr left e =
      let t = fr.thread in
      let below = within_limit h limited t fr.heap e in
      let c = counted h limited t fr.heap below in
      subst (λ r. Left n r.0) (sym c)
        (one_more-Left n t left (subst (λ r. r.0.cancel_reason ≡ none) c e) below)

  cycle-Onward :
      (n : ℕ) (s : List Value) (fr : Frame h)
      → Left (suc n) fr.thread
      → Onward (Left n) (cycle fn s fr)
  unfolding cycle tick
  cycle-Onward n s fr left =
      known-Onward (Left n) (tick fr).thread.cancel_reason _ _
        (λ going.
          let left' = ticked n fr left going in
          let below = (left'.steps_left going).0 in
          Option-Onward (Left n) (fetch fn fr.pc) _ _ tt (λ fetched.
            Option-Onward (Left n) (opcode fetched.0) _ _ tt (λ o.
              let fr' = record (tick fr) { pc = fetched.2 } in
              step-Onward (Left n) limited.shrinks fn s fr' left'
                (λ hp f args kvs.
                  later n fr'.thread _ left' going (limited.called fr'.thread hp f args kvs below))
                (λ load name e.
                  later n fr'.thread _ left' going
                    (limited.loaded load fr'.thread fr'.heap name e below))
                o fetched.1)))
        (λ _ _. tt)

  pub run-Over : (n : ℕ) (s : List Value) (fr : Frame h) → Left n fr.thread → Over (run fn n s fr)
  unfolding run
  run-Over zero s fr left = absurd (omega (arith, left.some_left))
  run-Over (suc n) s fr left =
      finish-Over (Left n) (cycle fn s fr) (λ s' fr'. run fn n s' fr') (cycle-Onward n s fr left)
        (λ s' fr' l. run-Over n s' fr' l)
