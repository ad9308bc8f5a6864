-- ===== src/Vm/Stack/Check.antt =====
-- A test that a table of stack depths is consistent with the code.
use starlark_go.Common.{
  ℕ, zero, suc, ◌+◌, ◌-◌, ◌<◌, ◌≤◌, ◌≡◌, refl, subst, arith, Bool, true, false, ◌&&◌, leb, ◌==◌,
  ==_iff, List, [], ◌∷◌, Option, none, some, length, dec_lt, All,
}
use starlark_go.Compile.Opcode.{Opcode, opcode}
use starlark_go.Compile.Opcode.Pictures.{takes}
use starlark_go.Vm.{Host, Function}
use starlark_go.Vm.Machine.{fetch}
use starlark_go.Vm.Stack.Exits.{exits}
use starlark_go.Vm.Stack.Run.{Fits, Consistent}

-- The depth of an address, if it has one.
abbrev pub depth_in : List (Option ℕ) → ℕ → Option ℕ
depth_in [] pc = none
depth_in (d ∷ table) zero = d
depth_in (d ∷ table) (suc pc) = depth_in table pc

abbrev has_depth : ℕ → Option ℕ → Bool
has_depth n none = false
has_depth n (some d) = d == n

module _ {h : Host} (fn : Function h) (table : List (Option ℕ)) where
  abbrev all_fit : ℕ → List (ℕ × ℕ) → Bool
  all_fit below [] = true
  all_fit below (ex ∷ es) =
      has_depth (below + ex.1) (depth_in table ex.0)
      && leb (below + ex.1) fn.max_stack
      && all_fit below es

  abbrev opcode_fits : ℕ → ℕ → ℕ → Option Opcode → Bool
  opcode_fits d arg pc' none = true
  opcode_fits d arg pc' (some o) =
      leb (takes o arg) d && all_fit (d - takes o arg) (exits o arg pc')

  abbrev instruction_fits : ℕ → Option (ℕ × ℕ × ℕ) → Bool
  instruction_fits d none = true
  instruction_fits d (some (op, arg, pc')) = opcode_fits d arg pc' (opcode op)

  abbrev address_fits : Option ℕ → ℕ → Bool
  address_fits none pc = true
  address_fits (some d) pc = instruction_fits d (fetch fn pc)

  -- The addresses below the number.
  abbrev pub consistent_below : ℕ → Bool
  consistent_below zero = true
  consistent_below (suc pc) = address_fits (depth_in table pc) pc && consistent_below pc

beyond : (table : List (Option ℕ)) (pc d : ℕ) → depth_in table pc ≡ some d → pc < length table
beyond [] pc d e = cc
beyond (x ∷ table) zero d e = omega arith
beyond (x ∷ table) (suc pc) d e = omega (arith, beyond table pc d e)

leb→≤ : (a b : ℕ) → leb a b ≡ true → a ≤ b
leb→≤ a b e = ground arith

both : (a b : Bool) → (a && b) ≡ true → (a ≡ true) × (b ≡ true)
both true b e = (refl, e)
both false b e = cc

has_depth-eq : (n : ℕ) (o : Option ℕ) → has_depth n o ≡ true → o ≡ some n
has_depth-eq n none e = cc
has_depth-eq n (some d) e = subst (λ k. some d ≡ some k) ((==_iff d n).0 e) refl

module _ {h : Host} (fn : Function h) (table : List (Option ℕ)) where
  all_fit-All :
      (below : ℕ) (es : List (ℕ × ℕ))
      → all_fit fn table below es ≡ true
      → All (Fits fn (depth_in table) below) es
  all_fit-All below [] e = tt
  all_fit-All below (ex ∷ es) e =
      let (left, fits) = both _ _ e in
      let (depth, room) = both _ _ left in
      ((has_depth-eq _ _ depth, ground arith), all_fit-All below es fits)

  at_address :
      (n pc : ℕ)
      → pc < n
      → consistent_below fn table n ≡ true
      → address_fits fn table (depth_in table pc) pc ≡ true
  at_address zero pc below e = absurd (omega arith)
  at_address (suc n) pc below e =
      let (here, others) =
        both (address_fits fn table (depth_in table n) n) (consistent_below fn table n) e in
      elim (dec_lt pc n) [
        | yes less ↦ at_address n pc less others
        | no not_less ↦
            let same : n ≡ pc = omega arith in
            subst (λ k. address_fits fn table (depth_in table k) k ≡ true) same here
      ]

  instruction :
      (d op arg pc' pc : ℕ) (o : Opcode)
      → depth_in table pc ≡ some d
      → fetch fn pc ≡ some (op, arg, pc')
      → opcode op ≡ some o
      → address_fits fn table (depth_in table pc) pc ≡ true
      → (leb (takes o arg) d && all_fit fn table (d - takes o arg) (exits o arg pc')) ≡ true
  instruction d op arg pc' pc o has fetched known e =
      subst (λ o. opcode_fits fn table d arg pc' o ≡ true) known
        (subst (λ f. instruction_fits fn table d f ≡ true) fetched
          (subst (λ o. address_fits fn table o pc ≡ true) has e))

  -- The test of every address in the table.
  pub consistent_below-Consistent :
      consistent_below fn table (length table) ≡ true → Consistent fn (depth_in table)
  consistent_below-Consistent e = record {
    operands = λ pc d op arg pc' o has fetched known.
        let (takes_less, fits) = both _ _ (
          instruction d op arg pc' pc o has fetched known
            (at_address (length table) pc (beyond table pc d has) e)) in
        leb→≤ _ _ takes_less;
    results = λ pc d op arg pc' o has fetched known.
        let (takes_less, fits) = both _ _ (
          instruction d op arg pc' pc o has fetched known
            (at_address (length table) pc (beyond table pc d has) e)) in
        all_fit-All (d - takes o arg) (exits o arg pc') fits;
  }
