-- ===== src/Vm/Stack/Exits.antt =====
-- Where an instruction of starlark/interp.go goes on, and with how many values on the stack.
use starlark_go.Common.{
  Bool, true, false, if◌then◌else◌, ℕ, suc, ◌+◌, ◌<◌, ◌≤◌, ◌≡◌, refl, arith, List, [], ◌∷◌, ◌++◌,
  length, inl, inr,
}
use starlark_go.Common.Members.{In}
use starlark_go.Compile.Opcode.{Opcode}
use starlark_go.Compile.Opcode.Pictures.{gives}
use starlark_go.Vm.{Host, Function, Frame, Next, next, failed, panicked}
use starlark_go.Vm.Machine.{step}
use starlark_go.Vm.Stack.{Ends, Leaves, with_none, with_head}

-- Where an instruction at an address before `pc` goes on, and how many values it has then left.
unfoldable pub exits : Opcode → ℕ → ℕ → List (ℕ × ℕ)
unfolding gives
exits Opcode.jmp arg pc = (arg, gives Opcode.jmp arg) ∷ []
exits Opcode.cjmp arg pc = (pc, gives Opcode.cjmp arg) ∷ (arg, gives Opcode.cjmp arg) ∷ []
exits Opcode.iterjmp arg pc = (pc, 1) ∷ (arg, gives Opcode.iterjmp arg) ∷ []
exits Opcode.return arg pc = []
exits op arg pc = (pc, gives op arg) ∷ []

-- The machine goes on by one of these exits.
pub record Goes {h : Host} (rest : List h.Value) (es : List (ℕ × ℕ)) (s : List h.Value)
    (fr : Frame h) : Type 0 where
  pub exit : ℕ × ℕ
  pub listed : In exit es
  pub leaves : Leaves rest exit.1 exit.0 s fr

module _ {h : Host} where
  open h use {Value}

  -- A stronger predicate.
  pub Ends-map :
      (P Q : List Value → Frame h → Type 0)
      → ((s : List Value) (fr : Frame h) → P s fr → Q s fr)
      → (o : Next h) → Ends P o
      → Ends Q o
  Ends-map P Q f (next s fr) p = f s fr p
  Ends-map P Q f (Next.returned v fr) p = p
  Ends-map P Q f (failed e fr) p = p
  Ends-map P Q f (panicked w fr) p = p
  Ends-map P Q f (Next.below_bottom fr) p = p
  Ends-map P Q f (Next.spinning fr) p = p

-- A list of that many values.
pub one_value :
    {A : Type 0} (P : List A → Type 0)
    → ((x : A) → P (x ∷ []))
    → (args : List A) → length args ≡ 1
    → P args
one_value P each args e =
    with_head P 0 args e (λ x xs e₁. with_none (λ l. P (x ∷ l)) (each x) xs e₁)

pub two_values :
    {A : Type 0} (P : List A → Type 0)
    → ((x y : A) → P (x ∷ y ∷ []))
    → (args : List A) → length args ≡ 2
    → P args
two_values P each args e =
    with_head P 1 args e (λ x xs e₁. one_value (λ l. P (x ∷ l)) (each x) xs e₁)

pub enough : (n m : ℕ) → n + 1 ≤ m → n < m
enough n m room = omega arith

pub enough_for_two : (n m : ℕ) → n + 2 ≤ m → suc n < m
enough_for_two n m room = omega arith

pub enough_for_four : (n m : ℕ) → n + 4 ≤ m → suc (suc n) + 1 < m
enough_for_four n m room = omega arith

module _ {h : Host} (fn : Function h) (rest : List h.Value) (fr : Frame h) where
  open h use {Value}

  -- With these operands on the rest, the instruction meets its picture.
  abbrev pub Meets : Opcode → ℕ → List Value → Type 0
  Meets op arg args = Ends (Goes rest (exits op arg fr.pc)) (step fn op arg (args ++ rest) fr)

  pub one_exit :
      (n : ℕ) (o : Next h) → Ends (Leaves rest n fr.pc) o → Ends (Goes rest ((fr.pc, n) ∷ [])) o
  one_exit n o p =
      Ends-map (Leaves rest n fr.pc) (Goes rest ((fr.pc, n) ∷ []))
        (λ s fr' l. record { exit = (fr.pc, n); listed = inl refl; leaves = l }) o p

  pub one_of :
      (op : Opcode) (arg : ℕ)
      → ((x : Value) → Meets op arg (x ∷ []))
      → (args : List Value) → length args ≡ 1
      → Meets op arg args
  one_of op arg each args e = one_value (Meets op arg) each args e

  pub two_of :
      (op : Opcode) (arg : ℕ)
      → ((x y : Value) → Meets op arg (x ∷ y ∷ []))
      → (args : List Value) → length args ≡ 2
      → Meets op arg args
  two_of op arg each args e = two_values (Meets op arg) each args e

  pub three_of :
      (op : Opcode) (arg : ℕ)
      → ((x y z : Value) → Meets op arg (x ∷ y ∷ z ∷ []))
      → (args : List Value) → length args ≡ 3
      → Meets op arg args
  three_of op arg each args e = with_head (Meets op arg) 2 args e (λ x xs e₁.
      with_head (λ l. Meets op arg (x ∷ l)) 1 xs e₁
        (λ y ys e₂.
          with_head (λ l. Meets op arg (x ∷ y ∷ l)) 0 ys e₂
            (λ z zs e₃. with_none (λ l. Meets op arg (x ∷ y ∷ z ∷ l)) (each x y z) zs e₃)))

  pub four_of :
      (op : Opcode) (arg : ℕ)
      → ((x y z w : Value) → Meets op arg (x ∷ y ∷ z ∷ w ∷ []))
      → (args : List Value) → length args ≡ 4
      → Meets op arg args
  four_of op arg each args e = with_head (Meets op arg) 3 args e (λ x xs e₁.
      with_head (λ l. Meets op arg (x ∷ l)) 2 xs e₁
        (λ y ys e₂.
          with_head (λ l. Meets op arg (x ∷ y ∷ l)) 1 ys e₂
            (λ z zs e₃.
              with_head (λ l. Meets op arg (x ∷ y ∷ z ∷ l)) 0 zs e₃
                (λ w ws e₄.
                  with_none (λ l. Meets op arg (x ∷ y ∷ z ∷ w ∷ l)) (each x y z w) ws e₄))))

  pub jumped :
      (b : Bool) (arg : ℕ)
      → Goes rest (exits Opcode.cjmp arg fr.pc) rest (if b then record fr { pc = arg } else fr)
  unfolding exits gives
  jumped true arg = record {
    exit = (arg, 0);
    listed = inr (inl refl);
    leaves = record { values = []; counted = refl; above = refl; at = refl };
  }
  jumped false arg = record {
    exit = (fr.pc, 0);
    listed = inl refl;
    leaves = record { values = []; counted = refl; above = refl; at = refl };
  }
