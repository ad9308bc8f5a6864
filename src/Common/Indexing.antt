-- ===== src/Common/Indexing.antt =====
-- Lists by index, and properties of their items.
use Prim.Native.Nat.{ℕ, zero, suc, ◌-◌, ◌<◌, ◌≤◌}
use mathlib.Core.Path.{◌≡◌, refl, sym, ap, subst}
use mathlib.Core.Logic.{inl, inr}
use mathlib.Core.Option.{none, some}
use mathlib.Core.List.{List, [], ◌∷◌}
use native.Mathlib.Omega.{arith}
use starlark_go.Common.Lists.{length, get_elem?, take, drop, All}
use starlark_go.Common.Members.{In}

pub get_elem?-some :
    {A : Type 0} (xs : List A) (i : ℕ) → i < length xs → (a : A) × (get_elem? xs i ≡ some a)
get_elem?-some [] i less = absurd (omega arith)
get_elem?-some (x ∷ xs) zero less = (x, refl)
get_elem?-some (x ∷ xs) (suc i) less = get_elem?-some xs i (omega arith)

pub get_elem?-less :
    {A : Type 0} (xs : List A) (i : ℕ) (a : A) → get_elem? xs i ≡ some a → i < length xs
get_elem?-less [] i a e = cc
get_elem?-less (x ∷ xs) zero a e = omega arith
get_elem?-less (x ∷ xs) (suc i) a e = omega (arith, get_elem?-less xs i a e)

pub get_elem?-take :
    {A : Type 0} (n i : ℕ) (xs : List A) → i < n → get_elem? (take n xs) i ≡ get_elem? xs i
get_elem?-take zero i xs less = absurd (omega arith)
get_elem?-take (suc n) i [] less = refl
get_elem?-take (suc n) zero (x ∷ xs) less = refl
get_elem?-take (suc n) (suc i) (x ∷ xs) less = get_elem?-take n i xs (omega arith)

pub All-get :
    {A : Type 0} (P : A → Type 0) (xs : List A) (i : ℕ) (a : A)
    → All P xs
    → get_elem? xs i ≡ some a
    → P a
All-get P [] i a ps e = cc
All-get P (x ∷ xs) zero a ps e = subst P (ap (λ o. elim o [ none ↦ x | some b ↦ b ]) e) ps.0
All-get P (x ∷ xs) (suc i) a ps e = All-get P xs i a ps.1 e

pub All-In : {A : Type 0} (P : A → Type 0) (xs : List A) (a : A) → All P xs → In a xs → P a
All-In P [] a ps i = absurd i
All-In P (x ∷ xs) a ps (inl e) = subst P (sym e) ps.0
All-In P (x ∷ xs) a ps (inr i) = All-In P xs a ps.1 i

pub drop-all : {A : Type 0} (n : ℕ) (xs : List A) → length xs ≤ n → drop n xs ≡ []
drop-all zero [] h = refl
drop-all zero (x ∷ xs) h = absurd (omega arith)
drop-all (suc n) [] h = refl
drop-all (suc n) (x ∷ xs) h = drop-all n xs (omega arith)

pub length-take-le : {A : Type 0} (n : ℕ) (xs : List A) → length (take n xs) ≤ n
length-take-le zero xs = omega arith
length-take-le (suc n) [] = omega arith
length-take-le (suc n) (x ∷ xs) = omega (arith, length-take-le n xs)

pub All-drop : {A : Type 0} (P : A → Type 0) (n : ℕ) (xs : List A) → All P xs → All P (drop n xs)
All-drop P zero xs ps = ps
All-drop P (suc n) [] ps = tt
All-drop P (suc n) (x ∷ xs) ps = All-drop P n xs ps.1

pub length-drop : {A : Type 0} (n : ℕ) (xs : List A) → length (drop n xs) ≡ length xs - n
length-drop zero xs = omega arith
length-drop (suc n) [] = omega arith
length-drop (suc n) (x ∷ xs) = omega (arith, length-drop n xs)

pub All-map :
    {A : Type 0} (P Q : A → Type 0) → ((a : A) → P a → Q a) → (xs : List A) → All P xs → All Q xs
All-map P Q f [] ps = tt
All-map P Q f (x ∷ xs) ps = (f x ps.0, All-map P Q f xs ps.1)
