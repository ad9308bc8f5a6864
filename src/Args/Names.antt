-- ===== src/Args/Names.antt =====
-- The search of a parameter by its name, `findParam` of starlark/eval.go, against the names themselves.
use Prim.Native.String.{String}
use text.Mathlib.Text.{◌==◌ as str_eq}
use text.Mathlib.TextEquality.{eq_iff}
use starlark_go.Common.Indexing.{All-get}
use starlark_go.Common.{
  sym, inl, inr, ◌⊎◌, ℕ, zero, suc, ◌≡◌, refl, ap, ◌∙◌, Bool, true, false, ◌||◌, if◌then◌else◌,
  List, [], ◌∷◌, Option, none, some, get_elem?, All,
}
use starlark_go.Args.{find_param}
use starlark_go.Args.Slots.{some_injective}

-- No two of the names are the same.
abbrev pub Apart : List String → Type 0
Apart [] = Unit {0}
Apart (name ∷ names) = All (λ other. str_eq name other ≡ false) names × Apart names

-- Whether the name is in the list.
unfoldable pub has_name : List String → String → Bool
has_name [] name = false
has_name (other ∷ names) name = str_eq other name || has_name names name

-- The search finds each name of such a list in its place.
pub find_param-get :
    (params : List String) (i : ℕ) (k : String)
    → Apart params
    → get_elem? params i ≡ some k
    → find_param params k ≡ some i
unfolding find_param
find_param-get [] i k apart at = cc
find_param-get (p ∷ params) zero k apart at =
    let same = (eq_iff p k).1 (some_injective p k at) in rw same refl
find_param-get (p ∷ params) (suc i) k apart at =
    let other = All-get (λ m. str_eq p m ≡ false) params i k apart.0 at in
    rw (other, find_param-get params i k apart.1 at) refl

abbrev pub is_found : Option ℕ → Bool
is_found none = false
is_found (some i) = true

found_later :
    (b : Bool) (o : Option ℕ)
    → is_found
        (if b then some 0 else elim o as (λ _. Option ℕ) [ none ↦ none | some i ↦ some (suc i) ])
      ≡ (b || is_found o)
found_later true o = refl
found_later false none = refl
found_later false (some i) = refl

-- It finds a name exactly when the list has it.
pub find_param-has_name :
    (params : List String) (k : String) → is_found (find_param params k) ≡ has_name params k
unfolding find_param has_name
find_param-has_name [] k = refl
find_param-has_name (p ∷ params) k =
    found_later (str_eq p k) (find_param params k)
    ∙ ap (λ b. str_eq p k || b) (find_param-has_name params k)

located :
    (b : Bool) (later : Option ℕ) (i : ℕ)
    → (if b then some 0 else elim later as (λ _. Option ℕ) [ none ↦ none | some j ↦ some (suc j) ])
      ≡ some i
    → ((b ≡ true) × (i ≡ 0)) ⊎ ((j : ℕ) × (later ≡ some j) × (i ≡ suc j))
located true later i e = inl (refl, sym (some_injective 0 i e))
located false none i e = cc
located false (some j) i e = inr (j, refl, sym (some_injective (suc j) i e))

-- What it finds is the place of the name.
pub get-find_param :
    (params : List String) (i : ℕ) (k : String)
    → find_param params k ≡ some i
    → get_elem? params i ≡ some k
unfolding find_param
get-find_param [] i k e = cc
get-find_param (p ∷ params) i k e = elim (located (str_eq p k) (find_param params k) i e) [
  | inl (same, first) ↦ ap (λ n. get_elem? (p ∷ params) n) first ∙ ap some ((eq_iff p k).0 same)
  | inr (j, found, next) ↦ ap (λ n. get_elem? (p ∷ params) n) next ∙ get-find_param params j k found
]
