-- ===== src/Format/Total.antt =====
-- The loop of `interpolate` of starlark/eval.go ends.
use starlark_go.Common.{
  ℕ, zero, suc, ◌<◌, ◌≤◌, ◌≡◌, refl, sym, ◌∙◌, arith, Bool, true, false, ◌==◌, if◌then◌else◌, [],
  ◌∷◌, ◌++◌, Option, none, some, length, take, drop, inl, inr, Option-cases,
}
use starlark_go.Common.Indexing.{length-drop}
use starlark_go.Format.Rounds.{interpolate_from-none, interpolate_from-some, round}
use starlark_go.Format.{
  Text, Values, Result, ok, err, incomplete_key, needs_mapping, key_not_found, ◌>>=◌, from_option,
  index_byte, starts_with, convert, keyed_argument, next_argument, argument, conversion, directive,
  interpolate_from, with_end, interpolate,
}

-- What `ok` holds satisfies the predicate.
abbrev pub Holds : {A : Type 0} → (A → Type 0) → Result A → Type 0
Holds P (ok a) = P a
Holds P (err e) = Unit {0}

>>=-Holds :
    {A B : Type 0} (P : B → Type 0) (r : Result A) (f : A → Result B)
    → ((a : A) → Holds P (f a))
    → Holds P (r >>= f)
>>=-Holds P (ok a) f each = each a
>>=-Holds P (err e) f each = tt

if-Holds :
    {A : Type 0} (P : A → Type 0) (b : Bool) (r s : Result A)
    → Holds P r
    → Holds P s
    → Holds P (if b then r else s)
if-Holds P true r s p q = p
if-Holds P false r s p q = q

found-less :
    (b : Bool) (o : Option ℕ) (n i : ℕ)
    → ((j : ℕ) → o ≡ some j → j < n)
    → (if b then some 0 else elim o as (λ _. Option ℕ) [ none ↦ none | some j ↦ some (suc j) ])
      ≡ some i
    → i < suc n
found-less true o n i later e = ground arith
found-less false none n i later e = cc
found-less false (some j) n i later e = let less = later j refl in ground arith

index_byte-less : (c : ℕ) (format : Text) (i : ℕ) → index_byte c format ≡ some i → i < length format
unfolding index_byte
index_byte-less c [] i e = cc
index_byte-less c (x ∷ xs) i e =
    found-less (x == c) (index_byte c xs) (length xs) i (λ j h. index_byte-less c xs j h) e

module _ (vs : Values) (x : vs.Value) where
  open vs use {Value}

  -- No more of the format is left.
  keyed_argument-shorter :
      (format : Text) (n : ℕ)
      → length format ≤ n
      → Holds (λ a. length a.1 ≤ n) (keyed_argument vs x format)
  unfolding keyed_argument
  keyed_argument-shorter format n fits =
      >>=-Holds _ (from_option (index_byte 41 format) incomplete_key) _ (λ j.
        >>=-Holds _ (from_option (vs.mapping_of x) needs_mapping) _ (λ get.
          >>=-Holds _ (from_option (get (take j format)) (key_not_found (take j format))) _
            (λ v. omega (arith, length-drop (suc j) format))))

  argument-shorter :
      (format : Text) (index n : ℕ)
      → length format ≤ n
      → Holds (λ a. length a.1 ≤ n) (argument vs x format index)
  unfolding argument
  argument-shorter format index n fits =
      if-Holds (λ (a : Value × Text). length a.1 ≤ n) (starts_with 40 format)
        (keyed_argument vs x (drop 1 format))
        (next_argument vs x index >>= (λ arg. ok (arg, format)))
        (keyed_argument-shorter (drop 1 format) n (omega (arith, length-drop 1 format)))
        (>>=-Holds _ (next_argument vs x index) _ (λ arg. fits))

  conversion-shorter :
      (arg : Value) (format : Text) (index : ℕ) (buf : Text) (n : ℕ)
      → length format ≤ n
      → Holds (λ s. length s.0 ≤ n) (conversion vs arg format index buf)
  unfolding conversion
  conversion-shorter arg [] index buf n fits = tt
  conversion-shorter arg (c ∷ format) index buf n fits =
      >>=-Holds _ (convert vs c arg) _ (λ text. omega (arith, fits))

  with_argument :
      (r : Result (Value × Text)) (index : ℕ) (buf : Text) (n : ℕ)
      → Holds (λ a. length a.1 ≤ n) r
      → Holds (λ s. length s.0 ≤ n) (r >>= (λ a. conversion vs a.0 a.1 index buf))
  with_argument (ok (arg, format)) index buf n fits = conversion-shorter arg format index buf n fits
  with_argument (err e) index buf n fits = tt

  directive-shorter :
      (format : Text) (index : ℕ) (buf : Text) (n : ℕ)
      → length format ≤ n
      → Holds (λ s. length s.0 ≤ n) (directive vs x format index buf)
  unfolding directive
  directive-shorter format index buf n fits =
      if-Holds (λ (s : Text × ℕ × Text). length s.0 ≤ n) (starts_with 37 format)
        (ok (drop 1 format, index, buf ++ 37 ∷ []))
        (argument vs x format index >>= (λ a. conversion vs a.0 a.1 index buf))
        (omega (arith, length-drop 1 format))
        (with_argument (argument vs x format index) index buf n
          (argument-shorter format index n fits))

  round-ends :
      (r : Result (Text × ℕ × Text)) (fuel n : ℕ)
      → Holds (λ s. length s.0 ≤ n) r
      → n < fuel
      → ((format : Text) (index : ℕ) (buf : Text)
          → length format < fuel
          → ¬ (interpolate_from vs fuel x format index buf ≡ none))
      → ¬ (round vs x fuel r ≡ none)
  round-ends (ok next) fuel n fits less later e =
      later next.0 next.1 next.2 (omega (arith, fits, less)) e
  round-ends (err f) fuel n fits less later e = cc

  interpolate_from-ends :
      (fuel : ℕ) (format : Text) (index : ℕ) (buf : Text)
      → length format < fuel
      → ¬ (interpolate_from vs fuel x format index buf ≡ none)
  interpolate_from-ends zero format index buf less e = absurd (omega (arith, less))
  interpolate_from-ends (suc fuel) format index buf less e =
      elim (Option-cases (index_byte 37 format)) [
        | inl absent ↦ let last = interpolate_from-none vs x fuel format index buf absent in cc
        | inr (i, at) ↦
            let behind = drop (suc i) format in
            let r = directive vs x behind index (buf ++ take i format) in
            let once = interpolate_from-some vs x fuel format index buf i r at refl in
            round-ends r fuel (length behind)
              (directive-shorter behind index (buf ++ take i format) (length behind) (omega arith))
              (omega (arith, length-drop (suc i) format, index_byte-less 37 format i at, less))
              (λ format index buf. interpolate_from-ends fuel format index buf) (sym once ∙ e)
      ]

  with_end-ends : (o : Option (Result (Text × ℕ))) → ¬ (o ≡ none) → ¬ (with_end vs x o ≡ none)
  with_end-ends none some_there e = some_there refl
  with_end-ends (some r) some_there e = cc

  -- The loop ends within its fuel, whatever the format and the arguments are.
  pub interpolate-ends : (format : Text) → ¬ (interpolate vs format x ≡ none)
  unfolding interpolate
  interpolate-ends format =
      with_end-ends (interpolate_from vs (suc (length format)) x format 0 [])
        (interpolate_from-ends (suc (length format)) format 0 [] (omega arith))
