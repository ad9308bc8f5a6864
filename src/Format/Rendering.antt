-- ===== src/Format/Rendering.antt =====
-- What `interpolate` of starlark/eval.go makes of a format without keys.
use starlark_go.Common.{
  ℕ, zero, suc, ◌+◌, ◌<◌, ◌≤◌, ◌≡◌, refl, sym, ap, ◌∙◌, arith, true, false, ◌==◌, if◌then◌else◌,
  ltb, leb, List, [], ◌∷◌, ◌++◌, append-nil, none, some, length, drop, get_elem?, All, inl, inr,
  ◌⊎◌, Bool-cases, ==_iff,
}
use starlark_go.Format.Rounds.{round, interpolate_from-some, interpolate_from-byte, directive-other}
use starlark_go.Format.{
  Text, Values, Result, ok, err, not_enough, too_many, ◌>>=◌, index_byte, starts_with, convert,
  nargs, next_argument, conversion, directive, interpolate_from, all_converted, with_end,
  interpolate,
}

-- A byte that stands for itself, or a conversion with the byte of its type.
pub data Piece : Type 0 where
  byte verb : ℕ → Piece

-- The pieces as a format, with a doubled '%' for the byte.
unfoldable pub print : List Piece → Text
print [] = []
print (Piece.byte b ∷ ps) = if b == 37 then 37 ∷ 37 ∷ print ps else b ∷ print ps
print (Piece.verb c ∷ ps) = 37 ∷ c ∷ print ps

-- The byte is no '%' and no '('.
abbrev pub IsPlain : Piece → Type 0
IsPlain (Piece.byte b) = Unit {0}
IsPlain (Piece.verb c) = ((c == 37) ≡ false) × ((c == 40) ≡ false)

-- The arguments are converted one by one, and as many as there are.
unfoldable pub render : (vs : Values) → List Piece → List vs.Value → Text → Result Text
render vs [] [] buf = ok buf
render vs [] (arg ∷ args) buf = err too_many
render vs (Piece.byte b ∷ ps) args buf = render vs ps args (buf ++ b ∷ [])
render vs (Piece.verb c ∷ ps) [] buf = err not_enough
render vs (Piece.verb c ∷ ps) (arg ∷ args) buf =
    convert vs c arg >>= (λ text. render vs ps args (buf ++ text))

-- The next argument, or none left.
drop-cases :
    {A : Type 0} (n : ℕ) (xs : List A)
    → ((drop n xs ≡ []) × (length xs ≤ n))
      ⊎ ((x : A) × (drop n xs ≡ x ∷ drop (suc n) xs) × (get_elem? xs n ≡ some x) × (n < length xs))
drop-cases zero [] = inl (refl, omega arith)
drop-cases zero (x ∷ xs) = inr (x, refl, refl, omega arith)
drop-cases (suc n) [] = inl (refl, omega arith)
drop-cases (suc n) (x ∷ xs) = elim (drop-cases n xs) [
  | inl (e, m) ↦ inl (e, omega arith)
  | inr (y, e, g, l) ↦ inr (y, e, g, omega arith)
]

print-percent :
    (b : ℕ) (ps : List Piece) → (b == 37) ≡ true → print (Piece.byte b ∷ ps) ≡ 37 ∷ 37 ∷ print ps
unfolding print
print-percent b ps e = ap (λ t. if t then 37 ∷ 37 ∷ print ps else b ∷ print ps) e

print-other :
    (b : ℕ) (ps : List Piece) → (b == 37) ≡ false → print (Piece.byte b ∷ ps) ≡ b ∷ print ps
unfolding print
print-other b ps e = ap (λ t. if t then 37 ∷ 37 ∷ print ps else b ∷ print ps) e

lt→ltb : (a b : ℕ) → a < b → ltb a b ≡ true
lt→ltb a b l = ground arith

leb→ltb : (a b : ℕ) → a ≤ b → ltb b a ≡ false
leb→ltb a b l = ground arith

le→leb : (a b : ℕ) → a ≤ b → leb a b ≡ true
le→leb a b l = ground arith

lt→leb : (a b : ℕ) → a < b → leb b a ≡ false
lt→leb a b l = ground arith

module _ (vs : Values) (x : vs.Value) where
  open vs use {Value}

  module _ (args : List Value) (tuple : vs.tuple_of x ≡ some args)
      (no_mapping : vs.mapping_of x ≡ none) where
    ends :
        (buf : Text) (index : ℕ)
        → all_converted vs x (buf, index) ≡ render vs [] (drop index args) buf
    unfolding all_converted nargs render
    ends buf index = elim (drop-cases index args) [
      | inl (e, enough) ↦ rw e (ground arith)
      | inr (arg, e, _, less) ↦ rw e (ground arith)
    ]

    -- At the end of the format.
    interpolate_from-end :
        (fuel : ℕ) (buf : Text) (index : ℕ)
        → with_end vs x (interpolate_from vs (suc fuel) x [] index buf)
          ≡ some (render vs [] (drop index args) buf)
    unfolding interpolate_from index_byte
    interpolate_from-end fuel buf index =
        ap some (ap (λ l. all_converted vs x (l, index)) (append-nil buf) ∙ ends buf index)

    -- A doubled '%'.
    interpolate_from-percent :
        (fuel : ℕ) (format buf : Text) (index : ℕ)
        → interpolate_from vs (suc fuel) x (37 ∷ 37 ∷ format) index buf
          ≡ interpolate_from vs fuel x format index (buf ++ 37 ∷ [])
    unfolding interpolate_from index_byte directive starts_with
    interpolate_from-percent fuel format buf index =
        ap (λ l. interpolate_from vs fuel x format index (l ++ 37 ∷ [])) (append-nil buf)

    next_argument-none :
        (index : ℕ) → length args ≤ index → next_argument vs x index ≡ err not_enough
    unfolding next_argument nargs
    next_argument-none index few = ground arith

    next_argument-some :
        (index : ℕ) (arg : Value)
        → get_elem? args index ≡ some arg
        → index < length args
        → next_argument vs x index ≡ ok arg
    unfolding next_argument nargs
    next_argument-some index arg at less = ground arith

    -- A conversion takes a round.
    interpolate_from-verb :
        (fuel c : ℕ) (format buf : Text) (index : ℕ)
        → IsPlain (Piece.verb c)
        → interpolate_from vs (suc fuel) x (37 ∷ c ∷ format) index buf
          ≡ round vs x fuel
              (next_argument vs x index >>= (λ arg. conversion vs arg (c ∷ format) index buf))
    unfolding index_byte
    interpolate_from-verb fuel c format buf index plain =
        interpolate_from-some vs x fuel (37 ∷ c ∷ format) index buf 0 _ refl (
          ap (λ l. directive vs x (c ∷ format) index l) (append-nil buf)
          ∙ directive-other vs x c format index buf plain)

    -- A converted argument, with the rest of the format behind it.
    with_end-round :
        (r : Result Text) (fuel index : ℕ) (format buf : Text) (k : Text → Result Text)
        → ((text : Text)
            → with_end vs x (interpolate_from vs fuel x format (index + 1) (buf ++ text))
              ≡ some (k text))
        → with_end vs x (round vs x fuel (r >>= (λ text. ok (format, index + 1, buf ++ text))))
          ≡ some (r >>= k)
    with_end-round (ok text) fuel index format buf k later = later text
    with_end-round (err e) fuel index format buf k later = refl

    interpolate_from-render :
        (ps : List Piece) (fuel index : ℕ) (buf : Text)
        → All IsPlain ps
        → length (print ps) < fuel
        → with_end vs x (interpolate_from vs fuel x (print ps) index buf)
          ≡ some (render vs ps (drop index args) buf)
    unfolding print render conversion
    interpolate_from-render ps zero index buf plain less = absurd (omega (arith, less))
    interpolate_from-render [] (suc fuel) index buf plain less = interpolate_from-end fuel buf index
    interpolate_from-render (Piece.byte b ∷ ps) (suc fuel) index buf (_, plain) less =
        elim (Bool-cases (b == 37)) [
          | inl percent ↦
              let form = print-percent b ps percent in
              let short = ap length form in
              let same : b ≡ 37 = (==_iff b 37).0 percent in
              ap (λ l. with_end vs x (interpolate_from vs (suc fuel) x l index buf)) form
              ∙ ap (λ o. with_end vs x o) (interpolate_from-percent fuel (print ps) buf index)
              ∙ interpolate_from-render ps fuel index (buf ++ 37 ∷ []) plain
                  (omega (arith, short, less))
              ∙ ap (λ k. some (render vs ps (drop index args) (buf ++ k ∷ []))) (sym same)
          | inr other ↦
              let form = print-other b ps other in
              let short = ap length form in
              ap (λ l. with_end vs x (interpolate_from vs (suc fuel) x l index buf)) form
              ∙ ap (λ o. with_end vs x o)
                  (interpolate_from-byte vs x fuel b (print ps) index buf other)
              ∙ interpolate_from-render ps (suc fuel) index (buf ++ b ∷ []) plain
                  (omega (arith, short, less))
        ]
    interpolate_from-render (Piece.verb c ∷ ps) (suc fuel) index buf (is_plain, plain) less =
        let next : Value → Result (Text × ℕ × Text) =
          λ arg. conversion vs arg (c ∷ print ps) index buf in
        let count : index + 1 ≡ suc index = omega arith in
        let start =
          ap (λ o. with_end vs x o) (interpolate_from-verb fuel c (print ps) buf index is_plain) in
        elim (drop-cases index args) [
          | inl (e, few) ↦
              start
              ∙ ap (λ r. with_end vs x (round vs x fuel (r >>= next)))
                  (next_argument-none index few)
              ∙ ap (λ l. some (render vs (Piece.verb c ∷ ps) l buf)) (sym e)
          | inr (arg, e, at, low) ↦
              start
              ∙ ap (λ r. with_end vs x (round vs x fuel (r >>= next)))
                  (next_argument-some index arg at low)
              ∙ with_end-round (convert vs c arg) fuel index (print ps) buf
                  (λ text. render vs ps (drop (suc index) args) (buf ++ text))
                  (λ text.
                    interpolate_from-render ps fuel (index + 1) (buf ++ text) plain
                      (omega (arith, less))
                    ∙ ap (λ n. some (render vs ps (drop n args) (buf ++ text))) count)
              ∙ ap (λ l. some (render vs (Piece.verb c ∷ ps) l buf)) (sym e)
        ]

    -- A format that is printed from bytes and conversions without keys, with a tuple of arguments: the
    -- loop ends within its fuel, with the bytes and the converted arguments in their order, or the
    -- first error, or that of too few or too many arguments.
    pub interpolate-render :
        (ps : List Piece)
        → All IsPlain ps
        → interpolate vs (print ps) x ≡ some (render vs ps args [])
    unfolding interpolate
    interpolate-render ps plain =
        interpolate_from-render ps (suc (length (print ps))) 0 [] plain (omega arith)
