-- ===== src/Format/Rounds.antt =====
-- One round of the loop of `interpolate` of starlark/eval.go.
use starlark_go.Common.{
  ℕ, suc, ◌≡◌, refl, sym, ap, ◌∙◌, ◌==◌, if◌then◌else◌, false, [], ◌∷◌, ◌++◌, append_assoc, Option,
  none, some, take, drop, inl, inr, Option-cases,
}
use starlark_go.Format.{
  Text, Values, Result, ok, err, ◌>>=◌, index_byte, starts_with, next_argument, argument,
  keyed_argument, conversion, directive, interpolate_from,
}

>>=-ok :
    {A B C : Type 0} (r : Result A) (g : A → B) (f : B → Result C)
    → ((r >>= (λ a. ok (g a))) >>= f) ≡ (r >>= (λ a. f (g a)))
>>=-ok (ok a) g f = refl
>>=-ok (err e) g f = refl

module _ (vs : Values) (x : vs.Value) where
  open vs use {Value}

  pub interpolate_from-none :
      (fuel : ℕ) (format : Text) (index : ℕ) (buf : Text)
      → index_byte 37 format ≡ none
      → interpolate_from vs (suc fuel) x format index buf ≡ some (ok (buf ++ format, index))
  unfolding interpolate_from
  interpolate_from-none fuel format index buf e = rw (interpolate_from, e)

  -- A round from the first '%' on.
  abbrev pub round : ℕ → Result (Text × ℕ × Text) → Option (Result (Text × ℕ))
  round fuel (err e) = some (err e)
  round fuel (ok next) = interpolate_from vs fuel x next.0 next.1 next.2

  pub interpolate_from-some :
      (fuel : ℕ) (format : Text) (index : ℕ) (buf : Text) (i : ℕ) (r : Result (Text × ℕ × Text))
      → index_byte 37 format ≡ some i
      → directive vs x (drop (suc i) format) index (buf ++ take i format) ≡ r
      → interpolate_from vs (suc fuel) x format index buf ≡ round fuel r
  unfolding interpolate_from
  interpolate_from-some fuel format index buf i (ok next) e d = rw (interpolate_from, e, d)
  interpolate_from-some fuel format index buf i (err f) e d = rw (interpolate_from, e, d)

  index_byte-other :
      (b : ℕ) (format : Text)
      → (b == 37) ≡ false
      → index_byte 37 (b ∷ format)
        ≡ (elim (index_byte 37 format) as (λ _. Option ℕ) [ none ↦ none | some i ↦ some (suc i) ])
  unfolding index_byte
  index_byte-other b format other =
      let later : Option ℕ = elim (index_byte 37 format) [ none ↦ none | some i ↦ some (suc i) ] in
      ap (λ t. if t then some 0 else later) other

  -- A byte other than '%' is copied, and takes no round.
  pub interpolate_from-byte :
      (fuel b : ℕ) (format : Text) (index : ℕ) (buf : Text)
      → (b == 37) ≡ false
      → interpolate_from vs (suc fuel) x (b ∷ format) index buf
        ≡ interpolate_from vs (suc fuel) x format index (buf ++ b ∷ [])
  interpolate_from-byte fuel b format index buf other = elim (Option-cases (index_byte 37 format)) [
    | inl e ↦
        interpolate_from-none fuel (b ∷ format) index buf (rw (index_byte-other b format other, e))
        ∙ ap (λ l. some (ok (l, index))) (sym (append_assoc buf (b ∷ []) format))
        ∙ sym (interpolate_from-none fuel format index (buf ++ b ∷ []) e)
    | inr (i, e) ↦
        let same = append_assoc buf (b ∷ []) (take i format) in
        interpolate_from-some fuel (b ∷ format) index buf (suc i) _
          (rw (index_byte-other b format other, e))
          (ap (λ l. directive vs x (drop (suc i) format) index l) (sym same))
        ∙ sym (interpolate_from-some fuel format index (buf ++ b ∷ []) i _ e refl)
  ]

  pub directive-other :
      (c : ℕ) (format : Text) (index : ℕ) (buf : Text)
      → ((c == 37) ≡ false) × ((c == 40) ≡ false)
      → directive vs x (c ∷ format) index buf
        ≡ (next_argument vs x index >>= (λ arg. conversion vs arg (c ∷ format) index buf))
  unfolding directive argument starts_with
  directive-other c format index buf (no_percent, no_key) =
      let with_format : Value → Result (Value × Text) = λ arg. ok (arg, c ∷ format) in
      let positional : Result (Value × Text) = next_argument vs x index >>= with_format in
      let next : Value × Text → Result (Text × ℕ × Text) = λ a. conversion vs a.0 a.1 index buf in
      ap
        (λ t.
          if t
          then ok (format, index, buf ++ 37 ∷ [])
          else (argument vs x (c ∷ format) index >>= next))
        no_percent
      ∙ ap (λ t. (if t then keyed_argument vs x format else positional) >>= next) no_key
      ∙ >>=-ok (next_argument vs x index) (λ arg. (arg, c ∷ format)) next
