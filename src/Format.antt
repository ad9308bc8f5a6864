-- ===== src/Format.antt =====
-- The interpolation of a string, the operator % of strings: `interpolate` of starlark/eval.go. Strings
-- are lists of bytes.
pub mod Rounds
pub mod Rendering
pub mod Total
mod Tests
use starlark_go.Common.{
  ℕ, zero, suc, ◌+◌, ◌==◌, Bool, true, false, not, ◌&&◌, ◌||◌, if◌then◌else◌, ltb, leb, List, [],
  ◌∷◌, ◌++◌, Option, none, some, length, take, drop, get_elem?,
}
use starlark_go.Common.Int.{ℤ, pos, negsuc}

abbrev pub Text : Type 0
Text = List ℕ

-- The values, with what the packages fmt and unicode/utf8 write for them. `get` answers for a mapping,
-- and the text of a number depends on the conversion.
pub record Values : Type 1 where
  pub Value : Type 0
  pub Int : Type 0
  pub Float : Type 0
  pub tuple_of : Value → Option (List Value)
  pub mapping_of : Value → Option (Text → Option Value)
  pub string_of : Value → Option Text
  pub write_value : Value → Text
  pub number_to_int : Value → Option Int
  pub int_text : ℕ → Int → Text
  pub as_float : Value → Option Float
  pub float_text : ℕ → Float → Text
  pub as_int : Value → Option Int
  pub as_int32 : Int → Option ℤ
  pub rune_text : ℕ → Text
  pub decode_rune : Text → ℕ × ℕ

pub data Fault : Type 0 where
  incomplete_key needs_mapping not_enough incomplete too_many : Fault
  key_not_found : Text → Fault
  needs_integer needs_float unknown : ℕ → Fault
  bad_code_point not_one_character needs_character index_out_of_range : Fault

pub data Result (A : Type 0) : Type 0 where
  ok : A → Result A
  err : Fault → Result A

infixl 5 ◌>>=◌
abbrev pub ◌>>=◌ : {A B : Type 0} → Result A → (A → Result B) → Result B
ok a >>= f = f a
err e >>= f = err e

abbrev pub from_option : {A : Type 0} → Option A → Fault → Result A
from_option none e = err e
from_option (some a) e = ok a

-- `strings.IndexByte`
unfoldable pub index_byte : ℕ → Text → Option ℕ
index_byte c [] = none
index_byte c (x ∷ xs) =
    let later = index_byte c xs in
    if x == c then some 0 else elim later [ none ↦ none | some i ↦ some (suc i) ]

-- `format != "" && format[0] == c`
unfoldable pub starts_with : ℕ → Text → Bool
starts_with c [] = false
starts_with c (x ∷ xs) = x == c

-- The largest code point is 0x10FFFF.
unfoldable pub code_point_text : (ℕ → Text) → Option ℤ → Result Text
code_point_text rune_text none = err bad_code_point
code_point_text rune_text (some (pos r)) =
    if ltb 1114111 r then err bad_code_point else ok (rune_text r)
code_point_text rune_text (some (negsuc r)) = err bad_code_point

module _ (vs : Values) where
  open vs use {Value}

  -- %s and %r
  unfoldable pub convert_text : ℕ → Value → Result Text
  convert_text c arg = elim (vs.string_of arg) [
    | none ↦ ok (vs.write_value arg)
    | some str ↦ if c == 115 then ok str else ok (vs.write_value arg)
  ]

  -- %d, %i, %o, %x and %X
  unfoldable pub convert_int : ℕ → Value → Result Text
  convert_int c arg =
      from_option (vs.number_to_int arg) (needs_integer c)
      >>= (λ i. ok (vs.int_text (if c == 105 then 100 else c) i))

  -- %e, %f, %g, %E, %F and %G
  unfoldable pub convert_float : ℕ → Value → Result Text
  convert_float c arg =
      from_option (vs.as_float arg) (needs_float c) >>= (λ f. ok (vs.float_text c f))

  -- %c
  unfoldable pub convert_char : Value → Result Text
  unfolding code_point_text
  convert_char arg = elim (vs.as_int arg) [
    | some i ↦ code_point_text vs.rune_text (vs.as_int32 i)
    | none ↦ elim (vs.string_of arg) [
      | none ↦ err needs_character
      | some str ↦
          let (r, size) = vs.decode_rune str in
          if not (size == length str) || length str == 0
          then err not_one_character
          else ok (vs.rune_text r)
    ]
  ]

  -- The conversion of a value by the byte of its type.
  unfoldable pub convert : ℕ → Value → Result Text
  unfolding convert_text convert_int convert_float convert_char
  convert c arg =
      if c == 115 || c == 114
      then convert_text c arg
      else if c == 100 || c == 105 || c == 111 || c == 120 || c == 88
      then convert_int c arg
      else if c == 101 || c == 102 || c == 103 || c == 69 || c == 70 || c == 71
      then convert_float c arg
      else if c == 99
      then convert_char arg
      else if c == 37
      then ok (37 ∷ [])
      else err (unknown c)

  unfoldable pub nargs : Value → ℕ
  nargs x = elim (vs.tuple_of x) [ none ↦ 1 | some xs ↦ length xs ]

  -- The argument `%(name)`, and the format behind it.
  unfoldable pub keyed_argument : Value → Text → Result (Value × Text)
  unfolding index_byte
  keyed_argument x format = from_option (index_byte 41 format) incomplete_key >>= (λ j.
      from_option (vs.mapping_of x) needs_mapping >>= (λ get.
        from_option (get (take j format)) (key_not_found (take j format))
        >>= (λ v. ok (v, drop (suc j) format))))

  -- The next argument.
  unfoldable pub next_argument : Value → ℕ → Result Value
  unfolding nargs
  next_argument x index = if leb (nargs x) index then err not_enough else elim (vs.tuple_of x) [
    | none ↦ ok x
    | some xs ↦ from_option (get_elem? xs index) index_out_of_range
  ]

  unfoldable pub argument : Value → Text → ℕ → Result (Value × Text)
  unfolding keyed_argument next_argument starts_with
  argument x format index =
      if starts_with 40 format
      then keyed_argument x (drop 1 format)
      else (next_argument x index >>= (λ arg. ok (arg, format)))

  -- The conversion type at the head of the format.
  unfoldable pub conversion : Value → Text → ℕ → Text → Result (Text × ℕ × Text)
  unfolding convert
  conversion arg [] index buf = err incomplete
  conversion arg (c ∷ format) index buf =
      convert c arg >>= (λ text. ok (format, index + 1, buf ++ text))

  -- What follows a '%': the format behind it, the next index and the buffer.
  unfoldable pub directive : Value → Text → ℕ → Text → Result (Text × ℕ × Text)
  unfolding starts_with argument conversion
  directive x format index buf =
      if starts_with 37 format
      then ok (drop 1 format, index, buf ++ 37 ∷ [])
      else (argument x format index >>= (λ a. conversion a.0 a.1 index buf))

  -- The loop of `interpolate`, with fuel; none when that is used up.
  unfoldable pub interpolate_from : ℕ → Value → Text → ℕ → Text → Option (Result (Text × ℕ))
  unfolding index_byte directive
  interpolate_from zero x format index buf = none
  interpolate_from (suc fuel) x format index buf = elim (index_byte 37 format) [
    | none ↦ some (ok (buf ++ format, index))
    | some i ↦ elim (directive x (drop (suc i) format) index (buf ++ take i format)) [
      | err e ↦ some (err e)
      | ok next ↦ interpolate_from fuel x next.0 next.1 next.2
    ]
  ]

  -- The test behind the loop.
  unfoldable pub all_converted : Value → Text × ℕ → Result Text
  unfolding nargs
  all_converted x (buf, index) =
      let mapping = elim (vs.mapping_of x) as (λ _. Bool) [ none ↦ false | some get ↦ true ] in
      if ltb index (nargs x) && not mapping then err too_many else ok buf

  abbrev pub with_end : Value → Option (Result (Text × ℕ)) → Option (Result Text)
  with_end x none = none
  with_end x (some r) = some (r >>= all_converted x)

  -- Each round takes at least the '%', so the length and one round more are enough.
  unfoldable pub interpolate : Text → Value → Option (Result Text)
  unfolding interpolate_from all_converted
  interpolate format x = with_end x (interpolate_from (suc (length format)) x format 0 [])
