-- ===== src/Format/Tests.antt =====
-- Runs of `interpolate` of starlark/eval.go.
use starlark_go.Common.{
  ℕ, ◌+◌, ◌==◌, if◌then◌else◌, ◌≡◌, refl, List, [], ◌∷◌, Option, none, some, length,
}
use starlark_go.Common.Int.{pos}
use starlark_go.Format.{
  Text, Values, ok, err, too_many, interpolate, interpolate_from, index_byte, starts_with,
  directive, argument, keyed_argument, next_argument, nargs, conversion, convert, convert_text,
  convert_int, all_converted,
}
use starlark_go.Format.Rendering.{Piece, print, render, interpolate-render}
use starlark_go.Format.Total.{interpolate-ends}

-- Small numbers, strings, pairs, and a mapping of each key of one byte.
data Sample : Type 0 where
  number : ℕ → Sample
  str : Text → Sample
  pair : Sample → Sample → Sample
  mapping : Sample → Sample

abbrev tuple_of : Sample → Option (List Sample)
tuple_of (pair a b) = some (a ∷ b ∷ [])
tuple_of _ = none

abbrev at_key : Sample → Text → Option Sample
at_key v key = if length key == 1 then some v else none

abbrev mapping_of : Sample → Option (Text → Option Sample)
mapping_of (mapping v) = some (at_key v)
mapping_of _ = none

abbrev string_of : Sample → Option Text
string_of (str t) = some t
string_of _ = none

abbrev as_number : Sample → Option ℕ
as_number (number n) = some n
as_number _ = none

abbrev samples : Values
samples = record {
  Value = Sample;
  Int = ℕ;
  Float = ℕ;
  tuple_of = tuple_of;
  mapping_of = mapping_of;
  string_of = string_of;
  write_value = λ v. 63 ∷ [];
  number_to_int = as_number;
  int_text = λ c n. (48 + n) ∷ [];
  as_float = as_number;
  float_text = λ c n. (48 + n) ∷ [];
  as_int = as_number;
  as_int32 = λ n. some (pos n);
  rune_text = λ r. r ∷ [];
  decode_rune = λ t. (65, length t);
}

abbrev two : Sample
two = pair (str (97 ∷ [])) (number 7)

-- "%s%%%d" % ("a", 7)
abbrev pieces : List Piece
pieces = Piece.verb 115 ∷ Piece.byte 37 ∷ Piece.verb 100 ∷ []

interpolate-render_example :
    interpolate samples (print pieces) two
    ≡ some (render samples pieces (str (97 ∷ []) ∷ number 7 ∷ []) [])
interpolate-render_example =
    interpolate-render samples two (str (97 ∷ []) ∷ number 7 ∷ []) refl refl pieces
      ((refl, refl), (tt, ((refl, refl), tt)))

interpolate-ends_example :
    ¬ (interpolate samples (37 ∷ 40 ∷ 107 ∷ 41 ∷ 100 ∷ []) (mapping (number 3)) ≡ none)
interpolate-ends_example =
    interpolate-ends samples (mapping (number 3)) (37 ∷ 40 ∷ 107 ∷ 41 ∷ 100 ∷ [])

keyed :
    interpolate samples (37 ∷ 40 ∷ 107 ∷ 41 ∷ 100 ∷ []) (mapping (number 3)) ≡ some (ok (51 ∷ []))
unfolding interpolate interpolate_from directive argument keyed_argument index_byte starts_with
    conversion convert convert_int all_converted nargs
keyed = refl

mixed : interpolate samples (print pieces) two ≡ some (ok (97 ∷ 37 ∷ 55 ∷ []))
unfolding interpolate interpolate_from directive argument next_argument index_byte starts_with
    conversion convert convert_int convert_text all_converted nargs print
mixed = refl

surplus : interpolate samples (37 ∷ 115 ∷ []) two ≡ some (err too_many)
unfolding interpolate interpolate_from directive argument next_argument index_byte starts_with
    conversion convert convert_text all_converted nargs
surplus = refl
