-- ===== src/Slices/Tests.antt =====
-- Slices of a list of letters, and the theorem at one.
use Prim.Native.String.{String}
use starlark_go.Common.{◌≡◌, refl, List, [], ◌∷◌}
use starlark_go.Slices.{missing, int32, sliced, slice}
use starlark_go.Common.Int.{pos, negsuc}
use starlark_go.Slices.Inside.{IsSettled, slice-IsSettled}

abbrev letters : List String
letters = "a" ∷ "b" ∷ "c" ∷ "d" ∷ []

forward_test : slice letters (int32 (pos 1)) (int32 (negsuc 0)) missing ≡ sliced ("b" ∷ "c" ∷ [])
unfolding slice
forward_test = refl

backward_test : slice letters missing missing (int32 (negsuc 1)) ≡ sliced ("d" ∷ "b" ∷ [])
unfolding slice
backward_test = refl

empty_test : slice letters missing (int32 (pos 100)) (int32 (negsuc 0)) ≡ sliced []
unfolding slice
empty_test = refl

slice-IsSettled_example :
    IsSettled (slice letters (int32 (negsuc 99)) (int32 (pos 3)) (int32 (negsuc 1)))
slice-IsSettled_example =
    slice-IsSettled letters (int32 (negsuc 99)) (int32 (pos 3)) (int32 (negsuc 1))
