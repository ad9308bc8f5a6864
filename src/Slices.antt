-- ===== src/Slices.antt =====
-- Slices: `slice`, `indices` and `asIndex` of starlark/eval.go, and the `Slice` method of a list in
-- starlark/value.go. The indices are 32-bit, and lengths are far below 2 ^ 62, so that sums of Go's int
-- stay exact.
pub mod Bounds
pub mod Inside
mod Tests
use starlark_go.Common.{
  take, drop, leb, ◌==◌, ◌&&◌, ◌-◌, ℕ, zero, suc, ◌+◌, Bool, true, false, not, List, [], ◌∷◌,
  Option, none, some, length, get_elem?, ltb, if◌then◌else◌, ◌>>=◌,
}
use starlark_go.Common.Int.{ℤ, pos, negsuc, ltz, add}

-- An operand of a slice: nil or None, an integer of 32 bits, or what `AsInt32` refuses.
pub data Operand : Type 0 where
  missing : Operand
  int32 : ℤ → Operand
  refused : Operand

pub data Error : Type 0 where
  bad_start bad_end bad_step zero_step : Error

-- How a slice ends. `panic` is an index out of range, `stuck` no outcome of the source.
pub data Sliced (A : Type 0) : Type 0 where
  sliced : List A → Sliced A
  failed : Error → Sliced A
  panic stuck : Sliced A

-- `asIndex` with the default in `result`; none is its error.
unfoldable pub as_index : Operand → ℕ → ℤ → Option ℤ
unfolding ltz add
as_index missing len result = some result
as_index (int32 i) len result = some (if ltz i (pos 0) then add i (pos len) else i)
as_index refused len result = none

-- Clamp to [0:len].
unfoldable pub clamp : ℤ → ℕ → ℤ
unfolding ltz
clamp i len = if ltz i (pos 0) then pos 0 else if ltz (pos len) i then pos len else i

-- The bounds for a positive stride.
unfoldable pub forward : Operand → Operand → ℕ → Error × Option (ℤ × ℤ)
unfolding as_index clamp ltz
forward lo hi n = elim (as_index lo n (pos 0)) [
  | none ↦ (bad_start, none)
  | some s ↦ elim (as_index hi n (pos n)) [
    | none ↦ (bad_end, none)
    | some e ↦
        let start = clamp s n in
        let end = clamp e n in (bad_end, some (start, if ltz end start then start else end))
  ]
]

-- The bounds for a negative stride.
unfoldable pub backward : Operand → Operand → ℕ → Error × Option (ℤ × ℤ)
unfolding as_index ltz add
backward lo hi n =
    let last = add (pos n) (negsuc 0) in
    elim (as_index lo n last) [
      | none ↦ (bad_start, none)
      | some s ↦ elim (as_index hi n (negsuc 0)) [
        | none ↦ (bad_end, none)
        | some e ↦
            let start = if ltz s (pos n) then s else last in
            let end = if ltz e (negsuc 0) then negsuc 0 else e in
            (bad_end, some (if ltz start end then end else start, end))
      ]
    ]

abbrev pub with_elem : {A : Type 0} → Option A → Sliced A → Sliced A
with_elem none rest = panic
with_elem (some x) (sliced xs) = sliced (x ∷ xs)
with_elem (some x) (failed e) = failed e
with_elem (some x) panic = panic
with_elem (some x) stuck = stuck

unfoldable pub elem_at : {A : Type 0} → List A → ℤ → Option A
elem_at xs (pos i) = get_elem? xs i
elem_at xs (negsuc i) = none

-- `signum(end - i) == signum(step)`
unfoldable pub ahead : ℤ → ℤ → ℤ → Bool
unfolding ltz
ahead step end i = if ltz (pos 0) step then ltz i end else ltz end i

-- The loop of `(*List).Slice`, with fuel.
unfoldable pub slice_loop : {A : Type 0} → ℕ → List A → ℤ → ℤ → ℤ → Sliced A
unfolding ahead elem_at add
slice_loop zero xs i end step = stuck
slice_loop (suc fuel) xs i end step =
    let rest = slice_loop fuel xs (add i step) end step in
    if ahead step end i then with_elem (elem_at xs i) rest else sliced []

-- `l.elems[start:end]`
unfoldable pub copy_range : {A : Type 0} → List A → ℤ → ℤ → Sliced A
copy_range xs (pos a) (pos b) =
    if leb a b && leb b (length xs) then sliced (take (b - a) (drop a xs)) else panic
copy_range xs (pos a) (negsuc b) = panic
copy_range xs (negsuc a) end = panic

abbrev pub is_one : ℤ → Bool
is_one (pos a) = a == 1
is_one (negsuc a) = false

-- `(*List).Slice`. Each round of the loop goes at least one item on, so the length and one round more
-- are enough.
unfoldable pub list_slice : {A : Type 0} → List A → ℤ → ℤ → ℤ → Sliced A
unfolding copy_range slice_loop
list_slice xs start end step =
    if is_one step then copy_range xs start end else slice_loop (suc (length xs)) xs start end step

abbrev pub with_bounds : {A : Type 0} → Error × Option (ℤ × ℤ) → (ℤ → ℤ → Sliced A) → Sliced A
with_bounds (e, none) f = failed e
with_bounds (e, some (start, end)) f = f start end

-- `slice` of a list at a step that is an integer other than zero.
unfoldable pub slice_by : {A : Type 0} → List A → Operand → Operand → ℤ → Sliced A
unfolding forward backward list_slice
slice_by xs lo hi step =
    let n = length xs in
    with_bounds (if ltz (pos 0) step then forward lo hi n else backward lo hi n)
      (λ start end. list_slice xs start end step)

unfoldable pub slice : {A : Type 0} → List A → Operand → Operand → Operand → Sliced A
unfolding slice_by
slice xs lo hi missing = slice_by xs lo hi (pos 1)
slice xs lo hi refused = failed bad_step
slice xs lo hi (int32 (pos zero)) = failed zero_step
slice xs lo hi (int32 (pos (suc k))) = slice_by xs lo hi (pos (suc k))
slice xs lo hi (int32 (negsuc k)) = slice_by xs lo hi (negsuc k)
