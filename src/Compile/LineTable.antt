-- ===== src/Compile/LineTable.antt =====
-- The table from addresses to source positions: the delta encoding in `generate`, `decodeLNT` and the
-- search of `Position` in internal/compile/compile.go. A uint32 is a number below 2 ^ 32, and an int32
-- its bit pattern.
pub mod Words
pub mod RoundTrip
pub mod Position
mod Tests
use starlark_go.Common.{
  ℕ, zero, suc, ◌+◌, ◌-◌, ◌*◌, ◌/◌, ◌%◌, ◌^◌, bit_and, bit_or, Bool, true, false, not, ◌&&◌, List,
  [], ◌∷◌, ◌++◌, Option, none, some, ltb, leb, ◌==◌, if◌then◌else◌, ◌>>=◌, length, get_elem?,
}
use Words.{sub32, add32, magnitude, clip}

-- A row of the table, the `pclinecol` of the source.
pub record Row : Type 0 where
  pub pc : ℕ
  pub line : ℕ
  pub col : ℕ

abbrev pub row : ℕ → ℕ → ℕ → Row
row p l c = record { pc = p; line = l; col = c }

-- One round of the encoder's loop, from the row `prev` towards `target`: the 16 bits that it writes,
-- the row that it has reached, and whether the round was incomplete.
unfoldable pub encode_round : Row → Row → ℕ × Row × Bool
unfolding sub32 add32 clip
encode_round prev target =
    let delta = sub32 target.pc prev.pc in
    let far = ltb 0x0f delta in
    let deltapc = if far then 0x0f else delta in
    let (deltaline, line_ok) = clip (sub32 target.line prev.line) (2 ^ 32 - 0x10) 0x0f in
    let (deltacol, col_ok) = clip (sub32 target.col prev.col) (2 ^ 32 - 0x20) 0x1f in
    let incomplete = if far then true else if line_ok then not col_ok else true in
    (
      bit_or
          (bit_or (bit_or (deltapc * 2 ^ 12 % 2 ^ 16) (bit_and deltaline 0x1f * 2 ^ 7))
            (bit_and deltacol 0x3f * 2))
          (if incomplete then 1 else 0),
      row (add32 prev.pc deltapc) (add32 prev.line deltaline) (add32 prev.col deltacol),
      incomplete,
    )

-- The loop: the entries of one row. `none` means that the fuel ran out.
pub encode_row : ℕ → Row → Row → Option (List ℕ)
encode_row zero prev target = none
encode_row (suc fuel) prev target =
    let (entry, reached, incomplete) = encode_round prev target in
    let rest = encode_row fuel reached target in
    if incomplete then (rest >>= λ es. some (entry ∷ es)) else some (entry ∷ [])

-- How far `prev` is from `target`: each incomplete round comes nearer.
pub distance : Row → Row → ℕ
unfolding sub32
distance prev target =
    sub32 target.pc prev.pc
    + magnitude (sub32 target.line prev.line)
    + magnitude (sub32 target.col prev.col)

-- The entries of a sequence of rows, each encoded against the one before it.
pub encode_rows : Row → List Row → Option (List ℕ)
encode_rows prev [] = some []
encode_rows prev (r ∷ rs) = do
  es ← encode_row (suc (distance prev r)) prev r
  fs ← encode_rows r rs
  some (es ++ fs)

-- `int32((int16(x) << k) >> (16 - w))` at a 16-bit shift left by `k` and right by `16 - w`, as a pattern of 32 bits.
unfoldable pub signed_field : ℕ → ℕ → ℕ → ℕ
signed_field x k r =
    let shifted = x * 2 ^ k % 2 ^ 16 in
    if ltb shifted (2 ^ 15) then shifted / 2 ^ r else shifted / 2 ^ r + (2 ^ 32 - 2 ^ 16 / 2 ^ r)

-- The body of the loop of `decodeLNT`: the row reached, and whether it is complete.
unfoldable pub decode_round : Row → ℕ → Row × Bool
unfolding add32 signed_field
decode_round entry x = (
  row (add32 entry.pc (x / 2 ^ 12)) (add32 entry.line (signed_field x 4 11))
      (add32 entry.col (signed_field x 9 10)),
  bit_and x 1 == 0,
)

-- `decodeLNT` from the row `entry` on.
pub decode_lnt : Row → List ℕ → List Row
decode_lnt entry [] = []
decode_lnt entry (x ∷ xs) =
    let (entry', complete) = decode_round entry x in
    let rest = decode_lnt entry' xs in if complete then entry' ∷ rest else rest
