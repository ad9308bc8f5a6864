-- ===== src/Compile/LineTable/Tests.antt =====
-- Runs of the table code, and the theorem at a concrete table.
use starlark_go.Common.{zero, suc, get_elem?, ℕ, ◌≡◌, refl, List, [], ◌∷◌, some, arith}
use starlark_go.Compile.LineTable.{
  Row, row, encode_row, encode_rows, distance, encode_round, decode_lnt, decode_round,
}
use starlark_go.Compile.LineTable.Words.{magnitude}
use starlark_go.Compile.LineTable.Position.{position}
use starlark_go.Compile.LineTable.Position.Last.{IsSorted, IsFound, position-IsFound}
use starlark_go.Compile.LineTable.RoundTrip.{decode_lnt-encode_rows}

abbrev start : Row
start = row 0 10 4

-- The second row goes a line back, and the third is 40 lines on.
abbrev rows : List Row
rows = row 2 11 8 ∷ row 5 10 6 ∷ row 9 50 6 ∷ []

rows_encoded : encode_rows start rows ≡ some (0x2088 ∷ 0x3ffc ∷ 0x4781 ∷ 0x0781 ∷ 0x0500 ∷ [])
unfolding encode_rows encode_row encode_round distance magnitude
rows_encoded = refl

rows_decoded : decode_lnt start (0x2088 ∷ 0x3ffc ∷ 0x4781 ∷ 0x0781 ∷ 0x0500 ∷ []) ≡ rows
unfolding decode_lnt decode_round
rows_decoded = refl

decode_lnt-encode_rows_example :
    (es : List ℕ) × (encode_rows start rows ≡ some es) × (decode_lnt start es ≡ rows)
decode_lnt-encode_rows_example = decode_lnt-encode_rows start rows (omega arith) (omega arith)

-- Three rows, searched at an address inside the second.
rows-IsSorted : IsSorted rows
rows-IsSorted zero zero p q = omega arith
rows-IsSorted zero (suc zero) p q = omega arith
rows-IsSorted zero (suc (suc zero)) p q = omega arith
rows-IsSorted (suc zero) zero p q = absurd (omega arith)
rows-IsSorted (suc zero) (suc zero) p q = omega arith
rows-IsSorted (suc zero) (suc (suc zero)) p q = omega arith
rows-IsSorted (suc (suc zero)) (suc (suc zero)) p q = omega arith
rows-IsSorted (suc (suc zero)) zero p q = absurd (omega arith)
rows-IsSorted (suc (suc zero)) (suc zero) p q = absurd (omega arith)
rows-IsSorted (suc (suc (suc a))) b p q = absurd (omega arith)
rows-IsSorted a (suc (suc (suc b))) p q = absurd (omega arith)

position-IsFound_example :
    (k : ℕ) × (r : Row) × (get_elem? rows k ≡ some r)
    × (position rows 7 ≡ some (r.line, r.col))
    × IsFound rows 7 k
position-IsFound_example = position-IsFound rows 7 rows-IsSorted (omega arith)

position_test : position rows 7 ≡ some (10, 6)
unfolding position
position_test = refl
