-- ===== src/Compile/LineTable/RoundTrip.antt =====
-- The encoder of `generate` against `decodeLNT`, internal/compile/compile.go.
use starlark_go.Common.{
  ℕ, zero, suc, ◌+◌, ◌-◌, ◌*◌, ◌/◌, ◌%◌, ◌^◌, ◌≤◌, ◌<◌, bit_and, bit_or, Bool, true, false, not,
  ◌≡◌, refl, ap, ◌∙◌, List, [], ◌∷◌, ◌++◌, some, ltb, ◌==◌, if◌then◌else◌, Bool-cases, All, arith,
  inl, inr, ◌⊎◌,
}
use starlark_go.Common.Bits.{bit_and-1, bit_and-31, bit_and-63, bit_or_below}
use starlark_go.Compile.LineTable.Words.{
  add32, sub32, magnitude, clip, sub32-add32, sub32-add32_right, sub32-lt, add32-lt, sub32-of-le,
}
use starlark_go.Compile.LineTable.{
  Row, row, encode_round, encode_row, distance, encode_rows, signed_field, decode_round, decode_lnt,
}

-- The fields of a row fit their words.
pub record IsWords (r : Row) : Type 0 where
  pub pc_word : r.pc < 2 ^ 32
  pub line_word : r.line < 2 ^ 32
  pub col_word : r.col < 2 ^ 32

-- The four fields of an entry do not overlap.
pack :
    (p l c i : ℕ)
    → p < 16
    → i < 2
    → bit_or (bit_or (bit_or (p * 2 ^ 12 % 2 ^ 16) (bit_and l 0x1f * 2 ^ 7)) (bit_and c 0x3f * 2)) i
      ≡ p * 2 ^ 12 + l % 32 * 2 ^ 7 + c % 64 * 2 + i
pack p l c i hp hi =
    let l' = l % 32 in
    let c' = c % 64 in
    let drop_mod : p * 2 ^ 12 % 2 ^ 16 ≡ p * 2 ^ 12 = omega arith in
    let upper : bit_or (p * 2 ^ 12 % 2 ^ 16) (l' * 2 ^ 7) ≡ (p * 32 + l') * 2 ^ 7 = omega (
      arith,
      ap (λ (t : ℕ). bit_or t (l' * 2 ^ 7)) drop_mod,
      bit_or_below 12 p (l' * 2 ^ 7) (omega arith),
    ) in
    let middle : bit_or ((p * 32 + l') * 2 ^ 7) (c' * 2) ≡ ((p * 32 + l') * 64 + c') * 2 ^ 1 =
      omega (arith, bit_or_below 7 (p * 32 + l') (c' * 2) (omega arith)) in
    rw (bit_and-31 l, bit_and-63 c, upper, middle)
      (bit_or_below 1 ((p * 32 + l') * 64 + c') i (omega arith) ∙ omega arith)

-- A clipped delta survives the sign extension of its field.
field_line :
    (x p l c i : ℕ)
    → x ≡ p * 2 ^ 12 + l % 32 * 2 ^ 7 + c % 64 * 2 + i
    → i < 2
    → p < 16
    → (l < 16) ⊎ ((2 ^ 32 - 16 ≤ l) × (l < 2 ^ 32))
    → signed_field x 4 11 ≡ l
unfolding signed_field
field_line x p l c i e hi hp h = ground arith

field_col :
    (x p l c i : ℕ)
    → x ≡ p * 2 ^ 12 + l % 32 * 2 ^ 7 + c % 64 * 2 + i
    → i < 2
    → p < 16
    → (c < 32) ⊎ ((2 ^ 32 - 32 ≤ c) × (c < 2 ^ 32))
    → signed_field x 9 10 ≡ c
unfolding signed_field
field_col x p l c i e hi hp h = ground arith

-- A clipped difference fits its field, and lies no further from 0 than the difference.
clip_line :
    (d : ℕ)
    → d < 2 ^ 32
    → let c = clip d (2 ^ 32 - 0x10) 0x0f in
      ((c.0 < 16) ⊎ ((2 ^ 32 - 16 ≤ c.0) × (c.0 < 2 ^ 32)))
      × (magnitude (sub32 d c.0) + (if c.1 then magnitude d else 1) ≤ magnitude d)
      × (c.1 ≡ true → c.0 ≡ d)
unfolding clip magnitude sub32
clip_line d h = ground arith

clip_col :
    (d : ℕ)
    → d < 2 ^ 32
    → let c = clip d (2 ^ 32 - 0x20) 0x1f in
      ((c.0 < 32) ⊎ ((2 ^ 32 - 32 ≤ c.0) × (c.0 < 2 ^ 32)))
      × (magnitude (sub32 d c.0) + (if c.1 then magnitude d else 1) ≤ magnitude d)
      × (c.1 ≡ true → c.0 ≡ d)
unfolding clip magnitude sub32
clip_col d h = ground arith

decode_pack :
    (r : Row) (p l c i : ℕ)
    → p < 16
    → (l < 16) ⊎ ((2 ^ 32 - 16 ≤ l) × (l < 2 ^ 32))
    → (c < 32) ⊎ ((2 ^ 32 - 32 ≤ c) × (c < 2 ^ 32))
    → i < 2
    → decode_round r (
        bit_or
          (bit_or (bit_or (p * 2 ^ 12 % 2 ^ 16) (bit_and l 0x1f * 2 ^ 7)) (bit_and c 0x3f * 2))
          i)
      ≡ (row (add32 r.pc p) (add32 r.line l) (add32 r.col c), i == 0)
unfolding decode_round
decode_pack r p l c i hp hl hc hi =
    let x = p * 2 ^ 12 + l % 32 * 2 ^ 7 + c % 64 * 2 + i in
    let top : x / 2 ^ 12 ≡ p = omega arith in
    let low : bit_and x 1 ≡ i = omega (arith, bit_and-1 x) in
    rw (
      pack p l c i hp hi,
      field_line x p l c i refl hi hp hl,
      field_col x p l c i refl hi hp hc,
      top,
      low,
    )

flag-is-0 : (b : Bool) → ((if b then 1 else 0) == 0) ≡ not b
flag-is-0 true = refl
flag-is-0 false = refl

flag-lt-2 : (b : Bool) → (if b then 1 else 0) < 2
flag-lt-2 true = omega arith
flag-lt-2 false = omega arith

module _ (prev target : Row) (hp : IsWords prev) (ht : IsWords target) where
  round_decoded :
      decode_round prev (encode_round prev target).0
      ≡ ((encode_round prev target).1, not (encode_round prev target).2)
  unfolding encode_round
  round_decoded =
      let dl = sub32 target.line prev.line in
      let dc = sub32 target.col prev.col in
      decode_pack prev _ _ _ _ (ground arith) (clip_line dl (sub32-lt _ _)).0
        (clip_col dc (sub32-lt _ _)).0 (flag-lt-2 _)
      ∙ rw flag-is-0

  round_IsWords : IsWords (encode_round prev target).1
  unfolding encode_round
  round_IsWords = record {
    pc_word = add32-lt _ _;
    line_word = add32-lt _ _;
    col_word = add32-lt _ _;
  }

  round_nearer :
      (encode_round prev target).2 ≡ true
      → distance (encode_round prev target).1 target < distance prev target
  unfolding encode_round distance
  round_nearer h =
      let dp = sub32 target.pc prev.pc in
      let dl = sub32 target.line prev.line in
      let dc = sub32 target.col prev.col in
      let cl = clip dl (2 ^ 32 - 0x10) 0x0f in
      let cn = clip dc (2 ^ 32 - 0x20) 0x1f in
      let sp : ℕ = if ltb 0x0f dp then 0x0f else dp in
      let kp = sub32-add32_right target.pc prev.pc sp in
      let kl = sub32-add32_right target.line prev.line cl.0 in
      let kc = sub32-add32_right target.col prev.col cn.0 in
      ground (
        arith,
        clip_line dl,
        clip_col dc,
        sub32-lt target.pc prev.pc,
        sub32-lt target.line prev.line,
        sub32-lt target.col prev.col,
        kp,
        kl,
        kc,
        sub32-of-le dp sp,
      )

  round_arrives : (encode_round prev target).2 ≡ false → (encode_round prev target).1 ≡ target
  unfolding encode_round
  round_arrives h =
      let dp = sub32 target.pc prev.pc in
      let dl = sub32 target.line prev.line in
      let dc = sub32 target.col prev.col in
      ground (
        arith,
        clip_line dl,
        clip_col dc,
        sub32-lt target.line prev.line,
        sub32-lt target.col prev.col,
        sub32-add32 target.pc prev.pc,
        sub32-add32 target.line prev.line,
        sub32-add32 target.col prev.col,
      )

-- The entries of one row lead the decoder from the row before to it, whatever entries follow.
encode_row_lem :
    (fuel : ℕ) (prev target : Row)
    → IsWords prev
    → IsWords target
    → distance prev target < fuel
    → (es : List ℕ) × (encode_row fuel prev target ≡ some es)
      × ((xs : List ℕ) → decode_lnt prev (es ++ xs) ≡ target ∷ decode_lnt target xs)
unfolding encode_row decode_lnt
encode_row_lem zero prev target hp ht h = absurd (omega arith)
encode_row_lem (suc fuel) prev target hp ht h =
    let r = encode_round prev target in
    let decoded = round_decoded prev target hp ht in
    elim (Bool-cases r.2) [
      | inl more ↦
          let (es, made, read) =
            encode_row_lem fuel r.1 target (round_IsWords prev target hp ht) ht
              (omega (arith, round_nearer prev target hp ht more)) in
          (r.0 ∷ es, rw (more, made), λ xs. rw (decoded, more) (read xs))
      | inr last ↦
          let there = round_arrives prev target hp ht last in
          (r.0 ∷ [], rw last, λ xs. rw (decoded, last, there))
    ]

-- The encoder writes a table for every sequence of rows of 32-bit words, and `decodeLNT` reads the
-- rows back from it.
pub decode_lnt-encode_rows :
    (start : Row) (rs : List Row)
    → IsWords start
    → All IsWords rs
    → (es : List ℕ) × (encode_rows start rs ≡ some es) × (decode_lnt start es ≡ rs)
unfolding encode_rows decode_lnt
decode_lnt-encode_rows start [] hs h = ([], refl, refl)
decode_lnt-encode_rows start (r ∷ rs) hs (hr, h) =
    let (es, made, read) = encode_row_lem (suc (distance start r)) start r hs hr (omega arith) in
    let (fs, more, rest) = decode_lnt-encode_rows r rs hr h in
    (es ++ fs, rw (made, more), read fs ∙ ap (λ (t : List Row). r ∷ t) rest)
