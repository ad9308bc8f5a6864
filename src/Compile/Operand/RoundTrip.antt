-- ===== src/Compile/Operand/RoundTrip.antt =====
-- `addUint32` of internal/compile/compile.go against the operand loop of starlark/interp.go.
use starlark_go.Common.{
  ℕ, zero, suc, ◌+◌, ◌-◌, ◌*◌, ◌/◌, ◌%◌, ◌^◌, ◌≤◌, ◌<◌, max, bit_or, ◌≡◌, sym, ap, ◌∙◌, ◌↔◌, List,
  [], ◌∷◌, ◌++◌, some, length, length-append, length-replicate, drop-append, replicate, ltb,
  if◌then◌else◌, arith, append_assoc, append-nil, Acc, lt_wf, dec_lt,
}
use starlark_go.Common.Bits.{bit_and-127, bit_or_above, bit_or_128}
use native.Mathlib.Nat.{mod-eq_of_lt, div-add-mod}
use native.Mathlib.Numerals.{towards_suc}
use starlark_go.Compile.Operand.{
  nop, add_groups, pad, add_uint32, arg_len_loop, arg_len, read_groups, read_operand,
}

-- The groups of seven bits of `x`, lowest first, for `x` below 128 ^ (k + 1).
pub groups : ℕ → ℕ → List ℕ
groups zero x = x ∷ []
groups (suc k) x =
    let rest = groups k (x / 128) in if ltb x 128 then x ∷ [] else (x % 128 + 128) ∷ rest

add_groups-groups :
    (k : ℕ) (code : List ℕ) (x : ℕ) (w : Acc ◌<◌ x)
    → x < 128 ^ suc k
    → add_groups code x w ≡ code ++ groups k x
unfolding add_groups groups dec_lt
add_groups-groups zero code x (Acc.intro _ smaller) h = ground arith
add_groups-groups (suc k) code x (Acc.intro _ smaller) h = grind (
  arith,
  bit_or_128 (x % 256),
  λ (w : Acc ◌<◌ (x / 128)).
      add_groups-groups k (code ++ (x % 128 + 128) ∷ []) (x / 128) w (omega arith),
  append_assoc code ((x % 128 + 128) ∷ []) (groups k (x / 128)),
)

arg_len_loop-groups :
    (k n x : ℕ) (w : Acc ◌<◌ x) → x < 128 ^ suc k → arg_len_loop n x w ≡ n + length (groups k x)
unfolding arg_len_loop groups dec_lt
arg_len_loop-groups zero n x (Acc.intro _ smaller) h = ground arith
arg_len_loop-groups (suc k) n x (Acc.intro _ smaller) h =
    grind
      (arith, λ (w : Acc ◌<◌ (x / 128)). arg_len_loop-groups k (n + 1) (x / 128) w (omega arith))

pad-replicate : (n : ℕ) (code : List ℕ) → pad n code ≡ code ++ replicate n nop
unfolding pad
pad-replicate zero code = sym (append-nil code)
pad-replicate (suc n) code = pad-replicate n (code ++ nop ∷ []) ∙ append_assoc code (nop ∷ []) _

-- An operand of 32 bits: its groups, and the NOPs that fill it up to `min` bytes.
pub add_uint32-groups :
    (code : List ℕ) (x min : ℕ)
    → x < 2 ^ 32
    → add_uint32 code x min ≡ code ++ (groups 4 x ++ replicate (min - length (groups 4 x)) nop)
unfolding add_uint32
add_uint32-groups code x min h =
    let e = add_groups-groups 4 code x (lt_wf.apply x) (omega arith) in
    rw (e, pad-replicate, append_assoc, length-append)
      (ap (λ (t : ℕ). code ++ (groups 4 x ++ replicate t nop)) (omega arith))

pub arg_len-groups : (x : ℕ) → x < 2 ^ 32 → arg_len x ≡ length (groups 4 x)
unfolding arg_len
arg_len-groups x h = arg_len_loop-groups 4 0 x (lt_wf.apply x) (omega arith) ∙ omega arith

-- One more group above the `s` bits that are read.
or_group :
    (acc g s : ℕ)
    → acc < 2 ^ s
    → acc + g * 2 ^ s < 2 ^ 32
    → bit_or acc (g * 2 ^ s % 2 ^ 32) ≡ acc + g * 2 ^ s
or_group acc g s h fits = ap (bit_or acc) (mod-eq_of_lt (omega arith)) ∙ bit_or_above s acc g h

shift_seven : (s : ℕ) → 2 ^ (s + 7) ≡ 128 * 2 ^ s
shift_seven s = simp towards_suc (omega arith)

split_group : (x s : ℕ) → x * 2 ^ s ≡ x % 128 * 2 ^ s + x / 128 * 2 ^ (s + 7)
split_group x s = omega (
  arith,
  ap (λ (t : ℕ). t * 2 ^ s) (div-add-mod x 128),
  ap (λ (t : ℕ). x / 128 * t) (shift_seven s),
)

-- One round of the loop, on the last byte of an operand and on an earlier one.
read_last :
    (b acc s pc : ℕ) (rest : List ℕ)
    → b < 128
    → acc < 2 ^ s
    → acc + b * 2 ^ s < 2 ^ 32
    → read_groups (b ∷ rest) s acc pc ≡ some (acc + b * 2 ^ s, pc + 1)
unfolding read_groups
read_last b acc s pc rest hb ha fits = ground (arith, bit_and-127 b, or_group acc b s)

read_more :
    (g acc s pc : ℕ) (rest : List ℕ)
    → g < 128
    → acc < 2 ^ s
    → acc + g * 2 ^ s < 2 ^ 32
    → read_groups ((g + 128) ∷ rest) s acc pc ≡ read_groups rest (s + 7) (acc + g * 2 ^ s) (pc + 1)
unfolding read_groups
read_more g acc s pc rest hg ha fits = ground (arith, bit_and-127 (g + 128), or_group acc g s)

below_next : (acc g s : ℕ) → acc < 2 ^ s → g < 128 → acc + g * 2 ^ s < 2 ^ (s + 7)
below_next acc g s ha hg = grind (arith, shift_seven s)

-- `x` is what is still to be read, and it counts from bit `s` on.
read_groups-groups :
    (k x acc s pc : ℕ) (rest : List ℕ)
    → x < 128 ^ suc k
    → acc < 2 ^ s
    → acc + x * 2 ^ s < 2 ^ 32
    → read_groups (groups k x ++ rest) s acc pc ≡ some (acc + x * 2 ^ s, pc + length (groups k x))
unfolding groups
read_groups-groups zero x acc s pc rest hx ha fits = read_last x acc s pc rest hx ha fits
read_groups-groups (suc k) x acc s pc rest hx ha fits = ground (
  arith,
  read_last x acc s pc rest,
  split_group x s,
  below_next acc (x % 128) s,
  read_more (x % 128) acc s pc (groups k (x / 128) ++ rest),
  read_groups-groups k (x / 128) (acc + x % 128 * 2 ^ s) (s + 7) (pc + 1) rest (omega arith),
)

-- An operand written behind `pre`, with any padding, is read back at its address: the operand and
-- the address that lies `argLen` bytes further, whatever follows.
pub read_operand-add_uint32 :
    (pre rest : List ℕ) (x min : ℕ)
    → x < 2 ^ 32
    → read_operand (add_uint32 pre x min ++ rest) (length pre) ≡ some (x, length pre + arg_len x)
unfolding read_operand
read_operand-add_uint32 pre rest x min h =
    rw (add_uint32-groups pre x min h, append_assoc, drop-append, append_assoc, arg_len-groups x h)
      (read_groups-groups 4 x 0 0 (length pre) _ (omega arith) (omega arith) (omega arith)
        ∙ ap (λ (t : ℕ). some (t, length pre + length (groups 4 x))) (omega arith))

length-groups : (k x : ℕ) → (1 ≤ length (groups k x)) × (length (groups k x) ≤ k + 1)
unfolding groups
length-groups zero x = omega arith
length-groups (suc k) x = ground (arith, length-groups k (x / 128))

-- The code grows by the room that the layout of the blocks reckons with: `argLen(x)` bytes, or `min`
-- bytes where that is more.
pub length-add_uint32 :
    (code : List ℕ) (x min : ℕ)
    → x < 2 ^ 32
    → length (add_uint32 code x min) ≡ length code + max min (arg_len x)
length-add_uint32 code x min h =
    rw (add_uint32-groups code x min h, arg_len-groups x h)
      (omega (
        arith,
        length-append code (groups 4 x ++ replicate (min - length (groups 4 x)) nop),
        length-append (groups 4 x) (replicate (min - length (groups 4 x)) nop),
        length-replicate (min - length (groups 4 x)) nop,
      ))

groups_more : (k x : ℕ) → 128 ≤ x → length (groups (suc k) x) ≡ suc (length (groups k (x / 128)))
unfolding groups
groups_more k x h = ground arith

groups_last : (k x : ℕ) → x < 128 → length (groups (suc k) x) ≡ 1
unfolding groups
groups_last k x h = ground arith

groups_short : (k x : ℕ) → x < 128 ^ suc k → length (groups (suc k) x) ≤ k + 1
groups_short zero x h = omega (arith, groups_last 0 x h)
groups_short (suc k) x h = elim (dec_lt x 128) [
  | yes p ↦ omega (arith, groups_last (suc k) x p)
  | no p ↦ omega (arith, groups_more (suc k) x (omega arith), groups_short k (x / 128))
]

groups_long : (x : ℕ) → 2 ^ 28 ≤ x → 5 ≤ length (groups 4 x)
groups_long x h = omega (
  arith,
  groups_more 3 x (omega arith),
  groups_more 2 (x / 128) (omega arith),
  groups_more 1 (x / 128 / 128) (omega arith),
  groups_more 0 (x / 128 / 128 / 128) (omega arith),
  length-groups 0 (x / 128 / 128 / 128 / 128),
)

-- An operand fits the four bytes of a jump exactly when it is below 2 ^ 28.
arg_len-le-4 : (x : ℕ) → x < 2 ^ 32 → (arg_len x ≤ 4) ↔ (x < 2 ^ 28)
arg_len-le-4 x h = rw (arg_len-groups x h) (
  λ fits. elim (dec_lt x (2 ^ 28)) [
    | yes p ↦ p
    | no p ↦ absurd (omega (arith, groups_long x (omega arith)))
  ],
  λ fits. groups_short 3 x fits,
)
