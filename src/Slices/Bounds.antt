-- ===== src/Slices/Bounds.antt =====
-- The bounds that `slice` of starlark/eval.go hands on.
use starlark_go.Common.{
  ℕ, ◌≤◌, ◌<◌, ◌≡◌, refl, ap, false, Option, none, some, ltb, ◌⊎◌, inl, inr, Bool-cases,
  Option-cases, arith, if◌then◌else◌,
}
use starlark_go.Slices.{Operand, Error, bad_start, bad_end, as_index, clamp, forward, backward}
use starlark_go.Common.Int.{ℤ, pos, negsuc, ltz, add}

-- The end of a slice at a negative step: an index, or -1.
abbrev pub IsEnd : ℤ → Type 0
IsEnd (pos b) = Unit {0}
IsEnd (negsuc m) = m ≡ 0

-- The bounds that a slice ends up with, or an error of its operands.
not_below : (a : ℕ) → ltb a 0 ≡ false
not_below a = ground arith

clamp-pos : (i : ℤ) (n : ℕ) → (c : ℕ) × (clamp i n ≡ pos c) × (c ≤ n)
unfolding clamp
clamp-pos (negsuc a) n = (0, refl, omega arith)
clamp-pos (pos a) n = elim (Bool-cases (ltb n a)) [
  | inl e ↦ rw (not_below a, e) (n, refl, omega arith)
  | inr e ↦ rw (not_below a, e) (a, refl, ground arith)
]

unfoldable pub Settles : Error × Option (ℤ × ℤ) → (ℤ → ℤ → Type 0) → Type 0
Settles out P =
    ((e : Error) × (out ≡ (e, none)))
    ⊎ ((e : Error) × (i : ℤ) × (j : ℤ) × (out ≡ (e, some (i, j))) × P i j)

abbrev pub Upward : ℕ → ℤ → ℤ → Type 0
Upward n i j = (a : ℕ) × (b : ℕ) × (i ≡ pos a) × (j ≡ pos b) × (a ≤ b) × (b ≤ n)

pub forward-Settles : (lo hi : Operand) (n : ℕ) → Settles (forward lo hi n) (Upward n)
unfolding forward Settles
forward-Settles lo hi n = elim (Option-cases (as_index lo n (pos 0))) [
  | inl e ↦ rw (e, forward) (inl (bad_start, refl))
  | inr (s, e) ↦
      rw (e, forward)
        (elim (Option-cases (as_index hi n (pos n))) [
          | inl q ↦ rw q (inl (bad_end, refl))
          | inr (t, q) ↦ rw q (
              let (a, ca, la) = clamp-pos s n in
              let (b, cb, lb) = clamp-pos t n in
              rw (ca, cb)
                (elim (Bool-cases (ltb b a)) [
                  | inl l ↦
                      rw l (inr (bad_end, pos a, pos a, refl, (a, a, refl, refl, omega arith, la)))
                  | inr l ↦
                      rw l (inr (bad_end, pos a, pos b, refl, (a, b, refl, refl, ground arith, lb)))
                ]))
        ])
]

-- An index below the length, or a negative number.
abbrev IsStart : ℕ → ℤ → Type 0
IsStart n (pos a) = a < n
IsStart n (negsuc m) = Unit {0}

abbrev pub Downward : ℕ → ℤ → ℤ → Type 0
Downward n i j = (i ≡ j) ⊎ ((a : ℕ) × (i ≡ pos a) × (a < n) × IsEnd j)

last_index : (n : ℕ) → IsStart n (add (pos n) (negsuc 0))
unfolding add
last_index n = elim (Bool-cases (ltb 0 n)) [ inl e ↦ rw e (ground arith) | inr e ↦ rw e tt ]

IsStart-clipped : (s : ℤ) (n : ℕ) → IsStart n (if ltz s (pos n) then s else add (pos n) (negsuc 0))
unfolding ltz
IsStart-clipped (pos a) n = elim (Bool-cases (ltb a n)) [
  | inl e ↦ rw e (ground arith)
  | inr e ↦ rw e (last_index n)
]
IsStart-clipped (negsuc m) n = tt

IsEnd-clipped : (e : ℤ) → IsEnd (if ltz e (negsuc 0) then negsuc 0 else e)
unfolding ltz
IsEnd-clipped (pos b) = tt
IsEnd-clipped (negsuc c) = elim (Bool-cases (ltb 0 c)) [
  | inl e ↦ rw e refl
  | inr e ↦ rw e (ground arith)
]

pick-Downward : (n : ℕ) (s e : ℤ) → IsStart n s → IsEnd e → Downward n (if ltz s e then e else s) e
unfolding ltz
pick-Downward n (pos a) e h q = elim (Bool-cases (ltz (pos a) e)) [
  | inl l ↦ rw l (inl refl)
  | inr l ↦ rw l (inr (a, refl, h, q))
]
pick-Downward n (negsuc m) (pos b) h q = inl refl
pick-Downward n (negsuc m) (negsuc c) h q = elim (Bool-cases (ltb c m)) [
  | inl l ↦ rw l (inl refl)
  | inr l ↦ rw l (inl (ap negsuc (ground arith)))
]

pub backward-Settles : (lo hi : Operand) (n : ℕ) → Settles (backward lo hi n) (Downward n)
unfolding backward Settles
backward-Settles lo hi n = elim (Option-cases (as_index lo n (add (pos n) (negsuc 0)))) [
  | inl e ↦ rw (e, backward) (inl (bad_start, refl))
  | inr (s, e) ↦
      rw (e, backward)
        (elim (Option-cases (as_index hi n (negsuc 0))) [
          | inl q ↦ rw q (inl (bad_end, refl))
          | inr (t, q) ↦ rw q (
              inr
                (bad_end, _, _, refl, pick-Downward n _ _ (IsStart-clipped s n) (IsEnd-clipped t)))
        ])
]
