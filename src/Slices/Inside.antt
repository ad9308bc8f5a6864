-- ===== src/Slices/Inside.antt =====
-- The loop of `(*List).Slice` of starlark/value.go, at the bounds that `slice` hands on.
use starlark_go.Common.{
  take, drop, leb, ◌==◌, ◌&&◌, ℕ, zero, suc, ◌+◌, ◌-◌, ◌≤◌, ◌<◌, ◌≡◌, refl, sym, subst, Bool, true,
  false, List, [], ◌∷◌, Option, some, length, get_elem?, ltb, ◌⊎◌, inl, inr, Bool-cases, arith,
  if◌then◌else◌,
}
use starlark_go.Slices.{
  Operand, missing, int32, refused, Error, bad_step, zero_step, Sliced, sliced, failed, forward,
  backward, with_elem, ahead, slice_loop, copy_range, list_slice, with_bounds, slice_by, slice,
}
use starlark_go.Common.Int.{ℤ, pos, negsuc, ltz}
use starlark_go.Slices.Bounds.{IsEnd, Settles, Upward, Downward, forward-Settles, backward-Settles}

inside : {A : Type 0} (xs : List A) (i : ℕ) → i < length xs → (x : A) × (get_elem? xs i ≡ some x)
inside [] i h = absurd (omega arith)
inside (x ∷ xs) zero h = (x, refl)
inside (x ∷ xs) (suc i) h = inside xs i (omega arith)

-- The slice is a list.
abbrev pub IsSliced : {A : Type 0} → Sliced A → Type 0
IsSliced {A} r = (ys : List A) × (r ≡ sliced ys)

module _ {A : Type 0} (xs : List A) where
  with_elem-IsSliced :
      (i : ℕ) (r : Sliced A) → i < length xs → IsSliced r → IsSliced (with_elem (get_elem? xs i) r)
  with_elem-IsSliced i r b s = let (x, e) = inside xs i b in rw (e, s.1) (x ∷ s.0, refl)

  up : (a b k : ℕ) → ahead (pos (suc k)) (pos b) (pos a) ≡ ltb a b
  unfolding ahead
  up a b k = ground arith

  forward_loop :
      (fuel a b k : ℕ)
      → b - a < fuel
      → b ≤ length xs
      → IsSliced (slice_loop fuel xs (pos a) (pos b) (pos (suc k)))
  unfolding slice_loop
  forward_loop zero a b k f h = absurd (omega arith)
  forward_loop (suc fuel) a b k f h = rw (up a b k) (elim (Bool-cases (ltb a b)) [
    | inl e ↦
        let less : a < b = ground arith in
        rw e
          (with_elem-IsSliced a _ (omega arith) (forward_loop fuel (a + suc k) b k (omega arith) h))
    | inr e ↦ rw e ([], refl)
  ])

  below : (k m : ℕ) (end : ℤ) → IsEnd end → ahead (negsuc k) end (negsuc m) ≡ false
  unfolding ahead
  below k m (pos b) h = refl
  below k m (negsuc c) h = ground arith

  past :
      (fuel k m : ℕ) (end : ℤ)
      → 0 < fuel
      → IsEnd end
      → IsSliced (slice_loop fuel xs (negsuc m) end (negsuc k))
  unfolding slice_loop
  past zero k m end f h = absurd (omega arith)
  past (suc fuel) k m end f h = rw (below k m end h) ([], refl)

  backward_loop :
      (fuel a k : ℕ) (end : ℤ)
      → suc a < fuel
      → a < length xs
      → IsEnd end
      → IsSliced (slice_loop fuel xs (pos a) end (negsuc k))
  unfolding slice_loop
  backward_loop zero a k end f h q = absurd (omega arith)
  backward_loop (suc fuel) a k end f h q = elim (Bool-cases (ahead (negsuc k) end (pos a))) [
    | inr e ↦ rw e ([], refl)
    | inl e ↦ rw e (
        with_elem-IsSliced a _ h (elim (Bool-cases (ltb k a)) [
          | inl l ↦ rw l (
              let less : k < a = ground arith in
              backward_loop fuel (a - suc k) k end (omega arith) (omega arith) q)
          | inr l ↦ rw l (past fuel k (k - a) end (omega arith) q)
        ]))
  ]

  same_ends : (i step : ℤ) → ahead step i i ≡ false
  unfolding ahead
  same_ends (pos a) (pos s) = ground arith
  same_ends (pos a) (negsuc s) = ground arith
  same_ends (negsuc a) (pos s) = ground arith
  same_ends (negsuc a) (negsuc s) = ground arith

  empty_loop : (fuel : ℕ) (i step : ℤ) → IsSliced (slice_loop (suc fuel) xs i i step)
  unfolding slice_loop
  empty_loop fuel i step = rw (same_ends i step) ([], refl)

-- The slice is a list, or an operand was refused.
abbrev pub IsSettled : {A : Type 0} → Sliced A → Type 0
IsSettled r = IsSliced r ⊎ ((e : Error) × (r ≡ failed e))

module _ {A : Type 0} (xs : List A) where
  with_bounds-IsSettled :
      (out : Error × Option (ℤ × ℤ)) (P : ℤ → ℤ → Type 0) (f : ℤ → ℤ → Sliced A)
      → Settles out P
      → ((i j : ℤ) → P i j → IsSliced (f i j))
      → IsSettled (with_bounds out f)
  unfolding Settles
  with_bounds-IsSettled out P f (inl (e, q)) h = rw q (inr (e, refl))
  with_bounds-IsSettled out P f (inr (e, i, j, q, p)) h = rw q (inl (h i j p))

  one_way :
      (a b k : ℕ) → a ≤ b → b ≤ length xs → IsSliced (list_slice xs (pos a) (pos b) (pos (suc k)))
  unfolding list_slice copy_range
  one_way a b k o h = elim (Bool-cases (suc k == 1)) [
    | inl e ↦ rw (e, in_range a b (length xs) o h) (take (b - a) (drop a xs), refl)
    | inr e ↦ rw e (forward_loop xs (suc (length xs)) a b k (omega arith) h)
  ]
    where
      in_range : (c d n : ℕ) → c ≤ d → d ≤ n → (leb c d && leb d n) ≡ true
      in_range c d n p q = ground arith

  slice_up : (lo hi : Operand) (k : ℕ) → IsSettled (slice_by xs lo hi (pos (suc k)))
  unfolding slice_by
  slice_up lo hi k =
      subst
        (λ (up : Bool). IsSettled (
          with_bounds (if up then forward lo hi (length xs) else backward lo hi (length xs))
            (λ i j. list_slice xs i j (pos (suc k)))))
        (sym (positive k))
        (with_bounds-IsSettled _ (Upward (length xs)) _ (forward-Settles lo hi (length xs))
          (λ i j p. let (a, b, ei, ej, o, h) = p in rw (ei, ej) (one_way a b k o h)))
    where
      positive : (m : ℕ) → ltz (pos 0) (pos (suc m)) ≡ true
      positive m = unfold ltz in ground arith

  slice_down : (lo hi : Operand) (k : ℕ) → IsSettled (slice_by xs lo hi (negsuc k))
  unfolding slice_by ltz list_slice
  slice_down lo hi k =
      with_bounds-IsSettled _ (Downward (length xs)) _ (backward-Settles lo hi (length xs))
        (λ i j p. elim p [
          | inl e ↦ rw e (empty_loop xs (length xs) j (negsuc k))
          | inr (a, e, h, q) ↦ rw e (backward_loop xs (suc (length xs)) a k j (omega arith) h q)
        ])

  -- A slice of a list with any operands ends in a list or an error: no index is out of range.
  pub slice-IsSettled : (lo hi step : Operand) → IsSettled (slice xs lo hi step)
  unfolding slice
  slice-IsSettled lo hi missing = slice_up lo hi 0
  slice-IsSettled lo hi refused = inr (bad_step, refl)
  slice-IsSettled lo hi (int32 (pos zero)) = inr (zero_step, refl)
  slice-IsSettled lo hi (int32 (pos (suc k))) = slice_up lo hi k
  slice-IsSettled lo hi (int32 (negsuc k)) = slice_down lo hi k
