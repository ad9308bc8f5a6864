-- ===== src/Hashtable/Bounds.antt =====
-- Bounds of starlark/hashtable.go: the chain of a hash, and the number of buckets that `init` settles on.
use starlark_go.Common.{
  ℕ, zero, suc, ◌+◌, ◌*◌, ◌-◌, ◌^◌, ◌<◌, ◌≤◌, ◌≡◌, refl, subst, false, true, ◌≢◌, inl, inr,
  Bool-cases, arith,
}
use starlark_go.Common.Bits.{bit_and-le}
use starlark_go.Hashtable.{Values, Hashtable, bucket_id, overloaded}
use starlark_go.Hashtable.Insertion.{init_buckets, init}

-- In a table with buckets every hash selects one of the chains.
pub bucket_id_bound :
    {V : Type 0} (ht : Hashtable V) (h : ℕ) → ht.buckets ≢ 0 → bucket_id ht h < ht.buckets
unfolding bucket_id
bucket_id_bound ht h b = ground (arith, bit_and-le h (ht.buckets - 1))

overloaded-bound : (size nb : ℕ) → overloaded size nb ≡ true → 13 * nb ≤ 2 * size
unfolding overloaded
overloaded-bound size nb h = ground arith

module _ (vs : Values) where
  -- With fuel for as many more doublings as `size` is ahead, the loop stops by itself.
  init_buckets-enough :
      (fuel size nb : ℕ)
      → nb ≢ 0
      → size ≤ fuel + nb
      → overloaded size (init_buckets vs fuel size nb) ≡ false
  unfolding init_buckets
  init_buckets-enough zero size nb n b = elim (Bool-cases (overloaded size nb)) [
    | inl e ↦ absurd (n (omega (arith, overloaded-bound size nb e)))
    | inr e ↦ e
  ]
  init_buckets-enough (suc fuel) size nb n b = elim (Bool-cases (overloaded size nb)) [
    | inl e ↦ rw e (init_buckets-enough fuel size (nb * 2) (λ z. n (omega arith)) (ground arith))
    | inr e ↦ rw (e, e) refl
  ]

  -- The number of buckets is a power of two.
  init_buckets-power : (fuel size p : ℕ) → (q : ℕ) × (init_buckets vs fuel size (2 ^ p) ≡ 2 ^ q)
  unfolding init_buckets
  init_buckets-power zero size p = (p, refl)
  init_buckets-power (suc fuel) size p = elim (Bool-cases (overloaded size (2 ^ p))) [
    | inl e ↦ rw e (
        subst (λ (n : ℕ). (q : ℕ) × (init_buckets vs fuel size n ≡ 2 ^ q)) (omega arith)
          (init_buckets-power fuel size (suc p)))
    | inr e ↦ rw e (p, refl)
  ]

  -- `init` settles on a power of two that is not overloaded by `size` items.
  pub init-load :
      (size : ℕ) (ht : Hashtable vs.Value)
      → ((p : ℕ) × ((init vs size ht).buckets ≡ 2 ^ p))
        × (overloaded size (init vs size ht).buckets ≡ false)
  unfolding init
  init-load size ht = (
    init_buckets-power size size 0,
    init_buckets-enough size size 1 (λ e. absurd (omega arith)) (omega arith),
  )
