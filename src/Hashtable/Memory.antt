-- ===== src/Hashtable/Memory.antt =====
-- Reads after writes in the memory of starlark/hashtable.go.
use starlark_go.Common.{
  ◌≡◌, refl, sym, ◌∙◌, ap, subst, true, false, Option, ◌↔◌, ◌≢◌, Bool-cases, arith, inl, inr,
}
use starlark_go.Hashtable.{
  Addr, same, Link, at_head, next_of, Entry, Hashtable, put_cell, read_link, write_link,
}

pub same_iff : (a b : Addr) → (same a b ≡ true) ↔ (a ≡ b)
same_iff (i, j) (k, l) = ground arith

pub same_no : {a b : Addr} → a ≢ b → same a b ≡ false
same_no {a} {b} h = elim (Bool-cases (same a b)) [
  | inl e ↦ absurd (h ((same_iff a b).0 e))
  | inr e ↦ e
]

pub next_of-injective : {a b : Addr} → next_of a ≡ next_of b → a ≡ b
next_of-injective e = cc

module _ {V : Type 0} where
  pub cell-put_self : (a : Addr) (e : Entry V) (ht : Hashtable V) → (put_cell a e ht).cell a ≡ e
  unfolding put_cell
  cell-put_self a e ht = rw ((same_iff a a).1 refl)

  pub cell-put_other :
      {a b : Addr} (e : Entry V) (ht : Hashtable V) → a ≢ b → (put_cell a e ht).cell b ≡ ht.cell b
  unfolding put_cell
  cell-put_other e ht h = rw (same_no h)

  pub read-write_self :
      (l : Link) (to : Option Addr) (ht : Hashtable V) → read_link (write_link l to ht) l ≡ to
  unfolding read_link write_link
  read-write_self at_head to ht = refl
  read-write_self (next_of a) to ht = ap (λ (e : Entry V). e.next) (cell-put_self a _ ht)

  pub read-write_other :
      {l t : Link} (to : Option Addr) (ht : Hashtable V)
      → t ≢ l
      → read_link (write_link l to ht) t ≡ read_link ht t
  unfolding read_link write_link
  read-write_other {l = at_head} {t = at_head} to ht h = absurd (h refl)
  read-write_other {l = at_head} {t = next_of b} to ht h = refl
  read-write_other {l = next_of a} {t = at_head} to ht h = refl
  read-write_other {l = next_of a} {t = next_of b} to ht h =
      ap (λ (e : Entry V). e.next) (cell-put_other _ ht (λ p. h (ap next_of (sym p))))

  pub cell-write_other :
      {l : Link} (x : Addr) (to : Option Addr) (ht : Hashtable V)
      → l ≢ next_of x
      → (write_link l to ht).cell x ≡ ht.cell x
  unfolding write_link
  cell-write_other {l = at_head} x to ht h = refl
  cell-write_other {l = next_of a} x to ht h = cell-put_other _ ht (λ p. h (ap next_of p))

  -- What a write to a link leaves alone in every entry.
  pub record SameContents (e f : Entry V) : Type 0 where
    pub same_hash : e.hash_of ≡ f.hash_of
    pub same_key : e.key ≡ f.key
    pub same_value : e.value ≡ f.value

  pub SameContents-refl : (e : Entry V) → SameContents e e
  SameContents-refl e = record { same_hash = refl; same_key = refl; same_value = refl }

  pub write-rest :
      (l : Link) (to : Option Addr) (ht : Hashtable V) (x : Addr)
      → SameContents ((write_link l to ht).cell x) (ht.cell x)
        × (((write_link l to ht).cell x).prev_link ≡ (ht.cell x).prev_link)
  unfolding write_link put_cell
  write-rest at_head to ht x = (SameContents-refl (ht.cell x), refl)
  write-rest (next_of a) to ht x = elim (Bool-cases (same a x)) [
    | inl e ↦
        rw ((same_iff a x).0 e, (same_iff x x).1 refl)
          (record { same_hash = refl; same_key = refl; same_value = refl }, refl)
    | inr e ↦ rw e (SameContents-refl (ht.cell x), refl)
  ]

  -- Writing a cell leaves the links of other cells alone.
  pub read-put_other :
      (a : Addr) (e : Entry V) (ht : Hashtable V) {t : Link}
      → t ≢ next_of a
      → read_link (put_cell a e ht) t ≡ read_link ht t
  unfolding read_link put_cell
  read-put_other a e ht {t = at_head} h = refl
  read-put_other a e ht {t = next_of b} h =
      ap (λ (f : Entry V). f.next) (cell-put_other e ht (λ p. h (ap next_of (sym p))))

  -- Writing a cell with the same field `next` leaves all links alone.
  pub read-put_same :
      (a : Addr) (e : Entry V) (ht : Hashtable V) (t : Link)
      → e.next ≡ (ht.cell a).next
      → read_link (put_cell a e ht) t ≡ read_link ht t
  unfolding read_link put_cell
  read-put_same a e ht at_head h = refl
  read-put_same a e ht (next_of b) h = elim (Bool-cases (same a b)) [
    | inl p ↦
        subst (λ (c : Addr). ((put_cell a e ht).cell c).next ≡ (ht.cell c).next)
          ((same_iff a b).0 p) (ap (λ (f : Entry V). f.next) (cell-put_self a e ht) ∙ h)
    | inr p ↦
        ap (λ (f : Entry V). f.next)
          (cell-put_other e ht (λ q. let held = (same_iff a b).1 q in cc))
  ]

  pub tail-write :
      (l : Link) (to : Option Addr) (ht : Hashtable V)
      → (write_link l to ht).tail_link ≡ ht.tail_link
  unfolding write_link put_cell
  tail-write at_head to ht = refl
  tail-write (next_of a) to ht = refl

  pub put-contents :
      (a : Addr) (e : Entry V) (ht : Hashtable V) (x : Addr)
      → SameContents e (ht.cell a)
      → SameContents ((put_cell a e ht).cell x) (ht.cell x)
  put-contents a e ht x s = elim (Bool-cases (same a x)) [
    | inl p ↦
        subst (λ (c : Addr). SameContents ((put_cell a e ht).cell c) (ht.cell c))
          ((same_iff a x).0 p)
          (subst (λ (f : Entry V). SameContents f (ht.cell a)) (sym (cell-put_self a e ht)) s)
    | inr p ↦
        subst (λ (f : Entry V). SameContents f (ht.cell x))
          (sym (cell-put_other e ht (λ q. let held = (same_iff a x).1 q in cc)))
          (SameContents-refl (ht.cell x))
  ]

  -- What is no part of the memory stays.
  pub write-shape :
      (l : Link) (to : Option Addr) (ht : Hashtable V)
      → ((write_link l to ht).sizes ≡ ht.sizes)
        × ((write_link l to ht).buckets ≡ ht.buckets)
        × ((write_link l to ht).frozen ≡ ht.frozen)
        × ((write_link l to ht).itercount ≡ ht.itercount)
  unfolding write_link put_cell
  write-shape at_head to ht = (refl, refl, refl, refl)
  write-shape (next_of a) to ht = (refl, refl, refl, refl)
