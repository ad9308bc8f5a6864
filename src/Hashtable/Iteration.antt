-- ===== src/Hashtable/Iteration.antt =====
-- The iterators of starlark/hashtable.go, and the lock that they put on the table.
use starlark_go.Common.{
  ℕ, ◌+◌, ◌-◌, ◌%◌, ◌^◌, ◌<◌, ◌≡◌, refl, sym, ◌∙◌, ap, subst, false, List, [], ◌∷◌, Option, none,
  some, true, arith, map, Bool-cases, inl, inr, ltb, ◌⊎◌, length, replicate, if◌then◌else◌,
}
use starlark_go.Hashtable.{
  Values, Addr, Link, at_head, next_of, Hashtable, ok, err, stuck, Fault, during_iteration,
  frozen_table, keys, iterate, done, advance, check_mutable, read_link,
}
use starlark_go.Hashtable.Removal.{delete, clear}
use starlark_go.Hashtable.Insertion.{insert, insert_with}
use starlark_go.Hashtable.Segment.{Segment}
use starlark_go.Hashtable.Invariant.{IsTable, entries, items-entries}

-- From the cursor on `Next` gives those keys, and then no more.
pub data Yields {V : Type 0} (ht : Hashtable V) : Option Addr → List V → Type 0 where
  ends : {c : Option Addr} → advance ht c ≡ none → Yields ht c []
  yields :
      {c rest : Option Addr} {k : V} {ks : List V}
      → advance ht c ≡ some (k, rest)
      → Yields ht rest ks
      → Yields ht c (k ∷ ks)

module _ (vs : Values) where
  open vs use {Value}

  keys_of : Hashtable Value → List Addr → List Value
  keys_of ht xs = map (λ (kv : Value × Value). kv.0) (entries vs ht xs)

  Segment-Yields :
      (ht : Hashtable Value) (l : Link) (xs : List Addr) (m : Link)
      → Segment ht l xs m
      → read_link ht m ≡ none
      → Yields ht (read_link ht l) (keys_of ht xs)
  unfolding entries keys_of read_link advance
  Segment-Yields ht l [] m s e = ends (rw (s, e) refl)
  Segment-Yields ht l (a ∷ xs) m s e =
      yields (rw (s.0) refl) (Segment-Yields ht (next_of a) xs m s.2 e)

  -- A new iterator over a well-formed table yields the keys in the order of the items, and no more.
  pub iterate-Yields :
      (ht : Hashtable Value) (order : List Addr)
      → IsTable vs ht order
      → Yields ht (iterate ht).1 (keys ht)
  unfolding iterate keys keys_of read_link
  iterate-Yields ht order t =
      subst (λ (kvs : List (Value × Value)). Yields ht ht.head (map (λ kv. kv.0) kvs))
        (sym (items-entries vs ht order t))
        (Segment-Yields ht at_head order ht.tail_link t.linked.segment t.linked.closed)

  -- A call that would change a table: its error, if it reports one, and the table that it leaves.
  pub data Change : Type 0 where
    inserting : Value → Value → Change
    deleting : Value → Change
    clearing : Change

  unfoldable pub attempt : Change → Hashtable Value → Option Fault × Option (Hashtable Value)
  attempt (inserting k v) ht = elim (insert vs ht k v) [
    | ok ht' ↦ (none, some ht')
    | err fault ht' ↦ (some fault, some ht')
    | stuck ↦ (none, none)
  ]
  attempt (deleting k) ht = elim (delete vs ht k) [
    | ok (ht', v) ↦ (none, some ht')
    | err fault (ht', v) ↦ (some fault, some ht')
    | stuck ↦ (none, none)
  ]
  attempt clearing ht = elim (clear vs ht) [
    | ok ht' ↦ (none, some ht')
    | err fault ht' ↦ (some fault, some ht')
    | stuck ↦ (none, none)
  ]

  -- Calls one after another, with the errors that they report and the table at the end.
  unfoldable pub attempts :
      List Change → Hashtable Value → List (Option Fault) × Option (Hashtable Value)
  attempts [] ht = ([], some ht)
  attempts (c ∷ cs) ht =
      let (fault, left) = attempt c ht in
      elim left [
        | none ↦ (fault ∷ [], none)
        | some ht' ↦ let later = attempts cs ht' in (fault ∷ later.0, later.1)
      ]

  -- What a table that may not change is locked by.
  abbrev pub lock : Hashtable Value → Fault
  lock ht = if ht.frozen then frozen_table else during_iteration

  check_mutable-lock :
      (ht : Hashtable Value)
      → (ht.frozen ≡ true) ⊎ (0 < ht.itercount)
      → check_mutable ht ≡ some (lock ht)
  unfolding check_mutable
  check_mutable-lock ht locked = elim (Bool-cases ht.frozen) [
    | inl e ↦ rw e refl
    | inr e ↦ elim locked [ inl frozen ↦ cc | inr active ↦ rw (e, above ht.itercount active) refl ]
  ]
    where
      above : (n : ℕ) → 0 < n → ltb 0 n ≡ true
      above n less = ground arith

  attempt-lock :
      (c : Change) (ht : Hashtable Value)
      → (ht.frozen ≡ true) ⊎ (0 < ht.itercount)
      → attempt c ht ≡ (some (lock ht), some ht)
  unfolding attempt insert insert_with delete clear
  attempt-lock (inserting k v) ht locked =
      rw (attempt, insert, insert_with, check_mutable-lock ht locked) refl
  attempt-lock (deleting k) ht locked = rw (attempt, delete, check_mutable-lock ht locked) refl
  attempt-lock clearing ht locked = rw (attempt, clear, check_mutable-lock ht locked) refl

  attempts-next :
      (c : Change) (cs : List Change) (ht : Hashtable Value) (fault : Option Fault)
      (ht' : Hashtable Value)
      → attempt c ht ≡ (fault, some ht')
      → attempts (c ∷ cs) ht ≡ (fault ∷ (attempts cs ht').0, (attempts cs ht').1)
  unfolding attempts
  attempts-next c cs ht fault ht' e =
      let Report : Type 0 = List (Option Fault) × Option (Hashtable Value) in
      ap
        (λ (r : Option Fault × Option (Hashtable Value)). elim r.1 as (λ _. Report) [
          | none ↦ (r.0 ∷ [], none)
          | some left ↦ (r.0 ∷ (attempts cs left).0, (attempts cs left).1)
        ])
        e

  -- Whatever calls of insert, delete and clear a frozen table gets, or a table with an active iterator,
  -- each reports that lock, the freezing before the iterator, and the table is afterwards as before.
  pub refused :
      (cs : List Change) (ht : Hashtable Value)
      → (ht.frozen ≡ true) ⊎ (0 < ht.itercount)
      → attempts cs ht ≡ (
        replicate (length cs) (some (if ht.frozen then frozen_table else during_iteration)),
        some ht,
      )
  unfolding attempts
  refused [] ht locked = refl
  refused (c ∷ cs) ht locked =
      attempts-next c cs ht _ ht (attempt-lock c ht locked)
      ∙ ap (λ (r : List (Option Fault) × Option (Hashtable Value)). (some (lock ht) ∷ r.0, r.1))
          (refused cs ht locked)

counts : (n : ℕ) → n + 1 < 2 ^ 32 → ltb 0 ((n + 1) % 2 ^ 32) ≡ true
counts n b = ground arith

back : (n : ℕ) → n + 1 < 2 ^ 32 → ((n + 1) % 2 ^ 32 + 2 ^ 32 - 1) % 2 ^ 32 ≡ n
back n b = omega arith

-- Between `iterate` and `Done` a table refuses changes, and `Done` gives the table back, for a count of
-- iterators below 2^32 - 1.
pub iterate-done :
    {V : Type 0} (ht : Hashtable V)
    → ht.itercount + 1 < 2 ^ 32
    → (fault : Fault) × (check_mutable (iterate ht).0 ≡ some fault) × (done (iterate ht).0 ≡ ht)
unfolding iterate done check_mutable
iterate-done ht b = elim (Bool-cases ht.frozen) [
  | inl e ↦ rw e (frozen_table, refl, refl)
  | inr e ↦
      rw (e, counts ht.itercount b)
        (
          during_iteration,
          refl,
          ap (λ (n : ℕ). record ht { itercount = n; frozen = false }) (back ht.itercount b),
        )
]
