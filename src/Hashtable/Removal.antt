-- ===== src/Hashtable/Removal.antt =====
-- Search and removal in the hash table of starlark/hashtable.go: `lookup`, `delete` and `clear`.
use starlark_go.Common.{ℕ, zero, suc, ◌+◌, ◌-◌, ◌%◌, ◌^◌, Option, none, some, ◌==◌, if◌then◌else◌}
use starlark_go.Hashtable.{
  Values, Addr, Link, at_head, Entry, Hashtable, unhashable, incomparable, Outcome, ok, err, Scan,
  failed, present, absent, nonzero, put_cell, write_link, check_mutable, bucket_id, blank,
}

module _ (vs : Values) where
  open vs use {Value, nil, hash, equal}

  -- The search of `lookup` and `delete` through the `n` entries of the chain `i` from `j` on: `failed`,
  -- the entry, or nothing.
  unfoldable pub search : Hashtable Value → ℕ → ℕ → Value → ℕ → ℕ → Scan
  search ht i h k zero j = absent none
  search ht i h k (suc n) j =
      let e = ht.cell (i, j) in
      let rest = search ht i h k n (suc j) in
      if e.hash_of == h
      then elim (equal k e.key) [ none ↦ failed | some eq ↦ if eq then present (i, j) else rest ]
      else rest

  unfoldable pub search_chain : Hashtable Value → ℕ → Value → Scan
  unfolding search bucket_id
  search_chain ht h k = let i = bucket_id ht h in search ht i h k (ht.sizes i) 0

  -- The value, if the key is present.
  unfoldable pub lookup : Hashtable Value → Value → Outcome (Option Value)
  unfolding search_chain nonzero
  lookup ht k = elim (hash k) [
    | none ↦ err unhashable none
    | some h ↦ if ht.buckets == 0 then ok none else elim (search_chain ht (nonzero h) k) [
      | failed ↦ err incomparable none
      | present a ↦ ok (some (ht.cell a).value)
      | absent _ ↦ ok none
    ]
  ]

  -- The entry that follows `e` gets its link back, or the list ends at that link.
  unfoldable pub close_gap : Entry Value → Link → Hashtable Value → Hashtable Value
  unfolding put_cell
  close_gap e prev ht = elim e.next [
    | none ↦ record ht { tail_link = prev }
    | some b ↦ put_cell b (record (ht.cell b) { prev_link = some prev }) ht
  ]

  -- `*e.prevLink = e.next`, the link back, `*e = entry{}` and `ht.len--`, for `e` at `a`. Every entry
  -- in use has a link to it; for another the source would panic, and this does nothing.
  unfoldable pub remove : Addr → Hashtable Value → Hashtable Value
  unfolding write_link close_gap put_cell blank
  remove a ht = elim (ht.cell a).prev_link [
    | none ↦ ht
    | some prev ↦
        let e = ht.cell a in
        let closed = close_gap e prev (write_link prev e.next ht) in
        record (put_cell a (blank vs) closed) { len = (ht.len + 2 ^ 32 - 1) % 2 ^ 32 }
  ]

  -- The state afterwards, and the value that was removed.
  unfoldable pub delete : Hashtable Value → Value → Outcome (Hashtable Value × Option Value)
  unfolding check_mutable search_chain nonzero remove
  delete ht k = elim (check_mutable ht) [
    | some fault ↦ err fault (ht, none)
    | none ↦ if ht.buckets == 0 then ok (ht, none) else elim (hash k) [
      | none ↦ err unhashable (ht, none)
      | some h ↦ elim (search_chain ht (nonzero h) k) [
        | failed ↦ err incomparable (ht, none)
        | present a ↦ ok (remove a ht, some (ht.cell a).value)
        | absent _ ↦ ok (ht, none)
      ]
    ]
  ]

  unfoldable pub clear : Hashtable Value → Outcome (Hashtable Value)
  unfolding check_mutable blank
  clear ht = elim (check_mutable ht) [
    | some fault ↦ err fault ht
    | none ↦
        let emptied =
          if ht.buckets == 0 then ht else record ht { cell = λ _. blank vs; sizes = λ _. 8 } in
        ok (record emptied { head = none; tail_link = at_head; len = 0 })
  ]
