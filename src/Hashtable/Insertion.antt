-- ===== src/Hashtable/Insertion.antt =====
-- Insertion into the hash table of starlark/hashtable.go: `init`, `insert`, `grow` and `addAll`.
use starlark_go.Common.{
  ℕ, zero, suc, ◌+◌, ◌*◌, ◌%◌, ◌^◌, List, [], ◌∷◌, Option, none, some, ◌==◌, if◌then◌else◌,
}
use starlark_go.Hashtable.{
  Values, Addr, at_head, next_of, Hashtable, unhashable, incomparable, Outcome, ok, err, stuck,
  Scan, failed, present, absent, overloaded, nonzero, put_cell, write_link, check_mutable,
  bucket_id, items, blank,
}

module _ (vs : Values) where
  open vs use {Value, nil, hash, equal}

  -- The number of buckets that `init` settles on. It doubles from 1, so `size` rounds are enough.
  unfoldable pub init_buckets : ℕ → ℕ → ℕ → ℕ
  unfolding overloaded
  init_buckets zero size nb = nb
  init_buckets (suc fuel) size nb =
      let more = init_buckets fuel size (nb * 2) in if overloaded size nb then more else nb

  unfoldable pub init : ℕ → Hashtable Value → Hashtable Value
  unfolding init_buckets blank
  init size ht = record ht {
    cell = λ _. blank vs;
    sizes = λ _. 8;
    buckets = init_buckets size size 1;
    tail_link = at_head;
  }

  -- The loop of `insert` over the `n` entries of the chain `i` from `j` on.
  unfoldable pub scan : Hashtable Value → ℕ → ℕ → Value → ℕ → ℕ → Option ℕ → Scan
  scan ht i h k zero j free = absent free
  scan ht i h k (suc n) j free =
      let e = ht.cell (i, j) in
      let free' = if e.hash_of == h then free else if e.hash_of == 0 then some j else free in
      let rest = scan ht i h k n (suc j) free' in
      if e.hash_of == h
      then elim (equal k e.key) [ none ↦ failed | some eq ↦ if eq then present (i, j) else rest ]
      else rest

  -- A new entry: in the empty slot that was seen, or in a new bucket at the end of the chain; then at
  -- the end of the list.
  unfoldable pub slot : Hashtable Value → ℕ → Option ℕ → Hashtable Value × Addr
  slot ht i (some j) = (ht, (i, j))
  slot ht i none =
      (record ht { sizes = λ c. if c == i then ht.sizes i + 8 else ht.sizes c }, (i, ht.sizes i))

  unfoldable pub place : Addr → ℕ → Value → Value → Hashtable Value → Hashtable Value
  unfolding put_cell write_link
  place a h k v ht =
      let e = record (ht.cell a) {
        hash_of = h;
        key = k;
        value = v;
        prev_link = some ht.tail_link;
      } in
      let linked = write_link ht.tail_link (some a) (put_cell a e ht) in
      record linked { tail_link = next_of a; len = (ht.len + 1) % 2 ^ 32 }

  abbrev pub Loop : Type 0
  Loop = Hashtable Value → Value → Value → ℕ → Outcome (Hashtable Value)

  -- `insert` up to the label `retry`, with the rest as a function.
  unfoldable pub insert_with : Loop → Hashtable Value → Value → Value → Outcome (Hashtable Value)
  unfolding check_mutable init nonzero
  insert_with loop ht k v = elim (check_mutable ht) [
    | some fault ↦ err fault ht
    | none ↦
        let ready = if ht.buckets == 0 then init 1 ht else ht in
        elim (hash k) [ none ↦ err unhashable ready | some h ↦ loop ready k v (nonzero h) ]
  ]

  -- The loop of `grow`, which ignores the errors of `insert`.
  unfoldable pub insert_all : Loop → List (Value × Value) → Hashtable Value → Hashtable Value
  unfolding insert_with
  insert_all loop [] ht = ht
  insert_all loop ((k, v) ∷ kvs) ht =
      insert_all loop kvs
        (elim (insert_with loop ht k v) [ ok ht' ↦ ht' | err fault ht' ↦ ht' | stuck ↦ ht ])

  unfoldable pub grow : Loop → Hashtable Value → Hashtable Value
  unfolding insert_all items blank
  grow loop ht = insert_all loop (items ht) (record ht {
    cell = λ _. blank vs;
    sizes = λ _. 8;
    buckets = ht.buckets * 2;
    head = none;
    tail_link = at_head;
    len = 0;
  })

  -- One pass from the label `retry` on.
  unfoldable pub insert_pass : Loop → Loop
  unfolding scan bucket_id slot place grow overloaded
  insert_pass loop ht k v h =
      let i = bucket_id ht h in
      elim (scan ht i h k (ht.sizes i) 0 none) [
        | failed ↦ err incomparable ht
        | present a ↦ ok (put_cell a (record (ht.cell a) { value = v }) ht)
        | absent free ↦
            if overloaded ht.len ht.buckets
            then loop (grow loop ht) k v h
            else ok (let (ht', a) = slot ht i free in place a h k v ht')
      ]

  unfoldable pub insert_loop : ℕ → Loop
  unfolding insert_pass
  insert_loop zero ht k v h = stuck
  insert_loop (suc fuel) ht k v h = insert_pass (insert_loop fuel) ht k v h

  -- Two passes: after a growth the table is not overloaded.
  unfoldable pub insert : Hashtable Value → Value → Value → Outcome (Hashtable Value)
  unfolding insert_with insert_loop
  insert ht k v = insert_with (insert_loop 2) ht k v

  -- `addAll`: it stops at the first error.
  unfoldable pub add_items : List (Value × Value) → Hashtable Value → Outcome (Hashtable Value)
  unfolding insert
  add_items [] ht = ok ht
  add_items ((k, v) ∷ kvs) ht = elim (insert ht k v) [
    | ok ht' ↦ add_items kvs ht'
    | err fault ht' ↦ err fault ht'
    | stuck ↦ stuck
  ]

  unfoldable pub add_all : Hashtable Value → Hashtable Value → Outcome (Hashtable Value)
  unfolding add_items items
  add_all ht other = add_items (items other) ht
