-- ===== src/Hashtable/Union.antt =====
-- `addAll` of starlark/hashtable.go.
use starlark_go.Common.{
  ℕ, ◌+◌, ◌^◌, ◌<◌, ◌≤◌, ◌≡◌, refl, sym, ◌∙◌, ap, subst, List, [], ◌∷◌, none, some, suc, length,
  arith, Bool-cases, inl, inr,
}
use starlark_go.Common.Members.{In}
use starlark_go.Hashtable.{Values, Addr, Hashtable, Outcome, ok, items, check_mutable}
use starlark_go.Hashtable.Insertion.{add_items, add_all}
use starlark_go.Hashtable.Spec.{IsLawful, Items, put_item, is_equal}
use starlark_go.Hashtable.Invariant.{IsTable, entries, items-entries, length-entries}
use starlark_go.Hashtable.Put.{insert-put_item}

module _ (vs : Values) where
  open vs use {Value, hash}

  -- The items put one after another.
  pub put_items : Items vs → Items vs → Items vs
  put_items [] kvs = kvs
  put_items ((k, v) ∷ new) kvs = put_items new (put_item vs k v kvs)

  length-put_item : (k v : Value) (kvs : Items vs) → length (put_item vs k v kvs) ≤ suc (length kvs)
  unfolding put_item
  length-put_item k v [] = omega arith
  length-put_item k v ((j, w) ∷ kvs) = elim (Bool-cases (is_equal vs k j)) [
    | inl e ↦ rw e (omega arith)
    | inr e ↦ rw e (omega (arith, length-put_item k v kvs))
  ]

  -- Every key has a hash.
  abbrev Hashed : Items vs → Type 0
  Hashed [] = Unit {0}
  Hashed ((k, v) ∷ kvs) = ((raw : ℕ) × (hash k ≡ some raw)) × Hashed kvs

  -- The state of a table that holds those items.
  abbrev pub Filled : Items vs → Outcome (Hashtable Value) → Type 0
  Filled kvs out =
      (after : Hashtable Value) × (order : List Addr) × (out ≡ ok after)
      × IsTable vs after order
      × (items after ≡ kvs)

  pub length-items :
      (ht : Hashtable Value) (order : List Addr)
      → IsTable vs ht order
      → length (items ht) ≡ length order
  length-items ht order t = ap length (items-entries vs ht order t) ∙ length-entries vs ht order

  module _ (lawful : IsLawful vs) where
    add_items-Filled :
        (new : Items vs) (ht : Hashtable Value) (order : List Addr)
        → Hashed new
        → IsTable vs ht order
        → check_mutable ht ≡ none
        → length (items ht) + length new < 2 ^ 32
        → Filled (put_items new (items ht)) (add_items vs new ht)
    unfolding add_items put_items
    add_items-Filled [] ht order h t m b = (ht, order, refl, t, refl)
    add_items-Filled ((k, v) ∷ new) ht order h t m b =
        let n = length-items ht order t in
        let (nb, done) = insert-put_item vs lawful ht order t k v h.0.0 m h.0.1 (omega arith) in
        let (after, out, r) = done in
        let (last, order', out', t', e) =
          add_items-Filled new after r.order h.1 r.table
            (unfold check_mutable in rw (r.same_frozen, r.same_itercount) m)
            (omega (arith, ap length r.held, length-put_item k v (items ht))) in
        (last, order', rw (out, add_items) out', t', e ∙ ap (put_items new) r.held)

    items-Hashed :
        (ht : Hashtable Value) (xs : List Addr)
        → ((x : Addr) → In x xs → (raw : ℕ) × (hash (ht.cell x).key ≡ some raw))
        → Hashed (entries vs ht xs)
    unfolding entries
    items-Hashed ht [] h = tt
    items-Hashed ht (x ∷ xs) h = (h x (inl refl), items-Hashed ht xs (λ y i. h y (inr i)))

    -- Between well-formed tables of fewer than 2^32 entries in all, the first of which may change,
    -- `addAll` ends without an error in a well-formed table, and puts all items of the other in order.
    pub add_all-put_items :
        (ht other : Hashtable Value) (order order' : List Addr)
        → IsTable vs ht order
        → IsTable vs other order'
        → check_mutable ht ≡ none
        → length order + length order' < 2 ^ 32
        → Filled (put_items (items other) (items ht)) (add_all vs ht other)
    unfolding add_all
    add_all-put_items ht other order order' t u m b =
        add_items-Filled (items other) ht order
          (subst Hashed (sym (items-entries vs other order' u))
            (items-Hashed other order' (λ x i. let p = u.placed x i in (p.raw, p.hashed))))
          t m (omega (arith, length-items ht order t, length-items other order' u))
