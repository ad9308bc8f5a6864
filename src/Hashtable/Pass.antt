-- ===== src/Hashtable/Pass.antt =====
-- `insert` of starlark/hashtable.go: one pass from the label `retry` on.
use starlark_go.Common.{
  ℕ, ◌^◌, ◌<◌, ◌≡◌, refl, sym, ◌∙◌, ap, subst, false, List, [], ◌∷◌, ◌++◌, Option, some, ◌≢◌, true,
  length, suc, if◌then◌else◌,
}
use starlark_go.Common.Members.{In}
use starlark_go.Hashtable.{
  Values, Addr, Entry, Hashtable, Outcome, ok, err, Scan, failed, present, absent, put_cell, items,
  nonzero, bucket_id, overloaded, incomparable,
}
use starlark_go.Hashtable.Insertion.{Loop, slot, place, insert_pass, grow}
use starlark_go.Hashtable.Spec.{IsLawful, IsFresh, Items, put_item}
use starlark_go.Hashtable.Invariant.{IsTable, entries, items-entries}
use starlark_go.Hashtable.Search.{IsFree, Finds, scan-Finds}
use starlark_go.Hashtable.Update.{updated, update-IsTable, update-items}
use starlark_go.Hashtable.Slot.{slot-IsSlot, slot-IsTable}
use starlark_go.Hashtable.Place.{place-IsTable, place-items, place-shape}
use starlark_go.Hashtable.Lookup.{entries-same}
use starlark_go.Hashtable.Linked.{SameContents-of}

module _ (vs : Values) where
  open vs use {Value, hash, equal}

  -- The outcome is a table with `nb` chains of buckets that holds those items.
  pub record Holds (from : Hashtable Value) (nb : ℕ) (kvs : Items vs) (after : Hashtable Value)
      : Type 0 where
    pub order : List Addr
    pub table : IsTable vs after order
    pub held : items after ≡ kvs
    pub chains : after.buckets ≡ nb
    pub same_frozen : after.frozen ≡ from.frozen
    pub same_itercount : after.itercount ≡ from.itercount

  abbrev pub Gives : Hashtable Value → ℕ → Items vs → Outcome (Hashtable Value) → Type 0
  Gives from nb kvs out = (after : Hashtable Value) × (out ≡ ok after) × Holds from nb kvs after

  module _ (lawful : IsLawful vs) (ht : Hashtable Value) (order : List Addr)
      (t : IsTable vs ht order) (k v : Value) (raw : ℕ) (hashed : hash k ≡ some raw) where
    pub update-Holds :
        (a : Addr)
        → In a order
        → equal k (ht.cell a).key ≡ some true
        → Holds ht ht.buckets (put_item vs k v (items ht)) (updated vs ht a v)
    unfolding put_cell
    update-Holds a i e = record {
      order = order;
      table = update-IsTable vs ht a v order i t;
      held = update-items vs ht a v lawful order t i k e;
      chains = refl;
      same_frozen = refl;
      same_itercount = refl;
    }

    module _ (small : suc (length order) < 2 ^ 32) (load : overloaded ht.len ht.buckets ≡ false)
        (some_bucket : ht.buckets ≢ 0) where
      -- What `slot` and `place` make of an empty slot, or of none.
      pub append-Holds :
          (free : Option ℕ)
          → IsFresh vs k (entries vs ht order)
          → IsFree vs ht
              (bucket_id ht (nonzero raw))
              (nonzero raw)
              k
              (ht.sizes (bucket_id ht (nonzero raw)))
              free
          → Holds ht ht.buckets (put_item vs k v (items ht)) (
              place vs
                (slot vs ht (bucket_id ht (nonzero raw)) free).1
                (nonzero raw)
                k
                v
                (slot vs ht (bucket_id ht (nonzero raw)) free).0)
      unfolding bucket_id
      append-Holds free fresh f =
          let i = bucket_id ht (nonzero raw) in
          let S = slot vs ht i free in
          let s = slot-IsSlot vs ht order t i (nonzero raw) k free f in
          let u = slot-IsTable vs ht order t i free in
          let same_entries : entries vs S.0 order ≡ entries vs ht order =
            entries-cells S.0 s.cells in
          let empty : (S.0.cell S.1).hash_of ≡ 0 =
            ap (λ (c : Addr → Entry Value). (c S.1).hash_of) s.cells ∙ s.empty in
          let chain : S.1.0 ≡ bucket_id S.0 (nonzero raw) =
            s.chain
            ∙ ap (λ (n : ℕ). bucket_id (record ht { buckets = n }) (nonzero raw))
                (sym s.same_buckets) in
          let inside : S.1.1 < S.0.sizes S.1.0 =
            subst (λ (c : ℕ). S.1.1 < S.0.sizes c) (sym s.chain) s.inside in
          let new = subst (IsFresh vs k) (sym same_entries) fresh in
          let load' : overloaded S.0.len S.0.buckets ≡ false =
            rw (s.same_len, s.same_buckets) load in
          let shape = place-shape vs S.0 order u S.1 raw k v hashed empty chain inside new in
          record {
            order = order ++ S.1 ∷ [];
            table =
                place-IsTable vs S.0 order u S.1 raw k v hashed empty chain inside new lawful small
                  load' (λ z. some_bucket (sym s.same_buckets ∙ z));
            held =
                place-items vs S.0 order u S.1 raw k v hashed empty chain inside new lawful small
                  load' (λ z. some_bucket (sym s.same_buckets ∙ z))
                ∙ ap (put_item vs k v) (
                    items-entries vs S.0 order u
                    ∙ same_entries
                    ∙ sym (items-entries vs ht order t));
            chains = shape.1 ∙ s.same_buckets;
            same_frozen = shape.2 ∙ s.same_frozen;
            same_itercount = shape.3 ∙ s.same_itercount;
          }
        where
          entries-cells :
              (h : Hashtable Value) → h.cell ≡ ht.cell → entries vs h order ≡ entries vs ht order
          entries-cells h e =
              entries-same vs ht h order
                (λ x _. SameContents-of (ap (λ (c : Addr → Entry Value). c x) e))

      -- A pass through a table that is not overloaded puts the item.
      pub pass-Gives :
          (loop : Loop vs)
          → Gives ht ht.buckets
              (put_item vs k v (items ht))
              (insert_pass vs loop ht k v (nonzero raw))
      unfolding insert_pass
      pass-Gives loop = go _ (scan-Finds vs lawful ht order t k raw hashed)
        where
          go :
              (s : Scan)
              → Finds vs ht order k (nonzero raw) s
              → Gives ht ht.buckets
                  (put_item vs k v (items ht))
                  (elim s as (λ _. Outcome (Hashtable Value)) [
                    | failed ↦ err incomparable ht
                    | present a ↦ ok (updated vs ht a v)
                    | absent free ↦
                        if overloaded ht.len ht.buckets
                        then loop (grow vs loop ht) k v (nonzero raw)
                        else ok (
                            let (ht', a) = slot vs ht (bucket_id ht (nonzero raw)) free in
                            place vs a (nonzero raw) k v ht')
                  ])
          go failed f = absurd f
          go (present a) f = (updated vs ht a v, refl, update-Holds a f.0 f.1)
          go (absent free) f = rw load (_, refl, append-Holds free f.0 f.1)
