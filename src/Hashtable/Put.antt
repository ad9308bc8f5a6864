-- ===== src/Hashtable/Put.antt =====
-- `insert` of starlark/hashtable.go as a whole: the table that grows, and the table that is nil.
use starlark_go.Common.{
  ℕ, ◌*◌, ◌^◌, ◌<◌, ◌≡◌, refl, sym, ◌∙◌, ap, subst, false, List, [], none, some, ◌≢◌, inl, inr,
  length, arith, suc, ◌==◌, if◌then◌else◌, ==_iff, Bool-cases,
}
use starlark_go.Hashtable.{
  Values, Addr, Hashtable, Outcome, ok, err, Scan, failed, present, absent, items, nonzero,
  bucket_id, overloaded, incomparable, check_mutable, read_link,
}
use starlark_go.Hashtable.Insertion.{
  slot, place, insert_pass, insert_loop, grow, insert, init, init_buckets,
}
use starlark_go.Hashtable.Spec.{IsLawful, IsFresh, put_item}
use starlark_go.Hashtable.Invariant.{IsTable, entries, items-entries}
use starlark_go.Hashtable.Search.{Finds, scan-Finds}
use starlark_go.Hashtable.Linked.{Linked}
use starlark_go.Hashtable.Update.{updated}
use starlark_go.Hashtable.Pass.{pass-Gives, update-Holds, append-Holds}
use starlark_go.Hashtable.Grow.{
  overloaded_twice, Puts, IsTable-empty, insert_with-ready, length-held, grow-Rebuilt,
}

module _ (vs : Values) where
  open vs use {Value, hash, equal}

  module _ (lawful : IsLawful vs) (ht : Hashtable Value) (order : List Addr)
      (t : IsTable vs ht order) (k v : Value) (raw : ℕ) (mutable : check_mutable ht ≡ none)
      (hashed : hash k ≡ some raw) (small : suc (length order) < 2 ^ 32) where
    -- A full table grows, and then the second pass puts the item.
    second_pass :
        ht.buckets ≢ 0
        → IsFresh vs k (entries vs ht order)
        → Puts vs ht k v (insert_loop vs 1 (grow vs (insert_loop vs 1) ht) k v (nonzero raw))
    unfolding insert_loop
    second_pass b f =
        let r = grow-Rebuilt vs lawful ht order t mutable b in
        let g = grow vs (insert_loop vs 1) ht in
        let n : length r.order ≡ length order = length-held vs ht (ht.buckets * 2) order ht g r in
        let load : overloaded g.len g.buckets ≡ false = rw r.chains (
          overloaded_twice g.len ht.len ht.buckets (omega (arith, r.table.counted, t.counted))
            t.loaded b) in
        let (after, out, h) =
          pass-Gives vs lawful g r.order r.table k v raw hashed (omega arith) load
            (λ z. b (omega (arith, r.chains))) (insert_loop vs 0) in
        (
          g.buckets,
          (
            after,
            out,
            record {
              order = h.order;
              table = h.table;
              held = h.held ∙ ap (put_item vs k v) (r.held ∙ sym (items-entries vs ht order t));
              chains = h.chains;
              same_frozen = h.same_frozen ∙ r.same_frozen;
              same_itercount = h.same_itercount ∙ r.same_itercount;
            },
          ),
        )

    -- Two passes are enough for a table with buckets.
    passes : ht.buckets ≢ 0 → Puts vs ht k v (insert_loop vs 2 ht k v (nonzero raw))
    unfolding insert_loop insert_pass
    passes b = go _ (scan-Finds vs lawful ht order t k raw hashed)
      where
        go :
            (s : Scan)
            → Finds vs ht order k (nonzero raw) s
            → Puts vs ht k v (elim s as (λ _. Outcome (Hashtable Value)) [
              | failed ↦ err incomparable ht
              | present a ↦ ok (updated vs ht a v)
              | absent free ↦
                  if overloaded ht.len ht.buckets
                  then insert_loop vs 1 (grow vs (insert_loop vs 1) ht) k v (nonzero raw)
                  else ok (
                      let (ht', a) = slot vs ht (bucket_id ht (nonzero raw)) free in
                      place vs a (nonzero raw) k v ht')
            ])
        go failed f = absurd f
        go (present a) f = (
          ht.buckets,
          (updated vs ht a v, refl, update-Holds vs lawful ht order t k v raw hashed a f.0 f.1),
        )
        go (absent free) f = elim (Bool-cases (overloaded ht.len ht.buckets)) [
          | inl e ↦ rw e (second_pass b f.0)
          | inr e ↦ rw e (
            ht.buckets,
            (_, refl, append-Holds vs lawful ht order t k v raw hashed small e b free f.0 f.1),
          )
        ]

  module _ (ht : Hashtable Value) (order : List Addr) (t : IsTable vs ht order)
      (z : ht.buckets ≡ 0) where
    nil_order : order ≡ []
    nil_order = t.nil_empty z

    -- A nil table is empty, and `init` gives it its first bucket.
    init-IsTable : IsTable vs (init vs 1 ht) []
    unfolding init read_link init_buckets
    init-IsTable =
        IsTable-empty vs (init vs 1 ht) (λ _. refl) (λ i. at i) refl
          (t.counted ∙ ap length nil_order)
      where
        at : ht.head ≡ none
        at = let l = subst (Linked ht) nil_order t.linked in ap (read_link ht) l.segment ∙ l.closed

    init-items : items (init vs 1 ht) ≡ items ht
    unfolding entries
    init-items =
        items-entries vs (init vs 1 ht) [] init-IsTable
        ∙ ap (entries vs ht) (sym nil_order)
        ∙ sym (items-entries vs ht order t)

    init-shape :
        ((init vs 1 ht).buckets ≡ 1)
        × ((init vs 1 ht).frozen ≡ ht.frozen)
        × ((init vs 1 ht).itercount ≡ ht.itercount)
    unfolding init init_buckets overloaded
    init-shape = (refl, refl, refl)

  module _ (lawful : IsLawful vs) (ht : Hashtable Value) (order : List Addr)
      (t : IsTable vs ht order) (k v : Value) (raw : ℕ) (mutable : check_mutable ht ≡ none)
      (hashed : hash k ≡ some raw) (small : suc (length order) < 2 ^ 32) where
    nil-Puts : ht.buckets ≡ 0 → Puts vs ht k v (insert_loop vs 2 (init vs 1 ht) k v (nonzero raw))
    nil-Puts z =
        let shape = init-shape ht order t z in
        let (nb, (after, out, h)) =
          passes lawful (init vs 1 ht) [] (init-IsTable ht order t z) k v raw
            (unfold check_mutable in rw (shape.1, shape.2) mutable) hashed (omega arith)
            (λ e. absurd (omega (arith, shape.0))) in
        (
          nb,
          (
            after,
            out,
            record {
              order = h.order;
              table = h.table;
              held = h.held ∙ ap (put_item vs k v) (init-items ht order t z);
              chains = h.chains;
              same_frozen = h.same_frozen ∙ shape.1;
              same_itercount = h.same_itercount ∙ shape.2;
            },
          ),
        )

    -- On a well-formed table that may change, with a key that has a hash and room for one item more,
    -- `insert` ends without an error in a well-formed table, whose items are those before with the
    -- key's value replaced in place or a new item at the end.
    pub insert-put_item : Puts vs ht k v (insert vs ht k v)
    unfolding insert
    insert-put_item =
        rw (insert_with-ready vs (insert_loop vs 2) ht k v raw mutable hashed)
          (elim (Bool-cases (ht.buckets == 0)) [
            | inl z ↦ rw z (nil-Puts ((==_iff ht.buckets 0).0 z))
            | inr z ↦ rw z (
                passes lawful ht order t k v raw mutable hashed small
                  (λ e. let yes = (==_iff ht.buckets 0).1 e in cc))
          ])
