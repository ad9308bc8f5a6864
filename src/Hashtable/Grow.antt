-- ===== src/Hashtable/Grow.antt =====
-- `grow` of starlark/hashtable.go: the entries that are inserted again, one after another.
use starlark_go.Common.{
  ℕ, ◌+◌, ◌*◌, ◌<◌, ◌≤◌, ◌≡◌, refl, sym, ◌∙◌, ap, subst, false, List, [], ◌∷◌, ◌++◌, none, some,
  ◌≢◌, ◌⊎◌, inl, inr, length, arith, suc, ◌==◌, if◌then◌else◌, append_assoc, append-nil,
}
use starlark_go.Common.Members.{In, NoRepeats, In-append_left, In-append_right, NoRepeats-middle}
use starlark_go.Hashtable.{
  Values, Addr, Hashtable, Outcome, ok, err, stuck, items, blank, nonzero, overloaded,
  check_mutable, at_head, read_link,
}
use starlark_go.Hashtable.Insertion.{Loop, insert_with, insert_loop, insert_all, grow, init}
use starlark_go.Hashtable.Spec.{IsLawful, IsFresh, Items, put_item, put_item-fresh}
use starlark_go.Hashtable.Invariant.{
  IsTable, entries, entries-append, items-entries, length-entries,
}
use starlark_go.Hashtable.Search.{==_no}
use starlark_go.Hashtable.Lookup.{IsFresh-entries}
use starlark_go.Hashtable.Pass.{Holds, Gives, pass-Gives}

-- Twice the buckets are enough.
pub overloaded_twice :
    (m len nb : ℕ)
    → m ≤ len
    → (len ≤ 8) ⊎ (2 * len < 13 * nb + 2)
    → nb ≢ 0
    → overloaded m (nb * 2) ≡ false
unfolding overloaded
overloaded_twice m len nb b (inl h) ne = ground arith
overloaded_twice m len nb b (inr h) ne = ground arith

module _ (vs : Values) where
  open vs use {Value, hash, equal}

  -- The table that holds the items with `k` put to `v`, with any number of buckets.
  abbrev pub Puts : Hashtable Value → Value → Value → Outcome (Hashtable Value) → Type 0
  Puts ht k v out = (nb : ℕ) × Gives vs ht nb (put_item vs k v (items ht)) out

  -- A table without entries.
  pub IsTable-empty :
      (ht : Hashtable Value)
      → ((x : Addr) → ht.cell x ≡ blank vs)
      → ht.head ≡ none
      → ht.tail_link ≡ at_head
      → ht.len ≡ 0
      → IsTable vs ht []
  unfolding read_link blank
  IsTable-empty ht b hd tl n = record {
    linked = record { segment = sym tl; closed = rw tl hd; once = tt };
    used = λ x h. absurd (h (rw (b x) refl));
    placed = λ x i. absurd i;
    unused = λ x _. b x;
    unique = λ x y i. absurd i;
    nil_empty = λ _. refl;
    counted = n;
    small = omega arith;
    loaded = inl (omega arith);
  }

  -- `insert` up to `retry`.
  pub insert_with-ready :
      (loop : Loop vs) (ht : Hashtable Value) (k v : Value) (raw : ℕ)
      → check_mutable ht ≡ none
      → hash k ≡ some raw
      → insert_with vs loop ht k v
        ≡ loop (if ht.buckets == 0 then init vs 1 ht else ht) k v (nonzero raw)
  unfolding insert_with
  insert_with-ready loop ht k v raw m h = rw (m, h, insert_with) refl

  insert_with-loop :
      (loop : Loop vs) (ht : Hashtable Value) (k v : Value) (raw : ℕ)
      → check_mutable ht ≡ none
      → ht.buckets ≢ 0
      → hash k ≡ some raw
      → insert_with vs loop ht k v ≡ loop ht k v (nonzero raw)
  unfolding insert_with
  insert_with-loop loop ht k v raw m b h = rw (m, h, ==_no ht.buckets 0 b, insert_with) refl

  insert_all-step :
      (loop : Loop vs) (ht after : Hashtable Value) (k v : Value) (kvs : Items vs)
      → insert_with vs loop ht k v ≡ ok after
      → insert_all vs loop ((k, v) ∷ kvs) ht ≡ insert_all vs loop kvs after
  unfolding insert_all
  insert_all-step loop ht after k v kvs e =
      ap
        (λ (out : Outcome (Hashtable Value)).
          insert_all vs loop kvs (elim out [ ok ht' ↦ ht' | err fault ht' ↦ ht' | stuck ↦ ht ]))
        e

  pub length-held :
      (from : Hashtable Value) (nb : ℕ) (xs : List Addr) (ht cur : Hashtable Value)
      → (r : Holds vs from nb (entries vs ht xs) cur) → length r.order ≡ length xs
  length-held from nb xs ht cur r =
      sym (length-entries vs cur r.order)
      ∙ ap length (sym (items-entries vs cur r.order r.table) ∙ r.held)
      ∙ length-entries vs ht xs

  module _ (lawful : IsLawful vs) (ht : Hashtable Value) (order : List Addr)
      (t : IsTable vs ht order) (mutable : check_mutable ht ≡ none)
      (some_bucket : ht.buckets ≢ 0) where
    abbrev Rebuilt : Hashtable Value → List Addr → Type 0
    Rebuilt cur xs = Holds vs ht (ht.buckets * 2) (entries vs ht xs) cur

    still_mutable :
        (cur : Hashtable Value)
        → cur.frozen ≡ ht.frozen
        → cur.itercount ≡ ht.itercount
        → check_mutable cur ≡ none
    unfolding check_mutable
    still_mutable cur p q = rw (p, q) mutable

    next_key :
        (xs ys : List Addr) (a : Addr)
        → order ≡ xs ++ a ∷ ys
        → IsFresh vs (ht.cell a).key (entries vs ht xs)
    next_key xs ys a e = IsFresh-entries vs ht (ht.cell a).key xs (λ x i q.
        let n = NoRepeats-middle xs ys a (subst NoRepeats e t.linked.once) in
        let here = subst (λ (zs : List Addr). In x zs) (sym e) (In-append_left x xs (a ∷ ys) i) in
        let there =
          subst (λ (zs : List Addr). In a zs) (sym e) (In-append_right a xs (a ∷ ys) (inl refl)) in
        n.0 (subst (λ (z : Addr). In z xs) (sym (t.unique a x there here q)) i))

    -- One more entry.
    rebuild_one :
        (xs ys : List Addr) (a : Addr)
        → order ≡ xs ++ a ∷ ys
        → (cur : Hashtable Value) → Rebuilt cur xs
        → (after : Hashtable Value) × (insert_with vs
              (insert_loop vs 1)
              cur
              (ht.cell a).key
              (ht.cell a).value
            ≡ ok after)
          × Rebuilt after (xs ++ a ∷ [])
    unfolding insert_loop entries
    rebuild_one xs ys a e cur r =
        let k = (ht.cell a).key in
        let v = (ht.cell a).value in
        let p = t.placed a (
          subst (λ (zs : List Addr). In a zs) (sym e) (In-append_right a xs (a ∷ ys) (inl refl))) in
        let n : length r.order ≡ length xs = length-held ht (ht.buckets * 2) xs ht cur r in
        let few : suc (length xs) ≤ length order =
          omega (arith, ap length e, length-between xs ys a) in
        let load : overloaded cur.len cur.buckets ≡ false = rw r.chains (
          overloaded_twice cur.len ht.len ht.buckets (omega (arith, r.table.counted, t.counted))
            t.loaded some_bucket) in
        let some' : cur.buckets ≢ 0 = λ z. some_bucket (omega (arith, r.chains)) in
        let (after, out, h) =
          pass-Gives vs lawful cur r.order r.table k v p.raw p.hashed (omega (arith, t.small)) load
            some' (insert_loop vs 0) in
        (
          after,
          insert_with-loop (insert_loop vs 1) cur k v p.raw
                (still_mutable cur r.same_frozen r.same_itercount) some' p.hashed
              ∙ out,
          record {
            order = h.order;
            table = h.table;
            held =
                h.held
                ∙ ap (put_item vs k v) r.held
                ∙ put_item-fresh vs k v _ (next_key xs ys a e)
                ∙ sym (entries-append vs ht xs (a ∷ []));
            chains = h.chains ∙ r.chains;
            same_frozen = h.same_frozen ∙ r.same_frozen;
            same_itercount = h.same_itercount ∙ r.same_itercount;
          },
        )
      where
        length-between : (us ws : List Addr) (c : Addr) → suc (length us) ≤ length (us ++ c ∷ ws)
        length-between [] ws c = omega arith
        length-between (u ∷ us) ws c = omega (arith, length-between us ws c)

    -- The rest of the entries is inserted.
    rebuild :
        (xs ys : List Addr)
        → order ≡ xs ++ ys
        → (cur : Hashtable Value) → Rebuilt cur xs
        → Rebuilt (insert_all vs (insert_loop vs 1) (entries vs ht ys) cur) order
    unfolding entries
    rebuild xs [] e cur r =
        unfold insert_all in
        subst (λ (zs : List Addr). Rebuilt cur zs) (sym (append-nil xs) ∙ sym e) r
    rebuild xs (a ∷ ys) e cur r =
        let (after, out, r') = rebuild_one xs ys a e cur r in
        subst (λ (h : Hashtable Value). Rebuilt h order)
          (sym (
            insert_all-step (insert_loop vs 1) cur after (ht.cell a).key (ht.cell a).value
              (entries vs ht ys) out))
          (rebuild (xs ++ a ∷ []) ys (e ∙ sym (append_assoc xs (a ∷ []) ys)) after r')

    -- A table that grows holds the same items in twice as many buckets.
    pub grow-Rebuilt : Rebuilt (grow vs (insert_loop vs 1) ht) order
    unfolding grow entries items
    grow-Rebuilt =
        subst (λ (kvs : Items vs). Rebuilt (insert_all vs (insert_loop vs 1) kvs cleared) order)
          (sym (items-entries vs ht order t))
          (rebuild [] order refl cleared (record {
            order = [];
            table = IsTable-empty cleared (λ _. refl) refl refl refl;
            held = refl;
            chains = refl;
            same_frozen = refl;
            same_itercount = refl;
          }))
      where
        cleared : Hashtable Value
        cleared = record ht {
          cell = λ _. blank vs;
          sizes = λ _. 8;
          buckets = ht.buckets * 2;
          head = none;
          tail_link = at_head;
          len = 0;
        }
