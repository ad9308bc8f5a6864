-- ===== src/Hashtable/Place.antt =====
-- `insert` of starlark/hashtable.go at a key that is absent: an empty slot, and the end of the list.
use starlark_go.Common.{
  ℕ, ◌+◌, ◌%◌, ◌^◌, ◌<◌, ◌≡◌, refl, sym, ◌∙◌, ap, subst, false, List, [], ◌∷◌, ◌++◌, none, some,
  ◌≢◌, inl, inr, true, length, arith, suc,
}
use starlark_go.Common.Members.{In, In-append, In-append_left, In-append_right}
use starlark_go.Hashtable.{
  Values, Addr, Hashtable, put_cell, items, blank, nonzero, bucket_id, overloaded,
}
use starlark_go.Hashtable.Insertion.{place}
use starlark_go.Hashtable.Memory.{SameContents, write-shape}
use starlark_go.Hashtable.Linked.{
  place-Linked, place-outside, place-contents_self, place-contents_other,
}
use starlark_go.Hashtable.Spec.{IsLawful, IsFresh, put_item, put_item-fresh}
use starlark_go.Hashtable.Invariant.{
  IsTable, IsPlaced, IsPlaced-same, same-address, entries, entries-append, items-entries,
}
use starlark_go.Hashtable.Search.{nonzero-ne}
use starlark_go.Hashtable.Lookup.{entries-same}
use starlark_go.Hashtable.Slot.{overloaded_no, length-snoc}

module _ (vs : Values) where
  open vs use {Value, hash, equal}

  -- A new entry in an empty slot of the right chain.
  module _ (ht : Hashtable Value) (order : List Addr) (t : IsTable vs ht order) (a : Addr) (raw : ℕ)
      (k v : Value) (hashed : hash k ≡ some raw) (empty : (ht.cell a).hash_of ≡ 0)
      (chain : a.0 ≡ bucket_id ht (nonzero raw)) (inside : a.1 < ht.sizes a.0)
      (fresh : IsFresh vs k (entries vs ht order)) where
    abbrev P : Hashtable Value
    P = place vs a (nonzero raw) k v ht

    away : ¬ In a order
    away i = let p = t.placed a i in nonzero-ne p.raw (sym p.stored ∙ empty)

    fresh_next : (ht.cell a).next ≡ none
    unfolding blank
    fresh_next = rw (t.unused a empty, blank) refl

    self : SameContents (P.cell a) (record (ht.cell a) {
      hash_of = nonzero raw;
      key = k;
      value = v;
      prev_link = some ht.tail_link;
    })
    self = place-contents_self vs ht order a (nonzero raw) k v t.linked away fresh_next

    other : (x : Addr) → x ≢ a → SameContents (P.cell x) (ht.cell x)
    other = place-contents_other vs ht order a (nonzero raw) k v t.linked away fresh_next

    not_a : {x : Addr} → In x order → x ≢ a
    not_a i e = away (subst (λ (z : Addr). In z order) e i)

    pub place-shape :
        (P.sizes ≡ ht.sizes)
        × (P.buckets ≡ ht.buckets)
        × (P.frozen ≡ ht.frozen)
        × (P.itercount ≡ ht.itercount)
    unfolding place put_cell
    place-shape = write-shape ht.tail_link (some a) _

    len_place : P.len ≡ (ht.len + 1) % 2 ^ 32
    unfolding place
    len_place = refl

    used_place : (x : Addr) → (P.cell x).hash_of ≢ 0 → In x (order ++ a ∷ [])
    used_place x h = elim (same-address x a) [
      | inl e ↦ In-append_right x order (a ∷ []) (inl e)
      | inr e ↦ In-append_left x order (a ∷ []) (t.used x (λ z. h ((other x e).same_hash ∙ z)))
    ]

    IsPlaced-self : IsPlaced vs P a
    unfolding bucket_id
    IsPlaced-self = record {
      raw = raw;
      hashed = ap hash self.same_key ∙ hashed;
      stored = self.same_hash;
      chain = rw (self.same_hash, place-shape.1) chain;
      inside = rw place-shape.0 inside;
    }

    IsPlaced-place : (x : Addr) → In x (order ++ a ∷ []) → IsPlaced vs P x
    IsPlaced-place x i = elim (In-append x order (a ∷ []) i) as (λ _. IsPlaced vs P x) [
      | inl j ↦
          IsPlaced-same vs ht P x (other x (not_a j)).same_hash (other x (not_a j)).same_key
            place-shape.0 place-shape.1 (t.placed x j)
      | inr (inl e) ↦ subst (IsPlaced vs P) (sym e) IsPlaced-self
      | inr (inr bad) ↦ absurd bad
    ]

    unused_place : (x : Addr) → (P.cell x).hash_of ≡ 0 → P.cell x ≡ blank vs
    unused_place x h = elim (same-address x a) [
      | inl e ↦ absurd (
          nonzero-ne raw (
            sym (subst (λ (z : Addr). (P.cell z).hash_of ≡ nonzero raw) (sym e) self.same_hash)
            ∙ h))
      | inr e ↦
          let held = sym (other x e).same_hash ∙ h in
          place-outside vs ht order a (nonzero raw) k v t.linked away fresh_next x e
            (λ i. let p = t.placed x i in nonzero-ne p.raw (sym p.stored ∙ held))
          ∙ t.unused x held
    ]

    -- The key of the new entry equals no other.
    fresh_key : (x : Addr) → In x order → equal k (ht.cell x).key ≢ some true
    unfolding entries
    fresh_key = go order fresh
      where
        go :
            (xs : List Addr)
            → IsFresh vs k (entries vs ht xs)
            → (x : Addr) → In x xs
            → equal k (ht.cell x).key ≢ some true
        go [] f x i = absurd i
        go (y ∷ ys) f x (inl e) =
            subst (λ (z : Addr). equal k (ht.cell z).key ≢ some true) (sym e) f.0
        go (y ∷ ys) f x (inr i) = go ys f.1 x i

    module _ (lawful : IsLawful vs) where
      equal_place :
          (x y : Addr) (j l : Value)
          → (P.cell x).key ≡ j
          → (P.cell y).key ≡ l
          → equal (P.cell x).key (P.cell y).key ≡ some true
          → equal j l ≡ some true
      equal_place x y j l p q e =
          subst (λ (u : Value). equal j u ≡ some true) q
            (subst (λ (u : Value). equal u (P.cell y).key ≡ some true) p e)

      unique_place :
          (x y : Addr)
          → In x (order ++ a ∷ [])
          → In y (order ++ a ∷ [])
          → equal (P.cell x).key (P.cell y).key ≡ some true
          → x ≡ y
      unique_place x y i j e = elim (same-address x a) [
        | inl p ↦ elim (same-address y a) [
          | inl q ↦ p ∙ sym q
          | inr q ↦ absurd (
              fresh_key y (inside_order y j q)
                (equal_place x y k _ (at_a x p) (other y q).same_key e))
        ]
        | inr p ↦ elim (same-address y a) [
          | inl q ↦ absurd (
              fresh_key x (inside_order x i p)
                (lawful.equal_sym _ k (equal_place x y _ k (other x p).same_key (at_a y q) e)))
          | inr q ↦
              t.unique x y (inside_order x i p) (inside_order y j q)
                (equal_place x y _ _ (other x p).same_key (other y q).same_key e)
        ]
      ]
        where
          at_a : (z : Addr) → z ≡ a → (P.cell z).key ≡ k
          at_a z e = subst (λ (w : Addr). (P.cell w).key ≡ k) (sym e) self.same_key

          inside_order : (z : Addr) → In z (order ++ a ∷ []) → z ≢ a → In z order
          inside_order z i ne = elim (In-append z order (a ∷ []) i) as (λ _. In z order) [
            | inl l ↦ l
            | inr (inl e) ↦ absurd (ne e)
            | inr (inr bad) ↦ absurd bad
          ]

      module _ (small : suc (length order) < 2 ^ 32) (load : overloaded ht.len ht.buckets ≡ false)
          (some_bucket : ht.buckets ≢ 0) where
        len_grows : P.len ≡ suc (length order)
        len_grows = omega (arith, len_place, t.counted)

        pub place-IsTable : IsTable vs P (order ++ a ∷ [])
        place-IsTable = record {
          linked = place-Linked vs ht order a (nonzero raw) k v t.linked away fresh_next;
          used = used_place;
          placed = IsPlaced-place;
          unused = unused_place;
          unique = unique_place;
          nil_empty = λ z. absurd (some_bucket (sym place-shape.1 ∙ z));
          counted = len_grows ∙ sym (length-snoc order a);
          small = omega (arith, length-snoc order a);
          loaded = elim (overloaded_no ht.len ht.buckets load) [
            | inl b ↦ inl (omega (arith, len_grows, t.counted))
            | inr b ↦ inr (omega (arith, len_grows, t.counted, place-shape.1))
          ];
        }

        entries_end : entries vs P (a ∷ []) ≡ (k, v) ∷ []
        unfolding entries
        entries_end = rw (self.same_key, self.same_value) refl

        pub place-items : items P ≡ put_item vs k v (items ht)
        place-items =
            items-entries vs P (order ++ a ∷ []) place-IsTable
            ∙ entries-append vs P order (a ∷ [])
            ∙ ap (λ (kvs : List (Value × Value)). entries vs P order ++ kvs) entries_end
            ∙ ap (λ (kvs : List (Value × Value)). kvs ++ (k, v) ∷ [])
                (entries-same vs ht P order (λ x i. other x (not_a i)))
            ∙ sym (put_item-fresh vs k v (entries vs ht order) fresh)
            ∙ sym (ap (put_item vs k v) (items-entries vs ht order t))
