-- ===== src/Hashtable/Lookup.antt =====
-- `lookup` of starlark/hashtable.go, against the list of items.
use starlark_go.Common.{
  ℕ, ◌≡◌, refl, sym, ◌∙◌, ap, subst, true, List, [], ◌∷◌, ◌++◌, Option, none, some, ◌≢◌, inl, inr,
  ◌==◌, ==_iff, Bool-cases,
}
use starlark_go.Common.Members.{In, NoRepeats, NoRepeats-middle, In-append_left, In-split}
use starlark_go.Hashtable.{
  Values, Addr, Hashtable, Outcome, ok, err, Scan, failed, present, absent, nonzero, items,
  incomparable,
}
use starlark_go.Hashtable.Removal.{lookup}
use starlark_go.Hashtable.Memory.{SameContents}
use starlark_go.Hashtable.Spec.{
  IsLawful, IsFresh, lookup_item, lookup_item-fresh, lookup_item-behind,
}
use starlark_go.Hashtable.Invariant.{IsTable, entries, entries-append, items-entries}
use starlark_go.Hashtable.Search.{Finds, search_chain-Finds}

module _ (vs : Values) where
  open vs use {Value, hash, equal}

  -- Where an entry stands in the list: no key in front of it equals its key.
  pub record Stands (ht : Hashtable Value) (order : List Addr) (k : Value) (a : Addr) : Type 0 where
    pub before : List Addr
    pub after : List Addr
    pub at : order ≡ before ++ a ∷ after
    pub fresh : IsFresh vs k (entries vs ht before)

  module _ (ht : Hashtable Value) where
    pub IsFresh-entries :
        (k : Value) (xs : List Addr)
        → ((x : Addr) → In x xs → equal k (ht.cell x).key ≢ some true)
        → IsFresh vs k (entries vs ht xs)
    unfolding entries
    IsFresh-entries k [] h = tt
    IsFresh-entries k (x ∷ xs) h = (h x (inl refl), IsFresh-entries k xs (λ y i. h y (inr i)))

    pub stands :
        IsLawful vs
        → (order : List Addr) → IsTable vs ht order
        → (k : Value) (a : Addr) → In a order
        → equal k (ht.cell a).key ≡ some true
        → Stands ht order k a
    stands lawful order t k a i e =
        let (before, after, at) = In-split a order i in
        let n = NoRepeats-middle before after a (subst NoRepeats at t.linked.once) in
        record {
          before = before;
          after = after;
          at = at;
          fresh = IsFresh-entries k before (λ x j q.
              let here =
                subst (λ (zs : List Addr). In x zs) (sym at)
                  (In-append_left x before (a ∷ after) j) in
              let same =
                t.unique x a here i (lawful.equal_trans _ k _ (lawful.equal_sym k _ q) e) in
              n.0 (subst (λ (z : Addr). In z before) same j));
        }

    -- The items on both sides of an entry.
    pub entries-around :
        (before after : List Addr) (a : Addr)
        → entries vs ht (before ++ a ∷ after)
          ≡ entries vs ht before ++ ((ht.cell a).key, (ht.cell a).value) ∷ entries vs ht after
    unfolding entries
    entries-around before after a = entries-append vs ht before (a ∷ after)

  pub entries-same :
      (ht ht' : Hashtable Value) (xs : List Addr)
      → ((x : Addr) → In x xs → SameContents (ht'.cell x) (ht.cell x))
      → entries vs ht' xs ≡ entries vs ht xs
  unfolding entries
  entries-same ht ht' [] h = refl
  entries-same ht ht' (x ∷ xs) h = rw (
    (h x (inl refl)).same_key,
    (h x (inl refl)).same_value,
    entries-same ht ht' xs (λ y i. h y (inr i)),
  )

  module _ (lawful : IsLawful vs) (ht : Hashtable Value) (order : List Addr)
      (t : IsTable vs ht order) (k : Value) where
    pub items-Stands :
        (a : Addr)
        → (s : Stands ht order k a)
        → items ht
          ≡ entries vs ht s.before ++ ((ht.cell a).key, (ht.cell a).value) ∷ entries vs ht s.after
    items-Stands a s =
        items-entries vs ht order t ∙ ap (entries vs ht) s.at ∙ entries-around ht s.before s.after a

    pub lookup_item-Stands :
        (a : Addr)
        → In a order
        → equal k (ht.cell a).key ≡ some true
        → lookup_item vs k (items ht) ≡ some (ht.cell a).value
    lookup_item-Stands a i e =
        let s = stands ht lawful order t k a i e in
        ap (lookup_item vs k) (items-Stands a s)
        ∙ lookup_item-behind vs k _ _ (entries vs ht s.before) (entries vs ht s.after) s.fresh e

    pub lookup_item-absent : IsFresh vs k (entries vs ht order) → lookup_item vs k (items ht) ≡ none
    lookup_item-absent f =
        ap (lookup_item vs k) (items-entries vs ht order t) ∙ lookup_item-fresh vs k _ f

    answer :
        (raw : ℕ) (s : Scan)
        → Finds vs ht order k (nonzero raw) s
        → elim s as (λ _. Outcome (Option Value)) [
          | failed ↦ err incomparable none
          | present a ↦ ok (some (ht.cell a).value)
          | absent _ ↦ ok none
        ]
          ≡ ok (lookup_item vs k (items ht))
    answer raw failed f = absurd f
    answer raw (present a) f = ap ok (sym (lookup_item-Stands a f.0 f.1))
    answer raw (absent free) f = ap ok (sym (lookup_item-absent f.0))

    -- In a well-formed table, at a key that has a hash, `lookup` gives the value of the first item with
    -- an equal key, or nothing if no key is equal.
    pub lookup-items :
        (raw : ℕ) → hash k ≡ some raw → lookup vs ht k ≡ ok (lookup_item vs k (items ht))
    unfolding lookup
    lookup-items raw h =
        rw (h, lookup)
          (elim (Bool-cases (ht.buckets == 0)) [
            | inl z ↦ rw z (
                ap ok (
                  sym (
                    lookup_item-absent (
                      subst (λ (xs : List Addr). IsFresh vs k (entries vs ht xs))
                        (sym (t.nil_empty ((==_iff ht.buckets 0).0 z))) empty))))
            | inr z ↦ rw z (answer raw _ (search_chain-Finds vs lawful ht order t k raw h))
          ])
      where
        empty : IsFresh vs k (entries vs ht [])
        empty = unfold entries in tt
