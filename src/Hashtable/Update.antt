-- ===== src/Hashtable/Update.antt =====
-- `insert` of starlark/hashtable.go at a key that is present.
use starlark_go.Common.{◌≡◌, refl, sym, ◌∙◌, ap, subst, List, some, inl, inr, true}
use starlark_go.Common.Members.{In, NoRepeats, NoRepeats-middle}
use starlark_go.Hashtable.{Values, Addr, Entry, Hashtable, put_cell, items, at_head}
use starlark_go.Hashtable.Memory.{cell-put_self, cell-put_other, read-put_same, SameContents}
use starlark_go.Hashtable.Segment.{Segment-frame}
use starlark_go.Hashtable.Linked.{Linked, SameContents-of}
use starlark_go.Hashtable.Spec.{IsLawful, put_item, put_item-behind}
use starlark_go.Hashtable.Invariant.{IsTable, IsPlaced-same, same-address, entries, items-entries}
use starlark_go.Hashtable.Search.{nonzero-ne}
use starlark_go.Hashtable.Lookup.{stands, entries-same, entries-around, items-Stands}

module _ (vs : Values) where
  open vs use {Value, equal}

  module _ (ht : Hashtable Value) (a : Addr) (v : Value) where
    abbrev pub updated : Hashtable Value
    updated = put_cell a (record (ht.cell a) { value = v }) ht

    -- Only the value of that entry changes.
    any_field :
        {B : Type 0} (f : Entry Value → B)
        → f (record (ht.cell a) { value = v }) ≡ f (ht.cell a)
        → (x : Addr) → f (updated.cell x) ≡ f (ht.cell x)
    any_field f e x = elim (same-address a x) [
      | inl p ↦
          subst (λ (z : Addr). f (updated.cell z) ≡ f (ht.cell z)) p
            (ap f (cell-put_self a _ ht) ∙ e)
      | inr p ↦ ap f (cell-put_other _ ht p)
    ]

    hash_kept : (x : Addr) → (updated.cell x).hash_of ≡ (ht.cell x).hash_of
    hash_kept = any_field (λ e. e.hash_of) refl

    key_kept : (x : Addr) → (updated.cell x).key ≡ (ht.cell x).key
    key_kept = any_field (λ e. e.key) refl

    update-Linked : (order : List Addr) → Linked ht order → Linked updated order
    unfolding put_cell
    update-Linked order l = record {
      segment =
          Segment-frame ht updated at_head order ht.tail_link l.segment
            (λ t _. read-put_same a _ ht t refl) (λ x _. any_field (λ e. e.prev_link) refl x);
      closed = read-put_same a _ ht ht.tail_link refl ∙ l.closed;
      once = l.once;
    }

    pub update-IsTable :
        (order : List Addr) → In a order → IsTable vs ht order → IsTable vs updated order
    unfolding put_cell
    update-IsTable order i t = record {
      linked = update-Linked order t.linked;
      used = λ x h. t.used x (λ z. h (hash_kept x ∙ z));
      placed =
          λ x j. IsPlaced-same vs ht updated x (hash_kept x) (key_kept x) refl refl (t.placed x j);
      unused = λ x h.
          let empty = sym (hash_kept x) ∙ h in
          cell-put_other _ ht (λ e.
            let p = t.placed a i in
            nonzero-ne p.raw (sym p.stored ∙ ap (λ (z : Addr). (ht.cell z).hash_of) e ∙ empty))
          ∙ t.unused x empty;
      unique = λ x y j k e. t.unique x y j k (
          subst (λ (u : Value). equal (ht.cell x).key u ≡ some true) (key_kept y)
            (subst (λ (u : Value). equal u (updated.cell y).key ≡ some true) (key_kept x) e));
      nil_empty = t.nil_empty;
      counted = t.counted;
      small = t.small;
      loaded = t.loaded;
    }

    kept_away :
        (x : Addr) (xs : List Addr)
        → ¬ In a xs
        → In x xs
        → SameContents (updated.cell x) (ht.cell x)
    kept_away x xs out i =
        SameContents-of (cell-put_other _ ht (λ e. out (subst (λ (z : Addr). In z xs) (sym e) i)))

    pub update-items :
        IsLawful vs
        → (order : List Addr) → IsTable vs ht order
        → In a order
        → (k : Value) → equal k (ht.cell a).key ≡ some true
        → items updated ≡ put_item vs k v (items ht)
    update-items lawful order t i k e =
        let s = stands vs ht lawful order t k a i e in
        let n = NoRepeats-middle s.before s.after a (subst NoRepeats s.at t.linked.once) in
        let self = cell-put_self a (record (ht.cell a) { value = v }) ht in
        items-entries vs updated order (update-IsTable order i t)
        ∙ ap (entries vs updated) s.at
        ∙ entries-around vs updated s.before s.after a
        ∙ rw
            (
              self,
              entries-same vs ht updated s.before (λ x j. kept_away x s.before n.0 j),
              entries-same vs ht updated s.after (λ x j. kept_away x s.after n.1 j),
            )
            refl
        ∙ sym
            (put_item-behind vs k v _ _ (entries vs ht s.before) (entries vs ht s.after) s.fresh e)
        ∙ sym (ap (put_item vs k v) (items-Stands vs lawful ht order t k a s))
