-- ===== src/Hashtable/Unlink.antt =====
-- The memory of the hash table through a removal.
pub mod Order
use starlark_go.Common.{
  ◌+◌, ◌-◌, ◌%◌, ◌^◌, ◌≡◌, refl, sym, ◌∙◌, ap, subst, List, [], ◌∷◌, ◌++◌, Option, none, some, ◌≢◌,
  inl, inr, Option-cases, append-nil,
}
use starlark_go.Common.Members.{In, NoRepeats, NoRepeats-middle, In-append_left, In-append_right}
use starlark_go.Hashtable.{
  Values, Addr, Link, at_head, next_of, Entry, Hashtable, read_link, write_link, put_cell, blank,
}
use starlark_go.Hashtable.Removal.{remove, close_gap}
use starlark_go.Hashtable.Memory.{
  next_of-injective, cell-put_self, cell-put_other, read-write_self, read-write_other, SameContents,
  write-rest, read-put_other, read-put_same, tail-write, put-contents, cell-write_other,
  write-shape,
}
use starlark_go.Hashtable.Segment.{
  Segment, Reads-ne, Reads-ne_last, Reads-cases, Segment-last, Segment-frame, Segment-append,
  Segment-split,
}
use starlark_go.Hashtable.Linked.{Linked, head-Outside, SameContents-trans, SameContents-of}

abbrev prev_of : {V : Type 0} → Entry V → Option Link
prev_of e = e.prev_link

module _ (vs : Values) where
  open vs use {Value}

  abbrev unlinked : Hashtable Value → Addr → Link → Hashtable Value
  unlinked ht a prev = write_link prev (ht.cell a).next ht

  module _ (ht : Hashtable Value) (a : Addr) (prev : Link)
      (back : (ht.cell a).prev_link ≡ some prev) where
    -- Where the entry is the last one.
    module _ (last : (ht.cell a).next ≡ none) where
      last-read :
          (t : Link)
          → read_link (remove vs a ht) t ≡ read_link (put_cell a (blank vs) (unlinked ht a prev)) t
      unfolding remove close_gap read_link put_cell
      last-read at_head = rw (back, last, remove)
      last-read (next_of b) = rw (back, last, remove)

      last-cell :
          (x : Addr) → (remove vs a ht).cell x ≡ (put_cell a (blank vs) (unlinked ht a prev)).cell x
      unfolding remove close_gap
      last-cell x = rw (back, last, remove)

      pub last-tail : (remove vs a ht).tail_link ≡ prev
      unfolding remove close_gap put_cell
      last-tail = rw (back, last, remove)

    module _ (b : Addr) (follows : (ht.cell a).next ≡ some b) where
      abbrev relinked : Hashtable Value
      relinked =
          let m = unlinked ht a prev in
          put_cell a (blank vs) (put_cell b (record (m.cell b) { prev_link = some prev }) m)

      inner-read : (t : Link) → read_link (remove vs a ht) t ≡ read_link relinked t
      unfolding remove close_gap read_link put_cell
      inner-read at_head = rw (back, follows, remove)
      inner-read (next_of c) = rw (back, follows, remove)

      inner-cell : (x : Addr) → (remove vs a ht).cell x ≡ relinked.cell x
      unfolding remove close_gap
      inner-cell x = rw (back, follows, remove)

      pub inner-tail : (remove vs a ht).tail_link ≡ ht.tail_link
      unfolding remove close_gap put_cell
      inner-tail = rw (back, follows, remove) (tail-write prev (some b) ht)

    pub remove-read :
        (t : Link) → t ≢ prev → t ≢ next_of a → read_link (remove vs a ht) t ≡ read_link ht t
    remove-read t p q = elim (Option-cases (ht.cell a).next) [
      | inl e ↦ last-read e t ∙ read-put_other a (blank vs) _ q ∙ read-write_other _ ht p
      | inr (b, e) ↦
          inner-read b e t
          ∙ read-put_other a (blank vs) _ q
          ∙ read-put_same b _ (unlinked ht a prev) t refl
          ∙ read-write_other _ ht p
    ]

    pub remove-read_prev : prev ≢ next_of a → read_link (remove vs a ht) prev ≡ (ht.cell a).next
    remove-read_prev q = elim (Option-cases (ht.cell a).next) [
      | inl e ↦ last-read e prev ∙ read-put_other a (blank vs) _ q ∙ read-write_self prev _ ht
      | inr (b, e) ↦
          inner-read b e prev
          ∙ read-put_other a (blank vs) _ q
          ∙ read-put_same b _ (unlinked ht a prev) prev refl
          ∙ read-write_self prev _ ht
    ]

    pub remove-prev :
        (x : Addr)
        → x ≢ a
        → (ht.cell a).next ≢ some x
        → prev_of ((remove vs a ht).cell x) ≡ prev_of (ht.cell x)
    remove-prev x p q = elim (Option-cases (ht.cell a).next) [
      | inl e ↦
          ap prev_of (last-cell e x ∙ cell-put_other (blank vs) _ (λ r. p (sym r)))
          ∙ (write-rest prev _ ht x).1
      | inr (b, e) ↦
          ap prev_of (
            inner-cell b e x
            ∙ cell-put_other (blank vs) _ (λ r. p (sym r))
            ∙ cell-put_other _ (unlinked ht a prev) (λ r. q (e ∙ ap some r)))
          ∙ (write-rest prev _ ht x).1
    ]

    remove-prev_next :
        (b : Addr)
        → (ht.cell a).next ≡ some b
        → b ≢ a
        → prev_of ((remove vs a ht).cell b) ≡ some prev
    remove-prev_next b e p = ap prev_of (
        inner-cell b e b
        ∙ cell-put_other (blank vs) _ (λ r. p (sym r))
        ∙ cell-put_self b _ (unlinked ht a prev))

    pub remove-blank : (remove vs a ht).cell a ≡ blank vs
    remove-blank = elim (Option-cases (ht.cell a).next) [
      | inl e ↦ last-cell e a ∙ cell-put_self a (blank vs) _
      | inr (b, e) ↦ inner-cell b e a ∙ cell-put_self a (blank vs) _
    ]

    pub remove-contents : (x : Addr) → x ≢ a → SameContents ((remove vs a ht).cell x) (ht.cell x)
    remove-contents x p = elim (Option-cases (ht.cell a).next) [
      | inl e ↦
          SameContents-trans
            (SameContents-of (last-cell e x ∙ cell-put_other (blank vs) _ (λ r. p (sym r))))
            (write-rest prev _ ht x).0
      | inr (b, e) ↦
          SameContents-trans
            (SameContents-of (inner-cell b e x ∙ cell-put_other (blank vs) _ (λ r. p (sym r))))
            (SameContents-trans
              (put-contents b _ (unlinked ht a prev) x
                (record { same_hash = refl; same_key = refl; same_value = refl }))
              (write-rest prev _ ht x).0)
    ]

    pub remove-other :
        (x : Addr)
        → x ≢ a
        → (ht.cell a).next ≢ some x
        → prev ≢ next_of x
        → (remove vs a ht).cell x ≡ ht.cell x
    remove-other x p q r = elim (Option-cases (ht.cell a).next) [
      | inl e ↦
          last-cell e x ∙ cell-put_other (blank vs) _ (λ t. p (sym t)) ∙ cell-write_other x _ ht r
      | inr (b, e) ↦
          inner-cell b e x
          ∙ cell-put_other (blank vs) _ (λ t. p (sym t))
          ∙ cell-put_other _ (unlinked ht a prev) (λ t. q (e ∙ ap some t))
          ∙ cell-write_other x _ ht r
    ]

    -- What a removal changes besides the memory: the count only.
    pub remove-shape :
        ((remove vs a ht).sizes ≡ ht.sizes)
        × ((remove vs a ht).buckets ≡ ht.buckets)
        × ((remove vs a ht).len ≡ (ht.len + 2 ^ 32 - 1) % 2 ^ 32)
    unfolding close_gap put_cell remove
    remove-shape =
        rw (back, remove)
          (elim (Option-cases (ht.cell a).next) [
            | inl e ↦ rw (e) ((write-shape prev none ht).0, (write-shape prev none ht).1, refl)
            | inr (b, e) ↦
                rw (e) ((write-shape prev (some b) ht).0, (write-shape prev (some b) ht).1, refl)
          ])
