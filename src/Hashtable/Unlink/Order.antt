-- ===== src/Hashtable/Unlink/Order.antt =====
-- The list of entries without the one that is removed.
use starlark_go.Common.{
  ◌≡◌, refl, sym, ◌∙◌, ap, subst, List, [], ◌∷◌, ◌++◌, none, some, ◌≢◌, inl, inr, append-nil,
}
use starlark_go.Common.Members.{In, NoRepeats, NoRepeats-middle, In-append_left, In-append_right}
use starlark_go.Hashtable.{Values, Addr, Link, at_head, next_of, Hashtable, read_link}
use starlark_go.Hashtable.Removal.{remove}
use starlark_go.Hashtable.Memory.{next_of-injective}
use starlark_go.Hashtable.Segment.{
  Segment, Reads-ne, Reads-ne_last, Reads-cases, Segment-last, Segment-frame, Segment-append,
  Segment-split,
}
use starlark_go.Hashtable.Linked.{Linked, head-Outside}
use starlark_go.Hashtable.Unlink.{
  last-tail, inner-tail, remove-read, remove-read_prev, remove-prev, remove-prev_next, remove-other,
}

module _ (vs : Values) where
  open vs use {Value}

  -- What remains of the list when an entry is taken out of it.
  module _ (ht : Hashtable Value) (xs ys : List Addr) (a : Addr)
      (l : Linked ht (xs ++ a ∷ ys)) where
    -- The list up to the entry, its link back, and the list behind it.
    record Around : Type 0 where
      prev : Link
      before : Segment ht at_head xs prev
      read_prev : read_link ht prev ≡ some a
      back : (ht.cell a).prev_link ≡ some prev
      after : Segment ht (next_of a) ys ht.tail_link

    around : Around
    around =
        let (prev, before, rest) = Segment-split ht at_head xs (a ∷ ys) ht.tail_link l.segment in
        record { prev = prev; before = before; read_prev = rest.0; back = rest.1; after = rest.2 }

    prev-ne : (x : Addr) → ¬ In x xs → around.prev ≢ next_of x
    prev-ne x out e = elim (Segment-last ht at_head xs around.prev around.before) [
      | inl (_, p) ↦ let bad : at_head ≡ next_of x = p ∙ e in cc
      | inr (y, i, p) ↦ out (subst (λ (z : Addr). In z xs) (next_of-injective (sym p ∙ e)) i)
    ]

    parts :
        (¬ In a xs)
        × (¬ In a ys)
        × NoRepeats xs
        × NoRepeats ys
        × NoRepeats (xs ++ ys)
        × ((x : Addr) → In x xs → ¬ In x ys)
    parts = NoRepeats-middle xs ys a l.once

    ne-of-out : {x : Addr} (zs : List Addr) → In x zs → ¬ In a zs → x ≢ a
    ne-of-out zs i out e = out (subst (λ (z : Addr). In z zs) e i)

    -- An entry of the part in front is not the one that follows.
    next-out : (x : Addr) → In x xs → (ht.cell a).next ≢ some x
    unfolding read_link
    next-out x i e = go ys around.after parts.5
      where
        go :
            (zs : List Addr)
            → Segment ht (next_of a) zs ht.tail_link
            → ((z : Addr) → In z xs → ¬ In z zs)
            → ⊥
        go [] s apart = let bad : none ≡ some x = sym l.closed ∙ sym (ap (read_link ht) s) ∙ e in cc
        go (b ∷ bs) s apart =
            let same_next : some b ≡ some x = sym s.0 ∙ e in
            let b_is_x : b ≡ x = cc in apart x i (inl (sym b_is_x))

    before-kept : Segment (remove vs a ht) at_head xs around.prev
    before-kept =
        Segment-frame ht (remove vs a ht) at_head xs around.prev around.before
          (λ t r.
            remove-read vs ht a around.prev around.back t
              (Reads-ne_last ht t at_head xs around.prev around.before parts.2 (head-Outside xs) r)
              (Reads-ne xs a r (λ e. cc) parts.0))
          (λ x i.
            remove-prev vs ht a around.prev around.back x (ne-of-out xs i parts.0) (next-out x i))

  remove-Linked_last :
      (ht : Hashtable Value) (xs : List Addr) (a : Addr)
      → Linked ht (xs ++ a ∷ [])
      → Linked (remove vs a ht) (xs ++ [])
  unfolding read_link
  remove-Linked_last ht xs a l =
      let w = around ht xs [] a l in
      let last : (ht.cell a).next ≡ none = ap (read_link ht) w.after ∙ l.closed in
      let tail = last-tail vs ht a w.prev w.back last in
      let M = remove vs a ht in
      record {
        segment =
            subst (λ (zs : List Addr). Segment M at_head zs M.tail_link) (sym (append-nil xs))
              (subst (λ (t : Link). Segment M at_head xs t) (sym tail) (before-kept ht xs [] a l));
        closed =
            ap (read_link M) tail
            ∙ remove-read_prev vs ht a w.prev w.back (prev-ne ht xs [] a l a (parts ht xs [] a l).0)
            ∙ last;
        once = (parts ht xs [] a l).4;
      }

  module _ (ht : Hashtable Value) (xs : List Addr) (b : Addr) (bs : List Addr) (a : Addr)
      (l : Linked ht (xs ++ a ∷ b ∷ bs)) where
    abbrev w : Around ht xs (b ∷ bs) a l
    w = around ht xs (b ∷ bs) a l

    abbrev pt :
        (¬ In a xs)
        × (¬ In a (b ∷ bs))
        × NoRepeats xs
        × NoRepeats (b ∷ bs)
        × NoRepeats (xs ++ b ∷ bs)
        × ((x : Addr) → In x xs → ¬ In x (b ∷ bs))
    pt = parts ht xs (b ∷ bs) a l

    behind-read :
        (t : Link)
        → (z : Addr) → In z (b ∷ bs)
        → t ≡ next_of z
        → read_link (remove vs a ht) t ≡ read_link ht t
    behind-read t z i e =
        remove-read vs ht a w.prev w.back t
          (λ p. prev-ne ht xs (b ∷ bs) a l z (λ j. pt.5 z j i) (sym p ∙ e))
          (λ p. pt.1 (subst (λ (y : Addr). In y (b ∷ bs)) (next_of-injective (sym e ∙ p)) i))

    behind-kept : Segment (remove vs a ht) (next_of b) bs ht.tail_link
    unfolding read_link
    behind-kept =
        Segment-frame ht (remove vs a ht) (next_of b) bs ht.tail_link w.after.2
          (λ t r. elim (Reads-cases t (next_of b) bs r) [
            | inl e ↦ behind-read t b (inl refl) e
            | inr (z, i, e) ↦ behind-read t z (inr i) e
          ])
          (λ x i.
            remove-prev vs ht a w.prev w.back x (ne-of-out ht xs (b ∷ bs) a l (b ∷ bs) (inr i) pt.1)
              (λ e.
                let same_next : some b ≡ some x = sym w.after.0 ∙ e in
                let b_is_x : b ≡ x = cc in pt.3.0 (subst (λ (z : Addr). In z bs) (sym b_is_x) i)))

    remove-Linked_inner : Linked (remove vs a ht) (xs ++ b ∷ bs)
    unfolding read_link
    remove-Linked_inner =
        let M = remove vs a ht in
        let tail = inner-tail vs ht a w.prev w.back b w.after.0 in
        record {
          segment =
              subst (λ (t : Link). Segment M at_head (xs ++ b ∷ bs) t) (sym tail)
                (Segment-append M at_head xs (b ∷ bs) w.prev ht.tail_link
                  (before-kept ht xs (b ∷ bs) a l)
                  (
                    remove-read_prev vs ht a w.prev w.back (prev-ne ht xs (b ∷ bs) a l a pt.0)
                        ∙ w.after.0,
                    remove-prev_next vs ht a w.prev w.back b w.after.0
                        (ne-of-out ht xs (b ∷ bs) a l (b ∷ bs) (inl refl) pt.1),
                    behind-kept,
                  ));
          closed = ap (read_link M) tail ∙ end_read ∙ l.closed;
          once = pt.4;
        }
      where
        end_read : read_link (remove vs a ht) ht.tail_link ≡ read_link ht ht.tail_link
        end_read = elim (Segment-last ht (next_of b) bs ht.tail_link w.after.2) [
          | inl (_, e) ↦ behind-read ht.tail_link b (inl refl) (sym e)
          | inr (z, i, e) ↦ behind-read ht.tail_link z (inr i) e
        ]

  -- Taking an entry out of the list leaves the others in their order.
  pub remove-Linked :
      (ht : Hashtable Value) (xs ys : List Addr) (a : Addr)
      → Linked ht (xs ++ a ∷ ys)
      → Linked (remove vs a ht) (xs ++ ys)
  remove-Linked ht xs [] a l = remove-Linked_last ht xs a l
  remove-Linked ht xs (b ∷ bs) a l = remove-Linked_inner ht xs b bs a l

  -- The entries outside the list stay as they are.
  pub remove-outside :
      (ht : Hashtable Value) (xs ys : List Addr) (a : Addr)
      → Linked ht (xs ++ a ∷ ys)
      → (x : Addr) → ¬ In x (xs ++ a ∷ ys)
      → (remove vs a ht).cell x ≡ ht.cell x
  unfolding read_link
  remove-outside ht xs ys a l x out =
      let w = around ht xs ys a l in
      remove-other vs ht a w.prev w.back x (λ e. out (In-append_right x xs (a ∷ ys) (inl e)))
        (next-away ys w.after (λ i. out (In-append_right x xs (a ∷ ys) (inr i))))
        (prev-ne ht xs ys a l x (λ i. out (In-append_left x xs (a ∷ ys) i)))
    where
      next-away :
          (zs : List Addr)
          → Segment ht (next_of a) zs ht.tail_link
          → ¬ In x zs
          → (ht.cell a).next ≢ some x
      next-away [] s away e =
          let bad : none ≡ some x = sym l.closed ∙ sym (ap (read_link ht) s) ∙ e in cc
      next-away (b ∷ bs) s away e =
          let same_next : some b ≡ some x = sym s.0 ∙ e in
          let b_is_x : b ≡ x = cc in away (inl (sym b_is_x))

  -- Every entry of the list has a link back.
  pub entry-back :
      (ht : Hashtable Value) (xs ys : List Addr) (a : Addr)
      → Linked ht (xs ++ a ∷ ys)
      → (prev : Link) × ((ht.cell a).prev_link ≡ some prev)
  entry-back ht xs ys a l = let w = around ht xs ys a l in (w.prev, w.back)
