-- ===== src/Hashtable/Linked.antt =====
-- The list of entries of starlark/hashtable.go through an insertion.
use starlark_go.Common.{
  ℕ, ◌≡◌, refl, sym, ◌∙◌, ap, subst, List, [], ◌∷◌, ◌++◌, none, some, ◌≢◌, inl, inr,
}
use starlark_go.Common.Members.{In, NoRepeats, NoRepeats-snoc}
use starlark_go.Hashtable.{
  Values, Addr, Link, at_head, next_of, Entry, Hashtable, read_link, write_link, put_cell,
}
use starlark_go.Hashtable.Insertion.{place}
use starlark_go.Hashtable.Memory.{
  next_of-injective, cell-put_self, cell-put_other, read-write_self, read-write_other, SameContents,
  SameContents-refl, write-rest, read-put_other, read-put_same, cell-write_other,
}
use starlark_go.Hashtable.Segment.{
  Segment, Outside, Reads-ne, Reads-ne_last, Segment-last, Segment-frame, Segment-append,
}

-- The list from the head runs through the addresses, each once, and ends at the tail link.
pub record Linked {V : Type 0} (ht : Hashtable V) (order : List Addr) : Type 0 where
  pub segment : Segment ht at_head order ht.tail_link
  pub closed : read_link ht ht.tail_link ≡ none
  pub once : NoRepeats order

pub head-Outside : (xs : List Addr) → Outside at_head xs
head-Outside xs x i e = cc

module _ {V : Type 0} where
  pub SameContents-trans :
      {e f g : Entry V} → SameContents e f → SameContents f g → SameContents e g
  SameContents-trans p q = record {
    same_hash = p.same_hash ∙ q.same_hash;
    same_key = p.same_key ∙ q.same_key;
    same_value = p.same_value ∙ q.same_value;
  }

  pub SameContents-of : {e f : Entry V} → e ≡ f → SameContents e f
  SameContents-of {e} p = subst (λ (g : Entry V). SameContents e g) p (SameContents-refl e)

  -- The tail link is not the link of an address outside the list.
  tail-ne :
      (ht : Hashtable V) (order : List Addr) (a : Addr)
      → Linked ht order
      → ¬ In a order
      → ht.tail_link ≢ next_of a
  tail-ne ht order a l out e = elim (Segment-last ht at_head order ht.tail_link l.segment) [
    | inl (_, p) ↦ let bad : at_head ≡ next_of a = p ∙ e in cc
    | inr (x, i, p) ↦ out (subst (λ (z : Addr). In z order) (next_of-injective (sym p ∙ e)) i)
  ]

module _ (vs : Values) where
  open vs use {Value}

  module _ (ht : Hashtable Value) (order : List Addr) (a : Addr) (h : ℕ) (k v : Value)
      (l : Linked ht order) (out : ¬ In a order) (fresh : (ht.cell a).next ≡ none) where
    abbrev entry : Entry Value
    entry = record (ht.cell a) { hash_of = h; key = k; value = v; prev_link = some ht.tail_link }

    abbrev stored : Hashtable Value
    stored = put_cell a entry ht

    place-read :
        (t : Link)
        → read_link (place vs a h k v ht) t ≡ read_link (write_link ht.tail_link (some a) stored) t
    unfolding place read_link
    place-read at_head = refl
    place-read (next_of b) = refl

    place-cell :
        (x : Addr) → (place vs a h k v ht).cell x ≡ (write_link ht.tail_link (some a) stored).cell x
    unfolding place
    place-cell x = refl

    place-prev :
        (x : Addr) → x ≢ a → ((place vs a h k v ht).cell x).prev_link ≡ (ht.cell x).prev_link
    place-prev x ne =
        ap (λ (e : Entry Value). e.prev_link) (place-cell x)
        ∙ (write-rest ht.tail_link (some a) stored x).1
        ∙ ap (λ (e : Entry Value). e.prev_link) (cell-put_other entry ht (λ p. ne (sym p)))

    place-prev_self : ((place vs a h k v ht).cell a).prev_link ≡ some ht.tail_link
    place-prev_self =
        ap (λ (e : Entry Value). e.prev_link) (place-cell a)
        ∙ (write-rest ht.tail_link (some a) stored a).1
        ∙ ap (λ (e : Entry Value). e.prev_link) (cell-put_self a entry ht)

    place-read_other :
        (t : Link)
        → t ≢ ht.tail_link
        → t ≢ next_of a
        → read_link (place vs a h k v ht) t ≡ read_link ht t
    place-read_other t p q =
        place-read t ∙ read-write_other (some a) stored p ∙ read-put_other a entry ht q

    place-Segment : Segment (place vs a h k v ht) at_head order ht.tail_link
    place-Segment =
        Segment-frame ht (place vs a h k v ht) at_head order ht.tail_link l.segment
          (λ t r.
            place-read_other t
              (Reads-ne_last ht t at_head order ht.tail_link l.segment l.once (head-Outside order)
                r)
              (Reads-ne order a r (λ e. cc) out))
          (λ x i. place-prev x (λ e. out (subst (λ (z : Addr). In z order) e i)))

    place-tail : (place vs a h k v ht).tail_link ≡ next_of a
    unfolding place
    place-tail = refl

    -- The new entry stands at the end of the list.
    pub place-Linked : Linked (place vs a h k v ht) (order ++ a ∷ [])
    place-Linked = record {
      segment =
          subst (λ (z : Link). Segment (place vs a h k v ht) at_head (order ++ a ∷ []) z)
            (sym place-tail)
            (Segment-append (place vs a h k v ht) at_head order (a ∷ []) ht.tail_link (next_of a)
              place-Segment
              (
                place-read ht.tail_link ∙ read-write_self ht.tail_link (some a) stored,
                place-prev_self,
                refl,
              ));
      closed =
          ap (read_link (place vs a h k v ht)) place-tail
          ∙ place-read (next_of a)
          ∙ read-write_other (some a) stored (λ e. tail-ne ht order a l out (sym e))
          ∙ read-put_same a entry ht (next_of a) refl
          ∙ fresh_link;
      once = NoRepeats-snoc order a l.once out;
    }
      where
        fresh_link : read_link ht (next_of a) ≡ none
        fresh_link = unfold read_link in fresh

    -- What the entries hold afterwards.
    pub place-contents_other :
        (x : Addr) → x ≢ a → SameContents ((place vs a h k v ht).cell x) (ht.cell x)
    place-contents_other x ne = SameContents-trans (SameContents-of (place-cell x)) (
        SameContents-trans (write-rest ht.tail_link (some a) stored x).0
          (SameContents-of (cell-put_other entry ht (λ p. ne (sym p)))))

    pub place-contents_self : SameContents ((place vs a h k v ht).cell a) entry
    place-contents_self = SameContents-trans (SameContents-of (place-cell a)) (
        SameContents-trans (write-rest ht.tail_link (some a) stored a).0
          (SameContents-of (cell-put_self a entry ht)))

    -- The entries outside the list stay as they are.
    pub place-outside : (x : Addr) → x ≢ a → ¬ In x order → (place vs a h k v ht).cell x ≡ ht.cell x
    place-outside x ne away =
        place-cell x
        ∙ cell-write_other x (some a) stored (tail-ne ht order x l away)
        ∙ cell-put_other entry ht (λ p. ne (sym p))
