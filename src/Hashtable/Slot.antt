-- ===== src/Hashtable/Slot.antt =====
-- The slot for a new entry in starlark/hashtable.go: an empty one of the chain, or a new bucket.
use starlark_go.Common.{
  ℕ, ◌*◌, ◌<◌, ◌≤◌, ◌≡◌, refl, ◌∙◌, ap, false, List, [], ◌∷◌, ◌++◌, Option, none, some, ◌⊎◌, inl,
  inr, length, arith, suc, ◌==◌, ==_iff, Bool-cases,
}
use starlark_go.Hashtable.{
  Values, Addr, Hashtable, Link, at_head, next_of, read_link, bucket_id, overloaded,
}
use starlark_go.Hashtable.Insertion.{slot}
use starlark_go.Hashtable.Segment.{Segment-frame}
use starlark_go.Hashtable.Invariant.{IsTable}
use starlark_go.Hashtable.Search.{IsFree}

-- What `overloaded` tests.
pub overloaded_no :
    (elems buckets : ℕ)
    → overloaded elems buckets ≡ false
    → (elems < 8) ⊎ (2 * elems < 13 * buckets)
unfolding overloaded
overloaded_no elems buckets h = ground arith

pub length-snoc : {A : Type 0} (xs : List A) (a : A) → length (xs ++ a ∷ []) ≡ suc (length xs)
length-snoc [] a = refl
length-snoc (x ∷ xs) a = ap suc (length-snoc xs a)

module _ (vs : Values) where
  open vs use {Value, hash, equal}

  -- The table as `slot` leaves it, and the slot.
  pub record IsSlot (ht : Hashtable Value) (i : ℕ) (out : Hashtable Value × Addr) : Type 0 where
    pub cells : out.0.cell ≡ ht.cell
    pub same_buckets : out.0.buckets ≡ ht.buckets
    pub same_len : out.0.len ≡ ht.len
    pub same_frozen : out.0.frozen ≡ ht.frozen
    pub same_itercount : out.0.itercount ≡ ht.itercount
    pub chain : out.1.0 ≡ i
    pub inside : out.1.1 < out.0.sizes i
    pub empty : (ht.cell out.1).hash_of ≡ 0

  module _ (ht : Hashtable Value) (order : List Addr) (t : IsTable vs ht order) where
    used_inside : (i j : ℕ) → ht.sizes i ≤ j → (ht.cell (i, j)).hash_of ≡ 0
    used_inside i j b = elim (Bool-cases ((ht.cell (i, j)).hash_of == 0)) [
      | inl e ↦ (==_iff _ 0).0 e
      | inr e ↦ absurd (
          let p = t.placed (i, j) (t.used (i, j) (λ z. let yes = (==_iff _ 0).1 z in cc)) in
          omega (arith, p.inside))
    ]

    pub slot-IsSlot :
        (i h : ℕ) (k : Value) (free : Option ℕ)
        → IsFree vs ht i h k (ht.sizes i) free
        → IsSlot ht i (slot vs ht i free)
    unfolding slot
    slot-IsSlot i h k none f = record {
      cells = refl;
      same_buckets = refl;
      same_len = refl;
      same_frozen = refl;
      same_itercount = refl;
      chain = refl;
      inside = rw ((==_iff i i).1 refl) (omega arith);
      empty = used_inside i (ht.sizes i) (omega arith);
    }
    slot-IsSlot i h k (some s) f = record {
      cells = refl;
      same_buckets = refl;
      same_len = refl;
      same_frozen = refl;
      same_itercount = refl;
      chain = refl;
      inside = f.1;
      empty = f.0;
    }

    -- A table with more buckets in some chains.
    module _ (s : ℕ → ℕ) (wider : (c : ℕ) → ht.sizes c ≤ s c) where
      abbrev W : Hashtable Value
      W = record ht { sizes = s }

      same_read : (l : Link) → read_link W l ≡ read_link ht l
      unfolding read_link
      same_read at_head = refl
      same_read (next_of a) = refl

      wider-IsTable : IsTable vs W order
      unfolding bucket_id
      wider-IsTable = record {
        linked = record {
          segment =
              Segment-frame ht W at_head order ht.tail_link t.linked.segment (λ l _. same_read l)
                (λ x _. refl);
          closed = same_read ht.tail_link ∙ t.linked.closed;
          once = t.linked.once;
        };
        used = t.used;
        placed = λ x i.
            let p = t.placed x i in
            record {
              raw = p.raw;
              hashed = p.hashed;
              stored = p.stored;
              chain = p.chain;
              inside = omega (arith, p.inside, wider x.0);
            };
        unused = t.unused;
        unique = t.unique;
        nil_empty = t.nil_empty;
        counted = t.counted;
        small = t.small;
        loaded = t.loaded;
      }

    pub slot-IsTable : (i : ℕ) (free : Option ℕ) → IsTable vs (slot vs ht i free).0 order
    unfolding slot
    slot-IsTable i none = wider-IsTable _ (λ c. elim (Bool-cases (c == i)) [
      | inl e ↦ rw (e, (==_iff c i).0 e) (omega arith)
      | inr e ↦ rw e (omega arith)
    ])
    slot-IsTable i (some s) = t
