-- ===== src/Hashtable/Invariant.antt =====
-- The invariant of the hash table, and the items that it holds.
use starlark_go.Common.{
  ℕ, zero, suc, ◌+◌, ◌*◌, ◌≤◌, ◌<◌, ◌^◌, ◌≡◌, refl, ap, true, List, [], ◌∷◌, ◌++◌, none, some, ◌≢◌,
  ◌⊎◌, length, arith, ◌∙◌,
}
use starlark_go.Common.Members.{In}
use starlark_go.Hashtable.{
  Values, Addr, Link, at_head, next_of, Hashtable, read_link, bucket_id, nonzero, blank, items,
  items_from,
}
use starlark_go.Hashtable.Segment.{Segment}
use starlark_go.Hashtable.Linked.{Linked}

pub same-address : (a b : Addr) → (a ≡ b) ⊎ (a ≢ b)
same-address (i, j) (k, l) = ground arith

module _ (vs : Values) where
  open vs use {Value, hash, equal}

  -- An entry in use: it holds the hash of its key, in the chain of that hash.
  pub record IsPlaced (ht : Hashtable Value) (a : Addr) : Type 0 where
    pub raw : ℕ
    pub hashed : hash (ht.cell a).key ≡ some raw
    pub stored : (ht.cell a).hash_of ≡ nonzero raw
    pub chain : a.0 ≡ bucket_id ht (ht.cell a).hash_of
    pub inside : a.1 < ht.sizes a.0

  -- The entries in use are those of the list; the others are blank; no two hold equal keys.
  pub record IsTable (ht : Hashtable Value) (order : List Addr) : Type 0 where
    pub linked : Linked ht order
    pub used : (a : Addr) → (ht.cell a).hash_of ≢ 0 → In a order
    pub placed : (a : Addr) → In a order → IsPlaced ht a
    pub unused : (a : Addr) → (ht.cell a).hash_of ≡ 0 → ht.cell a ≡ blank vs
    pub unique :
        (a b : Addr)
        → In a order
        → In b order
        → equal (ht.cell a).key (ht.cell b).key ≡ some true
        → a ≡ b
    pub nil_empty : ht.buckets ≡ 0 → order ≡ []
    pub counted : ht.len ≡ length order
    pub small : length order < 2 ^ 32
    pub loaded : (ht.len ≤ 8) ⊎ (2 * ht.len < 13 * ht.buckets + 2)

  -- A placed entry stays placed where its hash and key and the shape of the table do.
  pub IsPlaced-same :
      (ht ht' : Hashtable Value) (x : Addr)
      → (ht'.cell x).hash_of ≡ (ht.cell x).hash_of
      → (ht'.cell x).key ≡ (ht.cell x).key
      → ht'.sizes ≡ ht.sizes
      → ht'.buckets ≡ ht.buckets
      → IsPlaced ht x
      → IsPlaced ht' x
  unfolding bucket_id
  IsPlaced-same ht ht' x eh ek s b p = record {
    raw = p.raw;
    hashed = ap hash ek ∙ p.hashed;
    stored = eh ∙ p.stored;
    chain = rw (eh, b) p.chain;
    inside = rw s p.inside;
  }

  -- The items of the entries at the addresses.
  unfoldable pub entries : Hashtable Value → List Addr → List (Value × Value)
  entries ht [] = []
  entries ht (a ∷ xs) = ((ht.cell a).key, (ht.cell a).value) ∷ entries ht xs

  pub entries-append :
      (ht : Hashtable Value) (xs ys : List Addr)
      → entries ht (xs ++ ys) ≡ entries ht xs ++ entries ht ys
  unfolding entries
  entries-append ht [] ys = refl
  entries-append ht (a ∷ xs) ys = rw (entries-append ht xs ys)

  pub length-entries : (ht : Hashtable Value) (xs : List Addr) → length (entries ht xs) ≡ length xs
  unfolding entries
  length-entries ht [] = refl
  length-entries ht (a ∷ xs) = ap suc (length-entries ht xs)

  items_from-Segment :
      (fuel : ℕ) (ht : Hashtable Value) (l : Link) (xs : List Addr) (m : Link)
      → Segment ht l xs m
      → read_link ht m ≡ none
      → length xs ≤ fuel
      → items_from fuel ht (read_link ht l) ≡ entries ht xs
  unfolding items_from entries read_link
  items_from-Segment fuel ht l [] m s e h = rw (s, e) (none_case fuel)
    where
      none_case : (f : ℕ) → items_from f ht none ≡ []
      none_case zero = refl
      none_case (suc f) = refl
  items_from-Segment zero ht l (a ∷ xs) m s e h = absurd (omega arith)
  items_from-Segment (suc fuel) ht l (a ∷ xs) m s e h = rw (s.0) (
      ap (λ (t : List (Value × Value)). ((ht.cell a).key, (ht.cell a).value) ∷ t)
        (items_from-Segment fuel ht (next_of a) xs m s.2 e (omega arith)))

  -- The walk along the list gives the items of all entries, in order.
  pub items-entries :
      (ht : Hashtable Value) (order : List Addr) → IsTable ht order → items ht ≡ entries ht order
  unfolding items read_link
  items-entries ht order t =
      items_from-Segment ht.len ht at_head order ht.tail_link t.linked.segment t.linked.closed
        (omega (arith, t.counted))
