-- ===== src/Hashtable/RoundTrip.antt =====
-- `lookup` after `insert`, starlark/hashtable.go.
use starlark_go.Common.{
  ℕ, ◌^◌, ◌<◌, ◌≡◌, refl, sym, ◌∙◌, ap, false, List, [], ◌∷◌, Option, none, some, ◌≢◌, inl, inr,
  true, length, suc, if◌then◌else◌,
}
use starlark_go.Hashtable.{Values, Addr, Hashtable, ok, items, check_mutable}
use starlark_go.Hashtable.Removal.{lookup}
use starlark_go.Hashtable.Insertion.{insert}
use starlark_go.Hashtable.Spec.{
  IsLawful, Items, is_equal, is_equal-yes, is_equal-no, equal-cases, lookup_item, put_item,
}
use starlark_go.Hashtable.Invariant.{IsTable}
use starlark_go.Hashtable.Lookup.{lookup-items}
use starlark_go.Hashtable.Put.{insert-put_item}

module _ (vs : Values) (lawful : IsLawful vs) where
  open vs use {Value, hash, equal}

  lookup_item-put_self :
      (k v : Value) (kvs : Items vs) → lookup_item vs k (put_item vs k v kvs) ≡ some v
  unfolding lookup_item put_item
  lookup_item-put_self k v [] = rw (is_equal-yes vs k k (lawful.equal_refl k)) refl
  lookup_item-put_self k v ((j, w) ∷ kvs) = elim (equal-cases vs lawful k j) [
    | inl e ↦ rw (is_equal-yes vs k j e, is_equal-yes vs k j e) refl
    | inr e ↦
        let no = is_equal-no vs k j (λ b. let bad : some true ≡ some false = sym b ∙ e in cc) in
        rw (no, no) (lookup_item-put_self k v kvs)
  ]

  -- Two keys that a third one equals are equal.
  is_equal-apart :
      (j k i : Value) → equal j k ≢ some true → equal k i ≡ some true → is_equal vs j i ≡ false
  is_equal-apart j k i ne e =
      is_equal-no vs j i (λ b. ne (lawful.equal_trans j i k b (lawful.equal_sym k i e)))

  lookup_item-put_other :
      (j k v : Value) (kvs : Items vs)
      → equal j k ≢ some true
      → lookup_item vs j (put_item vs k v kvs) ≡ lookup_item vs j kvs
  unfolding lookup_item put_item
  lookup_item-put_other j k v [] ne = rw (is_equal-no vs j k ne) refl
  lookup_item-put_other j k v ((i, w) ∷ kvs) ne = elim (equal-cases vs lawful k i) [
    | inl e ↦ rw (is_equal-yes vs k i e, is_equal-apart j k i ne e) refl
    | inr e ↦ rw (is_equal-no vs k i (λ b. let bad : some true ≡ some false = sym b ∙ e in cc)) (
        ap (λ (o : Option Value). if is_equal vs j i then some w else o)
          (lookup_item-put_other j k v kvs ne))
  ]

  module _ (ht : Hashtable Value) (order : List Addr) (t : IsTable vs ht order) (k v : Value)
      (raw : ℕ) (mutable : check_mutable ht ≡ none) (hashed : hash k ≡ some raw)
      (small : suc (length order) < 2 ^ 32) where
    -- After `insert` in a well-formed table that may change, with a key that has a hash and room for
    -- one item more, `lookup` finds the value at the key, and at every other key that has a hash what
    -- it found before.
    pub insert-lookup :
        (after : Hashtable Value) × (insert vs ht k v ≡ ok after)
        × (lookup vs after k ≡ ok (some v))
        × ((j : Value) (other : ℕ)
            → hash j ≡ some other
            → equal j k ≢ some true
            → lookup vs after j ≡ lookup vs ht j)
    insert-lookup =
        let (nb, done) = insert-put_item vs lawful ht order t k v raw mutable hashed small in
        let (after, out, h) = done in
        (
          after,
          out,
          lookup-items vs lawful after h.order h.table k raw hashed
              ∙ ap ok (ap (lookup_item vs k) h.held ∙ lookup_item-put_self k v (items ht)),
          λ j other e ne.
              lookup-items vs lawful after h.order h.table j other e
              ∙ ap ok (ap (lookup_item vs j) h.held ∙ lookup_item-put_other j k v (items ht) ne)
              ∙ sym (lookup-items vs lawful ht order t j other e),
        )
