-- ===== src/Hashtable/Spec.antt =====
-- What a dict promises: a list of items in the order of insertion, and what its operations do to it.
use starlark_go.Common.{
  ◌≡◌, refl, Bool, true, false, List, [], ◌∷◌, ◌++◌, Option, none, some, ◌≢◌, if◌then◌else◌, All,
  ◌⊎◌, inl, inr,
}
use starlark_go.Hashtable.{Values}

-- What the table relies on: equality of values is decided without an error and is an equivalence, and
-- equal values have equal hashes.
pub record IsLawful (vs : Values) : Type 0 where
  pub equal_total : (a b : vs.Value) → (r : Bool) × (vs.equal a b ≡ some r)
  pub equal_refl : (a : vs.Value) → vs.equal a a ≡ some true
  pub equal_sym : (a b : vs.Value) → vs.equal a b ≡ some true → vs.equal b a ≡ some true
  pub equal_trans :
      (a b c : vs.Value)
      → vs.equal a b ≡ some true
      → vs.equal b c ≡ some true
      → vs.equal a c ≡ some true
  pub hash_equal : (a b : vs.Value) → vs.equal a b ≡ some true → vs.hash a ≡ vs.hash b

module _ (vs : Values) where
  open vs use {Value, equal}

  abbrev pub Items : Type 0
  Items = List (Value × Value)

  abbrev pub is_equal : Value → Value → Bool
  is_equal a b = elim (equal a b) [ some r ↦ r | none ↦ false ]

  unfoldable pub lookup_item : Value → Items → Option Value
  lookup_item k [] = none
  lookup_item k ((j, w) ∷ kvs) = if is_equal k j then some w else lookup_item k kvs

  -- A key that is there keeps its place, and its first form; another goes to the end.
  unfoldable pub put_item : Value → Value → Items → Items
  put_item k v [] = (k, v) ∷ []
  put_item k v ((j, w) ∷ kvs) = if is_equal k j then (j, v) ∷ kvs else (j, w) ∷ put_item k v kvs

  unfoldable pub drop_item : Value → Items → Items
  drop_item k [] = []
  drop_item k ((j, w) ∷ kvs) = if is_equal k j then kvs else (j, w) ∷ drop_item k kvs

  pub equal-cases : IsLawful vs → (a b : Value) → (equal a b ≡ some true) ⊎ (equal a b ≡ some false)
  equal-cases lawful a b = let (r, e) = lawful.equal_total a b in go r e
    where
      go : (r : Bool) → equal a b ≡ some r → (equal a b ≡ some true) ⊎ (equal a b ≡ some false)
      go true e = inl e
      go false e = inr e

  -- No key of the items equals `k`.
  abbrev pub IsFresh : Value → Items → Type 0
  IsFresh k kvs = All (λ kv. equal k kv.0 ≢ some true) kvs

  pub is_equal-no : (a b : Value) → equal a b ≢ some true → is_equal a b ≡ false
  is_equal-no a b h = go (equal a b) h
    where
      go : (r : Option Bool) → r ≢ some true → elim r [ some q ↦ q | none ↦ false ] ≡ false
      go none h = refl
      go (some true) h = absurd (h refl)
      go (some false) h = refl

  pub is_equal-yes : (a b : Value) → equal a b ≡ some true → is_equal a b ≡ true
  is_equal-yes a b h = rw (h, is_equal) refl

  pub put_item-fresh :
      (k v : Value) (kvs : Items) → IsFresh k kvs → put_item k v kvs ≡ kvs ++ (k, v) ∷ []
  unfolding put_item
  put_item-fresh k v [] h = refl
  put_item-fresh k v ((j, w) ∷ kvs) h = rw (is_equal-no k j h.0, put_item-fresh k v kvs h.1)

  pub lookup_item-fresh : (k : Value) (kvs : Items) → IsFresh k kvs → lookup_item k kvs ≡ none
  unfolding lookup_item
  lookup_item-fresh k [] h = refl
  lookup_item-fresh k ((j, w) ∷ kvs) h = rw (is_equal-no k j h.0) (lookup_item-fresh k kvs h.1)

  pub drop_item-fresh : (k : Value) (kvs : Items) → IsFresh k kvs → drop_item k kvs ≡ kvs
  unfolding drop_item
  drop_item-fresh k [] h = refl
  drop_item-fresh k ((j, w) ∷ kvs) h = rw (is_equal-no k j h.0, drop_item-fresh k kvs h.1)

  -- Items of other keys in front do not matter.
  pub lookup_item-behind :
      (k j w : Value) (kvs kws : Items)
      → IsFresh k kvs
      → equal k j ≡ some true
      → lookup_item k (kvs ++ (j, w) ∷ kws) ≡ some w
  unfolding lookup_item
  lookup_item-behind k j w [] kws h e = rw (is_equal-yes k j e)
  lookup_item-behind k j w ((i, u) ∷ kvs) kws h e =
      rw (is_equal-no k i h.0) (lookup_item-behind k j w kvs kws h.1 e)

  pub put_item-behind :
      (k v j w : Value) (kvs kws : Items)
      → IsFresh k kvs
      → equal k j ≡ some true
      → put_item k v (kvs ++ (j, w) ∷ kws) ≡ kvs ++ (j, v) ∷ kws
  unfolding put_item
  put_item-behind k v j w [] kws h e = rw (is_equal-yes k j e)
  put_item-behind k v j w ((i, u) ∷ kvs) kws h e =
      rw (is_equal-no k i h.0, put_item-behind k v j w kvs kws h.1 e)

  pub drop_item-behind :
      (k j w : Value) (kvs kws : Items)
      → IsFresh k kvs
      → equal k j ≡ some true
      → drop_item k (kvs ++ (j, w) ∷ kws) ≡ kvs ++ kws
  unfolding drop_item
  drop_item-behind k j w [] kws h e = rw (is_equal-yes k j e)
  drop_item-behind k j w ((i, u) ∷ kvs) kws h e =
      rw (is_equal-no k i h.0, drop_item-behind k j w kvs kws h.1 e)
