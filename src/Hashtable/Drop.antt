-- ===== src/Hashtable/Drop.antt =====
-- `delete` of starlark/hashtable.go, against the list of items.
use starlark_go.Common.{
  ℕ, suc, ◌+◌, ◌-◌, ◌%◌, ◌^◌, ◌≡◌, refl, sym, ◌∙◌, ap, subst, true, List, [], ◌∷◌, ◌++◌, Option,
  none, some, ◌≢◌, inl, inr, ◌==◌, ==_iff, Bool-cases, arith, length,
}
use starlark_go.Common.Members.{In, NoRepeats-middle, In-append_left, In-append_right, In-append}
use starlark_go.Hashtable.{
  Values, Addr, Link, Hashtable, Outcome, ok, err, Scan, failed, present, absent, nonzero, items,
  incomparable, blank, check_mutable,
}
use starlark_go.Hashtable.Removal.{remove, delete}
use starlark_go.Hashtable.Memory.{SameContents}
use starlark_go.Hashtable.Unlink.{remove-blank, remove-contents, remove-shape}
use starlark_go.Hashtable.Unlink.Order.{remove-Linked, remove-outside, entry-back}
use starlark_go.Hashtable.Spec.{
  IsLawful, IsFresh, lookup_item, drop_item, drop_item-fresh, drop_item-behind,
}
use starlark_go.Hashtable.Invariant.{
  IsTable, IsPlaced-same, same-address, entries, entries-append, items-entries,
}
use starlark_go.Hashtable.Search.{nonzero-ne, Finds, search_chain-Finds}
use starlark_go.Hashtable.Lookup.{
  stands, entries-same, items-Stands, lookup_item-Stands, lookup_item-absent,
}

length-split :
    {A : Type 0} (xs ys : List A) (a : A) → length (xs ++ a ∷ ys) ≡ suc (length (xs ++ ys))
length-split [] ys a = refl
length-split (x ∷ xs) ys a = ap suc (length-split xs ys a)

In-without : {A : Type 0} (x a : A) (xs ys : List A) → In x (xs ++ a ∷ ys) → x ≢ a → In x (xs ++ ys)
In-without x a xs ys i ne = elim (In-append x xs (a ∷ ys) i) as (λ _. In x (xs ++ ys)) [
  | inl j ↦ In-append_left x xs ys j
  | inr (inl e) ↦ absurd (ne e)
  | inr (inr j) ↦ In-append_right x xs ys j
]

In-with : {A : Type 0} (x a : A) (xs ys : List A) → In x (xs ++ ys) → In x (xs ++ a ∷ ys)
In-with x a xs ys i = elim (In-append x xs ys i) [
  | inl j ↦ In-append_left x xs (a ∷ ys) j
  | inr j ↦ In-append_right x xs (a ∷ ys) (inr j)
]

module _ (vs : Values) where
  open vs use {Value, hash, equal}

  module _ (ht : Hashtable Value) (xs ys : List Addr) (a : Addr)
      (t : IsTable vs ht (xs ++ a ∷ ys)) where
    abbrev M : Hashtable Value
    M = remove vs a ht

    back : (prev : Link) × ((ht.cell a).prev_link ≡ some prev)
    back = entry-back vs ht xs ys a t.linked

    shape :
        (M.sizes ≡ ht.sizes) × (M.buckets ≡ ht.buckets) × (M.len ≡ (ht.len + 2 ^ 32 - 1) % 2 ^ 32)
    shape = remove-shape vs ht a back.0 back.1

    apart : (x : Addr) → In x (xs ++ ys) → x ≢ a
    apart x i e =
        let n = NoRepeats-middle xs ys a t.linked.once in
        elim (In-append x xs ys i) [
          | inl j ↦ n.0 (subst (λ (z : Addr). In z xs) e j)
          | inr j ↦ n.1 (subst (λ (z : Addr). In z ys) e j)
        ]

    kept : (x : Addr) → x ≢ a → SameContents (M.cell x) (ht.cell x)
    kept = remove-contents vs ht a back.0 back.1

    len_after : M.len ≡ length (xs ++ ys)
    len_after = omega (arith, shape.2, t.counted, t.small, length-split xs ys a)

    used_after : (x : Addr) → (M.cell x).hash_of ≢ 0 → In x (xs ++ ys)
    unfolding blank
    used_after x h = elim (same-address x a) [
      | inl e ↦ absurd (h (rw (e, remove-blank vs ht a back.0 back.1, blank) refl))
      | inr e ↦ In-without x a xs ys (t.used x (λ z. h ((kept x e).same_hash ∙ z))) e
    ]

    unused_after : (x : Addr) → (M.cell x).hash_of ≡ 0 → M.cell x ≡ blank vs
    unused_after x h = elim (same-address x a) [
      | inl e ↦ rw e (remove-blank vs ht a back.0 back.1)
      | inr e ↦
          let empty = sym (kept x e).same_hash ∙ h in
          remove-outside vs ht xs ys a t.linked x
            (λ i. let p = t.placed x i in nonzero-ne p.raw (sym p.stored ∙ empty))
          ∙ t.unused x empty
    ]

    pub remove-IsTable : IsTable vs M (xs ++ ys)
    remove-IsTable = record {
      linked = remove-Linked vs ht xs ys a t.linked;
      used = used_after;
      placed = λ x i.
          IsPlaced-same vs ht M x (kept x (apart x i)).same_hash (kept x (apart x i)).same_key
            shape.0 shape.1 (t.placed x (In-with x a xs ys i));
      unused = unused_after;
      unique = λ x y i j e. t.unique x y (In-with x a xs ys i) (In-with y a xs ys j) (
          subst (λ (k : Value). equal (ht.cell x).key k ≡ some true) (kept y (apart y j)).same_key
            (subst (λ (k : Value). equal k (M.cell y).key ≡ some true) (kept x (apart x i)).same_key
              e));
      nil_empty = λ z.
          absurd (omega (arith, ap length (t.nil_empty (sym shape.1 ∙ z)), length-split xs ys a));
      counted = len_after;
      small = omega (arith, t.small, length-split xs ys a);
      loaded = elim t.loaded [
        | inl b ↦ inl (omega (arith, len_after, t.counted, length-split xs ys a))
        | inr b ↦ inr (omega (arith, len_after, t.counted, length-split xs ys a, shape.1))
      ];
    }

    entries-remove : entries vs M (xs ++ ys) ≡ entries vs ht (xs ++ ys)
    entries-remove = entries-same vs ht M (xs ++ ys) (λ x i. kept x (apart x i))

  -- The outcome is the table without the item, and the value that it held.
  abbrev pub Deletes : Hashtable Value → Value → Outcome (Hashtable Value × Option Value) → Type 0
  Deletes ht k out =
      (after : Hashtable Value) × (order : List Addr) × (out
        ≡ ok (after, lookup_item vs k (items ht)))
      × IsTable vs after order
      × (items after ≡ drop_item vs k (items ht))

  module _ (lawful : IsLawful vs) (ht : Hashtable Value) (order : List Addr)
      (t : IsTable vs ht order) (k : Value) where
    remove-Deletes :
        (a : Addr)
        → In a order
        → equal k (ht.cell a).key ≡ some true
        → Deletes ht k (ok (remove vs a ht, some (ht.cell a).value))
    remove-Deletes a i e =
        let s = stands vs ht lawful order t k a i e in
        let u = subst (IsTable vs ht) s.at t in
        let gone = remove-IsTable ht s.before s.after a u in
        (
          remove vs a ht,
          s.before ++ s.after,
          ap (λ (o : Option Value). ok (remove vs a ht, o))
              (sym (lookup_item-Stands vs lawful ht order t k a i e)),
          gone,
          items-entries vs (remove vs a ht) (s.before ++ s.after) gone
              ∙ entries-remove ht s.before s.after a u
              ∙ entries-append vs ht s.before s.after
              ∙ sym (
                  drop_item-behind vs k _ _ (entries vs ht s.before) (entries vs ht s.after) s.fresh
                    e)
              ∙ sym (ap (drop_item vs k) (items-Stands vs lawful ht order t k a s)),
        )

    nothing-Deletes : IsFresh vs k (entries vs ht order) → Deletes ht k (ok (ht, none))
    nothing-Deletes f = (
      ht,
      order,
      ap (λ (o : Option Value). ok (ht, o)) (sym (lookup_item-absent vs lawful ht order t k f)),
      t,
      sym (
          ap (drop_item vs k) (items-entries vs ht order t)
          ∙ drop_item-fresh vs k _ f
          ∙ sym (items-entries vs ht order t)),
    )

    removal :
        (raw : ℕ) (s : Scan)
        → Finds vs ht order k (nonzero raw) s
        → Deletes ht k (elim s as (λ _. Outcome (Hashtable Value × Option Value)) [
          | failed ↦ err incomparable (ht, none)
          | present a ↦ ok (remove vs a ht, some (ht.cell a).value)
          | absent _ ↦ ok (ht, none)
        ])
    removal raw failed f = absurd f
    removal raw (present a) f = remove-Deletes a f.0 f.1
    removal raw (absent free) f = nothing-Deletes f.0

    -- On a well-formed table that may change, with a key that has a hash, `delete` gives the value of
    -- the first item with an equal key, and leaves a well-formed table without that item.
    pub delete-drop_item :
        check_mutable ht ≡ none → (raw : ℕ) → hash k ≡ some raw → Deletes ht k (delete vs ht k)
    unfolding delete
    delete-drop_item m raw h =
        rw (m, delete)
          (elim (Bool-cases (ht.buckets == 0)) [
            | inl z ↦ rw z (
                nothing-Deletes (
                  subst (λ (xs : List Addr). IsFresh vs k (entries vs ht xs))
                    (sym (t.nil_empty ((==_iff ht.buckets 0).0 z))) empty))
            | inr z ↦ rw (z, h) (removal raw _ (search_chain-Finds vs lawful ht order t k raw h))
          ])
      where
        empty : IsFresh vs k (entries vs ht [])
        empty = unfold entries in tt
