-- ===== src/Hashtable/Tests.antt =====
-- Tables of numbers, and the theorems about the hash table at them.
use starlark_go.Common.{
  ℕ, ◌+◌, ◌%◌, ◌^◌, ◌<◌, ◌≡◌, refl, sym, ◌∙◌, ap, subst, true, false, List, [], ◌∷◌, none, some,
  ◌≢◌, ◌==◌, ==_iff, arith, length, inr,
}
use starlark_go.Hashtable.{
  Values, Addr, at_head, Hashtable, Outcome, ok, err, stuck, Fault, during_iteration, items, keys,
  iterate, done, check_mutable, blank, overloaded, bucket_id,
}
use starlark_go.Hashtable.Removal.{lookup, delete, clear}
use starlark_go.Hashtable.Insertion.{insert, add_all, add_items, init}
use starlark_go.Hashtable.Spec.{IsLawful, lookup_item, put_item}
use starlark_go.Hashtable.Invariant.{IsTable}
use starlark_go.Hashtable.Lookup.{lookup-items}
use starlark_go.Hashtable.Pass.{Holds}
use starlark_go.Hashtable.Grow.{Puts, IsTable-empty}
use starlark_go.Hashtable.Put.{insert-put_item}
use starlark_go.Hashtable.Drop.{Deletes, delete-drop_item}
use starlark_go.Hashtable.RoundTrip.{insert-lookup}
use starlark_go.Hashtable.Iteration.{
  Yields, Change, attempts, iterate-Yields, refused, iterate-done,
}
use starlark_go.Hashtable.Clear.{clear-empty}
use starlark_go.Hashtable.Union.{Filled, put_items, add_all-put_items, length-items}
use starlark_go.Hashtable.Bounds.{init-load, bucket_id_bound}

-- Numbers as keys, with many collisions.
abbrev numbers : Values
numbers = record { Value = ℕ; nil = 0; hash = λ k. some (k % 4); equal = λ a b. some (a == b) }

numbers-IsLawful : IsLawful numbers
numbers-IsLawful = record {
  equal_total = λ a b. (a == b, refl);
  equal_refl = λ a. ap some ((==_iff a a).1 refl);
  equal_sym = λ a b e. ap some ((==_iff b a).1 (sym (same a b e)));
  equal_trans = λ a b c p q. ap some ((==_iff a c).1 (same a b p ∙ same b c q));
  hash_equal = λ a b e. ap (λ (k : ℕ). some (k % 4)) (same a b e);
}
  where
    same : (a b : ℕ) → some (a == b) ≡ some true → a ≡ b
    same a b e = let t : (a == b) ≡ true = cc in (==_iff a b).0 t

abbrev nil_table : Hashtable ℕ
nil_table = record {
  cell = λ _. record { hash_of = 0; key = 0; value = 0; next = none; prev_link = none };
  sizes = λ _. 8;
  buckets = 0;
  len = 0;
  itercount = 0;
  head = none;
  tail_link = at_head;
  frozen = false;
}

nil_table-IsTable : IsTable numbers nil_table []
unfolding blank
nil_table-IsTable = IsTable-empty numbers nil_table (λ _. refl) refl refl refl

abbrev state : Outcome (Hashtable ℕ) → Hashtable ℕ
state (ok ht) = ht
state (err fault ht) = ht
state stuck = nil_table

nine : List (ℕ × ℕ)
nine =
    (0, 10) ∷ (4, 11) ∷ (1, 12) ∷ (8, 13) ∷ (2, 14) ∷ (12, 15) ∷ (3, 16) ∷ (16, 17) ∷ (20, 18) ∷ []

-- The ninth item makes the table grow.
nine_held : items (state (add_items numbers nine nil_table)) ≡ nine
unfolding nine add_items items
nine_held = refl

one : Hashtable ℕ
unfolding insert
one = state (insert numbers nil_table 5 50)

one_held : items one ≡ (5, 50) ∷ []
unfolding one items
one_held = refl

nine_grown : (state (add_items numbers nine nil_table)).buckets ≡ 2
unfolding nine add_items
nine_grown = refl

-- The table of one item is well formed, since `insert` made it.
one_made : Puts numbers nil_table 5 50 (insert numbers nil_table 5 50)
one_made =
    insert-put_item numbers numbers-IsLawful nil_table [] nil_table-IsTable 5 50 1
      (unfold check_mutable in refl) refl (omega arith)

one-Holds : Holds numbers nil_table one_made.0 (put_item numbers 5 50 (items nil_table)) one
unfolding one
one-Holds =
    let (nb, made) = one_made in
    let (after, out, h) = made in
    subst (Holds numbers nil_table nb (put_item numbers 5 50 (items nil_table)))
      (sym (ap state out)) h

one_order : List Addr
one_order = one-Holds.order

one-IsTable : IsTable numbers one one_order
unfolding one_order
one-IsTable = one-Holds.table

one_length : length one_order ≡ 1
one_length = sym (length-items numbers one one_order one-IsTable) ∙ ap length one_held

one_mutable : check_mutable one ≡ none
unfolding one check_mutable
one_mutable = refl

insert-put_item_example : Puts numbers one 9 90 (insert numbers one 9 90)
insert-put_item_example =
    insert-put_item numbers numbers-IsLawful one one_order one-IsTable 9 90 1 one_mutable refl
      (omega (arith, one_length))

lookup-items_example : lookup numbers one 9 ≡ ok (lookup_item numbers 9 (items one))
lookup-items_example = lookup-items numbers numbers-IsLawful one one_order one-IsTable 9 1 refl

delete-drop_item_example : Deletes numbers one 5 (delete numbers one 5)
delete-drop_item_example =
    delete-drop_item numbers numbers-IsLawful one one_order one-IsTable 5 one_mutable 1 refl

insert-lookup_example :
    (after : Hashtable ℕ) × (insert numbers one 9 90 ≡ ok after)
    × (lookup numbers after 9 ≡ ok (some 90))
    × ((j : ℕ) (other : ℕ)
        → some (j % 4) ≡ some other
        → some (j == 9) ≢ some true
        → lookup numbers after j ≡ lookup numbers one j)
insert-lookup_example =
    insert-lookup numbers numbers-IsLawful one one_order one-IsTable 9 90 1 one_mutable refl
      (omega (arith, one_length))

iterate-Yields_example : Yields one (iterate one).1 (keys one)
iterate-Yields_example = iterate-Yields numbers one one_order one-IsTable

abbrev calls : List (Change numbers)
calls = Change.inserting 9 90 ∷ Change.deleting 5 ∷ Change.clearing ∷ []

-- The table `one` with an iterator on it.
refused_example : attempts numbers calls (iterate one).0 ≡ (
  some during_iteration ∷ some during_iteration ∷ some during_iteration ∷ [],
  some (iterate one).0,
)
unfolding one iterate
refused_example = refused numbers calls (iterate one).0 (inr (omega arith))

iterate-done_example :
    (fault : Fault) × (check_mutable (iterate one).0 ≡ some fault) × (done (iterate one).0 ≡ one)
iterate-done_example = iterate-done one few
  where
    few : one.itercount + 1 < 2 ^ 32
    few = unfold one in omega arith

clear-empty_example :
    (after : Hashtable ℕ) × (clear numbers one ≡ ok after)
    × IsTable numbers after []
    × (items after ≡ [])
clear-empty_example = clear-empty numbers one one_order one-IsTable one_mutable

add_all-put_items_example :
    Filled numbers (put_items numbers (items one) (items nil_table)) (add_all numbers nil_table one)
add_all-put_items_example =
    add_all-put_items numbers numbers-IsLawful nil_table one [] one_order nil_table-IsTable
      one-IsTable (unfold check_mutable in refl) (omega (arith, one_length))

init-load_example :
    ((p : ℕ) × ((init numbers 100 nil_table).buckets ≡ 2 ^ p))
    × (overloaded 100 (init numbers 100 nil_table).buckets ≡ false)
init-load_example = init-load numbers 100 nil_table

bucket_id_bound_example : bucket_id one 7 < one.buckets
bucket_id_bound_example = bucket_id_bound one 7 has_bucket
  where
    has_bucket : one.buckets ≢ 0
    has_bucket = unfold one in λ e. absurd (omega arith)
