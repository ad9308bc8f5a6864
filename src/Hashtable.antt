-- ===== src/Hashtable.antt =====
-- The insertion-ordered hash table of starlark/hashtable.go, behind dict and set.
-- The memory is a function from addresses: an entry stands in a chain of buckets, at a position that
-- counts on through the chain's buckets of eight, so `(i, 8 * b + s)` is slot `s` of the bucket `b`
-- of chain `i`. `sizes i` is eight times the number of buckets of chain `i`, and `buckets`, the length
-- of the table, is 0 for a nil table.
pub mod Insertion
pub mod Removal
pub mod Memory
pub mod Segment
pub mod Linked
pub mod Unlink
pub mod Spec
pub mod Invariant
pub mod Search
pub mod Lookup
pub mod Drop
pub mod Update
pub mod Slot
pub mod Place
pub mod Pass
pub mod Grow
pub mod Put
pub mod RoundTrip
pub mod Iteration
pub mod Clear
pub mod Union
pub mod Bounds
mod Tests
use mathlib.Core.Option
use starlark_go.Common.{
  ℕ, zero, suc, ◌+◌, ◌-◌, ◌*◌, ◌%◌, ◌^◌, bit_and, Bool, true, false, ◌&&◌, ◌||◌, List, [], ◌∷◌,
  ◌++◌, Option, none, some, ltb, leb, ◌==◌, if◌then◌else◌, map,
}

-- What the table asks of Starlark values: `Hash` and `Equal`, which may report an error, and Go's nil.
pub record Values : Type 1 where
  pub Value : Type 0
  pub nil : Value
  pub hash : Value → Option ℕ
  pub equal : Value → Value → Option Bool

abbrev pub Addr : Type 0
Addr = ℕ × ℕ

abbrev pub same : Addr → Addr → Bool
same a b = a.0 == b.0 && a.1 == b.1

-- `&ht.head`, or the address of an entry's field `next`.
pub data Link : Type 0 where
  at_head : Link
  next_of : Addr → Link

-- `prev_link` is none in an entry that is not in use.
pub record Entry (V : Type 0) : Type 0 where
  pub hash_of : ℕ
  pub key : V
  pub value : V
  pub next : Option Addr
  pub prev_link : Option Link

pub record Hashtable (V : Type 0) : Type 0 where
  pub cell : Addr → Entry V
  pub sizes : ℕ → ℕ
  pub buckets : ℕ
  pub len : ℕ
  pub itercount : ℕ
  pub head : Option Addr
  pub tail_link : Link
  pub frozen : Bool

pub data Fault : Type 0 where
  frozen_table during_iteration unhashable incomparable : Fault

-- `stuck` is no outcome of the source: the recursion through `grow` ran out of fuel.
-- Either way the state that the operation leaves stands behind.
pub data Outcome (A : Type 0) : Type 0 where
  ok : A → Outcome A
  err : Fault → A → Outcome A
  stuck : Outcome A

-- How the search of a chain ends: `absent` holds the last empty slot that was seen.
pub data Scan : Type 0 where
  failed : Scan
  present : Addr → Scan
  absent : Option ℕ → Scan

-- `elems >= bucketSize && float64(elems) >= 6.5*float64(buckets)`
unfoldable pub overloaded : ℕ → ℕ → Bool
overloaded elems buckets = leb 8 elems && leb (13 * buckets) (2 * elems)

-- Zero is reserved for entries that are not in use.
unfoldable pub nonzero : ℕ → ℕ
nonzero h = if h == 0 then 1 else h

module _ {V : Type 0} where
  unfoldable pub put_cell : Addr → Entry V → Hashtable V → Hashtable V
  put_cell a e ht = record ht { cell = λ b. if same a b then e else ht.cell b }

  unfoldable pub read_link : Hashtable V → Link → Option Addr
  read_link ht at_head = ht.head
  read_link ht (next_of a) = (ht.cell a).next

  -- `*link = to`
  unfoldable pub write_link : Link → Option Addr → Hashtable V → Hashtable V
  unfolding put_cell
  write_link at_head to ht = record ht { head = to }
  write_link (next_of a) to ht = put_cell a (record (ht.cell a) { next = to }) ht

  unfoldable pub check_mutable : Hashtable V → Option Fault
  check_mutable ht =
      if ht.frozen
      then some frozen_table
      else if ltb 0 ht.itercount
      then some during_iteration
      else none

  -- `h & (len(table) - 1)`
  unfoldable pub bucket_id : Hashtable V → ℕ → ℕ
  bucket_id ht h = bit_and h (ht.buckets - 1)

  -- The items in insertion order: `for e := ht.head; e != nil; e = e.next`, with fuel.
  unfoldable pub items_from : ℕ → Hashtable V → Option Addr → List (V × V)
  items_from fuel ht none = []
  items_from zero ht (some a) = []
  items_from (suc fuel) ht (some a) =
      ((ht.cell a).key, (ht.cell a).value) ∷ items_from fuel ht (ht.cell a).next

  unfoldable pub items : Hashtable V → List (V × V)
  unfolding items_from
  items ht = items_from ht.len ht ht.head

module _ (vs : Values) where
  open vs use {Value, nil, hash, equal}

  unfoldable pub blank : Entry Value
  blank = record { hash_of = 0; key = nil; value = nil; next = none; prev_link = none }

module _ {V : Type 0} where
  -- `freeze`, but for the keys and values, which are frozen too.
  unfoldable pub freeze : Hashtable V → Hashtable V
  freeze ht = record ht { frozen = true }

  -- `iterate` and `Done`, which count the active iterators of a table that is not frozen.
  unfoldable pub iterate : Hashtable V → Hashtable V × Option Addr
  iterate ht =
      (if ht.frozen then ht else record ht { itercount = (ht.itercount + 1) % 2 ^ 32 }, ht.head)

  unfoldable pub done : Hashtable V → Hashtable V
  done ht = if ht.frozen then ht else record ht { itercount = (ht.itercount + 2 ^ 32 - 1) % 2 ^ 32 }

  -- `Next`: the key and the rest of the iteration.
  unfoldable pub advance : Hashtable V → Option Addr → Option (V × Option Addr)
  advance ht none = none
  advance ht (some a) = some ((ht.cell a).key, (ht.cell a).next)

  unfoldable pub first : Hashtable V → Option V
  first ht = Option.map (λ a. (ht.cell a).key) ht.head

  unfoldable pub keys : Hashtable V → List V
  unfolding items
  keys ht = map (λ kv. kv.0) (items ht)
